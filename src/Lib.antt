-- ===== src/Lib.antt =====
-- MaxEd (balancecheck): an assistant that drafts replies about a client's account, checks every
-- claim of a draft against the ledger, and lets a draft reach a person only through a gate of
-- plain rules.
--
-- The parts and the files that model them:
-- * Contracts (contracts/models.py): the ledger, claims, verdicts, decisions and events.
-- * Money, Money/Parse (substrate/money.py): cents, `render`, `parse_dollars`, `whole_percent`.
-- * Derive and its children (substrate/derive.py): open and unapplied amounts, the balance, the
--   ambiguous allocations, `signature`, `validate_ledger` and `recompute_net_balance_naive`.
-- * Amounts, Amounts/Words (drafting/surface.py): `parse_amount_token` and the number words.
-- * Surface and its children (drafting/surface.py): `Surface/Patterns` and `Surface/Phrases` hold the
--   expressions, `Surface/Spans` the spans and `classify_amount`, `Surface/Detect` the detectors of
--   `_detect_in_sentence`, `Surface/Extract` is `extract_claims`.
-- * Agentic and its children (drafting/agentic.py): `_required_evidence`, `_satisfied` and
--   `_validate_step`; Agentic/Session is `_ToolSession`, Agentic/Prompt the prompt of a step and
--   Agentic/Loop `generate_agentic_revision`.
-- * Tools, Tools/Registry (drafting/tools.py): the six tools, `TOOL_REGISTRY`, `execute_tool`.
-- * Json, Contracts/JsonValues: JSON values, `json.dumps` with sorted keys, and dictionaries as the agent uses them.
-- * Dates, Dates/Token and Checks with its children (checks/checks.py): a file for each checker,
--   Checks/Registry for `run_code_checks`, `run_fuzzy_checks` and `check_all`.
-- * Score (bench/score.py): `grounding`, `completeness_items`, `completeness`, `build_score_event`.
-- * Gate, Gate/Itemization, Gate/Matrix (gate/policy.py): the corrections, the rows of
--   `_match_matrix` and `decide`; Gate/Concern, Gate/Severity and Gate/Acceptable grade what a claim does to its
--   draft, apart from the rows; Gate/Gaps (gate/gaps.py): `derive_gap` and `aggregate_gaps`.
-- * Spine (spine/events.py): `append_event`, `line_count`, `read_events`, and `_events_with_offsets` of
--   memory/ingest.py, on the characters of the log's file: the readers take it as text, with universal
--   newlines, the appender and the counter as bytes.
-- * Runner, Runner/Loop (runner.py): `run_scenario`, its rounds and its terminal step;
--   Runner/Assembled runs it on the extractor, the drafter and the agent of this library.
-- * Memory (memory/store.py): `MemoryStore.add` and `retrieve`; Memory/Ingest (memory/ingest.py).
-- * Drafter (drafting/drafter.py): `render_ledger_block`, `build_draft_prompt`, `generate_draft`.
-- * Oracle, Oracle/Grounding (bench/oracle.py): the oracle's own replay, figures and score of a draft.
-- * Pairwise (bench/pairwise.py): `map_winner` and `pairwise_both_orders`.
-- * Base and Regex are shared: lists, dictionaries, results, integers, and a backtracking matcher for
--   the regular expressions of the source. All paths are below balancecheck/.
--
-- The checks write a verdict into each claim, the gate reads the claims and the ledger, the scorer
-- reads the draft through the extractor, and the gate's completeness row calls the scorer.
-- Gate/Extracted puts the extractor, the checks and the gate together. The agent calls the tools,
-- which call the derivations and the extractor's canonical identifiers. The ingest reads the human
-- decisions of the log, adds to the store, and appends to the log what it did. The runner drafts,
-- checks and decides in rounds, and logs each step.
--
-- Modelling. A call that may raise returns `Result`: `ok` or `raise` with the exception's kind and
-- its text, without the repr of the offending token. Amounts of documents are natural numbers (the
-- contracts ask for more than zero), sums are integers; a date is its ordinal. An in-place update
-- of a claim is the new claim in the new list. The expressions `\d`, `\s`, `\w`, `lower` and
-- `upper` are those of ASCII. `int` of more than 4300 digits raises, in `parse_dollars` and
-- `parse_cents`; printing an integer is total, as no amount of a ledger comes near that limit. A
-- look-behind is a test of the characters before the place. The spans of amounts of a sentence are
-- sorted by where they start, which no two share. The client of the fuzzy verifier is an arbitrary
-- function of the claim whose answer may lack the verdict, and the scorer, the gate and the runner
-- take the extractor as an argument, and the runner the drafter and the agent: their theorems hold
-- for every one of them. The agent's model, its executor and the hash of a prompt are functions it
-- takes; `repr` of a value and `dict()` of one that is not an object are a record `Python` of
-- functions; the validator of schemas is a function of the arguments and the schema that accepts,
-- refuses with a message, or raises something else. JSON values have no floats. The session of the
-- agent carries the part of the log that it wrote; the lines that the client itself traces are not
-- in it. An agent's budgets are natural numbers. The drafter and the pairwise judge take the
-- sections of their templates, and the oracle reads the fixture as the ledger it holds. The clock
-- fields of events are left out, and the weight of a memory entry is a whole number, as the source
-- only uses 2.0 and 1.0. The matcher of Regex recurs on the text that is left, so it needs no
-- fuel; `grouped` has fuel one above the number, which is enough since each step divides by a
-- thousand; the loop that evicts has the number of entries, and each round removes one.
--
-- Not modelled: the model client, files, the parsing of JSON, the texts of the system prompts, the
-- report, the fixture generator and the command line, which are I/O and text layout; nor the
-- reference replies of drafting/golden.py, the error injection and the calibration.
pub mod Base
pub mod Contracts
pub mod Regex
pub mod Money
pub mod Derive
pub mod Amounts
pub mod Dates
pub mod Oracle
pub mod Pairwise
pub mod Surface
pub mod Checks
pub mod Score
pub mod Gate
pub mod Spine
pub mod Memory
pub mod Json
pub mod Tools
pub mod Agentic
pub mod Drafter
pub mod Runner
