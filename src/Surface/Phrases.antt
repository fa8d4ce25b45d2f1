-- ===== src/Surface/Phrases.antt =====
-- The phrases that the detector of balancecheck/drafting/surface.py reads: status words, fuzzy
-- assertions, and what names the figure that an amount refers to.
use max_ed.Base.{String, List, [], ◌∷◌}
use max_ed.Amounts.{whole_word, word, spaced}
use max_ed.Regex.{Regex, seq, alt, opt, word_boundary, chars, space_class, plus, one_of}
use max_ed.Surface.Patterns.{words, determiner}

-- A stem with one of the endings, and with one of them or none.
abbrev ending : String → List String → Regex
unfolding chars
ending s es = seq (word s) (words es)

abbrev may_end : String → List String → Regex
unfolding chars
may_end s es = seq (word s) (opt (words es))

-- Two phrases with blanks between them.
infixr 40 ◌then_◌
abbrev ◌then_◌ : Regex → Regex → Regex
r then_ s = seq r (seq (plus space_class) s)

unfoldable pub status_re : Regex
unfolding chars
status_re = whole_word (
    alt (spaced ("past" ∷ "due" ∷ []))
      (words ("unpaid" ∷ "paid" ∷ "outstanding" ∷ "overdue" ∷ "settled" ∷ "cleared" ∷ [])))

-- `nothing\s+(?:further\s+)?(?:is\s+)?owed`
abbrev nothing_owed : Regex
unfolding chars
nothing_owed =
    word "nothing"
    then_ seq (determiner ("further" ∷ [])) (seq (determiner ("is" ∷ [])) (word "owed"))

-- `no\s+longer\s+owed?`
abbrev no_longer_owed : Regex
unfolding chars
no_longer_owed = spaced ("no" ∷ "longer" ∷ []) then_ may_end "owe" ("d" ∷ [])

unfoldable pub status_paraphrase_re : Regex
unfolding chars
status_paraphrase_re = whole_word (
    one_of (
      spaced ("taken" ∷ "care" ∷ "of" ∷ [])
      ∷ spaced ("paid" ∷ "off" ∷ [])
      ∷ spaced ("paid" ∷ "in" ∷ "full" ∷ [])
      ∷ spaced ("settled" ∷ "in" ∷ "full" ∷ [])
      ∷ spaced ("cleared" ∷ "up" ∷ [])
      ∷ nothing_owed
      ∷ no_longer_owed
      ∷ spaced ("fully" ∷ "paid" ∷ [])
      ∷ []))

unfoldable pub fuzzy_re : Regex
unfolding chars
fuzzy_re = whole_word (
    one_of (
      may_end "approve" ("d" ∷ [])
      ∷ word "approval"
      ∷ may_end "agree" ("d" ∷ [])
      ∷ word "agreement"
      ∷ ending "waiv" ("e" ∷ "ed" ∷ "er" ∷ "ing" ∷ [])
      ∷ ending "promis" ("e" ∷ "ed" ∷ "es" ∷ "ing" ∷ [])
      ∷ may_end "confirm" ("s" ∷ "ed" ∷ "ing" ∷ [])
      ∷ may_end "discuss" ("ed" ∷ "es" ∷ "ing" ∷ "ion" ∷ [])
      ∷ ending "arrang" ("e" ∷ "ed" ∷ "es" ∷ "ing" ∷ "ement" ∷ [])
      ∷ word "spoke"
      ∷ word "spoken"
      ∷ word "told"
      ∷ may_end "call" ("ed" ∷ [])
      ∷ spaced ("account" ∷ "manager" ∷ [])
      ∷ spaced ("as" ∷ "we" ∷ "discussed" ∷ [])
      ∷ spaced ("per" ∷ "our" ∷ "conversation" ∷ [])
      ∷ spaced ("taken" ∷ "care" ∷ "of" ∷ [])
      ∷ spaced ("paid" ∷ "off" ∷ [])
      ∷ spaced ("settled" ∷ "in" ∷ "full" ∷ [])
      ∷ nothing_owed
      ∷ no_longer_owed
      ∷ []))

unfoldable pub sum_context_re : Regex
unfolding chars
sum_context_re = whole_word (
    one_of (
      word "total"
      ∷ (word "balance" then_ words ("due" ∷ "of" ∷ "is" ∷ []))
      ∷ spaced ("amount" ∷ "due" ∷ [])
      ∷ may_end "owe" ("s" ∷ [])
      ∷ word "owed"
      ∷ word "owing"
      ∷ []))

unfoldable pub total_marker_re : Regex
unfolding chars
total_marker_re = whole_word (
    one_of (
      spaced ("your" ∷ "account" ∷ [])
      ∷ spaced ("the" ∷ "account" ∷ [])
      ∷ spaced ("account" ∷ "balance" ∷ [])
      ∷ spaced ("net" ∷ "balance" ∷ [])
      ∷ spaced ("total" ∷ "balance" ∷ [])
      ∷ spaced ("balance" ∷ "due" ∷ "on" ∷ [])
      ∷ spaced ("total" ∷ "amount" ∷ "due" ∷ [])
      ∷ spaced ("total" ∷ "due" ∷ [])
      ∷ spaced ("grand" ∷ "total" ∷ [])
      ∷ spaced ("in" ∷ "total" ∷ [])
      ∷ word "altogether"
      ∷ word "combined"
      ∷ word "total"
      ∷ []))

unfoldable pub subtotal_cue_re : Regex
unfolding chars
subtotal_cue_re = whole_word (
    one_of (
      may_end "invoice" ("s" ∷ [])
      ∷ (word "line" then_ may_end "item" ("s" ∷ []))
      ∷ (word "open" then_ may_end "item" ("s" ∷ []))
      ∷ []))

-- `_BALANCE_OBJECT_RE` has a boundary at its end only.
unfoldable pub balance_object_re : Regex
unfolding chars
balance_object_re =
    word "of"
    then_ seq (determiner ("the" ∷ "this" ∷ "that" ∷ "your" ∷ []))
        (seq (words ("balance" ∷ "total" ∷ "amount" ∷ "account" ∷ [])) word_boundary)

unfoldable pub role_original_re : Regex
unfolding chars
role_original_re = whole_word (
    one_of (
      word "originally"
      ∷ spaced ("original" ∷ "amount" ∷ [])
      ∷ spaced ("issued" ∷ "for" ∷ [])
      ∷ (word "was" then_ seq (determiner ("issued" ∷ [])) (word "for"))
      ∷ (word "billed" then_ words ("for" ∷ "at" ∷ []))
      ∷ (word "invoiced" then_ words ("for" ∷ "at" ∷ []))
      ∷ spaced ("face" ∷ "value" ∷ [])
      ∷ spaced ("full" ∷ "amount" ∷ [])
      ∷ []))

unfoldable pub role_applied_re : Regex
unfolding chars
role_applied_re =
    whole_word (alt (words ("paid" ∷ "applied" ∷ "remitted" ∷ [])) (spaced ("of" ∷ "which" ∷ [])))

unfoldable pub role_open_re : Regex
unfolding chars
role_open_re = whole_word (
    one_of (
      word "open"
      ∷ word "remaining"
      ∷ word "remains"
      ∷ word "outstanding"
      ∷ spaced ("still" ∷ "due" ∷ [])
      ∷ spaced ("now" ∷ "due" ∷ [])
      ∷ spaced ("currently" ∷ "due" ∷ [])
      ∷ spaced ("amount" ∷ "due" ∷ [])
      ∷ spaced ("balance" ∷ "due" ∷ [])
      ∷ spaced ("balance" ∷ "of" ∷ [])
      ∷ word "left"
      ∷ word "owing"
      ∷ word "owed"
      ∷ word "due"
      ∷ []))

-- The pattern of `decomposition`.
unfoldable pub decomposition_re : Regex
unfolding chars
decomposition_re = whole_word (
    one_of (
      word "originally"
      ∷ spaced ("original" ∷ "amount" ∷ [])
      ∷ spaced ("of" ∷ "which" ∷ [])
      ∷ word "leaving"
      ∷ may_end "partial" ("ly" ∷ [])
      ∷ []))
