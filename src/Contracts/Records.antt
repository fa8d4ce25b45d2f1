-- ===== src/Contracts/Records.antt =====
-- The ledger records of balancecheck/contracts/models.py. Money is in integer cents; the contract
-- admits positive amounts only (`Field(gt=0)`), so an amount is a natural number. A date is its
-- proleptic ordinal (`date.toordinal`): the code compares dates and subtracts days from them.
use max_ed.Base.{ℕ, String, List, [], ◌∷◌, Bool, ◌<◌, All}

abbrev pub Date : Type 0
Date = ℕ

pub record ClientInfo : Type 0 where
  pub id : String
  pub name : String
  pub terms_days : ℕ
  pub as_of : Date

pub record Invoice : Type 0 where
  pub id : String
  pub date : Date
  pub due : Date
  pub amount_cents : ℕ
  pub memo : String

pub record Payment : Type 0 where
  pub id : String
  pub date : Date
  pub amount_cents : ℕ
  pub method : String
  pub reference : String

pub record CreditMemo : Type 0 where
  pub id : String
  pub date : Date
  pub amount_cents : ℕ
  pub reason : String

-- Applies a payment or a credit memo to an invoice.
pub record Application : Type 0 where
  pub source_id : String
  pub target_invoice : String
  pub amount_cents : ℕ

pub data Pool : Type 0 where
  pool_a pool_b : Pool

-- `STRUCTURE_LABELS`
abbrev pub structure_labels : List String
structure_labels =
    "has_unapplied_cash" ∷ "has_partial" ∷ "has_open_credit" ∷ "has_near_duplicate"
    ∷ "has_cutoff_risk" ∷ "has_ambiguous_allocation" ∷ []

-- A signature, `dict[str, bool]`.
abbrev pub Signature : Type 0
Signature = List (String × Bool)

pub record Ledger : Type 0 where
  pub scenario_id : String
  pub pool : Pool
  pub labels : List String
  pub client : ClientInfo
  pub invoices : List Invoice
  pub payments : List Payment
  pub credit_memos : List CreditMemo
  pub applications : List Application

-- `Field(gt=0)` of each amount.
pub record HasPositiveAmounts (l : Ledger) : Type 0 where
  pub invoices : All (λ (i : Invoice). 0 < i.amount_cents) l.invoices
  pub payments : All (λ (p : Payment). 0 < p.amount_cents) l.payments
  pub credit_memos : All (λ (c : CreditMemo). 0 < c.amount_cents) l.credit_memos
  pub applications : All (λ (a : Application). 0 < a.amount_cents) l.applications
