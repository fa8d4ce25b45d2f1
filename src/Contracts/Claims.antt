-- ===== src/Contracts/Claims.antt =====
-- Claims, check results and gate decisions of balancecheck/contracts/models.py.
use max_ed.Base.{String, List, Bool, true, false, Option}

pub data ClaimType : Type 0 where
  c_exist c_amt c_sum c_status c_date c_fuzzy : ClaimType

-- Membership in `CODE_CHECKED_TYPES`.
abbrev pub code_checked : ClaimType → Bool
code_checked c_exist = true
code_checked c_amt = true
code_checked c_sum = true
code_checked c_status = true
code_checked c_date = true
code_checked c_fuzzy = false

pub data CheckStatus : Type 0 where
  pass fail unsupported cannot_determine unverifiable : CheckStatus

pub data GateAction : Type 0 where
  revise abstain escalate human_gate : GateAction

pub data HumanAction : Type 0 where
  approve edit decline : HumanAction

pub data GapCategory : Type 0 where
  allocation_reference remittance_advice document_absent ambiguous_reference : GapCategory
  unverifiable_quant tool_absent other : GapCategory

pub data InvoiceStatus : Type 0 where
  paid outstanding overdue : InvoiceStatus

-- `InvoiceStatus.value`
unfoldable pub status_value : InvoiceStatus → String
status_value paid = "paid"
status_value outstanding = "outstanding"
status_value overdue = "overdue"

pub record CheckResult : Type 0 where
  pub status : CheckStatus
  pub expected : String
  pub actual : String
  pub cited_records : List String
  pub detail : String

-- The values of the class `AmountRole`.
abbrev pub role_open : String
role_open = "open"

abbrev pub role_original : String
role_original = "original"

abbrev pub role_applied : String
role_applied = "applied"

abbrev pub role_total : String
role_total = "total"

abbrev pub role_unknown : String
role_unknown = ""

pub record Claim : Type 0 where
  pub claim_id : String
  pub claim_type : ClaimType
  pub span : String
  pub token : String
  pub check_result : Option CheckResult
  pub subject_ids : List String
  pub role : String
  pub subject_id : String

pub record Finding : Type 0 where
  pub kind : String
  pub claim_id : String
  pub span : String
  pub detail : String
  pub correction : String

pub record GateDecision : Type 0 where
  pub action : GateAction
  pub reason : String
  pub findings : List Finding
  pub payload : String
