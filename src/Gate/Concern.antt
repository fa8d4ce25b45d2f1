-- ===== src/Gate/Concern.antt =====
-- How severe a claim is for its draft, by its kind and its verdict, and the lists of gate/policy.py as the
-- claims that raise each concern.
use max_ed.Base.{
  ◌≡◌, refl, Bool, true, false, not, ◌&&◌, ◌||◌, Option, none, some, List, [], ◌∷◌, arith,
  if◌then◌else◌, is_some, filter,
}
use max_ed.Contracts.{
  ClaimType, c_exist, c_amt, c_sum, c_status, c_date, c_fuzzy, CheckStatus, pass, fail, unsupported,
  cannot_determine, unverifiable, Claim,
}
use max_ed.Gate.{status_of, same_status, is_fuzzy, is_existence, code_fail_kind}
use max_ed.Gate.Matrix.{
  exist_fails, unverifiable_claims, code_fails, fuzzy_unsupported, fuzzy_cannot,
}

-- What a claim can do to its draft, the most severe first.
pub data Concern : Type 0 where
  fabricated never_verified contradicted unsupported_text undetermined : Concern

abbrev pub worse_than : Concern → List Concern
worse_than fabricated = []
worse_than never_verified = fabricated ∷ []
worse_than contradicted = fabricated ∷ never_verified ∷ []
worse_than unsupported_text = fabricated ∷ never_verified ∷ contradicted ∷ []
worse_than undetermined = fabricated ∷ never_verified ∷ contradicted ∷ unsupported_text ∷ []

-- The concern of a verdict, by the kind of the claim; a claim without one was never verified.
abbrev of_fail : ClaimType → Option Concern
of_fail c_exist = some fabricated
of_fail c_amt = some contradicted
of_fail c_sum = some contradicted
of_fail c_status = some contradicted
of_fail c_date = some contradicted
of_fail c_fuzzy = none

abbrev pub concern : ClaimType → Option CheckStatus → Option Concern
concern t none = some never_verified
concern t (some unverifiable) = some never_verified
concern t (some pass) = none
concern t (some fail) = of_fail t
concern t (some unsupported) = if is_fuzzy t then some unsupported_text else none
concern t (some cannot_determine) = if is_fuzzy t then some undetermined else none

abbrev pub concern_of : Claim → Option Concern
concern_of c = concern c.claim_type (status_of c)

abbrev same_concern : Concern → Concern → Bool
same_concern fabricated fabricated = true
same_concern never_verified never_verified = true
same_concern contradicted contradicted = true
same_concern unsupported_text unsupported_text = true
same_concern undetermined undetermined = true
same_concern _ _ = false

abbrev pub is_concern : Concern → Option Concern → Bool
is_concern k none = false
is_concern k (some j) = same_concern k j

abbrev pub raises : Concern → Claim → Bool
raises k c = is_concern k (concern_of c)

abbrev has : CheckStatus → Option CheckStatus → Bool
has s o = elim o [ none ↦ false | some t ↦ same_status t s ]

-- The five tests of the matrix, on the kind and the status of a claim.
abbrev Read : ClaimType → Option CheckStatus → Type 0
Read t o =
    ((is_existence t && has fail o) ≡ is_concern fabricated (concern t o))
    × ((has unverifiable o || not (is_some o)) ≡ is_concern never_verified (concern t o))
    × ((is_some (code_fail_kind t) && has fail o) ≡ is_concern contradicted (concern t o))
    × ((is_fuzzy t && has unsupported o) ≡ is_concern unsupported_text (concern t o))
    × ((is_fuzzy t && has cannot_determine o) ≡ is_concern undetermined (concern t o))

concern-Read : (t : ClaimType) (o : Option CheckStatus) → Read t o
concern-Read t none = (ground arith, refl, ground arith, ground arith, ground arith)
concern-Read t (some pass) = (ground arith, refl, ground arith, ground arith, ground arith)
concern-Read t (some unverifiable) = (ground arith, refl, ground arith, ground arith, ground arith)
concern-Read c_exist (some fail) = (refl, refl, refl, refl, refl)
concern-Read c_amt (some fail) = (refl, refl, refl, refl, refl)
concern-Read c_sum (some fail) = (refl, refl, refl, refl, refl)
concern-Read c_status (some fail) = (refl, refl, refl, refl, refl)
concern-Read c_date (some fail) = (refl, refl, refl, refl, refl)
concern-Read c_fuzzy (some fail) = (refl, refl, refl, refl, refl)
concern-Read t (some unsupported) =
    (ground arith, ground arith, ground arith, ground arith, ground arith)
concern-Read t (some cannot_determine) =
    (ground arith, ground arith, ground arith, ground arith, ground arith)

filter-same :
    (p q : Claim → Bool) (cs : List Claim) → ((c : Claim) → p c ≡ q c) → filter p cs ≡ filter q cs
filter-same p q [] h = refl
filter-same p q (c ∷ cs) h = rw (h c, filter-same p q cs h)

pub exist_fails-eq : (cs : List Claim) → exist_fails cs ≡ filter (raises fabricated) cs
unfolding exist_fails
exist_fails-eq cs = filter-same _ _ cs (λ c. (concern-Read c.claim_type (status_of c)).0)

pub unverifiable_claims-eq :
    (cs : List Claim) → unverifiable_claims cs ≡ filter (raises never_verified) cs
unfolding unverifiable_claims
unverifiable_claims-eq cs = filter-same _ _ cs (λ c. (concern-Read c.claim_type (status_of c)).1)

pub code_fails-eq : (cs : List Claim) → code_fails cs ≡ filter (raises contradicted) cs
unfolding code_fails
code_fails-eq cs = filter-same _ _ cs (λ c. (concern-Read c.claim_type (status_of c)).2)

pub fuzzy_unsupported-eq :
    (cs : List Claim) → fuzzy_unsupported cs ≡ filter (raises unsupported_text) cs
unfolding fuzzy_unsupported
fuzzy_unsupported-eq cs = filter-same _ _ cs (λ c. (concern-Read c.claim_type (status_of c)).3)

pub fuzzy_cannot-eq : (cs : List Claim) → fuzzy_cannot cs ≡ filter (raises undetermined) cs
unfolding fuzzy_cannot
fuzzy_cannot-eq cs = filter-same _ _ cs (λ c. (concern-Read c.claim_type (status_of c)).4)
