-- ===== src/Surface/Candidates.antt =====
-- The candidates of a sentence, by their kinds: `_detect_in_sentence` of
-- balancecheck/drafting/surface.py.
use Prim.Native.Char.{Char}
use max_ed.Base.{
  ℕ, ◌+◌, String, refl, inl, inr, List, [], ◌∷◌, ◌++◌, map, Bool-cases, All, All-append, contains,
}
use max_ed.Contracts.{Ledger}
use max_ed.Surface.{Candidate, Mention, id_mentions}
use max_ed.Surface.Spans.{Span, amount_spans, date_spans}
use max_ed.Surface.Detect.{
  candidate, exist_candidates, amount_candidate, date_candidate, status_candidate,
  status_candidates, status_hits, fuzzy_candidates, detect_in_sentence,
}
use max_ed.Surface.Extract.{detect_all}
use max_ed.Surface.Covers.{NamesDoc}

All-list {ℓ} : {A : Type ℓ} (P : A → Type 0) (xs : List A) → ((x : A) → P x) → All P xs
All-list P [] f = tt
All-list P (x ∷ xs) f = (f x, All-list P xs f)

All-map_list {ℓ} :
    {A B : Type ℓ} (P : B → Type 0) (f : A → B) (xs : List A)
    → ((x : A) → P (f x))
    → All P (map f xs)
All-map_list P f [] h = tt
All-map_list P f (x ∷ xs) h = (h x, All-map_list P f xs h)

-- A property of every kind of candidate is one of every candidate.
pub record Candidates (P : Candidate → Type 0) (sent_idx : ℕ) (sentence : List Char) (l : Ledger)
    : Type 0 where
  pub exists :
      (seen : List String) (ms : List Mention) → All P (exist_candidates sent_idx sentence seen ms)
  pub amounts :
      (ms : List Mention) (spans : List Span) (s : Span)
      → P (amount_candidate sent_idx sentence ms spans s)
  pub dates :
      (ms : List Mention) (amounts dates : List Span) (s : Span)
      → P (date_candidate sent_idx sentence ms amounts dates s)
  pub statuses :
      (ms : List Mention) (hit : ℕ × String) → P (status_candidate sent_idx sentence ms hit)
  pub fuzzy : All P (fuzzy_candidates sent_idx sentence)

pub Candidates-All :
    (P : Candidate → Type 0) (sent_idx : ℕ) (sentence : List Char) (l : Ledger)
    → Candidates P sent_idx sentence l
    → All P (detect_in_sentence sent_idx sentence l)
unfolding detect_in_sentence status_candidates
Candidates-All P n s l h =
    let ms = id_mentions s l in
    let amounts = amount_spans s in
    let dates = date_spans s in
    All-append P (exist_candidates n s [] ms) _ (h.exists [] ms) (
      All-append P (map (amount_candidate n s ms amounts) amounts) _
        (All-map_list P _ amounts (h.amounts ms amounts))
        (All-append P (map (date_candidate n s ms amounts dates) dates) _
          (All-map_list P _ dates (h.dates ms amounts dates))
          (All-append P (status_candidates n s ms) _ (hits ms) h.fuzzy)))
  where
    hits : (ms : List Mention) → All P (status_candidates n s ms)
    hits [] = tt
    hits (m ∷ ms) =
        All-map_list P (status_candidate n s (m ∷ ms)) (status_hits n s) (h.statuses (m ∷ ms))

pub detect_all-All :
    (P : Candidate → Type 0) (l : Ledger)
    → ((n : ℕ) (s : List Char) → Candidates P n s l)
    → (n : ℕ) (ss : List (List Char)) → All P (detect_all n ss l)
unfolding detect_all
detect_all-All P l h n [] = tt
detect_all-All P l h n (s ∷ ss) =
    All-append P (detect_in_sentence n s l) _ (Candidates-All P n s l (h n s))
      (detect_all-All P l h (n + 1) ss)

-- A candidate for a document carries its identifier.
pub exist_candidates-NamesDoc :
    (n : ℕ) (s : List Char) (seen : List String) (ms : List Mention)
    → All NamesDoc (exist_candidates n s seen ms)
unfolding exist_candidates candidate
exist_candidates-NamesDoc n s seen [] = tt
exist_candidates-NamesDoc n s seen ((at, cid) ∷ ms) = elim (Bool-cases (contains cid seen)) [
  | inl old ↦ rw old (exist_candidates-NamesDoc n s seen ms)
  | inr new ↦ rw new (λ _. refl, exist_candidates-NamesDoc n s (seen ++ (cid ∷ [])) ms)
]
