-- ===== src/Surface/Intervals.antt =====
-- The intervals that the detectors of a sentence claim, `_IntervalSet` of
-- balancecheck/drafting/surface.py: they are disjoint, and every match meets one of them.
use mathlib.Core.Path.{subst}
use max_ed.Base.{
  ◌≡◌, refl, sym, ap, ◌∙◌, ◌⊎◌, inl, inr, true, false, List, [], ◌∷◌, ◌++◌, map, arith, Bool-cases,
  any, All, All-append, or_left, Any, Any-map, Any-append_left, Any-append_right,
}
use max_ed.Regex.{of_chars}
use max_ed.Regex.Find.{Match}
use max_ed.Surface.{Interval, overlaps, claim_interval}
use max_ed.Surface.Spans.{Kind, Span, claim_match}

abbrev pub bounds : Span → Interval
bounds s = (s.start, s.stop)

-- Two spans with no character in common.
abbrev pub Disjoint : Span → Span → Type 0
Disjoint s t = overlaps s.start s.stop (bounds t) ≡ false

abbrev pub Apart : List Span → Type 0
Apart [] = Unit
Apart (s ∷ ss) = All (Disjoint s) ss × Apart ss

-- A span is that of the match, or has a character in common with it.
abbrev pub Meets : Match → Span → Type 0
Meets m s =
    ((s.start ≡ m.start) × (s.stop ≡ m.stop) × (s.token ≡ of_chars m.group))
    ⊎ (overlaps m.start m.stop (bounds s) ≡ true)

abbrev pub State : Type 0
State = List Interval × List Span

-- The intervals are those claimed before and those of the spans, and none of the spans meets another
-- or an earlier span.
pub record IsClaimed (earlier : List Span) (state : State) : Type 0 where
  pub intervals : state.0 ≡ map bounds earlier ++ map bounds state.1
  pub apart : Apart (earlier ++ state.1)

any-meets :
    (m : Match) (ss : List Span)
    → any (overlaps m.start m.stop) (map bounds ss) ≡ true
    → Any (λ s. overlaps m.start m.stop (bounds s) ≡ true) ss
any-meets m [] h = cc
any-meets m (s ∷ ss) h = elim (Bool-cases (overlaps m.start m.stop (bounds s))) [
  | inl e ↦ inl e
  | inr e ↦ inr (any-meets m ss (rw e at h))
]

overlaps-sym :
    (s t : Span) → overlaps s.start s.stop (bounds t) ≡ overlaps t.start t.stop (bounds s)
overlaps-sym s t = ground arith

any-Disjoint :
    (s : Span) (ss : List Span)
    → any (overlaps s.start s.stop) (map bounds ss) ≡ false
    → All (λ t. Disjoint t s) ss
any-Disjoint s [] h = tt
any-Disjoint s (t ∷ ss) h =
    (overlaps-sym t s ∙ or_left _ _ h, any-Disjoint s ss (ground (arith, h)))

Apart-append_one :
    (ss : List Span) (s : Span) → Apart ss → All (λ t. Disjoint t s) ss → Apart (ss ++ (s ∷ []))
Apart-append_one [] s a h = (tt, tt)
Apart-append_one (t ∷ ss) s a h =
    (All-append (Disjoint t) ss (s ∷ []) a.0 (h.0, tt), Apart-append_one ss s a.1 h.1)

span_of : Kind → Match → Span
unfolding of_chars
span_of kind m = record { start = m.start; stop = m.stop; token = of_chars m.group; kind = kind }

-- A match is a new span where it meets no interval, and changes nothing where it meets one.
claim_match-taken :
    (kind : Kind) (m : Match) (state : State)
    → any (overlaps m.start m.stop) state.0 ≡ true
    → claim_match kind m state ≡ state
unfolding claim_match claim_interval
claim_match-taken kind m (taken, spans) h = rw h

claim_match-free :
    (kind : Kind) (m : Match) (state : State)
    → any (overlaps m.start m.stop) state.0 ≡ false
    → claim_match kind m state
      ≡ (state.0 ++ ((m.start, m.stop) ∷ []), state.1 ++ (span_of kind m ∷ []))
unfolding claim_match claim_interval span_of
claim_match-free kind m (taken, spans) h = rw h

map_snoc :
    (xs ys : List Span) (s : Span)
    → (map bounds xs ++ map bounds ys) ++ (bounds s ∷ [])
      ≡ map bounds xs ++ map bounds (ys ++ (s ∷ []))
map_snoc [] [] s = refl
map_snoc [] (y ∷ ys) s = ap (◌∷◌ (bounds y)) (map_snoc [] ys s)
map_snoc (x ∷ xs) ys s = ap (◌∷◌ (bounds x)) (map_snoc xs ys s)

snoc_assoc : (xs ys : List Span) (s : Span) → (xs ++ ys) ++ (s ∷ []) ≡ xs ++ (ys ++ (s ∷ []))
snoc_assoc [] ys s = refl
snoc_assoc (x ∷ xs) ys s = ap (◌∷◌ x) (snoc_assoc xs ys s)

map_both : (xs ys : List Span) → map bounds (xs ++ ys) ≡ map bounds xs ++ map bounds ys
map_both [] ys = refl
map_both (x ∷ xs) ys = ap (◌∷◌ (bounds x)) (map_both xs ys)

module _ (earlier : List Span) where
  pub claim_match-IsClaimed :
      (kind : Kind) (m : Match) (state : State)
      → IsClaimed earlier state
      → IsClaimed earlier (claim_match kind m state)
  unfolding span_of
  claim_match-IsClaimed kind m state c = elim (Bool-cases (any (overlaps m.start m.stop) state.0)) [
    | inl e ↦ subst (IsClaimed earlier) (sym (claim_match-taken kind m state e)) c
    | inr e ↦ subst (IsClaimed earlier) (sym (claim_match-free kind m state e)) (record {
      intervals =
          ap (λ is. is ++ ((m.start, m.stop) ∷ [])) c.intervals
          ∙ map_snoc earlier state.1 (span_of kind m);
      apart = subst Apart (snoc_assoc earlier state.1 (span_of kind m)) (
          Apart-append_one (earlier ++ state.1) (span_of kind m) c.apart (
            any-Disjoint (span_of kind m) (earlier ++ state.1) (
              subst (λ is. any (overlaps m.start m.stop) is ≡ false)
                (c.intervals ∙ sym (map_both earlier state.1)) e)));
    })
  ]

  -- After its turn a match meets a span.
  pub claim_match-Meets :
      (kind : Kind) (m : Match) (state : State)
      → IsClaimed earlier state
      → Any (Meets m) (earlier ++ (claim_match kind m state).1)
  unfolding span_of
  claim_match-Meets kind m state c = elim (Bool-cases (any (overlaps m.start m.stop) state.0)) [
    | inl e ↦
        subst (λ (st : State). Any (Meets m) (earlier ++ st.1))
          (sym (claim_match-taken kind m state e))
          (Any-map _ (Meets m) (earlier ++ state.1) (λ s h. inr h)
            (any-meets m (earlier ++ state.1) (
              subst (λ is. any (overlaps m.start m.stop) is ≡ true)
                (c.intervals ∙ sym (map_both earlier state.1)) e)))
    | inr e ↦
        subst (λ (st : State). Any (Meets m) (earlier ++ st.1))
          (sym (claim_match-free kind m state e))
          (Any-append_right (Meets m) earlier _
            (Any-append_right (Meets m) state.1 _ (inl (inl (refl, refl, refl)))))
  ]

  -- Spans that were claimed stay.
  pub claim_match-keeps :
      (P : Span → Type 0) (kind : Kind) (m : Match) (state : State)
      → Any P (earlier ++ state.1)
      → Any P (earlier ++ (claim_match kind m state).1)
  claim_match-keeps P kind m state a = elim (Bool-cases (any (overlaps m.start m.stop) state.0)) [
    | inl e ↦
        subst (λ (st : State). Any P (earlier ++ st.1)) (sym (claim_match-taken kind m state e)) a
    | inr e ↦
        subst (λ (st : State). Any P (earlier ++ st.1)) (sym (claim_match-free kind m state e))
          (subst (Any P) (snoc_assoc earlier state.1 (span_of kind m))
            (Any-append_left P (earlier ++ state.1) (span_of kind m ∷ []) a))
  ]
