-- ===== src/Regex/Tests.antt =====
-- Runs of the matcher.
use max_ed.Base.{◌≡◌, refl, true, false, [], ◌∷◌}
use max_ed.Regex
use max_ed.Regex.{
  chars, of_chars, ilit, chr, lit, seq, opt, star, rep, word_boundary, full_match, search_in,
  sub_space, digit_class, plus, all_of,
}

-- `\d{1,3}(?:,\d{3})+`
abbrev grouped_digits : Regex.Regex
grouped_digits = seq (rep 1 2 digit_class) (plus (seq (lit (chars ",")) (rep 3 0 digit_class)))

matches :
    (full_match grouped_digits (chars "1,250,000") ≡ true)
    × (full_match grouped_digits (chars "1,25") ≡ false)
    × (search_in
          (all_of
            (word_boundary ∷ ilit (chars "dollar") ∷ opt (ilit (chars "s")) ∷ word_boundary ∷ []))
          (chars "350 Dollars.")
        ≡ true)
    × (search_in
          (all_of (word_boundary ∷ ilit (chars "dollar") ∷ word_boundary ∷ []))
          (chars "350 Dollars.")
        ≡ false)
    × (of_chars (sub_space (ilit (chars "usd")) (chars "USD 350")) ≡ "  350")
unfolding full_match search_in sub_space chars of_chars
matches = (refl, refl, refl, refl, refl)
