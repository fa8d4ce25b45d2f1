-- ===== src/Money/Tests.antt =====
-- Runs of the rendering on the figures of the source's comments.
use max_ed.Money.{whole_percent, render}
use max_ed.Money.Percent.{RoundsTo, whole_percent_rounds}
use max_ed.Base.Int.{pos, negsuc}
use max_ed.Base.{ℕ, ◌*◌, ◌≡◌, refl, arith, ok}

render_examples :
    (render (pos 125000) ≡ "$1,250.00")
    × (render (negsuc 14999) ≡ "-$150.00")
    × (render (pos 123456705) ≡ "$1,234,567.05")
unfolding render
render_examples = (refl, refl, refl)

whole_percent_rounds_example :
    (q : ℕ) × (whole_percent (pos 1) (pos 8) ≡ ok q) × RoundsTo (1 * 100) 8 q
whole_percent_rounds_example = whole_percent_rounds 1 8 (omega arith)
