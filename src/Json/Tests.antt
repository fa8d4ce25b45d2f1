-- ===== src/Json/Tests.antt =====
-- Runs of the printer.
use max_ed.Base.Int.{negsuc}
use max_ed.Contracts.{null, num, str, arr, obj, nil, cons, end, field}
use max_ed.Json.{dumps, quote, int_text}
use max_ed.Base.{◌≡◌, refl, concat, join}
use max_ed.Money.{decimal}
use max_ed.Regex.{chars, of_chars}

dumps_sorted :
    dumps
      (obj (field "b" (arr (cons (num (negsuc 4)) (cons null nil))) (field "a" (str "x\"é\n") end)))
    ≡ "{\"a\":\"x\\\"\\u00e9\\n\",\"b\":[-5,null]}"
unfolding dumps quote int_text decimal chars of_chars concat join
dumps_sorted = refl
