-- ===== src/FixedPoint/Tests.antt =====
-- Texts read and written, and the theorems at them.
use kalshi_trading_project.Prelude.{◌≡◌, refl, arith, [], ◌∷◌, ◌++◌, replicate}
use kalshi_trading_project.Prelude.Int.{negsuc}
use kalshi_trading_project.Prelude.Result.{ok, err}
use kalshi_trading_project.FixedPoint.{
  Text, newline, count_decimals, parse_scaled, parse_price, parse_signed_count, format_scaled,
  not_decimal, too_many_places, out_of_range,
}
use kalshi_trading_project.FixedPoint.RoundTrip.{parse_scaled-format_scaled}

-- "0.56"
abbrev fifty_six : Text
fifty_six = 48 ∷ 46 ∷ 53 ∷ 54 ∷ []

-- "-12.50"
abbrev minus_twelve : Text
minus_twelve = 45 ∷ 49 ∷ 50 ∷ 46 ∷ 53 ∷ 48 ∷ []

formatted : format_scaled (negsuc 1_249) 2 ≡ minus_twelve
unfolding format_scaled
formatted = refl

read_back : parse_signed_count minus_twelve ≡ ok (negsuc 1_249)
unfolding parse_signed_count parse_scaled
read_back = refl

-- A newline at the end is read over, one before it is not.
newline_accepted : parse_price (fifty_six ++ newline ∷ []) ≡ ok 5_600
unfolding parse_price parse_scaled
newline_accepted = refl

newline_refused : parse_price (newline ∷ fifty_six) ≡ err not_decimal
unfolding parse_price parse_scaled
newline_refused = refl

-- "0.56001" has five decimals; with 25 zeros before the last digit it has more than 28 digits and is
-- rounded.
five_places : parse_price (fifty_six ++ 48 ∷ 48 ∷ 49 ∷ []) ≡ err too_many_places
unfolding parse_price parse_scaled
five_places = refl

thirty_places : parse_price (fifty_six ++ (replicate 27 48 ++ 49 ∷ [])) ≡ ok 5_600
unfolding parse_price parse_scaled
thirty_places = refl

-- "1.56"
above_one : parse_price (49 ∷ 46 ∷ 53 ∷ 54 ∷ []) ≡ err out_of_range
unfolding parse_price parse_scaled
above_one = refl

parse_scaled-format_scaled_example :
    parse_scaled (format_scaled (negsuc 1_249) count_decimals) count_decimals ≡ ok (negsuc 1_249)
parse_scaled-format_scaled_example =
    parse_scaled-format_scaled (negsuc 1_249) count_decimals (omega arith) (omega arith)
