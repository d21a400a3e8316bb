-- ===== src/FixedPoint.antt =====
-- src/tape/fixedpoint.py: exact prices, counts and dollars as scaled integers. A text is the list of
-- its code points and its digits are the ASCII ones. `Decimal` keeps 28 significant digits under the
-- default context, so `scaleb` rounds a longer coefficient, half to even; `$` in the pattern of
-- `_parse_scaled` also stands before a newline that ends the text.
pub mod RoundTrip
mod Tests
use kalshi_trading_project.Prelude.{
  ℕ, zero, suc, ◌+◌, ◌-◌, ◌*◌, ◌/◌, ◌%◌, ◌^◌, ◌==◌, ◌||◌, ◌&&◌, leb, ltb, Bool, true, false, Option,
  none, some, List, [], ◌∷◌, ◌++◌, length, if◌then◌else◌,
}
use kalshi_trading_project.Prelude.Int.{ℤ, pos, negsuc, neg, negate, magnitude, floor_div}
use kalshi_trading_project.Prelude.Result.{Result, ok, err, ◌>>=◌}

abbrev pub Text : Type 0
Text = List ℕ

pub data FixedPointError : Type 0 where
  not_decimal too_many_places out_of_range negative_count : FixedPointError

-- PRICE_SCALE and the numbers of decimals
abbrev pub price_scale : ℕ
price_scale = 10_000

abbrev pub price_decimals : ℕ
price_decimals = 4

abbrev pub count_decimals : ℕ
count_decimals = 2

abbrev pub dollars_decimals : ℕ
dollars_decimals = 6

-- '-', '.' and the newline
abbrev pub minus : ℕ
minus = 45

abbrev pub point : ℕ
point = 46

abbrev pub newline : ℕ
newline = 10

abbrev pub is_digit : ℕ → Bool
is_digit c = leb 48 c && leb c 57

-- \d*, and what follows it
abbrev pub digits_of : Text → Text
digits_of [] = []
digits_of (c ∷ t) = let rest = digits_of t in if is_digit c then c ∷ rest else []

abbrev pub after_digits : Text → Text
after_digits [] = []
after_digits (c ∷ t) = let rest = after_digits t in if is_digit c then rest else c ∷ t

-- $
abbrev pub at_end : Text → Bool
at_end [] = true
at_end (c ∷ []) = c == newline
at_end (c ∷ d ∷ t) = false

abbrev pub value_of : ℕ → Text → ℕ
value_of n [] = n
value_of n (c ∷ t) = value_of (n * 10 + (c - 48)) t

-- Decimal(text) of a text that the pattern matches: its value is coefficient / 10 ^ places.
pub record Decimal : Type 0 where
  pub negative : Bool
  pub coefficient : ℕ
  pub digits : ℕ
  pub places : ℕ

abbrev pub decimal : Bool → Text → Text → Decimal
decimal negative whole fraction = record {
  negative = negative;
  coefficient = value_of 0 (whole ++ fraction);
  digits = length (whole ++ fraction);
  places = length fraction;
}

abbrev pub read_fraction : Bool → Text → Text → Text → Option Decimal
read_fraction negative whole [] rest = none
read_fraction negative whole (c ∷ fraction) rest =
    if at_end rest then some (decimal negative whole (c ∷ fraction)) else none

abbrev pub read_whole : Bool → Text → Text → Option Decimal
read_whole negative [] rest = none
read_whole negative (c ∷ whole) [] = some (decimal negative (c ∷ whole) [])
read_whole negative (c ∷ whole) (d ∷ rest) =
    if d == point
    then read_fraction negative (c ∷ whole) (digits_of rest) (after_digits rest)
    else if at_end (d ∷ rest)
    then some (decimal negative (c ∷ whole) [])
    else none

abbrev pub read_decimal : Text → Option Decimal
read_decimal [] = none
read_decimal (c ∷ t) =
    if c == minus
    then read_whole true (digits_of t) (after_digits t)
    else read_whole false (digits_of (c ∷ t)) (after_digits (c ∷ t))

abbrev pub precision : ℕ
precision = 28

-- How many of at most `digits` digits are beyond the precision.
abbrev pub excess : ℕ → ℕ → ℕ
excess zero n = 0
excess (suc digits) n =
    let more = excess digits (n / 10) in if ltb n (10 ^ precision) then 0 else 1 + more

-- n / 10 ^ k, half to even
abbrev pub round_half_even : ℕ → ℕ → ℕ
round_half_even k n =
    let q = n / 10 ^ k in
    let r = n % 10 ^ k in
    if ltb (10 ^ k) (2 * r) || (2 * r == 10 ^ k && q % 2 == 1) then q + 1 else q

-- The coefficient of Decimal(text).scaleb(decimals) and its exponent, as `.1 - places`.
abbrev pub scaleb : ℕ → Decimal → ℕ × ℕ
scaleb decimals d =
    let k = excess d.digits d.coefficient in (round_half_even k d.coefficient, decimals + k)

abbrev pub signed : Bool → ℕ → ℤ
signed true n = neg n
signed false n = pos n

abbrev pub to_int : Decimal → ℕ × ℕ → Result FixedPointError ℤ
to_int d (coefficient, up) =
    if (coefficient * 10 ^ up) % 10 ^ d.places == 0
    then ok (signed d.negative (coefficient * 10 ^ up / 10 ^ d.places))
    else err too_many_places

abbrev pub scale_to : ℕ → Option Decimal → Result FixedPointError ℤ
scale_to decimals none = err not_decimal
scale_to decimals (some d) = to_int d (scaleb decimals d)

unfoldable pub parse_scaled : Text → ℕ → Result FixedPointError ℤ
parse_scaled text decimals = scale_to decimals (read_decimal text)

abbrev pub in_price_range : ℤ → Result FixedPointError ℕ
in_price_range (negsuc n) = err out_of_range
in_price_range (pos n) = if ltb price_scale n then err out_of_range else ok n

unfoldable pub parse_price : Text → Result FixedPointError ℕ
parse_price text = parse_scaled text price_decimals >>= in_price_range

abbrev pub non_negative : ℤ → Result FixedPointError ℕ
non_negative (negsuc n) = err negative_count
non_negative (pos n) = ok n

unfoldable pub parse_count : Text → Result FixedPointError ℕ
parse_count text = parse_scaled text count_decimals >>= non_negative

unfoldable pub parse_signed_count : Text → Result FixedPointError ℤ
parse_signed_count text = parse_scaled text count_decimals

unfoldable pub parse_dollars : Text → Result FixedPointError ℤ
parse_dollars text = parse_scaled text dollars_decimals

-- str(n), with `fuel` of at least n
abbrev pub decimal_digits : ℕ → ℕ → Text
decimal_digits zero n = (48 + n % 10) ∷ []
decimal_digits (suc fuel) n =
    let front = decimal_digits fuel (n / 10) in
    if ltb n 10 then (48 + n) ∷ [] else front ++ (48 + n % 10) ∷ []

-- f"{n:0{width}d}" of an n below 10 ^ width
abbrev pub padded : ℕ → ℕ → Text
padded zero n = []
padded (suc width) n = padded width (n / 10) ++ (48 + n % 10) ∷ []

abbrev pub sign_of : ℤ → Text
sign_of (pos n) = []
sign_of (negsuc n) = minus ∷ []

unfoldable pub format_scaled : ℤ → ℕ → Text
format_scaled value decimals =
    let n = magnitude value in
    sign_of value
    ++ (decimal_digits (n / 10 ^ decimals) (n / 10 ^ decimals)
        ++ (point ∷ padded decimals (n % 10 ^ decimals)))

unfoldable pub format_price : ℕ → Text
format_price price = format_scaled (pos price) price_decimals

unfoldable pub format_count : ℕ → Text
format_count count = format_scaled (pos count) count_decimals

unfoldable pub format_dollars : ℤ → Text
format_dollars dollars = format_scaled dollars dollars_decimals

-- PRICE_SCALE - price, of a price in range
unfoldable pub complement : ℕ → ℕ
complement price = price_scale - price

unfoldable pub notional_e6 : ℕ → ℕ → ℕ
notional_e6 price count = price * count
