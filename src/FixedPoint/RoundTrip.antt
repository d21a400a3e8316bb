-- ===== src/FixedPoint/RoundTrip.antt =====
-- Reading back a formatted amount.
use kalshi_trading_project.Prelude.{
  ℕ, zero, suc, ◌+◌, ◌-◌, ◌*◌, ◌/◌, ◌%◌, ◌^◌, ◌≤◌, ◌<◌, ◌≡◌, ◌==◌, refl, ◌∙◌, ap, sym, Bool, true,
  false, some, [], ◌∷◌, ◌++◌, arith, All, length, length-append, if◌then◌else◌,
}
use kalshi_trading_project.Prelude.Int.{ℤ, pos, negsuc, magnitude}
use kalshi_trading_project.Prelude.Result.{ok}
use mathlib.Core.Path.{ap₂}
use native.Mathlib.Nat.{
  pow-suc, mul_assoc, mul-mod_left, mul-div_cancel, mod-lt, one-le-pow, div-add-mod',
}
use kalshi_trading_project.FixedPoint.{
  Text, point, minus, is_digit, digits_of, after_digits, value_of, Decimal, decimal, read_whole,
  read_decimal, excess, round_half_even, signed, to_int, scale_to, parse_scaled, decimal_digits,
  padded, format_scaled,
}

abbrev AreDigits : Text → Type 0
AreDigits t = All (λ c. is_digit c ≡ true) t

append-AreDigits : (s t : Text) → AreDigits s → AreDigits t → AreDigits (s ++ t)
append-AreDigits [] t h k = k
append-AreDigits (c ∷ s) t h k = (h.0, append-AreDigits s t h.1 k)

decimal_digits-AreDigits : (fuel n : ℕ) → AreDigits (decimal_digits fuel n)
decimal_digits-AreDigits zero n = ground arith
decimal_digits-AreDigits (suc fuel) n = ground (
  arith,
  append-AreDigits (decimal_digits fuel (n / 10)) ((48 + n % 10) ∷ [])
      (decimal_digits-AreDigits fuel (n / 10)),
)

padded-AreDigits : (width n : ℕ) → AreDigits (padded width n)
padded-AreDigits zero n = tt
padded-AreDigits (suc width) n =
    append-AreDigits (padded width (n / 10)) ((48 + n % 10) ∷ []) (padded-AreDigits width (n / 10))
      (ground arith)

digits_of-append :
    (ds : Text) (c : ℕ) (t : Text)
    → AreDigits ds
    → is_digit c ≡ false
    → digits_of (ds ++ c ∷ t) ≡ ds
digits_of-append [] c t h k = ground arith
digits_of-append (d ∷ ds) c t h k = ground (arith, digits_of-append ds c t h.1 k)

after_digits-append :
    (ds : Text) (c : ℕ) (t : Text)
    → AreDigits ds
    → is_digit c ≡ false
    → after_digits (ds ++ c ∷ t) ≡ c ∷ t
after_digits-append [] c t h k = ground arith
after_digits-append (d ∷ ds) c t h k = ground (arith, after_digits-append ds c t h.1 k)

digits_of-all : (ds : Text) → AreDigits ds → digits_of ds ≡ ds
digits_of-all [] h = refl
digits_of-all (d ∷ ds) h = ground (arith, digits_of-all ds h.1)

after_digits-all : (ds : Text) → AreDigits ds → after_digits ds ≡ []
after_digits-all [] h = refl
after_digits-all (d ∷ ds) h = ground (arith, after_digits-all ds h.1)

value_of-append : (n : ℕ) (s t : Text) → value_of n (s ++ t) ≡ value_of (value_of n s) t
value_of-append n [] t = refl
value_of-append n (c ∷ s) t = value_of-append (n * 10 + (c - 48)) s t

value_of-decimal_digits : (fuel n : ℕ) → n ≤ fuel → value_of 0 (decimal_digits fuel n) ≡ n
value_of-decimal_digits zero n h = ground arith
value_of-decimal_digits (suc fuel) n h = ground (
  arith,
  value_of-append 0 (decimal_digits fuel (n / 10)) ((48 + n % 10) ∷ []),
  value_of-decimal_digits fuel (n / 10),
)

value_of-padded :
    (m width n : ℕ) → n < 10 ^ width → value_of m (padded width n) ≡ m * 10 ^ width + n
value_of-padded m zero n h = ground arith
value_of-padded m (suc width) n h = ground (
  arith,
  value_of-append m (padded width (n / 10)) ((48 + n % 10) ∷ []),
  value_of-padded m width (n / 10),
  pow-suc 10 width,
  mul_assoc m (10 ^ width) 10,
)

length-padded : (width n : ℕ) → length (padded width n) ≡ width
length-padded zero n = refl
length-padded (suc width) n = ground (
  arith,
  length-append (padded width (n / 10)) ((48 + n % 10) ∷ []),
  length-padded width (n / 10),
)

excess-zero : (digits n : ℕ) → n < 10 ^ 28 → excess digits n ≡ 0
excess-zero zero n h = refl
excess-zero (suc digits) n h = ground arith

round_half_even-zero : (n : ℕ) → round_half_even 0 n ≡ n
round_half_even-zero n = ground arith

-- A text with both parts, read back.
read_whole-point :
    (negative : Bool) (whole fraction : Text)
    → 0 < length whole
    → 0 < length fraction
    → AreDigits fraction
    → read_whole negative whole (point ∷ fraction) ≡ some (decimal negative whole fraction)
read_whole-point negative [] fraction h k ds = ground arith
read_whole-point negative (c ∷ whole) [] h k ds = ground arith
read_whole-point negative (c ∷ whole) (d ∷ fraction) h k ds =
    ground (arith, digits_of-all fraction ds.1, after_digits-all fraction ds.1)

round_half_even-none :
    (k c decimals : ℕ) → k ≡ 0 → ◌≡◌ {A = ℕ × ℕ} (round_half_even k c, decimals + k) (c, decimals)
round_half_even-none zero c decimals h = ap₂ (λ n m. (n, m)) (round_half_even-zero c) (omega arith)
round_half_even-none (suc k) c decimals h = ground arith

to_int-exact : (d : Decimal) (c : ℕ) → to_int d (c, d.places) ≡ ok (signed d.negative c)
to_int-exact d c =
    ground (
      arith,
      mul-mod_left c (10 ^ d.places),
      mul-div_cancel c (one-le-pow d.places 10 (omega arith)),
    )

-- A coefficient within the precision is scaled exactly.
scale_to-exact :
    (d : Decimal) (decimals : ℕ)
    → d.coefficient < 10 ^ 28
    → decimals ≡ d.places
    → scale_to decimals (some d) ≡ ok (signed d.negative d.coefficient)
scale_to-exact d decimals h e =
    ap (to_int d) (
      round_half_even-none (excess d.digits d.coefficient) d.coefficient decimals
        (excess-zero d.digits d.coefficient h)
      ∙ ap (λ n. (d.coefficient, n)) e)
    ∙ to_int-exact d d.coefficient

-- The digits of an amount of `n` units.
abbrev whole_of : ℕ → ℕ → Text
whole_of n decimals = decimal_digits (n / 10 ^ decimals) (n / 10 ^ decimals)

abbrev fraction_of : ℕ → ℕ → Text
fraction_of n decimals = padded decimals (n % 10 ^ decimals)

value_of-formatted :
    (n decimals : ℕ) → value_of 0 (whole_of n decimals ++ fraction_of n decimals) ≡ n
value_of-formatted n decimals =
    value_of-append 0 (whole_of n decimals) (fraction_of n decimals)
    ∙ ap (λ m. value_of m (fraction_of n decimals))
        (value_of-decimal_digits (n / 10 ^ decimals) (n / 10 ^ decimals) (omega arith))
    ∙ value_of-padded (n / 10 ^ decimals) decimals (n % 10 ^ decimals)
        (mod-lt n (one-le-pow decimals 10 (omega arith)))
    ∙ div-add-mod' n (10 ^ decimals)

length-decimal_digits : (fuel n : ℕ) → 0 < length (decimal_digits fuel n)
length-decimal_digits zero n = ground arith
length-decimal_digits (suc fuel) n =
    ground (arith, length-append (decimal_digits fuel (n / 10)) ((48 + n % 10) ∷ []))

-- The two parts of a formatted amount, read back under either sign.
read_whole-formatted :
    (negative : Bool) (n decimals : ℕ)
    → 0 < decimals
    → n < 10 ^ 28
    → scale_to decimals (read_whole negative (whole_of n decimals) (point ∷ fraction_of n decimals))
      ≡ ok (signed negative n)
read_whole-formatted negative n decimals h k =
    let width = length-padded decimals (n % 10 ^ decimals) in
    let value = value_of-formatted n decimals in
    ap (scale_to decimals) (
      read_whole-point negative (whole_of n decimals) (fraction_of n decimals)
        (length-decimal_digits (n / 10 ^ decimals) (n / 10 ^ decimals)) (omega (arith, width))
        (padded-AreDigits decimals (n % 10 ^ decimals)))
    ∙ scale_to-exact (decimal negative (whole_of n decimals) (fraction_of n decimals)) decimals
        (omega (arith, value)) (sym width)
    ∙ ap (λ m. ok (signed negative m)) value

no_minus : {A : Type 0} (c : ℕ) (x y : A) → is_digit c ≡ true → (if c == minus then x else y) ≡ y
no_minus c x y h = ground arith

-- The whole part ends at the point.
read_decimal-digits :
    (ds rest : Text)
    → 0 < length ds
    → AreDigits ds
    → read_decimal (ds ++ point ∷ rest) ≡ read_whole false ds (point ∷ rest)
read_decimal-digits [] rest h k = ground arith
read_decimal-digits (d ∷ ds) rest h k =
    no_minus d _ _ k.0
    ∙ ap₂ (read_whole false) (digits_of-append (d ∷ ds) point rest k refl)
        (after_digits-append (d ∷ ds) point rest k refl)

read_decimal-minus :
    (ds rest : Text)
    → AreDigits ds
    → read_decimal (minus ∷ (ds ++ point ∷ rest)) ≡ read_whole true ds (point ∷ rest)
read_decimal-minus ds rest k =
    ap₂ (read_whole true) (digits_of-append ds point rest k refl)
      (after_digits-append ds point rest k refl)

signed-magnitude : (n : ℕ) → signed true (magnitude (negsuc n)) ≡ negsuc n
signed-magnitude n = ground arith

-- Reading back an amount that was formatted with at least one decimal gives the amount, if its units
-- have at most 28 digits.
pub parse_scaled-format_scaled :
    (value : ℤ) (decimals : ℕ)
    → 0 < decimals
    → magnitude value < 10 ^ 28
    → parse_scaled (format_scaled value decimals) decimals ≡ ok value
unfolding parse_scaled format_scaled
parse_scaled-format_scaled (pos n) decimals h k =
    let m = magnitude (pos n) in
    ap (scale_to decimals) (
      read_decimal-digits (whole_of m decimals) (fraction_of m decimals)
        (length-decimal_digits (m / 10 ^ decimals) (m / 10 ^ decimals))
        (decimal_digits-AreDigits (m / 10 ^ decimals) (m / 10 ^ decimals)))
    ∙ read_whole-formatted false m decimals h k
    ∙ ap (λ m. ok (pos m)) (omega arith)
parse_scaled-format_scaled (negsuc n) decimals h k =
    let m = magnitude (negsuc n) in
    ap (scale_to decimals) (
      read_decimal-minus (whole_of m decimals) (fraction_of m decimals)
        (decimal_digits-AreDigits (m / 10 ^ decimals) (m / 10 ^ decimals)))
    ∙ read_whole-formatted true m decimals h k
    ∙ ap ok (signed-magnitude n)
