-- ===== src/Book/Compare.antt =====
-- src/tape/book/book.py: `diff` of two books, and the checksum of one.
pub mod Differences
pub mod Exact
pub mod Checksum
use kalshi_trading_project.Prelude.{
  ℕ, ◌+◌, ◌-◌, ◌*◌, ◌/◌, ◌%◌, ◌^◌, ◌==◌, ltb, Bool, true, false, Option, none, some, List, [], ◌∷◌,
  ◌++◌, if◌then◌else◌,
}
use kalshi_trading_project.Prelude.Eq.{nat_eq, string_eq}
use kalshi_trading_project.Prelude.Dict.{Dict, lookup, put}
use kalshi_trading_project.Events.{Side, bid, ask, Level}
use kalshi_trading_project.Book.{Book, levels_of, count_at}
use kalshi_trading_project.Book.Views.{levels}
use Prim.Native.Nat.{bit_xor}
use Prim.Native.String.{String}

pub record LevelDiff : Type 0 where
  pub side : Side
  pub price : ℕ
  pub count_a : ℕ
  pub count_b : ℕ

pub record BookDiff : Type 0 where
  pub ticker : String
  pub differences : List LevelDiff

-- {lvl.price: lvl.count for lvl in levels}, put into `d`
unfoldable pub counts_of : Dict ℕ ℕ → List Level → Dict ℕ ℕ
counts_of d [] = d
counts_of d (l ∷ ls) = counts_of (put l.price l.count d) ls

-- sorted(set(levels_a) | set(levels_b)), by insertion without repetitions
abbrev pub insert_price : ℕ → List ℕ → List ℕ
insert_price p [] = p ∷ []
insert_price p (q ∷ qs) =
    let rest = insert_price p qs in
    if p == q then q ∷ qs else if ltb p q then p ∷ q ∷ qs else q ∷ rest

unfoldable pub add_prices : Dict ℕ ℕ → List ℕ → List ℕ
add_prices [] ps = ps
add_prices ((p, c) ∷ d) ps = insert_price p (add_prices d ps)

unfoldable pub side_differences : Side → Dict ℕ ℕ → Dict ℕ ℕ → List ℕ → List LevelDiff
side_differences s a b [] = []
side_differences s a b (p ∷ ps) =
    let rest = side_differences s a b ps in
    if count_at p a == count_at p b
    then rest
    else record { side = s; price = p; count_a = count_at p a; count_b = count_at p b } ∷ rest

unfoldable pub diff_side : Side → Book → Book → List LevelDiff
unfolding counts_of add_prices side_differences
diff_side s a b =
    let levels_a = counts_of [] (levels s a) in
    let levels_b = counts_of [] (levels s b) in
    side_differences s levels_a levels_b (add_prices levels_a (add_prices levels_b []))

-- None stands for `ValueError`.
unfoldable pub diff : Book → Book → Option BookDiff
unfolding diff_side
diff a b =
    if string_eq.beq a.ticker b.ticker
    then some (record { ticker = a.ticker; differences = diff_side bid a b ++ diff_side ask a b })
    else none

abbrev pub is_empty : BookDiff → Bool
is_empty d = elim d.differences [ [] ↦ true | x ∷ xs ↦ false ]

-- A mask of n ones is a remainder by 2 ^ n, and a shift by n is a division or a multiplication by it.
abbrev pub mask64 : ℕ
mask64 = 2 ^ 64

unfoldable pub mix64 : ℕ → ℕ
mix64 value =
    let v0 = value % mask64 in
    let v1 = bit_xor v0 (v0 / 2 ^ 30) * 0xBF58476D1CE4E5B9 % mask64 in
    let v2 = bit_xor v1 (v1 / 2 ^ 27) * 0x94D049BB133111EB % mask64 in bit_xor v2 (v2 / 2 ^ 31)

abbrev pub side_bit : Side → ℕ
side_bit bid = 0
side_bit ask = 1

-- The fields do not overlap, so their `|` is a sum.
unfoldable pub level_key : Side → ℕ → ℕ → ℕ
level_key s price count = side_bit s * 2 ^ 63 + price % 2 ^ 19 * 2 ^ 44 + count % 2 ^ 44

unfoldable pub sum_keys : (ℕ → ℕ → ℕ) → Dict ℕ ℕ → ℕ
sum_keys key [] = 0
sum_keys key ((p, c) ∷ d) = key p c + sum_keys key d

unfoldable pub checksum : Book → ℕ
unfolding mix64 level_key sum_keys
checksum b =
    (sum_keys (λ p c. mix64 (level_key bid p c)) b.bids
      + sum_keys (λ p c. mix64 (level_key ask p c)) b.asks)
    % mask64
