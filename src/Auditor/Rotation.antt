-- ===== src/Auditor/Rotation.antt =====
-- src/tape/recorder/auditor.py `round_robin_choice`: a rotation over the distinct tickers in order.
use kalshi_trading_project.Prelude.{
  ℕ, zero, suc, ◌+◌, ◌%◌, ◌==◌, Option, none, some, List, [], ◌∷◌, ◌++◌, length, if◌then◌else◌,
}
use Prim.Native.Nat.{min}
use Prim.Native.String.{String, compare}
use kalshi_trading_project.Prelude.Eq.{string_eq}
use text.Mathlib.Text.{is_lt}

-- sorted(set(tickers)), by insertion without repetitions
abbrev pub insert_unique : String → List String → List String
insert_unique t [] = t ∷ []
insert_unique t (u ∷ us) =
    let rest = insert_unique t us in
    if string_eq.beq t u then u ∷ us else if is_lt (compare u t) then u ∷ rest else t ∷ u ∷ us

unfoldable pub unique_of : List String → List String
unique_of [] = []
unique_of (t ∷ ts) = insert_unique t (unique_of ts)

-- unique[n], where n is in range
unfoldable pub element_at : List String → ℕ → Option String
element_at [] n = none
element_at (t ∷ ts) zero = some t
element_at (t ∷ ts) (suc n) = element_at ts n

abbrev pub listed_option : Option String → List String → List String
listed_option none ts = ts
listed_option (some t) ts = t ∷ ts

-- The elements at (start + i) % total for i from `first` on, `count` of them.
unfoldable pub chosen_from : List String → ℕ → ℕ → ℕ → List String
unfolding element_at
chosen_from unique start first zero = []
chosen_from unique start first (suc count) =
    listed_option (element_at unique ((start + first) % length unique))
      (chosen_from unique start (first + 1) count)

abbrev pub choose : List String → ℕ → ℕ → List String × ℕ
choose unique count cursor =
    let total = length unique in
    if total == 0
    then ([], 0)
    else let taken = min count total in
      let start = cursor % total in (chosen_from unique start 0 taken, (start + taken) % total)

unfoldable pub round_robin_choice : List String → ℕ → ℕ → List String × ℕ
unfolding unique_of
round_robin_choice tickers count cursor = choose (unique_of tickers) count cursor

-- The choices of some rounds over the same tickers, one after the other.
unfoldable pub choices : ℕ → List String → ℕ → ℕ → List String
unfolding round_robin_choice
choices zero tickers count cursor = []
choices (suc n) tickers count cursor =
    (round_robin_choice tickers count cursor).0
    ++ choices n tickers count (round_robin_choice tickers count cursor).1
