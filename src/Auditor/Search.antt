-- ===== src/Auditor/Search.antt =====
-- The two searches of src/tape/recorder/auditor.py `classify_window`, one after the other.
use kalshi_trading_project.Prelude.{
  ℕ, ◌+◌, ◌-◌, ◌≤◌, ◌<◌, ◌≡◌, ◌∙◌, inl, inr, Bool, true, false, Option, none, some, List, length,
  take, drop, arith,
}
use kalshi_trading_project.Auditor.{last_index, is_index}
use kalshi_trading_project.Auditor.Nearest.{
  flag, last_true, first_true, flag-take, flag-drop, flag-past, flag-take_past, IsLast,
  last_true-IsLast, IsFirst, first_true-IsFirst, IsNearest, found,
}

-- The last match up to the reply.
abbrev IsBefore : ℕ → List Bool → Option ℕ → Type 0
IsBefore r fs none = (j : ℕ) → j ≤ r → flag fs j ≡ false
IsBefore r fs (some m) =
    (m ≤ r) × (flag fs m ≡ true) × ((j : ℕ) → m < j → j ≤ r → flag fs j ≡ false)

-- The first of the `k` matches after the reply.
abbrev IsAfter : ℕ → ℕ → List Bool → Option ℕ → Type 0
IsAfter r k fs none = (j : ℕ) → r < j → j ≤ r + k → flag fs j ≡ false
IsAfter r k fs (some m) =
    (r < m) × (m ≤ r + k) × (flag fs m ≡ true) × ((j : ℕ) → r < j → j < m → flag fs j ≡ false)

IsLast-IsBefore :
    (r : ℕ) (fs : List Bool) (o : Option ℕ) → IsLast 0 none (take (r + 1) fs) o → IsBefore r fs o
IsLast-IsBefore r fs none h = λ j p. ground (arith, flag-take (r + 1) fs j, h.1 j)
IsLast-IsBefore r fs (some m) (inl h) = ground arith
IsLast-IsBefore r fs (some m) (inr (k, e, h, later)) = (
  ground (arith, flag-take_past (r + 1) fs m),
  ground (arith, flag-take (r + 1) fs m, flag-take_past (r + 1) fs m),
  λ j p q. ground (arith, flag-take (r + 1) fs j, later j),
)

flag-window :
    (r k : ℕ) (fs : List Bool) (j : ℕ)
    → j < k
    → flag (take k (drop (r + 1) fs)) j ≡ flag fs (r + 1 + j)
flag-window r k fs j h = flag-take k (drop (r + 1) fs) j h ∙ flag-drop (r + 1) fs j

IsFirst-IsAfter :
    (r k : ℕ) (fs : List Bool) (o : Option ℕ)
    → IsFirst (r + 1) (take k (drop (r + 1) fs)) o
    → IsAfter r k fs o
IsFirst-IsAfter r k fs none h =
    λ j p q. ground (arith, flag-window r k fs (j - (r + 1)), h (j - (r + 1)))
IsFirst-IsAfter r k fs (some m) (i, e, h, earlier) =
    let inside : i < k = ground (arith, flag-take_past k (drop (r + 1) fs) i) in
    (
      omega (arith, e),
      omega (arith, e, inside),
      ground (arith, flag-window r k fs i inside),
      λ j p q. ground (arith, flag-window r k fs (j - (r + 1)), earlier (j - (r + 1))),
    )

-- What both searches find, over the states before and after each of the events.
unfoldable pub later_of : ℕ → List Bool → Option ℕ → Option ℕ
unfolding first_true
later_of r fs near =
    first_true (r + 1) (take (last_index (length fs - 1) r near - r) (drop (r + 1) fs))

found-IsNearest :
    (r : ℕ) (fs : List Bool) (near later : Option ℕ)
    → r < length fs
    → is_index near r ≡ false
    → IsBefore r fs near
    → IsAfter r (last_index (length fs - 1) r near - r) fs later
    → IsNearest r fs (found near later)
found-IsNearest r fs none none p e b a = λ j. ground (arith, b j, a j, flag-past fs j)
found-IsNearest r fs none (some m) p e b a = (a.2, λ j h. ground (arith, b j, a.3 j))
found-IsNearest r fs (some m) none p e b a =
    (b.1, λ j h. ground (arith, b.2 j, a j, flag-past fs j))
found-IsNearest r fs (some m) (some n) p e b a = (a.2, λ j h. ground (arith, b.2 j, a.3 j))

pub searches-IsNearest :
    (r : ℕ) (fs : List Bool)
    → r < length fs
    → is_index (last_true 0 none (take (r + 1) fs)) r ≡ false
    → IsNearest r fs (
        found
          (last_true 0 none (take (r + 1) fs))
          (later_of r fs (last_true 0 none (take (r + 1) fs))))
unfolding later_of
searches-IsNearest r fs p e =
    found-IsNearest r fs _ _ p e (IsLast-IsBefore r fs _ (last_true-IsLast 0 none _)) (
      IsFirst-IsAfter r _ fs _ (
        first_true-IsFirst (r + 1) (
          take (last_index (length fs - 1) r (last_true 0 none (take (r + 1) fs)) - r)
            (drop (r + 1) fs))))

exact_flag :
    (r : ℕ) (fs : List Bool) (near : Option ℕ)
    → is_index near r ≡ true
    → IsBefore r fs near
    → (near ≡ some r) × (flag fs r ≡ true)
exact_flag r fs none e b = ground arith
exact_flag r fs (some m) e b = ground arith

pub first_search-exact :
    (r : ℕ) (fs : List Bool)
    → is_index (last_true 0 none (take (r + 1) fs)) r ≡ true
    → (last_true 0 none (take (r + 1) fs) ≡ some r) × (flag fs r ≡ true)
first_search-exact r fs e = exact_flag r fs _ e (IsLast-IsBefore r fs _ (last_true-IsLast 0 none _))

other_flag :
    (r : ℕ) (fs : List Bool) (near : Option ℕ)
    → is_index near r ≡ false
    → IsBefore r fs near
    → flag fs r ≡ false
other_flag r fs none e b = ground (arith, b r)
other_flag r fs (some m) e b = ground (arith, b.2 r)

pub first_search-other :
    (r : ℕ) (fs : List Bool)
    → is_index (last_true 0 none (take (r + 1) fs)) r ≡ false
    → flag fs r ≡ false
first_search-other r fs e = other_flag r fs _ e (IsLast-IsBefore r fs _ (last_true-IsLast 0 none _))
