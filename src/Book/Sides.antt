-- ===== src/Book/Sides.antt =====
-- One side of a book through a change of one level: its entries, and the cached best price.
use kalshi_trading_project.Prelude.{
  ℕ, zero, suc, ◌≡◌, ◌≢◌, inl, inr, Option, none, some, arith, ◌==◌, Bool-cases, if◌then◌else◌,
}
use kalshi_trading_project.Prelude.Dict.{Dict, lookup, put, remove, IsDistinct}
use kalshi_trading_project.Prelude.DictLaws.{
  lookup-put, lookup-remove, put-IsDistinct, remove-IsDistinct,
}
use kalshi_trading_project.Prelude.Eq.{nat_eq}
use kalshi_trading_project.Events.{Side, bid, ask}
use kalshi_trading_project.Book.{Book, better, best_key, levels_of, best_of, store_level}
use kalshi_trading_project.Book.Best.{IsBest, best_key-IsBest}

-- The entries after a level got the count `n`.
abbrev pub stored : ℕ → ℕ → Dict ℕ ℕ → Dict ℕ ℕ
stored price zero d = remove price d
stored price (suc n) d = put price (suc n) d

-- The cached best after that, from the best before and the new entries.
abbrev pub restored : Side → ℕ → ℕ → Option ℕ → Dict ℕ ℕ → Option ℕ
restored side price zero none d = none
restored side price zero (some p) d = if p == price then best_key side d else some p
restored side price (suc n) none d = some price
restored side price (suc n) (some p) d = if better side price p then some price else some p

pub levels_of-store_level_self :
    (s : Side) (p n : ℕ) (b : Book) → levels_of s (store_level s p n b) ≡ stored p n (levels_of s b)
unfolding store_level
levels_of-store_level_self bid p zero b = ground arith
levels_of-store_level_self ask p zero b = ground arith
levels_of-store_level_self bid p (suc n) b = ground arith
levels_of-store_level_self ask p (suc n) b = ground arith

pub best_of-store_level_self :
    (s : Side) (p n : ℕ) (b : Book)
    → best_of s (store_level s p n b) ≡ restored s p n (best_of s b) (stored p n (levels_of s b))
unfolding store_level
best_of-store_level_self bid p zero b = ground arith
best_of-store_level_self ask p zero b = ground arith
best_of-store_level_self bid p (suc n) b = ground arith
best_of-store_level_self ask p (suc n) b = ground arith

abbrev pub opposite : Side → Side
opposite bid = ask
opposite ask = bid

pub levels_of-store_level-opposite :
    (s : Side) (p n : ℕ) (b : Book)
    → levels_of (opposite s) (store_level s p n b) ≡ levels_of (opposite s) b
unfolding store_level
levels_of-store_level-opposite bid p zero b = ground arith
levels_of-store_level-opposite ask p zero b = ground arith
levels_of-store_level-opposite bid p (suc n) b = ground arith
levels_of-store_level-opposite ask p (suc n) b = ground arith

pub best_of-store_level-opposite :
    (s : Side) (p n : ℕ) (b : Book)
    → best_of (opposite s) (store_level s p n b) ≡ best_of (opposite s) b
unfolding store_level
best_of-store_level-opposite bid p zero b = ground arith
best_of-store_level-opposite ask p zero b = ground arith
best_of-store_level-opposite bid p (suc n) b = ground arith
best_of-store_level-opposite ask p (suc n) b = ground arith

-- Distinct prices, positive counts, and the right best price.
abbrev pub IsSide : Side → Option ℕ → Dict ℕ ℕ → Type 0
IsSide side best d = IsDistinct d × ((p : ℕ) → lookup p d ≢ some 0) × IsBest side best d

remove-IsBest :
    (s : Side) (price : ℕ) (best : Option ℕ) (d : Dict ℕ ℕ)
    → IsBest s best d
    → IsBest s (restored s price zero best (remove price d)) (remove price d)
remove-IsBest s price none d h = λ p. ground (arith, lookup-remove price p d, h p)
remove-IsBest s price (some b) d h = elim (Bool-cases (b == price)) [
  | inl e ↦ rw e (best_key-IsBest s (remove price d))
  | inr e ↦ rw e (
    ground (arith, lookup-remove price b d),
    λ p k. h.1 p (ground (arith, lookup-remove price p d)),
  )
]

put-IsBest :
    (s : Side) (price n : ℕ) (best : Option ℕ) (d : Dict ℕ ℕ)
    → IsBest s best d
    → IsBest s (restored s price (suc n) best (put price (suc n) d)) (put price (suc n) d)
put-IsBest bid price n none d h = (
  ground (arith, lookup-put price price (suc n) d),
  λ p k. ground (arith, lookup-put price p (suc n) d, h p),
)
put-IsBest ask price n none d h = (
  ground (arith, lookup-put price price (suc n) d),
  λ p k. ground (arith, lookup-put price p (suc n) d, h p),
)
put-IsBest bid price n (some b) d h = elim (Bool-cases (better bid price b)) [
  | inl e ↦ rw e (
    ground (arith, lookup-put price price (suc n) d),
    λ p k. ground (arith, lookup-put price p (suc n) d, h.1 p),
  )
  | inr e ↦ rw e (
    ground (arith, lookup-put price b (suc n) d),
    λ p k. ground (arith, lookup-put price p (suc n) d, h.1 p),
  )
]
put-IsBest ask price n (some b) d h = elim (Bool-cases (better ask price b)) [
  | inl e ↦ rw e (
    ground (arith, lookup-put price price (suc n) d),
    λ p k. ground (arith, lookup-put price p (suc n) d, h.1 p),
  )
  | inr e ↦ rw e (
    ground (arith, lookup-put price b (suc n) d),
    λ p k. ground (arith, lookup-put price p (suc n) d, h.1 p),
  )
]

pub stored-IsSide :
    (s : Side) (price n : ℕ) (best : Option ℕ) (d : Dict ℕ ℕ)
    → IsSide s best d
    → IsSide s (restored s price n best (stored price n d)) (stored price n d)
stored-IsSide s price zero best d h = (
  remove-IsDistinct price d h.0,
  (λ p e. h.1 p (ground (arith, lookup-remove price p d))),
  remove-IsBest s price best d h.2,
)
stored-IsSide s price (suc n) best d h = (
  put-IsDistinct price (suc n) d h.0,
  (λ p e. h.1 p (ground (arith, lookup-put price p (suc n) d))),
  put-IsBest s price n best d h.2,
)

IsSide-eq :
    (s : Side) {best best' : Option ℕ} {d d' : Dict ℕ ℕ}
    → best ≡ best'
    → d ≡ d'
    → IsSide s best' d'
    → IsSide s best d
IsSide-eq s e f h = rw (e, f) h

pub store_level-IsSide :
    (s t : Side) (price n : ℕ) (b : Book)
    → ((u : Side) → IsSide u (best_of u b) (levels_of u b))
    → IsSide t (best_of t (store_level s price n b)) (levels_of t (store_level s price n b))
store_level-IsSide bid bid price n b h =
    IsSide-eq bid (best_of-store_level_self bid price n b)
      (levels_of-store_level_self bid price n b) (stored-IsSide bid price n _ _ (h bid))
store_level-IsSide ask ask price n b h =
    IsSide-eq ask (best_of-store_level_self ask price n b)
      (levels_of-store_level_self ask price n b) (stored-IsSide ask price n _ _ (h ask))
store_level-IsSide bid ask price n b h =
    IsSide-eq ask (best_of-store_level-opposite bid price n b)
      (levels_of-store_level-opposite bid price n b) (h ask)
store_level-IsSide ask bid price n b h =
    IsSide-eq bid (best_of-store_level-opposite ask price n b)
      (levels_of-store_level-opposite ask price n b) (h bid)
