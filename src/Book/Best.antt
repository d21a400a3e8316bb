-- ===== src/Book/Best.antt =====
-- The cached best prices: `max` of the bid keys and `min` of the ask keys.
use kalshi_trading_project.Prelude.{
  ℕ, ◌≡◌, refl, ◌⊎◌, inl, true, false, Option, none, some, [], ◌∷◌, arith, if◌then◌else◌,
}
use kalshi_trading_project.Prelude.Dict.{Dict, lookup, has}
use kalshi_trading_project.Prelude.Eq.{nat_eq}
use kalshi_trading_project.Events.{Side, bid, ask}
use kalshi_trading_project.Book.{better, best_from, best_key}

-- `best` is a key of `d` that no key beats, and there is none exactly when `d` is empty.
abbrev pub IsBest : Side → Option ℕ → Dict ℕ ℕ → Type 0
IsBest side none d = (p : ℕ) → lookup p d ≡ none
IsBest side (some b) d =
    (has (lookup b d) ≡ true) × ((p : ℕ) → has (lookup p d) ≡ true → better side p b ≡ false)

abbrev BestFrom : Side → ℕ → Dict ℕ ℕ → ℕ → Type 0
BestFrom side b d r =
    ((r ≡ b) ⊎ (has (lookup r d) ≡ true))
    × (better side b r ≡ false)
    × ((p : ℕ) → has (lookup p d) ≡ true → better side p r ≡ false)

best_from-BestFrom : (side : Side) (b : ℕ) (d : Dict ℕ ℕ) → BestFrom side b d (best_from side b d)
unfolding best_from lookup
best_from-BestFrom bid b [] = (inl refl, ground arith, λ p h. ground arith)
best_from-BestFrom ask b [] = (inl refl, ground arith, λ p h. ground arith)
best_from-BestFrom bid b ((q, c) ∷ d) =
    let (at, above, all) = best_from-BestFrom bid (if better bid q b then q else b) d in
    (ground arith, ground arith, λ p h. ground (arith, all p))
best_from-BestFrom ask b ((q, c) ∷ d) =
    let (at, above, all) = best_from-BestFrom ask (if better ask q b then q else b) d in
    (ground arith, ground arith, λ p h. ground (arith, all p))

pub best_key-IsBest : (side : Side) (d : Dict ℕ ℕ) → IsBest side (best_key side d) d
unfolding best_key lookup
best_key-IsBest side [] = λ p. refl
best_key-IsBest bid ((q, c) ∷ d) =
    let (at, above, all) = best_from-BestFrom bid q d in
    (ground arith, λ p h. ground (arith, all p))
best_key-IsBest ask ((q, c) ∷ d) =
    let (at, above, all) = best_from-BestFrom ask q d in
    (ground arith, λ p h. ground (arith, all p))

-- Two dictionaries with the same lookups have the same best price.
pub IsBest-unique :
    (s : Side) (x y : Option ℕ) (d f : Dict ℕ ℕ)
    → IsBest s x d
    → IsBest s y f
    → ((q : ℕ) → lookup q d ≡ lookup q f)
    → x ≡ y
IsBest-unique s none none d f h k e = refl
IsBest-unique s none (some y) d f h k e = ground (arith, h y, k.0, e y)
IsBest-unique s (some x) none d f h k e = ground (arith, k x, h.0, e x)
IsBest-unique bid (some x) (some y) d f h k e = ground (arith, h.0, k.0, e x, e y, h.1 y, k.1 x)
IsBest-unique ask (some x) (some y) d f h k e = ground (arith, h.0, k.0, e x, e y, h.1 y, k.1 x)
