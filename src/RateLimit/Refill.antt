-- ===== src/RateLimit/Refill.antt =====
-- The bucket's invariant, and what any sequence of requests can take.
use kalshi_trading_project.Prelude.{
  ℕ, ◌+◌, ◌-◌, ◌*◌, ◌≤◌, ◌<◌, ◌≡◌, Bool, true, false, List, [], ◌∷◌, arith, Bool-cases, leb, ltb,
  inl, inr, sym, ap, ◌∙◌,
}
use native.Mathlib.Nat.{add-mul}
use kalshi_trading_project.Prelude.Int.{ℤ, pos, negsuc}
use kalshi_trading_project.Prelude.Result.{Result, ok, err}
use kalshi_trading_project.RateLimit.{
  TokenBucket, LimitError, ns_per_s, refill, check, take_from, try_take,
}

pub record IsValid (b : TokenBucket) : Type 0 where
  pub refills : 0 < b.refill_per_s
  pub rate : b.refill_per_s ≤ b.capacity
  pub full : b.tokens_e9 ≤ b.capacity * ns_per_s

-- The bucket only ever gains what the elapsed time allows.
pub record Refilled (now : ℕ) (b b' : TokenBucket) : Type 0 where
  pub same_rate : b'.refill_per_s ≡ b.refill_per_s
  pub same_capacity : b'.capacity ≡ b.capacity
  pub later : b.last_ns ≤ b'.last_ns
  pub at_least : now ≤ b'.last_ns
  pub full : b'.tokens_e9 ≤ b.capacity * ns_per_s
  pub more : b.tokens_e9 ≤ b'.tokens_e9
  pub gained : b'.tokens_e9 ≤ b.tokens_e9 + (b'.last_ns - b.last_ns) * b.refill_per_s

pub refill-Refilled :
    (now : ℕ) (b : TokenBucket)
    → b.tokens_e9 ≤ b.capacity * ns_per_s
    → Refilled now b (refill now b)
unfolding refill
refill-Refilled now b h = ground arith

-- A request's tokens if they were taken, and the bucket after it. A refused request is not refilled.
abbrev pub outcome : ℤ → TokenBucket → Result LimitError (Bool × TokenBucket) → ℕ × TokenBucket
outcome cost b (err e) = (0, b)
outcome cost b (ok (false, b')) = (0, b')
outcome (pos n) b (ok (true, b')) = (n, b')
outcome (negsuc n) b (ok (true, b')) = (0, b')

-- The tokens that a sequence of requests takes, each a cost and a time.
unfoldable pub take_all : List (ℤ × ℕ) → TokenBucket → ℕ × TokenBucket
take_all [] b = (0, b)
take_all ((cost, now) ∷ rs) b =
    let first = outcome cost b (try_take cost now b) in
    let rest = take_all rs first.1 in (first.0 + rest.0, rest.1)

-- What was paid, by what the bucket held and the time that passed up to `until`.
pub record IsPaid (until : ℕ) (b : TokenBucket) (paid : ℕ) (b' : TokenBucket) : Type 0 where
  pub same_rate : b'.refill_per_s ≡ b.refill_per_s
  pub same_capacity : b'.capacity ≡ b.capacity
  pub later : b.last_ns ≤ b'.last_ns
  pub by_then : b'.last_ns ≤ until
  pub full : b'.tokens_e9 ≤ b'.capacity * ns_per_s
  pub paid_for :
      paid * ns_per_s + b'.tokens_e9 ≤ b.tokens_e9 + (b'.last_ns - b.last_ns) * b.refill_per_s

abbrev pub AreBy : ℕ → List (ℤ × ℕ) → Type 0
AreBy until [] = Unit
AreBy until ((cost, now) ∷ rs) = (now ≤ until) × AreBy until rs

module _ (until : ℕ) where
  none-IsPaid :
      (b : TokenBucket)
      → b.last_ns ≤ until
      → b.tokens_e9 ≤ b.capacity * ns_per_s
      → IsPaid until b 0 b
  none-IsPaid b t h = ground arith

  refilled-IsPaid :
      (now : ℕ) (b : TokenBucket)
      → now ≤ until
      → b.last_ns ≤ until
      → b.tokens_e9 ≤ b.capacity * ns_per_s
      → IsPaid until b 0 (refill now b)
  unfolding refill
  refilled-IsPaid now b n t h = ground arith

  taken-IsPaid :
      (n : ℕ) (b b' : TokenBucket)
      → IsPaid until b 0 b'
      → IsPaid until b
          (outcome (pos n) b (ok (take_from n b'))).0
          (outcome (pos n) b (ok (take_from n b'))).1
  unfolding take_from
  taken-IsPaid n b b' h = ground arith

  try_take-IsPaid :
      (cost : ℤ) (now : ℕ) (b : TokenBucket)
      → now ≤ until
      → b.last_ns ≤ until
      → b.tokens_e9 ≤ b.capacity * ns_per_s
      → IsPaid until b
          (outcome cost b (try_take cost now b)).0
          (outcome cost b (try_take cost now b)).1
  unfolding try_take check
  try_take-IsPaid (negsuc n) now b h t f = none-IsPaid b t f
  try_take-IsPaid (pos n) now b h t f = elim (Bool-cases (leb n 0)) [
    | inl e ↦ rw e (none-IsPaid b t f)
    | inr e ↦ elim (Bool-cases (ltb b.capacity n)) [
      | inl g ↦ rw (e, g) (none-IsPaid b t f)
      | inr g ↦ rw (e, g) (taken-IsPaid n b (refill now b) (refilled-IsPaid now b h t f))
    ]
  ]

  IsPaid-trans :
      (x y : ℕ) (a b c : TokenBucket)
      → IsPaid until a x b
      → IsPaid until b y c
      → IsPaid until a (x + y) c
  IsPaid-trans x y a b c h k = record {
    same_rate = k.same_rate ∙ h.same_rate;
    same_capacity = k.same_capacity ∙ h.same_capacity;
    later = omega arith;
    by_then = k.by_then;
    full = k.full;
    paid_for = paid;
  }
    where
      at_rate : (c.last_ns - b.last_ns) * b.refill_per_s ≡ (c.last_ns - b.last_ns) * a.refill_per_s
      at_rate = ap (λ (r : ℕ). (c.last_ns - b.last_ns) * r) h.same_rate

      elapsed :
          (c.last_ns - b.last_ns) * a.refill_per_s + (b.last_ns - a.last_ns) * a.refill_per_s
          ≡ (c.last_ns - a.last_ns) * a.refill_per_s
      elapsed =
          sym (add-mul (c.last_ns - b.last_ns) (b.last_ns - a.last_ns) a.refill_per_s)
          ∙ ap (λ (t : ℕ). t * a.refill_per_s) (omega arith)

      paid :
          (x + y) * ns_per_s + c.tokens_e9 ≤ a.tokens_e9 + (c.last_ns - a.last_ns) * a.refill_per_s
      paid = omega (arith, at_rate, elapsed, h.paid_for, k.paid_for)

  take_all-IsPaid :
      (rs : List (ℤ × ℕ)) (b : TokenBucket)
      → AreBy until rs
      → b.last_ns ≤ until
      → b.tokens_e9 ≤ b.capacity * ns_per_s
      → IsPaid until b (take_all rs b).0 (take_all rs b).1
  unfolding take_all
  take_all-IsPaid [] b h t f = none-IsPaid b t f
  take_all-IsPaid ((cost, now) ∷ rs) b h t f =
      let first = try_take-IsPaid cost now b h.0 t f in
      IsPaid-trans _ _ _ _ _ first
        (take_all-IsPaid rs (outcome cost b (try_take cost now b)).1 h.1 first.by_then first.full)

-- Whatever is asked of a bucket that holds no more than its capacity, in whatever order of times, all
-- at or before `until`: the tokens taken are at most those it held and those that its rate
-- refills from its last reading to `until`.
pub take_all-le-refill :
    (until : ℕ) (rs : List (ℤ × ℕ)) (b : TokenBucket)
    → AreBy until rs
    → b.last_ns ≤ until
    → b.tokens_e9 ≤ b.capacity * ns_per_s
    → (take_all rs b).0 * ns_per_s ≤ b.tokens_e9 + (until - b.last_ns) * b.refill_per_s
take_all-le-refill until rs b h t f =
    let paid = take_all-IsPaid until rs b h t f in grind (arith, paid.paid_for, paid.by_then)
