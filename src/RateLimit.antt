-- ===== src/RateLimit.antt =====
-- src/tape/client/ratelimit.py: the token bucket. Tokens are counted in billionths; times are
-- monotonic nanoseconds.
pub mod Refill
pub mod Waiting
mod Tests
use kalshi_trading_project.Prelude.{
  ℕ, ◌+◌, ◌-◌, ◌*◌, ◌/◌, Bool, true, false, List, [], ◌∷◌, Option, none, some, ltb, leb,
  if◌then◌else◌,
}
use Prim.Native.Nat.{min}
use kalshi_trading_project.Prelude.Int.{ℤ, pos, negsuc, negate, floor_div}
use kalshi_trading_project.Prelude.Result.{Result, ok, err, ◌>>=◌}

abbrev pub ns_per_s : ℕ
ns_per_s = 1_000_000_000

pub record BucketLimits : Type 0 where
  pub refill_per_s : ℕ
  pub capacity : ℕ

-- The cases of `ValueError`.
pub data LimitError : Type 0 where
  not_positive exceeds_capacity bad_limits : LimitError

pub record TokenBucket : Type 0 where
  pub refill_per_s : ℕ
  pub capacity : ℕ
  pub tokens_e9 : ℕ
  pub last_ns : ℕ

unfoldable pub new_bucket : BucketLimits → ℕ → Result LimitError TokenBucket
new_bucket limits now_ns =
    if leb limits.refill_per_s 0
    then err bad_limits
    else if leb limits.capacity 0
    then err bad_limits
    else if ltb limits.capacity limits.refill_per_s
    then err bad_limits
    else ok (record {
      refill_per_s = limits.refill_per_s;
      capacity = limits.capacity;
      tokens_e9 = limits.capacity * ns_per_s;
      last_ns = now_ns;
    })

unfoldable pub refill : ℕ → TokenBucket → TokenBucket
refill now_ns b = if leb now_ns b.last_ns then b else record b {
  last_ns = now_ns;
  tokens_e9 = min (b.capacity * ns_per_s) (b.tokens_e9 + (now_ns - b.last_ns) * b.refill_per_s);
}

-- A request's cost, if a full bucket can pay it.
unfoldable pub check : ℤ → TokenBucket → Result LimitError ℕ
check (negsuc n) b = err not_positive
check (pos n) b =
    if leb n 0 then err not_positive else if ltb b.capacity n then err exceeds_capacity else ok n

unfoldable pub tokens : ℕ → TokenBucket → ℕ × TokenBucket
unfolding refill
tokens now_ns b = let b' = refill now_ns b in (b'.tokens_e9 / ns_per_s, b')

unfoldable pub take_from : ℕ → TokenBucket → Bool × TokenBucket
take_from cost b =
    if ltb b.tokens_e9 (cost * ns_per_s)
    then (false, b)
    else (true, record b { tokens_e9 = b.tokens_e9 - cost * ns_per_s })

unfoldable pub try_take : ℤ → ℕ → TokenBucket → Result LimitError (Bool × TokenBucket)
unfolding check refill take_from
try_take cost now_ns b = do n ← check cost b; ok (take_from n (refill now_ns b))

-- -((-shortfall_e9) // refill_per_s)
unfoldable pub rounded_up : ℕ → ℕ → ℤ
rounded_up shortfall_e9 refill_per_s = negate (floor_div (negate (pos shortfall_e9)) refill_per_s)

unfoldable pub wait_for : ℕ → TokenBucket → ℤ
unfolding rounded_up
wait_for cost b =
    if leb (cost * ns_per_s) b.tokens_e9
    then pos 0
    else rounded_up (cost * ns_per_s - b.tokens_e9) b.refill_per_s

unfoldable pub wait_ns : ℤ → ℕ → TokenBucket → Result LimitError (ℤ × TokenBucket)
unfolding check refill wait_for
wait_ns cost now_ns b = do n ← check cost b; let b' = refill now_ns b; ok (wait_for n b', b')

abbrev pub after_wait :
    Result LimitError (ℤ × TokenBucket)
    → (TokenBucket → Option (Result LimitError TokenBucket))
    → Option (Result LimitError TokenBucket)
after_wait (err e) again = some (err e)
after_wait (ok (delay, b)) again = again b

abbrev pub after_try :
    Result LimitError (Bool × TokenBucket)
    → (TokenBucket → Option (Result LimitError TokenBucket))
    → Option (Result LimitError TokenBucket)
after_try (err e) again = some (err e)
after_try (ok (true, b)) again = some (ok b)
after_try (ok (false, b)) again = again b

-- `BucketRateLimiter.acquire` while it holds its bucket's lock: each round reads the clock for the try
-- and, if that fails, again for the wait. `none` when the readings run out before it returns.
unfoldable pub acquire : List (ℕ × ℕ) → ℤ → TokenBucket → Option (Result LimitError TokenBucket)
acquire [] cost b = none
acquire ((try_now, wait_now) ∷ rest) cost b =
    after_try (try_take cost try_now b)
      (λ b'. after_wait (wait_ns cost wait_now b') (acquire rest cost))
