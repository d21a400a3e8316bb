-- ===== src/RateLimit/Tests.antt =====
-- The Basic read bucket, and the theorems at it.
use kalshi_trading_project.Prelude.{◌+◌, ◌-◌, ◌*◌, ◌≤◌, ◌≡◌, refl, [], ◌∷◌, arith}
use kalshi_trading_project.Prelude.Int.{pos}
use kalshi_trading_project.Prelude.Result.{ok}
use kalshi_trading_project.RateLimit.{
  TokenBucket, ns_per_s, refill, wait_for, rounded_up, wait_ns, acquire,
}
use kalshi_trading_project.RateLimit.Refill.{IsValid, take_all, take_all-le-refill}
use kalshi_trading_project.RateLimit.Waiting.{
  AnnouncesExactly, wait_ns-exact, Returns, acquire-Returns,
}

-- BASIC_READ, drained at time 1000.
abbrev drained : TokenBucket
drained = record { refill_per_s = 200; capacity = 400; tokens_e9 = 0; last_ns = 1000 }

drained-IsValid : IsValid drained
drained-IsValid = omega arith

-- Ten tokens at 200 a second take 50 ms.
drained_wait : wait_ns (pos 10) 1000 drained ≡ ok (pos 50_000_000, drained)
unfolding wait_ns
drained_wait = refl

take_all-le-refill_example :
    (take_all ((pos 10, 60_000_000) ∷ (pos 10, 60_000_001) ∷ []) drained).0 * ns_per_s
    ≤ 0 + (70_000_000 - 1000) * 200
take_all-le-refill_example =
    take_all-le-refill 70_000_000 ((pos 10, 60_000_000) ∷ (pos 10, 60_000_001) ∷ []) drained
      (omega arith) (omega arith) (omega arith)

wait_ns-exact_example : AnnouncesExactly 10 2000 drained (wait_ns (pos 10) 2000 drained)
wait_ns-exact_example =
    wait_ns-exact 10 2000 drained drained-IsValid (omega arith) (omega arith) (omega arith)

acquire-Returns_example :
    Returns 10
      (refill 2000 drained)
      (refill 60_000_000 (refill 2100 (refill 2000 drained)))
      (acquire ((2000, 2100) ∷ (60_000_000, 60_000_100) ∷ []) (pos 10) drained)
unfolding wait_for refill rounded_up
acquire-Returns_example =
    acquire-Returns 10 2000 2100 60_000_000 60_000_100 [] drained drained-IsValid (omega arith)
      (omega arith) (omega arith) (omega arith) (omega arith)
