-- ===== src/RateLimit/Waiting.antt =====
-- The wait that a bucket announces, and the loop of `acquire` that sleeps it.
use kalshi_trading_project.Prelude.{
  ℕ, zero, suc, ◌+◌, ◌-◌, ◌*◌, ◌/◌, ◌≤◌, ◌<◌, ◌≡◌, refl, ◌↔◌, Bool, true, false, List, ◌∷◌, arith,
  Bool-cases, leb, ltb, inl, inr, Option, none, some, ◌⊎◌, sym, ap, ◌∙◌,
}
use mathlib.Core.Bool.{false≢true}
use Prim.Native.Nat.{min}
use native.Mathlib.Nat.{div-lt_iff_lt-mul}
use kalshi_trading_project.Prelude.Int.{ℤ, pos, magnitude}
use kalshi_trading_project.Prelude.Result.{Result, ok, err}
use kalshi_trading_project.RateLimit.{
  TokenBucket, LimitError, ns_per_s, refill, check, take_from, try_take, wait_for, wait_ns,
  rounded_up, acquire,
}
use kalshi_trading_project.RateLimit.Refill.{IsValid}

rounded_up-suc : (s r : ℕ) → rounded_up (suc s) r ≡ pos (suc (s / r))
unfolding rounded_up
rounded_up-suc s r = ground arith

-- The rounded quotient is the least number of nanoseconds in which `s` is refilled.
rounded_up-least : (s r x : ℕ) → 0 < r → 0 < s → (s ≤ x * r) ↔ (magnitude (rounded_up s r) ≤ x)
rounded_up-least zero r x h k = absurd (omega arith)
rounded_up-least (suc s) r x h k =
    let least : (s / r < x) ↔ (s < x * r) = div-lt_iff_lt-mul h in
    rw rounded_up-suc ((λ e. omega (arith, least.1 e)), λ e. least.0 (omega arith))

refilled_enough :
    (cap r tok n last t : ℕ)
    → n * ns_per_s ≤ cap * ns_per_s
    → last ≤ t
    → (n * ns_per_s ≤ min (cap * ns_per_s) (tok + (t - last) * r))
      ↔ (n * ns_per_s ≤ tok + (t - last) * r)
refilled_enough cap r tok n last t h k = ((λ e. omega arith), λ e. omega arith)

-- From the bucket's last reading, a request succeeds exactly from the announced wait on.
enough :
    (n t : ℕ) (b : TokenBucket)
    → IsValid b
    → n ≤ b.capacity
    → b.last_ns ≤ t
    → ((take_from n (refill t b)).0 ≡ true) ↔ (b.last_ns + magnitude (wait_for n b) ≤ t)
unfolding take_from refill wait_for
enough n t b h c k = elim (Bool-cases (leb (n * ns_per_s) b.tokens_e9)) [
  | inl e ↦ rw e ((λ f. omega arith), λ f. ground arith)
  | inr e ↦
      let least =
        rounded_up-least (n * ns_per_s - b.tokens_e9) b.refill_per_s (t - b.last_ns) h.refills
          (ground arith) in
      rw e (
        (λ f. ground (arith, least.0)),
        λ f. ground (
          arith,
          least.1,
          refilled_enough b.capacity b.refill_per_s b.tokens_e9 n b.last_ns t (omega arith) k,
        ),
      )
]

wait_for-pos : (n : ℕ) (b : TokenBucket) → wait_for n b ≡ pos (magnitude (wait_for n b))
unfolding wait_for rounded_up
wait_for-pos n b = ground arith

refill-IsValid : (now : ℕ) (b : TokenBucket) → IsValid b → IsValid (refill now b)
unfolding refill
refill-IsValid now b h = ground arith

refill-last_ns : (now : ℕ) (b : TokenBucket) → b.last_ns ≤ now → (refill now b).last_ns ≡ now
unfolding refill
refill-last_ns now b h = ground arith

refill-capacity : (now : ℕ) (b : TokenBucket) → (refill now b).capacity ≡ b.capacity
unfolding refill
refill-capacity now b = ground arith

check-ok : (n : ℕ) (b : TokenBucket) → 0 < n → n ≤ b.capacity → check (pos n) b ≡ ok n
unfolding check
check-ok n b h k = ground arith

try_take-eq :
    (n t : ℕ) (b : TokenBucket)
    → 0 < n
    → n ≤ b.capacity
    → try_take (pos n) t b ≡ ok (take_from n (refill t b))
unfolding try_take
try_take-eq n t b h k = rw (check-ok n b h k)

wait_ns-eq :
    (n t : ℕ) (b : TokenBucket)
    → 0 < n
    → n ≤ b.capacity
    → wait_ns (pos n) t b ≡ ok (wait_for n (refill t b), refill t b)
unfolding wait_ns
wait_ns-eq n t b h k = rw (check-ok n b h k)

abbrev pub Succeeds : Result LimitError (Bool × TokenBucket) → Type 0
Succeeds (err e) = ⊥
Succeeds (ok (taken, b)) = taken ≡ true

abbrev pub AnnouncesExactly : ℕ → ℕ → TokenBucket → Result LimitError (ℤ × TokenBucket) → Type 0
AnnouncesExactly n now b (err e) = ⊥
AnnouncesExactly n now b (ok (wait, b')) =
    (d : ℕ) × (wait ≡ pos d)
    × ((t : ℕ) → now ≤ t → Succeeds (try_take (pos n) t b') ↔ (now + d ≤ t))

-- On a valid bucket whose last reading is not after now, a request of at least one token and at most
-- the capacity is told to wait a number of nanoseconds that is exact: tried at any later time it
-- succeeds if and only if at least that many have passed.
pub wait_ns-exact :
    (n now : ℕ) (b : TokenBucket)
    → IsValid b
    → 0 < n
    → n ≤ b.capacity
    → b.last_ns ≤ now
    → AnnouncesExactly n now b (wait_ns (pos n) now b)
wait_ns-exact n now b h p c k =
    rw (wait_ns-eq n now b p c) (magnitude (wait_for n b'), wait_for-pos n b', exact)
  where
    b' : TokenBucket
    b' = refill now b

    fits : n ≤ b'.capacity
    fits = rw (refill-capacity now b) c

    exact :
        (t : ℕ) → now ≤ t → Succeeds (try_take (pos n) t b') ↔ (now + magnitude (wait_for n b') ≤ t)
    exact t l =
        let at = refill-last_ns now b k in
        let e = enough n t b' (refill-IsValid now b h) fits (omega (arith, at)) in
        rw (try_take-eq n t b' p fits)
          ((λ s. omega (arith, e.0 s, at)), λ s. e.1 (omega (arith, at)))

-- The bucket after `n` tokens were taken from `b`, which had them.
pub record IsPaid (n : ℕ) (b b' : TokenBucket) : Type 0 where
  pub paid : b.tokens_e9 ≡ b'.tokens_e9 + n * ns_per_s
  pub last_kept : b'.last_ns ≡ b.last_ns
  pub capacity_kept : b'.capacity ≡ b.capacity
  pub refill_kept : b'.refill_per_s ≡ b.refill_per_s

-- The tokens are taken once, from `first` if it has them and from `later` if not.
abbrev pub Returns : ℕ → TokenBucket → TokenBucket → Option (Result LimitError TokenBucket) → Type 0
Returns n first later none = ⊥
Returns n first later (some (err e)) = ⊥
Returns n first later (some (ok b)) =
    IsPaid n first b ⊎ ((first.tokens_e9 < n * ns_per_s) × IsPaid n later b)

taken_cases :
    (n : ℕ) (b : TokenBucket)
    → ((take_from n b ≡ (false, b)) × (b.tokens_e9 < n * ns_per_s))
      ⊎ ((b' : TokenBucket) × (take_from n b ≡ (true, b')) × IsPaid n b b')
unfolding take_from
taken_cases n b = elim (Bool-cases (ltb b.tokens_e9 (n * ns_per_s))) [
  | inl e ↦ inl (rw e refl, ground arith)
  | inr e ↦ inr (
    record b { tokens_e9 = b.tokens_e9 - n * ns_per_s },
    rw e refl,
    record { paid = ground arith; last_kept = refl; capacity_kept = refl; refill_kept = refl },
  )
]

-- A caller that holds the lock of a valid bucket and asks for at least one token and at most the
-- capacity gets them, if the clock does not step back and the sleep between the tries lasts at
-- least the announced wait: the call returns with exactly that many tokens taken from the bucket
-- refilled at the first try or, only if that has too few, from the bucket refilled at the second.
pub acquire-Returns :
    (n t w t' w' : ℕ) (rest : List (ℕ × ℕ)) (b : TokenBucket)
    → IsValid b
    → 0 < n
    → n ≤ b.capacity
    → b.last_ns ≤ t
    → t ≤ w
    → w + magnitude (wait_for n (refill w (refill t b))) ≤ t'
    → Returns n
        (refill t b)
        (refill t' (refill w (refill t b)))
        (acquire ((t, w) ∷ (t', w') ∷ rest) (pos n) b)
unfolding acquire
acquire-Returns n t w t' w' rest b h p c k l slept = elim (taken_cases n (refill t b)) [
  | inl (e, few) ↦
      rw (try_take-eq n t b p c, e, wait_ns-eq n w (refill t b) p fits_first)
        (second few (taken_cases n (refill t' b'))
          ((enough n t' b' valid fits (omega (arith, last))).1 (omega (arith, last))))
  | inr (taken, e, paid) ↦ rw (try_take-eq n t b p c, e) (inl paid)
]
  where
    b' : TokenBucket
    b' = refill w (refill t b)

    valid : IsValid b'
    valid = refill-IsValid w (refill t b) (refill-IsValid t b h)

    fits : n ≤ b'.capacity
    fits = rw (refill-capacity w (refill t b), refill-capacity t b) c

    last : b'.last_ns ≡ w
    last = refill-last_ns w (refill t b) (omega (arith, refill-last_ns t b k))

    fits_first : n ≤ (refill t b).capacity
    fits_first = rw (refill-capacity t b) c

    second :
        (refill t b).tokens_e9 < n * ns_per_s
        → ((take_from n (refill t' b') ≡ (false, refill t' b'))
            × ((refill t' b').tokens_e9 < n * ns_per_s))
          ⊎ ((taken : TokenBucket) × (take_from n (refill t' b') ≡ (true, taken))
              × IsPaid n (refill t' b') taken)
        → (take_from n (refill t' b')).0 ≡ true
        → Returns n (refill t b) (refill t' b') (acquire ((t', w') ∷ rest) (pos n) b')
    second few (inl (e, k)) s =
        absurd (false≢true (sym (ap (λ (x : Bool × TokenBucket). x.0) e) ∙ s))
    second few (inr (taken, e, paid)) s = rw (try_take-eq n t' b' p fits, e) (inr (few, paid))
