-- ===== src/Book/Deltas.antt =====
-- What `apply_delta` does on each of its paths.
use kalshi_trading_project.Prelude.{
  ℕ, zero, suc, ◌≡◌, refl, Bool, true, false, Option, none, some, ap, ◌∙◌, arith, if_cases,
  if◌then◌else◌, ◌==◌, ◌&&◌,
}
use kalshi_trading_project.Prelude.Int.{ℤ, pos, negsuc, ◌+ℤ◌}
use kalshi_trading_project.Prelude.Dict.{Dict}
use kalshi_trading_project.Prelude.DictLaws.{lookup-put, lookup-remove}
use kalshi_trading_project.Prelude.Eq.{nat_eq}
use kalshi_trading_project.Prelude.Result.{Result, ok, err}
use kalshi_trading_project.Events.{Side, bid, ask}
use kalshi_trading_project.Book.{
  Book, Violation, negative_level, crossed_after_delta, levels_of, best_of, is_crossed, mark_stale,
  store_level, finish_delta, settle_delta, count_at, size_at, apply_delta, touch,
}
use kalshi_trading_project.Book.Sides.{
  IsSide, stored, levels_of-store_level_self, levels_of-store_level-opposite, store_level-IsSide,
}
use kalshi_trading_project.Book.Invariant.{
  IsWellFormed, IsUncrossed, IsUncrossed-of_best, crossed_of_best,
}

abbrev pub same_side : Side → Side → Bool
same_side bid bid = true
same_side bid ask = false
same_side ask bid = false
same_side ask ask = true

-- The size at one level became `n`, and every other is as it was.
abbrev pub IsResized : Side → ℕ → ℕ → Book → Book → Type 0
IsResized side price n b b' =
    (t : Side) (q : ℕ)
    → size_at t q b' ≡ (if same_side side t && price == q then n else size_at t q b)

count_at-stored :
    (p n q : ℕ) (d : Dict ℕ ℕ) → count_at q (stored p n d) ≡ (if p == q then n else count_at q d)
count_at-stored p zero q d = ground (arith, lookup-remove p q d)
count_at-stored p (suc n) q d = ground (arith, lookup-put p q (suc n) d)

store_level-IsResized : (s : Side) (p n : ℕ) (b : Book) → IsResized s p n b (store_level s p n b)
unfolding size_at
store_level-IsResized bid p n b bid q =
    ap (count_at q) (levels_of-store_level_self bid p n b) ∙ count_at-stored p n q b.bids
store_level-IsResized ask p n b ask q =
    ap (count_at q) (levels_of-store_level_self ask p n b) ∙ count_at-stored p n q b.asks
store_level-IsResized bid p n b ask q = ap (count_at q) (levels_of-store_level-opposite bid p n b)
store_level-IsResized ask p n b bid q = ap (count_at q) (levels_of-store_level-opposite ask p n b)

-- `ts_ms` where it is given, else the time before.
abbrev pub newer : Option ℕ → Option ℕ → Option ℕ
newer none t = t
newer (some u) t = some u

-- The book after a delta, by the outcome.
abbrev pub DeltaOutcome : Side → ℕ → ℤ → Option ℕ → Book → Result Violation Bool → Book → Type 0
DeltaOutcome s p δ ts_ms b (ok false) b' = (b.stale ≡ true) × (b' ≡ b)
DeltaOutcome s p δ ts_ms b (ok true) b' =
    (b.stale ≡ false)
    × (b'.stale ≡ false)
    × ((n : ℕ) × (pos (size_at s p b) +ℤ δ ≡ pos n) × IsResized s p n b b')
    × (b'.last_ts_ms ≡ newer ts_ms b.last_ts_ms)
    × IsUncrossed b'.bids b'.asks
DeltaOutcome s p δ ts_ms b (err (negative_level t q)) b' =
    (b.stale ≡ false)
    × ((n : ℕ) × (pos (size_at s p b) +ℤ δ ≡ negsuc n))
    × (b' ≡ record b { stale = true })
DeltaOutcome s p δ ts_ms b (err crossed_after_delta) b' =
    (b.stale ≡ false)
    × (b'.stale ≡ true)
    × ((n : ℕ) × (pos (size_at s p b) +ℤ δ ≡ pos n) × IsResized s p n b b')
    × ¬ IsUncrossed b'.bids b'.asks
DeltaOutcome s p δ ts_ms b (err v) b' = ⊥

pub store_level-stale : (s : Side) (p n : ℕ) (b : Book) → (store_level s p n b).stale ≡ b.stale
unfolding store_level
store_level-stale bid p zero b = ground arith
store_level-stale ask p zero b = ground arith
store_level-stale bid p (suc n) b = ground arith
store_level-stale ask p (suc n) b = ground arith

store_level-last_ts_ms :
    (s : Side) (p n : ℕ) (b : Book) → (store_level s p n b).last_ts_ms ≡ b.last_ts_ms
unfolding store_level
store_level-last_ts_ms bid p zero b = ground arith
store_level-last_ts_ms ask p zero b = ground arith
store_level-last_ts_ms bid p (suc n) b = ground arith
store_level-last_ts_ms ask p (suc n) b = ground arith

module _ (s : Side) (p : ℕ) (δ : ℤ) (ts_ms : Option ℕ) (b : Book) (fresh : b.stale ≡ false) where
  touched :
      (n : ℕ) (b' : Book) (t : Option ℕ)
      → pos (size_at s p b) +ℤ δ ≡ pos n
      → IsResized s p n b b'
      → b'.stale ≡ false
      → b'.last_ts_ms ≡ b.last_ts_ms
      → IsUncrossed b'.bids b'.asks
      → DeltaOutcome s p δ t b (ok true) (touch t b')
  touched n b' none e r f l u = (fresh, f, (n, e, r), l, u)
  touched n b' (some t) e r f l u = (fresh, f, (n, e, λ t' q. same t' q ∙ r t' q), refl, u)
    where
      same : (t' : Side) (q : ℕ) → size_at t' q (touch (some t) b') ≡ size_at t' q b'
      same bid q = unfold size_at in refl
      same ask q = unfold size_at in refl

  marked : (n : ℕ) (b' : Book) → IsResized s p n b b' → IsResized s p n b (mark_stale b')
  unfolding mark_stale size_at
  marked n b' r bid q = r bid q
  marked n b' r ask q = r ask q

  finish_delta-DeltaOutcome :
      (n : ℕ) (b' : Book)
      → ((u : Side) → IsSide u (best_of u b') (levels_of u b'))
      → pos (size_at s p b) +ℤ δ ≡ pos n
      → IsResized s p n b b'
      → b'.stale ≡ false
      → b'.last_ts_ms ≡ b.last_ts_ms
      → DeltaOutcome s p δ ts_ms b (finish_delta ts_ms b').0 (finish_delta ts_ms b').1
  unfolding finish_delta
  finish_delta-DeltaOutcome n b' sides e r f l =
      if_cases (λ (x : Result Violation Bool × Book). DeltaOutcome s p δ ts_ms b x.0 x.1)
        (is_crossed b'.best_bid b'.best_ask)
        (λ c. (
          fresh,
          refl,
          (n, e, marked n b' r),
          crossed_of_best _ _ b'.bids b'.asks (sides bid).2 (sides ask).2 c,
        ))
        (λ c.
          touched n b' ts_ms e r f l
            (IsUncrossed-of_best _ _ b'.bids b'.asks (sides bid).2 (sides ask).2 c))

  settle_delta-DeltaOutcome :
      (updated : ℤ)
      → ((u : Side) → IsSide u (best_of u b) (levels_of u b))
      → pos (size_at s p b) +ℤ δ ≡ updated
      → DeltaOutcome s p δ ts_ms b
          (settle_delta s p updated ts_ms b).0
          (settle_delta s p updated ts_ms b).1
  unfolding settle_delta
  settle_delta-DeltaOutcome (negsuc n) sides e = (fresh, (n, e), unfold mark_stale in refl)
  settle_delta-DeltaOutcome (pos n) sides e =
      finish_delta-DeltaOutcome n (store_level s p n b) (λ u. store_level-IsSide s u p n b sides) e
        (store_level-IsResized s p n b) (store_level-stale s p n b ∙ fresh)
        (store_level-last_ts_ms s p n b)

-- On a well-formed book a delta does one of four things. A stale book ignores it and is unchanged.
-- If the level would become negative it raises, and the book is stale and otherwise unchanged.
-- Otherwise exactly that level has its count plus the delta and every other keeps its count; then
-- if some bid is not below some ask it raises and the book is stale, and if not it returns true, the
-- book is not stale, and takes the time of the delta when there is one.
pub apply_delta-DeltaOutcome :
    (s : Side) (p : ℕ) (δ : ℤ) (ts_ms : Option ℕ) (b : Book)
    → IsWellFormed b
    → DeltaOutcome s p δ ts_ms b (apply_delta s p δ ts_ms b).0 (apply_delta s p δ ts_ms b).1
unfolding apply_delta
apply_delta-DeltaOutcome s p δ ts_ms b h =
    if_cases (λ (x : Result Violation Bool × Book). DeltaOutcome s p δ ts_ms b x.0 x.1) b.stale
      (λ e. (e, refl))
      (λ e. settle_delta-DeltaOutcome s p δ ts_ms b e _ h.sides (unfold size_at in refl))
