-- ===== src/Book/Invariant.antt =====
-- The invariant of a book, and that every method keeps it.
use kalshi_trading_project.Prelude.{
  ℕ, ◌<◌, ◌≡◌, refl, ◌≢◌, inl, inr, Bool, true, false, Option, none, some, List, [], ◌∷◌, arith,
  Bool-cases, if_cases, leb, if◌then◌else◌,
}
use kalshi_trading_project.Prelude.Int.{ℤ, pos, negsuc}
use kalshi_trading_project.Prelude.Dict.{Dict, lookup, put, has, IsDistinct}
use kalshi_trading_project.Prelude.DictLaws.{lookup-put, put-IsDistinct}
use kalshi_trading_project.Prelude.Eq.{nat_eq}
use kalshi_trading_project.Prelude.Result.{Result, ok, err, ◌>>=◌}
use kalshi_trading_project.Events.{Side, bid, ask, Level}
use kalshi_trading_project.Book.{
  Book, Violation, best_key, levels_of, best_of, is_crossed, collect, mark_stale, new_image,
  apply_snapshot, crossed_snapshot, crossed_after_delta, replaced, touch, store_level, finish_delta,
  settle_delta, apply_delta, new_book,
}
use kalshi_trading_project.Book.Best.{IsBest, best_key-IsBest}
use kalshi_trading_project.Book.Sides.{IsSide, store_level-IsSide}
use Prim.Native.String.{String}

-- Every bid price is below every ask price.
abbrev pub IsUncrossed : Dict ℕ ℕ → Dict ℕ ℕ → Type 0
IsUncrossed bids asks = (p q : ℕ) → has (lookup p bids) ≡ true → has (lookup q asks) ≡ true → p < q

-- On each side the prices are distinct, the counts positive and the cached best price right; a book
-- that is not stale is not crossed.
pub record IsWellFormed (b : Book) : Type 0 where
  pub sides : (s : Side) → IsSide s (best_of s b) (levels_of s b)
  pub uncrossed : b.stale ≡ false → IsUncrossed b.bids b.asks

pub IsUncrossed-of_best :
    (best_bid best_ask : Option ℕ) (bids asks : Dict ℕ ℕ)
    → IsBest bid best_bid bids
    → IsBest ask best_ask asks
    → is_crossed best_bid best_ask ≡ false
    → IsUncrossed bids asks
IsUncrossed-of_best none a bids asks hb ha h p q i j = ground (arith, hb p)
IsUncrossed-of_best (some b) none bids asks hb ha h p q i j = ground (arith, ha q)
IsUncrossed-of_best (some b) (some a) bids asks hb ha h p q i j = ground (arith, hb.1 p, ha.1 q)

pub crossed_of_best :
    (best_bid best_ask : Option ℕ) (bids asks : Dict ℕ ℕ)
    → IsBest bid best_bid bids
    → IsBest ask best_ask asks
    → is_crossed best_bid best_ask ≡ true
    → ¬ IsUncrossed bids asks
crossed_of_best none a bids asks hb ha h u = cc
crossed_of_best (some b) none bids asks hb ha h u = cc
crossed_of_best (some b) (some a) bids asks hb ha h u = ground (arith, u b a hb.0 ha.0)

pub new_book-IsWellFormed : (ticker : String) → IsWellFormed (new_book ticker)
unfolding lookup
new_book-IsWellFormed ticker = record { sides = λ s. new_side s; uncrossed = λ h. cc }
  where
    new_side : (s : Side) → IsSide s (best_of s (new_book ticker)) (levels_of s (new_book ticker))
    new_side bid = (tt, (λ p e. cc), λ p. refl)
    new_side ask = (tt, (λ p e. cc), λ p. refl)

pub mark_stale-IsWellFormed : {b : Book} → IsWellFormed b → IsWellFormed (mark_stale b)
unfolding mark_stale
mark_stale-IsWellFormed {b} h = record { sides = sides; uncrossed = λ e. cc }
  where
    sides : (s : Side) → IsSide s (best_of s (mark_stale b)) (levels_of s (mark_stale b))
    sides bid = h.sides bid
    sides ask = h.sides ask

-- What `_collect` returns has distinct prices and positive counts.
abbrev IsImage : Result Violation (Dict ℕ ℕ) → Type 0
IsImage (ok d) = IsDistinct d × ((p : ℕ) → lookup p d ≢ some 0)
IsImage (err v) = Unit

collect-IsImage :
    (s : Side) (d : Dict ℕ ℕ) (ls : List Level)
    → IsDistinct d
    → ((p : ℕ) → lookup p d ≢ some 0)
    → IsImage (collect s d ls)
unfolding collect
collect-IsImage s d [] h k = (h, k)
collect-IsImage s d (l ∷ ls) h k = elim (Bool-cases (leb l.count 0)) [
  | inl e ↦ rw e tt
  | inr e ↦ elim (Bool-cases (has (lookup l.price d))) [
    | inl f ↦ rw (e, f) tt
    | inr f ↦
        rw (e, f)
          (collect-IsImage s (put l.price l.count d) ls (put-IsDistinct l.price l.count d h)
            (λ p x. k p (ground (arith, lookup-put l.price p l.count d))))
  ]
]

abbrev IsWellFormedOk : Result Violation Book → Type 0
IsWellFormedOk (ok b) = IsWellFormed b
IsWellFormedOk (err v) = Unit

replaced-IsWellFormed :
    (ls ms : List Level) (ts_ms : Option ℕ) (b : Book) → IsWellFormedOk (new_image ls ms ts_ms b)
unfolding new_image
replaced-IsWellFormed ls ms ts_ms b =
    from (collect bid [] ls) (collect ask [] ms) (collect-IsImage bid [] ls tt (λ p e. empty p e))
      (collect-IsImage ask [] ms tt (λ p e. empty p e))
  where
    empty : (p : ℕ) → lookup {V = ℕ} p [] ≢ some 0
    empty p e = unfold lookup in cc

    checked :
        (d f : Dict ℕ ℕ) (crossed : Bool)
        → is_crossed (best_key bid d) (best_key ask f) ≡ crossed
        → IsImage (ok d)
        → IsImage (ok f)
        → IsWellFormedOk (if crossed then err crossed_snapshot else ok (replaced d f ts_ms b))
    checked d f true e h k = tt
    checked d f false e h k = record {
      sides = λ s. side s;
      uncrossed = λ _.
          IsUncrossed-of_best (best_key bid d) (best_key ask f) d f (best_key-IsBest bid d)
            (best_key-IsBest ask f) e;
    }
      where
        side :
            (s : Side)
            → IsSide s (best_of s (replaced d f ts_ms b)) (levels_of s (replaced d f ts_ms b))
        side bid = (h.0, h.1, best_key-IsBest bid d)
        side ask = (k.0, k.1, best_key-IsBest ask f)

    from :
        (r t : Result Violation (Dict ℕ ℕ))
        → IsImage r
        → IsImage t
        → IsWellFormedOk (do
          d ← r
          f ← t
          if is_crossed (best_key bid d) (best_key ask f)
              then err crossed_snapshot
              else ok (replaced d f ts_ms b))
    from (err v) t h k = tt
    from (ok d) (err v) h k = tt
    from (ok d) (ok f) h k = checked d f _ refl h k

pub apply_snapshot-IsWellFormed :
    (ls ms : List Level) (ts_ms : Option ℕ) (b : Book)
    → IsWellFormed b
    → IsWellFormed (apply_snapshot ls ms ts_ms b).1
unfolding apply_snapshot
apply_snapshot-IsWellFormed ls ms ts_ms b h =
    after (new_image ls ms ts_ms b) (replaced-IsWellFormed ls ms ts_ms b)
  where
    after :
        (r : Result Violation Book)
        → IsWellFormedOk r
        → IsWellFormed
            (let r' : Result Violation (Unit {0}) × Book = elim r [
              | ok b' ↦ (ok tt, b')
              | err v ↦ (err v, mark_stale b)
            ] in
              r').1
    after (ok b') k = k
    after (err v) k = mark_stale-IsWellFormed h

module _ (b : Book) (sides : (s : Side) → IsSide s (best_of s b) (levels_of s b)) where
  finish_delta-IsWellFormed : (ts_ms : Option ℕ) → IsWellFormed (finish_delta ts_ms b).1
  unfolding finish_delta
  finish_delta-IsWellFormed ts_ms = checked (is_crossed b.best_bid b.best_ask) refl
    where
      stale_side : (s : Side) → IsSide s (best_of s (mark_stale b)) (levels_of s (mark_stale b))
      stale_side bid = sides bid
      stale_side ask = sides ask

      touched_side :
          (t : Option ℕ) (s : Side) → IsSide s (best_of s (touch t b)) (levels_of s (touch t b))
      touched_side none bid = sides bid
      touched_side none ask = sides ask
      touched_side (some t) bid = sides bid
      touched_side (some t) ask = sides ask

      touched_uncrossed :
          (t : Option ℕ)
          → is_crossed b.best_bid b.best_ask ≡ false
          → IsUncrossed (touch t b).bids (touch t b).asks
      touched_uncrossed none e =
          IsUncrossed-of_best b.best_bid b.best_ask b.bids b.asks (sides bid).2 (sides ask).2 e
      touched_uncrossed (some t) e =
          IsUncrossed-of_best b.best_bid b.best_ask b.bids b.asks (sides bid).2 (sides ask).2 e

      checked :
          (c : Bool)
          → is_crossed b.best_bid b.best_ask ≡ c
          → IsWellFormed
              (let r : Result Violation Bool × Book =
                  if c then (err crossed_after_delta, mark_stale b) else (ok true, touch ts_ms b) in
                r).1
      checked true e = record { sides = stale_side; uncrossed = λ x. cc }
      checked false e = record {
        sides = touched_side ts_ms;
        uncrossed = λ _. touched_uncrossed ts_ms e;
      }

settle_delta-IsWellFormed :
    (s : Side) (price : ℕ) (updated : ℤ) (ts_ms : Option ℕ) (b : Book)
    → IsWellFormed b
    → IsWellFormed (settle_delta s price updated ts_ms b).1
unfolding settle_delta
settle_delta-IsWellFormed s price (negsuc n) ts_ms b h = mark_stale-IsWellFormed h
settle_delta-IsWellFormed s price (pos n) ts_ms b h =
    finish_delta-IsWellFormed (store_level s price n b)
      (λ t. store_level-IsSide s t price n b h.sides) ts_ms

pub apply_delta-IsWellFormed :
    (s : Side) (price : ℕ) (delta : ℤ) (ts_ms : Option ℕ) (b : Book)
    → IsWellFormed b
    → IsWellFormed (apply_delta s price delta ts_ms b).1
unfolding apply_delta
apply_delta-IsWellFormed s price delta ts_ms b h =
    if_cases (λ (r : Result Violation Bool × Book). IsWellFormed r.1) b.stale (λ e. h)
      (λ e. settle_delta-IsWellFormed s price _ ts_ms b h)
