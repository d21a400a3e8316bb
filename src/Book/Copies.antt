-- ===== src/Book/Copies.antt =====
-- One market: the publisher's book and the consumer's copy through the same change.
use kalshi_trading_project.Prelude.{
  ℕ, zero, suc, ◌≡◌, refl, sym, Bool, true, false, Option, none, some, List, arith, ap, ◌∙◌,
  if◌then◌else◌, if_cases,
}
use mathlib.Core.Bool.{false≢true}
use kalshi_trading_project.Prelude.Int.{ℤ, pos, negsuc, ◌+ℤ◌}
use kalshi_trading_project.Prelude.Eq.{nat_eq}
use kalshi_trading_project.Prelude.Dict.{Dict, lookup, or_else}
use kalshi_trading_project.Prelude.DictLaws.{lookup-put, lookup-remove}
use kalshi_trading_project.Prelude.Result.{Result, ok, err}
use kalshi_trading_project.Events.{Side, bid, ask, Level}
use kalshi_trading_project.Book.{
  Book, Violation, levels_of, best_of, apply_snapshot, apply_delta, store_level, finish_delta,
  crossed_after_delta, settle_delta, mark_stale, touch, count_at, is_crossed,
}
use kalshi_trading_project.Book.Best.{IsBest-unique}
use kalshi_trading_project.Book.Sides.{
  stored, levels_of-store_level_self, levels_of-store_level-opposite, store_level-IsSide, IsSide,
}
use kalshi_trading_project.Book.Invariant.{IsWellFormed}
use kalshi_trading_project.Book.Snapshots.{SnapshotOutcome, apply_snapshot-SnapshotOutcome}
use kalshi_trading_project.Book.Deltas.{store_level-stale}
use kalshi_trading_project.Book.Views.{levels}
use kalshi_trading_project.Book.Keyframe.{marked_if}
use kalshi_trading_project.Book.Views.Ladder.{levels-IsLadder}

-- The same count at every price on both sides.
abbrev pub AreSameLevels : Book → Book → Type 0
AreSameLevels p c = (s : Side) (q : ℕ) → lookup q (levels_of s p) ≡ lookup q (levels_of s c)

-- Whenever the publisher's book `p` is fresh so is the copy `c`, at the same levels. So a copy that is
-- reported stale is stale at the publisher.
abbrev pub IsCopy : Book → Book → Type 0
IsCopy p c = p.stale ≡ false → (c.stale ≡ false) × AreSameLevels p c

lookup-stored :
    (p n q : ℕ) (d f : Dict ℕ ℕ)
    → lookup q d ≡ lookup q f
    → lookup q (stored p n d) ≡ lookup q (stored p n f)
lookup-stored p zero q d f e = ground (arith, lookup-remove p q d, lookup-remove p q f)
lookup-stored p (suc n) q d f e = ground (arith, lookup-put p q (suc n) d, lookup-put p q (suc n) f)

store_level-AreSameLevels :
    (s : Side) (p n : ℕ) (b c : Book)
    → AreSameLevels b c
    → AreSameLevels (store_level s p n b) (store_level s p n c)
store_level-AreSameLevels bid p n b c h bid q =
    ap (lookup q) (levels_of-store_level_self bid p n b)
    ∙ lookup-stored p n q b.bids c.bids (h bid q)
    ∙ sym (ap (lookup q) (levels_of-store_level_self bid p n c))
store_level-AreSameLevels ask p n b c h ask q =
    ap (lookup q) (levels_of-store_level_self ask p n b)
    ∙ lookup-stored p n q b.asks c.asks (h ask q)
    ∙ sym (ap (lookup q) (levels_of-store_level_self ask p n c))
store_level-AreSameLevels bid p n b c h ask q =
    ap (lookup q) (levels_of-store_level-opposite bid p n b)
    ∙ h ask q
    ∙ sym (ap (lookup q) (levels_of-store_level-opposite bid p n c))
store_level-AreSameLevels ask p n b c h bid q =
    ap (lookup q) (levels_of-store_level-opposite ask p n b)
    ∙ h bid q
    ∙ sym (ap (lookup q) (levels_of-store_level-opposite ask p n c))

abbrev AreSides : Book → Type 0
AreSides b = (s : Side) → IsSide s (best_of s b) (levels_of s b)

-- What the copy's outcome is when the publisher's is `r`.
abbrev pub Follows : Result Violation Bool × Book → Result Violation Bool × Book → Type 0
Follows (ok true, p) (x, c) = (x ≡ ok true) × (c.stale ≡ false) × AreSameLevels p c
Follows (ok false, p) (x, c) = Unit
Follows (err v, p) (x, c) = Unit

finish_delta-Follows :
    (ts_ms : Option ℕ) (b c : Book)
    → AreSides b
    → AreSides c
    → c.stale ≡ false
    → AreSameLevels b c
    → Follows (finish_delta ts_ms b) (finish_delta ts_ms c)
unfolding finish_delta
finish_delta-Follows ts_ms b c hb hc fresh same =
    go (is_crossed b.best_bid b.best_ask) ts_ms (is_crossed c.best_bid c.best_ask) (
      rw
        (
          IsBest-unique bid b.best_bid c.best_bid b.bids c.bids (hb bid).2 (hc bid).2 (same bid),
          IsBest-unique ask b.best_ask c.best_ask b.asks c.asks (hb ask).2 (hc ask).2 (same ask),
        )
        refl)
  where
    touched : (t : Option ℕ) → AreSameLevels (touch t b) (touch t c)
    touched none s q = same s q
    touched (some t) bid q = same bid q
    touched (some t) ask q = same ask q

    touched_fresh : (t : Option ℕ) → (touch t c).stale ≡ false
    touched_fresh none = fresh
    touched_fresh (some t) = fresh

    go :
        (x : Bool) (t : Option ℕ) (y : Bool)
        → x ≡ y
        → Follows
            (if x then (err crossed_after_delta, mark_stale b) else (ok true, touch t b))
            (if y then (err crossed_after_delta, mark_stale c) else (ok true, touch t c))
    go true t y e = tt
    go false t true e = cc
    go false t false e = (refl, touched_fresh t, touched t)

settle_delta-Follows :
    (s : Side) (p : ℕ) (updated : ℤ) (ts_ms : Option ℕ) (b c : Book)
    → AreSides b
    → AreSides c
    → c.stale ≡ false
    → AreSameLevels b c
    → Follows (settle_delta s p updated ts_ms b) (settle_delta s p updated ts_ms c)
unfolding settle_delta
settle_delta-Follows s p (negsuc n) ts_ms b c hb hc fresh same = tt
settle_delta-Follows s p (pos n) ts_ms b c hb hc fresh same =
    finish_delta-Follows ts_ms (store_level s p n b) (store_level s p n c)
      (λ t. store_level-IsSide s t p n b hb) (λ t. store_level-IsSide s t p n c hc)
      (store_level-stale s p n c ∙ fresh) (store_level-AreSameLevels s p n b c same)

-- A delta that the publisher's book takes is taken by the copy, with the same levels after it.
pub apply_delta-Follows :
    (s : Side) (p : ℕ) (δ : ℤ) (ts_ms : Option ℕ) (b c : Book)
    → IsWellFormed b
    → IsWellFormed c
    → IsCopy b c
    → Follows (apply_delta s p δ ts_ms b) (apply_delta s p δ ts_ms c)
unfolding apply_delta
apply_delta-Follows s p δ ts_ms b c hb hc copy =
    if_cases (λ (x : Result Violation Bool × Book). Follows x (apply_delta s p δ ts_ms c)) b.stale
      (λ e. tt) (λ e. fresh_delta (copy e).0 (copy e).1)
  where
    updated : Book → ℤ
    updated x = pos (count_at p (levels_of s x)) +ℤ δ

    same_update : AreSameLevels b c → updated b ≡ updated c
    same_update same = ap (λ (o : Option ℕ). pos (or_else o 0) +ℤ δ) (same s p)

    fresh_delta :
        c.stale ≡ false
        → AreSameLevels b c
        → Follows (settle_delta s p (updated b) ts_ms b) (apply_delta s p δ ts_ms c)
    fresh_delta fresh same =
        if_cases
          (λ (x : Result Violation Bool × Book). Follows (settle_delta s p (updated b) ts_ms b) x)
          c.stale (λ e. absurd (false≢true (sym fresh ∙ e)))
          (λ e.
            rw (same_update same)
              (settle_delta-Follows s p (updated c) ts_ms b c hb.sides hc.sides fresh same))

-- The copy of a snapshot that the publisher's book took: it is taken whatever the copy was.
abbrev pub FollowsSnapshot :
    Result Violation (Unit {0}) × Book → Result Violation (Unit {0}) × Book → Type 0
FollowsSnapshot (ok u, p) (x, c) = (x ≡ ok tt) × IsCopy p c
FollowsSnapshot (err v, p) (x, c) = p.stale ≡ true

snapshot-Follows :
    (ls ms : List Level) (t : Option ℕ) (b c b' c' : Book) (x y : Result Violation (Unit {0}))
    → SnapshotOutcome ls ms t b x b'
    → SnapshotOutcome ls ms t c y c'
    → FollowsSnapshot (x, b') (y, c')
snapshot-Follows ls ms t b c b' c' (err v) y h k = ap (λ (z : Book). z.stale) h.1
snapshot-Follows ls ms t b c b' c' (ok u) (err w) h k = absurd (k.0 h.0)
snapshot-Follows ls ms t b c b' c' (ok u) (ok w) h k = (refl, λ e. (k.2, same))
  where
    same : AreSameLevels b' c'
    same bid q = h.4 q ∙ sym (k.4 q)
    same ask q = h.5 q ∙ sym (k.5 q)

pub apply_snapshot-Follows :
    (ls ms : List Level) (t : Option ℕ) (b c : Book)
    → FollowsSnapshot (apply_snapshot ls ms t b) (apply_snapshot ls ms t c)
apply_snapshot-Follows ls ms t b c =
    snapshot-Follows ls ms t b c _ _ _ _ (apply_snapshot-SnapshotOutcome ls ms t b)
      (apply_snapshot-SnapshotOutcome ls ms t c)

-- The copy made from an image of a book, if the image is accepted.
abbrev pub IsImageCopy : Book → Result Violation (Unit {0}) × Book → Type 0
IsImageCopy p (ok u, c) = IsCopy p (marked_if p.stale c)
IsImageCopy p (err v, c) = Unit

image-IsImageCopy :
    (p c c' : Book) (x : Result Violation (Unit {0}))
    → IsWellFormed p
    → SnapshotOutcome (levels bid p) (levels ask p) p.last_ts_ms c x c'
    → IsImageCopy p (x, c')
image-IsImageCopy p c c' (err v) h k = tt
image-IsImageCopy p c c' (ok u) h k = λ e. marked p.stale e
  where
    same : AreSameLevels p c'
    same bid q = sym (k.4 q ∙ (levels-IsLadder bid p h).1 q)
    same ask q = sym (k.5 q ∙ (levels-IsLadder ask p h).1 q)

    marked :
        (s : Bool) → s ≡ false → ((marked_if s c').stale ≡ false) × AreSameLevels p (marked_if s c')
    marked true e = cc
    marked false e = (k.2, same)

-- A copy made from the image of a book is a copy of it.
pub apply_image-IsImageCopy :
    (p c : Book)
    → IsWellFormed p
    → IsImageCopy p (apply_snapshot (levels bid p) (levels ask p) p.last_ts_ms c)
apply_image-IsImageCopy p c h =
    image-IsImageCopy p c _ _ h (apply_snapshot-SnapshotOutcome (levels bid p) (levels ask p) _ c)
