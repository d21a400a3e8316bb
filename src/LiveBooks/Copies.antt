-- ===== src/LiveBooks/Copies.antt =====
-- One move of the publisher, and the consumer that sees its message: the copies stay copies.
use kalshi_trading_project.Prelude.{
  ◌≡◌, refl, sym, Bool, true, false, Option, none, some, ap, if◌then◌else◌, if_cases,
}
use kalshi_trading_project.Prelude.Eq.{string_eq}
use kalshi_trading_project.Prelude.Dict.{Dict, lookup}
use kalshi_trading_project.Prelude.Result.{Result, ok, err}
use text.Mathlib.TextEquality.{eq_iff}
use Prim.Native.String.{String}
use kalshi_trading_project.Events.{bid, ask, Receipt, BookSnapshot, BookDelta}
use kalshi_trading_project.Book.{Book, Violation, apply_snapshot, apply_delta, new_book}
use kalshi_trading_project.Book.Invariant.{IsWellFormed}
use kalshi_trading_project.Book.Views.{levels}
use kalshi_trading_project.Book.Copies.{
  IsCopy, Follows, apply_delta-Follows, FollowsSnapshot, apply_snapshot-Follows, IsImageCopy,
  apply_image-IsImageCopy,
}
use kalshi_trading_project.LiveBooks.{as_applied, snapshot_change, delta_change}
use kalshi_trading_project.LiveBooks.Effects.{kept, changed_copy, image_copy}

-- The consumer holds no copy, or the publisher no book, or the copy is one of the book.
abbrev pub Mirrors : Option Book → Option Book → Type 0
Mirrors none c = Unit
Mirrors (some p) none = Unit
Mirrors (some p) (some c) = IsCopy p c

abbrev pub AreCopies : Dict String Book → Dict String Book → Type 0
AreCopies d f = (t : String) → Mirrors (lookup t d) (lookup t f)

abbrev pub IsWell : Option Book → Type 0
IsWell none = Unit
IsWell (some b) = IsWellFormed b

abbrev pub AreWell : Dict String Book → Type 0
AreWell d = (t : String) → IsWell (lookup t d)

-- `d'` is `d` with the entry of `u` replaced by `o`.
abbrev pub IsUpdate : String → Option Book → Dict String Book → Dict String Book → Type 0
IsUpdate u o d d' = (t : String) → lookup t d' ≡ (if string_eq.beq u t then o else lookup t d)

pub IsUpdate-self : (u : String) (d : Dict String Book) → IsUpdate u (lookup u d) d d
IsUpdate-self u d t = go (string_eq.beq u t) refl
  where
    go :
        (same : Bool)
        → string_eq.beq u t ≡ same
        → lookup t d ≡ (if same then lookup u d else lookup t d)
    go true e = ap (λ (k : String). lookup k d) (sym ((eq_iff u t).0 e))
    go false e = refl

pub AreCopies-update :
    (u : String) (o o' : Option Book) (d d' f f' : Dict String Book)
    → IsUpdate u o d d'
    → IsUpdate u o' f f'
    → Mirrors o o'
    → AreCopies d f
    → AreCopies d' f'
AreCopies-update u o o' d d' f f' hd hf h all t = rw (hd t, hf t) (go (string_eq.beq u t))
  where
    go : (same : Bool) → Mirrors (if same then o else lookup t d) (if same then o' else lookup t f)
    go true = h
    go false = all t

pub AreWell-update :
    (u : String) (o : Option Book) (d d' : Dict String Book)
    → IsUpdate u o d d'
    → IsWell o
    → AreWell d
    → AreWell d'
AreWell-update u o d d' hd h all t =
    rw (hd t) (if_cases IsWell (string_eq.beq u t) (λ _. h) (λ _. all t))

-- What the consumer keeps of a snapshot, and of a delta, that the publisher's book took.
pub snapshot_copy :
    (s : BookSnapshot) (p p' : Book) (u : Unit {0}) (o : Option Book)
    → apply_snapshot s.bids s.asks s.ts_ms p ≡ (ok u, p')
    → Mirrors (some p') (changed_copy (snapshot_change s) o)
snapshot_copy s p p' u none e = tt
snapshot_copy s p p' u (some c) e =
    go (apply_snapshot s.bids s.asks s.ts_ms c)
      (rw e at (apply_snapshot-Follows s.bids s.asks s.ts_ms p c))
  where
    go :
        (r : Result Violation (Unit {0}) × Book)
        → FollowsSnapshot (ok u, p') r
        → Mirrors (some p') (kept (as_applied r))
    go (ok w, c') h = h.1
    go (err v, c') h = tt

pub delta_copy :
    (d : BookDelta) (p p' : Book) (o : Option Book)
    → IsWellFormed p
    → IsWell o
    → Mirrors (some p) o
    → apply_delta d.side d.price d.delta d.ts_ms p ≡ (ok true, p')
    → Mirrors (some p') (changed_copy (delta_change d) o)
delta_copy d p p' none hp hc m e = tt
delta_copy d p p' (some c) hp hc m e =
    go (apply_delta d.side d.price d.delta d.ts_ms c)
      (rw e at (apply_delta-Follows d.side d.price d.delta d.ts_ms p c hp hc m))
  where
    go : (r : Result Violation Bool × Book) → Follows (ok true, p') r → Mirrors (some p') (kept r)
    go (ok w, c') h = λ _. (h.1, h.2)
    go (err v, c') h = tt

-- What the consumer makes of an image.
pub image_mirror :
    (t : String) (rc : Receipt) (p : Book)
    → IsWellFormed p
    → Mirrors (some p) (
        image_copy
          (record {
            ticker = t;
            ts_ms = p.last_ts_ms;
            receipt = rc;
            stale = p.stale;
            bids = levels bid p;
            asks = levels ask p;
          })
          (apply_snapshot (levels bid p) (levels ask p) p.last_ts_ms (new_book t)))
image_mirror t rc p h = go _ (apply_image-IsImageCopy p (new_book t) h)
  where
    go :
        (r : Result Violation (Unit {0}) × Book)
        → IsImageCopy p r
        → Mirrors (some p) (
            image_copy
              (record {
                ticker = t;
                ts_ms = p.last_ts_ms;
                receipt = rc;
                stale = p.stale;
                bids = levels bid p;
                asks = levels ask p;
              })
              r)
    go (ok u, c) k = k
    go (err v, c) k = tt
