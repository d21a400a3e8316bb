-- ===== src/Auditor/States.antt =====
-- The states that a window spans, and src/tape/recorder/auditor.py `_same_levels` on them.
use kalshi_trading_project.Prelude.{
  ℕ, zero, suc, ◌≡◌, ◌↔◌, refl, ap, ◌∙◌, ◌==◌, ◌&&◌, Bool, true, false, Option, none, some, List,
  arith, if_cases,
}
use mathlib.Core.Bool.{false≢true}
use kalshi_trading_project.Prelude.Int.{ℤ, pos, negsuc}
use kalshi_trading_project.Prelude.Result.{Result, ok, err, of_ok}
use kalshi_trading_project.Events.{Side, bid, ask, Level}
use kalshi_trading_project.Book.{
  Book, Violation, new_book, apply_delta, store_level, settle_delta, finish_delta, mark_stale,
  touch, is_crossed,
}
use kalshi_trading_project.Book.Invariant.{
  IsWellFormed, new_book-IsWellFormed, apply_snapshot-IsWellFormed, apply_delta-IsWellFormed,
}
use kalshi_trading_project.Book.Snapshots.{SnapshotOutcome, apply_snapshot-SnapshotOutcome}
use kalshi_trading_project.Book.Copies.{AreSameLevels}
use kalshi_trading_project.Book.Views.{level_count}
use kalshi_trading_project.Book.Compare.{is_empty}
use kalshi_trading_project.Book.Compare.Exact.{diff-AreOnce}
use kalshi_trading_project.Book.Compare.Checksum.{level_count-same}
use kalshi_trading_project.Tap.{BookChange, snapshot_taken, delta_taken, BookImage, taken, to_book}
use kalshi_trading_project.Tap.Replay.{replay, changed_book}
use kalshi_trading_project.Auditor.{AuditError, same_levels, emptiness}
use Prim.Native.String.{String}

store_level-ticker : (s : Side) (p n : ℕ) (b : Book) → (store_level s p n b).ticker ≡ b.ticker
unfolding store_level
store_level-ticker bid p zero b = ground arith
store_level-ticker ask p zero b = ground arith
store_level-ticker bid p (suc n) b = ground arith
store_level-ticker ask p (suc n) b = ground arith

touch-ticker : (ts_ms : Option ℕ) (b : Book) → (touch ts_ms b).ticker ≡ b.ticker
touch-ticker none b = refl
touch-ticker (some t) b = refl

finish_delta-ticker : (ts_ms : Option ℕ) (b : Book) → (finish_delta ts_ms b).1.ticker ≡ b.ticker
unfolding finish_delta
finish_delta-ticker ts_ms b =
    if_cases (λ (x : Result Violation Bool × Book). x.1.ticker ≡ b.ticker)
      (is_crossed b.best_bid b.best_ask) (λ e. unfold mark_stale in refl)
      (λ e. touch-ticker ts_ms b)

settle_delta-ticker :
    (s : Side) (p : ℕ) (updated : ℤ) (ts_ms : Option ℕ) (b : Book)
    → (settle_delta s p updated ts_ms b).1.ticker ≡ b.ticker
unfolding settle_delta
settle_delta-ticker s p (negsuc n) ts_ms b = unfold mark_stale in refl
settle_delta-ticker s p (pos n) ts_ms b = finish_delta-ticker ts_ms _ ∙ store_level-ticker s p n b

apply_delta-ticker :
    (s : Side) (p : ℕ) (δ : ℤ) (ts_ms : Option ℕ) (b : Book)
    → (apply_delta s p δ ts_ms b).1.ticker ≡ b.ticker
unfolding apply_delta
apply_delta-ticker s p δ ts_ms b =
    if_cases (λ (x : Result Violation Bool × Book). x.1.ticker ≡ b.ticker) b.stale (λ e. refl)
      (λ e. settle_delta-ticker s p _ ts_ms b)

-- A state of a market: a well-formed book of it.
abbrev pub IsStateOf : String → Book → Type 0
IsStateOf ticker b = IsWellFormed b × (b.ticker ≡ ticker)

changed_book-IsStateOf :
    {A : Type 0} (ticker : String) (x : Result Violation A) (b c : Book)
    → IsStateOf ticker b
    → changed_book (x, b) ≡ ok c
    → IsStateOf ticker c
changed_book-IsStateOf ticker (ok a) b c h e = of_ok (IsStateOf ticker) b c e h
changed_book-IsStateOf ticker (err v) b c h e = ground arith

outcome-ticker :
    (bids asks : List Level) (ts_ms : Option ℕ) (b c : Book) (x : Result Violation (Unit {0}))
    → SnapshotOutcome bids asks ts_ms b x c
    → c.ticker ≡ b.ticker
outcome-ticker bids asks ts_ms b c (ok done) o = o.1
outcome-ticker bids asks ts_ms b c (err v) o = ap (λ (z : Book). z.ticker) o.1

pub replay-IsStateOf :
    (ticker : String) (e : BookChange) (b c : Book)
    → IsStateOf ticker b
    → replay e b ≡ ok c
    → IsStateOf ticker c
unfolding replay
replay-IsStateOf ticker (snapshot_taken s) b c (valid, same) h =
    changed_book-IsStateOf ticker _ _ c
      (
        apply_snapshot-IsWellFormed s.bids s.asks s.ts_ms b valid,
        outcome-ticker s.bids s.asks s.ts_ms b _ _
              (apply_snapshot-SnapshotOutcome s.bids s.asks s.ts_ms b)
            ∙ same,
      )
      h
replay-IsStateOf ticker (delta_taken d) b c (valid, same) h =
    changed_book-IsStateOf ticker _ _ c
      (
        apply_delta-IsWellFormed d.side d.price d.delta d.ts_ms b valid,
        apply_delta-ticker d.side d.price d.delta d.ts_ms b ∙ same,
      )
      h

taken-IsStateOf :
    (ticker : String) (x : Result Violation (Unit {0})) (b c : Book)
    → IsStateOf ticker b
    → taken (x, b) ≡ ok c
    → IsStateOf ticker c
taken-IsStateOf ticker (ok done) b c h e = of_ok (IsStateOf ticker) b c e h
taken-IsStateOf ticker (err v) b c h e = ground arith

pub to_book-IsStateOf :
    (ticker : String) (i : BookImage) (b : Book) → to_book ticker i ≡ ok b → IsStateOf ticker b
unfolding to_book
to_book-IsStateOf ticker i b h =
    taken-IsStateOf ticker _ _ b
      (
        apply_snapshot-IsWellFormed i.bids i.asks none _ (new_book-IsWellFormed ticker),
        outcome-ticker i.bids i.asks none (new_book ticker) _ _
            (apply_snapshot-SnapshotOutcome i.bids i.asks none (new_book ticker)),
      )
      h

-- A number that books with the same levels share.
abbrev pub IsChecksum : (Book → ℕ) → Type 0
IsChecksum sum = (a b : Book) → IsWellFormed a → IsWellFormed b → AreSameLevels a b → sum a ≡ sum b

-- A test of two books that says whether they hold the same levels.
abbrev pub IsDecided : Result AuditError Bool → Book → Book → Type 0
IsDecided r rest local = (x : Bool) × (r ≡ ok x) × ((x ≡ true) ↔ AreSameLevels rest local)

refuted :
    (r : Result AuditError Bool) (rest local : Book)
    → r ≡ ok false
    → (AreSameLevels rest local → false ≡ true)
    → IsDecided r rest local
refuted r rest local e h = (false, e, ((λ e. absurd (false≢true e)), h))

pub same_levels-IsDecided :
    (sum : Book → ℕ) (local rest : Book)
    → IsChecksum sum
    → IsWellFormed local
    → IsWellFormed rest
    → rest.ticker ≡ local.ticker
    → IsDecided (same_levels local rest (sum rest) sum) rest local
unfolding same_levels
same_levels-IsDecided sum local rest check hl hr same =
    let (d, is_d, once, at, empty) = diff-AreOnce rest local hr hl same in
    if_cases (λ r. IsDecided r rest local)
      ((level_count bid local == level_count bid rest)
        && (level_count ask local == level_count ask rest))
      (λ e.
        if_cases (λ r. IsDecided r rest local) (sum local == sum rest)
          (λ e. (is_empty d, ap emptiness is_d, empty))
          (λ e. refuted _ rest local refl (λ k. ground (arith, check rest local hr hl k))))
      (λ e. refuted _ rest local refl (λ k.
        ground (
          arith,
          level_count-same bid rest local hr hl k,
          level_count-same ask rest local hr hl k,
        )))
