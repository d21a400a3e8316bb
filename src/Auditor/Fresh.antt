-- ===== src/Auditor/Fresh.antt =====
-- What src/tape/recorder/auditor.py `classify_window` can raise, on any window.
use kalshi_trading_project.Prelude.{
  ℕ, ◌+◌, ◌≡◌, refl, sym, ◌∙◌, Bool, true, false, Option, none, some, List, [], ◌∷◌, arith,
  if◌then◌else◌, if_cases,
}
use mathlib.Core.Bool.{false≢true}
use kalshi_trading_project.Prelude.Eq.{string_eq}
use kalshi_trading_project.Prelude.Result.{Result, ok, err, ◌>>=◌, of_ok}
use kalshi_trading_project.Events.{Level, BookDelta}
use kalshi_trading_project.Book.{Book, Violation, new_book, apply_snapshot}
use kalshi_trading_project.Book.Snapshots.{SnapshotOutcome, apply_snapshot-SnapshotOutcome}
use kalshi_trading_project.Book.Deltas.{DeltaOutcome, apply_delta-DeltaOutcome}
use kalshi_trading_project.Tap.{
  BookChange, snapshot_taken, delta_taken, BookImage, image_of_book, to_book, taken,
}
use kalshi_trading_project.Tap.Replay.{replay, changed_book}
use kalshi_trading_project.Auditor.{
  AuditError, wrong_market, bad_reply, broken, or_broken, before_reply, after_reply,
}
use kalshi_trading_project.Auditor.States.{IsStateOf, replay-IsStateOf, to_book-IsStateOf}
use Prim.Native.String.{String}

-- A call raises nothing but `BookInvariantError`, and its value has a property.
abbrev pub IsSafe : {A : Type 0} → (A → Type 0) → Result AuditError A → Type 0
IsSafe P (ok a) = P a
IsSafe P (err wrong_market) = ⊥
IsSafe P (err bad_reply) = ⊥
IsSafe P (err (broken v)) = Unit

pub bind-IsSafe :
    {A B : Type 0} (P : A → Type 0) (Q : B → Type 0) (x : Result AuditError A)
    (f : A → Result AuditError B)
    → IsSafe P x
    → ((a : A) → P a → IsSafe Q (f a))
    → IsSafe Q (x >>= f)
bind-IsSafe P Q (ok a) f h k = k a h
bind-IsSafe P Q (err wrong_market) f h k = elim h [ ]
bind-IsSafe P Q (err bad_reply) f h k = elim h [ ]
bind-IsSafe P Q (err (broken v)) f h k = tt

-- A state of a market that is not stale.
abbrev pub IsFreshState : String → Book → Type 0
IsFreshState ticker b = IsStateOf ticker b × (b.stale ≡ false)

delta-fresh :
    (d : BookDelta) (b b' c : Book) (x : Result Violation Bool)
    → b.stale ≡ false
    → DeltaOutcome d.side d.price d.delta d.ts_ms b x b'
    → changed_book (x, b') ≡ ok c
    → c.stale ≡ false
delta-fresh d b b' c (ok true) fresh o h = of_ok (λ (z : Book). z.stale ≡ false) b' c h o.1
delta-fresh d b b' c (ok false) fresh o h = absurd (false≢true (sym fresh ∙ o.0))
delta-fresh d b b' c (err v) fresh o h = ground arith

snapshot-fresh :
    (bids asks : List Level) (ts_ms : Option ℕ) (b b' c : Book) (x : Result Violation (Unit {0}))
    → SnapshotOutcome bids asks ts_ms b x b'
    → changed_book (x, b') ≡ ok c
    → c.stale ≡ false
snapshot-fresh bids asks ts_ms b b' c (ok done) o h =
    of_ok (λ (z : Book). z.stale ≡ false) b' c h o.2
snapshot-fresh bids asks ts_ms b b' c (err v) o h = ground arith

replay-fresh :
    (ticker : String) (e : BookChange) (b c : Book)
    → IsFreshState ticker b
    → replay e b ≡ ok c
    → c.stale ≡ false
unfolding replay
replay-fresh ticker (snapshot_taken s) b c state h =
    snapshot-fresh s.bids s.asks s.ts_ms b _ c _
      (apply_snapshot-SnapshotOutcome s.bids s.asks s.ts_ms b) h
replay-fresh ticker (delta_taken d) b c state h =
    delta-fresh d b _ c _ state.1
      (apply_delta-DeltaOutcome d.side d.price d.delta d.ts_ms b state.0.0) h

or_broken-IsSafe :
    (P : Book → Type 0) (x : Result Violation Book)
    → ((c : Book) → x ≡ ok c → P c)
    → IsSafe P (or_broken x)
or_broken-IsSafe P (ok c) h = h c refl
or_broken-IsSafe P (err v) h = tt

pub replay-IsSafe :
    (ticker : String) (e : BookChange) (b : Book)
    → IsFreshState ticker b
    → IsSafe (IsFreshState ticker) (or_broken (replay e b))
replay-IsSafe ticker e b state =
    or_broken-IsSafe (IsFreshState ticker) (replay e b)
      (λ c h. (replay-IsStateOf ticker e b c state.0 h, replay-fresh ticker e b c state h))

taken-changed : (x : Result Violation (Unit {0}) × Book) → taken x ≡ changed_book x
taken-changed (ok done, b) = refl
taken-changed (err v, b) = refl

pub to_book-IsSafe :
    (ticker : String) (i : BookImage) → IsSafe (IsFreshState ticker) (or_broken (to_book ticker i))
unfolding to_book
to_book-IsSafe ticker i = or_broken-IsSafe (IsFreshState ticker) (to_book ticker i) (λ c h. (
  to_book-IsStateOf ticker i c h,
  snapshot-fresh i.bids i.asks none (new_book ticker) _ c _
      (apply_snapshot-SnapshotOutcome i.bids i.asks none (new_book ticker))
      (sym (taken-changed (apply_snapshot i.bids i.asks none (new_book ticker))) ∙ h),
))

-- The loops, for a test that is safe on every state of the market.
module _ (ticker : String) (same : Book → Result AuditError Bool)
    (safe : (b : Book) → IsFreshState ticker b → IsSafe (λ x. Unit {0}) (same b)) where
  pub before_reply-IsSafe :
      (index : ℕ) (nearest : Option ℕ) (es : List BookChange) (b : Book)
      → IsFreshState ticker b
      → IsSafe (λ x. IsFreshState ticker x.1) (before_reply same index nearest es b)
  unfolding before_reply
  before_reply-IsSafe index nearest [] b state =
      bind-IsSafe (λ x. Unit {0}) (λ x. IsFreshState ticker x.1) (same b) _ (safe b state)
        (λ m u. state)
  before_reply-IsSafe index nearest (e ∷ es) b state =
      bind-IsSafe (λ x. Unit {0}) (λ x. IsFreshState ticker x.1) (same b) _ (safe b state)
        (λ m u.
          bind-IsSafe (IsFreshState ticker) (λ x. IsFreshState ticker x.1) (or_broken (replay e b))
            _ (replay-IsSafe ticker e b state)
            (λ c next.
              before_reply-IsSafe (index + 1) (if m then some index else nearest) es c next))

  pub after_reply-IsSafe :
      (index : ℕ) (es : List BookChange) (b : Book)
      → IsFreshState ticker b
      → IsSafe (λ x. Unit {0}) (after_reply same index es b)
  unfolding after_reply
  after_reply-IsSafe index [] b state = tt
  after_reply-IsSafe index (e ∷ es) b state =
      bind-IsSafe (IsFreshState ticker) (λ x. Unit {0}) (or_broken (replay e b)) _
        (replay-IsSafe ticker e b state)
        (λ c next.
          bind-IsSafe (λ x. Unit {0}) (λ x. Unit {0}) (same c) _ (safe c next)
            (λ m u.
              if_cases (λ (r : Result AuditError (Option ℕ)). IsSafe (λ x. Unit {0}) r) m (λ e. tt)
                (λ e'. after_reply-IsSafe (index + 1) es c next)))

-- The reply state of a verdict is the image of a fresh state, if there is one.
abbrev pub IsImage : String → Option BookImage → Type 0
IsImage ticker none = Unit
IsImage ticker (some image) = (s : Book) × IsFreshState ticker s × (image ≡ image_of_book s)
