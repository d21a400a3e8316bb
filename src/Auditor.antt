-- ===== src/Auditor.antt =====
-- src/tape/recorder/auditor.py: the verdict on one market's window, and the counters of the auditor.
pub mod Nearest
pub mod Search
pub mod Loops
pub mod States
pub mod Verdict
pub mod Classify
pub mod Alarms
pub mod Rotation
pub mod Fairness
pub mod Results
pub mod Rounds
pub mod Counting
pub mod Ledger
pub mod Fresh
pub mod Returns
pub mod Batches
mod Tests
use kalshi_trading_project.Prelude.{
  ℕ, ◌+◌, ◌-◌, ◌*◌, ◌==◌, ltb, leb, ◌&&◌, Bool, true, false, Option, none, some, List, [], ◌∷◌,
  length, take, drop, if◌then◌else◌,
}
use Prim.Native.Nat.{min}
use kalshi_trading_project.Prelude.Eq.{string_eq}
use kalshi_trading_project.Prelude.Result.{Result, ok, err, ◌>>=◌}
use kalshi_trading_project.Events.{bid, ask}
use kalshi_trading_project.Book.{Book, Violation}
use kalshi_trading_project.Book.Views.{level_count}
use kalshi_trading_project.Book.Compare.{BookDiff, diff, is_empty}
use kalshi_trading_project.Tap.{
  BookChange, snapshot_taken, delta_taken, BookImage, image_of_book, to_book, TapFault, TapWindow,
}
use kalshi_trading_project.Tap.Replay.{replay}
use Prim.Native.String.{String}

pub data AuditOutcome : Type 0 where
  exact consistent inconsistent undecidable : AuditOutcome

pub record WindowVerdict : Type 0 where
  pub outcome : AuditOutcome
  pub match_index : Option ℕ
  pub reply_state : Option BookImage

abbrev pub undecidable_verdict : WindowVerdict
undecidable_verdict = record { outcome = undecidable; match_index = none; reply_state = none }

-- `ValueError`, `BookInvariantError`, and the `WireError` of a reply with a malformed body.
pub data AuditError : Type 0 where
  wrong_market bad_reply : AuditError
  broken : Violation → AuditError

abbrev pub or_broken : Result Violation Book → Result AuditError Book
or_broken (ok b) = ok b
or_broken (err v) = err (broken v)

abbrev pub recv_mono_ns_of : BookChange → ℕ
recv_mono_ns_of (snapshot_taken s) = s.receipt.recv_mono_ns
recv_mono_ns_of (delta_taken d) = d.receipt.recv_mono_ns

unfoldable pub received_by : ℕ → List BookChange → ℕ
received_by reply_mono_ns [] = 0
received_by reply_mono_ns (e ∷ es) =
    let rest = received_by reply_mono_ns es in
    if ltb reply_mono_ns (recv_mono_ns_of e) then 0 else rest + 1

abbrev pub emptiness : Option BookDiff → Result AuditError Bool
emptiness none = err wrong_market
emptiness (some d) = ok (is_empty d)

unfoldable pub same_levels : Book → Book → ℕ → (Book → ℕ) → Result AuditError Bool
same_levels local rest rest_checksum checksum =
    if (level_count bid local == level_count bid rest)
      && (level_count ask local == level_count ask rest)
    then if checksum local == rest_checksum then emptiness (diff rest local) else ok false
    else ok false

-- The two loops of `classify_window`, with the test of a state as `same`. The first goes on from the
-- state before `events`, at `index`, and returns the last match with the state after the events.
unfoldable pub before_reply :
    (Book → Result AuditError Bool)
    → ℕ
    → Option ℕ
    → List BookChange
    → Book
    → Result AuditError (Option ℕ × Book)
before_reply same index nearest [] book =
    same book >>= λ matches. ok (if matches then some index else nearest, book)
before_reply same index nearest (e ∷ events) book = same book >>= λ matches.
    or_broken (replay e book) >>= λ next.
    before_reply same (index + 1) (if matches then some index else nearest) events next

-- The first match after one of the events.
unfoldable pub after_reply :
    (Book → Result AuditError Bool) → ℕ → List BookChange → Book → Result AuditError (Option ℕ)
after_reply same index [] book = ok none
after_reply same index (e ∷ events) book = or_broken (replay e book) >>= λ next.
    same next >>= λ matches.
    let rest = after_reply same (index + 1) events next in
    if matches then ok (some (index + 1)) else rest

abbrev pub last_index : ℕ → ℕ → Option ℕ → ℕ
last_index total reply_index none = total
last_index total reply_index (some nearest) = min total (2 * reply_index - nearest - 1)

abbrev pub is_index : Option ℕ → ℕ → Bool
is_index none n = false
is_index (some m) n = m == n

abbrev pub verdict_of : Option ℕ → Option ℕ → BookImage → WindowVerdict
verdict_of nearest (some later) image = record {
  outcome = consistent;
  match_index = some later;
  reply_state = some image;
}
verdict_of none none image = record {
  outcome = inconsistent;
  match_index = none;
  reply_state = some image;
}
verdict_of (some nearest) none image = record {
  outcome = consistent;
  match_index = some nearest;
  reply_state = some image;
}

-- What follows the first loop, which ended at `book` with `nearest`.
abbrev pub after_first :
    (Book → Result AuditError Bool)
    → ℕ
    → List BookChange
    → Option ℕ × Book
    → Result AuditError WindowVerdict
after_first same reply_index events (nearest, book) =
    if is_index nearest reply_index
    then ok
        (record { outcome = exact; match_index = nearest; reply_state = some (image_of_book book) })
    else after_reply same reply_index
        (take (last_index (length events) reply_index nearest - reply_index)
          (drop reply_index events))
        book
      >>= λ later. ok (verdict_of nearest later (image_of_book book))

abbrev pub classify_started :
    (Book → Result AuditError Bool) → ℕ → List BookChange → Book → Result AuditError WindowVerdict
classify_started same reply_index events book =
    before_reply same 0 none (take reply_index events) book >>= after_first same reply_index events

abbrev pub classify_from :
    TapWindow
    → Book
    → ℕ
    → (Book → ℕ)
    → Option TapFault
    → Option BookImage
    → Result AuditError WindowVerdict
classify_from w rest_book reply_mono_ns checksum (some fault) start = ok undecidable_verdict
classify_from w rest_book reply_mono_ns checksum none none = ok undecidable_verdict
classify_from w rest_book reply_mono_ns checksum none (some start) =
    or_broken (to_book w.ticker start)
    >>= classify_started (λ b. same_levels b rest_book (checksum rest_book) checksum)
        (received_by reply_mono_ns w.events) w.events

unfoldable pub classify_window : TapWindow → Book → ℕ → (Book → ℕ) → Result AuditError WindowVerdict
classify_window w rest_book reply_mono_ns checksum =
    if string_eq.beq rest_book.ticker w.ticker
    then classify_from w rest_book reply_mono_ns checksum w.fault w.start
    else err wrong_market
