-- ===== src/Auditor/Results.antt =====
-- src/tape/recorder/auditor.py: the result of one audit and the counters. Logs and the record written
-- to the tape are left out.
use kalshi_trading_project.Prelude.{
  ℕ, ◌+◌, ◌-◌, Option, none, some, List, [], ◌∷◌, length, if◌then◌else◌,
}
use Prim.Native.Nat.{max}
use kalshi_trading_project.Prelude.Eq.{string_eq}
use kalshi_trading_project.Prelude.Result.{Result, ok, err, ◌>>=◌}
use kalshi_trading_project.Events.{bid, ask, Level}
use kalshi_trading_project.FixedPoint.{FixedPointError}
use kalshi_trading_project.Convert.{OrderbookCountFp, rest_orderbook_levels}
use kalshi_trading_project.Book.{Book, new_book, apply_snapshot}
use kalshi_trading_project.Book.Views.{level_count}
use kalshi_trading_project.Book.Compare.{LevelDiff, BookDiff, diff, checksum}
use kalshi_trading_project.Tap.{BookImage, to_book, taken, TapFault, is_no_book, TapWindow}
use kalshi_trading_project.Auditor.{
  AuditOutcome, exact, consistent, inconsistent, undecidable, WindowVerdict, undecidable_verdict,
  AuditError, broken, wrong_market, bad_reply, or_broken, classify_window,
}
use Prim.Native.String.{String}

pub record Timing : Type 0 where
  pub window_open_mono_ns : ℕ
  pub send_mono_ns : ℕ
  pub send_wall_ns : ℕ
  pub recv_mono_ns : ℕ
  pub recv_wall_ns : ℕ
  pub window_close_mono_ns : ℕ

pub record AuditResult : Type 0 where
  pub ticker : String
  pub outcome : AuditOutcome
  pub timing : Timing
  pub window_events : ℕ
  pub match_index : Option ℕ
  pub levels_rest : ℕ
  pub levels_local : Option ℕ
  pub mismatched_levels : Option ℕ
  pub max_abs_diff_e2 : Option ℕ
  pub fault : Option TapFault

abbrev pub max_abs_diff : List LevelDiff → ℕ
max_abs_diff [] = 0
max_abs_diff (d ∷ ds) = max ((d.count_a - d.count_b) + (d.count_b - d.count_a)) (max_abs_diff ds)

-- The numbers that compare the REST book with the state as of the reply.
pub record Comparison : Type 0 where
  pub levels_local : Option ℕ
  pub mismatched_levels : Option ℕ
  pub max_abs_diff_e2 : Option ℕ

abbrev pub no_comparison : Comparison
no_comparison = record { levels_local = none; mismatched_levels = none; max_abs_diff_e2 = none }

abbrev pub compared : BookImage → Option BookDiff → Result AuditError Comparison
compared image none = err wrong_market
compared image (some d) = ok (record {
  levels_local = some (length image.bids + length image.asks);
  mismatched_levels = some (length d.differences);
  max_abs_diff_e2 = some (max_abs_diff d.differences);
})

abbrev pub compare_state : String → Book → Option BookImage → Result AuditError Comparison
compare_state ticker rest_book none = ok no_comparison
compare_state ticker rest_book (some image) =
    or_broken (to_book ticker image) >>= λ local. compared image (diff rest_book local)

abbrev pub fault_if_undecidable : AuditOutcome → Option TapFault → Option TapFault
fault_if_undecidable undecidable fault = fault
fault_if_undecidable outcome fault = none

-- _result
unfoldable pub result_of : TapWindow → Book → WindowVerdict → Timing → Result AuditError AuditResult
result_of w rest_book verdict timing = compare_state w.ticker rest_book verdict.reply_state >>= λ c.
    ok (record {
      ticker = w.ticker;
      outcome = verdict.outcome;
      timing = timing;
      window_events = length w.events;
      match_index = verdict.match_index;
      levels_rest = level_count bid rest_book + level_count ask rest_book;
      levels_local = c.levels_local;
      mismatched_levels = c.mismatched_levels;
      max_abs_diff_e2 = c.max_abs_diff_e2;
      fault = fault_if_undecidable verdict.outcome w.fault;
    })

pub record Auditor : Type 0 where
  pub sample_size : ℕ
  pub cursor : ℕ
  pub rounds : ℕ
  pub books_exact : ℕ
  pub books_consistent : ℕ
  pub books_inconsistent : ℕ
  pub books_undecidable : ℕ
  pub books_skipped_stale : ℕ
  pub books_missing_local : ℕ
  pub books_invalid_rest : ℕ
  pub levels_mismatched : ℕ

pub record AuditStats : Type 0 where
  pub rounds : ℕ
  pub books_sampled : ℕ
  pub books_exact : ℕ
  pub books_consistent : ℕ
  pub books_inconsistent : ℕ
  pub books_mismatched : ℕ
  pub books_undecidable : ℕ
  pub books_skipped_stale : ℕ
  pub books_missing_local : ℕ
  pub books_invalid_rest : ℕ
  pub levels_mismatched : ℕ

unfoldable pub stats : Auditor → AuditStats
stats a = record {
  rounds = a.rounds;
  books_sampled = a.books_exact + a.books_consistent + a.books_inconsistent;
  books_exact = a.books_exact;
  books_consistent = a.books_consistent;
  books_inconsistent = a.books_inconsistent;
  books_mismatched = a.books_consistent + a.books_inconsistent;
  books_undecidable = a.books_undecidable;
  books_skipped_stale = a.books_skipped_stale;
  books_missing_local = a.books_missing_local;
  books_invalid_rest = a.books_invalid_rest;
  levels_mismatched = a.levels_mismatched;
}

unfoldable pub exact_ratio : AuditStats → ℕ × ℕ
exact_ratio s = (s.books_exact, s.books_sampled)

unfoldable pub consistency_ratio : AuditStats → ℕ × ℕ
consistency_ratio s =
    let passed = s.books_exact + s.books_consistent in (passed, passed + s.books_inconsistent)

abbrev pub add_outcome : AuditOutcome → Option TapFault → Auditor → Auditor
add_outcome exact fault a = record a { books_exact = a.books_exact + 1 }
add_outcome consistent fault a = record a { books_consistent = a.books_consistent + 1 }
add_outcome inconsistent fault a = record a { books_inconsistent = a.books_inconsistent + 1 }
add_outcome undecidable fault a = record a {
  books_undecidable = a.books_undecidable + 1;
  books_missing_local =
      if is_no_book fault then a.books_missing_local + 1 else a.books_missing_local;
}

abbrev pub add_mismatched : Option ℕ → Auditor → Auditor
add_mismatched none a = a
add_mismatched (some n) a = record a { levels_mismatched = a.levels_mismatched + n }

-- _count
unfoldable pub count : AuditResult → TapWindow → Auditor → Auditor
count result w a = add_mismatched result.mismatched_levels (add_outcome result.outcome w.fault a)

pub record MarketOrderbookFp : Type 0 where
  pub ticker : String
  pub orderbook_fp : OrderbookCountFp

abbrev pub rest_book_from : String → Result FixedPointError (List Level × List Level) → Option Book
rest_book_from ticker (err e) = none
rest_book_from ticker (ok (bids, asks)) =
    elim (taken (apply_snapshot bids asks none (new_book ticker))) [ ok b ↦ some b | err v ↦ none ]

-- _rest_book, without its counter
unfoldable pub rest_book_of : MarketOrderbookFp → Option Book
rest_book_of entry = rest_book_from entry.ticker (rest_orderbook_levels entry.orderbook_fp)

-- _classify: a window that does not replay is undecidable.
abbrev pub or_undecidable : Result AuditError WindowVerdict → Result AuditError WindowVerdict
or_undecidable (ok v) = ok v
or_undecidable (err (broken v)) = ok undecidable_verdict
or_undecidable (err wrong_market) = err wrong_market
or_undecidable (err bad_reply) = err bad_reply

abbrev pub audit_book :
    TapWindow → Timing → Auditor → Option Book → Result AuditError (Option AuditResult × Auditor)
audit_book w timing a none = ok (none, record a { books_invalid_rest = a.books_invalid_rest + 1 })
audit_book w timing a (some rest_book) =
    or_undecidable (classify_window w rest_book timing.recv_mono_ns checksum) >>= λ verdict.
    result_of w rest_book verdict timing >>= λ result. ok (some result, count result w a)

-- _audit_entry, without the tape record
unfoldable pub audit_entry :
    MarketOrderbookFp
    → TapWindow
    → Timing
    → Auditor
    → Result AuditError (Option AuditResult × Auditor)
audit_entry entry w timing a = audit_book w timing a (rest_book_of entry)
