-- ===== src/Auditor/Ledger.antt =====
-- The counters of src/tape/recorder/auditor.py after a round.
use kalshi_trading_project.Prelude.{
  ◌-◌, Bool, true, false, none, some, if◌then◌else◌, ℕ, ◌+◌, ◌≤◌, ◌≡◌, List, [], ◌∷◌, length,
}
use kalshi_trading_project.Prelude.Result.{Result, ok, err}
use kalshi_trading_project.Prelude.Eq.{string_eq}
use kalshi_trading_project.Prelude.Dict.{Dict, lookup}
use kalshi_trading_project.Book.{Book}
use kalshi_trading_project.Auditor.{AuditError, bad_reply, exact, consistent, inconsistent}
use kalshi_trading_project.Auditor.Results.{
  AuditResult, Auditor, AuditStats, stats, consistency_ratio,
}
use kalshi_trading_project.Auditor.Rounds.{BatchAnswer, batches_of}
use kalshi_trading_project.Auditor.Counting.{number_of, total_mismatched}
use kalshi_trading_project.Auditor.Returns.{some_malformed}
use Prim.Native.String.{String}

-- The published counters before and after a round that returned `rs` and skipped `skipped` tickers.
pub record IsRound (rs : List AuditResult) (skipped : ℕ) (before after : AuditStats) : Type 0 where
  pub round_counted : after.rounds ≡ before.rounds + 1
  pub skipped_counted : after.books_skipped_stale ≡ before.books_skipped_stale + skipped
  pub exact_counted : after.books_exact ≡ before.books_exact + number_of exact rs
  pub consistent_counted :
      after.books_consistent ≡ before.books_consistent + number_of consistent rs
  pub inconsistent_counted :
      after.books_inconsistent ≡ before.books_inconsistent + number_of inconsistent rs
  pub all_counted :
      after.books_sampled + after.books_undecidable
      ≡ before.books_sampled + before.books_undecidable + length rs
  pub levels_counted : after.levels_mismatched ≡ before.levels_mismatched + total_mismatched rs
  pub missing_grows : before.books_missing_local ≤ after.books_missing_local
  pub missing_bound :
      after.books_missing_local + before.books_undecidable
      ≤ before.books_missing_local + after.books_undecidable
  pub invalid_grows : before.books_invalid_rest ≤ after.books_invalid_rest
  pub ratio : (consistency_ratio after).1 ≡ after.books_sampled

-- The chosen tickers whose books are held and not stale.
unfoldable pub fresh_of : Dict String Book → List String → List String
fresh_of books [] = []
fresh_of books (t ∷ ts) =
    let rest = fresh_of books ts in
    elim (lookup t books) [ none ↦ rest | some b ↦ if b.stale then rest else t ∷ rest ]

-- A round that raises `WireError`, or one that returns and counts.
abbrev pub Outcome : Bool → ℕ → Auditor → Result AuditError (List AuditResult × Auditor) → Type 0
Outcome true skipped a x = x ≡ err bad_reply
Outcome false skipped a x =
    (rs : List AuditResult) × (a' : Auditor) × (x ≡ ok (rs, a'))
    × IsRound rs skipped (stats a) (stats a')

-- The batches are those of the chosen tickers that are fresh.
abbrev pub RoundOutcome :
    (List String → BatchAnswer)
    → Dict String Book
    → Auditor
    → List String
    → Result AuditError (List AuditResult × Auditor)
    → Type 0
RoundOutcome answer books a chosen x =
    let fresh = fresh_of books chosen in
    Outcome (some_malformed answer (batches_of (length fresh) fresh)) (length chosen - length fresh)
      a x
