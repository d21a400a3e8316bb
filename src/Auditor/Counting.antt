-- ===== src/Auditor/Counting.antt =====
-- A round of src/tape/recorder/auditor.py counts each of its results once.
use kalshi_trading_project.Prelude.{
  ℕ, ◌+◌, ◌≤◌, ◌≡◌, refl, ◌∙◌, Option, none, some, List, [], ◌∷◌, ◌++◌, arith,
}
use kalshi_trading_project.Prelude.Result.{Result, ok, err, ◌>>=◌}
use kalshi_trading_project.Prelude.Dict.{Dict, or_else}
use kalshi_trading_project.Book.{Book}
use kalshi_trading_project.Tap.{TapWindow}
use kalshi_trading_project.Auditor.{
  AuditOutcome, exact, consistent, inconsistent, undecidable, AuditError, WindowVerdict,
}
use kalshi_trading_project.Auditor.Results.{
  Timing, AuditResult, Auditor, count, MarketOrderbookFp, rest_book_of, audit_book, audit_entry,
  result_of,
}
use kalshi_trading_project.Auditor.Rounds.{
  with_result, audit_entries, Fetched, orderbooks, request_failed, malformed_body, BatchAnswer,
  audit_batch, audit_fetched, audit_batches, window_for,
}
use Prim.Native.String.{String}

abbrev pub one_if : AuditOutcome → AuditOutcome → ℕ
one_if exact exact = 1
one_if consistent consistent = 1
one_if inconsistent inconsistent = 1
one_if undecidable undecidable = 1
one_if o p = 0

-- The results with an outcome.
unfoldable pub number_of : AuditOutcome → List AuditResult → ℕ
number_of o [] = 0
number_of o (r ∷ rs) = one_if o r.outcome + number_of o rs

unfoldable pub total_mismatched : List AuditResult → ℕ
total_mismatched [] = 0
total_mismatched (r ∷ rs) = or_else r.mismatched_levels 0 + total_mismatched rs

-- The counters after some results, but for the rounds and the skipped tickers.
pub record IsCounted (rs : List AuditResult) (a a' : Auditor) : Type 0 where
  pub exact_counted : a'.books_exact ≡ a.books_exact + number_of exact rs
  pub consistent_counted : a'.books_consistent ≡ a.books_consistent + number_of consistent rs
  pub inconsistent_counted :
      a'.books_inconsistent ≡ a.books_inconsistent + number_of inconsistent rs
  pub undecidable_counted : a'.books_undecidable ≡ a.books_undecidable + number_of undecidable rs
  pub levels_counted : a'.levels_mismatched ≡ a.levels_mismatched + total_mismatched rs
  pub missing_grows : a.books_missing_local ≤ a'.books_missing_local
  pub missing_bound : a'.books_missing_local ≤ a.books_missing_local + number_of undecidable rs
  pub invalid_grows : a.books_invalid_rest ≤ a'.books_invalid_rest
  pub rounds_kept : a'.rounds ≡ a.rounds
  pub skipped_kept : a'.books_skipped_stale ≡ a.books_skipped_stale
  pub cursor_kept : a'.cursor ≡ a.cursor

number_of-append :
    (o : AuditOutcome) (rs qs : List AuditResult)
    → number_of o (rs ++ qs) ≡ number_of o rs + number_of o qs
unfolding number_of
number_of-append o [] qs = omega arith
number_of-append o (r ∷ rs) qs = omega (arith, number_of-append o rs qs)

total_mismatched-append :
    (rs qs : List AuditResult)
    → total_mismatched (rs ++ qs) ≡ total_mismatched rs + total_mismatched qs
unfolding total_mismatched
total_mismatched-append [] qs = omega arith
total_mismatched-append (r ∷ rs) qs = omega (arith, total_mismatched-append rs qs)

none-IsCounted : (a : Auditor) → IsCounted [] a a
unfolding number_of total_mismatched
none-IsCounted a = record {
  exact_counted = omega arith;
  consistent_counted = omega arith;
  inconsistent_counted = omega arith;
  undecidable_counted = omega arith;
  levels_counted = omega arith;
  missing_grows = omega arith;
  missing_bound = omega arith;
  invalid_grows = omega arith;
  rounds_kept = refl;
  skipped_kept = refl;
  cursor_kept = refl;
}

IsCounted-append :
    (rs qs : List AuditResult) (a b c : Auditor)
    → IsCounted rs a b
    → IsCounted qs b c
    → IsCounted (rs ++ qs) a c
IsCounted-append rs qs a b c h k = record {
  exact_counted = omega (arith, number_of-append exact rs qs, h.exact_counted, k.exact_counted);
  consistent_counted =
      omega (arith, number_of-append consistent rs qs, h.consistent_counted, k.consistent_counted);
  inconsistent_counted =
      omega (
        arith,
        number_of-append inconsistent rs qs,
        h.inconsistent_counted,
        k.inconsistent_counted,
      );
  undecidable_counted =
      omega
        (arith, number_of-append undecidable rs qs, h.undecidable_counted, k.undecidable_counted);
  levels_counted = omega (arith, total_mismatched-append rs qs, h.levels_counted, k.levels_counted);
  missing_grows = omega (arith, h.missing_grows, k.missing_grows);
  missing_bound =
      omega (arith, number_of-append undecidable rs qs, h.missing_bound, k.missing_bound);
  invalid_grows = omega (arith, h.invalid_grows, k.invalid_grows);
  rounds_kept = k.rounds_kept ∙ h.rounds_kept;
  skipped_kept = k.skipped_kept ∙ h.skipped_kept;
  cursor_kept = k.cursor_kept ∙ h.cursor_kept;
}

count-IsCounted :
    (r : AuditResult) (w : TapWindow) (a : Auditor) → IsCounted (r ∷ []) a (count r w a)
unfolding count number_of total_mismatched
count-IsCounted r w a = record {
  exact_counted = ground arith;
  consistent_counted = ground arith;
  inconsistent_counted = ground arith;
  undecidable_counted = ground arith;
  levels_counted = ground arith;
  missing_grows = ground arith;
  missing_bound = ground arith;
  invalid_grows = ground arith;
  rounds_kept = ground arith;
  skipped_kept = ground arith;
  cursor_kept = ground arith;
}

invalid-IsCounted :
    (a : Auditor) → IsCounted [] a (record a { books_invalid_rest = a.books_invalid_rest + 1 })
unfolding number_of total_mismatched
invalid-IsCounted a = record {
  exact_counted = omega arith;
  consistent_counted = omega arith;
  inconsistent_counted = omega arith;
  undecidable_counted = omega arith;
  levels_counted = omega arith;
  missing_grows = omega arith;
  missing_bound = omega arith;
  invalid_grows = omega arith;
  rounds_kept = refl;
  skipped_kept = refl;
  cursor_kept = refl;
}

-- An outcome of counting, if it is one.
abbrev pub IsCountedResult : Auditor → Result AuditError (List AuditResult × Auditor) → Type 0
IsCountedResult a (ok (rs, a')) = IsCounted rs a a'
IsCountedResult a (err e) = Unit

abbrev pub IsCountedOne : Auditor → Result AuditError (Option AuditResult × Auditor) → Type 0
IsCountedOne a (ok (r, a')) = IsCounted (with_result r []) a a'
IsCountedOne a (err e) = Unit

counted_one :
    (w : TapWindow) (a : Auditor) (r : Result AuditError AuditResult)
    → IsCountedOne a (r >>= λ result. ok (some result, count result w a))
counted_one w a (ok r) = count-IsCounted r w a
counted_one w a (err e) = tt

counted_verdict :
    (w : TapWindow) (a : Auditor) (x : Result AuditError WindowVerdict)
    (f : WindowVerdict → Result AuditError AuditResult)
    → IsCountedOne a (x >>= λ v. f v >>= λ result. ok (some result, count result w a))
counted_verdict w a (ok v) f = counted_one w a (f v)
counted_verdict w a (err e) f = tt

audit_book-IsCounted :
    (w : TapWindow) (timing : Timing) (a : Auditor) (o : Option Book)
    → IsCountedOne a (audit_book w timing a o)
audit_book-IsCounted w timing a none = invalid-IsCounted a
audit_book-IsCounted w timing a (some b) = counted_verdict w a _ (λ v. result_of w b v timing)

-- Counting in two steps.
counted_pair :
    (a : Auditor) (first : List AuditResult × Auditor)
    (rest : Result AuditError (List AuditResult × Auditor))
    → IsCounted first.0 a first.1
    → IsCountedResult first.1 rest
    → IsCountedResult a (rest >>= λ r. ok (first.0 ++ r.0, r.1))
counted_pair a first (ok r) h k = IsCounted-append first.0 r.0 a first.1 r.1 h k
counted_pair a first (err e) h k = tt

audit_entries-IsCounted :
    (windows : Dict String TapWindow) (timing : Timing) (entries : List MarketOrderbookFp)
    (a : Auditor)
    → IsCountedResult a (audit_entries windows timing entries a)
unfolding audit_entries audit_entry
audit_entries-IsCounted windows timing [] a = none-IsCounted a
audit_entries-IsCounted windows timing (entry ∷ entries) a =
    go (audit_entries-IsCounted windows timing entries)
      (audit_entry entry (window_for entry.ticker windows) timing a)
      (audit_book-IsCounted (window_for entry.ticker windows) timing a (rest_book_of entry))
  where
    go :
        ((a' : Auditor) → IsCountedResult a' (audit_entries windows timing entries a'))
        → (x : Result AuditError (Option AuditResult × Auditor)) → IsCountedOne a x
        → IsCountedResult a (
            x >>= λ first. audit_entries windows timing entries first.1 >>= λ rest.
            ok (with_result first.0 rest.0, rest.1))
    go rest (err e) h = tt
    go rest (ok (none, a')) h = counted_pair a ([], a') _ h (rest a')
    go rest (ok (some r, a')) h = counted_pair a (r ∷ [], a') _ h (rest a')

pub audit_batches-IsCounted :
    (answer : List String → BatchAnswer) (bs : List (List String)) (a : Auditor)
    → IsCountedResult a (audit_batches answer bs a)
unfolding audit_batches audit_batch
audit_batches-IsCounted answer [] a = none-IsCounted a
audit_batches-IsCounted answer (b ∷ bs) a =
    go (audit_batches-IsCounted answer bs) (audit_batch (answer b) a) (one (answer b).fetched)
  where
    one : (o : Fetched) → IsCountedResult a (audit_fetched (answer b).windows a o)
    one request_failed = none-IsCounted a
    one malformed_body = tt
    one (orderbooks entries timing) = audit_entries-IsCounted (answer b).windows timing entries a

    go :
        ((a' : Auditor) → IsCountedResult a' (audit_batches answer bs a'))
        → (x : Result AuditError (List AuditResult × Auditor)) → IsCountedResult a x
        → IsCountedResult a (
            x >>= λ first.
            audit_batches answer bs first.1 >>= λ rest. ok (first.0 ++ rest.0, rest.1))
    go rest (err e) h = tt
    go rest (ok first) h = counted_pair a first _ h (rest first.1)
