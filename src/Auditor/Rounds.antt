-- ===== src/Auditor/Rounds.antt =====
-- src/tape/recorder/auditor.py: a round of audits. What a batch awaits, the REST reply with its times and
-- the windows of the tap, is an argument.
use kalshi_trading_project.Prelude.{
  ℕ, zero, suc, ◌+◌, Bool, true, Option, none, some, List, [], ◌∷◌, ◌++◌, map, length, take, drop,
  if◌then◌else◌,
}
use kalshi_trading_project.Prelude.Eq.{string_eq}
use kalshi_trading_project.Prelude.Result.{Result, ok, err, ◌>>=◌}
use kalshi_trading_project.Prelude.Dict.{Dict, lookup}
use kalshi_trading_project.Book.{Book}
use kalshi_trading_project.Tap.{TapWindow, absent_window}
use kalshi_trading_project.Auditor.{AuditError, bad_reply}
use kalshi_trading_project.Auditor.Rotation.{round_robin_choice}
use Prim.Native.String.{String}
use kalshi_trading_project.Auditor.Results.{
  audit_entry, Timing, AuditResult, Auditor, MarketOrderbookFp,
}

abbrev pub or_absent : String → Option TapWindow → TapWindow
or_absent ticker none = absent_window ticker
or_absent ticker (some w) = w

abbrev pub window_for : String → Dict String TapWindow → TapWindow
window_for ticker windows = or_absent ticker (lookup ticker windows)

abbrev pub with_result : Option AuditResult → List AuditResult → List AuditResult
with_result none rs = rs
with_result (some r) rs = r ∷ rs

unfoldable pub audit_entries :
    Dict String TapWindow
    → Timing
    → List MarketOrderbookFp
    → Auditor
    → Result AuditError (List AuditResult × Auditor)
unfolding audit_entry
audit_entries windows timing [] a = ok ([], a)
audit_entries windows timing (entry ∷ entries) a =
    audit_entry entry (window_for entry.ticker windows) timing a >>= λ first.
    audit_entries windows timing entries first.1 >>= λ rest. ok (with_result first.0 rest.0, rest.1)

-- The orderbooks with the times; or an HTTP or transport error, which is caught; or a reply whose body
-- cannot be decoded, which is not.
pub data Fetched : Type 0 where
  orderbooks : List MarketOrderbookFp → Timing → Fetched
  request_failed malformed_body : Fetched

-- What a batch gets from the exchange and from its tap.
pub record BatchAnswer : Type 0 where
  pub fetched : Fetched
  pub windows : Dict String TapWindow

abbrev pub audit_fetched :
    Dict String TapWindow → Auditor → Fetched → Result AuditError (List AuditResult × Auditor)
audit_fetched windows a request_failed = ok ([], a)
audit_fetched windows a malformed_body = err bad_reply
audit_fetched windows a (orderbooks entries timing) = audit_entries windows timing entries a

unfoldable pub audit_batch : BatchAnswer → Auditor → Result AuditError (List AuditResult × Auditor)
audit_batch answer a = audit_fetched answer.windows a answer.fetched

abbrev pub max_batch_tickers : ℕ
max_batch_tickers = 100

-- The batches of a list, of at most 100 each. The fuel is the length of the list.
unfoldable pub batches_of : ℕ → List String → List (List String)
batches_of fuel [] = []
batches_of zero (t ∷ ts) = []
batches_of (suc fuel) (t ∷ ts) =
    take max_batch_tickers (t ∷ ts) ∷ batches_of fuel (drop max_batch_tickers (t ∷ ts))

abbrev pub is_skipped : Option Book → Bool
is_skipped none = true
is_skipped (some b) = b.stale

-- The chosen tickers to fetch, with the number of those skipped.
unfoldable pub to_fetch : Dict String Book → List String → List String × ℕ
to_fetch books [] = ([], 0)
to_fetch books (t ∷ ts) =
    let rest = to_fetch books ts in
    if is_skipped (lookup t books) then (rest.0, rest.1 + 1) else (t ∷ rest.0, rest.1)

unfoldable pub audit_batches :
    (List String → BatchAnswer)
    → List (List String)
    → Auditor
    → Result AuditError (List AuditResult × Auditor)
unfolding audit_batch
audit_batches answer [] a = ok ([], a)
audit_batches answer (b ∷ bs) a = audit_batch (answer b) a >>= λ first.
    audit_batches answer bs first.1 >>= λ rest. ok (first.0 ++ rest.0, rest.1)

abbrev pub keys_of : Dict String Book → List String
keys_of d = map (λ e. e.0) d

unfoldable pub audit_once :
    (List String → BatchAnswer)
    → Dict String Book
    → Auditor
    → Result AuditError (List AuditResult × Auditor)
unfolding to_fetch audit_batches batches_of
audit_once answer books a =
    let choice = round_robin_choice (keys_of books) a.sample_size a.cursor in
    let wanted = to_fetch books choice.0 in
    audit_batches answer (batches_of (length wanted.0) wanted.0)
      (record a { cursor = choice.1; books_skipped_stale = a.books_skipped_stale + wanted.1 })
    >>= λ done. ok (done.0, record done.1 { rounds = done.1.rounds + 1 })
