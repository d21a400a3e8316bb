-- ===== src/Auditor/Returns.antt =====
-- When a call of src/tape/recorder/auditor.py `audit_once` returns, and when it raises.
use kalshi_trading_project.Prelude.{
  ℕ, ◌+◌, ◌-◌, ◌≡◌, refl, sym, ap, ◌∙◌, Bool, true, Option, none, some, List, [], ◌∷◌, length, take,
  false, ◌||◌, ◌++◌, drop, arith, if_cases,
}
use mathlib.Core.Path.{subst⁻¹}
use kalshi_trading_project.Prelude.Eq.{string_eq}
use kalshi_trading_project.Prelude.Result.{Result, ok, err, ◌>>=◌, of_ok}
use kalshi_trading_project.Prelude.Dict.{Dict, lookup}
use kalshi_trading_project.FixedPoint.{FixedPointError}
use kalshi_trading_project.Events.{Level}
use kalshi_trading_project.Convert.{rest_orderbook_levels}
use kalshi_trading_project.Book.{Book, Violation, new_book, apply_snapshot}
use kalshi_trading_project.Book.Compare.{diff, checksum}
use kalshi_trading_project.Book.Compare.Exact.{diff-AreOnce}
use kalshi_trading_project.Book.Compare.Checksum.{checksum-same}
use kalshi_trading_project.Tap.{
  BookChange, BookImage, image_of_book, to_book, taken, TapFault, TapWindow,
}
use kalshi_trading_project.Tap.Replay.{to_book-image_of_book}
use kalshi_trading_project.Auditor.{
  AuditError, wrong_market, bad_reply, broken, WindowVerdict, undecidable_verdict, or_broken,
  before_reply, after_reply, received_by, same_levels, last_index, is_index, verdict_of,
  after_first, classify_started, classify_from, classify_window,
}
use kalshi_trading_project.Auditor.States.{
  IsStateOf, to_book-IsStateOf, IsChecksum, IsDecided, same_levels-IsDecided,
}
use kalshi_trading_project.Auditor.Fresh.{
  IsSafe, bind-IsSafe, IsFreshState, to_book-IsSafe, before_reply-IsSafe, after_reply-IsSafe,
  IsImage,
}
use kalshi_trading_project.Auditor.Results.{
  Timing, Auditor, compared, compare_state, result_of, MarketOrderbookFp, rest_book_from,
  rest_book_of, or_undecidable, audit_book, audit_entry,
}
use kalshi_trading_project.Auditor.Rounds.{
  or_absent, window_for, audit_entries, Fetched, orderbooks, request_failed, malformed_body,
  BatchAnswer, audit_fetched, audit_batch, batches_of, to_fetch, keys_of, audit_batches, audit_once,
}
use kalshi_trading_project.Auditor.Rotation.{round_robin_choice}
use Prim.Native.String.{String}

pub checksum-IsChecksum : IsChecksum checksum
checksum-IsChecksum a b ha hb same = checksum-same a b ha hb same

IsDecided-IsSafe :
    (r : Result AuditError Bool) (rest b : Book) → IsDecided r rest b → IsSafe (λ x. Unit {0}) r
IsDecided-IsSafe r rest b (x, is_x, said) = subst⁻¹ (IsSafe (λ x. Unit {0})) is_x tt

abbrev IsJudgement : String → WindowVerdict → Type 0
IsJudgement ticker v = IsImage ticker v.reply_state

verdict_of-image :
    (ticker : String) (near later : Option ℕ) (b : Book)
    → IsFreshState ticker b
    → IsJudgement ticker (verdict_of near later (image_of_book b))
verdict_of-image ticker near (some m) b h = (b, h, refl)
verdict_of-image ticker (some m) none b h = (b, h, refl)
verdict_of-image ticker none none b h = (b, h, refl)

module _ (rest : Book) (ticker : String) (is_rest : IsStateOf ticker rest) where
  test : Book → Result AuditError Bool
  test b = same_levels b rest (checksum rest) checksum

  test-IsSafe : (b : Book) → IsFreshState ticker b → IsSafe (λ x. Unit {0}) (test b)
  unfolding test
  test-IsSafe b h = IsDecided-IsSafe _ rest b (
      same_levels-IsDecided checksum b rest checksum-IsChecksum h.0.0 is_rest.0
        (is_rest.1 ∙ sym h.0.1))

  after_first-IsSafe :
      (r : ℕ) (es : List BookChange) (near : Option ℕ) (b : Book)
      → IsFreshState ticker b
      → IsSafe (IsJudgement ticker) (after_first test r es (near, b))
  after_first-IsSafe r es near b h =
      if_cases (λ (x : Result AuditError WindowVerdict). IsSafe (IsJudgement ticker) x)
        (is_index near r) (λ e. (b, h, refl))
        (λ e.
          bind-IsSafe (λ x. Unit {0}) (IsJudgement ticker)
            (after_reply test r (take (last_index (length es) r near - r) (drop r es)) b) _
            (after_reply-IsSafe ticker test test-IsSafe r _ b h)
            (λ later u. verdict_of-image ticker near later b h))

  classify_started-IsSafe :
      (r : ℕ) (es : List BookChange) (b : Book)
      → IsFreshState ticker b
      → IsSafe (IsJudgement ticker) (classify_started test r es b)
  classify_started-IsSafe r es b h =
      bind-IsSafe (λ x. IsFreshState ticker x.1) (IsJudgement ticker)
        (before_reply test 0 none (take r es) b) _
        (before_reply-IsSafe ticker test test-IsSafe 0 none (take r es) b h)
        (λ x k. after_first-IsSafe r es x.0 x.1 k)

classify_from-IsSafe :
    (w : TapWindow) (rest : Book) (t : ℕ) (fault : Option TapFault) (start : Option BookImage)
    → IsStateOf w.ticker rest
    → IsSafe (IsJudgement w.ticker) (classify_from w rest t checksum fault start)
unfolding test
classify_from-IsSafe w rest t (some fault) start h = tt
classify_from-IsSafe w rest t none none h = tt
classify_from-IsSafe w rest t none (some image) h =
    bind-IsSafe (IsFreshState w.ticker) (IsJudgement w.ticker) (or_broken (to_book w.ticker image))
      _ (to_book-IsSafe w.ticker image)
      (λ b k. classify_started-IsSafe rest w.ticker h (received_by t w.events) w.events b k)

pub classify_window-IsSafe :
    (w : TapWindow) (rest : Book) (t : ℕ)
    → IsStateOf w.ticker rest
    → IsSafe (IsJudgement w.ticker) (classify_window w rest t checksum)
unfolding classify_window
classify_window-IsSafe w rest t h =
    rw (same_ticker) (classify_from-IsSafe w rest t w.fault w.start h)
  where
    same_ticker : string_eq.beq rest.ticker w.ticker ≡ true
    same_ticker = ground (arith, string_eq.beq_iff rest.ticker w.ticker, h.1)

-- A call that returns.
abbrev pub IsReturned : {A : Type 0} → Result AuditError A → Type 0
IsReturned {A} x = (a : A) × (x ≡ ok a)

pub bind-IsReturned :
    {A B : Type 0} (x : Result AuditError A) (f : A → Result AuditError B)
    → IsReturned x
    → ((a : A) → x ≡ ok a → IsReturned (f a))
    → IsReturned (x >>= f)
bind-IsReturned (ok a) f h k = k a refl
bind-IsReturned (err e) f h k = ground (arith, h.1)

or_undecidable-IsJudgement :
    (ticker : String) (x : Result AuditError WindowVerdict)
    → IsSafe (IsJudgement ticker) x
    → (v : WindowVerdict) × (or_undecidable x ≡ ok v) × IsJudgement ticker v
or_undecidable-IsJudgement ticker (ok v) h = (v, refl, h)
or_undecidable-IsJudgement ticker (err wrong_market) h = absurd h
or_undecidable-IsJudgement ticker (err bad_reply) h = absurd h
or_undecidable-IsJudgement ticker (err (broken v)) h = (undecidable_verdict, refl, tt)

-- The reply state of a verdict can be compared with a REST book of its market.
compare_state-IsReturned :
    (ticker : String) (rest : Book) (o : Option BookImage)
    → IsStateOf ticker rest
    → IsImage ticker o
    → IsReturned (compare_state ticker rest o)
compare_state-IsReturned ticker rest none h i = (_, refl)
compare_state-IsReturned ticker rest (some image) h (s, state, same) =
    let (b, built, follows) = to_book-image_of_book ticker s state.0.0 state.1 in
    let is_b = to_book-IsStateOf ticker (image_of_book s) b built in
    let (d, is_d, _, _, _) = diff-AreOnce rest b h.0 is_b.0 (h.1 ∙ sym is_b.1) in
    (
      _,
      ap (λ i. or_broken (to_book ticker i) >>= λ local. compared image (diff rest local)) same
          ∙ ap (λ x. or_broken x >>= λ local. compared image (diff rest local)) built
          ∙ ap (compared image) is_d,
    )

result_of-IsReturned :
    (w : TapWindow) (rest : Book) (v : WindowVerdict) (timing : Timing)
    → IsStateOf w.ticker rest
    → IsJudgement w.ticker v
    → IsReturned (result_of w rest v timing)
unfolding result_of
result_of-IsReturned w rest v timing h i =
    bind-IsReturned (compare_state w.ticker rest v.reply_state) _
      (compare_state-IsReturned w.ticker rest v.reply_state h i) (λ c e. (_, refl))

-- A REST book that was accepted is a state of its market.
abbrev IsAccepted : String → Option Book → Type 0
IsAccepted ticker none = Unit
IsAccepted ticker (some b) = IsStateOf ticker b

audit_book-IsReturned :
    (w : TapWindow) (timing : Timing) (a : Auditor) (o : Option Book)
    → IsAccepted w.ticker o
    → IsReturned (audit_book w timing a o)
audit_book-IsReturned w timing a none h = (_, refl)
audit_book-IsReturned w timing a (some rest) h =
    let (v, is_v, judged) =
      or_undecidable-IsJudgement w.ticker _ (classify_window-IsSafe w rest timing.recv_mono_ns h) in
    bind-IsReturned (or_undecidable (classify_window w rest timing.recv_mono_ns checksum)) _
      (v, is_v)
      (λ v' e.
        bind-IsReturned (result_of w rest v' timing) _
          (result_of-IsReturned w rest v' timing h
            (of_ok (IsJudgement w.ticker) v v' (sym is_v ∙ e) judged))
          (λ r e'. (_, refl)))

rest_book_from-IsAccepted :
    (ticker : String) (x : Result FixedPointError (List Level × List Level))
    → IsAccepted ticker (rest_book_from ticker x)
rest_book_from-IsAccepted ticker (err e) = tt
rest_book_from-IsAccepted ticker (ok (bids, asks)) =
    go (taken (apply_snapshot bids asks none (new_book ticker))) (λ b h.
      to_book-IsStateOf ticker (record { bids = bids; asks = asks }) b (unfold to_book in h))
  where
    go :
        (x : Result Violation Book)
        → ((b : Book) → x ≡ ok b → IsStateOf ticker b)
        → IsAccepted ticker (elim x [ ok b ↦ some b | err v ↦ none ])
    go (ok b) h = h b refl
    go (err v) h = tt

-- Windows under the tickers that they are of.
abbrev pub AreKeyed : Dict String TapWindow → Type 0
AreKeyed windows = (t : String) (w : TapWindow) → lookup t windows ≡ some w → w.ticker ≡ t

window_for-ticker :
    (t : String) (windows : Dict String TapWindow)
    → AreKeyed windows
    → (window_for t windows).ticker ≡ t
window_for-ticker t windows h = go (lookup t windows) refl
  where
    go : (o : Option TapWindow) → lookup t windows ≡ o → (or_absent t o).ticker ≡ t
    go none e = refl
    go (some w) e = h t w e

audit_entries-IsReturned :
    (windows : Dict String TapWindow) (timing : Timing) (entries : List MarketOrderbookFp)
    (a : Auditor)
    → AreKeyed windows
    → IsReturned (audit_entries windows timing entries a)
unfolding audit_entries audit_entry rest_book_of
audit_entries-IsReturned windows timing [] a h = (_, refl)
audit_entries-IsReturned windows timing (entry ∷ entries) a h =
    let w = window_for entry.ticker windows in
    bind-IsReturned (audit_entry entry w timing a) _
      (audit_book-IsReturned w timing a (rest_book_of entry) (
        subst⁻¹ (λ t. IsAccepted t (rest_book_of entry)) (window_for-ticker entry.ticker windows h)
          (rest_book_from-IsAccepted entry.ticker (rest_orderbook_levels entry.orderbook_fp))))
      (λ first e.
        bind-IsReturned (audit_entries windows timing entries first.1) _
          (audit_entries-IsReturned windows timing entries first.1 h) (λ rest e'. (_, refl)))

-- A batch whose reply cannot be decoded.
abbrev pub is_malformed : Fetched → Bool
is_malformed malformed_body = true
is_malformed f = false

abbrev pub some_malformed : (List String → BatchAnswer) → List (List String) → Bool
some_malformed answer [] = false
some_malformed answer (b ∷ bs) = is_malformed (answer b).fetched || some_malformed answer bs

-- A call raises `WireError` or returns.
abbrev pub RaisesOrReturns : {A : Type 0} → Bool → Result AuditError A → Type 0
RaisesOrReturns true x = x ≡ err bad_reply
RaisesOrReturns false x = IsReturned x

bind-RaisesOrReturns :
    {A B : Type 0} (c : Bool) (x : Result AuditError A) (f : A → B)
    → RaisesOrReturns c x
    → RaisesOrReturns c (x >>= λ a. ok (f a))
bind-RaisesOrReturns true x f h = rw h refl
bind-RaisesOrReturns false x f (a, h) = (f a, rw h refl)

audit_fetched-RaisesOrReturns :
    (windows : Dict String TapWindow) (a : Auditor) (o : Fetched)
    → AreKeyed windows
    → RaisesOrReturns (is_malformed o) (audit_fetched windows a o)
audit_fetched-RaisesOrReturns windows a request_failed h = (_, refl)
audit_fetched-RaisesOrReturns windows a malformed_body h = refl
audit_fetched-RaisesOrReturns windows a (orderbooks entries timing) h =
    audit_entries-IsReturned windows timing entries a h

after_batch-RaisesOrReturns :
    {A B C : Type 0} (c e : Bool) (x : Result AuditError A) (f : A → Result AuditError B)
    (g : A → B → C)
    → RaisesOrReturns c x
    → ((a : A) → RaisesOrReturns e (f a))
    → RaisesOrReturns (c || e) (x >>= λ a. f a >>= λ b. ok (g a b))
after_batch-RaisesOrReturns true e x f g h k = rw h refl
after_batch-RaisesOrReturns false e x f g (a, h) k = rw h (bind-RaisesOrReturns e (f a) (g a) (k a))

audit_batches-RaisesOrReturns :
    (answer : List String → BatchAnswer) (bs : List (List String)) (a : Auditor)
    → ((batch : List String) → AreKeyed (answer batch).windows)
    → RaisesOrReturns (some_malformed answer bs) (audit_batches answer bs a)
unfolding audit_batches audit_batch
audit_batches-RaisesOrReturns answer [] a h = (_, refl)
audit_batches-RaisesOrReturns answer (b ∷ bs) a h =
    after_batch-RaisesOrReturns (is_malformed (answer b).fetched) (some_malformed answer bs)
      (audit_batch (answer b) a) (λ first. audit_batches answer bs first.1)
      (λ first rest. (first.0 ++ rest.0, rest.1))
      (audit_fetched-RaisesOrReturns (answer b).windows a (answer b).fetched (h b))
      (λ first. audit_batches-RaisesOrReturns answer bs first.1 h)

pub audit_once-RaisesOrReturns :
    (answer : List String → BatchAnswer) (books : Dict String Book) (a : Auditor)
    → ((batch : List String) → AreKeyed (answer batch).windows)
    → (let wanted =
          (to_fetch books (round_robin_choice (keys_of books) a.sample_size a.cursor).0).0 in
        RaisesOrReturns
          (some_malformed answer (batches_of (length wanted) wanted))
          (audit_once answer books a))
unfolding audit_once
audit_once-RaisesOrReturns answer books a h =
    let choice = round_robin_choice (keys_of books) a.sample_size a.cursor in
    let wanted = to_fetch books choice.0 in
    let batches = batches_of (length wanted.0) wanted.0 in
    let started : Auditor = record a {
      cursor = choice.1;
      books_skipped_stale = a.books_skipped_stale + wanted.1;
    } in
    bind-RaisesOrReturns (some_malformed answer batches) (audit_batches answer batches started)
      (λ done. (done.0, record done.1 { rounds = done.1.rounds + 1 }))
      (audit_batches-RaisesOrReturns answer batches started h)
