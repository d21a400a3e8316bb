-- ===== src/Auditor/Classify.antt =====
-- src/tape/recorder/auditor.py `classify_window` on a window whose events replay.
use kalshi_trading_project.Prelude.{
  ℕ, ◌+◌, ◌-◌, ◌≤◌, ◌<◌, ◌≡◌, ◌↔◌, refl, sym, ap, ◌∙◌, Bool, true, false, Option, none, some, List,
  [], ◌∷◌, ◌++◌, map, length, take, drop, take-append-drop, length-take, length-drop, take-append,
  drop-append, map-append, length-map, arith, All,
}
use mathlib.Core.Path.{subst, subst⁻¹}
use mathlib.Core.Bool.{false≢true}
use kalshi_trading_project.Prelude.Eq.{string_eq}
use kalshi_trading_project.Prelude.Result.{Result, ok, ok_or, ◌>>=◌}
use kalshi_trading_project.Book.{Book}
use kalshi_trading_project.Book.Invariant.{IsWellFormed}
use kalshi_trading_project.Book.Copies.{AreSameLevels}
use Prim.Native.String.{String}
use kalshi_trading_project.Tap.{BookChange, BookImage, image_of_book, to_book, TapWindow}
use kalshi_trading_project.Tap.Replay.{replay_all}
use kalshi_trading_project.Auditor.{
  AuditError, exact, WindowVerdict, before_reply, after_reply, received_by, same_levels,
  after_first, classify_started, classify_window, last_index, is_index, verdict_of,
}
use kalshi_trading_project.Auditor.Nearest.{flag, last_true, first_true}
use kalshi_trading_project.Auditor.Search.{
  later_of, searches-IsNearest, first_search-exact, first_search-other,
}
use kalshi_trading_project.Auditor.Loops.{
  replay_all-All, replay_all-append, replay_all-length, state_at, state_at-last, IsTested,
  before_reply-last_true, after_reply-first_true,
}
use kalshi_trading_project.Auditor.States.{
  IsStateOf, replay-IsStateOf, to_book-IsStateOf, IsChecksum, same_levels-IsDecided,
}
use kalshi_trading_project.Auditor.Verdict.{IsMatch, flag-IsMatch, verdict_of-IsJudged, IsVerdictOn}

-- The replay of the events before the reply, and of the next `k` of them.
record IsSplit (es : List BookChange) (r k : ℕ) (b : Book) (ss : List Book) : Type 0 where
  c : Book
  d : Book
  ls : List Book
  ks : List Book
  ms : List Book
  first : replay_all (take r es) b ≡ ok (c, ls)
  second : replay_all (take k (drop r es)) c ≡ ok (d, ks)
  all : ss ≡ ls ++ (ks ++ ms)
  length_first : length ls ≡ r
  length_second : length ks ≡ k

replay_all-IsSplit :
    (es : List BookChange) (r k : ℕ) (b d : Book) (ss : List Book)
    → replay_all es b ≡ ok (d, ss)
    → r ≤ length es
    → k ≤ length es - r
    → IsSplit es r k b ss
replay_all-IsSplit es r k b d ss h p q =
    let (c, ls, more, first, second, all) =
      replay_all-append (take r es) (drop r es) b d ss
        (subst⁻¹ (λ xs. replay_all xs b ≡ ok (d, ss)) (take-append-drop r es) h) in
    let (c', ks, ms, third, rest, all') =
      replay_all-append (take k (drop r es)) (drop k (drop r es)) c d more
        (subst⁻¹ (λ xs. replay_all xs c ≡ ok (d, more)) (take-append-drop k (drop r es)) second) in
    record {
      c = c;
      d = c';
      ls = ls;
      ks = ks;
      ms = ms;
      first = first;
      second = third;
      all = all ∙ ap (λ xs. ls ++ xs) all';
      length_first = replay_all-length (take r es) b c ls first ∙ length-take r es p;
      length_second =
          replay_all-length (take k (drop r es)) c c' ks third
          ∙ length-take k (drop r es) (omega (arith, length-drop r es, q));
    }

take-states :
    (f : Book → Bool) (n : ℕ) (b : Book) (ls ms : List Book)
    → length ls ≡ n
    → take (n + 1) (map f (b ∷ ls ++ ms)) ≡ map f (b ∷ ls)
take-states f n b ls ms h =
    ap (take (n + 1)) (map-append f (b ∷ ls) ms)
    ∙ take-append (n + 1) (map f (b ∷ ls)) (map f ms) (omega (arith, length-map f (b ∷ ls), h))

drop-states :
    (f : Book → Bool) (n k : ℕ) (b : Book) (ls ks ms : List Book)
    → length ls ≡ n
    → length ks ≡ k
    → take k (drop (n + 1) (map f (b ∷ ls ++ (ks ++ ms)))) ≡ map f ks
drop-states f n k b ls ks ms h i =
    ap (λ xs. take k (drop (n + 1) xs)) (map-append f (b ∷ ls) (ks ++ ms))
    ∙ ap (take k) (
        drop-append (n + 1) (map f (b ∷ ls)) (map f (ks ++ ms))
          (omega (arith, length-map f (b ∷ ls), h)))
    ∙ ap (take k) (map-append f ks ms)
    ∙ take-append k (map f ks) (map f ms) (length-map f ks ∙ i)

All-left : (P : Book → Type 0) (ls ms : List Book) → All P (ls ++ ms) → All P ls
All-left P [] ms h = tt
All-left P (l ∷ ls) ms h = (h.0, All-left P ls ms h.1)

All-right : (P : Book → Type 0) (ls ms : List Book) → All P (ls ++ ms) → All P ms
All-right P [] ms h = h
All-right P (l ∷ ls) ms h = All-right P ls ms h.1

last_index-bound : (r n : ℕ) (near : Option ℕ) → last_index n r near - r ≤ n - r
last_index-bound r n none = ground arith
last_index-bound r n (some m) = ground arith

-- The searches of `classify_window` on the states of a replay.
module _ (same : Book → Result AuditError Bool) (f : Book → Bool) (es : List BookChange) (r : ℕ)
    (b d : Book) (ss : List Book) (replayed : replay_all es b ≡ ok (d, ss)) (inside : r ≤ length es)
    (tested : All (IsTested same f) (b ∷ ss)) where
  abbrev near_of : Option ℕ
  near_of = last_true 0 none (take (r + 1) (map f (b ∷ ss)))

  splits : IsSplit es r (last_index (length es) r near_of - r) b ss
  splits = replay_all-IsSplit es r _ b d ss replayed inside (last_index-bound r (length es) near_of)

  near_at : before_reply same 0 none (take r es) b ≡ ok (near_of, splits.c)
  near_at =
      before_reply-last_true same f (take r es) 0 none b splits.c splits.ls splits.first (
        All-left (IsTested same f) (b ∷ splits.ls) (splits.ks ++ splits.ms)
          (subst (λ xs. All (IsTested same f) (b ∷ xs)) splits.all tested))
      ∙ ap (λ fs. ok (last_true 0 none fs, splits.c))
          (sym (
            ap (λ xs. take (r + 1) (map f (b ∷ xs))) splits.all
            ∙ take-states f r b splits.ls (splits.ks ++ splits.ms) splits.length_first))

  later_at :
      after_reply same r (take (last_index (length es) r near_of - r) (drop r es)) splits.c
      ≡ ok (later_of r (map f (b ∷ ss)) near_of)
  unfolding later_of
  later_at =
      after_reply-first_true same f _ r splits.c splits.d splits.ks splits.second (
        All-left (IsTested same f) splits.ks splits.ms (
          All-right (IsTested same f) (b ∷ splits.ls) (splits.ks ++ splits.ms)
            (subst (λ xs. All (IsTested same f) (b ∷ xs)) splits.all tested)))
      ∙ ap (λ fs. ok (first_true (r + 1) fs)) (sym flags)
    where
      total : length (map f (b ∷ ss)) - 1 ≡ length es
      total = omega (arith, length-map f (b ∷ ss), replay_all-length es b d ss replayed)

      flags :
          take
            (last_index (length (map f (b ∷ ss)) - 1) r near_of - r)
            (drop (r + 1) (map f (b ∷ ss)))
          ≡ map f splits.ks
      flags =
          ap (λ n. take (last_index n r near_of - r) (drop (r + 1) (map f (b ∷ ss)))) total
          ∙ ap (λ xs. take (last_index (length es) r near_of - r) (drop (r + 1) (map f (b ∷ xs))))
              splits.all
          ∙ drop-states f r _ b splits.ls splits.ks splits.ms splits.length_first
              splits.length_second

  state_at-reply : state_at (b ∷ ss) r ≡ some splits.c
  state_at-reply =
      ap (λ xs. state_at (b ∷ xs) r) splits.all
      ∙ ap (state_at (b ∷ splits.ls ++ (splits.ks ++ splits.ms))) (sym (length-take r es inside))
      ∙ state_at-last (take r es) b splits.c splits.ls (splits.ks ++ splits.ms) splits.first

  module _ (rest : Book)
      (matches : (j : ℕ) → (flag (map f (b ∷ ss)) j ≡ true) ↔ IsMatch (b ∷ ss) rest j) where
    place : r < length (map f (b ∷ ss))
    place = omega (arith, length-map f (b ∷ ss), replay_all-length es b d ss replayed, inside)

    ended :
        (x : Bool)
        → is_index near_of r ≡ x
        → IsVerdictOn (b ∷ ss) rest r (after_first same r es (near_of, splits.c))
    ended true e =
        let (at, matched) = first_search-exact r (map f (b ∷ ss)) e in
        let v : WindowVerdict = record {
          outcome = exact;
          match_index = near_of;
          reply_state = some (image_of_book splits.c);
        } in
        (v, splits.c, rw e refl, (at, (matches r).0 matched), state_at-reply, refl)
    ended false e = (
      verdict_of near_of (later_of r (map f (b ∷ ss)) near_of) (image_of_book splits.c),
      splits.c,
      rw (e, later_at) refl,
      verdict_of-IsJudged f (b ∷ ss) rest r matches _ _ _
          (λ k. false≢true (sym (first_search-other r (map f (b ∷ ss)) e) ∙ k))
          (searches-IsNearest r (map f (b ∷ ss)) place e),
      state_at-reply,
      image_kept near_of (later_of r (map f (b ∷ ss)) near_of),
    )
      where
        image_kept :
            (near later : Option ℕ)
            → (verdict_of near later (image_of_book splits.c)).reply_state
              ≡ some (image_of_book splits.c)
        image_kept near (some m) = refl
        image_kept (some m) none = refl
        image_kept none none = refl

    pub classify_started-IsVerdictOn : IsVerdictOn (b ∷ ss) rest r (classify_started same r es b)
    classify_started-IsVerdictOn =
        subst⁻¹ (λ x. IsVerdictOn (b ∷ ss) rest r (x >>= after_first same r es)) near_at
          (ended (is_index near_of r) refl)

pub received_by-bound : (t : ℕ) (es : List BookChange) → received_by t es ≤ length es
unfolding received_by
received_by-bound t [] = omega arith
received_by-bound t (e ∷ es) = ground (arith, received_by-bound t es)

-- The test of a state and what it says.
same_levels-IsTested :
    (sum : Book → ℕ) (rest : Book) (ticker : String) (states : List Book)
    → IsChecksum sum
    → IsWellFormed rest
    → rest.ticker ≡ ticker
    → All (IsStateOf ticker) states
    → All
        (IsTested
          (λ b. same_levels b rest (sum rest) sum)
          (λ b. ok_or false (same_levels b rest (sum rest) sum)))
        states
      × All
          (λ b. (ok_or false (same_levels b rest (sum rest) sum) ≡ true) ↔ AreSameLevels rest b)
          states
same_levels-IsTested sum rest ticker [] check valid same h = (tt, tt)
same_levels-IsTested sum rest ticker (s ∷ ss) check valid same h =
    let (x, is_x, decides) =
      same_levels-IsDecided sum s rest check h.0.0 valid (same ∙ sym h.0.1) in
    let (tested, said) = same_levels-IsTested sum rest ticker ss check valid same h.1 in
    (
      (is_x ∙ ap ok (sym (ap (ok_or false) is_x)), tested),
      (subst⁻¹ (λ y. (y ≡ true) ↔ AreSameLevels rest s) (ap (ok_or false) is_x) decides, said),
    )

-- A window without a fault whose start builds a well-formed book of its market and whose events replay
-- from it, a well-formed REST book of the same market, and a checksum that books with the same levels
-- share: `classify_window` returns a verdict. Its reply state is the image of the state at the place
-- of the reply. It is exact, at that place, if that state holds the levels of the REST book;
-- else consistent if some state does, at the place nearest the reply, the earlier on a tie; and
-- inconsistent if none does; it is never undecidable.
pub classify_window-IsVerdictOn :
    (sum : Book → ℕ) (w : TapWindow) (rest : Book) (t : ℕ) (image : BookImage) (b d : Book)
    (ss : List Book)
    → IsChecksum sum
    → w.fault ≡ none
    → w.start ≡ some image
    → to_book w.ticker image ≡ ok b
    → replay_all w.events b ≡ ok (d, ss)
    → IsStateOf w.ticker rest
    → IsVerdictOn (b ∷ ss) rest (received_by t w.events) (classify_window w rest t sum)
unfolding classify_window
classify_window-IsVerdictOn sum w rest t image b d ss check fault start built replayed is_rest =
    let state = to_book-IsStateOf w.ticker image b built in
    let states =
      replay_all-All (IsStateOf w.ticker) (replay-IsStateOf w.ticker) w.events b d ss state
        replayed in
    let (tested, said) =
      same_levels-IsTested sum rest w.ticker (b ∷ ss) check is_rest.0 is_rest.1 states in
    rw (same_ticker, fault, start, built)
      (classify_started-IsVerdictOn _ _ w.events (received_by t w.events) b d ss replayed
        (received_by-bound t w.events) tested rest (flag-IsMatch _ (b ∷ ss) rest said))
  where
    same_ticker : string_eq.beq rest.ticker w.ticker ≡ true
    same_ticker = ground (arith, string_eq.beq_iff rest.ticker w.ticker, is_rest.1)
