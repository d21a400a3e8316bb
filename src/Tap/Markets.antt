-- ===== src/Tap/Markets.antt =====
-- A tap over several markets of src/tape/recorder/tap.py is a recording for each of them.
use kalshi_trading_project.Prelude.{
  ℕ, ◌≡◌, refl, sym, ap, ◌∙◌, leb, Bool, true, false, Option, none, some, List, [], ◌∷◌, arith,
  if◌then◌else◌,
}
use kalshi_trading_project.Prelude.Eq.{string_eq}
use kalshi_trading_project.Prelude.Dict.{Dict, lookup}
use kalshi_trading_project.Prelude.DictLaws.{lookup-put}
use kalshi_trading_project.Planner.{is_member}
use kalshi_trading_project.Tap.{
  BookObject, BookChange, ticker_of, TapWindow, Recording, LiveBookTap, opened_at, open_all,
  new_tap, record_in, record_found, record_change, finish, finish_all, close_tap,
}
use Prim.Native.String.{String}

-- Changes with whether the book was stale before them.
unfoldable pub record_all : List (BookChange × Bool) → LiveBookTap → LiveBookTap
unfolding record_change
record_all [] tap = tap
record_all ((c, was_stale) ∷ cs) tap = record_all cs (record_change c was_stale tap)

-- Those of one market in its recording.
unfoldable pub record_all_in : ℕ → String → List (BookChange × Bool) → Recording → Recording
record_all_in max_events t [] r = r
record_all_in max_events t ((c, was_stale) ∷ cs) r =
    record_all_in max_events t cs
      (if string_eq.beq (ticker_of c) t then record_in max_events c was_stale r else r)

abbrev pub mapped : {A B : Type 0} → (A → B) → Option A → Option B
mapped f none = none
mapped f (some a) = some (f a)

lookup-open_all :
    (books : Dict String BookObject) (ts : List String) (t : String)
    → lookup t (open_all books ts)
      ≡ (if is_member t ts then some (opened_at (lookup t books)) else none)
unfolding lookup
lookup-open_all books [] t = refl
lookup-open_all books (u ∷ ts) t =
    lookup-put u t (opened_at (lookup u books)) (open_all books ts)
    ∙ ap (λ o. if string_eq.beq u t then some (opened_at (lookup u books)) else o)
        (lookup-open_all books ts t)
    ∙ joined (string_eq.beq u t) (is_member t ts)
        (λ e. ap (λ x. lookup x books) ((string_eq.beq_iff u t).0 e))
  where
    joined :
        (x y : Bool)
        → (x ≡ true → lookup u books ≡ lookup t books)
        → (if x
            then some (opened_at (lookup u books))
            else (if y then some (opened_at (lookup t books)) else none))
          ≡ (if (if x then true else y) then some (opened_at (lookup t books)) else none)
    joined true y h = ap (λ o. some (opened_at o)) (h refl)
    joined false y h = refl

lookup-record_found :
    (c : BookChange) (was_stale : Bool) (tap : LiveBookTap) (t : String) (o : Option Recording)
    → lookup (ticker_of c) tap.recordings ≡ o
    → lookup t (record_found c was_stale tap o).recordings
      ≡ mapped
          (λ r. if string_eq.beq (ticker_of c) t then record_in tap.max_events c was_stale r else r)
          (lookup t tap.recordings)
lookup-record_found c was_stale tap t none e = ground (arith, string_eq.beq_iff (ticker_of c) t)
lookup-record_found c was_stale tap t (some r) e =
    lookup-put (ticker_of c) t (record_in tap.max_events c was_stale r) tap.recordings
    ∙ present (string_eq.beq (ticker_of c) t) (lookup t tap.recordings)
        (λ k. sym (ap (λ x. lookup x tap.recordings) ((string_eq.beq_iff (ticker_of c) t).0 k)) ∙ e)
  where
    present :
        (x : Bool) (o : Option Recording)
        → (x ≡ true → o ≡ some r)
        → (if x then some (record_in tap.max_events c was_stale r) else o)
          ≡ mapped (λ r'. if x then record_in tap.max_events c was_stale r' else r') o
    present true o h = sym (ap (mapped (record_in tap.max_events c was_stale)) (h refl))
    present false none h = refl
    present false (some r') h = refl

lookup-record_change :
    (c : BookChange) (was_stale : Bool) (tap : LiveBookTap) (t : String)
    → lookup t (record_change c was_stale tap).recordings
      ≡ mapped
          (λ r. if string_eq.beq (ticker_of c) t then record_in tap.max_events c was_stale r else r)
          (lookup t tap.recordings)
unfolding record_change
lookup-record_change c was_stale tap t =
    lookup-record_found c was_stale tap t (lookup (ticker_of c) tap.recordings) refl

record_change-max_events :
    (c : BookChange) (was_stale : Bool) (tap : LiveBookTap)
    → (record_change c was_stale tap).max_events ≡ tap.max_events
unfolding record_change
record_change-max_events c was_stale tap = go (lookup (ticker_of c) tap.recordings)
  where
    go : (o : Option Recording) → (record_found c was_stale tap o).max_events ≡ tap.max_events
    go none = refl
    go (some r) = refl

record_change-windows :
    (c : BookChange) (was_stale : Bool) (tap : LiveBookTap)
    → (record_change c was_stale tap).windows ≡ tap.windows
unfolding record_change
record_change-windows c was_stale tap = go (lookup (ticker_of c) tap.recordings)
  where
    go : (o : Option Recording) → (record_found c was_stale tap o).windows ≡ tap.windows
    go none = refl
    go (some r) = refl

record_all-windows :
    (cs : List (BookChange × Bool)) (tap : LiveBookTap)
    → tap.windows ≡ none
    → (record_all cs tap).windows ≡ none
unfolding record_all
record_all-windows [] tap h = h
record_all-windows ((c, was_stale) ∷ cs) tap h =
    record_all-windows cs (record_change c was_stale tap)
      (record_change-windows c was_stale tap ∙ h)

mapped-twice :
    {A B C : Type 0} (f : A → B) (g : B → C) (o : Option A)
    → mapped g (mapped f o) ≡ mapped (λ a. g (f a)) o
mapped-twice f g none = refl
mapped-twice f g (some a) = refl

lookup-record_all :
    (cs : List (BookChange × Bool)) (tap : LiveBookTap) (t : String)
    → lookup t (record_all cs tap).recordings
      ≡ mapped (record_all_in tap.max_events t cs) (lookup t tap.recordings)
unfolding record_all record_all_in
lookup-record_all [] tap t = unchanged (lookup t tap.recordings)
  where
    unchanged : (o : Option Recording) → o ≡ mapped (record_all_in tap.max_events t []) o
    unchanged none = refl
    unchanged (some r) = refl
lookup-record_all ((c, was_stale) ∷ cs) tap t =
    lookup-record_all cs (record_change c was_stale tap) t
    ∙ ap (λ n. mapped (record_all_in n t cs) (lookup t (record_change c was_stale tap).recordings))
        (record_change-max_events c was_stale tap)
    ∙ ap (mapped (record_all_in tap.max_events t cs)) (lookup-record_change c was_stale tap t)
    ∙ mapped-twice _ (record_all_in tap.max_events t cs) (lookup t tap.recordings)

lookup-finish_all :
    (books : Dict String BookObject) (d : Dict String Recording) (t : String)
    → lookup t (finish_all books d) ≡ mapped (finish t (lookup t books)) (lookup t d)
unfolding lookup
lookup-finish_all books [] t = refl
lookup-finish_all books ((u, r) ∷ d) t =
    ap (λ o. if string_eq.beq u t then some (finish u (lookup u books) r) else o)
      (lookup-finish_all books d t)
    ∙ joined (string_eq.beq u t) (λ e. (string_eq.beq_iff u t).0 e)
  where
    joined :
        (x : Bool)
        → (x ≡ true → u ≡ t)
        → (if x
            then some (finish u (lookup u books) r)
            else mapped (finish t (lookup t books)) (lookup t d))
          ≡ mapped (finish t (lookup t books)) (if x then some r else lookup t d)
    joined true h = ap (λ v. some (finish v (lookup v books) r)) (h refl)
    joined false h = refl

-- The window of a market that some changes left, if the tap is over it.
abbrev pub window_of :
    ℕ
    → String
    → Dict String BookObject
    → Dict String BookObject
    → List (BookChange × Bool)
    → TapWindow
window_of max_events t before after cs =
    finish t (lookup t after) (record_all_in max_events t cs (opened_at (lookup t before)))

-- A tap with a positive limit opens; and when it closes after some changes, in any order over its markets
-- and others, its windows are those of its markets, each as if a tap over that market alone had
-- seen that market's changes.
pub lookup-close_tap :
    (tickers : List String) (before after : Dict String BookObject) (max_events : ℕ)
    (cs : List (BookChange × Bool)) (t : String)
    → leb max_events 0 ≡ false
    → (tap : LiveBookTap) × (new_tap tickers before max_events ≡ some tap)
      × (lookup t (close_tap after (record_all cs tap)).0
          ≡ (if is_member t tickers then some (window_of max_events t before after cs) else none))
unfolding new_tap
lookup-close_tap tickers before after max_events cs t h =
    let tap : LiveBookTap = record {
      max_events = max_events;
      recordings = open_all before tickers;
      windows = none;
    } in
    (
      tap,
      rw h refl,
      ap (lookup t) (open_windows after (record_all cs tap) (record_all-windows cs tap refl))
          ∙ lookup-finish_all after (record_all cs tap).recordings t
          ∙ ap (mapped (finish t (lookup t after))) (
              lookup-record_all cs tap t
              ∙ ap (mapped (record_all_in max_events t cs)) (lookup-open_all before tickers t))
          ∙ chosen (is_member t tickers),
    )
  where
    open_windows :
        (after : Dict String BookObject) (tap : LiveBookTap)
        → tap.windows ≡ none
        → (close_tap after tap).0 ≡ finish_all after tap.recordings
    open_windows after tap e = rw e refl

    chosen :
        (x : Bool)
        → mapped (finish t (lookup t after)) (
            mapped
              (record_all_in max_events t cs)
              (if x then some (opened_at (lookup t before)) else none))
          ≡ (if x then some (window_of max_events t before after cs) else none)
    chosen true = refl
    chosen false = refl
