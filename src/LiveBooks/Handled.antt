-- ===== src/LiveBooks/Handled.antt =====
-- Each move of a connection, with the same move of one dictionary of all books.
use kalshi_trading_project.Prelude.{
  ℕ, ◌==◌, ◌+◌, ◌-◌, ◌<◌, ◌≡◌, refl, sym, ◌∙◌, ◌⊎◌, inl, inr, Bool, true, false, Option, none, some,
  List, [], ◌∷◌, arith, if◌then◌else◌, if_cases, ◌&&◌, not, Bool-cases,
}
use mathlib.Core.Path.{subst}
use kalshi_trading_project.Prelude.Eq.{string_eq}
use text.Mathlib.TextEquality.{eq_iff}
use kalshi_trading_project.Prelude.Dict.{Dict, lookup, put, remove}
use kalshi_trading_project.Prelude.DictLaws.{lookup-put, lookup-remove}
use kalshi_trading_project.Prelude.Result.{Result, ok, err}
use Prim.Native.String.{String}
use kalshi_trading_project.Events.{BusEvent, BookSnapshot, BookDelta}
use kalshi_trading_project.Book.{Book, Violation, mark_stale, apply_delta}
use kalshi_trading_project.LiveBooks.{LiveBooks, BusEnvelope}
use kalshi_trading_project.LiveBooks.Publisher.{
  Publisher, Move, move, after_snapshot, after_delta, delta_to_held, mark_held, drop_market,
  refresh_image, restart, publish,
}
use kalshi_trading_project.LiveBooks.Mirror.{deliver, step, IsInStep, step-IsInStep}
use kalshi_trading_project.LiveBooks.Recorder.{
  Recorder, supervisor_of, set_books, handled, better, held_from, on_bus, refreshed,
}
use kalshi_trading_project.LiveBooks.Whole.{
  IsPartOf, IsWhole, all_books, IsRelayed, less-IsWhole, IsOnly, update-IsWhole, same_id,
}

-- The market as one dictionary has it, when one connection changes it.
module _ (r : Recorder) (lb : LiveBooks) (c : ℕ) (u : String) where
  abbrev pub Prepared : Type 0
  Prepared =
      (d : Dict String Book) × IsWhole r.books d
      × IsInStep (all_books d r) lb
      × (lookup u (r.books c) ≡ lookup u d)

  pub prepared : IsRelayed r lb → IsOnly r.books c u → Prepared
  unfolding step move
  prepared (d, h, k) only = go (h.part c u)
    where
      go : IsPartOf (lookup u (r.books c)) (lookup u d) → Prepared
      go (inr e) = (d, h, k, e)
      go (inl e) = (
        remove u d,
        record { part = part; alone = h.alone },
        step-IsInStep (record { publisher = all_books d r; consumer = lb }) (drop_market u, true) k,
        e ∙ sym (lookup-remove u u d ∙ same_key),
      )
        where
          same_key : (if string_eq.beq u u then none else lookup u d) ≡ none
          same_key = rw ((eq_iff u u).1 refl) refl

          nowhere : (i : ℕ) → (c ≡ i) ⊎ (lookup u (r.books i) ≡ none) → lookup u (r.books i) ≡ none
          nowhere i (inl x) = subst (λ v. lookup u (r.books v) ≡ none) x e
          nowhere i (inr x) = x

          part : (i : ℕ) (t : String) → IsPartOf (lookup t (r.books i)) (lookup t (remove u d))
          part i t = rw (lookup-remove u t d) (here (string_eq.beq u t) refl (h.part i t))
            where
              here :
                  (b : Bool)
                  → string_eq.beq u t ≡ b
                  → IsPartOf (lookup t (r.books i)) (lookup t d)
                  → IsPartOf (lookup t (r.books i)) (if b then none else lookup t d)
              here true same k = inl (
                  subst (λ v. lookup v (r.books i) ≡ none) ((eq_iff u t).0 same)
                    (nowhere i (only i)))
              here false same k = k

-- A connection's market is on no other, if it holds the market at all.
held-IsOnly :
    (books : ℕ → Dict String Book) (d : Dict String Book) (c : ℕ) (u : String) (b : Book)
    → IsWhole books d
    → lookup u (books c) ≡ some b
    → IsOnly books c u
held-IsOnly books d c u b h e i = go (h.alone u c i)
  where
    go :
        (c ≡ i) ⊎ ((lookup u (books c) ≡ none) ⊎ (lookup u (books i) ≡ none))
        → (c ≡ i) ⊎ (lookup u (books i) ≡ none)
    go (inl k) = inl k
    go (inr (inl k)) = absurd (ground (arith, k, e))
    go (inr (inr k)) = inr k

-- The entry of the merged books is a book of a connection.
abbrev pub IsHeld : (ℕ → Dict String Book) → String → Option (ℕ × Book) → Type 0
IsHeld books u none = Unit
IsHeld books u (some (c, b)) = lookup u (books c) ≡ some b

better-IsHeld :
    (books : ℕ → Dict String Book) (u : String) (held : Option (ℕ × Book)) (c : ℕ) (o : Option Book)
    → IsHeld books u held
    → lookup u (books c) ≡ o
    → IsHeld books u (better held c o)
better-IsHeld books u held c none h e = h
better-IsHeld books u none c (some b) h e = e
better-IsHeld books u (some (i, x)) c (some b) h e =
    if_cases (IsHeld books u) (x.stale && not b.stale) (λ yes. e) (λ no. h)

pub held_from-IsHeld :
    (books : ℕ → Dict String Book) (u : String) (held : Option (ℕ × Book)) (cs : List ℕ)
    → IsHeld books u held
    → IsHeld books u (held_from u books held cs)
unfolding held_from
held_from-IsHeld books u held [] h = h
held_from-IsHeld books u held (c ∷ cs) h =
    held_from-IsHeld books u (better held c (lookup u (books c))) cs
      (better-IsHeld books u held c (lookup u (books c)) h refl)

-- What a move leaves of the recorder and of the consumer that gets its message.
abbrev pub RelayedAfter : Bool → LiveBooks → Option BusEnvelope × Recorder → Type 0
RelayedAfter arrives lb x = IsRelayed x.1 (deliver arrives x.0 lb)

abbrev pub StepKeeps : Bool → LiveBooks → Option BusEnvelope × Publisher → Type 0
StepKeeps arrives lb x = IsInStep x.1 (deliver arrives x.0 lb)

module _ (r : Recorder) (lb : LiveBooks) (arrives : Bool) where
  pub whole_step :
      (d : Dict String Book) (m : Move)
      → IsInStep (all_books d r) lb
      → StepKeeps arrives lb (move m (all_books d r))
  unfolding step
  whole_step d m k =
      step-IsInStep (record { publisher = all_books d r; consumer = lb }) (m, arrives) k

  module _ (c : ℕ) (d : Dict String Book) (h : IsWhole r.books d) where
    put-IsWhole :
        (u : String) (b : Book)
        → IsOnly r.books c u
        → IsWhole (set_books c (put u b (r.books c)) r.books) (put u b d)
    put-IsWhole u b only =
        update-IsWhole r.books c u (some b) d (put u b (r.books c)) (put u b d) h only
          (λ t. lookup-put u t b (r.books c)) (λ t. lookup-put u t b d)

    pub after_snapshot-IsRelayed :
        (s : BookSnapshot) (x : Result Violation (Unit {0}) × Book)
        → IsOnly r.books c s.ticker
        → StepKeeps arrives lb (after_snapshot s (all_books d r) x)
        → RelayedAfter arrives lb (handled c r (after_snapshot s (supervisor_of c r) x))
    unfolding publish
    after_snapshot-IsRelayed s (err v, b) only k = (_, put-IsWhole s.ticker b only, k)
    after_snapshot-IsRelayed s (ok u, b) only k = (_, put-IsWhole s.ticker b only, k)

    after_delta-IsRelayed :
        (e : BookDelta) (x : Result Violation Bool × Book)
        → IsOnly r.books c e.ticker
        → StepKeeps arrives lb (after_delta e (all_books d r) x)
        → RelayedAfter arrives lb (handled c r (after_delta e (supervisor_of c r) x))
    unfolding publish
    after_delta-IsRelayed e (ok true, b) only k = (_, put-IsWhole e.ticker b only, k)
    after_delta-IsRelayed e (ok false, b) only k = (_, put-IsWhole e.ticker b only, k)
    after_delta-IsRelayed e (err v, b) only k = (_, put-IsWhole e.ticker b only, k)

    -- A connection that holds no more than before.
    fewer-IsWhole :
        (f : Dict String Book)
        → ((t : String) → IsPartOf (lookup t f) (lookup t (r.books c)))
        → IsWhole (set_books c f r.books) d
    fewer-IsWhole f fewer = less-IsWhole r.books (set_books c f r.books) d less h
      where
        less :
            (i : ℕ) (t : String)
            → IsPartOf (lookup t (set_books c f r.books i)) (lookup t (r.books i))
        less i t = elim (Bool-cases (c == i)) [
          | inl k ↦
              rw k (
                subst (λ v. IsPartOf (lookup t f) (lookup t (r.books v))) (same_id c i k) (fewer t))
          | inr k ↦ rw k (inr refl)
        ]

    same-IsWhole : IsWhole (set_books c (r.books c) r.books) d
    same-IsWhole = fewer-IsWhole (r.books c) (λ t. inr refl)

    pub delta_to_held-IsRelayed :
        (e : BookDelta) (o : Option Book)
        → lookup e.ticker (r.books c) ≡ o
        → IsInStep (all_books d r) lb
        → ((b : Book)
            → o ≡ some b
            → StepKeeps arrives lb (delta_to_held e (all_books d r) (some b)))
        → RelayedAfter arrives lb (handled c r (delta_to_held e (supervisor_of c r) o))
    delta_to_held-IsRelayed e none at k stepped = (d, same-IsWhole, k)
    delta_to_held-IsRelayed e (some b) at k stepped =
        after_delta-IsRelayed e (apply_delta e.side e.price e.delta e.ts_ms b)
          (held-IsOnly r.books d c e.ticker b h at) (stepped b refl)

    pub mark_held-IsRelayed :
        (u : String) (o : Option Book)
        → lookup u (r.books c) ≡ o
        → IsInStep (all_books d r) lb
        → ((b : Book) → o ≡ some b → IsInStep (mark_held u (all_books d r) (some b)) lb)
        → RelayedAfter arrives lb (handled c r (none, mark_held u (supervisor_of c r) o))
    mark_held-IsRelayed u none at k stepped = (d, same-IsWhole, k)
    mark_held-IsRelayed u (some b) at k stepped =
        (_, put-IsWhole u (mark_stale b) (held-IsOnly r.books d c u b h at), stepped b refl)

    -- The book that a connection holds is the one of the whole.
    pub whole_has : (u : String) (b : Book) → lookup u (r.books c) ≡ some b → lookup u d ≡ some b
    whole_has u b e = go (h.part c u)
      where
        go : IsPartOf (lookup u (r.books c)) (lookup u d) → lookup u d ≡ some b
        go (inl k) = absurd (ground (arith, k, e))
        go (inr k) = sym k ∙ e

    pub drop-IsWhole : (u : String) → IsWhole (set_books c (remove u (r.books c)) r.books) d
    drop-IsWhole u = fewer-IsWhole (remove u (r.books c)) (λ t. rw (lookup-remove u t (r.books c)) (
        if_cases (λ x. IsPartOf x (lookup t (r.books c))) (string_eq.beq u t) (λ e. inl refl)
          (λ e. inr refl)))

  pub on_bus-IsRelayed :
      (d : Dict String Book) (event : BusEvent) (about : Bool)
      → IsWhole r.books d
      → StepKeeps arrives lb
          (if about then (none, all_books d r) else publish event (all_books d r))
      → RelayedAfter arrives lb (
          on_bus r (if about then (none, supervisor_of 0 r) else publish event (supervisor_of 0 r)))
  unfolding publish
  on_bus-IsRelayed d event true h k = (d, h, k)
  on_bus-IsRelayed d event false h k = (d, h, k)

  pub refreshed-IsRelayed :
      (d : Dict String Book) (u : String) (mono_ns wall_ns : ℕ) (o : Option (ℕ × Book))
      → IsWhole r.books d
      → IsInStep (all_books d r) lb
      → IsHeld r.books u o
      → RelayedAfter arrives lb (refreshed u mono_ns wall_ns r o)
  unfolding publish move
  refreshed-IsRelayed d u mono_ns wall_ns none h k held = (d, h, k)
  refreshed-IsRelayed d u mono_ns wall_ns (some (c, b)) h k held = (
    d,
    h,
    rw (whole_has c d h u b held) at (
        whole_step d
          (refresh_image u (record { conn_id = c; recv_mono_ns = mono_ns; recv_wall_ns = wall_ns }))
          k),
  )

  pub restarted-IsRelayed :
      (d : Dict String Book) (epoch : ℕ)
      → IsInStep (all_books d r) lb
      → r.epoch < epoch
      → IsRelayed (record r { books = λ c. []; epoch = epoch; last_seq = 0 }) lb
  unfolding move lookup step
  restarted-IsRelayed d epoch k later =
      let number : r.epoch + 1 + (epoch - (r.epoch + 1)) ≡ epoch = omega arith in
      (
        [],
        record { part = λ c t. inl refl; alone = λ t c i. inr (inl refl) },
        subst (λ n. IsInStep (record { books = []; epoch = n; last_seq = 0 }) lb) number
            (step-IsInStep (record { publisher = all_books d r; consumer = lb })
              (restart (epoch - (r.epoch + 1)), true) k),
      )
