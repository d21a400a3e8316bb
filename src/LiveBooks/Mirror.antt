-- ===== src/LiveBooks/Mirror.antt =====
-- One step of the bus for one dictionary of books: a publisher, a channel that may lose the message, and a
-- consumer.
use kalshi_trading_project.Prelude.{
  ℕ, ◌+◌, ◌≤◌, ◌<◌, ◌≡◌, refl, ◌⊎◌, inl, inr, Bool, true, false, Option, none, some, [], arith, ap,
  ◌∙◌,
}
use kalshi_trading_project.Prelude.Eq.{string_eq}
use kalshi_trading_project.Prelude.Dict.{lookup}
use kalshi_trading_project.Book.{Book}
use kalshi_trading_project.LiveBooks.{
  LiveBooks, BusEnvelope, ResetReason, new_live_books, follow, after_follow, apply_event, observe,
}
use kalshi_trading_project.LiveBooks.Publisher.{
  Publisher, Move, move, snapshot_frame, delta_frame, stale_mark, drop_market, refresh_image,
  other_event, restart,
}
use kalshi_trading_project.LiveBooks.Copies.{Mirrors, AreCopies, AreWell}
use kalshi_trading_project.LiveBooks.Moves.{MoveKeeps, move-keeps}
use kalshi_trading_project.LiveBooks.Effects.{HasNumbersOf, apply_event-numbers}

pub record World : Type 0 where
  pub publisher : Publisher
  pub consumer : LiveBooks

abbrev pub start : ℕ → World
start epoch = record {
  publisher = record { books = []; epoch = epoch; last_seq = 0 };
  consumer = new_live_books;
}

-- A message is observed, or lost.
abbrev pub deliver : Bool → Option BusEnvelope → LiveBooks → LiveBooks
deliver arrives none lb = lb
deliver false (some env) lb = lb
deliver true (some env) lb = (observe env lb).1

unfoldable pub step : World → Move × Bool → World
step w (m, arrives) =
    let (message, p) = move m w.publisher in
    record { publisher = p; consumer = deliver arrives message w.consumer }

-- The numbers of a move's message, and of the publisher after it.
abbrev Numbers : Publisher → Option BusEnvelope × Publisher → Type 0
Numbers p (none, p') = ((p'.epoch ≡ p.epoch) × (p'.last_seq ≡ p.last_seq)) ⊎ (p.epoch < p'.epoch)
Numbers p (some env, p') =
    (p'.epoch ≡ p.epoch)
    × (p'.last_seq ≡ p.last_seq + 1)
    × (env.bus_epoch ≡ p.epoch)
    × (env.bus_seq ≡ p.last_seq + 1)

move-Numbers : (m : Move) (p : Publisher) → Numbers p (move m p)
unfolding move
move-Numbers (snapshot_frame s) p = ground arith
move-Numbers (delta_frame d) p = ground arith
move-Numbers (stale_mark u) p = ground arith
move-Numbers (drop_market u) p = ground arith
move-Numbers (refresh_image u rc) p = ground arith
move-Numbers (other_event event) p = ground arith
move-Numbers (restart later) p = inr (omega arith)

follow-none :
    (e n : Option ℕ) (env : BusEnvelope) (missed : ℕ)
    → follow e n env ≡ (none, missed)
    → (e ≡ some env.bus_epoch) × ((k : ℕ) × (n ≡ some k) × (env.bus_seq ≡ k + 1))
unfolding follow
follow-none none n env missed h = cc
follow-none (some e) none env missed h = cc
follow-none (some e) (some k) env missed h = (ground arith, (k, refl, ground arith))

-- The consumer never runs ahead, and where it has observed the latest message it holds copies.
pub record IsInStep (p : Publisher) (c : LiveBooks) : Type 0 where
  pub well : AreWell p.books
  pub held : AreWell c.books
  pub epoch_le : (e : ℕ) → c.current_epoch ≡ some e → e ≤ p.epoch
  pub seq_le : c.current_epoch ≡ some p.epoch → (n : ℕ) → c.last_seq ≡ some n → n ≤ p.last_seq
  pub copies :
      c.current_epoch ≡ some p.epoch → c.last_seq ≡ some p.last_seq → AreCopies p.books c.books

-- The consumer's copies when it turns to the event of the publisher's next message.
after_follow-AreCopies :
    (p : Publisher) (c : LiveBooks) (env : BusEnvelope) (v : Option ResetReason × ℕ)
    → IsInStep p c
    → env.bus_epoch ≡ p.epoch
    → env.bus_seq ≡ p.last_seq + 1
    → follow c.current_epoch c.last_seq env ≡ v
    → AreCopies p.books (after_follow v env c).books × AreWell (after_follow v env c).books
after_follow-AreCopies p c env (none, missed) h e s f =
    let (same, rest) = follow-none c.current_epoch c.last_seq env missed f in
    let (k, at, next) = rest in (h.copies (same ∙ ap some e) (at ∙ ap some (omega arith)), h.held)
after_follow-AreCopies p c env (some r, missed) h e s f =
    (λ t. unfold lookup in unheld (lookup t p.books), λ t. unfold lookup in tt)
  where
    unheld : (o : Option Book) → Mirrors o none
    unheld none = tt
    unheld (some b) = tt

after_follow-numbers :
    (c : LiveBooks) (env : BusEnvelope) (v : Option ResetReason × ℕ)
    → ((after_follow v env c).current_epoch ≡ some env.bus_epoch)
      × ((after_follow v env c).last_seq ≡ some env.bus_seq)
after_follow-numbers c env (none, missed) = (refl, refl)
after_follow-numbers c env (some r, missed) = (refl, refl)

silent-IsInStep :
    (p p' : Publisher) (c : LiveBooks)
    → IsInStep p c
    → ((p'.epoch ≡ p.epoch) × (p'.last_seq ≡ p.last_seq)) ⊎ (p.epoch < p'.epoch)
    → AreWell p'.books
    → (AreCopies p.books c.books → AreCopies p'.books c.books)
    → IsInStep p' c
silent-IsInStep p p' c h (inl n) well keep = record {
  well = well;
  held = h.held;
  epoch_le = λ e f. ground (arith, h.epoch_le e f, n.0);
  seq_le = λ e k f. ground (arith, h.seq_le (e ∙ ap some n.0) k f, n.1);
  copies = λ e f. keep (h.copies (e ∙ ap some n.0) (f ∙ ap some n.1));
}
silent-IsInStep p p' c h (inr n) well keep = record {
  well = well;
  held = h.held;
  epoch_le = λ e f. ground (arith, h.epoch_le e f);
  seq_le = λ e k f. ground (arith, h.epoch_le p'.epoch e);
  copies = λ e f. absurd (ground (arith, h.epoch_le p'.epoch e));
}

lost-IsInStep :
    (p p' : Publisher) (c : LiveBooks)
    → IsInStep p c
    → p'.epoch ≡ p.epoch
    → p'.last_seq ≡ p.last_seq + 1
    → AreWell p'.books
    → IsInStep p' c
lost-IsInStep p p' c h e s well = record {
  well = well;
  held = h.held;
  epoch_le = λ x f. ground (arith, h.epoch_le x f, e);
  seq_le = λ x k f. ground (arith, h.seq_le (x ∙ ap some e) k f, s);
  copies = λ x f. absurd (ground (arith, h.seq_le (x ∙ ap some e) p'.last_seq f, s));
}

-- The publisher is well whatever the consumer holds: think of one that holds nothing.
move-AreWell : (m : Move) (p : Publisher) → AreWell p.books → AreWell (move m p).1.books
move-AreWell m p well = go (move m p) (
    move-keeps p new_live_books (λ t. unfold lookup in unheld (lookup t p.books)) well
      (λ t. unfold lookup in tt) m)
  where
    unheld : (o : Option Book) → Mirrors o none
    unheld none = tt
    unheld (some b) = tt

    go : (r : Option BusEnvelope × Publisher) → MoveKeeps new_live_books r → AreWell r.1.books
    go (none, p') k = k.1
    go (some env, p') k = k.1

module _ (p : Publisher) (c : LiveBooks) (h : IsInStep p c) (m : Move) where
  abbrev seen : BusEnvelope → LiveBooks
  seen env = after_follow (follow c.current_epoch c.last_seq env) env c

  observed-IsInStep :
      (env : BusEnvelope) (p' : Publisher)
      → move m p ≡ (some env, p')
      → Numbers p (some env, p')
      → IsInStep p' (apply_event env.event (seen env)).2
  observed-IsInStep env p' e (ep, sq, ee, es) = record {
    well = keeps.1;
    held = keeps.2;
    epoch_le = λ x f. ground (arith, now.0, x, f, ee, ep);
    seq_le = λ x k f. ground (arith, now.1, k, f, es, sq);
    copies = λ x f. keeps.0;
  }
    where
      before : AreCopies p.books (seen env).books × AreWell (seen env).books
      before = after_follow-AreCopies p c env _ h ee es refl

      keeps : MoveKeeps (seen env) (some env, p')
      keeps = rw e at (move-keeps p (seen env) before.0 h.well before.1 m)

      kept_numbers : HasNumbersOf (seen env) (apply_event env.event (seen env)).2
      kept_numbers = apply_event-numbers env.event (seen env)

      numbers :
          ((seen env).current_epoch ≡ some env.bus_epoch) × ((seen env).last_seq ≡ some env.bus_seq)
      numbers = after_follow-numbers c env (follow c.current_epoch c.last_seq env)

      now :
          ((apply_event env.event (seen env)).2.current_epoch ≡ some env.bus_epoch)
          × ((apply_event env.event (seen env)).2.last_seq ≡ some env.bus_seq)
      now = (kept_numbers.0 ∙ numbers.0, kept_numbers.1 ∙ numbers.1)

  delivered-IsInStep :
      (arrives : Bool) (r : Option BusEnvelope × Publisher)
      → move m p ≡ r
      → Numbers p r
      → AreWell r.1.books
      → IsInStep r.1 (deliver arrives r.0 c)
  unfolding observe
  delivered-IsInStep arrives (none, p') e n well =
      silent-IsInStep p p' c h n well (λ copies. (silent copies).0)
    where
      silent : AreCopies p.books c.books → MoveKeeps c (none, p')
      silent copies = rw e at (move-keeps p c copies h.well h.held m)
  delivered-IsInStep false (some env, p') e n well = lost-IsInStep p p' c h n.0 n.1 well
  delivered-IsInStep true (some env, p') e n well = observed-IsInStep env p' e n

pub step-IsInStep :
    (w : World) (m : Move × Bool)
    → IsInStep w.publisher w.consumer
    → IsInStep (step w m).publisher (step w m).consumer
unfolding step
step-IsInStep w (m, arrives) h =
    delivered-IsInStep w.publisher w.consumer h m arrives (move m w.publisher) refl
      (move-Numbers m w.publisher) (move-AreWell m w.publisher h.well)

pub start-IsInStep : (e : ℕ) → IsInStep (start e).publisher (start e).consumer
unfolding lookup
start-IsInStep e = record {
  well = λ t. tt;
  held = λ t. tt;
  epoch_le = λ x f. cc;
  seq_le = λ x k f. cc;
  copies = λ x f t. tt;
}
