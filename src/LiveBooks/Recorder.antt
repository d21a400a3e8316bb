-- ===== src/LiveBooks/Recorder.antt =====
-- All connections of a recorder on one bus: src/tape/recorder/recorder.py `_held_books` and
-- `_publish_refreshes`, with the supervisors of src/tape/recorder/supervisor.py, each of which holds
-- books of its own. Which frames a connection refuses is decided before these moves.
use kalshi_trading_project.Prelude.{
  ℕ, ◌==◌, ◌<◌, ◌≡◌, ◌⊎◌, ◌&&◌, not, Bool, Option, none, some, List, [], ◌∷◌, if◌then◌else◌,
}
use kalshi_trading_project.Prelude.Eq.{string_eq}
use kalshi_trading_project.Prelude.Dict.{Dict, lookup}
use Prim.Native.String.{String}
use kalshi_trading_project.Events.{BusEvent, BookSnapshot, BookDelta}
use kalshi_trading_project.Book.{Book}
use kalshi_trading_project.LiveBooks.{LiveBooks, BusEnvelope, new_live_books}
use kalshi_trading_project.LiveBooks.Publisher.{
  Publisher, move, snapshot_frame, delta_frame, stale_mark, drop_market, other_event, publish,
  image_of,
}
use kalshi_trading_project.LiveBooks.Mirror.{deliver}

-- The books of each connection, and the numbering of the bus that they share.
pub record Recorder : Type 0 where
  pub conn_ids : List ℕ
  pub books : ℕ → Dict String Book
  pub epoch : ℕ
  pub last_seq : ℕ

-- A refresh comes with the clock's readings, and a restart with its new epoch.
pub data RecorderMove : Type 0 where
  snapshot_on : ℕ → BookSnapshot → RecorderMove
  delta_on : ℕ → BookDelta → RecorderMove
  stale_on drop_on : ℕ → String → RecorderMove
  refresh : String → ℕ → ℕ → RecorderMove
  other_on : BusEvent → RecorderMove
  restarted : ℕ → RecorderMove

-- One supervisor, with the bus.
abbrev pub supervisor_of : ℕ → Recorder → Publisher
supervisor_of c r = record { books = r.books c; epoch = r.epoch; last_seq = r.last_seq }

abbrev pub set_books : ℕ → Dict String Book → (ℕ → Dict String Book) → ℕ → Dict String Book
set_books c d books i = if c == i then d else books i

abbrev pub handled : ℕ → Recorder → Option BusEnvelope × Publisher → Option BusEnvelope × Recorder
handled c r (message, p) =
    (message, record r { books = set_books c p.books r.books; last_seq = p.last_seq })

-- if held is None or (held[1].is_stale() and not book.is_stale())
abbrev pub better : Option (ℕ × Book) → ℕ → Option Book → Option (ℕ × Book)
better held c none = held
better none c (some b) = some (c, b)
better (some (i, h)) c (some b) = if h.stale && not b.stale then some (c, b) else some (i, h)

-- The entry of a market in the merged books.
unfoldable pub held_from :
    String → (ℕ → Dict String Book) → Option (ℕ × Book) → List ℕ → Option (ℕ × Book)
held_from ticker books held [] = held
held_from ticker books held (c ∷ cs) =
    held_from ticker books (better held c (lookup ticker (books c))) cs

abbrev pub on_bus : Recorder → Option BusEnvelope × Publisher → Option BusEnvelope × Recorder
on_bus r (message, p) = (message, record r { last_seq = p.last_seq })

abbrev pub refreshed : String → ℕ → ℕ → Recorder → Option (ℕ × Book) → Option BusEnvelope × Recorder
refreshed ticker mono_ns wall_ns r none = (none, r)
refreshed ticker mono_ns wall_ns r (some (c, b)) = on_bus r (
    publish
      (image_of ticker (record { conn_id = c; recv_mono_ns = mono_ns; recv_wall_ns = wall_ns }) b)
      (supervisor_of c r))

unfoldable pub relay : RecorderMove → Recorder → Option BusEnvelope × Recorder
unfolding move publish held_from
relay (snapshot_on c s) r = handled c r (move (snapshot_frame s) (supervisor_of c r))
relay (delta_on c d) r = handled c r (move (delta_frame d) (supervisor_of c r))
relay (stale_on c ticker) r = handled c r (move (stale_mark ticker) (supervisor_of c r))
relay (drop_on c ticker) r = handled c r (move (drop_market ticker) (supervisor_of c r))
relay (refresh ticker mono_ns wall_ns) r =
    refreshed ticker mono_ns wall_ns r (held_from ticker r.books none r.conn_ids)
relay (other_on event) r = on_bus r (move (other_event event) (supervisor_of 0 r))
relay (restarted epoch) r = (none, record r { books = λ c. []; epoch = epoch; last_seq = 0 })

pub record Feed : Type 0 where
  pub recorder : Recorder
  pub consumer : LiveBooks

abbrev pub new_feed : List ℕ → ℕ → Feed
new_feed conn_ids epoch = record {
  recorder = record { conn_ids = conn_ids; books = λ c. []; epoch = epoch; last_seq = 0 };
  consumer = new_live_books;
}

-- The message of a move, if it has one, arrives or is lost.
unfoldable pub relay_one : Feed → RecorderMove × Bool → Feed
unfolding relay
relay_one w (m, arrives) =
    let (message, r) = relay m w.recorder in
    record { recorder = r; consumer = deliver arrives message w.consumer }

unfoldable pub relay_all : Feed → List (RecorderMove × Bool) → Feed
unfolding relay_one
relay_all w [] = w
relay_all w (m ∷ ms) = relay_all (relay_one w m) ms

-- A market's snapshot comes on a connection while no other holds the market, and a restart's epoch is
-- later than the one before.
abbrev pub IsOrderly : RecorderMove → Recorder → Type 0
IsOrderly (snapshot_on c s) r = (i : ℕ) → (c ≡ i) ⊎ (lookup s.ticker (r.books i) ≡ none)
IsOrderly (restarted epoch) r = r.epoch < epoch
IsOrderly m r = Unit

unfoldable pub AreOrderly : Feed → List (RecorderMove × Bool) → Type 0
unfolding relay_one
AreOrderly w [] = Unit
AreOrderly w (m ∷ ms) = IsOrderly m.0 w.recorder × AreOrderly (relay_one w m) ms
