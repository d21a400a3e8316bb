-- ===== src/Lib.antt =====
-- Kalshi Tape: the order books, the event bus and the bookkeeping around them.
--
-- The recorder keeps one order book per market from the exchange's snapshots and deltas, numbers
-- every event it publishes on a bus, and writes its books into keyframes. A consumer of the bus
-- keeps copies of the books and trusts a copy only while no message is missing. A gap tracker
-- watches the sequence numbers of each exchange subscription, and a token bucket paces requests.
-- Prices are integers in units of 1e-4 dollar and counts in units of 1e-2 contract; Python's
-- integers have no bound, so no operation wraps.
--
-- - Prelude: Boolean tests, lists, integers over the native numbers, results, and Python's dict
--   as a list of entries in insertion order.
-- - Events: the structs of src/tape/events.py. A market catalog is the list of its entries; text
--   is a native string.
-- - Book: src/tape/book/book.py. `Book` is the state of the class, with a stored best price per
--   side; `apply_snapshot`, `apply_delta` and `mark_stale` return the outcome and the book that
--   is left, also when the method raises. Violation stands for BookInvariantError. Book/Keyframe
--   has `to_keyframe` and `books_from_keyframe_rows`, Book/Views the queries, Book/Compare
--   `diff` and the checksum.
-- - LiveBooks: src/tape/bus/livebooks.py, the consumer. `observe` takes one envelope through
--   `_follow`, `_adopt`, `_change` and `_apply`. LiveBooks/Publisher has the book moves of one
--   connection of src/tape/recorder/supervisor.py (`_on_snapshot`, `_on_delta`,
--   `_resync_connection`) and the numbering of src/tape/bus/envelope.py. LiveBooks/Recorder has
--   all connections on one bus, each with books of its own, and the refresh images of the merged
--   books of src/tape/recorder/recorder.py (`_held_books`, `_publish_refreshes`); its `relay` is
--   a step function on moves, and the channel to the consumer may lose any message.
--   LiveBooks/Whole and LiveBooks/Handled compare it with one dictionary of all books, whose
--   steps LiveBooks/Mirror follows. A market that is on two connections at once has both of
--   their deltas applied to its copy; a run in LiveBooks/Tests shows it.
-- - Gaps: src/tape/recorder/gaps.py. The verdicts and counters of each subscription id.
-- - RateLimit: src/tape/client/ratelimit.py. The token bucket in billionths of a token; times
--   are monotonic nanoseconds and integer division rounds toward minus infinity, as in Python.
--   `acquire` runs over the clock readings of its rounds and gives none when they run out; its
--   result says that two rounds are enough.
-- - Manifest and Prune: src/tape/bake/manifest.py in the fields that prune reads and writes,
--   `HourKey` of src/tape/bake/layout.py, `with_pruned`, and of src/tape/bake/prune.py `decide`
--   with its two comparisons and `_prune_day`, as the sequence of its effects on the disk
--   (Prune/Deletion). A date is a number of days since 1970-01-01.
-- - FixedPoint: src/tape/fixedpoint.py, over texts as lists of code points with ASCII digits.
--   The standard library's `Decimal` is modelled as the source uses it: `scaleb` rounds to 28
--   significant digits, half to even. `str` of an integer runs on fuel equal to that integer.
-- - Convert: src/tape/wire/convert.py, every conversion of a frame into an event, and the
--   messages of src/tape/wire/ws.py and src/tape/wire/rest.py in the fields that it reads.
-- - Tap: src/tape/recorder/tap.py. A book is an object with an identity, because a tap notices
--   that a market's book was replaced; a tap holds one `Recording` per market. Tap/Watch has the
--   moves of one market of src/tape/recorder/supervisor.py while the tap is open, with the book
--   after each change kept as a history; Tap/Replay replays the changes on a book built from the
--   start copy.
-- - Auditor: src/tape/recorder/auditor.py. `classify_window` with its two loops and its early
--   end, the results, the counters and a round (`audit_once`). The reply of the exchange, its
--   times and the windows of the tap are what a batch is answered; a reply that cannot be
--   decoded raises; the loops are structural over the events, and the cutting of a list into
--   batches runs on its length as fuel. The count and the cursor of `round_robin_choice` are not
--   negative, as the constructor and the calls have them.
-- - Session: src/tape/api/session.py. The queue of one live connection with `offer`, `_lag`,
--   `close` and the limits on the client's messages, as steps on a record; an offer comes with
--   what the feed then answers for a market. The constants and the kinds of message are those of
--   src/tape/api/contract.py.
-- - Planner: src/tape/recorder/planner.py. Planner/Deal has the assignment (`_carry_over`,
--   `_fill` and `plan` as the members by connection), with the heap of the loads as a dictionary
--   whose least entry is searched; Planner/Diff has `diff`; and there are `split_change` and
--   `to_commands`, with the commands of src/tape/client/ws.py in the fields that are set. A
--   frozenset of tickers is the list of its members in order. The pieces of a list run on its
--   length as fuel, since every piece takes one ticker at least.
--
-- Not modelled: network, file and ZeroMQ input and output, the JSON and Parquet encodings,
-- configuration, the command line, the web viewer, the lock queue of the rate limiter, the
-- record that an audit writes to the tape, the counters after a round that raised, and the
-- waiting of the auditor's loop. Which frames a connection refuses because their subscription or
-- market is retired is decided before the moves of LiveBooks/Publisher. Each component has its
-- concrete runs in a module Tests.
pub mod Prelude
pub mod Events
pub mod Book
pub mod LiveBooks
pub mod Gaps
pub mod RateLimit
pub mod Manifest
pub mod Prune
pub mod FixedPoint
pub mod Convert
pub mod Planner
pub mod Tap
pub mod Auditor
pub mod Session
