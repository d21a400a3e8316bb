-- ===== src/Session/Delivery.antt =====
-- What a client of src/tape/api/session.py gets: everything since it was last resynchronized.
use kalshi_trading_project.Prelude.{
  ℕ, ◌+◌, ◌≡◌, refl, sym, ap, ◌∙◌, leb, ltb, ◌||◌, Bool, true, false, Option, none, some, List, [],
  ◌∷◌, ◌++◌, length, arith, if◌then◌else◌, if_cases,
}
use mathlib.Core.Bool.{false≢true}
use mathlib.Core.List.{flat_map}
use mathlib.Core.Path.{ap₂}
use Prim.Native.String.{String}
use kalshi_trading_project.Session.{
  ServerMessage, subscribed_message, error_message, resync_message, with_snapshot, lag_window_ns,
  lag_limit, close_too_slow, close_policy_violation, max_client_message_bytes,
  max_client_messages_per_s, ns_per_s, ClientSession, close_open, close, recent, replies_of,
  resyncs, lag_counted, lag, offer_open, offer, within_limits, taken_from, take_next, empty_session,
}
use kalshi_trading_project.Session.Limits.{
  Event, offered, closed, taken_next, ended, received, follows, step,
}

-- What an observer of a connection expects: what the client follows, whether its connection ended, what
-- the last overflow of the queue must have put there, what was offered since that overflow, or
-- since the start, and what was sent since.
pub record Stream : Type 0 where
  pub session : ClientSession
  pub followed : List String
  pub left : Bool
  pub image : List ServerMessage
  pub since : List ServerMessage
  pub sent : List ServerMessage

-- A message that answers the client is kept on an overflow.
unfoldable pub answers_of : ServerMessage → List ServerMessage
answers_of (subscribed_message ts) = subscribed_message ts ∷ []
answers_of (error_message text) = error_message text ∷ []
answers_of m = []

-- A market starts over: a resync and, if the feed has the market's book, that book.
unfoldable pub restarted : (String → Option ServerMessage) → String → List ServerMessage
restarted snapshot t = elim (snapshot t) [
  | none ↦ resync_message t ∷ []
  | some m ↦ resync_message t ∷ m ∷ []
]

abbrev pub overflowed :
    (String → Option ServerMessage) → List ServerMessage → ClientSession → Stream → Stream
overflowed snapshot messages s' d = record d {
  session = s';
  image = flat_map answers_of messages ++ flat_map (restarted snapshot) d.followed;
  since = [];
  sent = [];
}

-- Messages were offered to a connection that had not ended.
abbrev pub noted :
    (String → Option ServerMessage) → List ServerMessage → ClientSession → Stream → Stream
noted snapshot [] s' d = record d { session = s' }
noted snapshot (m ∷ ms) s' d =
    if leb (length d.session.queue + length (m ∷ ms)) d.session.queue_max
    then record d { session = s'; since = d.since ++ m ∷ ms }
    else overflowed snapshot (m ∷ ms) s' d

abbrev pub noted_sent : Option ServerMessage × ClientSession → Stream → Stream
noted_sent (none, s') d = record d { session = s' }
noted_sent (some m, s') d = record d { session = s'; sent = d.sent ++ m ∷ [] }

unfoldable pub watch : Event → Stream → Stream
unfolding step offer take_next
watch (offered now_ns snapshot messages) d =
    let s' = offer snapshot now_ns messages d.session in
    if d.left then record d { session = s' } else noted snapshot messages s' d
watch taken_next d = noted_sent (take_next d.session) d
watch ended d = record d { session = step ended d.session; left = true }
watch (follows tickers) d = record d {
  session = step (follows tickers) d.session;
  followed = tickers;
}
watch e d = record d { session = step e d.session }

unfoldable pub watch_all : List Event → Stream → Stream
unfolding watch
watch_all [] d = d
watch_all (e ∷ es) d = watch_all es (watch e d)

pub record IsDelivered (d : Stream) : Type 0 where
  pub whole : d.session.close_code ≡ none → d.sent ++ d.session.queue ≡ d.image ++ d.since
  pub same_markets : d.session.subscriptions ≡ d.followed
  pub same_end : d.session.gone ≡ d.left

append_assoc : (a b c : List ServerMessage) → (a ++ b) ++ c ≡ a ++ (b ++ c)
append_assoc [] b c = refl
append_assoc (m ∷ a) b c = ap (λ rest. m ∷ rest) (append_assoc a b c)

append_none : (a : List ServerMessage) → a ++ [] ≡ a
append_none [] = refl
append_none (m ∷ a) = ap (λ rest. m ∷ rest) (append_none a)

replies_of-answers : (ms : List ServerMessage) → replies_of ms ≡ flat_map answers_of ms
unfolding replies_of flat_map answers_of
replies_of-answers [] = refl
replies_of-answers (m ∷ ms) = ground (arith, replies_of-answers ms)

resyncs-restarted :
    (snapshot : String → Option ServerMessage) (ts : List String)
    → resyncs snapshot ts ≡ flat_map (restarted snapshot) ts
unfolding resyncs flat_map restarted
resyncs-restarted snapshot [] = refl
resyncs-restarted snapshot (t ∷ ts) = go (snapshot t) (resyncs-restarted snapshot ts)
  where
    go :
        (o : Option ServerMessage)
        → resyncs snapshot ts ≡ flat_map (restarted snapshot) ts
        → resync_message t ∷ with_snapshot o (resyncs snapshot ts)
          ≡ elim o [ none ↦ resync_message t ∷ [] | some m ↦ resync_message t ∷ m ∷ [] ]
            ++ flat_map (restarted snapshot) ts
    go none e = rw e refl
    go (some m) e = rw e refl

close-closed : (code : ℕ) (s : ClientSession) → (close code s).close_code ≡ none → ⊥
unfolding close
close-closed code s h = go s.close_code refl h
  where
    go : (o : Option ℕ) → s.close_code ≡ o → (close_open code s o).close_code ≡ none → ⊥
    go none e k = ground arith
    go (some c) e k = ground arith

closed_kept :
    (code : ℕ) (s : ClientSession)
    → ((close code s).subscriptions ≡ s.subscriptions) × ((close code s).gone ≡ s.gone)
unfolding close
closed_kept code s = go s.close_code
  where
    go :
        (o : Option ℕ)
        → ((close_open code s o).subscriptions ≡ s.subscriptions)
          × ((close_open code s o).gone ≡ s.gone)
    go none = (refl, refl)
    go (some c) = (refl, refl)

-- A connection that is closed, and nothing else about it changed.
closed-IsDelivered :
    (code : ℕ) (s : ClientSession) (d : Stream)
    → s.subscriptions ≡ d.followed
    → s.gone ≡ d.left
    → IsDelivered (record d { session = close code s })
closed-IsDelivered code s d m g = record {
  whole = λ k. absurd (close-closed code s k);
  same_markets = (closed_kept code s).0 ∙ m;
  same_end = (closed_kept code s).1 ∙ g;
}

module _ (snapshot : String → Option ServerMessage) where
  lagged-IsDelivered :
      (ms : List ServerMessage) (s : ClientSession) (d : Stream)
      → s.subscriptions ≡ d.followed
      → s.gone ≡ d.left
      → IsDelivered (overflowed snapshot ms (lag_counted snapshot (replies_of ms) s) d)
  lagged-IsDelivered ms s d m g =
      if_cases (λ (s' : ClientSession). IsDelivered (overflowed snapshot ms s' d))
        (leb lag_limit (length s.lags_ns))
        (λ often. record {
          whole = λ k. absurd (close-closed close_too_slow s k);
          same_markets = (closed_kept close_too_slow s).0 ∙ m;
          same_end = (closed_kept close_too_slow s).1 ∙ g;
        })
        (λ seldom. record {
          whole = λ k.
              ap₂ (λ a b. a ++ b) (replies_of-answers ms)
                (resyncs-restarted snapshot s.subscriptions
                  ∙ ap (λ ts. flat_map (restarted snapshot) ts) m)
              ∙ sym (append_none _);
          same_markets = m;
          same_end = g;
        })

  -- An open connection takes the offer.
  taken_offer :
      (now_ns : ℕ) (x : ServerMessage) (ms : List ServerMessage) (d : Stream)
      → IsDelivered d
      → d.session.close_code ≡ none
      → IsDelivered (noted snapshot (x ∷ ms) (offer_open snapshot now_ns (x ∷ ms) d.session) d)
  unfolding lag
  taken_offer now_ns x ms d h e =
      go (leb (length d.session.queue + length (x ∷ ms)) d.session.queue_max)
    where
      lagging : ClientSession
      lagging = record d.session {
        lags = d.session.lags + 1;
        lags_ns = recent lag_window_ns now_ns (d.session.lags_ns ++ now_ns ∷ []);
      }

      go :
          (fits : Bool)
          → IsDelivered (
              let s' : ClientSession =
                if fits
                then record d.session { queue = d.session.queue ++ x ∷ ms }
                else lag_counted snapshot (replies_of (x ∷ ms)) lagging in
              if fits
              then record d { session = s'; since = d.since ++ x ∷ ms }
              else overflowed snapshot (x ∷ ms) s' d)
      go true = record {
        whole = λ k.
            sym (append_assoc d.sent d.session.queue (x ∷ ms))
            ∙ ap (λ q. q ++ x ∷ ms) (h.whole e)
            ∙ append_assoc d.image d.since (x ∷ ms);
        same_markets = h.same_markets;
        same_end = h.same_end;
      }
      go false = lagged-IsDelivered (x ∷ ms) lagging d h.same_markets h.same_end

  -- A closed connection ignores the offer.
  ignored_offer :
      (code : ℕ) (x : ServerMessage) (ms : List ServerMessage) (d : Stream)
      → IsDelivered d
      → d.session.close_code ≡ some code
      → IsDelivered (noted snapshot (x ∷ ms) d.session d)
  ignored_offer code x ms d h e =
      if_cases IsDelivered (leb (length d.session.queue + length (x ∷ ms)) d.session.queue_max)
        (λ fits. record {
          whole = λ k. ground arith;
          same_markets = h.same_markets;
          same_end = h.same_end;
        })
        (λ over. record {
          whole = λ k. ground arith;
          same_markets = h.same_markets;
          same_end = h.same_end;
        })

  offered-IsDelivered :
      (now_ns : ℕ) (messages : List ServerMessage) (d : Stream)
      → IsDelivered d
      → IsDelivered (watch (offered now_ns snapshot messages) d)
  unfolding watch offer
  offered-IsDelivered now_ns [] d h = go d.left
    where
      go :
          (l : Bool)
          → IsDelivered
              (if l then record d { session = d.session } else record d { session = d.session })
      go true = h
      go false = h
  offered-IsDelivered now_ns (x ∷ ms) d h =
      go d.left d.session.close_code d.session.gone h.same_end refl refl
    where
      go :
          (l : Bool) (o : Option ℕ) (g : Bool)
          → g ≡ l
          → d.session.close_code ≡ o
          → d.session.gone ≡ g
          → IsDelivered (
              let s' : ClientSession =
                if (elim o [ some code ↦ true | none ↦ g ])
                then d.session
                else offer_open snapshot now_ns (x ∷ ms) d.session in
              if l then record d { session = s' } else noted snapshot (x ∷ ms) s' d)
      go true (some code) g e c k = h
      go false (some code) g e c k = ignored_offer code x ms d h c
      go true none true e c k = h
      go false none false e c k = taken_offer now_ns x ms d h c
      go true none false e c k = absurd (false≢true e)
      go false none true e c k = absurd (false≢true (sym e))

kept-IsDelivered :
    (s' : ClientSession) (d : Stream)
    → IsDelivered d
    → s'.queue ≡ d.session.queue
    → s'.close_code ≡ d.session.close_code
    → s'.subscriptions ≡ d.session.subscriptions
    → s'.gone ≡ d.session.gone
    → IsDelivered (record d { session = s' })
kept-IsDelivered s' d h q c m g = record {
  whole = λ k. ap (λ ms. d.sent ++ ms) q ∙ h.whole (sym c ∙ k);
  same_markets = m ∙ h.same_markets;
  same_end = g ∙ h.same_end;
}

taken-IsDelivered :
    (d : Stream) (queue : List ServerMessage)
    → IsDelivered d
    → d.session.queue ≡ queue
    → IsDelivered (noted_sent (taken_from d.session queue) d)
taken-IsDelivered d [] h e = h
taken-IsDelivered d (m ∷ ms) h e = record {
  whole = λ k. append_assoc d.sent (m ∷ []) ms ∙ ap (λ q. d.sent ++ q) (sym e) ∙ h.whole k;
  same_markets = h.same_markets;
  same_end = h.same_end;
}

received-IsDelivered :
    (now_ns size : ℕ) (d : Stream) → IsDelivered d → IsDelivered (watch (received now_ns size) d)
unfolding watch within_limits
received-IsDelivered now_ns size d h =
    if_cases (λ (x : Bool × ClientSession). IsDelivered (record d { session = x.1 }))
      (ltb max_client_message_bytes size || ltb max_client_messages_per_s (length s.received_ns))
      (λ e. closed-IsDelivered close_policy_violation s d h.same_markets h.same_end)
      (λ e. kept-IsDelivered s d h refl refl refl refl)
  where
    s : ClientSession
    s = record d.session {
      received_ns = recent ns_per_s now_ns (d.session.received_ns ++ now_ns ∷ []);
    }

watch-IsDelivered : (e : Event) (d : Stream) → IsDelivered d → IsDelivered (watch e d)
unfolding watch
watch-IsDelivered (offered now_ns snapshot messages) d h =
    offered-IsDelivered snapshot now_ns messages d h
watch-IsDelivered (closed code) d h = closed-IsDelivered code d.session d h.same_markets h.same_end
watch-IsDelivered taken_next d h = taken-IsDelivered d d.session.queue h refl
watch-IsDelivered ended d h = record {
  whole = h.whole;
  same_markets = h.same_markets;
  same_end = refl;
}
watch-IsDelivered (received now_ns size) d h = received-IsDelivered now_ns size d h
watch-IsDelivered (follows tickers) d h = record {
  whole = h.whole;
  same_markets = refl;
  same_end = h.same_end;
}

watch_all-kept : (es : List Event) (d : Stream) → IsDelivered d → IsDelivered (watch_all es d)
unfolding watch_all
watch_all-kept [] d h = h
watch_all-kept (e ∷ es) d h = watch_all-kept es (watch e d) (watch-IsDelivered e d h)

abbrev pub started : ℕ → Stream
started queue_max = record {
  session = empty_session queue_max;
  followed = [];
  left = false;
  image = [];
  since = [];
  sent = [];
}

-- In any run of a connection from its start, whatever the feed answers at each moment: the session follows
-- the markets that it was last told. While it is open, what was sent since the last offer that did
-- not fit in the queue, or since the start, and then what is queued is, in order: for that offer,
-- its replies and then, for each market that was followed, a resync and the snapshot that the feed
-- had, if any; and then all that was offered later, until the connection ended.
pub watch_all-IsDelivered :
    (queue_max : ℕ) (es : List Event) → IsDelivered (watch_all es (started queue_max))
watch_all-IsDelivered queue_max es =
    watch_all-kept es (started queue_max)
      (record { whole = λ k. refl; same_markets = refl; same_end = refl })
