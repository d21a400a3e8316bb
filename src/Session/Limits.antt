-- ===== src/Session/Limits.antt =====
-- The limits of src/tape/api/session.py over any run of a connection.
use kalshi_trading_project.Prelude.{
  ℕ, ◌+◌, ◌≤◌, ◌<◌, ◌≡◌, refl, ltb, leb, ◌||◌, Bool, true, false, Option, none, some, List, [], ◌∷◌,
  ◌++◌, length, arith, if◌then◌else◌, if_cases,
}
use Prim.Native.String.{String}
use kalshi_trading_project.Session.{
  ServerMessage, lag_window_ns, lag_limit, close_too_slow, close_policy_violation,
  max_client_messages_per_s, ns_per_s, max_client_message_bytes, ClientSession, close_open, close,
  recent, replies_of, lag_counted, lag, offer_open, offer, judged, within_limits, taken_from,
  take_next, set_gone, replace_subscriptions, empty_session,
}

-- What can happen to a connection. An offer comes with what the feed then answers for a market.
pub data Event : Type 0 where
  offered : ℕ → (String → Option ServerMessage) → List ServerMessage → Event
  closed : ℕ → Event
  taken_next ended : Event
  received : ℕ → ℕ → Event
  follows : List String → Event

unfoldable pub step : Event → ClientSession → ClientSession
unfolding offer within_limits take_next close
step (offered now_ns snapshot messages) s = offer snapshot now_ns messages s
step (closed code) s = close code s
step taken_next s = (take_next s).1
step ended s = set_gone s
step (received now_ns size) s = (within_limits now_ns size s).1
step (follows tickers) s = replace_subscriptions tickers s

unfoldable pub run : List Event → ClientSession → ClientSession
unfolding step
run [] s = s
run (e ∷ es) s = run es (step e s)

-- An open connection has lagged and received less than what closes it; a closed one had its queue
-- discarded.
pub record IsLimited (s : ClientSession) : Type 0 where
  pub few_lags : s.close_code ≡ none → length s.lags_ns < lag_limit
  pub few_received : s.close_code ≡ none → length s.received_ns ≤ max_client_messages_per_s
  pub discarded : (code : ℕ) → s.close_code ≡ some code → s.queue ≡ []

close-IsLimited :
    (code : ℕ) (s : ClientSession)
    → ((c : ℕ) → s.close_code ≡ some c → s.queue ≡ [])
    → IsLimited (close code s)
unfolding close
close-IsLimited code s h = go s.close_code refl
  where
    go : (o : Option ℕ) → s.close_code ≡ o → IsLimited (close_open code s o)
    go none e = record {
      few_lags = λ k. ground arith;
      few_received = λ k. ground arith;
      discarded = λ c k. refl;
    }
    go (some c) e = record {
      few_lags = λ k. ground arith;
      few_received = λ k. ground arith;
      discarded = h;
    }

module _ (snapshot : String → Option ServerMessage) where
  lag_counted-IsLimited :
      (replies : List ServerMessage) (s : ClientSession)
      → s.close_code ≡ none
      → (s.close_code ≡ none → length s.received_ns ≤ max_client_messages_per_s)
      → IsLimited (lag_counted snapshot replies s)
  lag_counted-IsLimited replies s e few =
      if_cases IsLimited (leb lag_limit (length s.lags_ns))
        (λ often. close-IsLimited close_too_slow s (λ c k. ground arith))
        (λ seldom. record {
          few_lags = λ k. ground arith;
          few_received = few;
          discarded = λ c k. ground arith;
        })

  offer-IsLimited :
      (now_ns : ℕ) (messages : List ServerMessage) (s : ClientSession)
      → IsLimited s
      → IsLimited (offer snapshot now_ns messages s)
  unfolding offer lag
  offer-IsLimited now_ns [] s h = h
  offer-IsLimited now_ns (m ∷ ms) s h = go s.close_code s.gone refl refl
    where
      opened : s.close_code ≡ none → IsLimited (offer_open snapshot now_ns (m ∷ ms) s)
      opened e =
          if_cases IsLimited (leb (length s.queue + length (m ∷ ms)) s.queue_max)
            (λ fits. record {
              few_lags = h.few_lags;
              few_received = h.few_received;
              discarded = λ c k. ground arith;
            })
            (λ over.
              lag_counted-IsLimited (replies_of (m ∷ ms))
                (record s {
                  lags = s.lags + 1;
                  lags_ns = recent lag_window_ns now_ns (s.lags_ns ++ now_ns ∷ []);
                })
                e h.few_received)

      go :
          (o : Option ℕ) (g : Bool)
          → s.close_code ≡ o
          → s.gone ≡ g
          → IsLimited (
              if (elim o [ some code ↦ true | none ↦ g ])
              then s
              else offer_open snapshot now_ns (m ∷ ms) s)
      go (some c) g e k = h
      go none true e k = h
      go none false e k = opened e

taken-IsLimited :
    (s : ClientSession) (queue : List ServerMessage)
    → IsLimited s
    → s.queue ≡ queue
    → IsLimited (taken_from s queue).1
taken-IsLimited s [] h e = h
taken-IsLimited s (m ∷ ms) h e = record {
  few_lags = h.few_lags;
  few_received = h.few_received;
  discarded = λ c k. ground (arith, h.discarded c k);
}

judged-IsLimited :
    (size : ℕ) (s : ClientSession)
    → (s.close_code ≡ none → length s.lags_ns < lag_limit)
    → ((c : ℕ) → s.close_code ≡ some c → s.queue ≡ [])
    → IsLimited (judged size s).1
unfolding within_limits
judged-IsLimited size s few gone =
    if_cases (λ (x : Bool × ClientSession). IsLimited x.1)
      (ltb max_client_message_bytes size || ltb max_client_messages_per_s (length s.received_ns))
      (λ e. close-IsLimited close_policy_violation s gone)
      (λ e. record { few_lags = few; few_received = λ k. ground arith; discarded = gone })

step-IsLimited : (e : Event) (s : ClientSession) → IsLimited s → IsLimited (step e s)
unfolding step
step-IsLimited (offered now_ns snapshot messages) s h = offer-IsLimited snapshot now_ns messages s h
step-IsLimited (closed code) s h = close-IsLimited code s h.discarded
step-IsLimited taken_next s h = taken-IsLimited s s.queue h refl
step-IsLimited ended s h = record {
  few_lags = h.few_lags;
  few_received = h.few_received;
  discarded = h.discarded;
}
step-IsLimited (received now_ns size) s h =
    judged-IsLimited size
      (record s { received_ns = recent ns_per_s now_ns (s.received_ns ++ now_ns ∷ []) }) h.few_lags
      h.discarded
step-IsLimited (follows tickers) s h = record {
  few_lags = h.few_lags;
  few_received = h.few_received;
  discarded = h.discarded;
}

run-kept : (es : List Event) (s : ClientSession) → IsLimited s → IsLimited (run es s)
unfolding run
run-kept [] s h = h
run-kept (e ∷ es) s h = run-kept es (step e s) (step-IsLimited e s h)

new-IsLimited : (queue_max : ℕ) → IsLimited (empty_session queue_max)
new-IsLimited queue_max = record {
  few_lags = λ k. omega arith;
  few_received = λ k. omega arith;
  discarded = λ c k. refl;
}

-- In any run of a connection from its start, whatever is offered, sent, received and closed: while it is
-- open it keeps fewer lags than close it and no more received messages than the limit, and
-- once it is closed nothing is queued.
pub run-IsLimited : (queue_max : ℕ) (es : List Event) → IsLimited (run es (empty_session queue_max))
run-IsLimited queue_max es = run-kept es (empty_session queue_max) (new-IsLimited queue_max)
