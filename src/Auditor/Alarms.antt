-- ===== src/Auditor/Alarms.antt =====
-- The audit of a market that a tap watched: src/tape/recorder/auditor.py on what
-- src/tape/recorder/tap.py records.
use kalshi_trading_project.Prelude.{
  ℕ, zero, suc, ◌≡◌, refl, ap, ◌∙◌, ◌⊎◌, inl, inr, Option, none, some, List, [], ◌∷◌, arith,
}
use mathlib.Core.Path.{subst}
use kalshi_trading_project.Prelude.Dict.{or_else}
use kalshi_trading_project.Prelude.Result.{ok}
use kalshi_trading_project.Book.{Book}
use kalshi_trading_project.Book.Copies.{AreSameLevels}
use kalshi_trading_project.Tap.{BookObject, TapWindow, finish}
use kalshi_trading_project.Tap.Watch.{Happening, watch}
use kalshi_trading_project.Tap.Sound.{AreFollowed, IsHeldValid}
use kalshi_trading_project.Tap.Faithful.{opened, IsFaithful, finish-IsFaithful}
use kalshi_trading_project.Auditor.{
  AuditOutcome, exact, consistent, inconsistent, undecidable, WindowVerdict, classify_window,
}
use kalshi_trading_project.Auditor.Loops.{state_at}
use kalshi_trading_project.Auditor.States.{IsStateOf, IsChecksum}
use kalshi_trading_project.Auditor.Verdict.{IsMatch, IsJudged}
use kalshi_trading_project.Auditor.Classify.{classify_window-IsVerdictOn}
use Prim.Native.String.{String}

history-IsMatch :
    (history states : List Book) (rest h : Book) (j : ℕ)
    → AreFollowed history states
    → state_at history j ≡ some h
    → AreSameLevels rest h
    → IsMatch states rest j
unfolding state_at
history-IsMatch [] states rest h j f e same = ground arith
history-IsMatch (l ∷ ls) [] rest h j f e same = absurd f
history-IsMatch (l ∷ ls) (s ∷ ss) rest h zero f e same =
    let at : l ≡ h = ap (λ o. or_else o l) e in
    (s, refl, λ t q. same t q ∙ subst (λ x. AreSameLevels x s) at f.0.same t q)
history-IsMatch (l ∷ ls) (s ∷ ss) rest h (suc j) f e same =
    history-IsMatch ls ss rest h j f.1 e same

-- A verdict that passes the audit.
abbrev pub IsPassed : AuditOutcome → Type 0
IsPassed o = (o ≡ exact) ⊎ (o ≡ consistent)

matched-IsPassed :
    (states : List Book) (rest : Book) (r j : ℕ) (o : AuditOutcome) (i : Option ℕ)
    → IsJudged states rest r o i
    → IsMatch states rest j
    → IsPassed o
matched-IsPassed states rest r j exact i h m = inl refl
matched-IsPassed states rest r j consistent i h m = inr refl
matched-IsPassed states rest r j inconsistent i h m = absurd (h.1 j m)
matched-IsPassed states rest r j undecidable i h m = absurd h

faithful-IsPassed :
    (sum : Book → ℕ) (w : TapWindow) (held : Option BookObject) (history : List Book)
    (rest h : Book) (t j : ℕ)
    → IsChecksum sum
    → w.fault ≡ none
    → IsFaithful w held history
    → IsStateOf w.ticker rest
    → state_at history j ≡ some h
    → AreSameLevels rest h
    → (v : WindowVerdict) × (classify_window w rest t sum ≡ ok v) × IsPassed v.outcome
unfolding state_at
faithful-IsPassed sum w held history rest h t j check fault f is_rest at same =
    let (v, s, is_v, judged, _, _) =
      classify_window-IsVerdictOn sum w rest t f.image f.first f.last f.states check fault f.begins
        f.built f.replayed is_rest in
    (
      v,
      is_v,
      matched-IsPassed (f.first ∷ f.states) rest _ (suc j) v.outcome v.match_index judged
          (history-IsMatch history f.states rest h j f.followed at same),
    )

-- A tap opened on a market whose book, if it has one, is well formed, and snapshots, deltas, marks as stale
-- and droppings of its book; the window closes without a fault. If a well-formed REST book of the
-- market holds the levels of the local book after some change that the market took meanwhile, then
-- its audit, with a checksum that books with the same levels share and at any time of the reply,
-- returns exact or consistent.
pub classify_window-IsPassed :
    (sum : Book → ℕ) (ticker : String) (max_events : ℕ) (held : Option BookObject)
    (next_identity : ℕ) (hs : List Happening) (rest h : Book) (t j : ℕ)
    → IsChecksum sum
    → IsHeldValid held
    → (finish ticker
        (watch max_events hs (opened held next_identity)).held
        (watch max_events hs (opened held next_identity)).recording).fault
      ≡ none
    → IsStateOf ticker rest
    → state_at (watch max_events hs (opened held next_identity)).history j ≡ some h
    → AreSameLevels rest h
    → (v : WindowVerdict) × (classify_window
          (finish ticker
            (watch max_events hs (opened held next_identity)).held
            (watch max_events hs (opened held next_identity)).recording)
          rest
          t
          sum
        ≡ ok v)
      × IsPassed v.outcome
classify_window-IsPassed sum ticker max_events held n hs rest h t j check valid fault is_rest at
      same =
    let m = watch max_events hs (opened held n) in
    faithful-IsPassed sum (finish ticker m.held m.recording) m.held m.history rest h t j check fault
      (finish-IsFaithful ticker max_events held n hs valid fault) (unfold finish in is_rest) at same
