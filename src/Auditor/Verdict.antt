-- ===== src/Auditor/Verdict.antt =====
-- What the verdict of src/tape/recorder/auditor.py `classify_window` says of the states of a window.
use kalshi_trading_project.Prelude.{
  ℕ, zero, suc, ◌≡◌, ◌↔◌, refl, sym, ap, ◌∙◌, Bool, true, Option, none, some, List, [], ◌∷◌, map,
  arith, All,
}
use mathlib.Core.Path.{subst}
use mathlib.Core.Bool.{false≢true}
use kalshi_trading_project.Prelude.Eq.{string_eq}
use kalshi_trading_project.Prelude.Result.{Result, ok}
use kalshi_trading_project.Prelude.Dict.{or_else}
use kalshi_trading_project.Book.{Book}
use kalshi_trading_project.Book.Copies.{AreSameLevels}
use kalshi_trading_project.Tap.{BookImage, image_of_book}
use kalshi_trading_project.Auditor.{
  AuditError, AuditOutcome, exact, consistent, inconsistent, undecidable, WindowVerdict, verdict_of,
}
use kalshi_trading_project.Auditor.Nearest.{flag, IsNotNearer, IsNearest, found}
use kalshi_trading_project.Auditor.Loops.{state_at}

-- The state at a place holds the levels of the REST book.
abbrev pub IsMatch : List Book → Book → ℕ → Type 0
IsMatch states rest j = (s : Book) × (state_at states j ≡ some s) × AreSameLevels rest s

abbrev pub IsNearestMatch : List Book → Book → ℕ → ℕ → Type 0
IsNearestMatch states rest r m =
    IsMatch states rest m × ((j : ℕ) → IsMatch states rest j → IsNotNearer r m j)

-- What an outcome and its index say of the states, when `r` is the place of the reply.
abbrev pub IsJudged : List Book → Book → ℕ → AuditOutcome → Option ℕ → Type 0
IsJudged states rest r exact o = (o ≡ some r) × IsMatch states rest r
IsJudged states rest r consistent (some m) =
    ((m ≡ r) → ⊥) × ¬ IsMatch states rest r × IsNearestMatch states rest r m
IsJudged states rest r consistent none = ⊥
IsJudged states rest r inconsistent o = (o ≡ none) × ((j : ℕ) → ¬ IsMatch states rest j)
IsJudged states rest r undecidable o = ⊥

pub flag-IsMatch :
    (f : Book → Bool) (states : List Book) (rest : Book)
    → All (λ s. (f s ≡ true) ↔ AreSameLevels rest s) states
    → (j : ℕ) → (flag (map f states) j ≡ true) ↔ IsMatch states rest j
unfolding flag state_at
flag-IsMatch f [] rest h j = ((λ e. ground arith), λ m. ground (arith, m.1))
flag-IsMatch f (s ∷ ss) rest h zero = (
  (λ e. (s, refl, h.0.0 e)),
  λ m. h.0.1 (subst (AreSameLevels rest) (sym (ap (λ o. or_else o s) m.1)) m.2),
)
flag-IsMatch f (s ∷ ss) rest h (suc j) = flag-IsMatch f ss rest h.1 j

-- The verdict on a list of states whose matches are the flags, when the searches find `near` and `later`.
module _ (f : Book → Bool) (states : List Book) (rest : Book) (r : ℕ)
    (matches : (j : ℕ) → (flag (map f states) j ≡ true) ↔ IsMatch states rest j) where
  IsNearest-IsNearestMatch :
      (m : ℕ) → IsNearest r (map f states) (some m) → IsNearestMatch states rest r m
  IsNearest-IsNearestMatch m h = ((matches m).0 h.0, λ j k. h.1 j ((matches j).1 k))

  pub verdict_of-IsJudged :
      (near later : Option ℕ) (image : BookImage)
      → (flag (map f states) r ≡ true → ⊥)
      → IsNearest r (map f states) (found near later)
      → IsJudged states rest r
          (verdict_of near later image).outcome
          (verdict_of near later image).match_index
  verdict_of-IsJudged near (some m) image h k = (
    (λ e. h (subst (λ x. flag (map f states) x ≡ true) e k.0)),
    (λ i. h ((matches r).1 i)),
    IsNearest-IsNearestMatch m k,
  )
  verdict_of-IsJudged (some m) none image h k = (
    (λ e. h (subst (λ x. flag (map f states) x ≡ true) e k.0)),
    (λ i. h ((matches r).1 i)),
    IsNearest-IsNearestMatch m k,
  )
  verdict_of-IsJudged none none image h k = (refl, λ j i. false≢true (sym (k j) ∙ (matches j).1 i))

-- A verdict on the states, with the state at the place of the reply.
abbrev pub IsVerdictOn : List Book → Book → ℕ → Result AuditError WindowVerdict → Type 0
IsVerdictOn states rest r x =
    (v : WindowVerdict) × (s : Book) × (x ≡ ok v)
    × IsJudged states rest r v.outcome v.match_index
    × (state_at states r ≡ some s)
    × (v.reply_state ≡ some (image_of_book s))
