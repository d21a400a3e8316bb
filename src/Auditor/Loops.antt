-- ===== src/Auditor/Loops.antt =====
-- The loops of src/tape/recorder/auditor.py `classify_window` on events that replay.
use kalshi_trading_project.Prelude.{
  ℕ, zero, suc, ◌+◌, ◌≡◌, refl, sym, ap, ◌∙◌, Bool, true, false, Option, none, some, List, [], ◌∷◌,
  ◌++◌, map, length, if◌then◌else◌, All,
}
use mathlib.Core.Path.{subst}
use kalshi_trading_project.Prelude.Result.{Result, ok, ◌>>=◌, bind_ok, of_ok, ok_or}
use kalshi_trading_project.Book.{Book}
use kalshi_trading_project.Tap.{BookChange}
use kalshi_trading_project.Tap.Replay.{replay, replay_all}
use kalshi_trading_project.Auditor.{AuditError, before_reply, after_reply}
use kalshi_trading_project.Auditor.Nearest.{last_true, first_true}

-- The chain of a replay whose first event and rest replay.
pub replay_all-cons :
    (e : BookChange) (es : List BookChange) (b d : Book) (ss : List Book)
    → replay_all (e ∷ es) b ≡ ok (d, ss)
    → (c : Book) × (ss' : List Book) × (replay e b ≡ ok c)
      × (replay_all es c ≡ ok (d, ss'))
      × (ss ≡ c ∷ ss')
unfolding replay_all
replay_all-cons e es b d ss h =
    let (c, is_c, h1) = bind_ok (replay e b) _ _ h in
    let (rest, is_rest, h2) = bind_ok (replay_all es c) _ _ h1 in
    (
      c,
      rest.1,
      is_c,
      of_ok (λ (y : Book × List Book). replay_all es c ≡ ok (y.0, rest.1)) (rest.0, c ∷ rest.1)
          (d, ss) h2 is_rest,
      ap (λ (x : Book × List Book). x.1) (sym (ap (ok_or (d, ss)) h2)),
    )

pub replay_all-nil :
    (b d : Book) (ss : List Book) → replay_all [] b ≡ ok (d, ss) → (b ≡ d) × (ss ≡ [])
unfolding replay_all
replay_all-nil b d ss h =
    of_ok (λ (y : Book × List Book). (b ≡ y.0) × (y.1 ≡ [])) (b, []) (d, ss) h (refl, refl)

-- A property that every change keeps holds of every state.
pub replay_all-All :
    (P : Book → Type 0)
    → ((e : BookChange) (b c : Book) → P b → replay e b ≡ ok c → P c)
    → (es : List BookChange) (b d : Book) (ss : List Book) → P b
    → replay_all es b ≡ ok (d, ss)
    → All P (b ∷ ss)
replay_all-All P step [] b d ss p h = (p, rw ((replay_all-nil b d ss h).1) tt)
replay_all-All P step (e ∷ es) b d ss p h =
    let (c, ss', is_c, rest, same) = replay_all-cons e es b d ss h in
    (p, rw same (replay_all-All P step es c d ss' (step e b c p is_c) rest))

-- The replay of two lists of events, one after the other.
pub replay_all-append :
    (es fs : List BookChange) (b d : Book) (ss : List Book)
    → replay_all (es ++ fs) b ≡ ok (d, ss)
    → (c : Book) × (ls : List Book) × (ms : List Book) × (replay_all es b ≡ ok (c, ls))
      × (replay_all fs c ≡ ok (d, ms))
      × (ss ≡ ls ++ ms)
unfolding replay_all
replay_all-append [] fs b d ss h = (b, [], ss, refl, h, refl)
replay_all-append (e ∷ es) fs b d ss h =
    let (c, ss', is_c, rest, same) = replay_all-cons e (es ++ fs) b d ss h in
    let (m, ls, ms, first, second, both) = replay_all-append es fs c d ss' rest in
    (
      m,
      c ∷ ls,
      ms,
      ap (λ r. r >>= λ c'. replay_all es c' >>= λ rest. ok (rest.0, c' ∷ rest.1)) is_c
          ∙ ap (λ r. r >>= λ rest. ok (rest.0, c ∷ rest.1)) first,
      second,
      same ∙ ap (λ ss. c ∷ ss) both,
    )

pub replay_all-length :
    (es : List BookChange) (b d : Book) (ss : List Book)
    → replay_all es b ≡ ok (d, ss)
    → length ss ≡ length es
replay_all-length [] b d ss h = ap length (replay_all-nil b d ss h).1
replay_all-length (e ∷ es) b d ss h =
    let (c, ss', is_c, rest, same) = replay_all-cons e es b d ss h in
    ap length same ∙ ap suc (replay_all-length es c d ss' rest)

unfoldable pub state_at : List Book → ℕ → Option Book
state_at [] n = none
state_at (s ∷ ss) zero = some s
state_at (s ∷ ss) (suc n) = state_at ss n

-- The state after all the events.
pub state_at-last :
    (es : List BookChange) (b d : Book) (ss ms : List Book)
    → replay_all es b ≡ ok (d, ss)
    → state_at (b ∷ ss ++ ms) (length es) ≡ some d
unfolding state_at
state_at-last [] b d ss ms h = ap some (replay_all-nil b d ss h).0
state_at-last (e ∷ es) b d ss ms h =
    let (c, ss', is_c, rest, same) = replay_all-cons e es b d ss h in
    rw same (state_at-last es c d ss' ms rest)

-- A test of a state, and its value where it does not raise.
module _ (same : Book → Result AuditError Bool) (f : Book → Bool) where
  abbrev pub IsTested : Book → Type 0
  IsTested s = same s ≡ ok (f s)

  pub before_reply-last_true :
      (es : List BookChange) (i : ℕ) (near : Option ℕ) (b d : Book) (ss : List Book)
      → replay_all es b ≡ ok (d, ss)
      → All IsTested (b ∷ ss)
      → before_reply same i near es b ≡ ok (last_true i near (map f (b ∷ ss)), d)
  unfolding before_reply last_true
  before_reply-last_true [] i near b d ss h tested =
      let (is_d, none_left) = replay_all-nil b d ss h in rw (none_left, tested.0, is_d) refl
  before_reply-last_true (e ∷ es) i near b d ss h tested =
      let (c, ss', is_c, rest, split) = replay_all-cons e es b d ss h in
      rw (tested.0, is_c, split)
        (before_reply-last_true es (i + 1) (if f b then some i else near) c d ss' rest
          (subst (All IsTested) split tested.1))

  first_ok :
      (x : Bool) (m n : Option ℕ)
      → ◌≡◌ {A = Result AuditError (Option ℕ)} (if x then ok m else ok n) (ok (if x then m else n))
  first_ok true m n = refl
  first_ok false m n = refl

  pub after_reply-first_true :
      (es : List BookChange) (i : ℕ) (b d : Book) (ss : List Book)
      → replay_all es b ≡ ok (d, ss)
      → All IsTested ss
      → after_reply same i es b ≡ ok (first_true (i + 1) (map f ss))
  unfolding after_reply first_true
  after_reply-first_true [] i b d ss h tested = rw ((replay_all-nil b d ss h).1) refl
  after_reply-first_true (e ∷ es) i b d ss h tested =
      let (c, ss', is_c, rest, split) = replay_all-cons e es b d ss h in
      let tests : IsTested c × All IsTested ss' = subst (All IsTested) split tested in
      rw (is_c, split, tests.0, after_reply-first_true es (i + 1) c d ss' rest tests.1)
        (first_ok (f c) (some (i + 1)) _)
