-- ===== src/Auditor/Nearest.antt =====
-- The two searches of src/tape/recorder/auditor.py `classify_window` over a list that says which states
-- match: together they find the match nearest the reply.
use kalshi_trading_project.Prelude.{
  ℕ, zero, suc, ◌+◌, ◌-◌, ◌≤◌, ◌<◌, ◌≡◌, refl, ◌⊎◌, inl, inr, Bool, true, false, Option, none, some,
  List, [], ◌∷◌, length, take, drop, arith, if◌then◌else◌,
}

-- Whether the state at a place matches; past the end, none does.
unfoldable pub flag : List Bool → ℕ → Bool
flag [] j = false
flag (f ∷ fs) zero = f
flag (f ∷ fs) (suc j) = flag fs j

unfoldable pub last_true : ℕ → Option ℕ → List Bool → Option ℕ
last_true i near [] = near
last_true i near (f ∷ fs) = last_true (i + 1) (if f then some i else near) fs

unfoldable pub first_true : ℕ → List Bool → Option ℕ
first_true i [] = none
first_true i (f ∷ fs) = let rest = first_true (i + 1) fs in if f then some i else rest

pub flag-take : (k : ℕ) (fs : List Bool) (j : ℕ) → j < k → flag (take k fs) j ≡ flag fs j
unfolding flag
flag-take zero fs j h = ground arith
flag-take (suc k) [] j h = refl
flag-take (suc k) (f ∷ fs) zero h = refl
flag-take (suc k) (f ∷ fs) (suc j) h = flag-take k fs j (omega (arith, h))

pub flag-drop : (k : ℕ) (fs : List Bool) (j : ℕ) → flag (drop k fs) j ≡ flag fs (k + j)
unfolding flag
flag-drop zero fs j = ground arith
flag-drop (suc k) [] j = ground arith
flag-drop (suc k) (f ∷ fs) j = ground (arith, flag-drop k fs j)

pub flag-past : (fs : List Bool) (j : ℕ) → length fs ≤ j → flag fs j ≡ false
unfolding flag
flag-past [] j h = refl
flag-past (f ∷ fs) zero h = ground arith
flag-past (f ∷ fs) (suc j) h = flag-past fs j (omega (arith, h))

abbrev pub IsNone : List Bool → Type 0
IsNone fs = (j : ℕ) → flag fs j ≡ false

-- The last match of a list from place `i`, or `near` if it has none.
abbrev pub IsLast : ℕ → Option ℕ → List Bool → Option ℕ → Type 0
IsLast i near fs none = (near ≡ none) × IsNone fs
IsLast i near fs (some m) =
    ((near ≡ some m) × IsNone fs)
    ⊎ ((k : ℕ) × (m ≡ i + k) × (flag fs k ≡ true) × ((j : ℕ) → k < j → flag fs j ≡ false))

IsNone-cons : (fs : List Bool) → IsNone fs → (j : ℕ) → zero < j → flag (true ∷ fs) j ≡ false
unfolding flag
IsNone-cons fs h zero p = ground arith
IsNone-cons fs h (suc j) p = h j

false-IsNone : (fs : List Bool) → IsNone fs → IsNone (false ∷ fs)
unfolding flag
false-IsNone fs h zero = refl
false-IsNone fs h (suc j) = h j

later-false :
    (f : Bool) (fs : List Bool) (k : ℕ)
    → ((j : ℕ) → k < j → flag fs j ≡ false)
    → (j : ℕ) → suc k < j
    → flag (f ∷ fs) j ≡ false
unfolding flag
later-false f fs k h zero p = ground arith
later-false f fs k h (suc j) p = h j (omega (arith, p))

IsLast-cons :
    (i : ℕ) (near : Option ℕ) (f : Bool) (fs : List Bool) (r : Option ℕ)
    → IsLast (i + 1) (if f then some i else near) fs r
    → IsLast i near (f ∷ fs) r
unfolding flag
IsLast-cons i near true fs none h = ground arith
IsLast-cons i near false fs none h = (h.0, false-IsNone fs h.1)
IsLast-cons i near true fs (some m) (inl h) = inr (0, ground arith, refl, IsNone-cons fs h.1)
IsLast-cons i near false fs (some m) (inl h) = inl (h.0, false-IsNone fs h.1)
IsLast-cons i near f fs (some m) (inr (k, e, h, later)) =
    inr (suc k, omega (arith, e), h, later-false f fs k later)

pub last_true-IsLast :
    (i : ℕ) (near : Option ℕ) (fs : List Bool) → IsLast i near fs (last_true i near fs)
unfolding last_true flag
last_true-IsLast i none [] = (refl, λ j. refl)
last_true-IsLast i (some m) [] = inl (refl, λ j. refl)
last_true-IsLast i near (f ∷ fs) =
    IsLast-cons i near f fs _ (last_true-IsLast (i + 1) (if f then some i else near) fs)

-- The first match of a list from place `i`.
abbrev pub IsFirst : ℕ → List Bool → Option ℕ → Type 0
IsFirst i fs none = IsNone fs
IsFirst i fs (some m) =
    (k : ℕ) × (m ≡ i + k) × (flag fs k ≡ true) × ((j : ℕ) → j < k → flag fs j ≡ false)

earlier-false :
    (fs : List Bool) (k : ℕ)
    → ((j : ℕ) → j < k → flag fs j ≡ false)
    → (j : ℕ) → j < suc k
    → flag (false ∷ fs) j ≡ false
unfolding flag
earlier-false fs k h zero p = refl
earlier-false fs k h (suc j) p = h j (omega (arith, p))

IsFirst-cons :
    (i : ℕ) (f : Bool) (fs : List Bool) (r : Option ℕ)
    → IsFirst (i + 1) fs r
    → IsFirst i (f ∷ fs) (if f then some i else r)
unfolding flag
IsFirst-cons i true fs r h = (0, ground arith, refl, λ j p. ground arith)
IsFirst-cons i false fs none h = false-IsNone fs h
IsFirst-cons i false fs (some m) (k, e, h, earlier) =
    (suc k, omega (arith, e), h, earlier-false fs k earlier)

pub first_true-IsFirst : (i : ℕ) (fs : List Bool) → IsFirst i fs (first_true i fs)
unfolding first_true flag
first_true-IsFirst i [] = λ j. refl
first_true-IsFirst i (f ∷ fs) = IsFirst-cons i f fs _ (first_true-IsFirst (i + 1) fs)

-- At the place `m` or farther from the reply, and not before it at the same distance.
abbrev pub IsNotNearer : ℕ → ℕ → ℕ → Type 0
IsNotNearer r m j =
    ((m - r) + (r - m) < (j - r) + (r - j)) ⊎ (((m - r) + (r - m) ≡ (j - r) + (r - j)) × (m ≤ j))

-- The match nearest the place `r`.
abbrev pub IsNearest : ℕ → List Bool → Option ℕ → Type 0
IsNearest r fs none = IsNone fs
IsNearest r fs (some m) = (flag fs m ≡ true) × ((j : ℕ) → flag fs j ≡ true → IsNotNearer r m j)

abbrev pub found : Option ℕ → Option ℕ → Option ℕ
found nearest (some later) = some later
found nearest none = nearest

pub flag-take_past : (k : ℕ) (fs : List Bool) (j : ℕ) → k ≤ j → flag (take k fs) j ≡ false
unfolding flag
flag-take_past zero fs j h = refl
flag-take_past (suc k) [] j h = refl
flag-take_past (suc k) (f ∷ fs) zero h = ground arith
flag-take_past (suc k) (f ∷ fs) (suc j) h = flag-take_past k fs j (omega (arith, h))
