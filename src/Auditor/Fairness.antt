-- ===== src/Auditor/Fairness.antt =====
-- Rounds of src/tape/recorder/auditor.py `round_robin_choice` leave no ticker out.
use kalshi_trading_project.Prelude.{
  ℕ, zero, suc, ◌+◌, ◌-◌, ◌*◌, ◌%◌, ◌≤◌, ◌<◌, ◌≡◌, refl, sym, ap, ◌∙◌, ◌==◌, leb, true, false,
  Option, none, some, List, [], ◌∷◌, ◌++◌, length, arith, if◌then◌else◌, if_cases, Bool-cases, inl,
  inr,
}
use Prim.Native.Nat.{min}
use native.Mathlib.Nat.{mod-lt, mod-mod, mod-eq_of_lt, mod-add-mod, add-mod_right, suc-mul}
use mathlib.Core.Path.{subst}
use Prim.Native.String.{String}
use kalshi_trading_project.Prelude.Eq.{string_eq}
use kalshi_trading_project.Planner.{is_member}
use kalshi_trading_project.Auditor.Rotation.{
  insert_unique, unique_of, element_at, listed_option, chosen_from, choose, round_robin_choice,
  choices,
}

is_member-insert_unique :
    (t u : String) (us : List String)
    → is_member t (insert_unique u us) ≡ (if string_eq.beq u t then true else is_member t us)
is_member-insert_unique t u [] = refl
is_member-insert_unique t u (x ∷ us) =
    ground (arith, is_member-insert_unique t u us, string_eq.beq_iff u x, string_eq.beq_iff u t)

is_member-unique_of : (t : String) (ts : List String) → is_member t (unique_of ts) ≡ is_member t ts
unfolding unique_of
is_member-unique_of t [] = refl
is_member-unique_of t (u ∷ ts) =
    ground (is_member-insert_unique t u (unique_of ts), is_member-unique_of t ts, arith)

-- A member stands at some place.
member_at :
    (t : String) (ts : List String)
    → is_member t ts ≡ true
    → (p : ℕ) × (p < length ts) × (element_at ts p ≡ some t)
unfolding element_at
member_at t [] h = ground arith
member_at t (u ∷ ts) h =
    if_cases (λ x. x ≡ true → (p : ℕ) × (p < length (u ∷ ts)) × (element_at (u ∷ ts) p ≡ some t))
      (string_eq.beq u t) (λ e k. (0, omega arith, ap some ((string_eq.beq_iff u t).0 e)))
      (λ e k. let (p, inside, at) = member_at t ts k in (suc p, omega (arith, inside), at)) h

is_member-append :
    (t : String) (us vs : List String)
    → is_member t (us ++ vs) ≡ (if is_member t us then true else is_member t vs)
is_member-append t [] vs = refl
is_member-append t (u ∷ us) vs = ground (arith, is_member-append t us vs)

listed_option-append :
    (o : Option String) (us vs : List String)
    → listed_option o (us ++ vs) ≡ listed_option o us ++ vs
listed_option-append none us vs = refl
listed_option-append (some t) us vs = refl

listed_here :
    (t : String) (o : Option String) (us : List String)
    → o ≡ some t
    → is_member t (listed_option o us) ≡ true
listed_here t none us h = ground arith
listed_here t (some u) us h = ground (arith, string_eq.beq_iff u t)

listed_later :
    (t : String) (o : Option String) (us : List String)
    → is_member t us ≡ true
    → is_member t (listed_option o us) ≡ true
listed_later t none us h = h
listed_later t (some u) us h = ground arith

module _ (unique : List String) (start : ℕ) where
  chosen_from-append :
      (first a b : ℕ)
      → chosen_from unique start first (a + b)
        ≡ chosen_from unique start first a ++ chosen_from unique start (first + a) b
  unfolding chosen_from
  chosen_from-append first zero b = ground arith
  chosen_from-append first (suc a) b =
      ap (chosen_from unique start first) (one_more a b)
      ∙ ap (listed_option _) (chosen_from-append (first + 1) a b)
      ∙ listed_option-append (element_at unique ((start + first) % length unique))
          (chosen_from unique start (first + 1) a) (chosen_from unique start (first + 1 + a) b)
      ∙ ap (λ n. chosen_from unique start first (suc a) ++ chosen_from unique start n b)
          (moved first a)
    where
      one_more : (a b : ℕ) → suc a + b ≡ suc (a + b)
      one_more a b = omega arith

      moved : (first a : ℕ) → first + 1 + a ≡ first + suc a
      moved first a = omega arith

  chosen_from-shift :
      (a first b : ℕ)
      → chosen_from unique ((start + a) % length unique) first b
        ≡ chosen_from unique start (first + a) b
  unfolding chosen_from
  chosen_from-shift a first zero = refl
  chosen_from-shift a first (suc b) =
      ap
        (λ n.
          listed_option (element_at unique n)
            (chosen_from unique ((start + a) % length unique) (first + 1) b))
        (mod-add-mod (start + a) (length unique) first
          ∙ ap (λ n. n % length unique) (moved start a first))
      ∙ ap (listed_option _) (
          chosen_from-shift a (first + 1) b
          ∙ ap (λ n. chosen_from unique start n b) (order first a))
    where
      moved : (s a first : ℕ) → s + a + first ≡ s + (first + a)
      moved s a first = omega arith

      order : (first a : ℕ) → first + 1 + a ≡ first + a + 1
      order first a = omega arith

  -- The choices have what stands at any of their places.
  chosen_from-at :
      (t : String) (first count i : ℕ)
      → i < count
      → element_at unique ((start + (first + i)) % length unique) ≡ some t
      → is_member t (chosen_from unique start first count) ≡ true
  unfolding chosen_from
  chosen_from-at t first zero i h e = ground arith
  chosen_from-at t first (suc count) zero h e =
      listed_here t _ _ (ap (λ n. element_at unique ((start + n) % length unique)) (same first) ∙ e)
    where
      same : (n : ℕ) → n ≡ n + 0
      same n = omega arith
  chosen_from-at t first (suc count) (suc i) h e = listed_later t _ _ (
      chosen_from-at t (first + 1) count i (omega (arith, h))
        (ap (λ n. element_at unique ((start + n) % length unique)) (moved first i) ∙ e))
    where
      moved : (first i : ℕ) → first + 1 + i ≡ first + suc i
      moved first i = omega arith

-- The step at which a rotation from `start` reaches the place `p`.
reached :
    (total start p : ℕ)
    → start < total
    → p < total
    → (i : ℕ) × (i < total) × ((start + (0 + i)) % total ≡ p)
reached total start p h k = elim (Bool-cases (leb start p)) [
  | inl e ↦ (p - start, ground arith, ap (λ n. n % total) (before start p e) ∙ mod-eq_of_lt k)
  | inr e ↦ (
    p + total - start,
    ground arith,
    ap (λ n. n % total) (after start p total h e) ∙ add-mod_right p total ∙ mod-eq_of_lt k,
  )
]
  where
    before : (start p : ℕ) → leb start p ≡ true → start + (0 + (p - start)) ≡ p
    before start p e = ground arith

    after :
        (start p total : ℕ)
        → start < total
        → leb start p ≡ false
        → start + (0 + (p + total - start)) ≡ p + total
    after start p total h e = ground arith

choose-eq :
    (unique : List String) (count cursor : ℕ)
    → 0 < length unique
    → choose unique count cursor ≡ (
      chosen_from unique (cursor % length unique) 0 (min count (length unique)),
      (cursor % length unique + min count (length unique)) % length unique,
    )
choose-eq unique count cursor h = rw (positive (length unique) h) refl
  where
    positive : (n : ℕ) → 0 < n → (n == 0) ≡ false
    positive n h = ground arith

choices-eq :
    (n : ℕ) (tickers : List String) (count cursor : ℕ)
    → 0 < length (unique_of tickers)
    → choices n tickers count cursor
      ≡ chosen_from
          (unique_of tickers)
          (cursor % length (unique_of tickers))
          0
          (n * min count (length (unique_of tickers)))
unfolding choices round_robin_choice chosen_from
choices-eq zero tickers count cursor h =
    ap (chosen_from _ _ 0) (none_left (min count (length (unique_of tickers))))
  where
    none_left : (k : ℕ) → 0 ≡ 0 * k
    none_left k = omega arith
choices-eq (suc n) tickers count cursor h =
    let u = unique_of tickers in
    let total = length u in
    let k = min count total in
    let s = cursor % total in
    ap (λ (x : List String × ℕ). x.0 ++ choices n tickers count x.1) (choose-eq u count cursor h)
    ∙ ap (λ ts. chosen_from u s 0 k ++ ts)
        (choices-eq n tickers count ((s + k) % total) h
          ∙ ap (λ m. chosen_from u m 0 (n * k)) (mod-mod (s + k) total)
          ∙ chosen_from-shift u s k 0 (n * k))
    ∙ sym (chosen_from-append u s 0 k (n * k))
    ∙ ap (chosen_from u s 0) (one_more n k)
  where
    one_more : (n k : ℕ) → k + n * k ≡ suc n * k
    one_more n k = omega (arith, suc-mul n k)

enough : (n count total : ℕ) → 0 < total → total ≤ n * count → total ≤ n * min count total
enough zero count total h p = ground arith
enough (suc n) count total h p = elim (Bool-cases (leb count total)) [
  | inl e ↦ subst (λ m. total ≤ suc n * m) (small count total e) p
  | inr e ↦ subst (λ m. total ≤ suc n * m) (large count total e) (omega (arith, suc-mul n total))
]
  where
    small : (count total : ℕ) → leb count total ≡ true → count ≡ min count total
    small count total e = ground arith

    large : (count total : ℕ) → leb count total ≡ false → total ≡ min count total
    large count total e = ground arith

-- Rounds of a positive count over the same tickers, with at least as many choices in all as there are
-- distinct tickers, choose each of the tickers, wherever the rotation starts.
pub choices-is_member :
    (t : String) (tickers : List String) (n count cursor : ℕ)
    → is_member t tickers ≡ true
    → length (unique_of tickers) ≤ n * count
    → is_member t (choices n tickers count cursor) ≡ true
choices-is_member t tickers n count cursor h p =
    let u = unique_of tickers in
    let (place, inside, at) = member_at t u (is_member-unique_of t tickers ∙ h) in
    let some_ticker : 0 < length u = omega (arith, inside) in
    let (i, before, is_place) =
      reached (length u) (cursor % length u) place (mod-lt cursor some_ticker) inside in
    ap (is_member t) (choices-eq n tickers count cursor some_ticker)
    ∙ chosen_from-at u (cursor % length u) t 0 _ i
        (omega (arith, before, enough n count (length u) some_ticker p))
        (ap (element_at u) is_place ∙ at)
