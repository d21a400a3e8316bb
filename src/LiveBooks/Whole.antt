-- ===== src/LiveBooks/Whole.antt =====
-- The books of all connections as one dictionary, while no market is on two of them.
use kalshi_trading_project.Prelude.{
  ℕ, ◌==◌, ◌≡◌, refl, sym, ◌∙◌, ◌⊎◌, inl, inr, Bool, true, false, Option, none, arith,
  if◌then◌else◌, Bool-cases,
}
use mathlib.Core.Path.{subst}
use kalshi_trading_project.Prelude.Eq.{string_eq}
use text.Mathlib.TextEquality.{eq_iff}
use kalshi_trading_project.Prelude.Dict.{Dict, lookup}
use Prim.Native.String.{String}
use kalshi_trading_project.Book.{Book}
use kalshi_trading_project.LiveBooks.{LiveBooks}
use kalshi_trading_project.LiveBooks.Publisher.{Publisher}
use kalshi_trading_project.LiveBooks.Copies.{IsUpdate}
use kalshi_trading_project.LiveBooks.Mirror.{IsInStep}
use kalshi_trading_project.LiveBooks.Recorder.{Recorder, set_books}

abbrev pub IsPartOf : {A : Type 0} → Option A → Option A → Type 0
IsPartOf o o' = (o ≡ none) ⊎ (o ≡ o')

-- One dictionary that has the books of every connection, and no market is on two.
pub record IsWhole (books : ℕ → Dict String Book) (d : Dict String Book) : Type 0 where
  pub part : (c : ℕ) (t : String) → IsPartOf (lookup t (books c)) (lookup t d)
  pub alone :
      (t : String) (c i : ℕ) → (c ≡ i) ⊎ ((lookup t (books c) ≡ none) ⊎ (lookup t (books i) ≡ none))

abbrev pub all_books : Dict String Book → Recorder → Publisher
all_books d r = record { books = d; epoch = r.epoch; last_seq = r.last_seq }

abbrev pub IsRelayed : Recorder → LiveBooks → Type 0
IsRelayed r lb = (d : Dict String Book) × IsWhole r.books d × IsInStep (all_books d r) lb

pub same_id : (c i : ℕ) → (c == i) ≡ true → c ≡ i
same_id c i k = ground arith

-- Connections that hold no more than before.
pub less-IsWhole :
    (books books' : ℕ → Dict String Book) (d : Dict String Book)
    → ((i : ℕ) (t : String) → IsPartOf (lookup t (books' i)) (lookup t (books i)))
    → IsWhole books d
    → IsWhole books' d
less-IsWhole books books' d less h = record { part = part; alone = alone }
  where
    part : (i : ℕ) (t : String) → IsPartOf (lookup t (books' i)) (lookup t d)
    part i t = elim (less i t) [ inl e ↦ inl e | inr e ↦ rw e (h.part i t) ]

    alone :
        (t : String) (i j : ℕ)
        → (i ≡ j) ⊎ ((lookup t (books' i) ≡ none) ⊎ (lookup t (books' j) ≡ none))
    alone t i j = go (less i t) (less j t)
      where
        go :
            IsPartOf (lookup t (books' i)) (lookup t (books i))
            → IsPartOf (lookup t (books' j)) (lookup t (books j))
            → (i ≡ j) ⊎ ((lookup t (books' i) ≡ none) ⊎ (lookup t (books' j) ≡ none))
        go (inl e) k = inr (inl e)
        go (inr e) (inl k) = inr (inr k)
        go (inr e) (inr k) = rw (e, k) (h.alone t i j)

module _ (books : ℕ → Dict String Book) (c : ℕ) (u : String) where
  -- No other connection holds the market.
  abbrev pub IsOnly : Type 0
  IsOnly = (i : ℕ) → (c ≡ i) ⊎ (lookup u (books i) ≡ none)

  pub update-IsWhole :
      (o : Option Book) (d e f : Dict String Book)
      → IsWhole books d
      → IsOnly
      → IsUpdate u o (books c) e
      → IsUpdate u o d f
      → IsWhole (set_books c e books) f
  update-IsWhole o d e f h only at_c at_d = record { part = part; alone = alone }
    where
      -- What stands under a market on a connection afterwards.
      entry :
          (i : ℕ) (t : String)
          → ((c ≡ i)
              × (lookup t (set_books c e books i)
                  ≡ (if string_eq.beq u t then o else lookup t (books c))))
            ⊎ ((lookup t (set_books c e books i) ≡ lookup t (books i))
                × (string_eq.beq u t ≡ true → lookup t (books i) ≡ none))
      entry i t = elim (Bool-cases (c == i)) [
        | inl k ↦ inl (same_id c i k, rw (k, at_c t) refl)
        | inr k ↦ inr (rw k refl, λ same. elsewhere k same (only i))
      ]
        where
          elsewhere :
              (c == i) ≡ false
              → string_eq.beq u t ≡ true
              → (c ≡ i) ⊎ (lookup u (books i) ≡ none)
              → lookup t (books i) ≡ none
          elsewhere k same (inl x) = ground arith
          elsewhere k same (inr x) = subst (λ v. lookup v (books i) ≡ none) ((eq_iff u t).0 same) x

      part : (i : ℕ) (t : String) → IsPartOf (lookup t (set_books c e books i)) (lookup t f)
      part i t = elim (entry i t) [
        | inl (same, is_e) ↦ rw (is_e, at_d t) (here (string_eq.beq u t) (h.part c t))
        | inr (is_old, gone) ↦ rw (is_old, at_d t) (there (string_eq.beq u t) gone (h.part i t))
      ]
        where
          here :
              (b : Bool)
              → IsPartOf (lookup t (books c)) (lookup t d)
              → IsPartOf (if b then o else lookup t (books c)) (if b then o else lookup t d)
          here true k = inr refl
          here false k = k

          there :
              (b : Bool)
              → (b ≡ true → lookup t (books i) ≡ none)
              → IsPartOf (lookup t (books i)) (lookup t d)
              → IsPartOf (lookup t (books i)) (if b then o else lookup t d)
          there true gone k = inl (gone refl)
          there false gone k = k

      -- A changed connection, and another one that is not.
      one_changed :
          (i j : ℕ) (t : String) (b : Bool)
          → c ≡ i
          → (b ≡ true → lookup t (books j) ≡ none)
          → (i ≡ j) ⊎ (((if b then o else lookup t (books c)) ≡ none) ⊎ (lookup t (books j) ≡ none))
      one_changed i j t true same gone = inr (inr (gone refl))
      one_changed i j t false same gone = elim (h.alone t c j) [
        | inl k ↦ inl (sym same ∙ k)
        | inr k ↦ inr k
      ]

      alone :
          (t : String) (i j : ℕ)
          → (i ≡ j)
            ⊎ ((lookup t (set_books c e books i) ≡ none)
                ⊎ (lookup t (set_books c e books j) ≡ none))
      alone t i j = go (entry i t) (entry j t)
        where
          go :
              ((c ≡ i)
                  × (lookup t (set_books c e books i)
                      ≡ (if string_eq.beq u t then o else lookup t (books c))))
                ⊎ ((lookup t (set_books c e books i) ≡ lookup t (books i))
                    × (string_eq.beq u t ≡ true → lookup t (books i) ≡ none))
              → ((c ≡ j)
                  × (lookup t (set_books c e books j)
                      ≡ (if string_eq.beq u t then o else lookup t (books c))))
                ⊎ ((lookup t (set_books c e books j) ≡ lookup t (books j))
                    × (string_eq.beq u t ≡ true → lookup t (books j) ≡ none))
              → (i ≡ j)
                ⊎ ((lookup t (set_books c e books i) ≡ none)
                    ⊎ (lookup t (set_books c e books j) ≡ none))
          go (inl (x, is_x)) (inl (y, is_y)) = inl (sym x ∙ y)
          go (inl (x, is_x)) (inr (is_y, gone)) =
              rw (is_x, is_y) (one_changed i j t (string_eq.beq u t) x gone)
          go (inr (is_x, gone)) (inl (y, is_y)) =
              rw (is_x, is_y) (turned (one_changed j i t (string_eq.beq u t) y gone))
            where
              turned : {X Y : Type 0} → (j ≡ i) ⊎ (X ⊎ Y) → (i ≡ j) ⊎ (Y ⊎ X)
              turned (inl k) = inl (sym k)
              turned (inr (inl k)) = inr (inr k)
              turned (inr (inr k)) = inr (inl k)
          go (inr (is_x, gone)) (inr (is_y, gone')) = rw (is_x, is_y) (h.alone t i j)
