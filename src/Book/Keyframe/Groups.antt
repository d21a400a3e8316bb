-- ===== src/Book/Keyframe/Groups.antt =====
-- Grouping the rows of several books by ticker.
use kalshi_trading_project.Prelude.{
  ◌≡◌, refl, false, none, some, List, [], ◌∷◌, ◌++◌, All, arith, ap, ◌∙◌,
}
use kalshi_trading_project.Prelude.Eq.{string_eq}
use kalshi_trading_project.Prelude.Dict.{Dict, lookup, put, or_else}
use text.Mathlib.TextEquality.{eq_iff}
use Prim.Native.String.{String}
use mathlib.Core.List.{append_assoc, append-nil}
use kalshi_trading_project.Book.Keyframe.{KeyframeRow, group_rows}

module _ {ℓ} {V : Type ℓ} (t : String) (v w : V) where
  lookup-append_new : (d : Dict String V) → lookup t d ≡ none → lookup t (d ++ (t, v) ∷ []) ≡ some v
  unfolding lookup
  lookup-append_new [] h = ground (arith, eq_iff t t)
  lookup-append_new ((u, x) ∷ d) h = ground (arith, lookup-append_new d)

  put-append_new :
      (d : Dict String V) → lookup t d ≡ none → put t w (d ++ (t, v) ∷ []) ≡ d ++ (t, w) ∷ []
  unfolding lookup put
  put-append_new [] h = ground (arith, eq_iff t t)
  put-append_new ((u, x) ∷ d) h = ground (arith, put-append_new d)

pub lookup-append_ne {ℓ} :
    {V : Type ℓ} (t u : String) (v : V) (d : Dict String V)
    → lookup u d ≡ none
    → string_eq.beq t u ≡ false
    → lookup u (d ++ (t, v) ∷ []) ≡ none
unfolding lookup
lookup-append_ne t u v [] h e = ground arith
lookup-append_ne t u v ((x, y) ∷ d) h e = ground (arith, lookup-append_ne t u v d)

pub put_new {ℓ} :
    {V : Type ℓ} (t : String) (v : V) (d : Dict String V)
    → lookup t d ≡ none
    → put t v d ≡ d ++ (t, v) ∷ []
unfolding lookup put
put_new t v [] h = refl
put_new t v ((u, x) ∷ d) h = ground (arith, put_new t v d)

abbrev IsOf : String → KeyframeRow → Type 0
IsOf t r = r.ticker ≡ t

module _ (t : String) (g : Dict String (List KeyframeRow)) (new : lookup t g ≡ none) where
  next_row :
      (u : String) (done : List KeyframeRow) (r : KeyframeRow)
      → u ≡ t
      → put u (or_else (lookup u (g ++ (t, done) ∷ [])) [] ++ r ∷ []) (g ++ (t, done) ∷ [])
        ≡ g ++ (t, done ++ r ∷ []) ∷ []
  next_row u done r e =
      rw (e, lookup-append_new t done done g new) (put-append_new t done (done ++ r ∷ []) g new)

  first_row :
      (u : String) (r : KeyframeRow)
      → u ≡ t
      → put u (or_else (lookup u g) [] ++ r ∷ []) g ≡ g ++ (t, r ∷ []) ∷ []
  first_row u r e = rw (e, new) (put_new t (r ∷ []) g new)

  group_rows-rest :
      (done rows rest : List KeyframeRow)
      → All (IsOf t) rows
      → group_rows (g ++ (t, done) ∷ []) (rows ++ rest)
        ≡ group_rows (g ++ (t, done ++ rows) ∷ []) rest
  unfolding group_rows
  group_rows-rest done [] rest h = simp append-nil
  group_rows-rest done (r ∷ rows) rest h =
      ap (λ d. group_rows d (rows ++ rest)) (next_row r.ticker done r h.0)
      ∙ group_rows-rest (done ++ r ∷ []) rows rest h.1
      ∙ simp append_assoc

  -- The rows of a ticker that has no group yet become its group.
  pub group_rows-append :
      (r : KeyframeRow) (rows rest : List KeyframeRow)
      → r.ticker ≡ t
      → All (IsOf t) rows
      → group_rows g ((r ∷ rows) ++ rest) ≡ group_rows (g ++ (t, r ∷ rows) ∷ []) rest
  unfolding group_rows
  group_rows-append r rows rest e h =
      ap (λ d. group_rows d (rows ++ rest)) (first_row r.ticker r e)
      ∙ group_rows-rest (r ∷ []) rows rest h
