-- ===== src/Prelude/DictLaws.antt =====
-- The laws of the dictionary operations.
use mathlib.Core.Path.{◌≡◌, refl}
use mathlib.Core.Option.{none, some}
use mathlib.Core.List.{[], ◌∷◌}
use native.Mathlib.Omega.{arith}
use kalshi_trading_project.Prelude.Tests.{if◌then◌else◌}
use kalshi_trading_project.Prelude.Eq.{Eq}
use kalshi_trading_project.Prelude.Dict.{Dict, lookup, put, remove, IsDistinct}

module _ {ℓ κ} {K : Type ℓ} {V : Type κ} ⦃e : Eq K⦄ where
  pub lookup-put :
      (k j : K) (v : V) (d : Dict K V)
      → lookup j (put k v d) ≡ (if e.beq k j then some v else lookup j d)
  unfolding lookup put
  lookup-put k j v [] = refl
  lookup-put k j v ((i, w) ∷ d) =
      ground (arith, e.beq_iff i k, e.beq_iff i j, e.beq_iff k j, lookup-put k j v d)

  pub lookup-remove :
      (k j : K) (d : Dict K V) → lookup j (remove k d) ≡ (if e.beq k j then none else lookup j d)
  unfolding lookup remove
  lookup-remove k j [] = ground arith
  lookup-remove k j ((i, w) ∷ d) =
      ground (arith, e.beq_iff i k, e.beq_iff i j, e.beq_iff k j, lookup-remove k j d)

  pub put-IsDistinct : (k : K) (v : V) (d : Dict K V) → IsDistinct d → IsDistinct (put k v d)
  unfolding put lookup
  put-IsDistinct k v [] h = ground arith
  put-IsDistinct k v ((i, w) ∷ d) h =
      ground (arith, e.beq_iff i k, e.beq_iff k i, lookup-put k i v d, put-IsDistinct k v d h.1)

  pub remove-IsDistinct : (k : K) (d : Dict K V) → IsDistinct d → IsDistinct (remove k d)
  unfolding remove
  remove-IsDistinct k [] h = tt
  remove-IsDistinct k ((i, w) ∷ d) h =
      ground (arith, lookup-remove k i d, remove-IsDistinct k d h.1)

pub ruleset dict_laws = (lookup-put, lookup-remove)
