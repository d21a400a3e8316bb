-- ===== src/Book/Compare/Checksum.antt =====
-- The checksum and the number of levels depend only on what levels a book holds, not on their order.
use kalshi_trading_project.Prelude.{
  ℕ, ◌+◌, ◌%◌, ◌≡◌, refl, sym, ap, ◌∙◌, none, some, [], ◌∷◌, arith, length,
}
use mathlib.Core.Path.{ap₂}
use kalshi_trading_project.Prelude.Eq.{nat_eq}
use kalshi_trading_project.Prelude.Dict.{Dict, lookup, remove, IsDistinct}
use kalshi_trading_project.Prelude.DictLaws.{lookup-remove, remove-IsDistinct}
use kalshi_trading_project.Events.{Side, bid, ask}
use kalshi_trading_project.Book.{Book, levels_of}
use kalshi_trading_project.Book.Invariant.{IsWellFormed}
use kalshi_trading_project.Book.Views.{level_count}
use kalshi_trading_project.Book.Copies.{AreSameLevels}
use kalshi_trading_project.Book.Compare.{sum_keys, checksum, mix64, level_key, mask64}

remove_absent : (p : ℕ) (d : Dict ℕ ℕ) → lookup p d ≡ none → remove p d ≡ d
unfolding lookup remove
remove_absent p [] h = refl
remove_absent p ((q, c) ∷ d) h = ground (arith, remove_absent p d)

module _ (key : ℕ → ℕ → ℕ) where
  sum_keys-remove :
      (p c : ℕ) (d : Dict ℕ ℕ)
      → IsDistinct d
      → lookup p d ≡ some c
      → sum_keys key d ≡ key p c + sum_keys key (remove p d)
  unfolding sum_keys lookup remove
  sum_keys-remove p c [] h e = ground arith
  sum_keys-remove p c ((q, n) ∷ d) h e =
      ground (arith, remove_absent q d h.0, sum_keys-remove p c d h.1)

  sum_keys-same :
      (d f : Dict ℕ ℕ)
      → IsDistinct d
      → IsDistinct f
      → ((q : ℕ) → lookup q d ≡ lookup q f)
      → sum_keys key d ≡ sum_keys key f
  unfolding sum_keys lookup
  sum_keys-same [] [] h k e = refl
  sum_keys-same [] ((q, n) ∷ f) h k e = ground (arith, e q)
  sum_keys-same ((p, c) ∷ d) f h k e =
      ap (λ n. key p c + n) (sum_keys-same d (remove p f) h.1 (remove-IsDistinct p f k) rest)
      ∙ sym (sum_keys-remove p c f k (ground (arith, e p)))
    where
      rest : (q : ℕ) → lookup q d ≡ lookup q (remove p f)
      rest q = ground (arith, e q, lookup-remove p q f, h.0)

length-sum_keys : (d : Dict ℕ ℕ) → length d ≡ sum_keys (λ p c. 1) d
unfolding sum_keys
length-sum_keys [] = refl
length-sum_keys ((p, c) ∷ d) = omega (arith, length-sum_keys d)

pub level_count-same :
    (s : Side) (a b : Book)
    → IsWellFormed a
    → IsWellFormed b
    → AreSameLevels a b
    → level_count s a ≡ level_count s b
unfolding level_count
level_count-same s a b ha hb e =
    length-sum_keys (levels_of s a)
    ∙ sum_keys-same (λ p c. 1) (levels_of s a) (levels_of s b) (ha.sides s).0 (hb.sides s).0 (e s)
    ∙ sym (length-sum_keys (levels_of s b))

-- Two well-formed books with the same levels have the same checksum.
pub checksum-same :
    (a b : Book) → IsWellFormed a → IsWellFormed b → AreSameLevels a b → checksum a ≡ checksum b
unfolding checksum
checksum-same a b ha hb e =
    ap₂ (λ m n. (m + n) % mask64)
      (sum_keys-same (λ p c. mix64 (level_key bid p c)) a.bids b.bids (ha.sides bid).0
        (hb.sides bid).0 (e bid))
      (sum_keys-same (λ p c. mix64 (level_key ask p c)) a.asks b.asks (ha.sides ask).0
        (hb.sides ask).0 (e ask))
