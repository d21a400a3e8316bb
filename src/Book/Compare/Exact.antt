-- ===== src/Book/Compare/Exact.antt =====
-- `diff` finds every difference and no other.
use kalshi_trading_project.Prelude.{
  ℕ, ◌≡◌, ◌↔◌, refl, sym, ap, ◌∙◌, ◌≢◌, true, Option, none, some, List, [], ◌∷◌, ◌++◌, arith,
}
use kalshi_trading_project.Prelude.Eq.{nat_eq, string_eq}
use kalshi_trading_project.Prelude.Dict.{or_else}
use kalshi_trading_project.Events.{Side, bid, ask}
use kalshi_trading_project.Book.{Book, size_at}
use kalshi_trading_project.Book.Invariant.{IsWellFormed}
use kalshi_trading_project.Book.Deltas.{same_side}
use kalshi_trading_project.Book.Copies.{AreSameLevels}
use kalshi_trading_project.Book.Compare.{LevelDiff, BookDiff, diff_side, diff, is_empty}
use kalshi_trading_project.Book.Compare.Differences.{
  difference_at, differing, difference_at-diff_side, difference_at-both, AreOnce, both-AreOnce,
}

same_lookup :
    (x y : Option ℕ)
    → x ≢ some 0
    → y ≢ some 0
    → differing (or_else x 0) (or_else y 0) ≡ none
    → x ≡ y
same_lookup none none h k e = refl
same_lookup none (some y) h k e = ground (arith, k)
same_lookup (some x) none h k e = ground (arith, h)
same_lookup (some x) (some y) h k e = ground arith

differing_self : (n : ℕ) → differing n n ≡ none
differing_self n = ground arith

same_side_self : (s : Side) → same_side s s ≡ true
same_side_self bid = refl
same_side_self ask = refl

-- A list with no difference at any price is empty.
no_difference : (ds : List LevelDiff) → ((s : Side) (q : ℕ) → difference_at s q ds ≡ none) → ds ≡ []
unfolding difference_at
no_difference [] h = refl
no_difference (d ∷ ds) h = ground (arith, h d.side d.price, same_side_self d.side)

is_empty-eq : (d : BookDiff) → (is_empty d ≡ true) ↔ (d.differences ≡ [])
is_empty-eq d = ground arith

-- Two well-formed books of one market have a difference for exactly the prices at which their counts
-- differ, once for each side and price and with the two counts; and there is none if and only if the
-- books hold the same levels.
pub diff-AreOnce :
    (a b : Book)
    → IsWellFormed a
    → IsWellFormed b
    → a.ticker ≡ b.ticker
    → (d : BookDiff) × (diff a b ≡ some d)
      × AreOnce d.differences
      × ((s : Side) (q : ℕ)
          → difference_at s q d.differences ≡ differing (size_at s q a) (size_at s q b))
      × ((is_empty d ≡ true) ↔ AreSameLevels a b)
unfolding diff size_at difference_at
diff-AreOnce a b ha hb same =
    let both : List LevelDiff = diff_side bid a b ++ diff_side ask a b in
    let d : BookDiff = record { ticker = a.ticker; differences = both } in
    let at : (s : Side) (q : ℕ)
        → difference_at s q both ≡ differing (size_at s q a) (size_at s q b) =
      λ s q. difference_at-both s a b q ∙ difference_at-diff_side s a b q ha hb in
    (
      d,
      ground (arith, string_eq.beq_iff a.ticker b.ticker),
      both-AreOnce a b,
      at,
      (
        λ e. same_levels d e at,
        λ e. (is_empty-eq d).1 (
            no_difference both (λ s q.
              at s q
              ∙ ap (λ x. differing (or_else x 0) (size_at s q b)) (e s q)
              ∙ differing_self _)),
      ),
    )
  where
    same_levels :
        (d : BookDiff)
        → is_empty d ≡ true
        → ((s : Side) (q : ℕ)
            → difference_at s q d.differences ≡ differing (size_at s q a) (size_at s q b))
        → AreSameLevels a b
    same_levels d e at s q =
        same_lookup _ _ ((ha.sides s).1 q) ((hb.sides s).1 q)
          (sym (at s q) ∙ ap (difference_at s q) ((is_empty-eq d).0 e))
