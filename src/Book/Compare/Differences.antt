-- ===== src/Book/Compare/Differences.antt =====
-- The differences of one side: each price whose counts differ, once.
use kalshi_trading_project.Prelude.{
  ℕ, ◌<◌, ◌≡◌, refl, ◌∙◌, ◌==◌, Bool, false, Option, none, some, List, [], ◌∷◌, ◌++◌, arith, All,
  if◌then◌else◌, ◌&&◌, ◌||◌,
}
use mathlib.Core.Path.{ap₂}
use kalshi_trading_project.Prelude.Eq.{nat_eq, string_eq}
use kalshi_trading_project.Prelude.Dict.{Dict, lookup, put, has, or_else}
use kalshi_trading_project.Prelude.DictLaws.{lookup-put}
use kalshi_trading_project.Events.{Side, bid, ask, Level}
use kalshi_trading_project.Book.{Book, levels_of, count_at, size_at}
use kalshi_trading_project.Book.Invariant.{IsWellFormed}
use kalshi_trading_project.Book.Snapshots.{listed}
use kalshi_trading_project.Book.Deltas.{same_side}
use kalshi_trading_project.Book.Views.{levels}
use kalshi_trading_project.Book.Views.Ladder.{levels-IsLadder, better-listed, IsLadder}
use kalshi_trading_project.Book.Compare.{
  LevelDiff, counts_of, insert_price, add_prices, side_differences, diff_side,
}

-- No price twice.
abbrev AreApart : List Level → Type 0
AreApart [] = Unit
AreApart (l ∷ ls) = (listed l.price ls ≡ none) × AreApart ls

abbrev first_of : Option ℕ → Option ℕ → Option ℕ
first_of none o = o
first_of (some c) o = some c

lookup-counts_of :
    (d : Dict ℕ ℕ) (ls : List Level) (q : ℕ)
    → AreApart ls
    → lookup q (counts_of d ls) ≡ first_of (listed q ls) (lookup q d)
unfolding counts_of listed
lookup-counts_of d [] q h = refl
lookup-counts_of d (l ∷ ls) q h =
    ground
      (arith, lookup-counts_of (put l.price l.count d) ls q h.1, lookup-put l.price q l.count d)

abbrev is_price : ℕ → List ℕ → Bool
is_price p [] = false
is_price p (q ∷ qs) = q == p || is_price p qs

is_price-insert_price :
    (p q : ℕ) (qs : List ℕ) → is_price p (insert_price q qs) ≡ (q == p || is_price p qs)
is_price-insert_price p q [] = refl
is_price-insert_price p q (r ∷ qs) = ground (arith, is_price-insert_price p q qs)

is_price-add_prices :
    (p : ℕ) (d : Dict ℕ ℕ) (ps : List ℕ)
    → is_price p (add_prices d ps) ≡ (has (lookup p d) || is_price p ps)
unfolding add_prices lookup
is_price-add_prices p [] ps = refl
is_price-add_prices p ((q, c) ∷ d) ps =
    ground (arith, is_price-insert_price p q (add_prices d ps), is_price-add_prices p d ps)

-- The first difference given for a price on a side.
unfoldable pub difference_at : Side → ℕ → List LevelDiff → Option (ℕ × ℕ)
difference_at s q [] = none
difference_at s q (d ∷ ds) =
    if same_side d.side s && d.price == q then some (d.count_a, d.count_b) else difference_at s q ds

abbrev pub differing : ℕ → ℕ → Option (ℕ × ℕ)
differing a b = if a == b then none else some (a, b)

difference_at-side_differences :
    (s : Side) (a b : Dict ℕ ℕ) (ps : List ℕ) (q : ℕ)
    → difference_at s q (side_differences s a b ps)
      ≡ (if is_price q ps then differing (count_at q a) (count_at q b) else none)
unfolding difference_at side_differences
difference_at-side_differences s a b [] q = refl
difference_at-side_differences bid a b (p ∷ ps) q =
    ground (arith, difference_at-side_differences bid a b ps q)
difference_at-side_differences ask a b (p ∷ ps) q =
    ground (arith, difference_at-side_differences ask a b ps q)

difference_at-opposite :
    (s : Side) (a b : Dict ℕ ℕ) (ps : List ℕ) (t : Side) (q : ℕ)
    → same_side s t ≡ false
    → difference_at t q (side_differences s a b ps) ≡ none
unfolding difference_at side_differences
difference_at-opposite s a b [] t q h = refl
difference_at-opposite s a b (p ∷ ps) t q h = ground (arith, difference_at-opposite s a b ps t q h)

difference_at-append :
    (s : Side) (q : ℕ) (ds es : List LevelDiff)
    → difference_at s q (ds ++ es)
      ≡ (if has (difference_at s q ds) then difference_at s q ds else difference_at s q es)
unfolding difference_at
difference_at-append s q [] es = refl
difference_at-append s q (d ∷ ds) es = ground (arith, difference_at-append s q ds es)

abbrev IsAscending : List ℕ → Type 0
IsAscending [] = Unit
IsAscending (p ∷ ps) = All (λ q. p < q) ps × IsAscending ps

All-insert_price :
    (p q : ℕ) (ps : List ℕ) → p < q → All (λ r. p < r) ps → All (λ r. p < r) (insert_price q ps)
All-insert_price p q [] h k = (h, tt)
All-insert_price p q (r ∷ ps) h k = ground (arith, All-insert_price p q ps h k.1)

All-lt_trans : (p q : ℕ) (ps : List ℕ) → p < q → All (λ r. q < r) ps → All (λ r. p < r) ps
All-lt_trans p q [] h k = tt
All-lt_trans p q (r ∷ ps) h k = (omega arith, All-lt_trans p q ps h k.1)

insert_price-IsAscending : (p : ℕ) (ps : List ℕ) → IsAscending ps → IsAscending (insert_price p ps)
insert_price-IsAscending p [] h = (tt, tt)
insert_price-IsAscending p (q ∷ qs) h =
    ground (arith, insert_price-IsAscending p qs h.1, All-insert_price q p qs, All-lt_trans p q qs)

add_prices-IsAscending :
    (d : Dict ℕ ℕ) (ps : List ℕ) → IsAscending ps → IsAscending (add_prices d ps)
unfolding add_prices
add_prices-IsAscending [] ps h = h
add_prices-IsAscending ((p, c) ∷ d) ps h =
    insert_price-IsAscending p (add_prices d ps) (add_prices-IsAscending d ps h)

not_price-below : (p : ℕ) (ps : List ℕ) → All (λ q. p < q) ps → is_price p ps ≡ false
not_price-below p [] h = refl
not_price-below p (q ∷ qs) h = ground (arith, not_price-below p qs h.1)

-- No side and price twice.
abbrev pub AreOnce : List LevelDiff → Type 0
AreOnce [] = Unit
AreOnce (d ∷ ds) = (difference_at d.side d.price ds ≡ none) × AreOnce ds

side_differences-AreOnce :
    (s : Side) (a b : Dict ℕ ℕ) (ps : List ℕ) → IsAscending ps → AreOnce (side_differences s a b ps)
unfolding side_differences
side_differences-AreOnce s a b [] h = tt
side_differences-AreOnce s a b (p ∷ ps) h = ground (
  arith,
  side_differences-AreOnce s a b ps h.1,
  difference_at-side_differences s a b ps p,
  not_price-below p ps h.0,
)

append-AreOnce :
    (ds es : List LevelDiff)
    → AreOnce ds
    → AreOnce es
    → All (λ (d : LevelDiff). difference_at d.side d.price es ≡ none) ds
    → AreOnce (ds ++ es)
append-AreOnce [] es h k m = k
append-AreOnce (d ∷ ds) es h k m = (
  ground (arith, difference_at-append d.side d.price ds es, h.0, m.0),
  append-AreOnce ds es h.1 k m.1,
)

side_differences-apart :
    (s : Side) (a b : Dict ℕ ℕ) (ps : List ℕ) (es : List LevelDiff)
    → ((q : ℕ) → difference_at s q es ≡ none)
    → All (λ (d : LevelDiff). difference_at d.side d.price es ≡ none) (side_differences s a b ps)
unfolding side_differences
side_differences-apart s a b [] es h = tt
side_differences-apart s a b (p ∷ ps) es h =
    ground (arith, h p, side_differences-apart s a b ps es h)

IsLadder-AreApart : (s : Side) (ls : List Level) → IsLadder s ls → AreApart ls
unfolding listed
IsLadder-AreApart s [] h = tt
IsLadder-AreApart bid (l ∷ ls) h =
    (ground (arith, better-listed bid l.price l.price ls h.0), IsLadder-AreApart bid ls h.1)
IsLadder-AreApart ask (l ∷ ls) h =
    (ground (arith, better-listed ask l.price l.price ls h.0), IsLadder-AreApart ask ls h.1)

-- The levels of a book as `diff` reads them.
lookup-counts_of-levels :
    (s : Side) (b : Book) (q : ℕ)
    → IsWellFormed b
    → lookup q (counts_of [] (levels s b)) ≡ lookup q (levels_of s b)
unfolding lookup
lookup-counts_of-levels s b q h =
    let ladder = levels-IsLadder s b h in
    lookup-counts_of [] (levels s b) q (IsLadder-AreApart s (levels s b) ladder.0)
    ∙ first_of-none (listed q (levels s b))
    ∙ ladder.1 q
  where
    first_of-none : (o : Option ℕ) → first_of o none ≡ o
    first_of-none none = refl
    first_of-none (some c) = refl

differing-counts :
    (s : Side) (a b : Dict ℕ ℕ) (q : ℕ)
    → difference_at s q (side_differences s a b (add_prices a (add_prices b [])))
      ≡ differing (count_at q a) (count_at q b)
differing-counts s a b q =
    difference_at-side_differences s a b (add_prices a (add_prices b [])) q
    ∙ ground (arith, is_price-add_prices q a (add_prices b []), is_price-add_prices q b [])

pub difference_at-diff_side :
    (s : Side) (a b : Book) (q : ℕ)
    → IsWellFormed a
    → IsWellFormed b
    → difference_at s q (diff_side s a b) ≡ differing (size_at s q a) (size_at s q b)
unfolding diff_side size_at
difference_at-diff_side s a b q ha hb =
    differing-counts s (counts_of [] (levels s a)) (counts_of [] (levels s b)) q
    ∙ ap₂ (λ x y. differing (or_else x 0) (or_else y 0)) (lookup-counts_of-levels s a q ha)
        (lookup-counts_of-levels s b q hb)

difference_at-diff_side-opposite :
    (s t : Side) (a b : Book) (q : ℕ)
    → same_side s t ≡ false
    → difference_at t q (diff_side s a b) ≡ none
unfolding diff_side
difference_at-diff_side-opposite s t a b q h =
    difference_at-opposite s (counts_of [] (levels s a)) (counts_of [] (levels s b)) _ t q h

pub difference_at-both :
    (s : Side) (a b : Book) (q : ℕ)
    → difference_at s q (diff_side bid a b ++ diff_side ask a b)
      ≡ difference_at s q (diff_side s a b)
difference_at-both bid a b q = ground (
  arith,
  difference_at-append bid q (diff_side bid a b) (diff_side ask a b),
  difference_at-diff_side-opposite ask bid a b q,
)
difference_at-both ask a b q = ground (
  arith,
  difference_at-append ask q (diff_side bid a b) (diff_side ask a b),
  difference_at-diff_side-opposite bid ask a b q,
)

pub both-AreOnce : (a b : Book) → AreOnce (diff_side bid a b ++ diff_side ask a b)
unfolding diff_side
both-AreOnce a b =
    append-AreOnce (diff_side bid a b) (diff_side ask a b) (one_side bid) (one_side ask) (
      side_differences-apart bid _ _ _ (diff_side ask a b)
        (λ q. difference_at-diff_side-opposite ask bid a b q refl))
  where
    one_side : (s : Side) → AreOnce (diff_side s a b)
    one_side s = side_differences-AreOnce s _ _ _ (
        add_prices-IsAscending (counts_of [] (levels s a)) _
          (add_prices-IsAscending (counts_of [] (levels s b)) [] tt))
