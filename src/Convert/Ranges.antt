-- ===== src/Convert/Ranges.antt =====
-- What a converted frame promises to the book: prices on the scale and positive counts.
use kalshi_trading_project.Prelude.{
  ℕ, ◌≤◌, ◌<◌, ◌≡◌, Bool, false, not, List, [], ◌∷◌, arith, All, ap,
}
use kalshi_trading_project.Prelude.Int.{ℤ}
use kalshi_trading_project.Prelude.Result.{Result, ok, err, bind_ok, of_ok, ok_or}
use kalshi_trading_project.Prelude.Dict.{or_else}
use kalshi_trading_project.Events.{Receipt, Level, BookSnapshot}
use kalshi_trading_project.FixedPoint.{
  Text, FixedPointError, price_scale, price_decimals, in_price_range, parse_scaled, parse_price,
  parse_count, complement,
}
use kalshi_trading_project.Convert.{
  Envelope, OrderbookSnapshotMsg, to_scale, level_before, levels_of_pairs, sid_of, parsed,
  to_book_snapshot,
}

abbrev pub IsInRange : Level → Type 0
IsInRange l = (l.price ≤ price_scale) × (0 < l.count)

in_price_range-le : (value : ℤ) (price : ℕ) → in_price_range value ≡ ok price → price ≤ price_scale
in_price_range-le value price h = ground arith

parse_price-le : (text : Text) (price : ℕ) → parse_price text ≡ ok price → price ≤ price_scale
unfolding parse_price
parse_price-le text price h =
    let (value, parsed_value, in_range) =
      bind_ok (parse_scaled text price_decimals) in_price_range price h in
    in_price_range-le value price in_range

parsed-ok : {A : Type 0} (r : Result FixedPointError A) (a : A) → parsed r ≡ ok a → r ≡ ok a
parsed-ok (ok b) a h = ap (λ r. ok (ok_or b r)) h
parsed-ok (err e) a h = ground arith

to_scale-le :
    (to_yes : Bool) (price : ℕ) → price ≤ price_scale → to_scale to_yes price ≤ price_scale
unfolding complement
to_scale-le to_yes price h = ground arith

level_before-IsInRange :
    (to_yes : Bool) (price count : ℕ) (out : List Level)
    → price ≤ price_scale
    → All IsInRange out
    → All IsInRange (level_before to_yes price count out)
level_before-IsInRange to_yes price count out h k = ground (arith, to_scale-le to_yes price h)

levels_of_pairs-IsInRange :
    (to_yes : Bool) (pairs : List (Text × Text)) (out : List Level)
    → levels_of_pairs to_yes pairs ≡ ok out
    → All IsInRange out
unfolding levels_of_pairs
levels_of_pairs-IsInRange to_yes [] out h = of_ok (All IsInRange) [] out h tt
levels_of_pairs-IsInRange to_yes ((price_text, count_text) ∷ pairs) out h =
    let (price, is_price, h1) = bind_ok (parse_price price_text) _ out h in
    let (count, is_count, h2) = bind_ok (parse_count count_text) _ out h1 in
    let (rest, is_rest, h3) = bind_ok (levels_of_pairs to_yes pairs) _ out h2 in
    of_ok (All IsInRange) (level_before to_yes price count rest) out h3 (
      level_before-IsInRange to_yes price count rest (parse_price-le price_text price is_price)
        (levels_of_pairs-IsInRange to_yes pairs rest is_rest))

-- Both sides of a converted snapshot have prices of at most one dollar and positive counts only.
pub to_book_snapshot-IsInRange :
    (msg : OrderbookSnapshotMsg) (envelope : Envelope) (receipt : Receipt) (use_yes_price : Bool)
    (s : BookSnapshot)
    → to_book_snapshot msg envelope receipt use_yes_price ≡ ok s
    → All IsInRange s.bids × All IsInRange s.asks
unfolding to_book_snapshot
to_book_snapshot-IsInRange msg envelope receipt use_yes_price s h =
    let (sid, is_sid, h1) = bind_ok (sid_of envelope) _ s h in
    let (bids, is_bids, h2) =
      bind_ok (parsed (levels_of_pairs false (or_else msg.yes_dollars_fp []))) _ s h1 in
    let (asks, is_asks, h3) =
      bind_ok (parsed (levels_of_pairs (not use_yes_price) (or_else msg.no_dollars_fp []))) _ s
        h2 in
    of_ok (λ s. All IsInRange s.bids × All IsInRange s.asks) _ s h3
      (
        levels_of_pairs-IsInRange false (or_else msg.yes_dollars_fp []) bids
            (parsed-ok _ bids is_bids),
        levels_of_pairs-IsInRange (not use_yes_price) (or_else msg.no_dollars_fp []) asks
            (parsed-ok _ asks is_asks),
      )
