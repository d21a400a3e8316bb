-- ===== src/Auditor/Batches.antt =====
-- The batches of a round of src/tape/recorder/auditor.py.
use kalshi_trading_project.Prelude.{
  ℕ, zero, suc, ◌≤◌, ◌<◌, ◌≡◌, refl, ap, ◌∙◌, List, [], ◌∷◌, ◌++◌, length, take, drop,
  take-append-drop, length-drop, arith, All,
}
use kalshi_trading_project.Auditor.Rounds.{max_batch_tickers, batches_of}
use Prim.Native.String.{String}

unfoldable pub concat : List (List String) → List String
concat [] = []
concat (ts ∷ tss) = ts ++ concat tss

-- At least one ticker, and no more than the exchange takes.
abbrev pub IsBatch : List String → Type 0
IsBatch ts = (0 < length ts) × (length ts ≤ max_batch_tickers)

take-bound : (n : ℕ) (ts : List String) → length (take n ts) ≤ n
take-bound zero ts = omega arith
take-bound (suc n) [] = omega arith
take-bound (suc n) (t ∷ ts) = omega (arith, take-bound n ts)

-- With the length of the list as fuel, as `audit_once` has it, or more: the batches are the list cut in
-- order, each of at least one ticker and at most 100.
pub concat-batches_of :
    (fuel : ℕ) (ts : List String)
    → length ts ≤ fuel
    → (concat (batches_of fuel ts) ≡ ts) × All IsBatch (batches_of fuel ts)
unfolding concat batches_of
concat-batches_of fuel [] h = (refl, tt)
concat-batches_of zero (t ∷ ts) h = ground (arith, h)
concat-batches_of (suc fuel) (t ∷ ts) h =
    let (whole, all) =
      concat-batches_of fuel (drop max_batch_tickers (t ∷ ts))
        (omega (arith, length-drop max_batch_tickers (t ∷ ts), h)) in
    (
      ap (λ us. take max_batch_tickers (t ∷ ts) ++ us) whole
          ∙ take-append-drop max_batch_tickers (t ∷ ts),
      ((omega arith, take-bound max_batch_tickers (t ∷ ts)), all),
    )
