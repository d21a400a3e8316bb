-- ===== src/Book/Snapshots.antt =====
-- What `apply_snapshot` accepts, and the book it leaves.
use kalshi_trading_project.Prelude.{
  ℕ, ◌<◌, ◌≡◌, refl, inl, inr, Bool, true, false, Option, none, some, List, [], ◌∷◌, arith,
  Bool-cases, leb, if◌then◌else◌, ◌==◌,
}
use kalshi_trading_project.Prelude.Dict.{Dict, lookup, put, has}
use kalshi_trading_project.Prelude.DictLaws.{lookup-put}
use kalshi_trading_project.Prelude.Eq.{nat_eq}
use kalshi_trading_project.Prelude.Result.{Result, ok, err, ◌>>=◌}
use kalshi_trading_project.Events.{Side, bid, ask, Level}
use kalshi_trading_project.Book.{
  Book, Violation, crossed_snapshot, best_key, is_crossed, collect, mark_stale, new_image,
  apply_snapshot, replaced,
}
use kalshi_trading_project.Book.Best.{best_key-IsBest}
use kalshi_trading_project.Book.Invariant.{IsUncrossed, IsUncrossed-of_best, crossed_of_best}

-- The count that a list of levels gives for a price.
unfoldable pub listed : ℕ → List Level → Option ℕ
listed q [] = none
listed q (l ∷ ls) = if l.price == q then some l.count else listed q ls

-- Positive counts and no price twice.
abbrev pub AreValid : List Level → Type 0
AreValid [] = Unit
AreValid (l ∷ ls) = (0 < l.count) × (listed l.price ls ≡ none) × AreValid ls

abbrev IsApart : Dict ℕ ℕ → List Level → Type 0
IsApart d ls = (p : ℕ) → has (lookup p d) ≡ true → listed p ls ≡ none

abbrev joined : Option ℕ → Option ℕ → Option ℕ
joined none o = o
joined (some c) o = some c

abbrev CollectOutcome : Dict ℕ ℕ → List Level → Result Violation (Dict ℕ ℕ) → Type 0
CollectOutcome d ls (ok f) =
    AreValid ls × IsApart d ls × ((q : ℕ) → lookup q f ≡ joined (lookup q d) (listed q ls))
CollectOutcome d ls (err v) = ¬ (AreValid ls × IsApart d ls)

collect-step :
    (d : Dict ℕ ℕ) (l : Level) (ls : List Level) (r : Result Violation (Dict ℕ ℕ))
    → leb l.count 0 ≡ false
    → has (lookup l.price d) ≡ false
    → CollectOutcome (put l.price l.count d) ls r
    → CollectOutcome d (l ∷ ls) r
unfolding listed
collect-step d l ls (ok f) e h (valid, apart, at) = (
  (ground arith, apart l.price (ground (arith, lookup-put l.price l.price l.count d)), valid),
  (λ p k. ground (arith, lookup-put l.price p l.count d, apart p)),
  λ q. ground (arith, lookup-put l.price q l.count d, at q),
)
collect-step d l ls (err v) e h refused = λ (both : AreValid (l ∷ ls) × IsApart d (l ∷ ls)).
    refused (both.0.2, λ p k. ground (arith, lookup-put l.price p l.count d, both.1 p))

collect-CollectOutcome :
    (s : Side) (d : Dict ℕ ℕ) (ls : List Level) → CollectOutcome d ls (collect s d ls)
unfolding collect listed
collect-CollectOutcome s d [] = (tt, (λ p h. refl), λ q. ground arith)
collect-CollectOutcome s d (l ∷ ls) = elim (Bool-cases (leb l.count 0)) [
  | inl e ↦ rw e (λ both. ground arith)
  | inr e ↦ elim (Bool-cases (has (lookup l.price d))) [
    | inl f ↦ rw (e, f) (λ both. ground (arith, both.1 l.price))
    | inr f ↦
        rw (e, f)
          (collect-step d l ls (collect s (put l.price l.count d) ls) e f
            (collect-CollectOutcome s (put l.price l.count d) ls))
  ]
]

-- What a snapshot has to be: on each side positive counts at distinct prices, and every bid below
-- every ask.
abbrev pub AreAccepted : List Level → List Level → Type 0
AreAccepted ls ms =
    AreValid ls
    × AreValid ms
    × ((p q : ℕ) → has (listed p ls) ≡ true → has (listed q ms) ≡ true → p < q)

-- The book after a snapshot that was accepted, and after one that raised.
abbrev pub SnapshotOutcome :
    List Level → List Level → Option ℕ → Book → Result Violation (Unit {0}) → Book → Type 0
SnapshotOutcome ls ms ts_ms b (ok u) b' =
    AreAccepted ls ms
    × (b'.ticker ≡ b.ticker)
    × (b'.stale ≡ false)
    × (b'.last_ts_ms ≡ ts_ms)
    × ((q : ℕ) → lookup q b'.bids ≡ listed q ls)
    × ((q : ℕ) → lookup q b'.asks ≡ listed q ms)
SnapshotOutcome ls ms ts_ms b (err v) b' = ¬ AreAccepted ls ms × (b' ≡ record b { stale = true })

module _ (ls ms : List Level) (ts_ms : Option ℕ) (b : Book) where
  abbrev ImageOutcome : Result Violation Book → Type 0
  ImageOutcome (ok b') = SnapshotOutcome ls ms ts_ms b (ok tt) b'
  ImageOutcome (err v) = ¬ AreAccepted ls ms

  image_of_valid :
      (d f : Dict ℕ ℕ)
      → CollectOutcome [] ls (ok d)
      → CollectOutcome [] ms (ok f)
      → (c : Bool) → is_crossed (best_key bid d) (best_key ask f) ≡ c
      → ImageOutcome (if c then err crossed_snapshot else ok (replaced d f ts_ms b))
  unfolding lookup
  image_of_valid d f h k true e = λ (a : AreAccepted ls ms).
      crossed_of_best _ _ d f (best_key-IsBest bid d) (best_key-IsBest ask f) e
        λ p q i j. a.2 p q (ground (arith, h.2 p)) (ground (arith, k.2 q))
  image_of_valid d f h k false e = (
    (h.0, k.0, λ p q i j. apart p q (ground (arith, h.2 p)) (ground (arith, k.2 q))),
    refl,
    refl,
    refl,
    h.2,
    k.2,
  )
    where
      apart : IsUncrossed d f
      apart = IsUncrossed-of_best _ _ d f (best_key-IsBest bid d) (best_key-IsBest ask f) e

  image_of_parts :
      (r t : Result Violation (Dict ℕ ℕ))
      → CollectOutcome [] ls r
      → CollectOutcome [] ms t
      → ImageOutcome (do
        d ← r
        f ← t
        if is_crossed (best_key bid d) (best_key ask f)
            then err crossed_snapshot
            else ok (replaced d f ts_ms b))
  unfolding lookup
  image_of_parts (err v) t h k = λ (a : AreAccepted ls ms). h (a.0, λ p e. cc)
  image_of_parts (ok d) (err v) h k = λ (a : AreAccepted ls ms). k (a.1, λ p e. cc)
  image_of_parts (ok d) (ok f) h k = image_of_valid d f h k _ refl

  snapshot_of_image :
      (r : Result Violation Book)
      → ImageOutcome r
      → (let s : Result Violation (Unit {0}) × Book = elim r [
        | ok b' ↦ (ok tt, b')
        | err v ↦ (err v, mark_stale b)
      ] in
          SnapshotOutcome ls ms ts_ms b s.0 s.1)
  unfolding mark_stale
  snapshot_of_image (ok b') h = h
  snapshot_of_image (err v) h = (h, refl)

  -- A snapshot is accepted exactly when on each side its counts are positive and its prices
  -- distinct, and every bid is below every ask. Then the book holds its levels and no other, is not
  -- stale, and has its time. Otherwise it raises, and the book is stale and otherwise unchanged.
  pub apply_snapshot-SnapshotOutcome :
      SnapshotOutcome ls ms ts_ms b
        (apply_snapshot ls ms ts_ms b).0
        (apply_snapshot ls ms ts_ms b).1
  unfolding apply_snapshot new_image
  apply_snapshot-SnapshotOutcome = snapshot_of_image (new_image ls ms ts_ms b) (
      image_of_parts (collect bid [] ls) (collect ask [] ms) (collect-CollectOutcome bid [] ls)
        (collect-CollectOutcome ask [] ms))
