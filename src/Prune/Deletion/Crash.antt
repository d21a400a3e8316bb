-- ===== src/Prune/Deletion/Crash.antt =====
-- A crash at any point of a day's deletions.
use kalshi_trading_project.Prelude.{
  ℕ, zero, suc, ◌≡◌, refl, true, false, Option, none, some, List, [], ◌∷◌, map, take, arith, All,
  ap, ◌∙◌, if◌then◌else◌,
}
use mathlib.Core.Path.{subst⁻¹}
use kalshi_trading_project.Prelude.Eq.{string_eq, beq_refl}
use kalshi_trading_project.Prelude.Result.{ok, bind_ok, of_ok}
use kalshi_trading_project.Manifest.{PrunedSegment, Manifest, with_pruned}
use kalshi_trading_project.Prune.{PruneDecision, is_pruned}
use kalshi_trading_project.Prune.Deletion.{
  Effect, writes_manifest, unlinks, removes_if_empty, records_of, deletions, updated, found,
  prune_day, DayDisk, delete, has_file, perform_all, is_recorded,
}
use kalshi_trading_project.Prune.Deletion.Records.{is_pruned-with_pruned}
use Prim.Native.String.{String}

-- An effect after the manifest is written: it unlinks only files of `records`.
abbrev IsDeletion : List PrunedSegment → Effect → Type 0
IsDeletion records (writes_manifest m) = ⊥
IsDeletion records (unlinks path) = is_pruned path records ≡ true
IsDeletion records (removes_if_empty hour) = Unit

has_file-delete :
    (path gone : String) (fs : List String)
    → has_file path (delete gone fs) ≡ (if string_eq.beq gone path then false else has_file path fs)
has_file-delete path gone [] = ground arith
has_file-delete path gone (f ∷ fs) = ground (
  arith,
  has_file-delete path gone fs,
  string_eq.beq_iff f gone,
  string_eq.beq_iff gone path,
  string_eq.beq_iff f path,
)

manifest-perform_all :
    (records : List PrunedSegment) (es : List Effect) (n : ℕ) (d : DayDisk)
    → All (IsDeletion records) es
    → (perform_all (take n es) d).manifest ≡ d.manifest
manifest-perform_all records es zero d h = refl
manifest-perform_all records [] (suc n) d h = refl
manifest-perform_all records (writes_manifest m ∷ es) (suc n) d h = absurd h.0
manifest-perform_all records (unlinks path ∷ es) (suc n) d h =
    manifest-perform_all records es n (record d { files = delete path d.files }) h.1
manifest-perform_all records (removes_if_empty hour ∷ es) (suc n) d h =
    manifest-perform_all records es n d h.1

is_pruned-perform_all :
    (records : List PrunedSegment) (es : List Effect) (n : ℕ) (d : DayDisk) (path : String)
    → All (IsDeletion records) es
    → has_file path d.files ≡ true
    → has_file path (perform_all (take n es) d).files ≡ false
    → is_pruned path records ≡ true
is_pruned-perform_all records es zero d path h there gone = ground arith
is_pruned-perform_all records [] (suc n) d path h there gone = ground arith
is_pruned-perform_all records (writes_manifest m ∷ es) (suc n) d path h there gone = absurd h.0
is_pruned-perform_all records (unlinks p ∷ es) (suc n) d path h there gone = ground (
  arith,
  has_file-delete path p d.files,
  string_eq.beq_iff p path,
  h.0,
  is_pruned-perform_all records es n (record d { files = delete p d.files }) path h.1,
)
is_pruned-perform_all records (removes_if_empty hour ∷ es) (suc n) d path h there gone =
    is_pruned-perform_all records es n d path h.1 there gone

removals-AreDeletions :
    (records : List PrunedSegment) (ds : List PruneDecision)
    → All (IsDeletion records) (map (λ d. removes_if_empty d.hour) ds)
removals-AreDeletions records [] = tt
removals-AreDeletions records (d ∷ ds) = (tt, removals-AreDeletions records ds)

deletions-AreDeletions :
    (records some_records : List PrunedSegment) (ds : List PruneDecision)
    → ((path : String) → is_pruned path some_records ≡ true → is_pruned path records ≡ true)
    → All (IsDeletion records) (deletions some_records ds)
deletions-AreDeletions records [] ds h = removals-AreDeletions records ds
deletions-AreDeletions records (r ∷ rs) ds h = (
  h r.path (ground (arith, beq_refl r.path)),
  deletions-AreDeletions records rs ds (λ path k. h path (ground (arith, k))),
)

-- The effects of a day: the manifest that records every deletion, then deletions only.
abbrev IsSafeOrder : List PrunedSegment × List Effect → Type 0
IsSafeOrder (records, effects) =
    (m : Manifest) × (es : List Effect) × (effects ≡ writes_manifest m ∷ es)
    × All (IsDeletion records) es
    × ((path : String) → is_pruned path records ≡ true → is_pruned path m.pruned ≡ true)

-- A file that is gone after the first `n` effects is recorded then.
abbrev IsSafeAfter : String → ℕ → DayDisk → List Effect → Type 0
IsSafeAfter path n d effects =
    has_file path d.files ≡ true
    → has_file path (perform_all (take n effects) d).files ≡ false
    → is_recorded path (perform_all (take n effects) d).manifest ≡ true

writes-IsSafeAfter :
    (records : List PrunedSegment) (m : Manifest) (es : List Effect) (path : String) (n : ℕ)
    (d : DayDisk)
    → All (IsDeletion records) es
    → ((path : String) → is_pruned path records ≡ true → is_pruned path m.pruned ≡ true)
    → IsSafeAfter path n d (writes_manifest m ∷ es)
writes-IsSafeAfter records m es path zero d only covered there gone = ground arith
writes-IsSafeAfter records m es path (suc n) d only covered there gone =
    let d' : DayDisk = record d { manifest = some m } in
    ap (is_recorded path) (manifest-perform_all records es n d' only)
    ∙ covered path (is_pruned-perform_all records es n d' path only there gone)

updated-some : (o : Option Manifest) (m : Manifest) → updated o ≡ ok m → o ≡ some m
updated-some none m h = ground arith
updated-some (some n) m h = of_ok (λ k. some n ≡ some k) n m h refl

prune_day-IsSafeOrder :
    (manifest : Option Manifest) (now : ℕ) (ds : List PruneDecision)
    (result : List PrunedSegment × List Effect)
    → prune_day manifest now ds ≡ ok result
    → IsSafeOrder result
unfolding prune_day
prune_day-IsSafeOrder manifest now ds result h =
    let (m, is_m, h1) = bind_ok (found manifest) _ result h in
    let (records, are_records, h2) = bind_ok (records_of now ds) _ result h1 in
    let (m', is_m', h3) = bind_ok (updated (with_pruned m records)) _ result h2 in
    of_ok IsSafeOrder (records, writes_manifest m' ∷ deletions records ds) result h3
      (
        m',
        deletions records ds,
        refl,
        deletions-AreDeletions records records ds (λ path k. k),
        λ path k. is_pruned-with_pruned path m m' records (updated-some _ m' is_m') k,
      )

-- However many of a day's effects were performed before a crash, every raw segment file that was there
-- before and is gone after is recorded as pruned in the manifest on disk.
pub is_recorded-prune_day :
    (manifest : Option Manifest) (now : ℕ) (ds : List PruneDecision) (records : List PrunedSegment)
    (effects : List Effect) (n : ℕ) (files : List String) (path : String)
    → prune_day manifest now ds ≡ ok (records, effects)
    → has_file path files ≡ true
    → has_file path
        (perform_all (take n effects) (record { manifest = manifest; files = files })).files
      ≡ false
    → is_recorded path
        (perform_all (take n effects) (record { manifest = manifest; files = files })).manifest
      ≡ true
is_recorded-prune_day manifest now ds records effects n files path h there gone =
    let (m, es, is_order, only, covered) =
      prune_day-IsSafeOrder manifest now ds (records, effects) h in
    subst⁻¹ (IsSafeAfter path n (record { manifest = manifest; files = files })) is_order
      (writes-IsSafeAfter records m es path n (record { manifest = manifest; files = files }) only
        covered)
      there gone
