-- ===== src/Prune/Deletion.antt =====
-- src/tape/bake/prune.py `_prune_day`: the deletions of one day, as the sequence of its effects on the
-- disk. A crash stops after any of them. Of the disk there are the day's manifest and the paths of
-- the raw segment files; only empty directories are removed, so that changes neither.
pub mod Records
pub mod Crash
use kalshi_trading_project.Prelude.{
  ℕ, zero, suc, ◌≡◌, refl, ◌||◌, Bool, true, false, Option, none, some, List, [], ◌∷◌, ◌++◌, map,
  take, arith, All, if◌then◌else◌, ap, ◌∙◌, sym,
}
use kalshi_trading_project.Prelude.Eq.{string_eq, beq_refl}
use kalshi_trading_project.Prelude.Dict.{Dict, lookup, put, has}
use kalshi_trading_project.Prelude.DictLaws.{lookup-put}
use kalshi_trading_project.Prelude.Result.{Result, ok, err, ◌>>=◌, bind_ok, of_ok}
use kalshi_trading_project.Manifest.{
  HourKey, PrunedSegment, Manifest, SegmentEntry, pruned_by_path, set_default, record_all,
  insert_pruned, sorted_pruned, are_listed, with_pruned,
}
use kalshi_trading_project.Prune.{SegmentOnDisk, PruneDecision, is_pruned}
use Prim.Native.String.{String}

-- The cases of `ArchiveError`.
pub data ArchiveError : Type 0 where
  no_manifest not_verified not_listed : ArchiveError

pub data Effect : Type 0 where
  writes_manifest : Manifest → Effect
  unlinks : String → Effect
  removes_if_empty : HourKey → Effect

abbrev pub pruned_segment : ℕ → SegmentOnDisk → Result ArchiveError PrunedSegment
pruned_segment now s = elim s.sha256 [
  | none ↦ err not_verified
  | some digest ↦
      ok (record { path = s.path; bytes = s.bytes; sha256 = digest; pruned_wall_ns = now })
]

abbrev pub records_of_segments : ℕ → List SegmentOnDisk → Result ArchiveError (List PrunedSegment)
records_of_segments now [] = ok []
records_of_segments now (s ∷ ss) =
    let rest = records_of_segments now ss in
    pruned_segment now s >>= λ r. rest >>= λ rs. ok (r ∷ rs)

abbrev pub records_of : ℕ → List PruneDecision → Result ArchiveError (List PrunedSegment)
records_of now [] = ok []
records_of now (d ∷ ds) =
    let rest = records_of now ds in
    records_of_segments now d.segments >>= λ rs. rest >>= λ more. ok (rs ++ more)

abbrev pub deletions : List PrunedSegment → List PruneDecision → List Effect
deletions records decisions =
    map (λ r. unlinks r.path) records ++ map (λ d. removes_if_empty d.hour) decisions

abbrev pub updated : Option Manifest → Result ArchiveError Manifest
updated none = err not_listed
updated (some m) = ok m

abbrev pub found : Option Manifest → Result ArchiveError Manifest
found none = err no_manifest
found (some m) = ok m

unfoldable pub prune_day :
    Option Manifest
    → ℕ
    → List PruneDecision
    → Result ArchiveError (List PrunedSegment × List Effect)
unfolding with_pruned
prune_day manifest now decisions = do
  m ← found manifest
  records ← records_of now decisions
  m' ← updated (with_pruned m records)
  ok (records, writes_manifest m' ∷ deletions records decisions)

pub record DayDisk : Type 0 where
  pub manifest : Option Manifest
  pub files : List String

abbrev pub delete : String → List String → List String
delete path [] = []
delete path (f ∷ fs) = let rest = delete path fs in if string_eq.beq f path then rest else f ∷ rest

abbrev pub has_file : String → List String → Bool
has_file path [] = false
has_file path (f ∷ fs) = string_eq.beq f path || has_file path fs

abbrev pub perform : Effect → DayDisk → DayDisk
perform (writes_manifest m) d = record d { manifest = some m }
perform (unlinks path) d = record d { files = delete path d.files }
perform (removes_if_empty hour) d = d

abbrev pub perform_all : List Effect → DayDisk → DayDisk
perform_all [] d = d
perform_all (e ∷ es) d = perform_all es (perform e d)

abbrev pub is_recorded : String → Option Manifest → Bool
is_recorded path none = false
is_recorded path (some m) = is_pruned path m.pruned
