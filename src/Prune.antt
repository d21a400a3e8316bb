-- ===== src/Prune.antt =====
-- src/tape/bake/prune.py: whether an hour of raw segments may be deleted, and why not (`decide`).
pub mod Decision
pub mod Deletion
mod Tests
use kalshi_trading_project.Prelude.{
  ℕ, ◌+◌, ◌*◌, ◌==◌, ◌||◌, ◌&&◌, not, leb, Bool, true, false, Option, none, some, List, [], ◌∷◌,
  if◌then◌else◌,
}
use kalshi_trading_project.Prelude.Eq.{Eq, string_eq}
use kalshi_trading_project.Prelude.Dict.{Dict, lookup, put, has}
use kalshi_trading_project.Manifest.{
  HourKey, ns_per_hour, end_wall_ns, failures, HourBake, SegmentEntry, PartEntry, PrunedSegment,
  Manifest, hour_bake, hour_segments, hour_parts,
}
use Prim.Native.String.{String}

pub data PruneReason : Type 0 where
  inside_retention_window not_baked bake_version_stale segment_added : PruneReason
  segment_changed segment_missing decode_failures baked_file_missing : PruneReason
  baked_file_changed unverified : PruneReason

abbrev pub prune_reasons : List PruneReason
prune_reasons =
    inside_retention_window ∷ not_baked ∷ bake_version_stale ∷ segment_added ∷ segment_changed
    ∷ segment_missing ∷ decode_failures ∷ baked_file_missing ∷ baked_file_changed ∷ unverified ∷ []

pub record SegmentOnDisk : Type 0 where
  pub path : String
  pub bytes : ℕ
  pub sha256 : Option String

pub record PartOnDisk : Type 0 where
  pub path : String
  pub exists : Bool
  pub sha256 : Option String

pub record HourFacts : Type 0 where
  pub hour : HourKey
  pub segments : List SegmentOnDisk
  pub parts : List PartOnDisk

pub record PruneDecision : Type 0 where
  pub hour : HourKey
  pub prunable : Bool
  pub reasons : List PruneReason
  pub segments : List SegmentOnDisk

-- The `set` of reasons, newest first, and whether a hash was left out.
pub record Review : Type 0 where
  pub found : List PruneReason
  pub skipped : Bool

abbrev pub add : PruneReason → Review → Review
add reason r = record r { found = reason ∷ r.found }

abbrev pub skip : Review → Review
skip r = record r { skipped = true }

-- The place of a reason in PRUNE_REASONS.
abbrev rank : PruneReason → ℕ
rank inside_retention_window = 0
rank not_baked = 1
rank bake_version_stale = 2
rank segment_added = 3
rank segment_changed = 4
rank segment_missing = 5
rank decode_failures = 6
rank baked_file_missing = 7
rank baked_file_changed = 8
rank unverified = 9

abbrev pub contains_reason : PruneReason → List PruneReason → Bool
contains_reason r [] = false
contains_reason r (q ∷ qs) = (rank q == rank r) || contains_reason r qs

abbrev pub in_order : List PruneReason → List PruneReason → List PruneReason
in_order reasons [] = []
in_order reasons (r ∷ rs) =
    let rest = in_order reasons rs in if contains_reason r reasons then r ∷ rest else rest

abbrev pub judge_hash : Option String → String → PruneReason → Review → Review
judge_hash none expected reason r = skip r
judge_hash (some digest) expected reason r =
    if string_eq.beq digest expected then r else add reason r

abbrev pub judge_segment : Option SegmentEntry → SegmentOnDisk → Review → Review
judge_segment none s r = add segment_added r
judge_segment (some expected) s r =
    if s.bytes == expected.bytes
    then judge_hash s.sha256 expected.sha256 segment_changed r
    else add segment_changed r

abbrev pub segments_by_path :
    Dict String SegmentEntry → List SegmentEntry → Dict String SegmentEntry
segments_by_path d [] = d
segments_by_path d (s ∷ ss) = segments_by_path (put s.path s d) ss

abbrev pub judge_segments : Dict String SegmentEntry → List SegmentOnDisk → Review → Review
judge_segments baked [] r = r
judge_segments baked (s ∷ ss) r = judge_segments baked ss (judge_segment (lookup s.path baked) s r)

abbrev pub is_on_disk : String → List SegmentOnDisk → Bool
is_on_disk path [] = false
is_on_disk path (s ∷ ss) = string_eq.beq s.path path || is_on_disk path ss

abbrev pub is_pruned : String → List PrunedSegment → Bool
is_pruned path [] = false
is_pruned path (s ∷ ss) = string_eq.beq s.path path || is_pruned path ss

abbrev pub any_missing : List SegmentOnDisk → List PrunedSegment → Dict String SegmentEntry → Bool
any_missing on_disk pruned [] = false
any_missing on_disk pruned ((path, e) ∷ d) =
    (not (is_on_disk path on_disk) && not (is_pruned path pruned)) || any_missing on_disk pruned d

unfoldable pub check_segments : HourFacts → Manifest → Review → Review
check_segments facts m r =
    let baked = segments_by_path [] (hour_segments facts.hour.hour m) in
    let r' = judge_segments baked facts.segments r in
    if any_missing facts.segments m.pruned baked then add segment_missing r' else r'

abbrev pub parts_by_path : Dict String PartOnDisk → List PartOnDisk → Dict String PartOnDisk
parts_by_path d [] = d
parts_by_path d (p ∷ ps) = parts_by_path (put p.path p d) ps

abbrev pub judge_part : PartEntry → Option PartOnDisk → Review → Review
judge_part expected none r = add baked_file_missing r
judge_part expected (some part) r =
    if part.exists
    then judge_hash part.sha256 expected.sha256 baked_file_changed r
    else add baked_file_missing r

abbrev pub judge_parts : Dict String PartOnDisk → List PartEntry → Review → Review
judge_parts found [] r = r
judge_parts found (p ∷ ps) r = judge_parts found ps (judge_part p (lookup p.path found) r)

unfoldable pub check_parts : HourFacts → Manifest → Review → Review
check_parts facts m r = judge_parts (parts_by_path [] facts.parts) (hour_parts facts.hour.hour m) r

abbrev pub paired : Manifest → Option HourBake → Option (Manifest × HourBake)
paired m none = none
paired m (some entry) = some (m, entry)

abbrev pub hour_entry : HourFacts → Option Manifest → Option (Manifest × HourBake)
hour_entry facts none = none
hour_entry facts (some m) =
    if m.date == facts.hour.date then paired m (hour_bake facts.hour.hour m) else none

abbrev pub review_entry : HourFacts → ℕ → Option (Manifest × HourBake) → Review → Review
review_entry facts bake_version none r = add not_baked r
review_entry facts bake_version (some (m, entry)) r =
    let r1 = if entry.bake_version == bake_version then r else add bake_version_stale r in
    let r2 = if failures entry.accounting == 0 then r1 else add decode_failures r1 in
    check_parts facts m (check_segments facts m r2)

abbrev pub review_window : HourFacts → ℕ → ℕ → Review
review_window facts now_wall_ns retention_hours =
    let r : Review = record { found = []; skipped = false } in
    if leb now_wall_ns (end_wall_ns facts.hour + retention_hours * ns_per_hour)
    then add inside_retention_window r
    else r

abbrev pub with_unverified : Review → List PruneReason
with_unverified r = elim r.found [
  | [] ↦ if r.skipped then unverified ∷ [] else []
  | reason ∷ rest ↦ r.found
]

abbrev pub decision_of : HourFacts → List PruneReason → PruneDecision
decision_of facts [] = record {
  hour = facts.hour;
  prunable = true;
  reasons = [];
  segments = facts.segments;
}
decision_of facts (reason ∷ rest) = record {
  hour = facts.hour;
  prunable = false;
  reasons = reason ∷ rest;
  segments = [];
}

-- The arguments: facts, manifest, now_wall_ns, retention_hours, bake_version.
unfoldable pub decide : HourFacts → Option Manifest → ℕ → ℕ → ℕ → PruneDecision
unfolding check_segments check_parts
decide facts manifest now_wall_ns retention_hours bake_version = decision_of facts (
    in_order
      (with_unverified (
        review_entry facts bake_version (hour_entry facts manifest)
          (review_window facts now_wall_ns retention_hours)))
      prune_reasons)
