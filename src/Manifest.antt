-- ===== src/Manifest.antt =====
-- src/tape/bake/manifest.py: the day's manifest, in the fields that prune reads and writes (a bake's
-- integrity facts and the day's summaries are left out), and `HourKey` of src/tape/bake/layout.py.
-- A date is its number of days since 1970-01-01, text is a native string, and the tables stand in the
-- order of their names.
use kalshi_trading_project.Prelude.{
  ℕ, ◌+◌, ◌*◌, ◌==◌, Bool, true, false, ◌&&◌, Option, none, some, List, [], ◌∷◌, ◌++◌,
  if◌then◌else◌,
}
use kalshi_trading_project.Prelude.Dict.{Dict, lookup, put, has}
use kalshi_trading_project.Prelude.Eq.{string_eq}
use Prim.Native.String.{String, compare}
use text.Mathlib.Text.{is_lt}

abbrev pub ns_per_hour : ℕ
ns_per_hour = 3_600_000_000_000

pub record HourKey : Type 0 where
  pub date : ℕ
  pub hour : ℕ

abbrev pub start_wall_ns : HourKey → ℕ
start_wall_ns h = (h.date * 24 + h.hour) * ns_per_hour

abbrev pub end_wall_ns : HourKey → ℕ
end_wall_ns h = start_wall_ns h + ns_per_hour

pub record RecordAccounting : Type 0 where
  pub records : Dict String ℕ
  pub baked : Dict String ℕ
  pub not_baked : Dict String ℕ
  pub decode_failures : Dict String ℕ
  pub corrupt_segments : ℕ

abbrev pub sum_values : Dict String ℕ → ℕ
sum_values [] = 0
sum_values ((_, n) ∷ d) = n + sum_values d

abbrev pub total : RecordAccounting → ℕ
total a = sum_values a.records

abbrev pub failures : RecordAccounting → ℕ
failures a = sum_values a.decode_failures + a.corrupt_segments

pub record HourBake : Type 0 where
  pub hour : ℕ
  pub bake_version : ℕ
  pub software_version : String
  pub accounting : RecordAccounting

pub record SegmentEntry : Type 0 where
  pub path : String
  pub hour : ℕ
  pub bytes : ℕ
  pub sha256 : String
  pub records : ℕ
  pub first_recv_wall_ns : Option ℕ
  pub last_recv_wall_ns : Option ℕ
  pub truncated : Bool

pub record PartEntry : Type 0 where
  pub path : String
  pub hour : ℕ
  pub rows : ℕ
  pub bytes : ℕ
  pub sha256 : String

pub record TableEntry : Type 0 where
  pub rows : ℕ
  pub files : List PartEntry

pub record PrunedSegment : Type 0 where
  pub path : String
  pub bytes : ℕ
  pub sha256 : String
  pub pruned_wall_ns : ℕ

pub record Manifest : Type 0 where
  pub date : ℕ
  pub software_version : String
  pub segments : List SegmentEntry
  pub tables : List TableEntry
  pub hours : List HourBake
  pub pruned : List PrunedSegment

abbrev pub bake_of : ℕ → List HourBake → Option HourBake
bake_of hour [] = none
bake_of hour (e ∷ es) = let rest = bake_of hour es in if e.hour == hour then some e else rest

unfoldable pub hour_bake : ℕ → Manifest → Option HourBake
hour_bake hour m = bake_of hour m.hours

abbrev segments_of : ℕ → List SegmentEntry → List SegmentEntry
segments_of hour [] = []
segments_of hour (s ∷ ss) =
    let rest = segments_of hour ss in if s.hour == hour then s ∷ rest else rest

unfoldable pub hour_segments : ℕ → Manifest → List SegmentEntry
hour_segments hour m = segments_of hour m.segments

abbrev parts_of : ℕ → List PartEntry → List PartEntry
parts_of hour [] = []
parts_of hour (p ∷ ps) = let rest = parts_of hour ps in if p.hour == hour then p ∷ rest else rest

abbrev parts_of_tables : ℕ → List TableEntry → List PartEntry
parts_of_tables hour [] = []
parts_of_tables hour (t ∷ ts) = parts_of hour t.files ++ parts_of_tables hour ts

unfoldable pub hour_parts : ℕ → Manifest → List PartEntry
hour_parts hour m = parts_of_tables hour m.tables

-- {entry.path: entry for entry in manifest.pruned}
abbrev pub pruned_by_path :
    Dict String PrunedSegment → List PrunedSegment → Dict String PrunedSegment
pruned_by_path d [] = d
pruned_by_path d (s ∷ ss) = pruned_by_path (put s.path s d) ss

abbrev pub set_default : PrunedSegment → Dict String PrunedSegment → Dict String PrunedSegment
set_default s d = if has (lookup s.path d) then d else put s.path s d

abbrev pub record_all : Dict String PrunedSegment → List PrunedSegment → Dict String PrunedSegment
record_all d [] = d
record_all d (s ∷ ss) = record_all (set_default s d) ss

abbrev pub insert_pruned : PrunedSegment → List PrunedSegment → List PrunedSegment
insert_pruned s [] = s ∷ []
insert_pruned s (r ∷ rs) =
    let rest = insert_pruned s rs in if is_lt (compare r.path s.path) then r ∷ rest else s ∷ r ∷ rs

-- sorted(recorded.values(), key=path)
abbrev pub sorted_pruned : Dict String PrunedSegment → List PrunedSegment
sorted_pruned [] = []
sorted_pruned ((path, s) ∷ d) = insert_pruned s (sorted_pruned d)

abbrev pub segment_at : String → List SegmentEntry → Option SegmentEntry
segment_at path [] = none
segment_at path (s ∷ ss) =
    let rest = segment_at path ss in if string_eq.beq s.path path then some s else rest

abbrev pub is_match : Option SegmentEntry → PrunedSegment → Bool
is_match none s = false
is_match (some e) s = (e.bytes == s.bytes) && string_eq.beq e.sha256 s.sha256

abbrev pub are_listed : List SegmentEntry → List PrunedSegment → Bool
are_listed listed [] = true
are_listed listed (s ∷ ss) = is_match (segment_at s.path listed) s && are_listed listed ss

-- None stands for `ValueError`; the other checks on construction are about fields that do not change.
unfoldable pub with_pruned : Manifest → List PrunedSegment → Option Manifest
unfolding lookup put
with_pruned m pruned =
    let recorded = sorted_pruned (record_all (pruned_by_path [] m.pruned) pruned) in
    if are_listed m.segments recorded then some (record m { pruned = recorded }) else none
