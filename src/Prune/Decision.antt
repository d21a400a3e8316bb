-- ===== src/Prune/Decision.antt =====
-- What a decision says: prunable exactly when every condition holds.
use kalshi_trading_project.Prelude.{
  ℕ, ◌+◌, ◌*◌, ◌<◌, ◌≡◌, ◌↔◌, refl, Bool, true, false, Option, none, some, List, [], ◌∷◌, arith,
  All, if◌then◌else◌, ◌==◌, ==_iff, ◌⊎◌,
}
use kalshi_trading_project.Prelude.Eq.{string_eq}
use kalshi_trading_project.Prelude.Dict.{Dict, lookup}
use kalshi_trading_project.Manifest.{
  ns_per_hour, end_wall_ns, failures, HourBake, SegmentEntry, PartEntry, PrunedSegment, Manifest,
  hour_bake, hour_segments, hour_parts,
}
use kalshi_trading_project.Prune.{
  PruneReason, inside_retention_window, not_baked, bake_version_stale, segment_added,
  segment_changed, segment_missing, decode_failures, baked_file_missing, baked_file_changed,
  unverified, prune_reasons, SegmentOnDisk, PartOnDisk, HourFacts, Review, add, in_order,
  judge_hash, judge_segment, segments_by_path, judge_segments, is_on_disk, is_pruned, any_missing,
  check_segments, parts_by_path, judge_part, judge_parts, check_parts, paired, hour_entry,
  review_entry, review_window, with_unverified, decision_of, decide,
}
use Prim.Native.String.{String}

-- No reason was found and no check was skipped.
abbrev IsClean : Review → Type 0
IsClean r = (r.found ≡ []) × (r.skipped ≡ false)

-- A segment on disk is the one that the bake read, verified by its hash.
abbrev pub IsSame : Option SegmentEntry → SegmentOnDisk → Type 0
IsSame none s = ⊥
IsSame (some e) s = (s.bytes ≡ e.bytes) × (s.sha256 ≡ some e.sha256)

abbrev pub IsBaked : Dict String SegmentEntry → SegmentOnDisk → Type 0
IsBaked baked s = IsSame (lookup s.path baked) s

-- A segment that the bake read is on disk or recorded as pruned.
abbrev pub IsKept : List SegmentOnDisk → List PrunedSegment → String × SegmentEntry → Type 0
IsKept on_disk pruned listed =
    (is_on_disk listed.0 on_disk ≡ true) ⊎ (is_pruned listed.0 pruned ≡ true)

-- A part file that the bake wrote is on disk with its hash.
abbrev pub IsIntact : PartEntry → Option PartOnDisk → Type 0
IsIntact e none = ⊥
IsIntact e (some p) = (p.exists ≡ true) × (p.sha256 ≡ some e.sha256)

abbrev pub IsWritten : Dict String PartOnDisk → PartEntry → Type 0
IsWritten found e = IsIntact e (lookup e.path found)

-- A bake under which the raw segments of its hour are safe to lose.
pub record IsSafe (facts : HourFacts) (version : ℕ) (m : Manifest) (entry : HourBake) : Type 0 where
  pub current : entry.bake_version ≡ version
  pub complete : failures entry.accounting ≡ 0
  pub unchanged :
      All (IsBaked (segments_by_path [] (hour_segments facts.hour.hour m))) facts.segments
  pub present :
      All (IsKept facts.segments m.pruned) (segments_by_path [] (hour_segments facts.hour.hour m))
  pub written : All (IsWritten (parts_by_path [] facts.parts)) (hour_parts facts.hour.hour m)

abbrev pub IsSafeBake : HourFacts → ℕ → Manifest → Option HourBake → Type 0
IsSafeBake facts version m none = ⊥
IsSafeBake facts version m (some entry) = IsSafe facts version m entry

abbrev pub IsSafeDay : HourFacts → ℕ → Option Manifest → Type 0
IsSafeDay facts version none = ⊥
IsSafeDay facts version (some m) =
    (m.date ≡ facts.hour.date) × IsSafeBake facts version m (hour_bake facts.hour.hour m)

judge_hash-IsClean :
    (digest : Option String) (expected : String) (reason : PruneReason) (r : Review)
    → IsClean (judge_hash digest expected reason r) ↔ (IsClean r × (digest ≡ some expected))
judge_hash-IsClean none expected reason r = ground arith
judge_hash-IsClean (some d) expected reason r = ground (arith, string_eq.beq_iff d expected)

judge_segment-IsClean :
    (found : Option SegmentEntry) (s : SegmentOnDisk) (r : Review)
    → IsClean (judge_segment found s r) ↔ (IsClean r × IsSame found s)
judge_segment-IsClean none s r = ground arith
judge_segment-IsClean (some e) s r =
    ground (arith, judge_hash-IsClean s.sha256 e.sha256 segment_changed r)

judge_segments-IsClean :
    (baked : Dict String SegmentEntry) (ss : List SegmentOnDisk) (r : Review)
    → IsClean (judge_segments baked ss r) ↔ (IsClean r × All (IsBaked baked) ss)
judge_segments-IsClean baked [] r = ground arith
judge_segments-IsClean baked (s ∷ ss) r =
    let rest = judge_segments-IsClean baked ss (judge_segment (lookup s.path baked) s r) in
    let first = judge_segment-IsClean (lookup s.path baked) s r in
    (
      λ h. ((first.0 (rest.0 h).0).0, ((first.0 (rest.0 h).0).1, (rest.0 h).1)),
      λ h. rest.1 (first.1 (h.0, h.1.0), h.1.1),
    )

any_missing-IsKept :
    (on_disk : List SegmentOnDisk) (pruned : List PrunedSegment) (d : Dict String SegmentEntry)
    → (any_missing on_disk pruned d ≡ false) ↔ All (IsKept on_disk pruned) d
any_missing-IsKept on_disk pruned [] = ground arith
any_missing-IsKept on_disk pruned ((path, e) ∷ d) =
    ground (arith, any_missing-IsKept on_disk pruned d)

judge_part-IsClean :
    (e : PartEntry) (found : Option PartOnDisk) (r : Review)
    → IsClean (judge_part e found r) ↔ (IsClean r × IsIntact e found)
judge_part-IsClean e none r = ground arith
judge_part-IsClean e (some p) r =
    ground (arith, judge_hash-IsClean p.sha256 e.sha256 baked_file_changed r)

judge_parts-IsClean :
    (found : Dict String PartOnDisk) (ps : List PartEntry) (r : Review)
    → IsClean (judge_parts found ps r) ↔ (IsClean r × All (IsWritten found) ps)
judge_parts-IsClean found [] r = ground arith
judge_parts-IsClean found (p ∷ ps) r =
    let rest = judge_parts-IsClean found ps (judge_part p (lookup p.path found) r) in
    let first = judge_part-IsClean p (lookup p.path found) r in
    (
      λ h. ((first.0 (rest.0 h).0).0, ((first.0 (rest.0 h).0).1, (rest.0 h).1)),
      λ h. rest.1 (first.1 (h.0, h.1.0), h.1.1),
    )

-- Every reason has a place in the order, so none is lost.
in_order-is_empty :
    (reasons : List PruneReason) → (in_order reasons prune_reasons ≡ []) ↔ (reasons ≡ [])
in_order-is_empty [] = (λ _. refl, λ _. refl)
in_order-is_empty (inside_retention_window ∷ rest) = ground arith
in_order-is_empty (not_baked ∷ rest) = ground arith
in_order-is_empty (bake_version_stale ∷ rest) = ground arith
in_order-is_empty (segment_added ∷ rest) = ground arith
in_order-is_empty (segment_changed ∷ rest) = ground arith
in_order-is_empty (segment_missing ∷ rest) = ground arith
in_order-is_empty (decode_failures ∷ rest) = ground arith
in_order-is_empty (baked_file_missing ∷ rest) = ground arith
in_order-is_empty (baked_file_changed ∷ rest) = ground arith
in_order-is_empty (unverified ∷ rest) = ground arith

check_segments-IsClean :
    (facts : HourFacts) (m : Manifest) (r : Review)
    → IsClean (check_segments facts m r) ↔ (
        IsClean r
        × (All (IsBaked (segments_by_path [] (hour_segments facts.hour.hour m))) facts.segments
            × All
                (IsKept facts.segments m.pruned)
                (segments_by_path [] (hour_segments facts.hour.hour m))))
unfolding check_segments
check_segments-IsClean facts m r =
    let baked = segments_by_path [] (hour_segments facts.hour.hour m) in
    ground (
      arith,
      judge_segments-IsClean baked facts.segments r,
      any_missing-IsKept facts.segments m.pruned baked,
    )

check_parts-IsClean :
    (facts : HourFacts) (m : Manifest) (r : Review)
    → IsClean (check_parts facts m r)
      ↔ (IsClean r × All (IsWritten (parts_by_path [] facts.parts)) (hour_parts facts.hour.hour m))
unfolding check_parts
check_parts-IsClean facts m r =
    judge_parts-IsClean (parts_by_path [] facts.parts) (hour_parts facts.hour.hour m) r

-- The review of a baked hour, before the files are compared.
abbrev after_bake : HourBake → ℕ → Review → Review
after_bake entry version r =
    let r1 = if entry.bake_version == version then r else add bake_version_stale r in
    if failures entry.accounting == 0 then r1 else add decode_failures r1

after_bake-IsClean :
    (entry : HourBake) (version : ℕ) (r : Review)
    → IsClean (after_bake entry version r)
      ↔ (IsClean r × ((entry.bake_version ≡ version) × (failures entry.accounting ≡ 0)))
after_bake-IsClean entry version r = ground arith

review_window-IsClean :
    (facts : HourFacts) (now hours : ℕ)
    → IsClean (review_window facts now hours) ↔ (end_wall_ns facts.hour + hours * ns_per_hour < now)
review_window-IsClean facts now hours = ground arith

with_unverified-is_empty : (r : Review) → (with_unverified r ≡ []) ↔ IsClean r
with_unverified-is_empty r = ground arith

review_bake-IsClean :
    (facts : HourFacts) (version : ℕ) (m : Manifest) (entry : HourBake) (r : Review)
    → IsClean (review_entry facts version (some (m, entry)) r)
      ↔ (IsClean r × IsSafe facts version m entry)
review_bake-IsClean facts version m entry r =
    let bake = after_bake-IsClean entry version r in
    let segments = check_segments-IsClean facts m (after_bake entry version r) in
    let parts = check_parts-IsClean facts m (check_segments facts m (after_bake entry version r)) in
    (
      λ h.
          let (at_segments, written) = parts.0 h in
          let (at_bake, (unchanged, present)) = segments.0 at_segments in
          let (at_start, (current, complete)) = bake.0 at_bake in
          (
            at_start,
            record {
              current = current;
              complete = complete;
              unchanged = unchanged;
              present = present;
              written = written;
            },
          ),
      λ (h, safe). parts.1 (
        segments.1 (bake.1 (h, (safe.current, safe.complete)), (safe.unchanged, safe.present)),
        safe.written,
      ),
    )

review_found-IsClean :
    (facts : HourFacts) (version : ℕ) (m : Manifest) (found : Option HourBake) (r : Review)
    → IsClean (review_entry facts version (paired m found) r)
      ↔ (IsClean r × IsSafeBake facts version m found)
review_found-IsClean facts version m none r = ground arith
review_found-IsClean facts version m (some entry) r = review_bake-IsClean facts version m entry r

review_if-IsClean :
    (facts : HourFacts) (version : ℕ) (m : Manifest) (found : Option HourBake) (same : Bool)
    (r : Review)
    → IsClean (review_entry facts version (if same then paired m found else none) r)
      ↔ (IsClean r × ((same ≡ true) × IsSafeBake facts version m found))
review_if-IsClean facts version m found true r =
    let step = review_found-IsClean facts version m found r in
    (λ h. ((step.0 h).0, (refl, (step.0 h).1)), λ h. step.1 (h.0, h.1.1))
review_if-IsClean facts version m found false r = ground arith

review_day-IsClean :
    (facts : HourFacts) (version : ℕ) (manifest : Option Manifest) (r : Review)
    → IsClean (review_entry facts version (hour_entry facts manifest) r)
      ↔ (IsClean r × IsSafeDay facts version manifest)
review_day-IsClean facts version none r = ground arith
review_day-IsClean facts version (some m) r =
    let found = hour_bake facts.hour.hour m in
    let step = review_if-IsClean facts version m found (m.date == facts.hour.date) r in
    let same = ==_iff m.date facts.hour.date in
    (
      λ h. ((step.0 h).0, (same.0 (step.0 h).1.0, (step.0 h).1.1)),
      λ h. step.1 (h.0, (same.1 h.1.0, h.1.1)),
    )

decision_of-prunable :
    (facts : HourFacts) (reasons : List PruneReason)
    → ((decision_of facts reasons).prunable ≡ true) ↔ (reasons ≡ [])
decision_of-prunable facts [] = ground arith
decision_of-prunable facts (r ∷ rs) = ground arith

decision_of-segments :
    (facts : HourFacts) (reasons : List PruneReason)
    → (decision_of facts reasons).segments
      ≡ (if (decision_of facts reasons).prunable then facts.segments else [])
decision_of-segments facts [] = refl
decision_of-segments facts (r ∷ rs) = refl

-- An hour is prunable exactly when its retention ended before now, the manifest is of its day and has
-- a bake of it by the current version with no failure, every segment on disk has the size and the
-- hash that the bake read, every segment read is on disk or recorded as pruned, and every part file
-- written is on disk with its hash. The segments to delete are those of the hour if it is prunable,
-- and none otherwise.
pub decide-IsSafeDay :
    (facts : HourFacts) (manifest : Option Manifest) (now hours version : ℕ)
    → (((decide facts manifest now hours version).prunable ≡ true)
        ↔ ((end_wall_ns facts.hour + hours * ns_per_hour < now) × IsSafeDay facts version manifest))
      × ((decide facts manifest now hours version).segments
          ≡ (if (decide facts manifest now hours version).prunable then facts.segments else []))
unfolding decide
decide-IsSafeDay facts manifest now hours version =
    let start = review_window facts now hours in
    let r = review_entry facts version (hour_entry facts manifest) start in
    let reasons = with_unverified r in
    let decided = decision_of-prunable facts (in_order reasons prune_reasons) in
    let ordered = in_order-is_empty reasons in
    let clean = with_unverified-is_empty r in
    let day = review_day-IsClean facts version manifest start in
    let window = review_window-IsClean facts now hours in
    (
      (
        λ h.
            let (at_start, safe) = day.0 (clean.0 (ordered.0 (decided.0 h))) in
            (window.0 at_start, safe),
        λ h. decided.1 (ordered.1 (clean.1 (day.1 (window.1 h.0, h.1)))),
      ),
      decision_of-segments facts (in_order reasons prune_reasons),
    )
