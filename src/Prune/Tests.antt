-- ===== src/Prune/Tests.antt =====
-- A day with one baked hour, and the theorems at it.
use kalshi_trading_project.Prelude.{
  ℕ, ◌≡◌, refl, true, false, some, none, [], ◌∷◌, if◌then◌else◌, ◌+◌, ◌*◌, ◌<◌, ◌↔◌,
}
use kalshi_trading_project.Manifest.{
  HourKey, ns_per_hour, end_wall_ns, Manifest, hour_segments, hour_parts, hour_bake,
}
use kalshi_trading_project.Prune.{
  HourFacts, decide, check_segments, check_parts, unverified, segment_added, segment_missing,
  inside_retention_window,
}
use kalshi_trading_project.Prelude.Dict.{lookup, put}
use kalshi_trading_project.Prelude.{List, take}
use kalshi_trading_project.Manifest.{with_pruned}
use kalshi_trading_project.Prune.Deletion.{
  Effect, writes_manifest, unlinks, removes_if_empty, prune_day, perform_all, is_recorded,
}
use kalshi_trading_project.Prune.Deletion.Crash.{is_recorded-prune_day}
use kalshi_trading_project.Prune.Decision.{IsSafeDay, decide-IsSafeDay}

abbrev three_o_clock : HourKey
three_o_clock = record { date = 20_000; hour = 3 }

abbrev day : Manifest
day = record {
  date = 20_000;
  software_version = "1.0";
  segments =
      record {
        path = "a";
        hour = 3;
        bytes = 7;
        sha256 = "ha";
        records = 2;
        first_recv_wall_ns = none;
        last_recv_wall_ns = none;
        truncated = false;
      }
      ∷ [];
  tables =
      record {
        rows = 5;
        files = record { path = "p"; hour = 3; rows = 5; bytes = 9; sha256 = "hp" } ∷ [];
      }
      ∷ [];
  hours =
      record {
        hour = 3;
        bake_version = 4;
        software_version = "1.0";
        accounting = record {
          records = ("frame", 2) ∷ [];
          baked = ("trade", 2) ∷ [];
          not_baked = [];
          decode_failures = [];
          corrupt_segments = 0;
        };
      }
      ∷ [];
  pruned = [];
}

abbrev hashed_facts : HourFacts
hashed_facts = record {
  hour = three_o_clock;
  segments = record { path = "a"; bytes = 7; sha256 = some "ha" } ∷ [];
  parts = record { path = "p"; exists = true; sha256 = some "hp" } ∷ [];
}

abbrev bare_facts : HourFacts
bare_facts = record {
  hour = three_o_clock;
  segments = record { path = "a"; bytes = 7; sha256 = none } ∷ [];
  parts = record { path = "p"; exists = true; sha256 = none } ∷ [];
}

abbrev swapped_facts : HourFacts
swapped_facts = record {
  hour = three_o_clock;
  segments = record { path = "b"; bytes = 7; sha256 = none } ∷ [];
  parts = record { path = "p"; exists = true; sha256 = none } ∷ [];
}

abbrev later : ℕ
later = end_wall_ns three_o_clock + 48 * ns_per_hour + 1

unhashed_reasons : (decide bare_facts (some day) later 48 4).reasons ≡ unverified ∷ []
unfolding decide check_segments check_parts hour_bake hour_segments hour_parts lookup put
unhashed_reasons = refl

swapped_reasons :
    (decide swapped_facts (some day) (end_wall_ns three_o_clock) 48 4).reasons
    ≡ inside_retention_window ∷ segment_added ∷ segment_missing ∷ []
unfolding decide check_segments check_parts hour_bake hour_segments hour_parts lookup put
swapped_reasons = refl

decide-IsSafeDay_example :
    (((decide hashed_facts (some day) later 48 4).prunable ≡ true) ↔ (
      (end_wall_ns three_o_clock + 48 * ns_per_hour < later) × IsSafeDay hashed_facts 4 (some day)))
    × ((decide hashed_facts (some day) later 48 4).segments ≡ (
        if (decide hashed_facts (some day) later 48 4).prunable then hashed_facts.segments else []))
decide-IsSafeDay_example = decide-IsSafeDay hashed_facts (some day) later 48 4

hashed_is_prunable : (decide hashed_facts (some day) later 48 4).prunable ≡ true
unfolding decide check_segments check_parts hour_bake hour_segments hour_parts lookup put
hashed_is_prunable = refl

-- The manifest is written and then the file unlinked; the crash comes after both.
abbrev recorded_day : Manifest
recorded_day = record day {
  pruned = record { path = "a"; bytes = 7; sha256 = "ha"; pruned_wall_ns = 77 } ∷ [];
}

abbrev day_effects : List Effect
day_effects = writes_manifest recorded_day ∷ unlinks "a" ∷ removes_if_empty three_o_clock ∷ []

is_recorded-prune_day_example :
    is_recorded "a"
      (perform_all
        (take 2 day_effects)
        (record { manifest = some day; files = "a" ∷ "b" ∷ [] })).manifest
    ≡ true
unfolding prune_day with_pruned lookup put
is_recorded-prune_day_example =
    is_recorded-prune_day (some day) 77
      (record {
        hour = three_o_clock;
        prunable = true;
        reasons = [];
        segments = hashed_facts.segments;
      }
        ∷ [])
      recorded_day.pruned day_effects 2 ("a" ∷ "b" ∷ []) "a" refl refl refl
