-- ===== src/Prune/Deletion/Records.antt =====
-- What the manifest records after `with_pruned`.
use kalshi_trading_project.Prelude.{◌≡◌, refl, ◌||◌, true, some, List, [], ◌∷◌, arith, All}
use kalshi_trading_project.Prelude.Eq.{string_eq}
use kalshi_trading_project.Prelude.Dict.{Dict, lookup, put, has}
use kalshi_trading_project.Prelude.DictLaws.{lookup-put}
use kalshi_trading_project.Manifest.{
  PrunedSegment, Manifest, pruned_by_path, set_default, record_all, insert_pruned, sorted_pruned,
  with_pruned,
}
use kalshi_trading_project.Prune.{is_pruned}
use Prim.Native.String.{String}

-- Every key is the path of its segment.
abbrev IsKeyed : Dict String PrunedSegment → Type 0
IsKeyed d = All (λ e. e.1.path ≡ e.0) d

put-IsKeyed :
    (s : PrunedSegment) (d : Dict String PrunedSegment) → IsKeyed d → IsKeyed (put s.path s d)
unfolding put
put-IsKeyed s [] h = (refl, tt)
put-IsKeyed s ((j, r) ∷ d) h = ground (arith, string_eq.beq_iff j s.path, put-IsKeyed s d h.1)

pruned_by_path-IsKeyed :
    (d : Dict String PrunedSegment) (ss : List PrunedSegment)
    → IsKeyed d
    → IsKeyed (pruned_by_path d ss)
pruned_by_path-IsKeyed d [] h = h
pruned_by_path-IsKeyed d (s ∷ ss) h = pruned_by_path-IsKeyed (put s.path s d) ss (put-IsKeyed s d h)

set_default-IsKeyed :
    (s : PrunedSegment) (d : Dict String PrunedSegment) → IsKeyed d → IsKeyed (set_default s d)
set_default-IsKeyed s d h = ground (arith, put-IsKeyed s d h)

record_all-IsKeyed :
    (d : Dict String PrunedSegment) (ss : List PrunedSegment)
    → IsKeyed d
    → IsKeyed (record_all d ss)
record_all-IsKeyed d [] h = h
record_all-IsKeyed d (s ∷ ss) h =
    record_all-IsKeyed (set_default s d) ss (set_default-IsKeyed s d h)

has-set_default :
    (path : String) (s : PrunedSegment) (d : Dict String PrunedSegment)
    → has (lookup path (set_default s d)) ≡ (string_eq.beq s.path path || has (lookup path d))
has-set_default path s d = ground (arith, lookup-put s.path path s d, string_eq.beq_iff s.path path)

has-record_all :
    (path : String) (d : Dict String PrunedSegment) (ss : List PrunedSegment)
    → has (lookup path (record_all d ss)) ≡ (has (lookup path d) || is_pruned path ss)
has-record_all path d [] = ground arith
has-record_all path d (s ∷ ss) =
    ground (arith, has-record_all path (set_default s d) ss, has-set_default path s d)

is_pruned-insert_pruned :
    (path : String) (s : PrunedSegment) (ss : List PrunedSegment)
    → is_pruned path (insert_pruned s ss) ≡ (string_eq.beq s.path path || is_pruned path ss)
is_pruned-insert_pruned path s [] = refl
is_pruned-insert_pruned path s (r ∷ rs) = ground (arith, is_pruned-insert_pruned path s rs)

is_pruned-sorted_pruned :
    (path : String) (d : Dict String PrunedSegment)
    → IsKeyed d
    → is_pruned path (sorted_pruned d) ≡ has (lookup path d)
unfolding lookup
is_pruned-sorted_pruned path [] h = refl
is_pruned-sorted_pruned path ((j, s) ∷ d) h = ground (
  arith,
  is_pruned-insert_pruned path s (sorted_pruned d),
  is_pruned-sorted_pruned path d h.1,
  string_eq.beq_iff s.path path,
  string_eq.beq_iff j path,
)

pub is_pruned-with_pruned :
    (path : String) (m m' : Manifest) (ss : List PrunedSegment)
    → with_pruned m ss ≡ some m'
    → is_pruned path ss ≡ true
    → is_pruned path m'.pruned ≡ true
unfolding with_pruned
is_pruned-with_pruned path m m' ss h k =
    let start = pruned_by_path [] m.pruned in
    ground (
      arith,
      has-record_all path start ss,
      is_pruned-sorted_pruned path (record_all start ss)
          (record_all-IsKeyed start ss (pruned_by_path-IsKeyed [] m.pruned tt)),
    )
