-- ===== src/Planner/Assigned.antt =====
-- The assignment of src/tape/recorder/planner.py `plan`.
use kalshi_trading_project.Prelude.{
  ℕ, zero, suc, ◌+◌, ◌≤◌, ◌<◌, ◌≡◌, refl, ap, ◌∙◌, inl, inr, ◌==◌, ◌&&◌, ltb, leb, true, false,
  none, some, List, [], ◌∷◌, length, take, arith, All, if◌then◌else◌, if_cases, Bool-cases,
}
use kalshi_trading_project.Prelude.Eq.{nat_eq, string_eq}
use kalshi_trading_project.Prelude.Dict.{Dict, lookup, IsDistinct}
use kalshi_trading_project.Prelude.DictLaws.{lookup-put, put-IsDistinct}
use Prim.Native.String.{String}
use kalshi_trading_project.Planner.{Group, is_member}
use kalshi_trading_project.Planner.Pieces.{is_member-append}
use kalshi_trading_project.Planner.Deal.{
  Members, members_at, still_wanted, keep_some, carry_over, room_of, placed_in,
}
use kalshi_trading_project.Planner.Dealing.{IsRoom}

lookup-room_of :
    (s n cap : ℕ) (m : Members) (c : ℕ)
    → lookup c (room_of s n cap m) ≡ (
        if (leb s c && ltb c (s + n)) && ltb (length (members_at c m)) cap
        then some (length (members_at c m))
        else none)
unfolding room_of lookup
lookup-room_of s zero cap m c = ground arith
lookup-room_of s (suc n) cap m c =
    if_cases
      (λ (r : Dict ℕ ℕ). lookup c r ≡ (
        if (leb s c && ltb c (s + suc n)) && ltb (length (members_at c m)) cap
        then some (length (members_at c m))
        else none))
      (ltb (length (members_at s m)) cap) (λ e. ground (arith, lookup-room_of (s + 1) n cap m c))
      (λ e. ground (arith, lookup-room_of (s + 1) n cap m c))

room_of-IsDistinct : (s n cap : ℕ) (m : Members) → IsDistinct (room_of s n cap m)
unfolding room_of
room_of-IsDistinct s zero cap m = tt
room_of-IsDistinct s (suc n) cap m =
    if_cases (λ (r : Dict ℕ ℕ). IsDistinct r) (ltb (length (members_at s m)) cap)
      (λ e. (ground (arith, lookup-room_of (s + 1) n cap m s), room_of-IsDistinct (s + 1) n cap m))
      (λ e. room_of-IsDistinct (s + 1) n cap m)

pub room_of-IsRoom :
    (cap max_connections : ℕ) (m : Members)
    → IsRoom cap max_connections m (room_of 0 max_connections cap m)
room_of-IsRoom cap max_connections m = record {
  distinct = room_of-IsDistinct 0 max_connections cap m;
  loads = λ c. ground (arith, lookup-room_of 0 max_connections cap m c);
}

is_member-still_wanted :
    (t : String) (ts desired : List String)
    → is_member t (still_wanted ts desired)
      ≡ (if is_member t desired then is_member t ts else false)
unfolding still_wanted
is_member-still_wanted t [] desired = ground arith
is_member-still_wanted t (u ∷ ts) desired =
    ground (arith, is_member-still_wanted t ts desired, string_eq.beq_iff u t)

length-still_wanted : (ts desired : List String) → length (still_wanted ts desired) ≤ length ts
unfolding still_wanted
length-still_wanted [] desired = omega arith
length-still_wanted (u ∷ ts) desired = ground (arith, length-still_wanted ts desired)

take_all : (n : ℕ) (ts : List String) → length ts ≤ n → take n ts ≡ ts
take_all zero [] h = refl
take_all zero (t ∷ ts) h = ground (arith, h)
take_all (suc n) [] h = refl
take_all (suc n) (t ∷ ts) h = ap (λ us. t ∷ us) (take_all n ts (omega (arith, h)))

take-bound : (n : ℕ) (ts : List String) → length (take n ts) ≤ n
take-bound zero ts = omega arith
take-bound (suc n) [] = omega arith
take-bound (suc n) (t ∷ ts) = omega (arith, take-bound n ts)

take-member :
    (n : ℕ) (ts : List String) (t : String) → is_member t (take n ts) ≡ true → is_member t ts ≡ true
take-member zero ts t h = ground arith
take-member (suc n) [] t h = h
take-member (suc n) (u ∷ ts) t h = ground (arith, take-member n ts t)

abbrev or_kept : List String → List String → List String
or_kept [] now = now
or_kept (t ∷ ts) now = t ∷ ts

members_at-keep_some :
    (c d : ℕ) (ts : List String) (m : Members)
    → members_at d (keep_some c ts m)
      ≡ (if c == d then or_kept ts (members_at c m) else members_at d m)
unfolding members_at
members_at-keep_some c d [] m = ground arith
members_at-keep_some c d (t ∷ ts) m = ground (arith, lookup-put c d (t ∷ ts) m)

keep_some-IsDistinct :
    (c : ℕ) (ts : List String) (m : Members) → IsDistinct m → IsDistinct (keep_some c ts m)
keep_some-IsDistinct c [] m h = h
keep_some-IsDistinct c (t ∷ ts) m h = put-IsDistinct c (t ∷ ts) m h

-- A member that was placed is on some connection.
pub placed_at :
    (t : String) (m : Members)
    → IsDistinct m
    → is_member t (placed_in m) ≡ true
    → (c : ℕ) × (is_member t (members_at c m) ≡ true)
unfolding placed_in members_at lookup
placed_at t [] h e = ground arith
placed_at t ((c, ts) ∷ m) h e = elim (Bool-cases (is_member t ts)) [
  | inl k ↦ (c, ground arith)
  | inr k ↦
      let (d, at) = placed_at t m h.1 (ground (arith, is_member-append t ts (placed_in m))) in
      (d, ground (arith, h.0))
]

-- The members that are carried over.
pub record IsCarried (desired : List String) (cap max_connections : ℕ) (m : Members) : Type 0 where
  pub distinct : IsDistinct m
  pub capped : (c : ℕ) → length (members_at c m) ≤ cap
  pub bounded : (c : ℕ) → max_connections ≤ c → members_at c m ≡ []
  pub only : (t : String) (c : ℕ) → is_member t (members_at c m) ≡ true → is_member t desired ≡ true

pub none-IsCarried :
    (desired : List String) (cap max_connections : ℕ) → IsCarried desired cap max_connections []
unfolding members_at lookup
none-IsCarried desired cap max_connections = record {
  distinct = tt;
  capped = λ c. ground arith;
  bounded = λ c h. refl;
  only = λ t c e. ground arith;
}

keep_some-IsCarried :
    (desired : List String) (cap max_connections : ℕ) (c : ℕ) (ts : List String) (m : Members)
    → c < max_connections
    → length ts ≤ cap
    → ((t : String) → is_member t ts ≡ true → is_member t desired ≡ true)
    → IsCarried desired cap max_connections m
    → IsCarried desired cap max_connections (keep_some c ts m)
keep_some-IsCarried desired cap max_connections c [] m i short wanted h = h
keep_some-IsCarried desired cap max_connections c (t ∷ ts) m i short wanted h = record {
  distinct = keep_some-IsDistinct c (t ∷ ts) m h.distinct;
  capped = λ d. ground (arith, members_at-keep_some c d (t ∷ ts) m, h.capped d);
  bounded = λ d k. members_at-keep_some c d (t ∷ ts) m ∙ ground (arith, h.bounded d);
  only = λ u d e. ground (arith, members_at-keep_some c d (t ∷ ts) m, h.only u d, wanted u);
}

kept_of : ℕ → List String → List String → List String
kept_of cap desired ts = take cap (still_wanted ts desired)

pub carry_over-IsCarried :
    (gs : List Group) (desired : List String) (cap max_connections : ℕ) (m : Members)
    → IsCarried desired cap max_connections m
    → IsCarried desired cap max_connections (carry_over gs desired cap max_connections m)
unfolding carry_over
carry_over-IsCarried [] desired cap max_connections m h = h
carry_over-IsCarried (g ∷ gs) desired cap max_connections m h =
    carry_over-IsCarried gs desired cap max_connections _ (
      if_cases (IsCarried desired cap max_connections) (leb max_connections g.conn_id) (λ e. h)
        (λ e.
          keep_some-IsCarried desired cap max_connections g.conn_id
            (take cap (still_wanted g.tickers desired)) m (ground arith)
            (take-bound cap (still_wanted g.tickers desired))
            (λ t k. ground (
              arith,
              take-member cap (still_wanted g.tickers desired) t,
              is_member-still_wanted t g.tickers desired,
            ))
            h))

-- No connection has two groups, as the constructor of a plan tests.
abbrev pub AreDistinctConnections : List Group → Type 0
AreDistinctConnections [] = Unit
AreDistinctConnections (g ∷ gs) =
    All (λ (h : Group). (h.conn_id == g.conn_id) ≡ false) gs × AreDistinctConnections gs

carry_over-other :
    (gs : List Group) (desired : List String) (cap max_connections : ℕ) (m : Members) (c : ℕ)
    → All (λ (h : Group). (h.conn_id == c) ≡ false) gs
    → members_at c (carry_over gs desired cap max_connections m) ≡ members_at c m
unfolding carry_over
carry_over-other [] desired cap max_connections m c h = refl
carry_over-other (g ∷ gs) desired cap max_connections m c h =
    carry_over-other gs desired cap max_connections _ c h.1
    ∙ if_cases (λ (x : Members). members_at c x ≡ members_at c m) (leb max_connections g.conn_id)
        (λ e. refl)
        (λ e.
          members_at-keep_some g.conn_id c (take cap (still_wanted g.tickers desired)) m
          ∙ rw (h.0) refl)

-- The wanted members of a group whose connection exists and that fits.
abbrev pub IsRetained : ℕ → ℕ → List String → Members → Group → Type 0
IsRetained cap max_connections desired m g =
    g.conn_id < max_connections
    → length g.tickers ≤ cap
    → (t : String) → is_member t g.tickers ≡ true
    → is_member t desired ≡ true
    → is_member t (members_at g.conn_id m) ≡ true

kept-IsRetained :
    (g : Group) (gs : List Group) (desired : List String) (cap max_connections : ℕ) (m : Members)
    → All (λ (h : Group). (h.conn_id == g.conn_id) ≡ false) gs
    → IsRetained cap max_connections desired (carry_over (g ∷ gs) desired cap max_connections m) g
unfolding carry_over
kept-IsRetained g gs desired cap max_connections m others i fits t is_in wanted =
    let ts = still_wanted g.tickers desired in
    let whole : take cap ts ≡ ts =
      take_all cap ts (omega (arith, length-still_wanted g.tickers desired, fits)) in
    ap (is_member t) (
      carry_over-other gs desired cap max_connections _ g.conn_id others
      ∙ ap (members_at g.conn_id) (no_limit i)
      ∙ members_at-keep_some g.conn_id g.conn_id (take cap ts) m)
    ∙ held (take cap ts)
        (ap (is_member t) whole ∙ is_member-still_wanted t g.tickers desired ∙ ground arith)
  where
    no_limit :
        g.conn_id < max_connections
        → (if leb max_connections g.conn_id
            then m
            else keep_some g.conn_id (take cap (still_wanted g.tickers desired)) m)
          ≡ keep_some g.conn_id (take cap (still_wanted g.tickers desired)) m
    no_limit i = rw (exists i) refl
      where
        exists : g.conn_id < max_connections → leb max_connections g.conn_id ≡ false
        exists i = ground arith

    held :
        (us : List String)
        → is_member t us ≡ true
        → is_member t (
            if g.conn_id == g.conn_id
            then or_kept us (members_at g.conn_id m)
            else members_at g.conn_id m)
          ≡ true
    held [] e = ground arith
    held (u ∷ us) e = ground arith

pub carry_over-IsRetained :
    (gs : List Group) (desired : List String) (cap max_connections : ℕ) (m : Members)
    → AreDistinctConnections gs
    → All (IsRetained cap max_connections desired (carry_over gs desired cap max_connections m)) gs
unfolding carry_over
carry_over-IsRetained [] desired cap max_connections m h = tt
carry_over-IsRetained (g ∷ gs) desired cap max_connections m h = (
  kept-IsRetained g gs desired cap max_connections m h.0,
  carry_over-IsRetained gs desired cap max_connections _ h.1,
)
