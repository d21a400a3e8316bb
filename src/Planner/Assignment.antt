-- ===== src/Planner/Assignment.antt =====
-- What src/tape/recorder/planner.py `plan` assigns.
use kalshi_trading_project.Prelude.{
  ℕ, ◌+◌, ◌≤◌, ◌<◌, ◌≡◌, refl, ap, ◌∙◌, ◌⊎◌, inl, inr, leb, true, false, Option, some, List, [],
  ◌∷◌, length, arith, All, Bool-cases,
}
use kalshi_trading_project.Prelude.Dict.{lookup}
use Prim.Native.String.{String}
use kalshi_trading_project.Planner.{Group, is_member, without}
use kalshi_trading_project.Planner.Reached.{is_member-without}
use kalshi_trading_project.Planner.Diff.{Plan}
use kalshi_trading_project.Planner.Deal.{
  Members, members_at, carry_over, room_of, fill, placed_in, groups_of_plan, assign,
}
use kalshi_trading_project.Planner.Dealing.{IsFilled, fill-IsFilled}
use kalshi_trading_project.Planner.Assigned.{
  room_of-IsRoom, placed_at, IsCarried, none-IsCarried, carry_over-IsCarried,
  AreDistinctConnections, IsRetained, carry_over-IsRetained,
}

-- What an assignment of the wanted markets promises.
pub record IsAssigned (desired : List String) (cap max_connections : ℕ) (previous : List Group)
    (m : Members) : Type 0 where
  pub capped : (c : ℕ) → length (members_at c m) ≤ cap
  pub bounded : (c : ℕ) → max_connections ≤ c → members_at c m ≡ []
  pub only : (t : String) (c : ℕ) → is_member t (members_at c m) ≡ true → is_member t desired ≡ true
  pub placed :
      ((t : String) → is_member t desired ≡ true → (c : ℕ) × (is_member t (members_at c m) ≡ true))
      ⊎ ((c : ℕ) → c < max_connections → cap ≤ length (members_at c m))
  pub retained : All (IsRetained cap max_connections desired m) previous
  pub even :
      previous ≡ []
      → (c d : ℕ) → c < max_connections
      → d < max_connections
      → length (members_at c m) ≤ length (members_at d m) + 1

All-map : (P Q : Group → Type 0) (gs : List Group) → ((g : Group) → P g → Q g) → All P gs → All Q gs
All-map P Q [] f h = tt
All-map P Q (g ∷ gs) f h = (f g h.0, All-map P Q gs f h.1)

none_carried :
    (desired : List String) (cap max_connections : ℕ) (previous : List Group) (c : ℕ)
    → previous ≡ []
    → length (members_at c (carry_over previous desired cap max_connections [])) ≡ 0
unfolding carry_over members_at lookup
none_carried desired cap max_connections previous c e =
    ap (λ gs. length (members_at c (carry_over gs desired cap max_connections []))) e

module _ (desired : List String) (cap max_connections : ℕ) (previous : List Group)
    (distinct : AreDistinctConnections previous) where
  abbrev carried : Members
  carried = carry_over previous desired cap max_connections []

  is_carried : IsCarried desired cap max_connections carried
  is_carried =
      carry_over-IsCarried previous desired cap max_connections []
        (none-IsCarried desired cap max_connections)

  abbrev unplaced : List String
  unplaced = without desired (placed_in carried)

  filled-IsAssigned :
      (m : Members)
      → IsFilled cap max_connections carried unplaced m
      → IsAssigned desired cap max_connections previous m
  filled-IsAssigned m f = record {
    capped = λ c. f.capped c (is_carried.capped c);
    bounded = λ c h. f.bounded c h ∙ is_carried.bounded c h;
    only = λ t c e. only_at t c (f.only t c e);
    placed = placed_or_full f.placed;
    retained =
        All-map (IsRetained cap max_connections desired carried)
          (IsRetained cap max_connections desired m) previous
          (λ g h i fits t is_in wanted. f.kept t g.conn_id (h i fits t is_in wanted))
          (carry_over-IsRetained previous desired cap max_connections [] distinct);
    even = λ e.
        f.even (λ c d i j. ground (arith, none_carried desired cap max_connections previous c e));
  }
    where
      only_at :
          (t : String) (c : ℕ)
          → (is_member t (members_at c carried) ≡ true) ⊎ (is_member t unplaced ≡ true)
          → is_member t desired ≡ true
      only_at t c (inl e) = is_carried.only t c e
      only_at t c (inr e) = ground (arith, is_member-without t desired (placed_in carried))

      placed_or_full :
          ((t : String)
              → is_member t unplaced ≡ true
              → (c : ℕ) × (is_member t (members_at c m) ≡ true))
            ⊎ ((c : ℕ) → c < max_connections → cap ≤ length (members_at c m))
          → ((t : String)
              → is_member t desired ≡ true
              → (c : ℕ) × (is_member t (members_at c m) ≡ true))
            ⊎ ((c : ℕ) → c < max_connections → cap ≤ length (members_at c m))
      placed_or_full (inr full) = inr full
      placed_or_full (inl all) = inl (λ t e. elim (Bool-cases (is_member t (placed_in carried))) [
        | inl k ↦ let (c, at) = placed_at t carried is_carried.distinct k in (c, f.kept t c at)
        | inr k ↦ all t (ground (arith, is_member-without t desired (placed_in carried)))
      ])

-- With positive limits `plan` assigns the wanted markets, after a plan with no connection twice or none:
-- no connection has more than the cap, connections past the last one have nothing, only wanted
-- markets are assigned, all of them are unless every connection is full, the wanted members of each
-- earlier group that fits the cap stay where they are if their connection exists, and without an
-- earlier plan any two connections differ by at most one market.
pub assign-IsAssigned :
    (desired : List String) (cap max_connections : ℕ) (previous : Option Plan)
    → 0 < cap
    → 0 < max_connections
    → AreDistinctConnections (groups_of_plan previous)
    → (m : Members) × (assign desired cap max_connections previous ≡ some m)
      × IsAssigned desired cap max_connections (groups_of_plan previous) m
unfolding assign
assign-IsAssigned desired cap max_connections previous h k distinct =
    let groups = groups_of_plan previous in
    let start = carry_over groups desired cap max_connections [] in
    let m =
      fill cap (without desired (placed_in start)) (room_of 0 max_connections cap start) start in
    (
      m,
      rw (positive cap h, positive max_connections k) refl,
      filled-IsAssigned desired cap max_connections groups distinct m (
          fill-IsFilled cap max_connections (without desired (placed_in start)) _ start
            (room_of-IsRoom cap max_connections start)),
    )
  where
    positive : (n : ℕ) → 0 < n → leb n 0 ≡ false
    positive n h = ground arith
