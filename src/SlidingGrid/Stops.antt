-- ===== src/SlidingGrid/Stops.antt =====
-- On which side of the entry a stop-loss of the sliding grid stands
-- (`_build_ladder`, `_next_level` and `_side_stop_loss` of domain/strategy/ciby_sliding_grid.py).
use aurex_trade.Prelude.{
  String, str_eq, ◌≡◌, sym, subst, true, false, Option, none, some, List, [], ◌∷◌, arith, All,
  Option-cases, Bool-cases, inl, inr, if◌then◌else◌,
}
use aurex_trade.Prelude.Float.{Float, IsOrdered, ◌⊕◌, ◌⊖◌, nought, round, lt, le, eq, ◌≼◌}
use aurex_trade.SlidingGrid.State.{Sliding}
use aurex_trade.SlidingGrid.Ladder.{
  insert_level, sorted_levels, build_ladder, next_above, next_below, side_entry, side_stop_loss,
}

module _ {F : Type 0} ⦃f : Float F⦄ where
  -- Each level is below all that follow it.
  abbrev pub IsAscending : List F → Type 0
  IsAscending [] = Unit
  IsAscending (x ∷ xs) = All (λ y. lt x y ≡ true) xs × IsAscending xs

  -- The level before a list, if there is one, is below all of it.
  abbrev IsBefore : Option F → List F → Type 0
  IsBefore none xs = Unit
  IsBefore (some p) xs = All (λ y. lt p y ≡ true) xs

  of_some : (P : F → Type 0) {a b : F} → some a ≡ some b → P a → P b
  of_some P e h = subst P (cc e) h

  -- The stop of a long side is not above the entry, that of a short side not below it.
  abbrev pub IsBehind : String → F → F → Type 0
  IsBehind side entry stop = (if str_eq side "long" then le stop entry else le entry stop) ≡ true

  module _ (laws : IsOrdered F) where
    lt_trans : (a b c : F) → lt a b ≡ true → lt b c ≡ true → lt a c ≡ true
    lt_trans a b c h k = ground (
      arith,
      laws.lt-eq-not-le a b,
      laws.lt-eq-not-le b c,
      laws.lt-eq-not-le a c,
      laws.le_total b a,
      laws.le_trans c a b,
    )

    lt_le : (a b : F) → lt a b ≡ true → a ≼ b
    lt_le a b h = ground (arith, laws.lt-eq-not-le a b, laws.le_total b a)

    -- a level that is neither equal to another nor below it is above
    lt_of_not : (a b : F) → eq a b ≡ false → lt a b ≡ false → lt b a ≡ true
    lt_of_not a b h k =
        ground (arith, laws.lt-eq-not-le a b, laws.lt-eq-not-le b a, laws.le_total b a)

    All-lt_trans :
        (a b : F) (xs : List F)
        → lt a b ≡ true
        → All (λ y. lt b y ≡ true) xs
        → All (λ y. lt a y ≡ true) xs
    All-lt_trans a b [] h hs = tt
    All-lt_trans a b (x ∷ xs) h (k, ks) = (lt_trans a b x h k, All-lt_trans a b xs h ks)

    All-insert_level :
        (P : F → Type 0) (x : F) (ys : List F) → P x → All P ys → All P (insert_level x ys)
    unfolding insert_level
    All-insert_level P x [] h hs = (h, tt)
    All-insert_level P x (y ∷ ys) h hs = ground (arith, All-insert_level P x ys h hs.1)

    insert_level-IsAscending :
        (x : F) (ys : List F) → IsAscending ys → IsAscending (insert_level x ys)
    unfolding insert_level
    insert_level-IsAscending x [] h = (tt, tt)
    insert_level-IsAscending x (y ∷ ys) h = elim (Bool-cases (eq x y)) [
      | inl same ↦ rw (same, insert_level) h
      | inr apart ↦ elim (Bool-cases (lt x y)) [
        | inl below ↦ rw (apart, below, insert_level) ((below, All-lt_trans x y ys below h.0), h)
        | inr not_below ↦
            rw (apart, not_below, insert_level)
              (
                All-insert_level (λ z. lt y z ≡ true) x ys (lt_of_not x y apart not_below) h.0,
                insert_level-IsAscending x ys h.1,
              )
      ]
    ]

    sorted_levels-IsAscending : (xs : List F) → IsAscending (sorted_levels xs)
    unfolding sorted_levels
    sorted_levels-IsAscending [] = tt
    sorted_levels-IsAscending (x ∷ xs) =
        insert_level-IsAscending x (sorted_levels xs) (sorted_levels-IsAscending xs)

    build_ladder-IsAscending : (anchor : F) (s : Sliding F) → IsAscending (build_ladder anchor s)
    unfolding build_ladder
    build_ladder-IsAscending anchor s = sorted_levels-IsAscending _

    next_below_le :
        (level : F) (prev : Option F) (xs : List F) (b : F)
        → IsAscending xs
        → IsBefore prev xs
        → next_below level prev xs ≡ some b
        → b ≼ level
    unfolding next_below
    next_below_le level prev [] b asc before e = cc e
    next_below_le level prev (x ∷ xs) b asc before e = elim (Bool-cases (eq level x)) [
      | inl same ↦
          let at_x : prev ≡ some b = rw (same, next_below) at e in
          let before_x : IsBefore (some b) (x ∷ xs) = rw at_x at before in
          ground (arith, laws.le_trans b x level, lt_le b x before_x.0)
      | inr apart ↦ next_below_le level (some x) xs b asc.1 asc.0 (rw (apart, next_below) at e)
    ]

    next_above_le :
        (level : F) (xs : List F) (a : F)
        → IsAscending xs
        → next_above level xs ≡ some a
        → level ≼ a
    unfolding next_above
    next_above_le level [] a asc e = cc e
    next_above_le level (x ∷ []) a asc e = ground arith
    next_above_le level (x ∷ y ∷ ys) a asc e = elim (Bool-cases (eq level x)) [
      | inl same ↦
          let at_y : some y ≡ some a = rw (same, next_above) at e in
          ground (arith, laws.le_trans level x y, lt_le x y asc.0.0)
      | inr apart ↦ next_above_le level (y ∷ ys) a asc.1 (rw (apart, next_above) at e)
    ]

    gap_nonneg : (a b c : F) → a ≼ b → nought ≼ c → nought ≼ (b ⊖ a) ⊕ c
    gap_nonneg a b c h k =
        laws.le_trans nought (b ⊖ a) ((b ⊖ a) ⊕ c) (rw (laws.sub_self a) at (laws.sub_mono a b a h))
          (laws.le-add (b ⊖ a) c k)

    long_stop :
        (level stop : F) (side : String) (s : Sliding F)
        → str_eq side "long" ≡ true
        → IsAscending s.levels
        → nought ≼ s.stop_buffer
        → side_stop_loss level side s ≡ some stop
        → stop ≼ round 2 (side_entry level side s)
    unfolding side_stop_loss
    long_stop level stop side s which asc buffer e =
        elim (Option-cases (next_below level none s.levels)) [
          | inl edge ↦ cc (rw (which, edge, side_stop_loss) at e)
          | inr (below, found) ↦
              let at_stop = rw (which, found, side_stop_loss) at e in
              let entry = side_entry level side s in
              let gap = (level ⊖ below) ⊕ s.stop_buffer in
              let within = laws.round_mono 2 (entry ⊖ gap) entry (
                laws.sub-le entry gap (
                  gap_nonneg below level s.stop_buffer
                    (next_below_le level none s.levels below asc tt found) buffer)) in
              of_some (λ x. x ≼ round 2 entry) at_stop within
        ]

    short_stop :
        (level stop : F) (side : String) (s : Sliding F)
        → str_eq side "long" ≡ false
        → IsAscending s.levels
        → nought ≼ s.stop_buffer
        → side_stop_loss level side s ≡ some stop
        → round 2 (side_entry level side s) ≼ stop
    unfolding side_stop_loss
    short_stop level stop side s which asc buffer e =
        elim (Option-cases (next_above level s.levels)) [
          | inl edge ↦ cc (rw (which, edge, side_stop_loss) at e)
          | inr (above, found) ↦
              let at_stop = rw (which, found, side_stop_loss) at e in
              let entry = side_entry level side s in
              let gap = (above ⊖ level) ⊕ s.stop_buffer in
              let within = laws.round_mono 2 entry (entry ⊕ gap) (
                laws.le-add entry gap (
                  gap_nonneg level above s.stop_buffer
                    (next_above_le level s.levels above asc found) buffer)) in
              of_some (λ x. round 2 entry ≼ x) at_stop within
        ]

    -- With floats whose order has its laws, and a stop buffer that is not negative, on the ladder that is
    -- built around any anchor the stop-loss of a side stands on its losing side: that of a long side is
    -- not above its entry, and that of a short side not below it, the entry rounded like the stop.
    pub side_stop_loss-IsBehind :
        (anchor level stop : F) (side : String) (s : Sliding F)
        → s.levels ≡ build_ladder anchor s
        → nought ≼ s.stop_buffer
        → side_stop_loss level side s ≡ some stop
        → IsBehind side (round 2 (side_entry level side s)) stop
    side_stop_loss-IsBehind anchor level stop side s built buffer e =
        let asc = subst IsAscending (sym built) (build_ladder-IsAscending anchor s) in
        elim (Bool-cases (str_eq side "long")) [
          | inl long ↦ rw long (long_stop level stop side s long asc buffer e)
          | inr short ↦ rw short (short_stop level stop side s short asc buffer e)
        ]
