-- ===== src/Sweep/Ranking.antt =====
-- How the sweep ranks its results (backtest/sweep.py).
use mathlib.Core.List.{Perm}
use mathlib.Core.List.Perm
use aurex_trade.Prelude.{
  ◌≤◌, ◌⊎◌, ◌↔◌, if◌then◌else◌, ◌≡◌, refl, String, Bool, true, false, Option, List, [], ◌∷◌, arith,
  map, All, Bool-cases, inl, inr,
}
use aurex_trade.Prelude.Float.{Float, Math, IsOrdered, lt, neg}
use aurex_trade.Prelude.Dict.{Dict}
use aurex_trade.Sweep.Combinations.{
  All-of, IsIn-map, of_map, IsIn, IsDistinct, IsCombination, Accepts, HasDistinctValues,
  generate_combinations_iff, generate_combinations-IsDistinct,
}
use aurex_trade.Sweep.{
  BacktestResult, Ranker, qualifies, sort_key, key_lt, insert_result, sort_results,
  generate_combinations, run_sweep,
}

All-map :
    {A : Type 0} {P Q : A → Type 0} → ((a : A) → P a → Q a) → (xs : List A) → All P xs → All Q xs
All-map h [] p = tt
All-map h (x ∷ xs) (p, ps) = (h x p, All-map h xs ps)

module _ {F : Type 0} ⦃f : Float F⦄ ⦃m : Math F⦄ where
  -- No result is ranked above one with a greater key.
  abbrev pub IsRanked : Ranker F → List (BacktestResult F) → Type 0
  IsRanked k [] = Unit
  IsRanked k (r ∷ rs) = All (λ s. key_lt (sort_key k r) (sort_key k s) ≡ false) rs × IsRanked k rs

  -- The result has the trades that are asked for, and a finite profit factor.
  abbrev pub Qualifies : Ranker F → BacktestResult F → Type 0
  Qualifies k r =
      (k.min_trades ≤ r.metrics.trade_count) × (m.is_finite r.metrics.profit_factor ≡ true)

  -- The metric to rank by, where minus infinity stands for one that is not finite.
  abbrev pub floored : Ranker F → BacktestResult F → F
  floored k r = if m.is_finite (k.rank_by r.metrics) then k.rank_by r.metrics else neg m.infinity

  -- The first result may stand before the second one: it alone qualifies, or both do or neither does
  -- and its metric is not less.
  abbrev pub MayPrecede : Ranker F → BacktestResult F → BacktestResult F → Type 0
  MayPrecede k r s =
      (Qualifies k r × ¬ Qualifies k s)
      ⊎ ((Qualifies k r ↔ Qualifies k s) × (lt (floored k r) (floored k s) ≡ false))

  abbrev pub IsInOrder : Ranker F → List (BacktestResult F) → Type 0
  IsInOrder k [] = Unit
  IsInOrder k (r ∷ rs) = All (MayPrecede k r) rs × IsInOrder k rs

  qualifies_iff : (k : Ranker F) (r : BacktestResult F) → (qualifies k r ≡ true) ↔ Qualifies k r
  unfolding qualifies
  qualifies_iff k r = (λ h. ground arith, λ h. ground arith)

  -- A result may stand before itself.
  pub precede_self : (laws : IsOrdered F) (k : Ranker F) (r : BacktestResult F) → MayPrecede k r r
  precede_self laws k r =
      let x = floored k r in
      inr ((λ q. q, λ q. q), ground (arith, laws.lt-eq-not-le x x, laws.le_refl x))

  precede_of_keys :
      (k : Ranker F) (r s : BacktestResult F)
      → key_lt (sort_key k r) (sort_key k s) ≡ false
      → MayPrecede k r s
  unfolding sort_key key_lt
  precede_of_keys k r s h =
      let (r_in, r_out) = qualifies_iff k r in
      let (s_in, s_out) = qualifies_iff k s in
      elim (Bool-cases (qualifies k r)) [
        | inl a ↦ elim (Bool-cases (qualifies k s)) [
          | inl b ↦ inr ((λ q. s_in b, λ q. r_in a), rw (a, b, key_lt) at h)
          | inr b ↦ inl (r_in a, λ q. cc (s_out q, b))
        ]
        | inr a ↦ elim (Bool-cases (qualifies k s)) [
          | inl b ↦ cc (rw (a, b, key_lt) at h)
          | inr b ↦ inr ((λ q. cc (r_out q, a), λ q. cc (s_out q, b)), rw (a, b, key_lt) at h)
        ]
      ]

  IsRanked-IsInOrder :
      (k : Ranker F) (rs : List (BacktestResult F)) → IsRanked k rs → IsInOrder k rs
  IsRanked-IsInOrder k [] h = tt
  IsRanked-IsInOrder k (r ∷ rs) h =
      (All-map (precede_of_keys k r) rs h.0, IsRanked-IsInOrder k rs h.1)

  insert_result-perm :
      (k : Ranker F) (r : BacktestResult F) (rs : List (BacktestResult F))
      → Perm (insert_result k r rs) (r ∷ rs)
  unfolding insert_result
  insert_result-perm k r [] = Perm.refl (r ∷ [])
  insert_result-perm k r (s ∷ ss) = elim (Bool-cases (key_lt (sort_key k r) (sort_key k s))) [
    | inl e ↦
        rw (e, insert_result)
          (Perm.trans (Perm.cons s (insert_result-perm k r ss)) (Perm.swap r s ss))
    | inr e ↦ rw (e, insert_result) (Perm.refl (r ∷ s ∷ ss))
  ]

  sort_results-perm : (k : Ranker F) (rs : List (BacktestResult F)) → Perm (sort_results k rs) rs
  unfolding sort_results
  sort_results-perm k [] = Perm.refl []
  sort_results-perm k (r ∷ rs) =
      Perm.trans (insert_result-perm k r (sort_results k rs)) (Perm.cons r (sort_results-perm k rs))

  All-insert_result :
      (P : BacktestResult F → Type 0) (k : Ranker F) (r : BacktestResult F)
      (rs : List (BacktestResult F))
      → P r
      → All P rs
      → All P (insert_result k r rs)
  unfolding insert_result
  All-insert_result P k r [] p a = (p, tt)
  All-insert_result P k r (s ∷ ss) p a = ground (arith, All-insert_result P k r ss p a.1)

  IsIn-insert_result :
      (k : Ranker F) (q r : BacktestResult F) (rs : List (BacktestResult F))
      → IsIn q (r ∷ rs)
      → IsIn q (insert_result k r rs)
  unfolding insert_result
  IsIn-insert_result k q r [] i = i
  IsIn-insert_result k q r (s ∷ ss) i = elim (Bool-cases (key_lt (sort_key k r) (sort_key k s))) [
    | inl e ↦
        rw (e, insert_result)
          (elim i [
            | inl same ↦ inr (IsIn-insert_result k q r ss (inl same))
            | inr j ↦ elim j [
              | inl at_s ↦ inl at_s
              | inr l ↦ inr (IsIn-insert_result k q r ss (inr l))
            ]
          ])
    | inr e ↦ rw (e, insert_result) i
  ]

  IsIn-sort_results :
      (k : Ranker F) (q : BacktestResult F) (rs : List (BacktestResult F))
      → IsIn q rs
      → IsIn q (sort_results k rs)
  unfolding sort_results
  IsIn-sort_results k q [] i = i
  IsIn-sort_results k q (r ∷ rs) (inl e) = IsIn-insert_result k q r (sort_results k rs) (inl e)
  IsIn-sort_results k q (r ∷ rs) (inr i) =
      IsIn-insert_result k q r (sort_results k rs) (inr (IsIn-sort_results k q rs i))

  All-sort_results :
      (P : BacktestResult F → Type 0) (k : Ranker F) (rs : List (BacktestResult F))
      → All P rs
      → All P (sort_results k rs)
  unfolding sort_results
  All-sort_results P k [] h = tt
  All-sort_results P k (r ∷ rs) h =
      All-insert_result P k r (sort_results k rs) h.0 (All-sort_results P k rs h.1)

  -- The result is that of a combination of the grid that the validator accepts.
  abbrev pub IsRun :
      (Dict String F → BacktestResult F)
      → Dict String (List F)
      → Option (Dict String F → Bool)
      → BacktestResult F
      → Type 0
  IsRun run_single grid valid r =
      (c : Dict String F) × IsCombination grid c × Accepts valid c × (r ≡ run_single c)

  pub run_sweep-IsRun :
      (k : Ranker F) (run_single : Dict String F → BacktestResult F) (grid : Dict String (List F))
      (valid : Option (Dict String F → Bool))
      → All (IsRun run_single grid valid) (run_sweep k run_single grid valid)
  unfolding run_sweep
  run_sweep-IsRun k run_single grid valid =
      All-sort_results _ k (map run_single (generate_combinations grid valid)) (
        All-of _ _ λ r i.
          let (c, j, e) = of_map run_single r (generate_combinations grid valid) i in
          let (of_grid, accepted) = (generate_combinations_iff grid valid c).0 j in
          (c, of_grid, accepted, e))

  pub run_sweep-has :
      (k : Ranker F) (run_single : Dict String F → BacktestResult F) (grid : Dict String (List F))
      (valid : Option (Dict String F → Bool)) (c : Dict String F)
      → IsCombination grid c
      → Accepts valid c
      → IsIn (run_single c) (run_sweep k run_single grid valid)
  unfolding run_sweep
  run_sweep-has k run_single grid valid c of_grid accepted =
      IsIn-sort_results k (run_single c) (map run_single (generate_combinations grid valid)) (
        IsIn-map run_single c (generate_combinations grid valid)
          ((generate_combinations_iff grid valid c).1 (of_grid, accepted)))

  module _ (laws : IsOrdered F) where
    key_lt_trans : (a b c : Bool × F) → key_lt a b ≡ false → key_lt b c ≡ false → key_lt a c ≡ false
    unfolding key_lt
    key_lt_trans (true, x) (true, y) (true, z) h g = ground (
      arith,
      laws.lt-eq-not-le x y,
      laws.lt-eq-not-le y z,
      laws.lt-eq-not-le x z,
      laws.le_trans z y x,
    )
    key_lt_trans (true, x) b (false, z) h g = refl
    key_lt_trans (true, x) (false, y) (true, z) h g = cc
    key_lt_trans (false, x) (true, y) c h g = cc
    key_lt_trans (false, x) (false, y) (true, z) h g = cc
    key_lt_trans (false, x) (false, y) (false, z) h g = ground (
      arith,
      laws.lt-eq-not-le x y,
      laws.lt-eq-not-le y z,
      laws.lt-eq-not-le x z,
      laws.le_trans z y x,
    )

    key_lt_asym : (a b : Bool × F) → key_lt a b ≡ true → key_lt b a ≡ false
    unfolding key_lt
    key_lt_asym (true, x) (true, y) h =
        ground (arith, laws.lt-eq-not-le x y, laws.lt-eq-not-le y x, laws.le_total y x)
    key_lt_asym (true, x) (false, y) h = cc
    key_lt_asym (false, x) (true, y) h = refl
    key_lt_asym (false, x) (false, y) h =
        ground (arith, laws.lt-eq-not-le x y, laws.lt-eq-not-le y x, laws.le_total y x)

    All-trans :
        (k : Ranker F) (r s : BacktestResult F) (ss : List (BacktestResult F))
        → key_lt (sort_key k r) (sort_key k s) ≡ false
        → All (λ t. key_lt (sort_key k s) (sort_key k t) ≡ false) ss
        → All (λ t. key_lt (sort_key k r) (sort_key k t) ≡ false) ss
    All-trans k r s [] h a = tt
    All-trans k r s (t ∷ ts) h a =
        (key_lt_trans (sort_key k r) (sort_key k s) (sort_key k t) h a.0, All-trans k r s ts h a.1)

    insert_result-IsRanked :
        (k : Ranker F) (r : BacktestResult F) (rs : List (BacktestResult F))
        → IsRanked k rs
        → IsRanked k (insert_result k r rs)
    unfolding insert_result
    insert_result-IsRanked k r [] h = (tt, tt)
    insert_result-IsRanked k r (s ∷ ss) h =
        elim (Bool-cases (key_lt (sort_key k r) (sort_key k s))) [
          | inl e ↦ rw e (
            All-insert_result (λ t. key_lt (sort_key k s) (sort_key k t) ≡ false) k r ss
                (key_lt_asym (sort_key k r) (sort_key k s) e) h.0,
            insert_result-IsRanked k r ss h.1,
          )
          | inr e ↦ rw e ((e, All-trans k r s ss e h.0), h)
        ]

    sort_results-IsRanked :
        (k : Ranker F) (rs : List (BacktestResult F)) → IsRanked k (sort_results k rs)
    unfolding sort_results
    sort_results-IsRanked k [] = tt
    sort_results-IsRanked k (r ∷ rs) =
        insert_result-IsRanked k r (sort_results k rs) (sort_results-IsRanked k rs)

    pub run_sweep-IsInOrder :
        (k : Ranker F) (run_single : Dict String F → BacktestResult F) (grid : Dict String (List F))
        (valid : Option (Dict String F → Bool))
        → IsInOrder k (run_sweep k run_single grid valid)
    unfolding run_sweep
    run_sweep-IsInOrder k run_single grid valid =
        IsRanked-IsInOrder k _
          (sort_results-IsRanked k (map run_single (generate_combinations grid valid)))

  -- What a sweep is to give: the results are, in some order, those of the combinations that take one
  -- value of each parameter and that the validator accepts, each of them once, and in this order no
  -- result stands behind one that may not precede it.
  pub record IsSweep (k : Ranker F) (run_single : Dict String F → BacktestResult F)
      (grid : Dict String (List F)) (valid : Option (Dict String F → Bool))
      (results : List (BacktestResult F)) : Type 0 where
    pub combos : List (Dict String F)
    pub runs : Perm results (map run_single combos)
    pub exactly : (c : Dict String F) → IsIn c combos ↔ (IsCombination grid c × Accepts valid c)
    pub once : IsDistinct combos
    pub order : IsInOrder k results

  -- Of floats with the laws of their order, and with a grid that gives no parameter a value twice, the
  -- results of a sweep are, up to their order, one for each combination of one value of each parameter
  -- that the validator accepts, and none of them twice. Of two results the one in front alone has
  -- enough trades and a finite profit factor, or both or neither have and its metric is not less than
  -- that of the other, minus infinity standing for a metric that is not finite.
  pub run_sweep-IsRanked :
      (laws : IsOrdered F) (k : Ranker F) (run_single : Dict String F → BacktestResult F)
      (grid : Dict String (List F)) (valid : Option (Dict String F → Bool))
      → HasDistinctValues grid
      → IsSweep k run_single grid valid (run_sweep k run_single grid valid)
  unfolding run_sweep
  run_sweep-IsRanked laws k run_single grid valid values = record {
    combos = generate_combinations grid valid;
    runs = sort_results-perm k (map run_single (generate_combinations grid valid));
    exactly = generate_combinations_iff grid valid;
    once = generate_combinations-IsDistinct grid valid values;
    order = run_sweep-IsInOrder laws k run_single grid valid;
  }
