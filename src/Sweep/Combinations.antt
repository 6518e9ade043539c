-- ===== src/Sweep/Combinations.antt =====
-- Which combinations of parameters the sweep runs (`_generate_combinations` of backtest/sweep.py).
use aurex_trade.Prelude.{
  ◌≡◌, refl, sym, ap, subst, ◌∙◌, ◌⊎◌, inl, inr, ◌↔◌, ◌≢◌, String, Bool, true, Option, none, some,
  List, [], ◌∷◌, ◌++◌, map, filter, All, All-append, All-filter, Bool-cases,
}
use aurex_trade.Prelude.Dict.{Dict}
use aurex_trade.Sweep.{prefix_all, product, generate_combinations}

module _ {A : Type 0} where
  -- The element stands in the list.
  abbrev pub IsIn : A → List A → Type 0
  IsIn a [] = ⊥
  IsIn a (x ∷ xs) = (a ≡ x) ⊎ IsIn a xs

  -- No element stands in the list twice.
  abbrev pub IsDistinct : List A → Type 0
  IsDistinct [] = Unit
  IsDistinct (x ∷ xs) = All (λ y. x ≢ y) xs × IsDistinct xs

  pub All_at : (P : A → Type 0) (a : A) (xs : List A) → All P xs → IsIn a xs → P a
  All_at P a [] h i = absurd i
  All_at P a (x ∷ xs) (h, hs) (inl e) = subst P (sym e) h
  All_at P a (x ∷ xs) (h, hs) (inr i) = All_at P a xs hs i

  pub All-of : (P : A → Type 0) (xs : List A) → ((a : A) → IsIn a xs → P a) → All P xs
  All-of P [] h = tt
  All-of P (x ∷ xs) h = (h x (inl refl), All-of P xs (λ a i. h a (inr i)))

  IsIn-append : (a : A) (xs ys : List A) → IsIn a (xs ++ ys) → IsIn a xs ⊎ IsIn a ys
  IsIn-append a [] ys i = inr i
  IsIn-append a (x ∷ xs) ys (inl e) = inl (inl e)
  IsIn-append a (x ∷ xs) ys (inr i) = elim (IsIn-append a xs ys i) [
    | inl j ↦ inl (inr j)
    | inr j ↦ inr j
  ]

  IsIn-left : (a : A) (xs ys : List A) → IsIn a xs → IsIn a (xs ++ ys)
  IsIn-left a [] ys i = absurd i
  IsIn-left a (x ∷ xs) ys (inl e) = inl e
  IsIn-left a (x ∷ xs) ys (inr i) = inr (IsIn-left a xs ys i)

  IsIn-right : (a : A) (xs ys : List A) → IsIn a ys → IsIn a (xs ++ ys)
  IsIn-right a [] ys i = i
  IsIn-right a (x ∷ xs) ys i = inr (IsIn-right a xs ys i)

  IsIn-filter :
      (p : A → Bool) (a : A) (xs : List A) → IsIn a (filter p xs) ↔ (IsIn a xs × (p a ≡ true))
  IsIn-filter p a [] = (λ i. absurd i, λ i. absurd i.0)
  IsIn-filter p a (x ∷ xs) =
      let (there, back) = IsIn-filter p a xs in
      elim (Bool-cases (p x)) [
        | inl e ↦ rw e (
          λ i. elim i [
            | inl same ↦ (inl same, ap p same ∙ e)
            | inr j ↦ (inr (there j).0, (there j).1)
          ],
          λ i. elim i.0 [ inl same ↦ inl same | inr j ↦ inr (back (j, i.1)) ],
        )
        | inr e ↦ rw e (
          λ j. (inr (there j).0, (there j).1),
          λ i. elim i.0 [ inl same ↦ cc (ap p same, e, i.1) | inr j ↦ back (j, i.1) ],
        )
      ]

  IsDistinct-filter : (p : A → Bool) (xs : List A) → IsDistinct xs → IsDistinct (filter p xs)
  IsDistinct-filter p [] h = tt
  IsDistinct-filter p (x ∷ xs) h = elim (Bool-cases (p x)) [
    | inl e ↦ rw e (All-filter _ p xs h.0, IsDistinct-filter p xs h.1)
    | inr e ↦ rw e (IsDistinct-filter p xs h.1)
  ]

  IsDistinct-append :
      (xs ys : List A)
      → IsDistinct xs
      → IsDistinct ys
      → ((a : A) → IsIn a xs → ¬ IsIn a ys)
      → IsDistinct (xs ++ ys)
  IsDistinct-append [] ys h g apart = g
  IsDistinct-append (x ∷ xs) ys h g apart = (
    All-append _ xs ys h.0
        (All-of _ ys λ a i e. apart x (inl refl) (subst (λ b. IsIn b ys) (sym e) i)),
    IsDistinct-append xs ys h.1 g (λ a i. apart a (inr i)),
  )

module _ {A B : Type 0} where
  pub IsIn-map : (g : A → B) (a : A) (xs : List A) → IsIn a xs → IsIn (g a) (map g xs)
  IsIn-map g a [] i = absurd i
  IsIn-map g a (x ∷ xs) (inl e) = inl (ap g e)
  IsIn-map g a (x ∷ xs) (inr i) = inr (IsIn-map g a xs i)

  pub of_map :
      (g : A → B) (b : B) (xs : List A) → IsIn b (map g xs) → (a : A) × IsIn a xs × (b ≡ g a)
  of_map g b [] i = absurd i
  of_map g b (x ∷ xs) (inl e) = (x, inl refl, e)
  of_map g b (x ∷ xs) (inr i) = let (a, j, e) = of_map g b xs i in (a, inr j, e)

  IsDistinct-map :
      (g : A → B) (xs : List A)
      → ((a b : A) → g a ≡ g b → a ≡ b)
      → IsDistinct xs
      → IsDistinct (map g xs)
  IsDistinct-map g [] inj h = tt
  IsDistinct-map g (x ∷ xs) inj h = (
    All-of _ (map g xs)
        λ b i e. let (a, j, e') = of_map g b xs i in All_at _ a xs h.0 j (inj x a (e ∙ e')),
    IsDistinct-map g xs inj h.1,
  )

-- The validator, if there is one, takes the parameters.
abbrev pub Accepts : {A : Type 0} → Option (A → Bool) → A → Type 0
Accepts none a = Unit
Accepts (some valid) a = valid a ≡ true

module _ {F : Type 0} where
  -- One value of each parameter, in the order of the grid.
  abbrev pub IsCombination : Dict String (List F) → Dict String F → Type 0
  IsCombination [] [] = Unit
  IsCombination [] (e ∷ c) = ⊥
  IsCombination ((key, vs) ∷ grid) [] = ⊥
  IsCombination ((key, vs) ∷ grid) ((name, v) ∷ c) = (name ≡ key) × IsIn v vs × IsCombination grid c

  -- No parameter has a value twice.
  abbrev pub HasDistinctValues : Dict String (List F) → Type 0
  HasDistinctValues = All (λ e. IsDistinct e.1)

  cons_inj : {e e' : String × F} {c c' : Dict String F} → e ∷ c ≡ e' ∷ c' → (e ≡ e') × (c ≡ c')
  cons_inj h = (cc h, cc h)

  IsIn-prefix :
      (key : String) (vs : List F) (combos : List (Dict String F)) (v : F) (c : Dict String F)
      → IsIn v vs
      → IsIn c combos
      → IsIn ((key, v) ∷ c) (prefix_all key vs combos)
  unfolding prefix_all
  IsIn-prefix key [] combos v c j i = absurd j
  IsIn-prefix key (w ∷ vs) combos v c (inl e) i =
      rw e (
        IsIn-left _ (map (λ c'. (key, w) ∷ c') combos) _
          (IsIn-map (λ c'. (key, w) ∷ c') c combos i))
  IsIn-prefix key (w ∷ vs) combos v c (inr j) i =
      IsIn-right _ (map (λ c'. (key, w) ∷ c') combos) _ (IsIn-prefix key vs combos v c j i)

  of_prefix :
      (key : String) (vs : List F) (combos : List (Dict String F)) (d : Dict String F)
      → IsIn d (prefix_all key vs combos)
      → (v : F) × (c : Dict String F) × IsIn v vs × IsIn c combos × (d ≡ (key, v) ∷ c)
  unfolding prefix_all
  of_prefix key [] combos d i = absurd i
  of_prefix key (w ∷ vs) combos d i =
      elim (IsIn-append d (map (λ c. (key, w) ∷ c) combos) (prefix_all key vs combos) i) [
        | inl j ↦ let (c, k, e) = of_map (λ c. (key, w) ∷ c) d combos j in (w, c, inl refl, k, e)
        | inr j ↦ let (v, c, k, l, e) = of_prefix key vs combos d j in (v, c, inr k, l, e)
      ]

  prefix_all-IsDistinct :
      (key : String) (vs : List F) (combos : List (Dict String F))
      → IsDistinct vs
      → IsDistinct combos
      → IsDistinct (prefix_all key vs combos)
  unfolding prefix_all
  prefix_all-IsDistinct key [] combos h g = tt
  prefix_all-IsDistinct key (w ∷ vs) combos h g =
      IsDistinct-append (map (λ c. (key, w) ∷ c) combos) (prefix_all key vs combos)
        (IsDistinct-map (λ c. (key, w) ∷ c) combos (λ a b e. (cons_inj e).1) g)
        (prefix_all-IsDistinct key vs combos h.1 g)
        (λ d i j.
          let (c, k, e) = of_map (λ c. (key, w) ∷ c) d combos i in
          let (v, c', l, m, e') = of_prefix key vs combos d j in
          All_at _ v vs h.0 l (ap (λ x. x.1) (cons_inj (sym e ∙ e')).0))

  product_sound :
      (grid : Dict String (List F)) (c : Dict String F)
      → IsIn c (product grid)
      → IsCombination grid c
  unfolding product
  product_sound [] c (inl e) = rw e tt
  product_sound [] c (inr i) = absurd i
  product_sound ((key, vs) ∷ grid) c i =
      let (v, d, j, k, e) = of_prefix key vs (product grid) c i in
      rw e (refl, j, product_sound grid d k)

  product_complete :
      (grid : Dict String (List F)) (c : Dict String F)
      → IsCombination grid c
      → IsIn c (product grid)
  unfolding product
  product_complete [] [] h = inl refl
  product_complete [] (e ∷ c) h = absurd h
  product_complete ((key, vs) ∷ grid) [] h = absurd h
  product_complete ((key, vs) ∷ grid) ((name, v) ∷ c) h =
      rw h.0 (IsIn-prefix key vs (product grid) v c h.1 (product_complete grid c h.2))

  product-IsDistinct :
      (grid : Dict String (List F)) → HasDistinctValues grid → IsDistinct (product grid)
  unfolding product
  product-IsDistinct [] h = (tt, tt)
  product-IsDistinct ((key, vs) ∷ grid) h =
      prefix_all-IsDistinct key vs (product grid) h.0 (product-IsDistinct grid h.1)

  -- The sweep runs a combination exactly when it takes one value of each parameter of the grid and the
  -- validator, if there is one, accepts it; if no parameter has a value twice, it runs none twice.
  pub generate_combinations_iff :
      (grid : Dict String (List F)) (valid : Option (Dict String F → Bool)) (c : Dict String F)
      → IsIn c (generate_combinations grid valid) ↔ (IsCombination grid c × Accepts valid c)
  unfolding generate_combinations
  generate_combinations_iff grid none c =
      (λ i. (product_sound grid c i, tt), λ h. product_complete grid c h.0)
  generate_combinations_iff grid (some valid) c =
      let (there, back) = IsIn-filter valid c (product grid) in
      (
        λ i. (product_sound grid c (there i).0, (there i).1),
        λ h. back (product_complete grid c h.0, h.1),
      )

  pub generate_combinations-IsDistinct :
      (grid : Dict String (List F)) (valid : Option (Dict String F → Bool))
      → HasDistinctValues grid
      → IsDistinct (generate_combinations grid valid)
  unfolding generate_combinations
  generate_combinations-IsDistinct grid none h = product-IsDistinct grid h
  generate_combinations-IsDistinct grid (some valid) h =
      IsDistinct-filter valid (product grid) (product-IsDistinct grid h)
