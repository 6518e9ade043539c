-- ===== src/PaperBroker/Bars.antt =====
-- The bars that the paper broker makes up.
use aurex_trade.Prelude.{
  ℕ, zero, suc, ◌+◌, ◌-◌, ◌≤◌, ◌<◌, ◌≡◌, refl, ap, ◌∙◌, String, str_eq, eq_iff, Bool, false, none,
  some, List, [], ◌∷◌, ◌++◌, if◌then◌else◌, arith, length, drop, All, All-append, tail_slice,
  length-append,
}
use aurex_trade.Prelude.Float.{Float}
use aurex_trade.Prelude.Dict.{Dict, lookup, insert, contains, lookup-insert_self}
use aurex_trade.Domain.Models.{BarData}
use aurex_trade.SimBroker.State.{Rng}
use aurex_trade.PaperBroker.{Gauss, Paper, history_of, generate_bar, extend, get_latest_bars}

All-drop : {A : Type 0} (P : A → Type 0) (k : ℕ) (xs : List A) → All P xs → All P (drop k xs)
All-drop P zero xs h = h
All-drop P (suc k) [] h = tt
All-drop P (suc k) (x ∷ xs) h = All-drop P k xs h.1

length-drop : {A : Type 0} (k : ℕ) (xs : List A) → length (drop k xs) ≡ length xs - k
length-drop zero xs = omega arith
length-drop (suc k) [] = omega arith
length-drop (suc k) (x ∷ xs) = omega (arith, length-drop k xs)

All-tail_slice :
    {A : Type 0} (P : A → Type 0) (k : ℕ) (xs : List A) → All P xs → All P (tail_slice k xs)
All-tail_slice P k xs h = ground (arith, All-drop P (length xs - k) xs h)

length-tail_slice :
    {A : Type 0} (k : ℕ) (xs : List A) → 0 < k → k ≤ length xs → length (tail_slice k xs) ≡ k
length-tail_slice k xs pos h = ground (arith, length-drop (length xs - k) xs)

insert_again :
    {V : Type 0} (k : String) (v : V) (d : Dict String V)
    → insert str_eq k v (insert str_eq k v d) ≡ insert str_eq k v d
insert_again k v [] = ground (arith, (eq_iff k k))
insert_again k v ((j, w) ∷ d) = ground (arith, insert_again k v d)

module _ {F : Type 0} ⦃f : Float F⦄ where
  -- The bar was drawn with nothing stored, so that its walk starts at the base price.
  abbrev pub FromBase :
      (R : Type 0) ⦃g : Rng F R⦄ ⦃n : Gauss F R⦄ → F → String → ℕ → BarData F → Type 0
  FromBase R base symbol now bar =
      (index : ℕ) × (rng : R) × (bar ≡ (generate_bar base [] symbol index now rng).0)

module _ {F R : Type 0} ⦃f : Float F⦄ ⦃g : Rng F R⦄ ⦃n : Gauss F R⦄ where
  extend-length :
      (k : ℕ) (stored : Bool) (base : F) (symbol : String) (now : ℕ) (history : List (BarData F))
      (rng : R)
      → length (extend k stored base symbol now history rng).0 ≡ length history + k
  unfolding extend
  extend-length zero stored base symbol now history rng = omega arith
  extend-length (suc k) stored base symbol now history rng =
      let step =
        generate_bar base (if stored then history else []) symbol (length history) now rng in
      omega (
        arith,
        extend-length k stored base symbol now (history ++ (step.0 ∷ [])) step.1,
        length-append history (step.0 ∷ []),
      )

  extend-FromBase :
      (k : ℕ) (base : F) (symbol : String) (now : ℕ) (history : List (BarData F)) (rng : R)
      → All (FromBase R base symbol now) history
      → All (FromBase R base symbol now) (extend k false base symbol now history rng).0
  unfolding extend
  extend-FromBase zero base symbol now history rng h = h
  extend-FromBase (suc k) base symbol now history rng h =
      let step = generate_bar base [] symbol (length history) now rng in
      extend-FromBase k base symbol now (history ++ (step.0 ∷ [])) step.1 (
        All-append (FromBase R base symbol now) history (step.0 ∷ []) h
          ((length history, rng, refl), tt))

  -- For a symbol without history, every bar of a call goes on from the base price, none from the
  -- bar before it.
  pub get_latest_bars-FromBase :
      (now : ℕ) (symbol : String) (count : ℕ) (b : Paper F R)
      → lookup str_eq symbol b.price_history ≡ none
      → All (FromBase R b.base_price symbol now) (get_latest_bars now symbol count b).0
  unfolding get_latest_bars
  get_latest_bars-FromBase now symbol count b unseen =
      let nothing : history_of symbol b.price_history ≡ [] = rw (unseen, history_of) refl in
      rw (nothing, unseen)
        (All-tail_slice (FromBase R b.base_price symbol now) count _
          (extend-FromBase (count - 0) b.base_price symbol now [] b.rng tt))

  -- With enough bars in store there is nothing to make up.
  settled :
      (now : ℕ) (symbol : String) (count : ℕ) (history : List (BarData F)) (b : Paper F R)
      → lookup str_eq symbol b.price_history ≡ some history
      → count ≤ length history
      → get_latest_bars now symbol count b ≡ (
        tail_slice count history,
        record b { price_history = insert str_eq symbol history b.price_history },
      )
  unfolding get_latest_bars extend
  settled now symbol count history b known enough =
      let none_missing : count - length history ≡ 0 = omega arith in
      let stored : history_of symbol b.price_history ≡ history = rw (known, history_of) refl in
      rw (stored, known, none_missing) refl

  -- A call for some bars, at least one, returns that many, and another one for as many right after
  -- it returns the same bars and changes nothing.
  pub get_latest_bars-again :
      (now later : ℕ) (symbol : String) (count : ℕ) (b : Paper F R)
      → 0 < count
      → let first = get_latest_bars now symbol count b in
        (length first.0 ≡ count) × (get_latest_bars later symbol count first.1 ≡ first)
  unfolding get_latest_bars
  get_latest_bars-again now later symbol count b pos =
      let history = history_of symbol b.price_history in
      let more =
        extend (count - length history) (contains str_eq symbol b.price_history) b.base_price symbol
          now history b.rng in
      let enough : count ≤ length more.0 =
        omega
          (arith, extend-length (count - length history) _ b.base_price symbol now history b.rng) in
      (
        length-tail_slice count more.0 pos enough,
        settled later symbol count more.0 _
              (lookup-insert_self str_eq symbol more.0 b.price_history
                ((eq_iff symbol symbol).1 refl))
              enough
            ∙ ap (λ d. (tail_slice count more.0, record b { rng = more.1; price_history = d }))
                (insert_again symbol more.0 b.price_history),
      )
