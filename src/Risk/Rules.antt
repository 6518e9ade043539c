-- ===== src/Risk/Rules.antt =====
-- What `evaluate` of domain/risk/engine.py decides.
use aurex_trade.Prelude.{
  ℕ, zero, suc, ◌+◌, ◌-◌, ◌≤◌, ◌<◌, ◌≡◌, ap, ◌↔◌, refl, Bool, true, false, Option, none, some, List,
  [], ◌∷◌, ◌++◌, ◌&&◌, leb, ◌⊎◌, arith, length, drop, all, is_some, All, tail_slice, length-append,
}
use aurex_trade.Prelude.Float.{Float, Format, ◌⊖◌, ◌⊘◌, nought, lt, le, abs, neg, ◌≼◌}
use aurex_trade.Domain.Enums.{RiskAction}
use aurex_trade.Domain.Models.{Signal, Position, Trade, AccountState}
use aurex_trade.Risk.{RiskEngine, evaluate, losing_streak, held, daily_pnl}

module _ {F : Type 0} ⦃f : Float F⦄ where
  -- The equity is below its peak by a fraction that reaches the limit.
  abbrev pub InDrawdown : RiskEngine F → Option (AccountState F) → Type 0
  InDrawdown r none = ⊥
  InDrawdown r (some a) =
      (lt nought a.peak_equity ≡ true)
      × (r.max_drawdown_pct ≼ (a.peak_equity ⊖ a.equity) ⊘ a.peak_equity)

  -- The recent results end in as many losses as the limit.
  abbrev pub OnLosingStreak : RiskEngine F → Option (List F) → Type 0
  OnLosingStreak r none = ⊥
  OnLosingStreak r (some pnls) =
      (before : List F) × (last : List F) × (pnls ≡ before ++ last)
      × (length last ≡ r.max_consecutive_losses)
      × All (λ pnl. lt pnl nought ≡ true) last

  all-true : (p : F → Bool) (xs : List F) → all p xs ≡ true → All (λ x. p x ≡ true) xs
  all-true p [] h = tt
  all-true p (x ∷ xs) h = ground (arith, all-true p xs)

  all_of_All : (p : F → Bool) (xs : List F) → All (λ x. p x ≡ true) xs → all p xs ≡ true
  all_of_All p [] h = refl
  all_of_All p (x ∷ xs) h = ground (arith, all_of_All p xs h.1)

  all-append : (p : F → Bool) (xs ys : List F) → all p xs ≡ true → all p (xs ++ ys) ≡ all p ys
  all-append p [] ys h = refl
  all-append p (x ∷ xs) ys h = ground (arith, all-append p xs ys)

  drop-append : (xs ys : List F) → drop (length xs) (xs ++ ys) ≡ ys
  drop-append [] ys = refl
  drop-append (x ∷ xs) ys = drop-append xs ys

  take_of_drop :
      (k : ℕ) (xs : List F)
      → k ≤ length xs
      → (before : List F) × (xs ≡ before ++ drop k xs) × (length (drop k xs) + k ≡ length xs)
  take_of_drop zero xs h = ([], refl, omega arith)
  take_of_drop (suc k) [] h = elim h [ ]
  take_of_drop (suc k) (x ∷ xs) h =
      let (before, e, n) = take_of_drop k xs (omega arith) in
      (x ∷ before, ap (◌∷◌ x) e, omega arith)

  tail_slice-drop : (n : ℕ) (xs : List F) → 0 < n → tail_slice n xs ≡ drop (length xs - n) xs
  tail_slice-drop n xs h = ground arith

  tail_slice-append :
      (n : ℕ) (before last : List F)
      → 0 < n
      → length last ≡ n
      → tail_slice n (before ++ last) ≡ last
  tail_slice-append n before last pos e =
      let k : length (before ++ last) - n ≡ length before =
        omega (arith, length-append before last) in
      rw (tail_slice-drop n (before ++ last) pos, k) (drop-append before last)

  losing_streak_sound :
      (r : RiskEngine F) (pnls : List F)
      → 0 < r.max_consecutive_losses
      → losing_streak r (some pnls) ≡ true
      → OnLosingStreak r (some pnls)
  unfolding losing_streak
  losing_streak_sound r pnls pos h =
      let n = r.max_consecutive_losses in
      let last = drop (length pnls - n) pnls in
      let h' : leb n (length last) && all (λ pnl. lt pnl nought) last ≡ true =
        rw (← tail_slice-drop n pnls pos) h in
      let (before, e, k) = take_of_drop (length pnls - n) pnls (omega arith) in
      (before, last, e, ground arith, all-true _ last (ground arith))

  losing_streak_complete :
      (r : RiskEngine F) (pnls : List F)
      → 0 < r.max_consecutive_losses
      → OnLosingStreak r (some pnls)
      → losing_streak r (some pnls) ≡ true
  unfolding losing_streak
  losing_streak_complete r pnls pos (before, last, e, k, h) =
      rw (e, tail_slice-append r.max_consecutive_losses before last pos k)
        (ground (arith, all_of_All (λ pnl. lt pnl nought) last h))

  -- With a positive limit, rule 4 finds exactly the results that end in so many losses.
  pub losing_streak_iff :
      (r : RiskEngine F) (recent : Option (List F))
      → 0 < r.max_consecutive_losses
      → (losing_streak r recent ≡ true) ↔ OnLosingStreak r recent
  unfolding losing_streak
  losing_streak_iff r none pos = (λ h. cc, λ h. absurd h)
  losing_streak_iff r (some pnls) pos =
      (losing_streak_sound r pnls pos, losing_streak_complete r pnls pos)

  -- What has to hold for a signal to pass.
  pub record Passes (r : RiskEngine F) (s : Signal F) (position : Option (Position F))
      (trades : List (Trade F)) (account : Option (AccountState F)) (recent : Option (List F))
      : Type 0 where
    pub trading : r.kill_switch ≡ false
    pub stopped : (r.require_stop_loss ≡ false) ⊎ (is_some s.stop_loss ≡ true)
    pub above_water : ¬ InDrawdown r account
    pub no_streak : ¬ OnLosingStreak r recent
    pub has_room : le (f.of_nat r.max_position_size) (abs (held position)) ≡ false
    pub affordable : le (daily_pnl position) (neg r.max_daily_loss) ≡ false
    pub not_too_often : length trades < r.max_trades_per_day

  module _ ⦃w : Format F⦄ (now : ℕ) where
    -- Whatever the other arguments are, the answer is for the signal that was asked about, and it is
    -- a halt exactly if the engine is enabled with its kill switch on.
    pub evaluate_halts_iff :
        (r : RiskEngine F) (s : Signal F) (position : Option (Position F)) (trades : List (Trade F))
        (account : Option (AccountState F)) (recent : Option (List F))
        → let decision = evaluate now r s position trades account recent in
          (decision.signal_id ≡ s.id)
          × ((decision.action ≡ RiskAction.kill_switch)
              ↔ ((r.enabled ≡ true) × (r.kill_switch ≡ true)))
    unfolding evaluate
    evaluate_halts_iff r s position trades account recent =
        (ground arith, (λ h. ground arith, λ h. ground arith))

    -- A signal that is approved after some trades of the day was to be approved before them too.
    pub evaluate_fewer_trades :
        (r : RiskEngine F) (s : Signal F) (position : Option (Position F))
        (earlier later : List (Trade F)) (account : Option (AccountState F))
        (recent : Option (List F))
        → (evaluate now r s position (earlier ++ later) account recent).action ≡ RiskAction.approved
        → (evaluate now r s position earlier account recent).action ≡ RiskAction.approved
    unfolding evaluate
    evaluate_fewer_trades r s position earlier later account recent h =
        ground (arith, length-append earlier later)
