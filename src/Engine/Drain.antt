-- ===== src/Engine/Drain.antt =====
-- How many signals a cycle takes, and where a request to close all trades stands among them.
use aurex_trade.Prelude.{
  ℕ, zero, suc, ◌≤◌, ◌≡◌, false, Option, none, some, List, [], ◌∷◌, Result, ok, err, length, arith,
  Bool-cases, inl, inr, subst,
}
use aurex_trade.Prelude.Float.{Float}
use aurex_trade.Prelude.Action.{Action, ◌>>=◌, pure}
use aurex_trade.Prelude.Action.Keeps.{Holds}
use aurex_trade.Domain.Models.{BarData, Signal}
use aurex_trade.Engine.Ports.{StrategyPort}
use aurex_trade.Engine.State.{Engine, ask_strategy}
use aurex_trade.Engine.Signals.{is_close_all}
use aurex_trade.Engine.Cycle.{drained, drain, all_signals}

-- Only the last signal may ask for the closing of all trades.
abbrev pub ClosesLast : {F : Type 0} → List (Signal F) → Type 0
ClosesLast [] = Unit
ClosesLast (x ∷ []) = Unit
ClosesLast (x ∷ y ∷ ys) = (is_close_all x ≡ false) × ClosesLast (y ∷ ys)

abbrev IsCut : {F : Type 0} → ℕ → List (Signal F) → Type 0
IsCut n sigs = (length sigs ≤ n) × ClosesLast sigs

module _ {F : Type 0} where
  IsCut-cons :
      (n : ℕ) (x : Signal F) (sigs : List (Signal F))
      → is_close_all x ≡ false
      → IsCut n sigs
      → IsCut (suc n) (x ∷ sigs)
  IsCut-cons n x [] h (b, c) = (omega arith, tt)
  IsCut-cons n x (y ∷ ys) h (b, c) = (omega arith, (h, c))

module _ {F S B R : Type 0} ⦃f : Float F⦄ ⦃s : StrategyPort F S⦄ where
  Holds-cons :
      (n : ℕ) (x : Signal F) (rest : Action (Engine F S B R) (List (Signal F))) (e : Engine F S B R)
      → is_close_all x ≡ false
      → Holds (IsCut n) (rest e).0
      → Holds (IsCut (suc n)) ((rest >>= λ sigs. pure (x ∷ sigs)) e).0
  unfolding ◌>>=◌
  Holds-cons n x rest e h k = extended (rest e).0 (rest e).1 k
    where
      extended :
          (r : Result (List (Signal F))) (d : Engine F S B R)
          → Holds (IsCut n) r
          → Holds
              (IsCut (suc n))
              (((λ (c : Engine F S B R). (r, c)) >>= λ sigs. pure (x ∷ sigs)) d).0
      extended (ok sigs) d k = IsCut-cons n x sigs h k
      extended (err why) d k = tt

  drained-IsCut :
      (n : ℕ) (rest : Action (Engine F S B R) (List (Signal F))) (next : Option (Signal F))
      (e : Engine F S B R)
      → Holds (IsCut n) (rest e).0
      → Holds (IsCut (suc n)) (drained rest next e).0
  unfolding drained ◌>>=◌
  drained-IsCut n rest none e k = (omega arith, tt)
  drained-IsCut n rest (some x) e k = elim (Bool-cases (is_close_all x)) [
    | inl h ↦ rw h (omega arith, tt)
    | inr h ↦ rw h (Holds-cons n x rest e h k)
  ]

  asked-IsCut :
      (n : ℕ) (rest : Action (Engine F S B R) (List (Signal F))) (r : Result (Option (Signal F)))
      (d : Engine F S B R)
      → ((c : Engine F S B R) → Holds (IsCut n) (rest c).0)
      → Holds (IsCut (suc n)) (((λ (c : Engine F S B R). (r, c)) >>= λ next. drained rest next) d).0
  unfolding ◌>>=◌
  asked-IsCut n rest (ok next) d k = drained-IsCut n rest next d (k d)
  asked-IsCut n rest (err why) d k = tt

  drain-IsCut :
      (n : ℕ) (bars : List (BarData F)) (e : Engine F S B R) → Holds (IsCut n) (drain n bars e).0
  unfolding drain ◌>>=◌ ask_strategy
  drain-IsCut zero bars e = (omega arith, tt)
  drain-IsCut (suc n) bars e =
      asked-IsCut n (drain n bars) (s.generate bars e.strategy).0
        (record e { strategy = (s.generate bars e.strategy).1 }) (drain-IsCut n bars)

  -- After its first signal a cycle takes fifty more at most, and stops at a request to close all
  -- trades: no signal before the last one is such a request.
  pub all_signals-IsCut :
      (bars : List (BarData F)) (sig : Signal F) (e : Engine F S B R) (sigs : List (Signal F))
      → (all_signals bars sig e).0 ≡ ok sigs
      → (length sigs ≤ 51) × ClosesLast sigs
  unfolding all_signals ◌>>=◌
  all_signals-IsCut bars sig e sigs h =
      subst (Holds (IsCut 51)) h (elim (Bool-cases (is_close_all sig)) [
        | inl g ↦ rw g (omega arith, tt)
        | inr g ↦ rw g (Holds-cons 50 sig (drain 50 bars) e g (drain-IsCut 50 bars e))
      ])
