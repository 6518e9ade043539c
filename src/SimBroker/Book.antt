-- ===== src/SimBroker/Book.antt =====
-- The books of the simulated broker (adapters/backtest/broker.py) that are kept well, and what each
-- entry into them preserves.
use aurex_trade.Prelude.{
  ℕ, ◌≤◌, ◌<◌, Bool, List, [], ◌∷◌, ◌++◌, arith, ◌==◌, All, erase_first, filter,
}
use aurex_trade.Prelude.Dict
use aurex_trade.Prelude.Dict.{Dict, All-insert}
use aurex_trade.Prelude.Keys.{
  Lacks, Distinct, Below, remove, Distinct-filter, Distinct-erase_first, Below-filter,
  Below-erase_first, Lacks-erase_first, Below-mono, Below-append, Distinct-append, Lacks-append,
  erase_first-Lacks,
}
use aurex_trade.Domain.Models.{ClosedTradeInfo}
use aurex_trade.SimBroker.State.{PendingEntry, OpenTrade, order_id, trade_id}

All-map :
    {V : Type 0} (P Q : ℕ → Type 0)
    → ((k : ℕ) → P k → Q k)
    → (d : List (ℕ × V)) → All (λ e. P e.0) d
    → All (λ e. Q e.0) d
All-map P Q step [] h = tt
All-map P Q step (e ∷ d) h = (step e.0 h.0, All-map P Q step d h.1)

module _ {F : Type 0} where
  -- An id that was given out, and that no open trade has.
  abbrev pub IsSettled : ℕ → List (OpenTrade F) → ℕ → Type 0
  IsSettled next opens k = (k < next) × Lacks trade_id k opens

  -- All ids were given out before `next`, no two open trades share one, nor do two resting orders,
  -- and no closed trade is open.
  pub record IsBook (next : ℕ) (opens : List (OpenTrade F)) (pending : List (PendingEntry F))
      (closed : Dict ℕ (ClosedTradeInfo F)) : Type 0 where
    pub open_distinct : Distinct trade_id opens
    pub open_below : Below trade_id next opens
    pub pending_distinct : Distinct order_id pending
    pub pending_below : Below order_id next pending
    pub settled : All (λ e. IsSettled next opens e.0) closed

  module _ (n : ℕ) (opens : List (OpenTrade F)) (pending : List (PendingEntry F))
      (closed : Dict ℕ (ClosedTradeInfo F)) (v : IsBook n opens pending closed) where
    pub opened :
        (t : OpenTrade F) (m : ℕ)
        → n ≤ t.broker_trade_id
        → t.broker_trade_id < m
        → IsBook m (opens ++ (t ∷ [])) pending closed
    opened t m lo hi =
        let grows : n ≤ m = omega arith in
        record {
          open_distinct = Distinct-append trade_id n t opens lo v.open_below v.open_distinct;
          open_below =
              Below-append trade_id m t opens hi (Below-mono trade_id n m opens grows v.open_below);
          pending_distinct = v.pending_distinct;
          pending_below = Below-mono order_id n m pending grows v.pending_below;
          settled =
              All-map (IsSettled n opens) (IsSettled m (opens ++ (t ∷ [])))
                (λ k h. (omega arith, Lacks-append trade_id k t opens (omega arith) h.1)) closed
                v.settled;
        }

    pub queued :
        (p : PendingEntry F) (m : ℕ)
        → n ≤ p.broker_order_id
        → p.broker_order_id < m
        → IsBook m opens (pending ++ (p ∷ [])) closed
    queued p m lo hi =
        let grows : n ≤ m = omega arith in
        record {
          open_distinct = v.open_distinct;
          open_below = Below-mono trade_id n m opens grows v.open_below;
          pending_distinct =
              Distinct-append order_id n p pending lo v.pending_below v.pending_distinct;
          pending_below =
              Below-append order_id m p pending hi
                (Below-mono order_id n m pending grows v.pending_below);
          settled =
              All-map (IsSettled n opens) (IsSettled m opens) (λ k h. (omega arith, h.1)) closed
                v.settled;
        }

    pub unqueued : (q : PendingEntry F → Bool) → IsBook n opens (erase_first q pending) closed
    unqueued q = record {
      open_distinct = v.open_distinct;
      open_below = v.open_below;
      pending_distinct = Distinct-erase_first order_id q pending v.pending_distinct;
      pending_below = Below-erase_first order_id q n pending v.pending_below;
      settled = v.settled;
    }

    pub unqueued_all : (q : PendingEntry F → Bool) → IsBook n opens (filter q pending) closed
    unqueued_all q = record {
      open_distinct = v.open_distinct;
      open_below = v.open_below;
      pending_distinct = Distinct-filter order_id q pending v.pending_distinct;
      pending_below = Below-filter order_id q n pending v.pending_below;
      settled = v.settled;
    }

    pub settled_trade :
        (t : OpenTrade F) (info : ClosedTradeInfo F)
        → t.broker_trade_id < n
        → IsBook n
            (remove trade_id t opens)
            pending
            (Dict.insert ◌==◌ t.broker_trade_id info closed)
    settled_trade t info below =
        let k = t.broker_trade_id in
        let left = remove trade_id t opens in
        record {
          open_distinct = Distinct-erase_first trade_id _ opens v.open_distinct;
          open_below = Below-erase_first trade_id _ n opens v.open_below;
          pending_distinct = v.pending_distinct;
          pending_below = v.pending_below;
          settled =
              All-insert ◌==◌ (IsSettled n left) k info closed
                (below, erase_first-Lacks trade_id k opens v.open_distinct)
                (All-map (IsSettled n opens) (IsSettled n left)
                  (λ j h. (h.0, Lacks-erase_first trade_id _ j opens h.1)) closed v.settled);
        }
