-- ===== src/SimBroker/Stops.antt =====
-- Which trades and orders `process_bar` of adapters/backtest/broker.py moves.
use aurex_trade.Prelude.{
  ℕ, ◌≡◌, refl, sym, ap, ◌∙◌, String, Bool, true, false, Option, some, List, [], ◌∷◌, ◌++◌, map,
  arith, ◌⊎◌, ◌↔◌, ◌&&◌, not, filter, Bool-cases, inl, inr,
}
use mathlib.Core.List.{append_assoc, append-nil}
use aurex_trade.Prelude.Float.{Float, ◌≼◌}
use aurex_trade.Prelude.Keys.{remove_all, remove_all-filter}
use aurex_trade.Domain.Enums.{OrderSide}
use aurex_trade.Domain.Models.{BarData, ClosedTradeInfo}
use aurex_trade.SimBroker.State.{
  Rng, PendingEntry, OpenTrade, Broker, order_id, trade_id, apply_friction, pay_commission,
}
use aurex_trade.SimBroker.Orders.{book_close}
use aurex_trade.SimBroker.Bar.{
  is_empty, is_stopped, is_triggered, close_stopped, close_all_stopped, fill_entry, fill_entries,
  process_bar,
}
use aurex_trade.SimBroker.Valid.{IsValid}

module _ {F : Type 0} where
  abbrev pub closed_id : ClosedTradeInfo F → ℕ
  closed_id i = i.broker_trade_id

  -- what a trade takes over from the entry that it fills
  abbrev pub outline : OpenTrade F → String × OrderSide × F × Option F × String
  outline t = (t.symbol, t.side, t.quantity, t.stop_loss, t.grid_level_key)

  abbrev pub entry_outline : PendingEntry F → String × OrderSide × F × Option F × String
  entry_outline p = (p.symbol, p.side, p.quantity, p.stop_loss, p.grid_level_key)

module _ {F : Type 0} ⦃f : Float F⦄ where
  -- The range of the bar reaches the stop-loss, from above for a long and from below for a short.
  abbrev pub HitsStop : BarData F → OpenTrade F → Type 0
  HitsStop bar t =
      (stop : F) × (t.stop_loss ≡ some stop)
      × (((t.side ≡ OrderSide.buy) × (bar.low ≼ stop))
          ⊎ ((t.side ≡ OrderSide.sell) × (stop ≼ bar.high)))

  -- A trade is stopped exactly when it has a stop-loss that the bar reaches; one without never is.
  pub is_stopped_iff :
      (bar : BarData F) (t : OpenTrade F) → (is_stopped bar t ≡ true) ↔ HitsStop bar t
  unfolding is_stopped
  is_stopped_iff bar t = (λ h. ground arith, λ h. ground arith)

  -- The bar reaches the price of the resting entry: a LIMIT to buy from above and one to sell from below,
  -- a STOP to buy from below and one to sell from above.
  abbrev pub HitsEntry : BarData F → PendingEntry F → Type 0
  HitsEntry bar p =
      ((p.is_stop ≡ false) × (p.side ≡ OrderSide.buy) × (bar.low ≼ p.limit_price))
      ⊎ ((p.is_stop ≡ false) × (p.side ≡ OrderSide.sell) × (p.limit_price ≼ bar.high))
      ⊎ ((p.is_stop ≡ true) × (p.side ≡ OrderSide.buy) × (p.limit_price ≼ bar.high))
      ⊎ ((p.is_stop ≡ true) × (p.side ≡ OrderSide.sell) × (bar.low ≼ p.limit_price))

  is_triggered_iff :
      (bar : BarData F) (p : PendingEntry F) → (is_triggered bar p ≡ true) ↔ HitsEntry bar p
  unfolding is_triggered
  is_triggered_iff bar p = (λ h. ground arith, λ h. ground arith)

-- The list falls into the elements with the property and those without, both in their order.
pub data Parted {A : Type 0} (P : A → Type 0) : List A → List A → List A → Type 0 where
  parted_end : Parted P [] [] []
  parted_in :
      {x : A} {xs ins outs : List A} → P x → Parted P xs ins outs → Parted P (x ∷ xs) (x ∷ ins) outs
  parted_out :
      {x : A} {xs ins outs : List A}
      → ¬ P x
      → Parted P xs ins outs
      → Parted P (x ∷ xs) ins (x ∷ outs)

Parted-filter :
    {A : Type 0} (P : A → Type 0) (p : A → Bool)
    → ((x : A) → (p x ≡ true) ↔ P x)
    → (xs : List A) → Parted P xs (filter p xs) (filter (λ x. not (p x)) xs)
Parted-filter P p same [] = Parted.parted_end
Parted-filter P p same (x ∷ xs) = elim (Bool-cases (p x)) [
  | inl e ↦ rw e (Parted.parted_in ((same x).0 e) (Parted-filter P p same xs))
  | inr e ↦ rw e (Parted.parted_out (λ h. cc ((same x).1 h, e)) (Parted-filter P p same xs))
]

module _ {F R : Type 0} ⦃f : Float F⦄ ⦃g : Rng F R⦄ where
  close_all_stopped-open :
      (bar : BarData F) (ts : List (OpenTrade F)) (b : Broker F R)
      → (close_all_stopped bar ts b).1.open_trades ≡ remove_all trade_id ts b.open_trades
  unfolding close_all_stopped close_stopped apply_friction book_close
  close_all_stopped-open bar [] b = refl
  close_all_stopped-open bar (t ∷ ts) b = close_all_stopped-open bar ts (close_stopped bar t b).1

  close_all_stopped-pending :
      (bar : BarData F) (ts : List (OpenTrade F)) (b : Broker F R)
      → (close_all_stopped bar ts b).1.pending_orders ≡ b.pending_orders
  unfolding close_all_stopped close_stopped apply_friction book_close
  close_all_stopped-pending bar [] b = refl
  close_all_stopped-pending bar (t ∷ ts) b =
      close_all_stopped-pending bar ts (close_stopped bar t b).1

  close_all_stopped-ids :
      (bar : BarData F) (ts : List (OpenTrade F)) (b : Broker F R)
      → map closed_id (close_all_stopped bar ts b).0 ≡ map trade_id ts
  unfolding close_all_stopped close_stopped apply_friction book_close
  close_all_stopped-ids bar [] b = refl
  close_all_stopped-ids bar (t ∷ ts) b =
      ap (◌∷◌ t.broker_trade_id) (close_all_stopped-ids bar ts (close_stopped bar t b).1)

  fill_entries-open :
      (bar : BarData F) (ps : List (PendingEntry F)) (b : Broker F R)
      → let (filled, b') = fill_entries bar ps b in b'.open_trades ≡ b.open_trades ++ filled
  unfolding fill_entries fill_entry apply_friction pay_commission
  fill_entries-open bar [] b = sym (append-nil b.open_trades)
  fill_entries-open bar (p ∷ ps) b =
      fill_entries-open bar ps (fill_entry bar p b).1
      ∙ append_assoc b.open_trades ((fill_entry bar p b).0 ∷ []) _

  fill_entries-pending :
      (bar : BarData F) (ps : List (PendingEntry F)) (b : Broker F R)
      → (fill_entries bar ps b).1.pending_orders ≡ remove_all order_id ps b.pending_orders
  unfolding fill_entries fill_entry apply_friction pay_commission
  fill_entries-pending bar [] b = refl
  fill_entries-pending bar (p ∷ ps) b = fill_entries-pending bar ps (fill_entry bar p b).1

  fill_entries-outline :
      (bar : BarData F) (ps : List (PendingEntry F)) (b : Broker F R)
      → map outline (fill_entries bar ps b).0 ≡ map entry_outline ps
  unfolding fill_entries fill_entry apply_friction pay_commission
  fill_entries-outline bar [] b = refl
  fill_entries-outline bar (p ∷ ps) b =
      ap (◌∷◌ (entry_outline p)) (fill_entries-outline bar ps (fill_entry bar p b).1)

  -- the same by the tests of the code
  abbrev Splits :
      BarData F → Broker F R → List (OpenTrade F) × List (ClosedTradeInfo F) × Broker F R → Type 0
  Splits bar b r =
      (r.2.open_trades ≡ filter (λ t. not (is_stopped bar t)) b.open_trades ++ r.0)
      × (r.2.pending_orders ≡ filter (λ p. not (is_triggered bar p)) b.pending_orders)
      × (map closed_id r.1 ≡ map trade_id (filter (is_stopped bar) b.open_trades))
      × (map outline r.0 ≡ map entry_outline (filter (is_triggered bar) b.pending_orders))

  busy-Splits :
      (bar : BarData F) (b : Broker F R)
      → IsValid b
      → let (closed, b1) = close_all_stopped bar (filter (is_stopped bar) b.open_trades) b in
        let (filled, b2) = fill_entries bar (filter (is_triggered bar) b1.pending_orders) b1 in
        Splits bar b (filled, closed, b2)
  busy-Splits bar b v =
      let stopped = filter (is_stopped bar) b.open_trades in
      let b1 = (close_all_stopped bar stopped b).1 in
      let same : b1.pending_orders ≡ b.pending_orders = close_all_stopped-pending bar stopped b in
      let triggered = filter (is_triggered bar) b1.pending_orders in
      (
        fill_entries-open bar triggered b1
            ∙ ap (λ xs. xs ++ (fill_entries bar triggered b1).0)
                (close_all_stopped-open bar stopped b
                  ∙ remove_all-filter trade_id (is_stopped bar) b.open_trades v.open_distinct),
        fill_entries-pending bar triggered b1
            ∙ ap (λ xs. remove_all order_id (filter (is_triggered bar) xs) xs) same
            ∙ remove_all-filter order_id (is_triggered bar) b.pending_orders v.pending_distinct,
        close_all_stopped-ids bar stopped b,
        fill_entries-outline bar triggered b1
            ∙ ap (λ xs. map entry_outline (filter (is_triggered bar) xs)) same,
      )

  idle-Splits :
      (bar : BarData F) (b : Broker F R)
      → is_empty b.open_trades && is_empty b.pending_orders ≡ true
      → Splits bar b ([], [], b)
  idle-Splits bar b idle = ground arith

  -- What `process_bar` does to the books, to what it returns: the trades filled, the closings, and the
  -- broker afterwards.
  pub record Moves (bar : BarData F) (b : Broker F R)
      (r : List (OpenTrade F) × List (ClosedTradeInfo F) × Broker F R) : Type 0 where
    pub stopped : List (OpenTrade F)
    pub kept : List (OpenTrade F)
    pub trades_parted : Parted (HitsStop bar) b.open_trades stopped kept
    pub entered : List (PendingEntry F)
    pub resting : List (PendingEntry F)
    pub entries_parted : Parted (HitsEntry bar) b.pending_orders entered resting
    pub open_after : r.2.open_trades ≡ kept ++ r.0
    pub pending_after : r.2.pending_orders ≡ resting
    pub closings : map closed_id r.1 ≡ map trade_id stopped
    pub fills : map outline r.0 ≡ map entry_outline entered

  process_bar-Splits :
      (bar : BarData F) (b : Broker F R) → IsValid b → Splits bar b (process_bar bar b)
  unfolding process_bar
  process_bar-Splits bar b v =
      elim (Bool-cases (is_empty b.open_trades && is_empty b.pending_orders)) [
        | inl idle ↦ rw idle (idle-Splits bar b idle)
        | inr busy ↦ rw busy (busy-Splits bar b v)
      ]

  -- In a valid broker a bar closes exactly the trades whose stop-loss it reaches, in their order, and
  -- fills exactly the entries whose price it reaches, each with its symbol, side, quantity, stop-loss
  -- and grid key; the other trades and entries stay, in order, and the new trades stand at the end. A
  -- stop-loss is reached at or above the low for a long and at or below the high for a short; a LIMIT
  -- to buy or a STOP to sell is reached at or above the low, a LIMIT to sell or a STOP to buy at or
  -- below the high.
  pub process_bar-Moves :
      (bar : BarData F) (b : Broker F R) → IsValid b → Moves bar b (process_bar bar b)
  process_bar-Moves bar b v =
      let (open_after, pending_after, closings, fills) = process_bar-Splits bar b v in
      record {
        stopped = filter (is_stopped bar) b.open_trades;
        kept = filter (λ t. not (is_stopped bar t)) b.open_trades;
        trades_parted =
            Parted-filter (HitsStop bar) (is_stopped bar) (is_stopped_iff bar) b.open_trades;
        entered = filter (is_triggered bar) b.pending_orders;
        resting = filter (λ p. not (is_triggered bar p)) b.pending_orders;
        entries_parted =
            Parted-filter (HitsEntry bar) (is_triggered bar) (is_triggered_iff bar)
              b.pending_orders;
        open_after = open_after;
        pending_after = pending_after;
        closings = closings;
        fills = fills;
      }
