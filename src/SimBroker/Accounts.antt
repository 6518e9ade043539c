-- ===== src/SimBroker/Accounts.antt =====
-- The money that `process_bar` of adapters/backtest/broker.py moves.
use aurex_trade.Prelude.{
  ℕ, ◌≡◌, ◌↔◌, refl, ◌∙◌, true, some, List, [], ◌∷◌, arith, ◌==◌, ◌&&◌, filter, Bool-cases, inl,
  inr, All,
}
use aurex_trade.Prelude.Float.{Float, ◌⊕◌, ◌⊖◌}
use aurex_trade.Prelude.Dict
use aurex_trade.Prelude.Dict.{lookup-insert, lookup-insert_self}
use aurex_trade.Prelude.Keys.{Lacks, Distinct, Distinct-filter}
use aurex_trade.Domain.Models.{BarData, ClosedTradeInfo}
use aurex_trade.SimBroker.State.{
  Rng, PendingEntry, OpenTrade, Broker, trade_id, apply_friction, pay_commission,
}
use aurex_trade.SimBroker.Orders.{book_close}
use aurex_trade.SimBroker.Bar.{
  is_empty, is_stopped, is_triggered, close_stopped, close_all_stopped, fill_entry, fill_entries,
  process_bar,
}
use aurex_trade.SimBroker.Views.{get_closed_trade_details}
use aurex_trade.SimBroker.Valid.{IsValid}

module _ {F : Type 0} ⦃f : Float F⦄ where
  -- the profits of some closings, added to an amount one after the other
  abbrev pub plus_pnls : F → List (ClosedTradeInfo F) → F
  plus_pnls c [] = c
  plus_pnls c (i ∷ is) = plus_pnls (c ⊕ i.realized_pnl) is

  -- one commission for each fill, taken off an amount, or added to it, one after the other
  abbrev pub less_commissions : F → F → List (OpenTrade F) → F
  less_commissions fee c [] = c
  less_commissions fee c (t ∷ ts) = less_commissions fee (c ⊖ fee) ts

  abbrev pub plus_commissions : F → F → List (OpenTrade F) → F
  plus_commissions fee c [] = c
  plus_commissions fee c (t ∷ ts) = plus_commissions fee (c ⊕ fee) ts

==-iff : (a b : ℕ) → ((a == b) ≡ true) ↔ (a ≡ b)
==-iff a b = ground arith

module _ {F R : Type 0} ⦃f : Float F⦄ ⦃g : Rng F R⦄ where
  close_all_stopped-capital :
      (bar : BarData F) (ts : List (OpenTrade F)) (b : Broker F R)
      → let (closed, b') = close_all_stopped bar ts b in
        (b'.capital ≡ plus_pnls b.capital closed)
        × (b'.total_commission ≡ b.total_commission)
        × (b'.commission_per_trade ≡ b.commission_per_trade)
  unfolding close_all_stopped close_stopped apply_friction book_close
  close_all_stopped-capital bar [] b = (refl, refl, refl)
  close_all_stopped-capital bar (t ∷ ts) b =
      close_all_stopped-capital bar ts (close_stopped bar t b).1

  fill_entries-capital :
      (bar : BarData F) (ps : List (PendingEntry F)) (b : Broker F R)
      → let (filled, b') = fill_entries bar ps b in
        let fee = b.commission_per_trade in
        (b'.capital ≡ less_commissions fee b.capital filled)
        × (b'.total_commission ≡ plus_commissions fee b.total_commission filled)
        × (b'.closed_trades ≡ b.closed_trades)
  unfolding fill_entries fill_entry apply_friction pay_commission
  fill_entries-capital bar [] b = (refl, refl, refl)
  fill_entries-capital bar (p ∷ ps) b = fill_entries-capital bar ps (fill_entry bar p b).1

  -- After a bar the capital is the old one with the realized profit of each closing added and one
  -- commission for each fill taken off, in this order, and the commission total has grown by the same
  -- commissions.
  pub process_bar-capital :
      (bar : BarData F) (b : Broker F R)
      → let (filled, closed, b') = process_bar bar b in
        let fee = b.commission_per_trade in
        (b'.capital ≡ less_commissions fee (plus_pnls b.capital closed) filled)
        × (b'.total_commission ≡ plus_commissions fee b.total_commission filled)
  unfolding process_bar
  process_bar-capital bar b =
      let (closed, b1) = close_all_stopped bar (filter (is_stopped bar) b.open_trades) b in
      let ps = filter (is_triggered bar) b1.pending_orders in
      let (c, t, fee) = close_all_stopped-capital bar (filter (is_stopped bar) b.open_trades) b in
      let (c', t', _) = fill_entries-capital bar ps b1 in
      elim (Bool-cases (is_empty b.open_trades && is_empty b.pending_orders)) [
        | inl idle ↦ rw idle (refl, refl)
        | inr busy ↦ rw (busy, c', t', c, t, fee) (refl, refl)
      ]

  close_all_stopped-others :
      (bar : BarData F) (k : ℕ) (ts : List (OpenTrade F)) (b : Broker F R)
      → Lacks trade_id k ts
      → Dict.lookup ◌==◌ k (close_all_stopped bar ts b).1.closed_trades
        ≡ Dict.lookup ◌==◌ k b.closed_trades
  unfolding close_all_stopped close_stopped apply_friction book_close
  close_all_stopped-others bar k [] b h = refl
  close_all_stopped-others bar k (t ∷ ts) b h =
      close_all_stopped-others bar k ts (close_stopped bar t b).1 h.1
      ∙ lookup-insert ◌==◌ ==-iff k t.broker_trade_id _ b.closed_trades
      ∙ ground arith

  close_all_stopped-details :
      (bar : BarData F) (ts : List (OpenTrade F)) (b : Broker F R)
      → Distinct trade_id ts
      → let (closed, b') = close_all_stopped bar ts b in
        All (λ i. Dict.lookup ◌==◌ i.broker_trade_id b'.closed_trades ≡ some i) closed
  unfolding close_all_stopped close_stopped apply_friction book_close
  close_all_stopped-details bar [] b d = tt
  close_all_stopped-details bar (t ∷ ts) b d = (
    close_all_stopped-others bar t.broker_trade_id ts (close_stopped bar t b).1 d.0
        ∙ lookup-insert_self ◌==◌ t.broker_trade_id _ b.closed_trades (ground arith),
    close_all_stopped-details bar ts (close_stopped bar t b).1 d.1,
  )

  -- In a valid broker each closing that a bar reports is what `get_closed_trade_details` finds under
  -- its id afterwards.
  pub process_bar-details :
      (bar : BarData F) (b : Broker F R)
      → IsValid b
      → let (filled, closed, b') = process_bar bar b in
        All (λ i. get_closed_trade_details i.broker_trade_id b' ≡ some i) closed
  unfolding process_bar get_closed_trade_details
  process_bar-details bar b v =
      let stopped = filter (is_stopped bar) b.open_trades in
      let b1 = (close_all_stopped bar stopped b).1 in
      let ps = filter (is_triggered bar) b1.pending_orders in
      let found =
        close_all_stopped-details bar stopped b
          (Distinct-filter trade_id (is_stopped bar) b.open_trades v.open_distinct) in
      let (_, _, same) = fill_entries-capital bar ps b1 in
      elim (Bool-cases (is_empty b.open_trades && is_empty b.pending_orders)) [
        | inl idle ↦ rw idle tt
        | inr busy ↦ rw (busy, same) found
      ]
