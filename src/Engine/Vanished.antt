-- ===== src/Engine/Vanished.antt =====
-- What closure detection does: the trades that are neither open nor just placed are unmapped, and each
-- is recorded once.
use mathlib.Core.List.{append-nil}
use aurex_trade.Prelude.{
  ℕ, ◌+◌, String, str_eq, eq_iff, ◌≡◌, refl, not, Option, none, some, List, [], ◌∷◌, ◌++◌, ◌==◌, ok,
  length, filter, arith, Option-cases, inl, inr, length-append, sym, ap, ◌∙◌, ◌&&◌,
}
use aurex_trade.Prelude.Float.{Float, Format}
use aurex_trade.Prelude.Dict.{Dict, lookup, erase}
use aurex_trade.Prelude.Dict.Erase.{HasDistinctKeys, erase_each, erase_each-filter}
use aurex_trade.Prelude.Action.{each, ◌>>=◌}
use aurex_trade.Domain.Models.{OpenBrokerTrade}
use aurex_trade.Engine.Ports.{StrategyPort}
use aurex_trade.Engine.State.{
  Engine, RealizedLedgerEntry, tell, log_event, mark_trade, record_ledger, release_key,
}
use aurex_trade.Engine.Fills.{ids_of, contains_id}
use aurex_trade.Engine.Closures.{
  append_pnl, forget_entry, unmap_trade, closure_pnl, closure_basis, entry_stop, close_vanished,
  check_closures, vanished,
}

abbrev pub known : {F : Type 0} → Option F → List F
known none = []
known (some pnl) = pnl ∷ []

module _ {F S B R : Type 0} ⦃f : Float F⦄ ⦃w : Format F⦄ ⦃s : StrategyPort F S⦄ where
  -- the row of the ledger for a trade that the broker has closed
  abbrev pub stop_out_row : String → ℕ → Engine F S B R → RealizedLedgerEntry F
  stop_out_row key id e = record {
    timestamp = e.clock;
    kind = "stop_out";
    realized_pnl = closure_pnl e.last_price (lookup ◌==◌ id e.trade_entry);
    basis = (closure_basis (entry_stop (lookup ◌==◌ id e.trade_entry)) e.last_price).1;
    grid_level = key;
    broker_trade_id = id;
  }

  -- A vanished trade is unmapped and its entry is forgotten; its profit, if it is known, goes to the
  -- list of profits, and one row with the profit, the basis, the key and the id to the ledger. Nothing
  -- is raised, and the broker is not called.
  pub close_vanished-records :
      (key : String) (id : ℕ) (e : Engine F S B R)
      → let (outcome, d) = close_vanished (key, id) e in
        let pnl = closure_pnl e.last_price (lookup ◌==◌ id e.trade_entry) in
        (outcome ≡ ok tt)
        × (d.grid_trade_map ≡ erase str_eq key e.grid_trade_map)
        × (d.trade_entry ≡ erase ◌==◌ id e.trade_entry)
        × (d.realized_ledger ≡ e.realized_ledger ++ (stop_out_row key id e ∷ []))
        × (d.trade_pnls ≡ e.trade_pnls ++ known pnl)
        × (d.broker ≡ e.broker)
  unfolding close_vanished ◌>>=◌ append_pnl forget_entry unmap_trade tell log_event mark_trade
      record_ledger release_key
  close_vanished-records key id e =
      elim (Option-cases (closure_pnl e.last_price (lookup ◌==◌ id e.trade_entry))) [
        | inl h ↦ rw h (refl, refl, refl, refl, sym (append-nil e.trade_pnls), refl)
        | inr (pnl, h) ↦ rw h (refl, refl, refl, refl, refl, refl)
      ]

  close_each-records :
      (gone : Dict String ℕ) (e : Engine F S B R)
      → let (outcome, d) = each close_vanished gone e in
        (outcome ≡ ok tt)
        × (d.grid_trade_map ≡ erase_each str_eq gone e.grid_trade_map)
        × (length d.realized_ledger ≡ length e.realized_ledger + length gone)
        × (d.broker ≡ e.broker)
  unfolding ◌>>=◌
  close_each-records [] e = (refl, refl, omega arith, refl)
  close_each-records ((key, id) ∷ gone) e =
      let (h0, h1, h2, h3, h4, h5) = close_vanished-records key id e in
      let (g0, g1, g2, g3) = close_each-records gone (close_vanished (key, id) e).1 in
      rw h0 (
        g0,
        g1 ∙ ap (erase_each str_eq gone) h1,
        omega
            (arith, g2, ap length h3, length-append e.realized_ledger (stop_out_row key id e ∷ [])),
        g3 ∙ h5,
      )

  -- With distinct keys in the map, the detection of closures keeps exactly the trades that are open or
  -- that it was told to skip; the ledger gets one row for each of the others; nothing is raised, and the
  -- broker is not called.
  pub check_closures-exact :
      (open_trades : List (OpenBrokerTrade F)) (skip : List ℕ) (e : Engine F S B R)
      → HasDistinctKeys e.grid_trade_map
      → let (outcome, d) = check_closures open_trades skip e in
        let gone = vanished (ids_of open_trades) skip e.grid_trade_map in
        (outcome ≡ ok tt)
        × (d.grid_trade_map
            ≡ filter
                (λ m.
                  not (not (contains_id m.1 skip) && not (contains_id m.1 (ids_of open_trades))))
                e.grid_trade_map)
        × (length d.realized_ledger ≡ length e.realized_ledger + length gone)
        × (d.broker ≡ e.broker)
  unfolding check_closures vanished ◌>>=◌
  check_closures-exact open_trades skip e distinct =
      let gone = vanished (ids_of open_trades) skip e.grid_trade_map in
      let (h0, h1, h2, h3) = close_each-records gone e in
      (h0, h1 ∙ erase_each-filter eq_iff _ e.grid_trade_map distinct, h2, h3)
