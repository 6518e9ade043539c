-- ===== src/Engine/Ledger.antt =====
-- What closure detection writes into the ledger of realized profits: `_check_closures` and
-- `_realized_pnl_from_entry` (engine/trading_engine.py).
use mathlib.Core.List.{append_assoc, append-nil}
use aurex_trade.Prelude.{
  ℕ, String, ◌≡◌, ◌≢◌, ◌⊎◌, refl, ap, sym, ◌∙◌, not, ◌&&◌, Bool, Option, none, some, List, [], ◌∷◌,
  ◌++◌, ◌==◌, filter, arith, Option-cases, Bool-cases, inl, inr, All, All-filter,
}
use aurex_trade.Prelude.Float.{Float, Format, ◌⊖◌, ◌⊗◌}
use aurex_trade.Prelude.Dict.{Dict, lookup, erase}
use aurex_trade.Prelude.Action.{each, ◌>>=◌}
use aurex_trade.Domain.Enums.{OrderSide}
use aurex_trade.Domain.Models.{OpenBrokerTrade}
use aurex_trade.Engine.Ports.{StrategyPort}
use aurex_trade.Engine.State.{
  Engine, TradeEntry, RealizedLedgerEntry, tell, log_event, mark_trade, record_ledger, release_key,
}
use aurex_trade.Engine.Fills.{ids_of, contains_id}
use aurex_trade.Engine.Closures.{
  append_pnl, forget_entry, unmap_trade, closure_pnl, realized_pnl_from_entry, close_vanished,
  check_closures, vanished,
}
use aurex_trade.Engine.Vanished.{stop_out_row, known, close_vanished-records}

-- No trade is mapped under two keys.
abbrev pub HasDistinctIds : Dict String ℕ → Type 0
HasDistinctIds [] = Unit
HasDistinctIds ((key, id) ∷ d) = All (λ m. m.1 ≢ id) d × HasDistinctIds d

HasDistinctIds-filter :
    (p : String × ℕ → Bool) (d : Dict String ℕ) → HasDistinctIds d → HasDistinctIds (filter p d)
HasDistinctIds-filter p [] h = tt
HasDistinctIds-filter p ((key, id) ∷ d) h = elim (Bool-cases (p (key, id))) [
  | inl e ↦ rw e (All-filter _ p d h.0, HasDistinctIds-filter p d h.1)
  | inr e ↦ rw e (HasDistinctIds-filter p d h.1)
]

lookup-erase_other :
    {V : Type 0} (i j : ℕ) (d : Dict ℕ V) → i ≢ j → lookup ◌==◌ i (erase ◌==◌ j d) ≡ lookup ◌==◌ i d
lookup-erase_other i j [] ne = refl
lookup-erase_other i j ((k, v) ∷ d) ne = ground (arith, lookup-erase_other i j d ne)

side-cases : (side : OrderSide) → (side ≡ OrderSide.buy) ⊎ (side ≡ OrderSide.sell)
side-cases OrderSide.buy = inl refl
side-cases OrderSide.sell = inr refl

module _ {F : Type 0} ⦃f : Float F⦄ where
  -- A stopped trade leaves at its stop-loss, and one without at the last price that is known.
  abbrev pub LeavesAt : Option F → TradeEntry F → F → Type 0
  LeavesAt last t price = (t.stop_loss ≡ some price) ⊎ ((t.stop_loss ≡ none) × (last ≡ some price))

  -- What a trade made, if its entry and its exit are known: a buy makes what the price has risen, a sell
  -- what it has fallen, times the quantity.
  abbrev pub HasMade : Option F → Option (TradeEntry F) → Option F → Type 0
  HasMade last none profit = profit ≡ none
  HasMade last (some t) profit =
      ((t.stop_loss ≡ none) × (last ≡ none) × (profit ≡ none))
      ⊎ ((price : F) × LeavesAt last t price
          × (((t.side ≡ OrderSide.buy) × (profit ≡ some ((price ⊖ t.entry_price) ⊗ t.quantity)))
              ⊎ ((t.side ≡ OrderSide.sell)
                  × (profit ≡ some ((t.entry_price ⊖ price) ⊗ t.quantity)))))

  pub record IsStopOut (clock : ℕ) (last : Option F) (entries : Dict ℕ (TradeEntry F))
      (m : String × ℕ) (row : RealizedLedgerEntry F) : Type 0 where
    pub at : row.timestamp ≡ clock
    pub kind : row.kind ≡ "stop_out"
    pub key : row.grid_level ≡ m.0
    pub id : row.broker_trade_id ≡ m.1
    pub made : HasMade last (lookup ◌==◌ m.1 entries) row.realized_pnl

  -- One row for each of the trades, in their order.
  abbrev pub AreStopOuts :
      ℕ → Option F → Dict ℕ (TradeEntry F) → Dict String ℕ → List (RealizedLedgerEntry F) → Type 0
  AreStopOuts clock last entries [] [] = Unit
  AreStopOuts clock last entries [] (row ∷ rows) = ⊥
  AreStopOuts clock last entries (m ∷ gone) [] = ⊥
  AreStopOuts clock last entries (m ∷ gone) (row ∷ rows) =
      IsStopOut clock last entries m row × AreStopOuts clock last entries gone rows

  -- the profits that are known
  abbrev pub profits : List (RealizedLedgerEntry F) → List F
  profits [] = []
  profits (row ∷ rows) = known row.realized_pnl ++ profits rows

  closure_pnl-HasMade :
      (last : Option F) (entry : Option (TradeEntry F))
      → HasMade last entry (closure_pnl last entry)
  unfolding closure_pnl realized_pnl_from_entry
  closure_pnl-HasMade last none = refl
  closure_pnl-HasMade last (some t) = elim (Option-cases t.stop_loss) [
    | inr (price, stop) ↦ inr (
      price,
      inl stop,
      elim (side-cases t.side) [
        | inl buys ↦ inl (buys, rw (stop, buys, realized_pnl_from_entry) refl)
        | inr sells ↦ inr (sells, rw (stop, sells, realized_pnl_from_entry) refl)
      ],
    )
    | inl open_end ↦ elim (Option-cases last) [
      | inl unknown ↦ inl (open_end, unknown, rw (open_end, unknown, realized_pnl_from_entry) refl)
      | inr (price, found) ↦ inr (
        price,
        inr (open_end, found),
        elim (side-cases t.side) [
          | inl buys ↦ inl (buys, rw (open_end, found, buys, realized_pnl_from_entry) refl)
          | inr sells ↦ inr (sells, rw (open_end, found, sells, realized_pnl_from_entry) refl)
        ],
      )
    ]
  ]

  AreStopOuts-erase :
      (clock : ℕ) (last : Option F) (entries : Dict ℕ (TradeEntry F)) (j : ℕ) (gone : Dict String ℕ)
      (rows : List (RealizedLedgerEntry F))
      → All (λ m. m.1 ≢ j) gone
      → AreStopOuts clock last (erase ◌==◌ j entries) gone rows
      → AreStopOuts clock last entries gone rows
  AreStopOuts-erase clock last entries j [] [] h a = tt
  AreStopOuts-erase clock last entries j [] (row ∷ rows) h a = absurd a
  AreStopOuts-erase clock last entries j (m ∷ gone) [] h a = absurd a
  AreStopOuts-erase clock last entries j (m ∷ gone) (row ∷ rows) h a = (
    record {
      at = a.0.at;
      kind = a.0.kind;
      key = a.0.key;
      id = a.0.id;
      made = rw (lookup-erase_other m.1 j entries h.0) at a.0.made;
    },
    AreStopOuts-erase clock last entries j gone rows h.1 a.1,
  )

module _ {F S B R : Type 0} ⦃f : Float F⦄ ⦃w : Format F⦄ ⦃s : StrategyPort F S⦄ where
  close_vanished-same :
      (key : String) (id : ℕ) (e : Engine F S B R)
      → let d = (close_vanished (key, id) e).1 in
        (d.clock ≡ e.clock) × (d.last_price ≡ e.last_price)
  unfolding close_vanished ◌>>=◌ append_pnl forget_entry unmap_trade tell log_event mark_trade
      record_ledger release_key
  close_vanished-same key id e =
      elim (Option-cases (closure_pnl e.last_price (lookup ◌==◌ id e.trade_entry))) [
        | inl h ↦ rw h (refl, refl)
        | inr (pnl, h) ↦ rw h (refl, refl)
      ]

  -- what the ledger and the list of profits get for the trades that are gone
  abbrev pub Records : Dict String ℕ → Engine F S B R → Engine F S B R → Type 0
  Records gone e d =
      (rows : List (RealizedLedgerEntry F)) × (d.realized_ledger ≡ e.realized_ledger ++ rows)
      × AreStopOuts e.clock e.last_price e.trade_entry gone rows
      × (d.trade_pnls ≡ e.trade_pnls ++ profits rows)

  close_each-ledger :
      (gone : Dict String ℕ) (e : Engine F S B R)
      → HasDistinctIds gone
      → Records gone e (each close_vanished gone e).1
  unfolding ◌>>=◌
  close_each-ledger [] e h =
      ([], sym (append-nil e.realized_ledger), tt, sym (append-nil e.trade_pnls))
  close_each-ledger ((key, id) ∷ gone) e h =
      let (fine, _, entries, ledger, pnls, _) = close_vanished-records key id e in
      let (clock, last) = close_vanished-same key id e in
      let d = (close_vanished (key, id) e).1 in
      let row = stop_out_row key id e in
      let (rows, ledger', outs, pnls') = close_each-ledger gone d h.1 in
      rw fine (
        row ∷ rows,
        ledger' ∙ ap (λ l. l ++ rows) ledger ∙ append_assoc e.realized_ledger (row ∷ []) rows,
        (
          record {
            at = refl;
            kind = refl;
            key = refl;
            id = refl;
            made = closure_pnl-HasMade e.last_price (lookup ◌==◌ id e.trade_entry);
          },
          AreStopOuts-erase e.clock e.last_price e.trade_entry id gone rows h.0
              (rw (clock, last, entries) at outs),
        ),
        pnls'
            ∙ ap (λ l. l ++ profits rows) pnls
            ∙ append_assoc e.trade_pnls (known row.realized_pnl) (profits rows),
      )

  -- If no trade is mapped under two keys, the detection of closures adds to the ledger one row for each
  -- mapped trade that is neither open nor to be skipped, in the order of the map, with the time, the
  -- key and the id of the trade and with its profit: for a trade whose entry is recorded what the price
  -- has risen for a buy, or fallen for a sell, from the entry to the stop-loss, or to the last price if
  -- it had none, times the quantity, and no profit if these are not known. The profits that are known
  -- are added, in this order, to the list of profits.
  pub check_closures-ledger :
      (open_trades : List (OpenBrokerTrade F)) (skip : List ℕ) (e : Engine F S B R)
      → HasDistinctIds e.grid_trade_map
      → Records
          (filter
            (λ m. not (contains_id m.1 skip) && not (contains_id m.1 (ids_of open_trades)))
            e.grid_trade_map)
          e
          (check_closures open_trades skip e).1
  unfolding check_closures vanished ◌>>=◌
  check_closures-ledger open_trades skip e distinct =
      close_each-ledger _ e (HasDistinctIds-filter _ e.grid_trade_map distinct)
