-- ===== src/PaperBroker/Trades.antt =====
-- Orders of the paper broker, and closing what they open.
use aurex_trade.Prelude.{
  ℕ, ◌+◌, ◌≤◌, ◌<◌, ◌≡◌, refl, true, Option, none, some, List, [], ◌∷◌, ◌==◌, arith, length, ok,
  get_last?, All,
}
use aurex_trade.Prelude.Float.{Float}
use aurex_trade.Prelude.Dict.{Dict, insert, erase, contains}
use aurex_trade.Domain.Models.{BarData, Order, Trade, ClosedTradeInfo}
use aurex_trade.SimBroker.State.{Rng}
use aurex_trade.PaperBroker.{
  Gauss, Paper, get_latest_bars, paper_position, paper_fill, paper_order, paper_close,
}
use aurex_trade.PaperBroker.Bars.{get_latest_bars-again}

-- All ids are below the bound.
abbrev KeysBelow : {V : Type 0} → ℕ → Dict ℕ V → Type 0
KeysBelow n = All (λ e. e.0 < n)

contains-insert_new :
    {V : Type 0} (k : ℕ) (v : V) (d : Dict ℕ V) → contains ◌==◌ k (insert ◌==◌ k v d) ≡ true
contains-insert_new k v [] = ground arith
contains-insert_new k v ((j, w) ∷ d) = ground (arith, contains-insert_new k v d)

erase-insert_new :
    {V : Type 0} (k : ℕ) (v : V) (d : Dict ℕ V)
    → KeysBelow k d
    → erase ◌==◌ k (insert ◌==◌ k v d) ≡ d
erase-insert_new k v [] h = ground arith
erase-insert_new k v ((j, w) ∷ d) h = ground (arith, erase-insert_new k v d h.1)

KeysBelow-insert :
    {V : Type 0} (n k : ℕ) (v : V) (d : Dict ℕ V)
    → k < n
    → KeysBelow n d
    → KeysBelow n (insert ◌==◌ k v d)
KeysBelow-insert n k v [] lt h = (lt, tt)
KeysBelow-insert n k v ((j, w) ∷ d) lt h = ground (arith, KeysBelow-insert n k v d lt h.1)

KeysBelow-erase :
    {V : Type 0} (n k : ℕ) (d : Dict ℕ V) → KeysBelow n d → KeysBelow n (erase ◌==◌ k d)
KeysBelow-erase n k [] h = tt
KeysBelow-erase n k ((j, w) ∷ d) h = ground (arith, KeysBelow-erase n k d h.1)

KeysBelow-mono : {V : Type 0} (m n : ℕ) (d : Dict ℕ V) → m ≤ n → KeysBelow m d → KeysBelow n d
KeysBelow-mono m n [] le h = tt
KeysBelow-mono m n ((j, w) ∷ d) le h = (omega arith, KeysBelow-mono m n d le h.1)

module _ {F R : Type 0} where
  -- The ids of the open trades are among those that the counter has given.
  abbrev pub PaperValid : Paper F R → Type 0
  PaperValid b = KeysBelow (b.trade_counter + 1) b.open_trades

last_of_length : {A : Type 0} (xs : List A) → 0 < length xs → (x : A) × (get_last? xs ≡ some x)
last_of_length [] h = elim h [ ]
last_of_length (x ∷ []) h = (x, refl)
last_of_length (x ∷ y ∷ xs) h = last_of_length (y ∷ xs) (omega arith)

module _ {F R : Type 0} ⦃f : Float F⦄ where
  -- What a fill at a price does to the open trades.
  fill-close :
      (now : ℕ) (order : Order F) (price : F) (b : Paper F R)
      → PaperValid b
      → let (trade, after) = paper_fill now order price b in
        PaperValid after
        × (trade.price ≡ price)
        × (paper_close trade.broker_trade_id after
            ≡ ok (none, record after { open_trades = b.open_trades }))
  unfolding paper_fill paper_close paper_position
  fill-close now order price b valid =
      let id = b.trade_counter + 1 in
      (
        KeysBelow-insert (id + 1) id _ b.open_trades (omega arith)
            (KeysBelow-mono id (id + 1) b.open_trades (omega arith) valid),
        refl,
        rw (contains-insert_new id _ b.open_trades, erase-insert_new id _ b.open_trades valid) refl,
      )

  -- Closing a trade keeps the ids below the counter.
  paper_close-PaperValid :
      (id : ℕ) (b after : Paper F R) (info : Option (ClosedTradeInfo F))
      → PaperValid b
      → paper_close id b ≡ ok (info, after)
      → PaperValid after
  unfolding paper_close
  paper_close-PaperValid id b after info valid e =
      ground (arith, KeysBelow-erase (b.trade_counter + 1) id b.open_trades valid)

module _ {F R : Type 0} ⦃f : Float F⦄ ⦃g : Rng F R⦄ ⦃n : Gauss F R⦄ where
  filled_at_last :
      (now : ℕ) (order : Order F) (b : Paper F R) (bar : BarData F)
      → get_last? (get_latest_bars now order.symbol 1 b).0 ≡ some bar
      → paper_order now order b
        ≡ ok (paper_fill now order bar.close (get_latest_bars now order.symbol 1 b).1)
  unfolding paper_order
  filled_at_last now order b bar last = rw (last, paper_order) refl

  -- With the ids of the open trades among those given, an order is always filled, at the close of
  -- the last bar of its symbol, and the ids stay among those given; closing the trade that it opened
  -- succeeds without details, puts the open trades back as they were, and changes nothing else.
  pub paper_order-close :
      (now : ℕ) (order : Order F) (b : Paper F R)
      → PaperValid b
      → (trade : Trade F) × (after : Paper F R) × (bar : BarData F) × (paper_order now order b
          ≡ ok (trade, after))
        × (get_last? (get_latest_bars now order.symbol 1 b).0 ≡ some bar)
        × (trade.price ≡ bar.close)
        × PaperValid after
        × (paper_close trade.broker_trade_id after
            ≡ ok (none, record after { open_trades = b.open_trades }))
  unfolding get_latest_bars
  paper_order-close now order b valid =
      let (bars, b1) = get_latest_bars now order.symbol 1 b in
      let count : length bars ≡ 1 =
        (get_latest_bars-again now now order.symbol 1 b (omega arith)).0 in
      let (bar, last) = last_of_length bars (omega arith) in
      let filled = paper_fill now order bar.close b1 in
      let (valid', price, close) = fill-close now order bar.close b1 valid in
      (filled.0, filled.1, bar, filled_at_last now order b bar last, last, price, valid', close)
