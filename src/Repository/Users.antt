-- ===== src/Repository/Users.antt =====
-- The repository keeps the users and the symbols apart.
use aurex_trade.Prelude.{
  ℕ, ◌≡◌, refl, String, str_eq, eq_iff, Bool, true, some, List, [], ◌∷◌, ◌++◌, ◌&&◌, ◌==◌,
  if◌then◌else◌, arith, filter, map, ◌↔◌,
}
use aurex_trade.Prelude.Dict.{lookup-insert}
use aurex_trade.Domain.Models.{Trade, Position}
use aurex_trade.Repository.{
  InMemory, key_eq, date, save_trade, save_position, is_todays, get_trades_today,
  get_current_position,
}

key_eq_iff : (a b : String × String) → (key_eq a b ≡ true) ↔ (a ≡ b)
key_eq_iff (u, s) (v, t) = ground (arith, eq_iff u v, eq_iff s t)

filter-append :
    {A : Type 0} (p : A → Bool) (xs ys : List A) → filter p (xs ++ ys) ≡ filter p xs ++ filter p ys
filter-append p [] ys = refl
filter-append p (x ∷ xs) ys = ground (arith, filter-append p xs ys)

map-append : {A B : Type 0} (g : A → B) (xs ys : List A) → map g (xs ++ ys) ≡ map g xs ++ map g ys
map-append g [] ys = refl
map-append g (x ∷ xs) ys = rw (map-append g xs ys) refl

module _ {F : Type 0} where
  -- A saved trade is added to the trades of the day for its own user, symbol and date, at the end,
  -- and every other user, symbol and date sees the trades it saw.
  pub save_trade-get_trades_today :
      (now : ℕ) (user other : String) (symbol : String) (t : Trade F) (r : InMemory F)
      → get_trades_today now other symbol (save_trade user t r)
        ≡ get_trades_today now other symbol r
          ++ (if str_eq user other && str_eq t.symbol symbol && (date t.timestamp == date now)
              then t ∷ []
              else [])
  unfolding get_trades_today save_trade is_todays
  save_trade-get_trades_today now user other symbol t r = ground (
    arith,
    filter-append (is_todays now other symbol) r.trades ((user, t) ∷ []),
    map-append (λ e. e.1) (filter (is_todays now other symbol) r.trades) ((user, t) ∷ []),
    map-append (λ e. e.1) (filter (is_todays now other symbol) r.trades) [],
  )

  -- A saved position replaces the one of its user and symbol, and no other.
  pub save_position-get_current_position :
      (user other : String) (symbol : String) (p : Position F) (r : InMemory F)
      → get_current_position other symbol (save_position user p r) ≡ (
          if str_eq other user && str_eq symbol p.symbol
          then some p
          else get_current_position other symbol r)
  unfolding get_current_position save_position
  save_position-get_current_position user other symbol p r =
      lookup-insert key_eq key_eq_iff (other, symbol) (user, p.symbol) p r.positions
