-- ===== src/Web/BotSessions.antt =====
-- The running bots by user, src/aurex_trade/web/_bot_sessions.py. Each method holds the lock, so that a
-- run is a sequence of calls. `calls` records what `stop` asks of the engine and of the connection
-- of a session, in order; it asks the connection also when the engine raises.
use aurex_trade.Prelude.{
  ℕ, ◌≡◌, refl, sym, ap, ◌∙◌, String, str_eq, eq_iff, Bool, true, false, Option, none, some, List,
  [], ◌∷◌, ◌++◌, if◌then◌else◌, Result, ok, err, map, is_some, Bool-cases, ◌⊎◌, inl, inr,
}
use aurex_trade.Prelude.Dict.{Dict, lookup, insert, erase, contains, lookup-insert}

-- `ActiveBotSession`, for engines `E` and connections `C`
pub record BotSession (F E C : Type 0) : Type 0 where
  pub engine : E
  pub connection : C
  pub user_id : String
  pub started_at : ℕ
  pub symbol : String
  pub strategy : String
  pub granularity : String
  pub strategy_params : Dict String F
  pub risk_params : Dict String F

pub data Call (E C : Type 0) : Type 0 where
  stop_engine : E → Call E C
  disconnect : C → Call E C

pub record Sessions (F E C : Type 0) : Type 0 where
  pub sessions : Dict String (BotSession F E C)
  pub calls : List (Call E C)

append_assoc : {A : Type 0} (xs ys zs : List A) → (xs ++ ys) ++ zs ≡ xs ++ (ys ++ zs)
append_assoc [] ys zs = refl
append_assoc (x ∷ xs) ys zs = ap (◌∷◌ x) (append_assoc xs ys zs)

append_nil : {A : Type 0} (xs : List A) → xs ++ [] ≡ xs
append_nil [] = refl
append_nil (x ∷ xs) = ap (◌∷◌ x) (append_nil xs)

module _ {F E C : Type 0} where
  unfoldable no_sessions : Sessions F E C
  no_sessions = record { sessions = []; calls = [] }

  -- `session` has the arguments of the call, and the time, as its fields.
  pub start : BotSession F E C → Sessions F E C → Result (BotSession F E C × Sessions F E C)
  start session m =
      if contains str_eq session.user_id m.sessions
      then err "BotAlreadyRunningError"
      else ok (session, record m { sessions = insert str_eq session.user_id session m.sessions })

  -- what `stop` does with the session it has taken out
  abbrev pub end_session : BotSession F E C → List (Call E C)
  end_session s = Call.stop_engine s.engine ∷ Call.disconnect s.connection ∷ []

  unfoldable pub stop : String → Sessions F E C → Sessions F E C
  stop user_id m = elim (lookup str_eq user_id m.sessions) [
    | none ↦ m
    | some s ↦ record m {
      sessions = erase str_eq user_id m.sessions;
      calls = m.calls ++ end_session s;
    }
  ]

  pub get : String → Sessions F E C → Option (BotSession F E C)
  get user_id m = lookup str_eq user_id m.sessions

  pub is_running : String → Sessions F E C → Bool
  is_running user_id m = is_some (get user_id m)

  stop_each : List String → Sessions F E C → Sessions F E C
  stop_each [] m = m
  stop_each (u ∷ us) m = stop_each us (stop u m)

  pub stop_all : Sessions F E C → Sessions F E C
  stop_all m = stop_each (map (λ e. e.0) m.sessions) m

  -- all the calls that end the sessions, in the order of their starts
  abbrev pub end_all : Dict String (BotSession F E C) → List (Call E C)
  end_all [] = []
  end_all ((u, s) ∷ d) = end_session s ++ end_all d

  stop_first :
      (u : String) (s : BotSession F E C) (d : Dict String (BotSession F E C)) (c : List (Call E C))
      → stop u (record { sessions = (u, s) ∷ d; calls = c })
        ≡ record { sessions = d; calls = c ++ end_session s }
  unfolding stop
  stop_first u s d c =
      let same : str_eq u u ≡ true = (eq_iff u u).1 refl in
      let gone : erase str_eq u ((u, s) ∷ d) ≡ d = rw (same, erase) refl in
      rw (same, stop) (ap (λ x. record { sessions = x; calls = c ++ end_session s }) gone)

  stop_each_all :
      (d : Dict String (BotSession F E C)) (c : List (Call E C))
      → stop_each (map (λ e. e.0) d) (record { sessions = d; calls = c })
        ≡ record { sessions = []; calls = c ++ end_all d }
  unfolding stop_each
  stop_each_all [] c = ap (λ x. record { sessions = []; calls = x }) (sym (append_nil c))
  stop_each_all ((u, s) ∷ d) c =
      ap (stop_each (map (λ e. e.0) d)) (stop_first u s d c)
      ∙ (stop_each_all d (c ++ end_session s)
          ∙ ap (λ x. record { sessions = []; calls = x })
              (append_assoc c (end_session s) (end_all d)))

  -- Stopping all bots leaves none, and ends each session that was there once: its engine is
  -- stopped and its connection closed, one session after the other.
  pub stop_all_lem :
      (m : Sessions F E C)
      → stop_all m ≡ record { sessions = []; calls = m.calls ++ end_all m.sessions }
  unfolding stop_all stop
  stop_all_lem m = stop_each_all m.sessions m.calls

  -- Starting a bot fails exactly if its user has one that runs, which is then left alone; or else the
  -- session is the one its user has afterwards, and no other user's has changed.
  pub start_lem :
      (session : BotSession F E C) (user : String) (m : Sessions F E C)
      → ((is_running session.user_id m ≡ true) × (start session m ≡ err "BotAlreadyRunningError"))
        ⊎ ((after : Sessions F E C) × (is_running session.user_id m ≡ false)
            × (start session m ≡ ok (session, after))
            × (get user after ≡ (if str_eq user session.user_id then some session else get user m))
            × (after.calls ≡ m.calls))
  unfolding start is_running get
  start_lem session user m = elim (Bool-cases (contains str_eq session.user_id m.sessions)) [
    | inl e ↦ inl (e, rw (e, start) refl)
    | inr e ↦ inr (
      record m { sessions = insert str_eq session.user_id session m.sessions },
      e,
      rw (e, start) refl,
      lookup-insert str_eq eq_iff user session.user_id session m.sessions,
      refl,
    )
  ]
