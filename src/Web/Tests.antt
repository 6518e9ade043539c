-- ===== src/Web/Tests.antt =====
-- Examples for the registries of src/aurex_trade/web/.
use aurex_trade.Prelude.{
  ℕ, ◌+◌, ◌≤◌, ◌≡◌, refl, String, false, none, some, [], ◌∷◌, ◌==◌, length, arith,
}
use aurex_trade.Prelude.Dict.{lookup}
use aurex_trade.Web.BotSessions.{BotSession, Sessions}
use aurex_trade.Web.Tasks.{TaskStatus, TaskInfo, Registry, Outcome, is_finished, finished, on_done}
use aurex_trade.Web.Eviction.{WellKept}
use aurex_trade.Web.TaskLimit.{on_done-bound, on_done-keeps}

-- a session whose engine and connection are named by numbers
abbrev session_of : String → ℕ → BotSession ℕ ℕ ℕ
session_of user n = record {
  engine = n;
  connection = n + 1;
  user_id = user;
  started_at = 5;
  symbol = "XAU_USD";
  strategy = "ciby_hedged_doubling_grid";
  granularity = "M1";
  strategy_params = [];
  risk_params = [];
}

abbrev two_bots : Sessions ℕ ℕ ℕ
two_bots = record {
  sessions = ("ada", session_of "ada" 10) ∷ ("ben", session_of "ben" 20) ∷ [];
  calls = [];
}

abbrev task_of : ℕ → TaskStatus → TaskInfo ℕ
task_of id status = record {
  id = id;
  task_type = "sweep";
  status = status;
  created_at = id;
  completed_at = none;
  result = none;
  error = none;
  message = none;
}

abbrev tasks : Registry ℕ
tasks =
    (1, task_of 1 TaskStatus.running)
    ∷ (2, task_of 2 TaskStatus.completed)
    ∷ (3, task_of 3 TaskStatus.running)
    ∷ []

tasks-WellKept : WellKept tasks
tasks-WellKept = ground arith

on_done-bound_example :
    WellKept (on_done 3 (Outcome.raised "ValueError: no bars") 9 tasks)
    × (length (finished (on_done 3 (Outcome.raised "ValueError: no bars") 9 tasks)) ≤ 100)
on_done-bound_example =
    on_done-bound 3 (Outcome.raised "ValueError: no bars") 9 tasks tasks-WellKept refl

running_one : is_finished (task_of 1 TaskStatus.running) ≡ false
unfolding is_finished
running_one = refl

on_done-keeps_example :
    lookup ◌==◌ 1 (on_done 3 (Outcome.returned 8) 9 tasks) ≡ some (task_of 1 TaskStatus.running)
on_done-keeps_example =
    on_done-keeps 3 1 (Outcome.returned 8) 9 (task_of 1 TaskStatus.running) tasks tasks-WellKept
      (ground arith) running_one refl
