-- ===== src/Web/Tasks.antt =====
-- The registry of background tasks, src/aurex_trade/web/tasks.py. Every access to the tasks holds the
-- lock, so that a run is a sequence of the calls below; the thread pool decides when it reports a
-- task as done. Times are numbers, and `sort` is stable, as Python's is.
use aurex_trade.Prelude.{
  ℕ, ◌-◌, String, Bool, true, false, Option, none, some, List, [], ◌∷◌, ◌==◌, leb, if◌then◌else◌,
  length, filter, map, take,
}
use aurex_trade.Prelude.Dict.{Dict, lookup, insert, erase}

pub data TaskStatus : Type 0 where
  pending : TaskStatus
  running : TaskStatus
  completed : TaskStatus
  failed : TaskStatus

-- with results of the type `A`
pub record TaskInfo (A : Type 0) : Type 0 where
  pub id : ℕ
  pub task_type : String
  pub status : TaskStatus
  pub created_at : ℕ
  pub completed_at : Option ℕ
  pub result : Option A
  pub error : Option String
  pub message : Option String

abbrev pub Registry : Type 0 → Type 0
Registry A = Dict ℕ (TaskInfo A)

-- what the future of a task holds: a result, or the text of an exception
pub data Outcome (A : Type 0) : Type 0 where
  returned : A → Outcome A
  raised : String → Outcome A

abbrev pub max_completed_tasks : ℕ
max_completed_tasks = 100

abbrev pub status_is_finished : TaskStatus → Bool
status_is_finished TaskStatus.pending = false
status_is_finished TaskStatus.running = false
status_is_finished TaskStatus.completed = true
status_is_finished TaskStatus.failed = true

module _ {A : Type 0} where
  unfoldable pub is_finished : TaskInfo A → Bool
  is_finished t = status_is_finished t.status

  abbrev pub values : Registry A → List (TaskInfo A)
  values tasks = map (λ e. e.1) tasks

  -- the registering half of `submit`; the pool then runs the task
  unfoldable submit : ℕ → String → ℕ → Registry A → Registry A
  submit id task_type now tasks =
      insert ◌==◌ id
        (record {
          id = id;
          task_type = task_type;
          status = TaskStatus.running;
          created_at = now;
          completed_at = none;
          result = none;
          error = none;
          message = none;
        })
        tasks

  unfoldable update_message : ℕ → String → Registry A → Registry A
  update_message id message tasks = elim (lookup ◌==◌ id tasks) [
    | none ↦ tasks
    | some info ↦ insert ◌==◌ id (record info { message = some message }) tasks
  ]

  unfoldable get_task : ℕ → Registry A → Option (TaskInfo A)
  get_task id tasks = lookup ◌==◌ id tasks

  -- `sort(key=lambda t: t.created_at)`, and the same with `reverse=True`, which keeps equal ones in
  -- their order too
  unfoldable pub insert_oldest : TaskInfo A → List (TaskInfo A) → List (TaskInfo A)
  insert_oldest t [] = t ∷ []
  insert_oldest t (u ∷ us) =
      if leb t.created_at u.created_at then t ∷ u ∷ us else u ∷ insert_oldest t us

  unfoldable pub oldest_first : List (TaskInfo A) → List (TaskInfo A)
  oldest_first [] = []
  oldest_first (t ∷ ts) = insert_oldest t (oldest_first ts)

  unfoldable pub insert_newest : TaskInfo A → List (TaskInfo A) → List (TaskInfo A)
  insert_newest t [] = t ∷ []
  insert_newest t (u ∷ us) =
      if leb u.created_at t.created_at then t ∷ u ∷ us else u ∷ insert_newest t us

  unfoldable pub newest_first : List (TaskInfo A) → List (TaskInfo A)
  newest_first [] = []
  newest_first (t ∷ ts) = insert_newest t (newest_first ts)

  unfoldable list_all : Registry A → List (TaskInfo A)
  list_all tasks = newest_first (values tasks)

  -- `for task in ts: del self._tasks[task.id]`
  unfoldable pub delete_each : List (TaskInfo A) → Registry A → Registry A
  delete_each [] tasks = tasks
  delete_each (t ∷ ts) tasks = delete_each ts (erase ◌==◌ t.id tasks)

  unfoldable pub finished : Registry A → List (TaskInfo A)
  finished tasks = filter is_finished (values tasks)

  unfoldable pub evict_old_tasks : Registry A → Registry A
  evict_old_tasks tasks =
      let done = finished tasks in
      if leb (length done) max_completed_tasks
      then tasks
      else delete_each (take (length done - max_completed_tasks) (oldest_first done)) tasks

  abbrev pub finish : Outcome A → ℕ → TaskInfo A → TaskInfo A
  finish (Outcome.returned x) now info = record info {
    completed_at = some now;
    status = TaskStatus.completed;
    result = some x;
  }
  finish (Outcome.raised why) now info = record info {
    completed_at = some now;
    status = TaskStatus.failed;
    error = some why;
  }

  unfoldable pub on_done : ℕ → Outcome A → ℕ → Registry A → Registry A
  on_done id outcome now tasks = elim (lookup ◌==◌ id tasks) [
    | none ↦ tasks
    | some info ↦ evict_old_tasks (insert ◌==◌ id (finish outcome now info) tasks)
  ]
