-- ===== src/Web/Eviction.antt =====
-- How many finished tasks the registry of src/aurex_trade/web/tasks.py keeps, and which.
use aurex_trade.Prelude.{
  ℕ, zero, suc, ◌+◌, ◌-◌, ◌≤◌, ◌≡◌, ◌≢◌, sym, true, some, List, [], ◌∷◌, ◌==◌, arith, length, take,
  All,
}
use aurex_trade.Prelude.Dict.{lookup, erase}
use aurex_trade.Prelude.Keys.{Lacks, Distinct}
use aurex_trade.Web.Tasks.{
  TaskInfo, Registry, is_finished, finished, insert_oldest, oldest_first, delete_each,
  evict_old_tasks,
}

module _ {A : Type 0} where
  abbrev pub id_of : TaskInfo A → ℕ
  id_of t = t.id

  -- Each task is stored under its own id, and under no other.
  abbrev pub WellKept : Registry A → Type 0
  WellKept [] = Unit
  WellKept ((j, t) ∷ d) = (t.id ≡ j) × Lacks (λ e. e.0) j d × WellKept d

  -- The registry has the task, and the task is finished.
  abbrev pub HasFinished : Registry A → TaskInfo A → Type 0
  HasFinished tasks t = (lookup ◌==◌ t.id tasks ≡ some t) × (is_finished t ≡ true)

  -- Deleting a finished task leaves one fewer.
  finished-erase :
      (tasks : Registry A) (t : TaskInfo A)
      → HasFinished tasks t
      → length (finished (erase ◌==◌ t.id tasks)) + 1 ≡ length (finished tasks)
  unfolding finished
  finished-erase [] t (e, h) = cc
  finished-erase ((j, u) ∷ d) t (e, h) = ground (arith, finished-erase d t)

  pub HasFinished-erase :
      (tasks : Registry A) (t u : TaskInfo A)
      → u.id ≢ t.id
      → HasFinished tasks u
      → HasFinished (erase ◌==◌ t.id tasks) u
  HasFinished-erase [] t u ne h = h
  HasFinished-erase ((j, v) ∷ d) t u ne h = ground (arith, HasFinished-erase d t u ne)

  pub HasFinished-All-erase :
      (ts : List (TaskInfo A)) (tasks : Registry A) (t : TaskInfo A)
      → Lacks id_of t.id ts
      → All (HasFinished tasks) ts
      → All (HasFinished (erase ◌==◌ t.id tasks)) ts
  HasFinished-All-erase [] tasks t h l = tt
  HasFinished-All-erase (u ∷ us) tasks t h l =
      (HasFinished-erase tasks t u h.0 l.0, HasFinished-All-erase us tasks t h.1 l.1)

  finished-delete_each :
      (ts : List (TaskInfo A)) (tasks : Registry A)
      → Distinct id_of ts
      → All (HasFinished tasks) ts
      → length (finished (delete_each ts tasks)) + length ts ≡ length (finished tasks)
  unfolding delete_each
  finished-delete_each [] tasks d h = omega arith
  finished-delete_each (t ∷ ts) tasks d h = omega (
    arith,
    finished-erase tasks t h.0,
    finished-delete_each ts (erase ◌==◌ t.id tasks) d.1 (HasFinished-All-erase ts tasks t d.0 h.1),
  )

  All-insert_oldest :
      (P : TaskInfo A → Type 0) (t : TaskInfo A) (ts : List (TaskInfo A))
      → P t
      → All P ts
      → All P (insert_oldest t ts)
  unfolding insert_oldest
  All-insert_oldest P t [] p h = (p, tt)
  All-insert_oldest P t (u ∷ us) p h = ground (arith, All-insert_oldest P t us p h.1)

  All-oldest_first :
      (P : TaskInfo A → Type 0) (ts : List (TaskInfo A)) → All P ts → All P (oldest_first ts)
  unfolding oldest_first
  All-oldest_first P [] h = tt
  All-oldest_first P (t ∷ ts) h =
      All-insert_oldest P t (oldest_first ts) h.0 (All-oldest_first P ts h.1)

  Distinct-insert_oldest :
      (t : TaskInfo A) (ts : List (TaskInfo A))
      → Lacks id_of t.id ts
      → Distinct id_of ts
      → Distinct id_of (insert_oldest t ts)
  unfolding insert_oldest
  Distinct-insert_oldest t [] l d = (tt, tt)
  Distinct-insert_oldest t (u ∷ us) l d =
      let flip : u.id ≢ t.id = l.0 in
      ground (
        arith,
        Distinct-insert_oldest t us l.1 d.1,
        All-insert_oldest (λ v. v.id ≢ u.id) t us (λ e. flip (sym e)) d.0,
      )

  Distinct-oldest_first :
      (ts : List (TaskInfo A)) → Distinct id_of ts → Distinct id_of (oldest_first ts)
  unfolding oldest_first
  Distinct-oldest_first [] d = tt
  Distinct-oldest_first (t ∷ ts) d =
      Distinct-insert_oldest t (oldest_first ts) (All-oldest_first (λ u. u.id ≢ t.id) ts d.0)
        (Distinct-oldest_first ts d.1)

  length-insert_oldest :
      (t : TaskInfo A) (ts : List (TaskInfo A)) → length (insert_oldest t ts) ≡ length ts + 1
  unfolding insert_oldest
  length-insert_oldest t [] = omega arith
  length-insert_oldest t (u ∷ us) = ground (arith, length-insert_oldest t us)

  length-oldest_first : (ts : List (TaskInfo A)) → length (oldest_first ts) ≡ length ts
  unfolding oldest_first
  length-oldest_first [] = omega arith
  length-oldest_first (t ∷ ts) =
      omega (arith, length-insert_oldest t (oldest_first ts), length-oldest_first ts)

  All-take :
      (P : TaskInfo A → Type 0) (n : ℕ) (ts : List (TaskInfo A)) → All P ts → All P (take n ts)
  All-take P zero ts h = tt
  All-take P (suc n) [] h = tt
  All-take P (suc n) (t ∷ ts) h = (h.0, All-take P n ts h.1)

  Distinct-take : (n : ℕ) (ts : List (TaskInfo A)) → Distinct id_of ts → Distinct id_of (take n ts)
  Distinct-take zero ts d = tt
  Distinct-take (suc n) [] d = tt
  Distinct-take (suc n) (t ∷ ts) d = (All-take (λ u. u.id ≢ t.id) n ts d.0, Distinct-take n ts d.1)

  length-take : (n : ℕ) (ts : List (TaskInfo A)) → n ≤ length ts → length (take n ts) ≡ n
  length-take zero ts h = omega arith
  length-take (suc n) [] h = elim h [ ]
  length-take (suc n) (t ∷ ts) h = omega (arith, length-take n ts (omega arith))

  -- What holds of the finished tasks of a registry that is well kept
  Lacks-finished :
      (j : ℕ) (tasks : Registry A)
      → Lacks (λ e. e.0) j tasks
      → WellKept tasks
      → Lacks id_of j (finished tasks)
  unfolding finished
  Lacks-finished j [] l k = tt
  Lacks-finished j ((i, t) ∷ d) l k = ground (arith, Lacks-finished j d l.1 k.2)

  Distinct-finished : (tasks : Registry A) → WellKept tasks → Distinct id_of (finished tasks)
  unfolding finished
  Distinct-finished [] k = tt
  Distinct-finished ((i, t) ∷ d) k =
      let l : Lacks id_of t.id (finished d) = rw k.0 (Lacks-finished i d k.1 k.2) in
      ground (arith, Distinct-finished d k.2)

  HasFinished-cons :
      (j : ℕ) (u : TaskInfo A) (d : Registry A) (ts : List (TaskInfo A))
      → Lacks id_of j ts
      → All (HasFinished d) ts
      → All (HasFinished ((j, u) ∷ d)) ts
  HasFinished-cons j u d [] l h = tt
  HasFinished-cons j u d (t ∷ ts) l h = (cons_at l.0 h.0, HasFinished-cons j u d ts l.1 h.1)
    where
      cons_at : t.id ≢ j → HasFinished d t → HasFinished ((j, u) ∷ d) t
      cons_at ne x = ground arith

  HasFinished-finished :
      (tasks : Registry A) → WellKept tasks → All (HasFinished tasks) (finished tasks)
  unfolding finished
  HasFinished-finished [] k = tt
  HasFinished-finished ((i, t) ∷ d) k = ground (
    arith,
    HasFinished-cons i t d (finished d) (Lacks-finished i d k.1 k.2) (HasFinished-finished d k.2),
  )

  -- The tasks that go when there are too many are told apart by their ids, and finished.
  pub evicted :
      (tasks : Registry A) (n : ℕ)
      → WellKept tasks
      → Distinct id_of (take n (oldest_first (finished tasks)))
        × All (HasFinished tasks) (take n (oldest_first (finished tasks)))
  evicted tasks n k =
      let done = finished tasks in
      (
        Distinct-take n (oldest_first done)
            (Distinct-oldest_first done (Distinct-finished tasks k)),
        All-take (HasFinished tasks) n (oldest_first done)
            (All-oldest_first (HasFinished tasks) done (HasFinished-finished tasks k)),
      )

  pub evict_old_tasks-bound :
      (tasks : Registry A) → WellKept tasks → length (finished (evict_old_tasks tasks)) ≤ 100
  unfolding evict_old_tasks
  evict_old_tasks-bound tasks k =
      let done = finished tasks in
      let old = take (length done - 100) (oldest_first done) in
      let count : length (finished (delete_each old tasks)) + length old ≡ length done =
        let (distinct, known) = evicted tasks (length done - 100) k in
        finished-delete_each old tasks distinct known in
      let size : length old ≡ length done - 100 =
        length-take _ (oldest_first done) (omega (arith, length-oldest_first done)) in
      ground arith
