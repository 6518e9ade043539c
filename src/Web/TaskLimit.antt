-- ===== src/Web/TaskLimit.antt =====
-- What `_on_done` of src/aurex_trade/web/tasks.py guarantees.
use aurex_trade.Prelude.{
  ℕ, ◌-◌, ◌≤◌, ◌≡◌, ◌≢◌, refl, ◌∙◌, true, false, some, List, [], ◌∷◌, ◌==◌, arith, length, take,
  All, Option-cases, inl, inr, is_some,
}
use aurex_trade.Prelude.Dict.{lookup, insert, erase}
use aurex_trade.Prelude.Keys.{Lacks, Distinct}
use aurex_trade.Web.Tasks.{
  TaskInfo, Registry, Outcome, is_finished, finished, finish, oldest_first, delete_each,
  evict_old_tasks, on_done,
}
use aurex_trade.Web.Eviction.{
  WellKept, HasFinished, id_of, HasFinished-All-erase, evicted, evict_old_tasks-bound,
}

module _ {A : Type 0} where
  Lacks-insert :
      (i j : ℕ) (t : TaskInfo A) (d : Registry A)
      → j ≢ i
      → Lacks (λ e. e.0) i d
      → Lacks (λ e. e.0) i (insert ◌==◌ j t d)
  Lacks-insert i j t [] ne l = (ne, tt)
  Lacks-insert i j t ((k, u) ∷ d) ne l = ground (arith, Lacks-insert i j t d ne l.1)

  insert-WellKept : (t : TaskInfo A) (d : Registry A) → WellKept d → WellKept (insert ◌==◌ t.id t d)
  insert-WellKept t [] k = (refl, tt, tt)
  insert-WellKept t ((j, u) ∷ d) k =
      ground (arith, insert-WellKept t d k.2, Lacks-insert j t.id t d)

  Lacks-erase :
      (i j : ℕ) (d : Registry A) → Lacks (λ e. e.0) i d → Lacks (λ e. e.0) i (erase ◌==◌ j d)
  Lacks-erase i j [] l = tt
  Lacks-erase i j ((k, u) ∷ d) l = ground (arith, Lacks-erase i j d l.1)

  erase-WellKept : (j : ℕ) (d : Registry A) → WellKept d → WellKept (erase ◌==◌ j d)
  erase-WellKept j [] k = tt
  erase-WellKept j ((i, u) ∷ d) k = ground (arith, erase-WellKept j d k.2, Lacks-erase i j d k.1)

  delete_each-WellKept :
      (ts : List (TaskInfo A)) (d : Registry A) → WellKept d → WellKept (delete_each ts d)
  unfolding delete_each
  delete_each-WellKept [] d k = k
  delete_each-WellKept (t ∷ ts) d k =
      delete_each-WellKept ts (erase ◌==◌ t.id d) (erase-WellKept t.id d k)

  evict_old_tasks-WellKept : (d : Registry A) → WellKept d → WellKept (evict_old_tasks d)
  unfolding evict_old_tasks
  evict_old_tasks-WellKept d k = ground (
    arith,
    delete_each-WellKept (take (length (finished d) - 100) (oldest_first (finished d))) d k,
  )

  id-lookup :
      (j : ℕ) (t : TaskInfo A) (d : Registry A) → WellKept d → lookup ◌==◌ j d ≡ some t → t.id ≡ j
  id-lookup j t [] k e = cc
  id-lookup j t ((i, u) ∷ d) k e = ground (arith, id-lookup j t d k.2)

  lookup-erase :
      (j k : ℕ) (d : Registry A) → j ≢ k → lookup ◌==◌ j (erase ◌==◌ k d) ≡ lookup ◌==◌ j d
  lookup-erase j k [] ne = refl
  lookup-erase j k ((i, u) ∷ d) ne = ground (arith, lookup-erase j k d ne)

  lookup-insert_other :
      (j k : ℕ) (t : TaskInfo A) (d : Registry A)
      → j ≢ k
      → lookup ◌==◌ j (insert ◌==◌ k t d) ≡ lookup ◌==◌ j d
  lookup-insert_other j k t [] ne = ground arith
  lookup-insert_other j k t ((i, u) ∷ d) ne = ground (arith, lookup-insert_other j k t d ne)

  -- A task that is not finished survives the deletion of finished ones.
  lookup-delete_each :
      (j : ℕ) (t : TaskInfo A) (ts : List (TaskInfo A)) (d : Registry A)
      → is_finished t ≡ false
      → lookup ◌==◌ j d ≡ some t
      → Distinct id_of ts
      → All (HasFinished d) ts
      → lookup ◌==◌ j (delete_each ts d) ≡ some t
  unfolding delete_each
  lookup-delete_each j t [] d live e ds h = e
  lookup-delete_each j t (u ∷ us) d live e ds h =
      let other : j ≢ u.id = λ same. ground arith in
      lookup-delete_each j t us (erase ◌==◌ u.id d) live (lookup-erase j u.id d other ∙ e) ds.1
        (HasFinished-All-erase us d u ds.0 h.1)

  evict_old_tasks-keeps :
      (j : ℕ) (t : TaskInfo A) (d : Registry A)
      → WellKept d
      → is_finished t ≡ false
      → lookup ◌==◌ j d ≡ some t
      → lookup ◌==◌ j (evict_old_tasks d) ≡ some t
  unfolding evict_old_tasks
  evict_old_tasks-keeps j t d k live e =
      let n = length (finished d) - 100 in
      let (distinct, known) = evicted d n k in
      ground
        (arith, lookup-delete_each j t (take n (oldest_first (finished d))) d live e distinct known)

  finish-id :
      (outcome : Outcome A) (now : ℕ) (info : TaskInfo A) → (finish outcome now info).id ≡ info.id
  finish-id (Outcome.returned x) now info = refl
  finish-id (Outcome.raised why) now info = refl

  -- The registry in which the task is marked as finished
  marked-WellKept :
      (id : ℕ) (outcome : Outcome A) (now : ℕ) (info : TaskInfo A) (tasks : Registry A)
      → WellKept tasks
      → lookup ◌==◌ id tasks ≡ some info
      → WellKept (insert ◌==◌ id (finish outcome now info) tasks)
  marked-WellKept id outcome now info tasks k e =
      let own : (finish outcome now info).id ≡ id =
        finish-id outcome now info ∙ id-lookup id info tasks k e in
      rw (← own) (insert-WellKept (finish outcome now info) tasks k)

  -- In a registry that holds each task under its own id, when a registered task is reported as
  -- done, at most 100 finished tasks are left, and each task is still under its own id.
  pub on_done-bound :
      (id : ℕ) (outcome : Outcome A) (now : ℕ) (tasks : Registry A)
      → WellKept tasks
      → is_some (lookup ◌==◌ id tasks) ≡ true
      → WellKept (on_done id outcome now tasks)
        × (length (finished (on_done id outcome now tasks)) ≤ 100)
  unfolding on_done
  on_done-bound id outcome now tasks k h = elim (Option-cases (lookup ◌==◌ id tasks)) [
    | inl e ↦ absurd cc
    | inr (info, e) ↦
        let next = insert ◌==◌ id (finish outcome now info) tasks in
        let kept : WellKept next = marked-WellKept id outcome now info tasks k e in
        rw (e, on_done) (evict_old_tasks-WellKept next kept, evict_old_tasks-bound next kept)
  ]

  -- In a registry that holds each task under its own id, no other task that is not finished is
  -- lost or changed when a task is reported as done.
  pub on_done-keeps :
      (id j : ℕ) (outcome : Outcome A) (now : ℕ) (t : TaskInfo A) (tasks : Registry A)
      → WellKept tasks
      → j ≢ id
      → is_finished t ≡ false
      → lookup ◌==◌ j tasks ≡ some t
      → lookup ◌==◌ j (on_done id outcome now tasks) ≡ some t
  unfolding on_done
  on_done-keeps id j outcome now t tasks k ne live e = elim (Option-cases (lookup ◌==◌ id tasks)) [
    | inl x ↦ rw (x, on_done) e
    | inr (info, x) ↦
        let next = insert ◌==◌ id (finish outcome now info) tasks in
        rw (x, on_done)
          (evict_old_tasks-keeps j t next (marked-WellKept id outcome now info tasks k x) live
            (lookup-insert_other j id (finish outcome now info) tasks ne ∙ e))
  ]
