-- ===== src/Kernel/Turns.antt =====
-- What a turn of the scheduler does to the database and to the list of running attempts.
use mathlib.Core.Path.{subst}
use madre.Base.{
  ℕ, ◌≡◌, ◌∙◌, ◌⊎◌, inl, inr, refl, ap, List, [], ◌∷◌, ◌++◌, Option, none, some, Bool, true, false,
  ◌==◌, Text, Result, ok, err, Option-cases, Result-cases, find_if, by_test, codes,
}
use madre.Store.{WorkRecord, AttemptState}
use madre.Store.History.{Call, fails, begins, breaks, expires, step, run}
use madre.Store.Operations.{
  begin_attempt, next_eligible, expire_queued_deadlines, deadline_passed,
  deadline_expired_before_dispatch,
}
use madre.Resources.{ResourceManager, try_reserve, can_ever_reserve}
use madre.Resources.Accounting.{IsRequirement}
use madre.Engines.{EngineDescriptorFacts, SelectedEngine, select_engine}
use madre.Engines.Selection.{serves, selected, select_option, select_engine_lem}
use madre.Kernel.Scheduler.{
  AttemptTask, SchedulerState, TurnInputs, launch, begin_work, reserve_work, dispatch, turn,
  reserved_work, reserve_possible, dispatch_selected, dispatch_next, fail_with,
  insufficient_capacity,
}
use madre.Kernel.Reservations.{AllRequirements, find_if-All}

-- The database goes through calls of the store, and at most one attempt is added, whose reservation
-- is in order.
pub record Reaches (s s' : SchedulerState) : Type 0 where
  pub called : (calls : List Call) × (s'.store ≡ run s.store calls)
  pub tasks :
      (s'.attempt_tasks ≡ s.attempt_tasks)
      ⊎ ((t : AttemptTask) × (s'.attempt_tasks ≡ s.attempt_tasks ++ (t ∷ []))
          × IsRequirement t.reservation)

abbrev pub TurnReaches : SchedulerState → Result SchedulerState → Type 0
TurnReaches s (ok s') = Reaches s s'
TurnReaches s (err e) = Unit

stays :
    (s s' : SchedulerState) → s'.store ≡ s.store → s'.attempt_tasks ≡ s.attempt_tasks → Reaches s s'
unfolding run
stays s s' hs ht = record { called = ([], hs); tasks = inl ht }

-- One call more in front.
calls_first :
    (s first : SchedulerState) (c : Call) (result : Result SchedulerState)
    → first.store ≡ step s.store c
    → first.attempt_tasks ≡ s.attempt_tasks
    → TurnReaches first result
    → TurnReaches s result
unfolding run
calls_first s first c (err e) hs ht r = tt
calls_first s first c (ok s') hs ht r = record {
  called = (c ∷ r.called.0, r.called.1 ∙ ap (λ db. run db r.called.0) hs);
  tasks =
      subst
        (λ tasks.
          (s'.attempt_tasks ≡ tasks)
          ⊎ ((t : AttemptTask) × (s'.attempt_tasks ≡ tasks ++ (t ∷ []))
              × IsRequirement t.reservation))
        ht r.tasks;
}

-- The manager alone is changed in front.
reserves_first :
    (s : SchedulerState) (m : ResourceManager) (result : Result SchedulerState)
    → TurnReaches (record s { resources = m }) result
    → TurnReaches s result
reserves_first s m (err e) r = tt
reserves_first s m (ok s') r = record { called = r.called; tasks = r.tasks }

fail_with-Reaches :
    (work : WorkRecord) (failure : Text) (s : SchedulerState) → Reaches s (fail_with work failure s)
unfolding run step
fail_with-Reaches work failure s = record {
  called = (fails work.id failure ∷ [], refl);
  tasks = inl refl;
}

module _ (inputs : TurnInputs) (work : WorkRecord) (selected : SelectedEngine)
    (v : IsRequirement selected.engine.resources) where
  launch-Reaches : (n : ℕ) (s : SchedulerState) → Reaches s (launch inputs work selected n s)
  unfolding launch run step
  launch-Reaches n s =
      by_test (Reaches s) (n == 0) _ _ (λ no_attempt. stays s _ refl refl)
        (λ begun. elim (Option-cases inputs.launch_failure) [
          | inr (message, failed) ↦ rw failed (record {
            called = (
              breaks work.id n AttemptState.failed (codes "WORKER_LAUNCH_FAILURE: " ++ message)
                    inputs.failed_at
                  ∷ [],
              refl,
            );
            tasks = inl refl;
          })
          | inl launched ↦ rw launched (record { called = ([], refl); tasks = inr (_, refl, v) })
        ])

  begin_work-Reaches : (s : SchedulerState) → TurnReaches s (begin_work inputs work selected s)
  unfolding begin_work step
  begin_work-Reaches s =
      by_test (TurnReaches s) (deadline_passed inputs.started_at work.deadline_ms) _ _
        (λ late.
          let failed = fail_with-Reaches work deadline_expired_before_dispatch s in
          record { called = failed.called; tasks = failed.tasks })
        (λ in_time.
          elim (Result-cases (
            begin_attempt inputs.errmsg work.id selected.engine.id selected.model_id
              inputs.started_at s.store)) [
                | inr (x, e) ↦ rw (e, begin_work) tt
                | inl ((n, db), e) ↦
                    rw (e, begin_work)
                      (calls_first s (record s { store = db })
                        (begins inputs.errmsg work.id selected.engine.id selected.model_id
                          inputs.started_at)
                        (ok (launch inputs work selected n (record s { store = db }))) (rw e refl)
                        refl (launch-Reaches n (record s { store = db })))
              ])

  reserved_work-Reaches :
      (s : SchedulerState) (answer : Bool × ResourceManager)
      → TurnReaches s (reserved_work inputs work selected s answer)
  reserved_work-Reaches s (true, m) =
      reserves_first s m (begin_work inputs work selected (record s { resources = m }))
        (begin_work-Reaches (record s { resources = m }))
  reserved_work-Reaches s (false, m) = stays s _ refl refl

  reserve_possible-Reaches :
      (s : SchedulerState) (possible : Bool)
      → TurnReaches s (reserve_possible inputs work selected s possible)
  reserve_possible-Reaches s false = fail_with-Reaches work insufficient_capacity s
  reserve_possible-Reaches s true =
      elim (Result-cases (try_reserve s.resources selected.engine.resources)) [
        | inr (x, e) ↦ rw e tt
        | inl (answer, e) ↦ rw e (reserved_work-Reaches s answer)
      ]

  reserve_work-Reaches : (s : SchedulerState) → TurnReaches s (reserve_work inputs work selected s)
  unfolding reserve_work
  reserve_work-Reaches s =
      elim (Result-cases (can_ever_reserve s.resources selected.engine.resources)) [
        | inr (x, e) ↦ rw (e, reserve_work) tt
        | inl (possible, e) ↦ rw (e, reserve_work) (reserve_possible-Reaches s possible)
      ]

module _ (inventory : List EngineDescriptorFacts) (inputs : TurnInputs)
    (v : AllRequirements inventory) where
  dispatch_selected-Reaches :
      (work : WorkRecord) (failure : Text) (s : SchedulerState)
      → TurnReaches s (
          dispatch_selected inputs work failure
            (select_option work (find_if (serves work) inventory))
            s)
  dispatch_selected-Reaches work failure s = elim (Option-cases (find_if (serves work) inventory)) [
    | inl nobody ↦ rw nobody (fail_with-Reaches work failure s)
    | inr (engine, found) ↦
        let good =
          find_if-All (λ (engine : EngineDescriptorFacts). IsRequirement engine.resources)
            (serves work) inventory engine v found in
        rw found (reserve_work-Reaches inputs work (selected work engine) good s)
  ]

  dispatch-Reaches :
      (work : WorkRecord) (s : SchedulerState) → TurnReaches s (dispatch inventory inputs work s)
  unfolding dispatch
  dispatch-Reaches work s =
      by_test (TurnReaches s) (deadline_passed inputs.scheduler_now work.deadline_ms) _ _
        (λ late. fail_with-Reaches work deadline_expired_before_dispatch s)
        (λ in_time.
          rw (select_engine_lem work inventory, dispatch)
            (dispatch_selected-Reaches work (select_engine work inventory).failure s))

  dispatch_next-Reaches :
      (next : Option WorkRecord) (s : SchedulerState)
      → TurnReaches s (dispatch_next inventory inputs next s)
  dispatch_next-Reaches none s = stays s s refl refl
  dispatch_next-Reaches (some work) s = dispatch-Reaches work s

  pub turn-Reaches : (s : SchedulerState) → TurnReaches s (turn inventory inputs s)
  unfolding turn step
  turn-Reaches s =
      let swept : SchedulerState = record s {
        store = expire_queued_deadlines inputs.scheduler_now s.store;
      } in
      calls_first s swept (expires inputs.scheduler_now) _ refl refl
        (dispatch_next-Reaches (next_eligible inputs.scheduler_now swept.store) swept)
