-- ===== src/Kernel/Reservations.antt =====
-- The scheduler's reservations: what the manager has given away is what the running attempts hold.
use mathlib.Core.Path.{subst}
use madre.Base.{
  ℕ, ◌≡◌, ◌∙◌, inl, inr, refl, sym, ap, List, [], ◌∷◌, ◌++◌, Option, none, some, Bool, ◌==◌, Text,
  Result, ok, err, ◌>>=◌, Bool-cases, Option-cases, Result-cases, find_if, arith, All,
}
use madre.Store.{WorkRecord, WorkStore}
use madre.Store.Operations.{
  begin_attempt, next_eligible, expire_queued_deadlines, deadline_passed,
  deadline_expired_before_dispatch,
}
use madre.Resources.{ResourceManager, ResourceRequirement, try_reserve, release}
use madre.Resources.Accounting.{
  IsRequirement, IsCapacity, Holds, has_room, cpu_sum, ram_sum, vram_sum,
}
use madre.Resources.Reserving.{try_reserve_lem}
use madre.Resources.Ownership.{release-Holds, can_ever_reserve_lem}
use madre.Engines.{EngineDescriptorFacts, SelectedEngine, select_engine}
use madre.Engines.Selection.{serves, selected, select_option, select_engine_lem}
use madre.Kernel.Scheduler.{
  AttemptTask, SchedulerState, TurnInputs, launch, begin_work, reserve_work, dispatch, turn,
  give_back, reserved_work, dispatch_selected, dispatch_next, fail_with, launch_failed,
  insufficient_capacity,
}

abbrev pub reservations : List AttemptTask → List ResourceRequirement
reservations [] = []
reservations (t ∷ tasks) = t.reservation ∷ reservations tasks

-- The running attempts hold what is given away, of a capacity that fits its types.
pub record IsAccounted (s : SchedulerState) : Type 0 where
  pub capacity : IsCapacity s.resources.capacity
  pub holds : Holds s.resources (reservations s.attempt_tasks)

abbrev Settled : Result SchedulerState → Type 0
Settled (ok s) = IsAccounted s
Settled (err e) = Unit

-- The state between a reservation and the task that takes it.
record IsReserved (s : SchedulerState) (r : ResourceRequirement) : Type 0 where
  capacity : IsCapacity s.resources.capacity
  holds : Holds s.resources (r ∷ reservations s.attempt_tasks)

give_back-IsAccounted :
    (r : ResourceRequirement) (s : SchedulerState)
    → IsRequirement r
    → IsReserved s r
    → IsAccounted (give_back r s)
unfolding release
give_back-IsAccounted r s v w = record {
  capacity = w.capacity;
  holds = release-Holds s.resources r [] (reservations s.attempt_tasks) w.capacity v w.holds;
}

reservations-append :
    (tasks : List AttemptTask) (t : AttemptTask)
    → reservations (tasks ++ (t ∷ [])) ≡ reservations tasks ++ (t.reservation ∷ [])
reservations-append [] t = refl
reservations-append (x ∷ tasks) t = ap (λ rest. x.reservation ∷ rest) (reservations-append tasks t)

cpu_last :
    (r : ResourceRequirement) (rs : List ResourceRequirement)
    → cpu_sum (rs ++ (r ∷ [])) ≡ cpu_sum (r ∷ rs)
cpu_last r [] = refl
cpu_last r (x ∷ rs) = omega (arith, cpu_last r rs)

ram_last :
    (r : ResourceRequirement) (rs : List ResourceRequirement)
    → ram_sum (rs ++ (r ∷ [])) ≡ ram_sum (r ∷ rs)
ram_last r [] = refl
ram_last r (x ∷ rs) = omega (arith, ram_last r rs)

vram_last :
    (id : Text) (r : ResourceRequirement) (rs : List ResourceRequirement)
    → vram_sum id (rs ++ (r ∷ [])) ≡ vram_sum id (r ∷ rs)
vram_last id r [] = refl
vram_last id r (x ∷ rs) = omega (arith, vram_last id r rs)

Holds-last :
    (m : ResourceManager) (r : ResourceRequirement) (rs : List ResourceRequirement)
    → Holds m (r ∷ rs)
    → Holds m (rs ++ (r ∷ []))
Holds-last m r rs w = record {
  cpu = w.cpu ∙ sym (cpu_last r rs);
  ram = w.ram ∙ sym (ram_last r rs);
  vram = λ id. w.vram id ∙ sym (vram_last id r rs);
  cpu_fits = rw (cpu_last r rs) w.cpu_fits;
  ram_fits = rw (ram_last r rs) w.ram_fits;
  vram_fits = λ id. rw (vram_last id r rs) (w.vram_fits id);
}

moved :
    {s : SchedulerState} {r : ResourceRequirement} (db : WorkStore)
    → IsReserved s r
    → IsReserved (record s { store = db }) r
moved db w = record { capacity = w.capacity; holds = w.holds }

failed-IsAccounted :
    (work : WorkRecord) (failure : Text) (s : SchedulerState)
    → IsAccounted s
    → IsAccounted (fail_with work failure s)
failed-IsAccounted work failure s w = record { capacity = w.capacity; holds = w.holds }

module _ (inputs : TurnInputs) (work : WorkRecord) (selected : SelectedEngine)
    (v : IsRequirement selected.engine.resources) where
  abbrev requirement : ResourceRequirement
  requirement = selected.engine.resources

  launch-IsAccounted :
      (n : ℕ) (s : SchedulerState)
      → IsReserved s requirement
      → IsAccounted (launch inputs work selected n s)
  unfolding launch
  launch-IsAccounted n s w = elim (Bool-cases (n == 0)) [
    | inl no_attempt ↦ rw (no_attempt, launch) (give_back-IsAccounted requirement s v w)
    | inr begun ↦ elim (Option-cases inputs.launch_failure) [
      | inr (message, failed) ↦
          rw (begun, failed, launch)
            (give_back-IsAccounted requirement (launch_failed work n message inputs.failed_at s) v
              (moved (launch_failed work n message inputs.failed_at s).store w))
      | inl launched ↦
          rw (begun, launched, launch)
            (record {
              capacity = w.capacity;
              holds =
                  rw (reservations-append s.attempt_tasks _)
                    (Holds-last s.resources requirement (reservations s.attempt_tasks) w.holds);
            })
    ]
  ]

  begin_work-Settled :
      (s : SchedulerState) → IsReserved s requirement → Settled (begin_work inputs work selected s)
  unfolding begin_work
  begin_work-Settled s w = elim (Bool-cases (deadline_passed inputs.started_at work.deadline_ms)) [
    | inl late ↦
        rw (late, begin_work)
          (give_back-IsAccounted requirement (fail_with work deadline_expired_before_dispatch s) v
            (moved (fail_with work deadline_expired_before_dispatch s).store w))
    | inr in_time ↦
        elim (Result-cases (
          begin_attempt inputs.errmsg work.id selected.engine.id selected.model_id inputs.started_at
            s.store)) [
              | inr (x, e) ↦ rw (in_time, e, begin_work) tt
              | inl ((n, db), e) ↦
                  rw (in_time, e, begin_work)
                    (launch-IsAccounted n (record s { store = db }) (moved db w))
            ]
  ]

  reserved_work-Settled :
      (s : SchedulerState)
      → IsAccounted s
      → Settled (try_reserve s.resources requirement >>= reserved_work inputs work selected s)
  reserved_work-Settled s w =
      let (m, e, same, held) =
        try_reserve_lem s.resources requirement (reservations s.attempt_tasks) w.capacity v
          w.holds in
      let capacity = subst IsCapacity (sym same) w.capacity in
      elim (Bool-cases (has_room s.resources.capacity requirement (reservations s.attempt_tasks))) [
        | inl room ↦
            rw (e, room)
              (begin_work-Settled (record s { resources = m })
                (record { capacity = capacity; holds = rw room at held }))
        | inr full ↦ rw (e, full) (record { capacity = capacity; holds = rw full at held })
      ]

  reserve_work-Settled :
      (s : SchedulerState) → IsAccounted s → Settled (reserve_work inputs work selected s)
  unfolding reserve_work
  reserve_work-Settled s w =
      let possible = (can_ever_reserve_lem s.resources requirement [] w.capacity v).0 in
      elim (Bool-cases (has_room s.resources.capacity requirement [])) [
        | inl room ↦ rw (possible, room, reserve_work) (reserved_work-Settled s w)
        | inr never ↦
            rw (possible, never, reserve_work) (failed-IsAccounted work insufficient_capacity s w)
      ]

pub find_if-All :
    {A : Type 0} (P : A → Type 0) (p : A → Bool) (xs : List A) (x : A)
    → All P xs
    → find_if p xs ≡ some x
    → P x
unfolding find_if
find_if-All P p [] x all e = absurd cc
find_if-All P p (y ∷ xs) x all e = elim (Bool-cases (p y)) [
  | inl good ↦ let same : y ≡ x = cc (rw good at e) in subst P same all.0
  | inr bad ↦ find_if-All P p xs x all.1 (rw bad at e)
]

abbrev pub AllRequirements : List EngineDescriptorFacts → Type 0
AllRequirements inventory =
    All (λ (engine : EngineDescriptorFacts). IsRequirement engine.resources) inventory

module _ (inventory : List EngineDescriptorFacts) (inputs : TurnInputs)
    (v : AllRequirements inventory) where
  dispatch_selected-Settled :
      (work : WorkRecord) (failure : Text) (s : SchedulerState)
      → IsAccounted s
      → Settled (
          dispatch_selected inputs work failure
            (select_option work (find_if (serves work) inventory))
            s)
  dispatch_selected-Settled work failure s w =
      elim (Option-cases (find_if (serves work) inventory)) [
        | inl nobody ↦ rw nobody (failed-IsAccounted work failure s w)
        | inr (engine, found) ↦
            let good =
              find_if-All (λ (engine : EngineDescriptorFacts). IsRequirement engine.resources)
                (serves work) inventory engine v found in
            rw found (reserve_work-Settled inputs work (selected work engine) good s w)
      ]

  dispatch-Settled :
      (work : WorkRecord) (s : SchedulerState)
      → IsAccounted s
      → Settled (dispatch inventory inputs work s)
  unfolding dispatch
  dispatch-Settled work s w =
      elim (Bool-cases (deadline_passed inputs.scheduler_now work.deadline_ms)) [
        | inl late ↦
            rw (late, dispatch) (failed-IsAccounted work deadline_expired_before_dispatch s w)
        | inr in_time ↦
            rw (in_time, select_engine_lem work inventory, dispatch)
              (dispatch_selected-Settled work (select_engine work inventory).failure s w)
      ]

  dispatch_next-Settled :
      (next : Option WorkRecord) (s : SchedulerState)
      → IsAccounted s
      → Settled (dispatch_next inventory inputs next s)
  dispatch_next-Settled none s w = w
  dispatch_next-Settled (some work) s w = dispatch-Settled work s w

  -- Whatever a turn of the scheduler does (fail a Work, begin and launch an attempt, or undo a
  -- reservation on any of its early exits), afterwards the manager's counters are again what the
  -- running attempts hold, and within the capacity.
  pub turn-IsAccounted :
      (s s' : SchedulerState) → IsAccounted s → turn inventory inputs s ≡ ok s' → IsAccounted s'
  unfolding turn
  turn-IsAccounted s s' w e =
      let swept = record s { store = expire_queued_deadlines inputs.scheduler_now s.store } in
      let settled =
        dispatch_next-Settled (next_eligible inputs.scheduler_now swept.store) swept
          (record { capacity = w.capacity; holds = w.holds }) in
      subst Settled e settled
