-- ===== src/Workers/Reuse.antt =====
-- Which workers `acquire` gives again, and which `reap_idle` leaves alone.
use madre.Base.{
  ℕ, ◌≡◌, ◌∙◌, inl, inr, refl, sym, ap, List, [], ◌∷◌, Option, none, some, Bool, true, false, not,
  ◌==◌, Text, text_eq, text_eq_iff, arith, Bool-cases, Option-cases, Result-cases, ok-injective,
  by_test, Result, ok, err,
}
use mathlib.Core.Path.{subst}
use madre.Options.{WorkerLaunchSpec}
use madre.Workers.{WorkerProcess, WaitAnswer, WaitStatus, alive, terminate}
use madre.Workers.Pool.{
  Processes, put, Walked, keep, mark_busy, find_idle, reap, is_overdue, WorkerPool, reap_idle,
  walked_pool, acquire, launch_worker,
}
use madre.Workers.Launching.{
  LaunchAnswers, Open, launch, make_cloexec_pipe, with_first_pipe, with_second_pipe, with_pid,
  set_nonblocking,
}
use madre.Workers.Walks.{count, is_taken}

-- The worker that a walk takes serves the engine and has a process.
record Serves (engine_id : Text) (answers : ℕ → WaitAnswer) (processes : Processes)
    (walked : Walked) (id : ℕ) : Type 0 where
  engine : is_taken id walked.taken ≡ true → (walked.processes id).engine_id ≡ engine_id
  lives : is_taken id walked.taken ≡ true → (alive (answers id) (walked.processes id)).0 ≡ true

alive_again :
    (answer : WaitAnswer) (worker : WorkerProcess)
    → (alive answer worker).0 ≡ true
    → (alive answer (mark_busy (alive answer worker).1)).0 ≡ true
unfolding alive
alive_again answer worker h = ground arith

find_idle-Serves :
    (engine_id : Text) (answers : ℕ → WaitAnswer) (ids : List ℕ) (processes : Processes) (id : ℕ)
    → Serves engine_id answers processes (find_idle engine_id answers ids processes) id
unfolding find_idle
find_idle-Serves engine_id answers [] processes id = ground arith
find_idle-Serves engine_id answers (x ∷ ids) processes id =
    let IsGood : Walked → Type 0 = λ walked. Serves engine_id answers processes walked id in
    let worker : WorkerProcess = (alive (answers x) (processes x)).1 in
    let rest = find_idle-Serves engine_id answers ids (put x worker processes) id in
    let past = find_idle-Serves engine_id answers ids processes id in
    by_test IsGood (processes x).busy _ _
      (λ busy. record { engine = past.engine; lives = past.lives })
      (λ idle.
        by_test IsGood (not (alive (answers x) (processes x)).0) _ _
          (λ dead. record { engine = rest.engine; lives = rest.lives })
          (λ living.
            by_test IsGood (text_eq worker.engine_id engine_id) _ _
              (λ matches. ground (
                arith,
                text_eq_iff worker.engine_id engine_id,
                alive_again (answers x) (processes x),
              ))
              (λ other. record { engine = rest.engine; lives = rest.lives })))

-- A living worker in a lease.
pub record IsInUse (answers : ℕ → WaitAnswer) (processes : Processes) (id : ℕ) : Type 0 where
  pub lives : alive (answers id) (processes id) ≡ (true, processes id)
  pub busy : (processes id).busy ≡ true

record IsSpared (ids : List ℕ) (processes : Processes) (walked : Walked) (id : ℕ) : Type 0 where
  listed : count id walked.workers ≡ count id ids
  untouched : walked.processes id ≡ processes id

module _ (answers : ℕ → WaitAnswer) (ids : List ℕ) (x id : ℕ) (worker : WorkerProcess)
    (processes : Processes) (same : put x worker processes id ≡ processes id) where
  still_used : IsInUse answers processes id → IsInUse answers (put x worker processes) id
  still_used u = record {
    lives = subst (λ w. alive (answers id) w ≡ (true, w)) (sym same) u.lives;
    busy = subst (λ (w : WorkerProcess). w.busy ≡ true) (sym same) u.busy;
  }

  past-IsSpared :
      (walked : Walked)
      → x == id ≡ false
      → IsSpared ids (put x worker processes) walked id
      → IsSpared (x ∷ ids) processes walked id
  past-IsSpared walked other w = record {
    listed = ground (arith, w.listed);
    untouched = w.untouched ∙ same;
  }

  kept-IsSpared :
      (walked : Walked)
      → IsSpared ids (put x worker processes) walked id
      → IsSpared (x ∷ ids) processes (keep x walked) id
  kept-IsSpared walked w = record {
    listed = omega (arith, w.listed);
    untouched = w.untouched ∙ same;
  }

put_other :
    (x id : ℕ) (worker : WorkerProcess) (processes : Processes)
    → x == id ≡ false
    → put x worker processes id ≡ processes id
put_other x id worker processes h = ground arith

reap-IsSpared :
    (idle now : ℕ) (answers : ℕ → WaitAnswer) (killed : ℕ → WaitStatus) (ids : List ℕ)
    (processes : Processes) (id : ℕ)
    → IsInUse answers processes id
    → IsSpared ids processes (reap idle now answers killed ids processes) id
unfolding reap
reap-IsSpared idle now answers killed [] processes id u = record { listed = refl; untouched = refl }
reap-IsSpared idle now answers killed (x ∷ ids) processes id u =
    let IsGood : Walked → Type 0 = λ walked. IsSpared (x ∷ ids) processes walked id in
    let worker : WorkerProcess = (alive (answers x) (processes x)).1 in
    let dead : WorkerProcess = terminate (killed x) worker in
    elim (Bool-cases (x == id)) [
      | inl is_id ↦
          let here_x : x ≡ id = ground arith in
          let lives : alive (answers x) (processes x) ≡ (true, processes x) = rw here_x u.lives in
          let stays : worker ≡ processes x = ap (λ (r : Bool × WorkerProcess). r.1) lives in
          let same : put x worker processes id ≡ processes id = ground (arith, stays) in
          by_test IsGood (not (alive (answers x) (processes x)).0) _ _
            (λ gone. absurd (ground (arith, lives)))
            (λ living.
              by_test IsGood (is_overdue idle now worker) _ _
                (λ overdue. absurd (ground (arith, stays, u.busy)))
                (λ fresh. kept-IsSpared answers ids x id worker processes same _ (
                  reap-IsSpared idle now answers killed ids (put x worker processes) id
                    (still_used answers ids x id worker processes same u))))
      | inr other ↦
          let same : put x worker processes id ≡ processes id =
            put_other x id worker processes other in
          let same' : put x dead processes id ≡ processes id =
            put_other x id dead processes other in
          let rest =
            reap-IsSpared idle now answers killed ids (put x worker processes) id
              (still_used answers ids x id worker processes same u) in
          by_test IsGood (not (alive (answers x) (processes x)).0) _ _
            (λ gone. past-IsSpared answers ids x id worker processes same _ other rest)
            (λ living.
              by_test IsGood (is_overdue idle now worker) _ _
                (λ overdue. past-IsSpared answers ids x id dead processes same' _ other (
                  reap-IsSpared idle now answers killed ids (put x dead processes) id
                    (still_used answers ids x id dead processes same' u)))
                (λ fresh. kept-IsSpared answers ids x id worker processes same _ rest))
    ]

-- A worker in use, which is marked busy and whose process runs, is left as it is by `reap_idle`,
-- however long ago it was used last and whatever happens to the others.
pub reap_idle_lem :
    (now : ℕ) (answers : ℕ → WaitAnswer) (killed : ℕ → WaitStatus) (pool : WorkerPool) (id : ℕ)
    → IsInUse answers pool.processes id
    → (count id (reap_idle now answers killed pool).workers ≡ count id pool.workers)
      × ((reap_idle now answers killed pool).processes id ≡ pool.processes id)
unfolding reap_idle
reap_idle_lem now answers killed pool id u =
    let spared =
      reap-IsSpared pool.idle_timeout_ms now answers killed pool.workers pool.processes id u in
    (spared.listed, spared.untouched)

-- What `acquire` gives serves the engine that it was asked for.
abbrev ServesEngine : Text → Result ℕ × WorkerPool → Type 0
ServesEngine engine_id (ok id, pool) = (pool.processes id).engine_id ≡ engine_id
ServesEngine engine_id (err e, pool) = Unit

set_nonblocking-engine_id :
    (input output : Option Text) (ends : ℕ × ℕ) (worker left : WorkerProcess) (open_fds : Open)
    → (set_nonblocking input output ends worker open_fds).0 ≡ ok left
    → left.engine_id ≡ worker.engine_id
set_nonblocking-engine_id (some error) output ends worker left open_fds e = absurd (cc e)
set_nonblocking-engine_id none (some error) ends worker left open_fds e = absurd (cc e)
set_nonblocking-engine_id none none ends worker left open_fds e =
    ap (λ (w : WorkerProcess). w.engine_id) (sym (ok-injective e))

with_pid-engine_id :
    (answers : LaunchAnswers) (engine_id : Text) (to_child to_parent : ℕ × ℕ) (pid : Result ℕ)
    (open_fds : Open) (left : WorkerProcess)
    → (with_pid answers engine_id to_child to_parent pid open_fds).0 ≡ ok left
    → left.engine_id ≡ engine_id
with_pid-engine_id answers engine_id to_child to_parent (err e) open_fds left h = absurd (cc h)
with_pid-engine_id answers engine_id to_child to_parent (ok pid) open_fds left h =
    set_nonblocking-engine_id answers.input_nonblocking answers.output_nonblocking _ _ left _ h

launch-engine_id :
    (answers : LaunchAnswers) (spec : WorkerLaunchSpec) (engine_id : Text) (open_fds : Open)
    (left : WorkerProcess)
    → (launch answers spec engine_id open_fds).0 ≡ ok left
    → left.engine_id ≡ engine_id
unfolding launch
launch-engine_id answers spec engine_id open_fds left h =
    first (make_cloexec_pipe answers.parent_to_child open_fds) h
  where
    second :
        (to_child : ℕ × ℕ) (pipe : Result (ℕ × ℕ) × Open)
        → (with_second_pipe answers spec engine_id to_child pipe).0 ≡ ok left
        → left.engine_id ≡ engine_id
    second to_child (err e, fds) h' = absurd (cc h')
    second to_child (ok to_parent, fds) h' =
        with_pid-engine_id answers engine_id to_child to_parent _ fds left h'

    first :
        (pipe : Result (ℕ × ℕ) × Open)
        → (with_first_pipe answers spec engine_id pipe).0 ≡ ok left
        → left.engine_id ≡ engine_id
    first (err e, fds) h' = absurd (cc h')
    first (ok to_child, fds) h' = second to_child (make_cloexec_pipe answers.child_to_parent fds) h'

launch_worker-ServesEngine :
    (answers : LaunchAnswers) (open_fds : Open) (engine_id : Text) (pool : WorkerPool)
    (spec : Option WorkerLaunchSpec)
    → ServesEngine engine_id
        (launch_worker (λ spec' id. (launch answers spec' id open_fds).0) engine_id pool spec)
launch_worker-ServesEngine answers open_fds engine_id pool none = tt
launch_worker-ServesEngine answers open_fds engine_id pool (some spec) =
    elim (Result-cases (launch answers spec engine_id open_fds).0) [
      | inr (e, failed) ↦ rw failed tt
      | inl (worker, started) ↦
          rw started
            (ground (arith, launch-engine_id answers spec engine_id open_fds worker started))
    ]

pub acquire-ServesEngine :
    (answers : LaunchAnswers) (open_fds : Open) (engine_id : Text) (waited : ℕ → WaitAnswer)
    (pool : WorkerPool)
    → ServesEngine engine_id
        (acquire (λ spec id. (launch answers spec id open_fds).0) engine_id waited pool)
unfolding acquire
acquire-ServesEngine answers open_fds engine_id waited pool =
    let walked : Walked = find_idle engine_id waited pool.workers pool.processes in
    elim (Option-cases walked.taken) [
      | inr (id, taken) ↦ rw taken (
          (find_idle-Serves engine_id waited pool.workers pool.processes id).engine
            (ground (arith, taken)))
      | inl nothing ↦
          rw nothing
            (launch_worker-ServesEngine answers open_fds engine_id (walked_pool pool walked) _)
    ]
