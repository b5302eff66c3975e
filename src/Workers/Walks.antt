-- ===== src/Workers/Walks.antt =====
-- What the walks of the pool over its workers do to each of them.
use madre.Base.{
  ℕ, min, ◌+◌, ◌≡◌, ◌≤◌, ◌∙◌, refl, sym, ap, List, [], ◌∷◌, Option, none, some, Bool, true, false,
  not, ◌||◌, ◌==◌, Text, text_eq, if◌then◌else◌, arith, by_test,
}
use madre.Workers.{WorkerProcess, WaitAnswer, WaitStatus, alive, terminate}
use madre.Workers.Pool.{
  Processes, put, Walked, keep, mark_busy, find_idle, find_warm, reap, terminate_all, is_overdue,
  erase_worker,
}

-- How often an identity stands in a list.
abbrev pub count : ℕ → List ℕ → ℕ
count id [] = 0
count id (x ∷ xs) = (if x == id then 1 else 0) + count id xs

abbrev pub is_taken : ℕ → Option ℕ → Bool
is_taken id none = false
is_taken id (some x) = x == id

pub alive-busy :
    (answer : WaitAnswer) (worker : WorkerProcess) → (alive answer worker).1.busy ≡ worker.busy
unfolding alive
alive-busy answer worker = ground arith

pub alive-engine_id :
    (answer : WaitAnswer) (worker : WorkerProcess)
    → (alive answer worker).1.engine_id ≡ worker.engine_id
unfolding alive
alive-engine_id answer worker = ground arith

put-busy :
    (id other : ℕ) (worker : WorkerProcess) (processes : Processes)
    → worker.busy ≡ (processes id).busy
    → (put id worker processes other).busy ≡ (processes other).busy
put-busy id other worker processes e = ground arith

-- Of a walk that takes a worker, at the worker `id`.
pub record IsWalk (ids : List ℕ) (processes : Processes) (walked : Walked) (id : ℕ) : Type 0 where
  pub fewer : count id walked.workers ≤ count id ids
  pub marks : (walked.processes id).busy ≡ ((processes id).busy || is_taken id walked.taken)
  pub was_idle : is_taken id walked.taken ≡ true → (processes id).busy ≡ false
  pub is_kept : is_taken id walked.taken ≡ true → 1 ≤ count id walked.workers

module _ (x id : ℕ) (ids : List ℕ) (processes : Processes) where
  keep-IsWalk :
      (walked : Walked)
      → IsWalk ids processes walked id
      → IsWalk (x ∷ ids) processes (keep x walked) id
  keep-IsWalk walked w = ground (arith, w)

  past-IsWalk :
      (worker : WorkerProcess) (walked : Walked)
      → worker.busy ≡ (processes x).busy
      → IsWalk ids (put x worker processes) walked id
      → IsWalk (x ∷ ids) processes walked id
  past-IsWalk worker walked e w =
      let same : (put x worker processes id).busy ≡ (processes id).busy =
        put-busy x id worker processes e in
      record {
        fewer = omega (arith, w.fewer);
        marks = w.marks ∙ ap (λ b. b || is_taken id walked.taken) same;
        was_idle = λ t. sym same ∙ w.was_idle t;
        is_kept = w.is_kept;
      }

  kept-IsWalk :
      (worker : WorkerProcess) (walked : Walked)
      → worker.busy ≡ (processes x).busy
      → IsWalk ids (put x worker processes) walked id
      → IsWalk (x ∷ ids) processes (keep x walked) id
  kept-IsWalk worker walked e w =
      let same : (put x worker processes id).busy ≡ (processes id).busy =
        put-busy x id worker processes e in
      keep-IsWalk walked (record {
        fewer = w.fewer;
        marks = w.marks ∙ ap (λ b. b || is_taken id walked.taken) same;
        was_idle = λ t. sym same ∙ w.was_idle t;
        is_kept = w.is_kept;
      })

  taken-IsWalk :
      (worker : WorkerProcess)
      → (processes x).busy ≡ false
      → IsWalk
          (x ∷ ids)
          processes
          (record {
            taken = some x;
            workers = x ∷ ids;
            processes = put x (mark_busy worker) processes;
          })
          id
  taken-IsWalk worker idle = ground arith

pub find_idle-IsWalk :
    (engine_id : Text) (waits : ℕ → WaitAnswer) (ids : List ℕ) (processes : Processes) (id : ℕ)
    → IsWalk ids processes (find_idle engine_id waits ids processes) id
unfolding find_idle
find_idle-IsWalk engine_id waits [] processes id = ground arith
find_idle-IsWalk engine_id waits (x ∷ ids) processes id =
    let IsGood : Walked → Type 0 = λ walked. IsWalk (x ∷ ids) processes walked id in
    let worker : WorkerProcess = (alive (waits x) (processes x)).1 in
    let same : worker.busy ≡ (processes x).busy = alive-busy (waits x) (processes x) in
    let rest = find_idle-IsWalk engine_id waits ids (put x worker processes) id in
    by_test IsGood (processes x).busy _ _
      (λ busy. keep-IsWalk x id ids processes _ (find_idle-IsWalk engine_id waits ids processes id))
      (λ idle.
        by_test IsGood (not (alive (waits x) (processes x)).0) _ _
          (λ dead. past-IsWalk x id ids processes worker _ same rest)
          (λ living.
            by_test IsGood (text_eq worker.engine_id engine_id) _ _
              (λ matches. taken-IsWalk x id ids processes worker idle)
              (λ other. kept-IsWalk x id ids processes worker _ same rest)))

pub terminate-busy :
    (status : WaitStatus) (worker : WorkerProcess) → (terminate status worker).busy ≡ worker.busy
unfolding terminate
terminate-busy status worker = ground arith

-- Of a walk that leaves `busy` alone, at the worker `id`.
pub record IsSweep (ids : List ℕ) (processes : Processes) (walked : Walked) (id : ℕ) : Type 0 where
  pub fewer : count id walked.workers ≤ count id ids
  pub same : (walked.processes id).busy ≡ (processes id).busy

module _ (x id : ℕ) (ids : List ℕ) (processes : Processes) (worker : WorkerProcess)
    (e : worker.busy ≡ (processes x).busy) where
  past-IsSweep :
      (walked : Walked)
      → IsSweep ids (put x worker processes) walked id
      → IsSweep (x ∷ ids) processes walked id
  past-IsSweep walked w = record {
    fewer = omega (arith, w.fewer);
    same = w.same ∙ put-busy x id worker processes e;
  }

  kept-IsSweep :
      (walked : Walked)
      → IsSweep ids (put x worker processes) walked id
      → IsSweep (x ∷ ids) processes (keep x walked) id
  kept-IsSweep walked w = record {
    fewer = omega (arith, w.fewer);
    same = w.same ∙ put-busy x id worker processes e;
  }

pub find_warm-IsSweep :
    (engine_id : Text) (waits : ℕ → WaitAnswer) (ids : List ℕ) (processes : Processes) (id : ℕ)
    → IsSweep ids processes (find_warm engine_id waits ids processes) id
unfolding find_warm
find_warm-IsSweep engine_id waits [] processes id = ground arith
find_warm-IsSweep engine_id waits (x ∷ ids) processes id =
    let IsGood : Walked → Type 0 = λ walked. IsSweep (x ∷ ids) processes walked id in
    let worker : WorkerProcess = (alive (waits x) (processes x)).1 in
    let same : worker.busy ≡ (processes x).busy = alive-busy (waits x) (processes x) in
    let rest = find_warm-IsSweep engine_id waits ids (put x worker processes) id in
    by_test IsGood (not (alive (waits x) (processes x)).0) _ _
      (λ dead. past-IsSweep x id ids processes worker same _ rest)
      (λ living.
        by_test IsGood (text_eq worker.engine_id engine_id) _ _
          (λ matches. record { fewer = omega arith; same = put-busy x id worker processes same })
          (λ other. kept-IsSweep x id ids processes worker same _ rest))

pub reap-IsSweep :
    (idle now : ℕ) (waits : ℕ → WaitAnswer) (killed : ℕ → WaitStatus) (ids : List ℕ)
    (processes : Processes) (id : ℕ)
    → IsSweep ids processes (reap idle now waits killed ids processes) id
unfolding reap
reap-IsSweep idle now waits killed [] processes id = ground arith
reap-IsSweep idle now waits killed (x ∷ ids) processes id =
    let IsGood : Walked → Type 0 = λ walked. IsSweep (x ∷ ids) processes walked id in
    let worker : WorkerProcess = (alive (waits x) (processes x)).1 in
    let dead : WorkerProcess = terminate (killed x) worker in
    let same : worker.busy ≡ (processes x).busy = alive-busy (waits x) (processes x) in
    let same' : dead.busy ≡ (processes x).busy = terminate-busy (killed x) worker ∙ same in
    let rest = reap-IsSweep idle now waits killed ids (put x worker processes) id in
    by_test IsGood (not (alive (waits x) (processes x)).0) _ _
      (λ gone. past-IsSweep x id ids processes worker same _ rest)
      (λ living.
        by_test IsGood (is_overdue idle now worker) _ _
          (λ overdue.
            past-IsSweep x id ids processes dead same' _
              (reap-IsSweep idle now waits killed ids (put x dead processes) id))
          (λ fresh. kept-IsSweep x id ids processes worker same _ rest))

pub terminate_all-busy :
    (killed : ℕ → WaitStatus) (ids : List ℕ) (processes : Processes) (id : ℕ)
    → (terminate_all killed ids processes id).busy ≡ (processes id).busy
terminate_all-busy killed [] processes id = refl
terminate_all-busy killed (x ∷ ids) processes id =
    terminate_all-busy killed ids (put x (terminate (killed x) (processes x)) processes) id
    ∙ put-busy x id _ processes (terminate-busy (killed x) (processes x))

pub count-erase_worker :
    (x id : ℕ) (ids : List ℕ)
    → count id (erase_worker x ids) + (if x == id then min 1 (count id ids) else 0) ≡ count id ids
count-erase_worker x id [] = ground arith
count-erase_worker x id (y ∷ ids) = ground (arith, count-erase_worker x id ids)
