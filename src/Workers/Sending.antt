-- ===== src/Workers/Sending.antt =====
-- `WorkerProcess::execute`: the loop that writes the request into the worker's pipe.
use madre.Base.{
  ℕ, List, [], ◌∷◌, ◌++◌, Option, none, some, Bool, ltb, take, drop, Text, Bytes, codes,
  if◌then◌else◌,
}
use madre.Workers.{
  WaitStatus, WorkerProcess, WaitAnswer, Attempt, Progress, waits, ends, goes_on, and_then, alive,
  timeout, stopped_outcome, cancelled_outcome, ipc_failure, time_is_up, unless_alive, kill,
  kill_if_alive,
}

-- `::write`: how many bytes, `EAGAIN`, `EWOULDBLOCK` or `EINTR`, or another error.
pub data WriteAnswer : Type 0 where
  written : ℕ → WriteAnswer
  would_block : WriteAnswer
  write_failed : Text → WriteAnswer

-- What the outside answers in one round of the loop; `poll` is an error other than `EINTR`, and
-- `killed` the status of the process if the round kills it.
pub record SendRound : Type 0 where
  pub stopping : Bool
  pub cancelled : Bool
  pub now : ℕ
  pub before : WaitAnswer
  pub write : WriteAnswer
  pub behind : WaitAnswer
  pub poll : Option Text
  pub killed : WaitStatus

-- The checks before the write.
unfoldable pub may_write : Attempt → SendRound → WorkerProcess → Progress WorkerProcess
may_write attempt round worker =
    if round.stopping
    then kill round.killed stopped_outcome worker
    else if round.cancelled
    then kill round.killed cancelled_outcome worker
    else if time_is_up attempt.stop_at_ms round.now
    then kill round.killed (timeout attempt) worker
    else unless_alive (alive round.before worker)

abbrev pub poll_writable : SendRound → WorkerProcess → Progress (ℕ × WorkerProcess)
poll_writable round worker = elim round.poll [
  | some error ↦ kill round.killed (ipc_failure (codes "request poll failed: " ++ error)) worker
  | none ↦ goes_on (0, worker)
]

-- The write, and how many bytes it took.
unfoldable pub write_some : SendRound → WorkerProcess → Progress (ℕ × WorkerProcess)
write_some round worker = elim round.write [
  | written n ↦ if ltb 0 n then goes_on (n, worker) else poll_writable round worker
  | would_block ↦ poll_writable round worker
  | write_failed error ↦
      kill_if_alive round.killed (ipc_failure (codes "request write failed: " ++ error))
        (alive round.behind worker)
]

abbrev pub send_round : Attempt → SendRound → WorkerProcess → Progress (ℕ × WorkerProcess)
send_round attempt round worker = and_then (may_write attempt round worker) (write_some round)

-- What follows a round: the end, or the next one.
abbrev pub after_round :
    Bytes
    → (ℕ → WorkerProcess → Bytes × Progress WorkerProcess)
    → Progress (ℕ × WorkerProcess)
    → Bytes × Progress WorkerProcess
after_round taken next waits = (taken, waits)
after_round taken next (ends result worker) = (taken, ends result worker)
after_round taken next (goes_on (n, worker)) = next n worker

-- The loop, with the bytes that the pipe has taken and those that are left. It goes on when the
-- pipe has them all.
unfoldable pub send :
    Attempt → Bytes → Bytes → List SendRound → WorkerProcess → Bytes × Progress WorkerProcess
send attempt taken [] rounds worker = (taken, goes_on worker)
send attempt taken (b ∷ left) [] worker = (taken, waits)
send attempt taken (b ∷ left) (round ∷ rounds) worker =
    after_round taken
      (λ n worker'. send attempt (taken ++ take n (b ∷ left)) (drop n (b ∷ left)) rounds worker')
      (send_round attempt round worker)
