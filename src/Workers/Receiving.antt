-- ===== src/Workers/Receiving.antt =====
-- `WorkerProcess::execute`: the loop that waits for the worker's response.
use madre.Base.{
  ℕ, List, [], ◌∷◌, ◌++◌, Option, none, some, Bool, ◌==◌, not, Text, Bytes, Map, lookup, codes,
  if◌then◌else◌, Result, ok, err, what,
}
use madre.Protocol.{Frame}
use madre.Protocol.MessageType
use madre.Protocol.Available.{ReadAnswer, read_available}
use madre.Kernel.Attempts.{WorkerOutcomeKind, WorkerOutcome}
use madre.Workers.{
  WaitStatus, WorkerProcess, WaitAnswer, Attempt, Progress, waits, ends, goes_on, and_then, alive,
  timeout, outcome, stopped_outcome, cancelled_outcome, protocol_failure, ipc_failure, time_is_up,
  unless_alive, kill, kill_if_alive,
}

-- What the outside answers in one round of the loop: to the reads at its start, to those of the
-- last look before the attempt is given up, and so on as in a round of the sending.
pub record ReceiveRound : Type 0 where
  pub reads : List ReadAnswer
  pub stopping : Bool
  pub cancelled : Bool
  pub now : ℕ
  pub last_reads : List ReadAnswer
  pub process : WaitAnswer
  pub poll : Option Text
  pub killed : WaitStatus

abbrev pub success : Bytes → WorkerOutcome
success payload = record {
  kind = WorkerOutcomeKind.succeeded;
  payload = payload;
  technical_failure = [];
}

abbrev reported : Option Text → Text
reported none = codes "WORKER_PROTOCOL_FAILURE: missing technical failure"
reported (some failure) = failure

abbrev pub failure : Map Text → WorkerOutcome
failure metadata =
    outcome WorkerOutcomeKind.technical_failure
      (reported (lookup (codes "technical_failure") metadata))

unfoldable pub finish_response :
    Attempt → WaitStatus → Frame → WorkerProcess → Progress WorkerProcess
finish_response attempt killed response worker =
    if not (response.correlation_id == attempt.correlation_id)
    then kill killed (protocol_failure (codes "correlation id mismatch")) worker
    else if response.type == MessageType.worker_result
    then ends (success response.payload) worker
    else if response.type == MessageType.worker_failure
    then ends (failure response.metadata) worker
    else kill killed (protocol_failure (codes "unexpected worker response")) worker

-- With what `read_available` returned or threw.
abbrev pub looked :
    Attempt → ReceiveRound → Result (Option Frame) → WorkerProcess → Progress WorkerProcess
looked attempt round (ok (some response)) worker =
    finish_response attempt round.killed response worker
looked attempt round (ok none) worker = goes_on worker
looked attempt round (err e) worker =
    kill_if_alive round.killed (protocol_failure (what e)) (alive round.process worker)

-- A look for the response.
unfoldable pub look :
    Attempt → ReceiveRound → List ReadAnswer → WorkerProcess → Progress WorkerProcess
look attempt round answers worker =
    let (found, buffer) = (read_available worker.response_reader answers).0 in
    looked attempt round found (record worker { response_reader = buffer })

-- A last look, and the attempt is given up.
abbrev pub give_up : Attempt → ReceiveRound → WorkerOutcome → WorkerProcess → Progress WorkerProcess
give_up attempt round result worker =
    and_then (look attempt round round.last_reads worker) (kill round.killed result)

abbrev pub poll_ready : ReceiveRound → WorkerProcess → Progress WorkerProcess
poll_ready round worker = elim round.poll [
  | some error ↦ kill round.killed (ipc_failure (codes "poll failed: " ++ error)) worker
  | none ↦ goes_on worker
]

-- A round after its first look.
unfoldable pub may_wait : Attempt → ReceiveRound → WorkerProcess → Progress WorkerProcess
may_wait attempt round worker =
    if round.stopping
    then kill round.killed stopped_outcome worker
    else if round.cancelled
    then give_up attempt round cancelled_outcome worker
    else if time_is_up attempt.stop_at_ms round.now
    then give_up attempt round (timeout attempt) worker
    else and_then (unless_alive (alive round.process worker)) (poll_ready round)

abbrev pub receive_round : Attempt → ReceiveRound → WorkerProcess → Progress WorkerProcess
receive_round attempt round worker =
    and_then (look attempt round round.reads worker) (may_wait attempt round)

-- The loop, which only ends with an outcome.
unfoldable pub receive : Attempt → List ReceiveRound → WorkerProcess → Progress WorkerProcess
receive attempt [] worker = waits
receive attempt (round ∷ rounds) worker =
    and_then (receive_round attempt round worker) (receive attempt rounds)
