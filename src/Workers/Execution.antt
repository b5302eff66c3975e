-- ===== src/Workers/Execution.antt =====
-- `WorkerProcess::execute`: the whole of an attempt on a worker.
use madre.Base.{
  List, [], ◌∷◌, Bool, true, false, Bytes, codes, to_string_i64, Result, ok, err, what,
}
use madre.Protocol.{Frame}
use madre.Protocol.MessageType
use madre.Protocol.Frames.{encode_frame}
use madre.Workers.{
  WaitStatus, WorkerProcess, WaitAnswer, Attempt, Progress, waits, ends, goes_on, alive, crash,
  protocol_failure, kill,
}
use madre.Workers.Sending.{SendRound, send}
use madre.Workers.Receiving.{ReceiveRound, receive}

-- What the outside answers to one call of `execute`.
pub record Outside : Type 0 where
  pub before : WaitAnswer
  pub killed : WaitStatus
  pub sends : List SendRound
  pub receives : List ReceiveRound

-- The keys stand in the order of the map.
unfoldable pub request_frame : Attempt → WorkerProcess → Frame
request_frame attempt worker = record {
  type = MessageType.worker_execute;
  correlation_id = attempt.correlation_id;
  metadata =
      (codes "attempt_started_at_ms", to_string_i64 attempt.attempt_started_at_ms)
      ∷ (codes "engine_id", worker.engine_id)
      ∷ [];
  payload = attempt.payload;
}

-- After the sending.
abbrev pub await :
    Attempt → List ReceiveRound → Bytes × Progress WorkerProcess → Bytes × Progress WorkerProcess
await attempt rounds (taken, waits) = (taken, waits)
await attempt rounds (taken, ends result worker) = (taken, ends result worker)
await attempt rounds (taken, goes_on worker) = (taken, receive attempt rounds worker)

unfoldable pub exchange :
    Attempt → Outside → Result Bytes → WorkerProcess → Bytes × Progress WorkerProcess
exchange attempt outside (err e) worker =
    ([], kill outside.killed (protocol_failure (what e)) worker)
exchange attempt outside (ok request) worker =
    await attempt outside.receives (send attempt [] request outside.sends worker)

abbrev if_alive : Attempt → Outside → Bool × WorkerProcess → Bytes × Progress WorkerProcess
if_alive attempt outside (true, worker) =
    exchange attempt outside (encode_frame (request_frame attempt worker)) worker
if_alive attempt outside (false, worker) = ([], ends (crash worker) worker)

-- The bytes that the worker's pipe took, with the outcome and the worker as it is left.
unfoldable pub execute : Attempt → Outside → WorkerProcess → Bytes × Progress WorkerProcess
execute attempt outside worker = if_alive attempt outside (alive outside.before worker)
