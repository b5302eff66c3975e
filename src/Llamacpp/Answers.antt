-- ===== src/Llamacpp/Answers.antt =====
-- The Kernel's side of an attempt and the worker's side of it, put together.
use madre.Base.{
  text_lt, ℕ, ◌^◌, ◌≡◌, ◌<◌, ◌∙◌, refl, sym, ap, List, [], ◌∷◌, ◌++◌, some, true, length, Bytes,
  codes, text_eq, text_eq_refl, lookup, ◌==◌, arith, ok, err, what, Result, All,
}
use mathlib.Core.Path.{subst}
use mathlib.Core.List.{append-nil}
use madre.Protocol.{Frame}
use madre.Protocol.Frames.{encode_frame, read_frame, metadata_value}
use madre.Protocol.RoundTrip.{IsFrame, read_frame-encode_frame}
use madre.Protocol.Available.{brought, IsCalm, read_budget}
use madre.Kernel.Attempts.{WorkerOutcomeKind, WorkerOutcome}
use madre.Workers.{WorkerProcess, Attempt, ends, outcome}
use madre.Workers.Receiving.{ReceiveRound, receive, finish_response, success}
use madre.Workers.Execution.{request_frame}
use madre.Workers.Chunks.{
  IsQuiet, brought_by, receive-encode_frame, encode_frame-length, with_buffer,
}
use madre.Llamacpp.{Options}
use madre.Llamacpp.Generation.{Llama, Live, generate}
use madre.Llamacpp.Generated.{generate-live}
use madre.Llamacpp.Serving.{
  Process, serves, serve_one, execute, send_result, failure_frame, send_failure, result_frame,
}

-- The frame that answers a request, given what `generate` came to.
abbrev pub reply_frame : Frame → Result Bytes → Frame
reply_frame request (ok result) = result_frame request result
reply_frame request (err e) = failure_frame request (what e)

-- The outcome of the attempt then.
abbrev pub reply_outcome : Result Bytes → WorkerOutcome
reply_outcome (ok result) = success result
reply_outcome (err e) =
    outcome WorkerOutcomeKind.technical_failure (codes "LLAMACPP_WORKER_FAILURE: " ++ what e)

request_frame-IsFrame :
    (attempt : Attempt) (worker : WorkerProcess)
    → attempt.correlation_id < 2 ^ 64
    → IsFrame (request_frame attempt worker)
unfolding request_frame codes text_lt
request_frame-IsFrame attempt worker h = record {
  type_u16 = omega arith;
  correlation_u64 = h;
  sorted = ((refl, tt), (tt, tt));
}

reply_frame-IsFrame :
    (request : Frame) (result : Result Bytes)
    → request.correlation_id < 2 ^ 64
    → IsFrame (reply_frame request result)
unfolding result_frame failure_frame
reply_frame-IsFrame request (ok result) h = record {
  type_u16 = omega arith;
  correlation_u64 = h;
  sorted = tt;
}
reply_frame-IsFrame request (err e) h = record {
  type_u16 = omega arith;
  correlation_u64 = h;
  sorted = (tt, tt);
}

send_result-reply :
    (llama : Llama) (options : Options) (request : Frame) (process : Process)
    (result : Result Bytes) (reply : Bytes)
    → encode_frame (reply_frame request result) ≡ ok reply
    → send_result llama options request process (result, process.live)
      ≡ (ok (process.output ++ reply), process.live)
unfolding send_failure
send_result-reply llama options request process (ok result) reply e = rw e refl
send_result-reply llama options request process (err x) reply e = rw e refl

finish_response-reply :
    (attempt : Attempt) (worker left : WorkerProcess) (last : ReceiveRound) (result : Result Bytes)
    → finish_response attempt last.killed (reply_frame (request_frame attempt worker) result) left
      ≡ ends (reply_outcome result) left
unfolding finish_response request_frame result_frame failure_frame lookup text_eq codes
finish_response-reply attempt worker left last (ok result) = ground arith
finish_response-reply attempt worker left last (err e) =
    let same : attempt.correlation_id == attempt.correlation_id ≡ true = ground arith in
    rw same refl

with_live :
    (llama : Llama) (options : Options) (payload : Bytes) (live : Live)
    → generate llama options payload live ≡ ((generate llama options payload live).0, live)
with_live llama options payload live =
    ap (λ left. ((generate llama options payload live).0, left))
      (generate-live llama options payload live)

execute-reply :
    (llama : Llama) (options : Options) (attempt : Attempt) (worker : WorkerProcess)
    (process : Process) (reply : Bytes)
    → worker.engine_id ≡ options.engine_id
    → encode_frame (
        reply_frame
          (request_frame attempt worker)
          (generate llama options attempt.payload process.live).0)
      ≡ ok reply
    → execute llama options (request_frame attempt worker) process
      ≡ (ok (process.output ++ reply), process.live)
unfolding execute metadata_value lookup text_eq codes request_frame
execute-reply llama options attempt worker process reply same e =
    let matches : text_eq worker.engine_id options.engine_id ≡ true =
      rw same (text_eq_refl options.engine_id) in
    rw (matches, with_live llama options attempt.payload process.live)
      (send_result-reply llama options (request_frame attempt worker) process _ reply e)

from_start :
    (attempt : Attempt) (rounds : List ReceiveRound) (worker : WorkerProcess)
    (result : WorkerOutcome)
    → worker.response_reader ≡ []
    → receive attempt rounds (with_buffer [] worker) ≡ ends result (with_buffer [] worker)
    → receive attempt rounds worker ≡ ends result worker
from_start attempt rounds worker result empty e =
    let same : with_buffer [] worker ≡ worker = ground (arith, empty) in
    subst (λ w. receive attempt rounds w ≡ ends result w) same e

-- The request that the Kernel sends for an attempt, the text generation worker of that engine reads
-- and answers, and keeps the input behind it; and the Kernel takes the answer for the outcome of the
-- attempt: the bytes that were generated, or the message of the exception that prevented it. The
-- answer may come in any reads over rounds in which there is nothing else to do, and in the last of
-- them the attempt may be about to be given up. The Kernel's worker lives and has nothing buffered,
-- the correlation id has 64 bits, request and answer have an encoding, and each round reads within
-- the budget of a call.
pub serve_one-receive :
    (llama : Llama) (options : Options) (attempt : Attempt) (worker : WorkerProcess)
    (process : Process) (request reply rest : Bytes) (earlier rounds : List ReceiveRound)
    (last : ReceiveRound)
    → (p : ℕ) × (worker.pid ≡ some p)
    → worker.response_reader ≡ []
    → worker.engine_id ≡ options.engine_id
    → attempt.correlation_id < 2 ^ 64
    → encode_frame (request_frame attempt worker) ≡ ok request
    → process.input ≡ request ++ rest
    → encode_frame (
        reply_frame
          (request_frame attempt worker)
          (generate llama options attempt.payload process.live).0)
      ≡ ok reply
    → All (IsQuiet attempt) earlier
    → All IsCalm last.reads
    → length (brought last.reads) < read_budget
    → brought_by earlier ++ brought last.reads ≡ reply
    → length (brought_by earlier) < length reply
    → (serve_one llama options process
        ≡ serves (record { input = rest; output = process.output ++ reply; live = process.live }))
      × (receive attempt (earlier ++ (last ∷ rounds)) worker
          ≡ ends (reply_outcome (generate llama options attempt.payload process.live).0) worker)
unfolding serve_one request_frame
serve_one-receive llama options attempt worker process request reply rest earlier rounds last living
      empty same h e input e' quiet calm within whole short =
    let result = (generate llama options attempt.payload process.live).0 in
    let frame = reply_frame (request_frame attempt worker) result in
    let w = reply_frame-IsFrame (request_frame attempt worker) result h in
    let read : read_frame process.input ≡ ok (request_frame attempt worker, rest) = rw input (
      read_frame-encode_frame (request_frame attempt worker) request rest
        (request_frame-IsFrame attempt worker h) e) in
    let whole' : brought_by earlier ++ brought last.reads ≡ reply ++ [] =
      whole ∙ sym (append-nil reply) in
    (
      rw (read, execute-reply llama options attempt worker process reply same e') refl,
      from_start attempt (earlier ++ (last ∷ rounds)) worker (reply_outcome result) empty (
          receive-encode_frame attempt worker frame reply [] [] earlier rounds last living w e'
            quiet calm within whole' short
            (rw (append-nil reply) (encode_frame-length frame reply e'))
          ∙ finish_response-reply attempt worker _ last result),
    )
