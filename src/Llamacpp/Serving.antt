-- ===== src/Llamacpp/Serving.antt =====
-- `execute` and the loop of `main`, from the bytes on standard input to those on standard output,
-- which the Kernel reads. The writes succeed: one that does not ends the process with exit code 1.
use madre.Base.{
  ℕ, zero, suc, [], ◌∷◌, ◌++◌, Bool, true, false, not, ◌==◌, Text, Bytes, codes, text_eq,
  if◌then◌else◌, Result, ok, err, what, ◌>>=◌,
}
use madre.Protocol.{Frame}
use madre.Protocol.MessageType
use madre.Protocol.Frames.{encode_frame, read_frame, metadata_value, peer_closed}
use madre.Llamacpp.{Options}
use madre.Llamacpp.Generation.{Llama, Live, generate}

unfoldable pub failure_frame : Frame → Text → Frame
failure_frame request message = record {
  type = MessageType.worker_failure;
  correlation_id = request.correlation_id;
  metadata = (codes "technical_failure", codes "LLAMACPP_WORKER_FAILURE: " ++ message) ∷ [];
  payload = [];
}

unfoldable pub result_frame : Frame → Bytes → Frame
result_frame request result = record {
  type = MessageType.worker_result;
  correlation_id = request.correlation_id;
  metadata = [];
  payload = result;
}

-- Behind what was written before.
abbrev pub write_frame : Frame → Bytes → Result Bytes
write_frame frame output = do encoded ← encode_frame frame; ok (output ++ encoded)

unfoldable pub send_failure : Frame → Text → Bytes → Result Bytes
send_failure request message output = write_frame (failure_frame request message) output

-- The handler behind `generate` and the write of its result.
abbrev pub or_failure : Frame → Bytes → Result Bytes → Result Bytes
or_failure request output (ok written) = ok written
or_failure request output (err e) = send_failure request (what e) output

-- How the process ends: its exit code, and whether it freed the model.
pub record Exit : Type 0 where
  pub code : ℕ
  pub freed : Bool

-- The state of the process between two requests.
pub record Process : Type 0 where
  pub input : Bytes
  pub output : Bytes
  pub live : Live

-- What a turn of the loop comes to: the end of the process, or the state behind a request.
pub data Served : Type 0 where
  exits : Exit → Process → Served
  serves : Process → Served

module _ (llama : Llama) (options : Options) where
  abbrev pub send_result : Frame → Process → Result Bytes × Live → Result Bytes × Live
  send_result request process (result, live) = (
    or_failure request process.output
        (result >>= λ bytes. write_frame (result_frame request bytes) process.output),
    live,
  )

  abbrev pub execute_for : Frame → Process → Result Text → Result Bytes × Live
  execute_for request process (err e) = (err e, process.live)
  execute_for request process (ok engine_id) =
      if not (text_eq engine_id options.engine_id)
      then (send_failure request (codes "engine identity mismatch") process.output, process.live)
      else send_result request process (generate llama options request.payload process.live)

  -- The output with the reply, or the exception that leaves it.
  unfoldable pub execute : Frame → Process → Result Bytes × Live
  execute request process =
      if not (request.type == MessageType.worker_execute)
      then (send_failure request (codes "unsupported worker request") process.output, process.live)
      else execute_for request process (metadata_value request (codes "engine_id"))

  -- `read_frame` has thrown.
  abbrev pub leave : Text → Exit
  leave message = record { code = if text_eq message peer_closed then 0 else 1; freed = true }

  -- An exception of `execute` leaves `main` past the calls that free the model.
  abbrev crashed : Exit
  crashed = record { code = 1; freed = false }

  abbrev pub replied : Process → Bytes → Result Bytes × Live → Served
  replied process rest (err e, live) =
      exits crashed (record { input = rest; output = process.output; live = live })
  replied process rest (ok output, live) =
      serves (record { input = rest; output = output; live = live })

  abbrev pub with_request : Process → Result (Frame × Bytes) → Served
  with_request process (err e) = exits (leave (what e)) process
  with_request process (ok (request, rest)) = replied process rest (execute request process)

  unfoldable pub serve_one : Process → Served
  serve_one process = with_request process (read_frame process.input)

  abbrev pub serve_next : (Process → Served) → Served → Served
  serve_next next (exits exit process) = exits exit process
  serve_next next (serves process) = next process

  -- The loop, on fuel: it still serves when that is used up.
  unfoldable pub serve : ℕ → Process → Served
  serve zero process = serves process
  serve (suc fuel) process = serve_next (serve fuel) (serve_one process)
