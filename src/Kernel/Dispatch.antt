-- ===== src/Kernel/Dispatch.antt =====
-- `Kernel::handle` and `Kernel::serve_connection`: the two frames of a connection and its replies.
use madre.Base.{
  ℕ, List, [], ◌∷◌, Bool, not, ◌==◌, Text, Bytes, codes, if◌then◌else◌, Result, ok, err, Error,
  framing_error, runtime_error, invalid_argument, out_of_range, what,
}
use madre.Protocol.{Frame}
use madre.Protocol.MessageType
use madre.Protocol.Frames.{read_frame, encode_frame}
use madre.Kernel.{Kernel, error_response}
use madre.Kernel.Handlers
use madre.Kernel.Handlers.{Reply}

-- What the outside contributes to a command: the clock, the random id of a new Work, SQLite's
-- message, and which engines have a warm worker.
pub record Surroundings : Type 0 where
  pub now : ℕ
  pub work_id : Text
  pub errmsg : Text
  pub is_warm : Text → Bool

abbrev pub unsupported : Frame → Frame
unsupported request =
    error_response request (codes "UNKNOWN_MESSAGE") (codes "unsupported Kernel command")

unfoldable pub handle : Surroundings → Frame → Kernel → Reply
handle around request kernel =
    let type = request.type in
    if type == MessageType.submit
    then Handlers.submit around.errmsg around.now around.work_id request kernel
    else if type == MessageType.status
    then (kernel, Handlers.status request kernel)
    else if type == MessageType.result
    then (kernel, Handlers.result request kernel)
    else if type == MessageType.acknowledge
    then Handlers.acknowledge request kernel
    else if type == MessageType.cancel
    then Handlers.cancel request kernel
    else if type == MessageType.list_engines
    then (kernel, ok (Handlers.list_engines around.is_warm request kernel))
    else if type == MessageType.engine_status
    then (kernel, Handlers.engine_status around.is_warm request kernel)
    else (kernel, ok (unsupported request))

abbrev error_code : Error → Text
error_code (framing_error m) = codes "FRAMING_ERROR"
error_code (runtime_error m) = codes "PROTOCOL_OR_REQUEST_ERROR"
error_code (invalid_argument m) = codes "PROTOCOL_OR_REQUEST_ERROR"
error_code (out_of_range m) = codes "PROTOCOL_OR_REQUEST_ERROR"

abbrev if_encoded : Result Bytes → List Bytes
if_encoded (ok bytes) = bytes ∷ []
if_encoded (err e) = []

-- The `catch` blocks: a reply that cannot be encoded is not sent.
unfoldable pub report : Frame → Error → List Bytes
report hello_request e =
    if_encoded (encode_frame (error_response hello_request (error_code e) (what e)))

-- `write_frame`, inside the `try` block
unfoldable pub send : Frame → Frame → List Bytes
send hello_request frame = elim (encode_frame frame) [
  | ok bytes ↦ bytes ∷ []
  | err e ↦ report hello_request e
]

abbrev send_reply : Frame → Result Frame → List Bytes
send_reply hello_request (ok frame) = send hello_request frame
send_reply hello_request (err e) = report hello_request e

-- The second frame, once the greeting was written.
unfoldable pub serve_command : Surroundings → Frame → Bytes → Kernel → Kernel × List Bytes
serve_command around hello_request stream kernel = elim (read_frame stream) [
  | err e ↦ (kernel, report hello_request e)
  | ok (request, _) ↦
      let reply = handle around request kernel in (reply.0, send_reply hello_request reply.1)
]

abbrev after_greeting : Bytes → Kernel × List Bytes → Kernel × List Bytes
after_greeting greeting served = (served.0, greeting ∷ served.1)

unfoldable pub serve_greeted : Surroundings → Frame → Frame → Bytes → Kernel → Kernel × List Bytes
serve_greeted around hello_request hello_response stream kernel =
    elim (encode_frame hello_response) [
      | err e ↦ (kernel, report hello_request e)
      | ok greeting ↦
          if hello_response.type == MessageType.error
          then (kernel, greeting ∷ [])
          else after_greeting greeting (serve_command around hello_request stream kernel)
    ]

unfoldable pub serve_hello : Surroundings → Frame → Bytes → Kernel → Kernel × List Bytes
serve_hello around hello_request stream kernel =
    if not (hello_request.type == MessageType.hello)
    then (
      kernel,
      send hello_request (
          error_response hello_request (codes "HELLO_REQUIRED")
            (codes "HELLO must be the first frame")),
    )
    else elim (Handlers.hello hello_request) [
      | err e ↦ (kernel, report hello_request e)
      | ok hello_response ↦ serve_greeted around hello_request hello_response stream kernel
    ]

abbrev no_frame : Frame
no_frame = record { type = 0; correlation_id = 0; metadata = []; payload = [] }

-- A connection whose client sends `stream`: the Kernel after it, and what is written back.
unfoldable pub serve_connection : Surroundings → Bytes → Kernel → Kernel × List Bytes
serve_connection around stream kernel = elim (read_frame stream) [
  | err e ↦ (kernel, report no_frame e)
  | ok (hello_request, rest) ↦ serve_hello around hello_request rest kernel
]
