-- ===== src/Kernel.antt =====
-- kernel/src/main.cpp: `Kernel`, and the helpers that read the fields of a request.
pub mod Files
pub mod Handlers
pub mod Dispatch
pub mod Effects
pub mod Submission
pub mod Negotiation
pub mod Scheduler
pub mod Attempts
pub mod Reservations
pub mod Turns
pub mod System
pub mod Ends
pub mod Interleavings
use madre.Base.{
  ℕ, List, [], ◌∷◌, ◌++◌, ◌^◌, Option, none, some, Bool, true, false, not, ◌&&◌, ◌||◌, Text, Bytes,
  codes, is_empty, text_eq, Map, lookup, emplace, lt_i64, stoll, if◌then◌else◌, Result, ok, err,
  runtime_error, guard, ◌>>=◌, ◌>>◌,
}
use madre.Protocol.{Frame}
use madre.Protocol.MessageType
use madre.Protocol.Frames.{metadata_value}
use madre.Store.{WorkStore, Effort, Urgency}
use madre.Engines.{EngineDescriptorFacts}

unfoldable pub response : ℕ → Frame → Frame
response type request = record {
  type = type;
  correlation_id = request.correlation_id;
  metadata = [];
  payload = [];
}

unfoldable pub error_response : Frame → Text → Text → Frame
error_response request code message = record {
  type = MessageType.error;
  correlation_id = request.correlation_id;
  metadata = emplace (codes "message") message (emplace (codes "code") code []);
  payload = [];
}

abbrev or_empty : Option Text → Text
or_empty none = []
or_empty (some value) = value

unfoldable pub optional_metadata : Frame → Text → Text
optional_metadata frame key = or_empty (lookup key frame.metadata)

abbrev all_read : Text → Result (ℕ × Text) → Result ℕ
all_read field (ok (parsed, [])) = ok parsed
all_read field _ = err (runtime_error (codes "invalid integer metadata field: " ++ field))

-- Any exception of `std::stoll`, and text behind the number, is the same error.
unfoldable pub parse_i64 : Text → Text → Result ℕ
parse_i64 value field = all_read field (stoll value)

unfoldable pub optional_nonnegative_i64 : Frame → Text → Result (Option ℕ)
optional_nonnegative_i64 frame key =
    let value = optional_metadata frame key in
    if is_empty value then ok none else (do
      parsed ← parse_i64 value key
      guard (not (lt_i64 parsed 0)) (runtime_error (key ++ codes " must be >= 0"))
      ok (some parsed))

unfoldable pub parse_positive_int : Frame → Text → Result ℕ
parse_positive_int frame key = do
  value ← metadata_value frame key
  parsed ← parse_i64 value key
  guard (not (lt_i64 parsed 1 || lt_i64 2147483647 parsed))
      (runtime_error (key ++ codes " must be >= 1 and fit the physical integer representation"))
  ok parsed

-- `validate_choice(effort, "STANDARD", "HIGH", "effort")`
unfoldable pub validate_effort : Text → Result Effort
validate_effort value =
    if text_eq value (codes "STANDARD")
    then ok Effort.standard
    else if text_eq value (codes "HIGH")
    then ok Effort.high
    else err (runtime_error (codes "invalid effort"))

unfoldable pub validate_urgency : Text → Result Urgency
validate_urgency value =
    if text_eq value (codes "INTERACTIVE")
    then ok Urgency.interactive
    else if text_eq value (codes "NORMAL")
    then ok Urgency.normal
    else if text_eq value (codes "BACKGROUND")
    then ok Urgency.background
    else err (runtime_error (codes "invalid urgency"))

-- What a handler works on: the database, the files by path, and what the Kernel was started with.
pub record Kernel : Type 0 where
  pub data_dir : Text
  pub engine_inventory : List EngineDescriptorFacts
  pub store : WorkStore
  pub files : Map Bytes
