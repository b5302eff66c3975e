-- ===== src/Protocol.antt =====
-- kernel/src/protocol.hpp and protocol.cpp: the frame and its message types.
pub mod MessageType
pub mod Integers
pub mod Entries
pub mod Frames
pub mod Reading
pub mod RoundTrip
pub mod Prefix
pub mod Available
pub mod Heard
use madre.Base.{ℕ, Bytes, Text, Map, ◌*◌}

abbrev pub framing_version : ℕ
framing_version = 1

abbrev pub min_kernel_protocol_version : ℕ
min_kernel_protocol_version = 2

abbrev pub max_kernel_protocol_version : ℕ
max_kernel_protocol_version = 2

abbrev pub max_payload_bytes : ℕ
max_payload_bytes = 1024 * 1024

abbrev pub Metadata : Type 0
Metadata = Map Text

-- `type` is the value of a `MessageType`, which a received frame may give no name.
pub record Frame : Type 0 where
  pub type : ℕ
  pub correlation_id : ℕ
  pub metadata : Metadata
  pub payload : Bytes
