-- ===== src/Protocol/Frames.antt =====
-- Frames on the wire: `encode_frame`, `read_frame` and the frame that `IncrementalFrameReader`
-- takes from its buffer. A stream is the list of the bytes that come before the peer closes it: a
-- read may return fewer bytes than were asked for, and `read_exact` then goes on.
use madre.Base.{
  lookup, ℕ, zero, suc, ◌+◌, ◌*◌, [], ◌∷◌, ◌++◌, Option, none, some, not, ◌||◌, ltb, ◌==◌, length,
  take, drop, Bytes, Text, text_eq, codes, if◌then◌else◌, Result, ok, err, runtime_error,
  framing_error, guard, ◌>>=◌, ◌>>◌,
}
use madre.Protocol.{Frame, framing_version, max_payload_bytes}
use madre.Protocol.Integers.{get_u16, get_u32, get_u64, put_u16, put_u32, put_u64}
use madre.Protocol.Entries.{encode_metadata, decode_metadata}

abbrev pub magic : Bytes
magic = b'M' ∷ b'A' ∷ b'D' ∷ b'R' ∷ []

abbrev pub header_size : ℕ
header_size = 28

abbrev pub max_metadata : ℕ
max_metadata = 1024 * 1024

-- What the first 28 bytes say.
pub record Header : Type 0 where
  pub type : ℕ
  pub correlation : ℕ
  pub metadata_length : ℕ
  pub payload_length : ℕ

abbrev pub exceeds_limits : Text
exceeds_limits = codes "frame exceeds C1 bounded text-generation/v1 framing limits"

unfoldable pub parse_header : Bytes → Result Header
parse_header header = do
  guard (text_eq (take 4 header) magic) (framing_error (codes "invalid framing magic"))
  guard (get_u16 (drop 4 header) == framing_version)
      (framing_error (codes "unsupported framing version"))
  let metadata_length = get_u32 (drop 16 header)
  let payload_length = get_u64 (drop 20 header)
  guard (not (ltb max_metadata metadata_length || ltb max_payload_bytes payload_length))
      (framing_error exceeds_limits)
  ok (record {
    type = get_u16 (drop 6 header);
    correlation = get_u64 (drop 8 header);
    metadata_length = metadata_length;
    payload_length = payload_length;
  })

-- `Frame{type, correlation, decode_metadata(metadata), payload}`
unfoldable pub make_frame : Header → Bytes → Bytes → Result Frame
make_frame h metadata payload = do
  entries ← decode_metadata metadata
  ok (record {
    type = h.type;
    correlation_id = h.correlation;
    metadata = entries;
    payload = payload;
  })

abbrev pub peer_closed : Text
peer_closed = codes "peer closed framed IPC"

unfoldable pub read_exact : ℕ → Bytes → Result (Bytes × Bytes)
read_exact zero stream = ok ([], stream)
read_exact (suc n) [] = err (runtime_error peer_closed)
read_exact (suc n) (b ∷ stream) = do (out, rest) ← read_exact n stream; ok (b ∷ out, rest)

-- The frame and the bytes behind it.
unfoldable pub read_frame : Bytes → Result (Frame × Bytes)
read_frame stream = do
  (header, body) ← read_exact header_size stream
  h ← parse_header header
  (metadata, body') ← read_exact h.metadata_length body
  (payload, rest) ← read_exact h.payload_length body'
  frame ← make_frame h metadata payload
  ok (frame, rest)

abbrev pub total_size : Header → ℕ
total_size h = header_size + h.metadata_length + h.payload_length

abbrev pub some_frame : Result Frame → Result (Option Frame)
some_frame (ok frame) = ok (some frame)
some_frame (err e) = err e

-- The bytes of the frame leave the buffer before its metadata is decoded.
unfoldable pub take_body : Header → Bytes → Result (Option Frame) × Bytes
take_body h buffer = if ltb (length buffer) (total_size h) then (ok none, buffer) else (
  some_frame (
      make_frame h (take h.metadata_length (drop header_size buffer))
        (take h.payload_length (drop (header_size + h.metadata_length) buffer))),
  drop (total_size h) buffer,
)

-- `read_available` once it has read: a frame if the buffer holds one, and the buffer after.
unfoldable pub take_frame : Bytes → Result (Option Frame) × Bytes
take_frame buffer =
    if ltb (length buffer) header_size
    then (ok none, buffer)
    else elim (parse_header (take header_size buffer)) [
      | err e ↦ (err e, buffer)
      | ok h ↦ take_body h buffer
    ]

-- `put_u32(header + 16, metadata.size())` and so on: the header is filled from left to right.
unfoldable pub encode_header : ℕ → ℕ → ℕ → ℕ → Bytes
encode_header type correlation metadata_length payload_length =
    magic
    ++ (put_u16 framing_version
        ++ (put_u16 type
            ++ (put_u64 correlation ++ (put_u32 metadata_length ++ put_u64 payload_length))))

unfoldable pub encode_frame : Frame → Result Bytes
encode_frame frame = do
  metadata ← encode_metadata frame.metadata
  guard (not (ltb max_metadata (length metadata) || ltb max_payload_bytes (length frame.payload)))
      (framing_error exceeds_limits)
  ok (
      encode_header frame.type frame.correlation_id (length metadata) (length frame.payload)
      ++ (metadata ++ frame.payload))

abbrev pub or_missing : Text → Option Text → Result Text
or_missing key none = err (runtime_error (codes "missing metadata field: " ++ key))
or_missing key (some value) = ok value

unfoldable pub metadata_value : Frame → Text → Result Text
metadata_value frame key = or_missing key (lookup key frame.metadata)
