-- ===== src/Examples/Wire.antt =====
-- The theorems on frames, lists of names and the command line at small inputs.
use madre.Base.{
  ◌≡◌, ◌≤◌, ◌↔◌, refl, List, [], ◌∷◌, ◌++◌, some, Text, Bytes, codes, arith, All, is_empty,
  has_byte, has_any_of, any_of, length, lookup, emplace, ok,
}
use madre.Protocol.{Frame, Metadata}
use madre.Protocol.MessageType
use madre.Protocol.Integers.{put_u16, put_u32, put_u64}
use madre.Protocol.Entries.{encode_metadata, is_entry, IsSorted}
use madre.Protocol.Frames.{encode_frame, encode_header, read_frame, take_frame}
use madre.Protocol.Reading.{take_frame-read_frame}
use madre.Protocol.RoundTrip.{IsFrame, read_frame-encode_frame}
use madre.Protocol.Available.{
  ReadAnswer, bytes, interrupted, read_available, read_available-encode_frame,
  read_available-length, max_buffered_frame,
}
use madre.Options.{
  Options, default_options, add_gpu_capacity, build_engine_inventory, has_configured_worker,
  configured_engine,
}
use madre.Options.Arguments.{check_options}
use madre.Options.Checked.{IsValidEngine, check_options-IsValidEngine, add_gpu_capacity_wraps}

abbrev metadata : Metadata
metadata = (b'k' ∷ [], b'v' ∷ []) ∷ []

abbrev encoded_metadata : Bytes
encoded_metadata = b'k' ∷ b'=' ∷ b'v' ∷ b'\n' ∷ []

metadata_encoded : encode_metadata metadata ≡ ok encoded_metadata
unfolding encode_metadata is_entry is_empty has_any_of any_of has_byte
metadata_encoded = refl

metadata-IsSorted : IsSorted metadata
metadata-IsSorted = (tt, tt)

abbrev request : Frame
request = record {
  type = MessageType.status;
  correlation_id = 7;
  metadata = metadata;
  payload = 1 ∷ 2 ∷ [];
}

request-IsFrame : IsFrame request
request-IsFrame = record {
  type_u16 = omega arith;
  correlation_u64 = omega arith;
  sorted = metadata-IsSorted;
}

abbrev header : Bytes
header =
    b'M' ∷ b'A' ∷ b'D' ∷ b'R' ∷ 0 ∷ 1 ∷ 0 ∷ 20 ∷ 0 ∷ 0 ∷ 0 ∷ 0 ∷ 0 ∷ 0 ∷ 0 ∷ 7 ∷ 0 ∷ 0 ∷ 0 ∷ 4 ∷ 0
    ∷ 0 ∷ 0 ∷ 0 ∷ 0 ∷ 0 ∷ 0 ∷ 2 ∷ []

abbrev body : Bytes
body = encoded_metadata ++ (1 ∷ 2 ∷ [])

request_encoded : encode_frame request ≡ ok (header ++ body)
unfolding encode_frame encode_metadata is_entry is_empty has_any_of any_of has_byte encode_header
    put_u16 put_u32 put_u64
request_encoded = refl

read_frame-encode_frame_example : read_frame ((header ++ body) ++ (9 ∷ [])) ≡ ok (request, 9 ∷ [])
read_frame-encode_frame_example =
    read_frame-encode_frame request (header ++ body) (9 ∷ []) request-IsFrame request_encoded

take_frame-read_frame_example :
    (take_frame (header ++ body) ≡ (ok (some request), []))
    ↔ (read_frame (header ++ body) ≡ ok (request, []))
take_frame-read_frame_example = take_frame-read_frame (header ++ body) [] request

-- The frame in two reads, the first of which was an earlier call's.
abbrev answers : List ReadAnswer
answers = interrupted ∷ bytes body ∷ []

read_available-encode_frame_example : read_available header answers ≡ ((ok (some request), []), [])
unfolding is_empty
read_available-encode_frame_example =
    read_available-encode_frame request (header ++ body) [] header answers request-IsFrame
      request_encoded refl (tt, (refl, tt)) (omega arith) (omega arith)

read_available-length_example : length (read_available header answers).0.1 ≤ max_buffered_frame
read_available-length_example = read_available-length header answers (omega arith)

abbrev names : List Text
names = (b'a' ∷ []) ∷ (b'b' ∷ b'c' ∷ []) ∷ []

add_gpu_capacity_wraps_example :
    add_gpu_capacity default_options.capacity ((b'g' ∷ []) ++ (b'=' ∷ codes "17592186044416"))
    ≡ ok (record default_options.capacity { gpu_vram_bytes = emplace (b'g' ∷ []) 0 [] })
unfolding is_empty has_byte any_of lookup
add_gpu_capacity_wraps_example =
    add_gpu_capacity_wraps default_options.capacity (b'g' ∷ []) refl refl refl

abbrev options : Options
options = record default_options {
  data_dir = b'd' ∷ [];
  endpoint = b'e' ∷ [];
  worker_engine_id = b'l' ∷ [];
  worker_executable = b'x' ∷ [];
}

check_options-IsValidEngine_example : All IsValidEngine (configured_engine options ∷ [])
unfolding check_options is_empty has_configured_worker build_engine_inventory any_of
check_options-IsValidEngine_example =
    check_options-IsValidEngine options (configured_engine options ∷ []) refl refl
