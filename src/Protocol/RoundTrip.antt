-- ===== src/Protocol/RoundTrip.antt =====
-- What is encoded is read back, from a stream and from a buffer that fills bit by bit.
use mathlib.Core.List.{append_assoc}
use madre.Base.{
  ℕ, ◌^◌, ◌≡◌, ◌≤◌, ◌<◌, sym, inl, inr, refl, [], ◌∷◌, ◌++◌, some, ◌||◌, ltb, length, take, drop,
  Bytes, arith, text_eq_refl, Bool-cases, ok, >>=-eq-ok, ok-injective,
}
use madre.Protocol.{Frame, max_payload_bytes, framing_version}
use madre.Protocol.Integers.{
  put_u16, put_u32, put_u64, get_u16-put_u16, get_u32-put_u32, get_u64-put_u64,
}
use madre.Protocol.Entries.{IsSorted, encode_metadata, decode_metadata-encode_metadata}
use madre.Protocol.Frames.{
  parse_header, make_frame, read_exact, read_frame, take_frame, encode_header, encode_frame,
  header_size, magic, max_metadata,
}
use madre.Protocol.Reading.{take_frame-read_frame}

read_exact-append : (xs ys : Bytes) → read_exact (length xs) (xs ++ ys) ≡ ok (xs, ys)
unfolding read_exact
read_exact-append [] ys = refl
read_exact-append (x ∷ xs) ys = rw (read_exact-append xs ys)

pub length-encode_header : (t c m p : ℕ) → length (encode_header t c m p) ≡ header_size
unfolding encode_header put_u16 put_u32 put_u64
length-encode_header t c m p = refl

module _ (t c m p : ℕ) where
  header_magic : take 4 (encode_header t c m p) ≡ magic
  unfolding encode_header
  header_magic = refl

  header_version :
      drop 4 (encode_header t c m p)
      ≡ put_u16 framing_version ++ (put_u16 t ++ (put_u64 c ++ (put_u32 m ++ put_u64 p)))
  unfolding encode_header
  header_version = refl

  header_type :
      drop 6 (encode_header t c m p) ≡ put_u16 t ++ (put_u64 c ++ (put_u32 m ++ put_u64 p))
  unfolding encode_header put_u16
  header_type = refl

  header_correlation : drop 8 (encode_header t c m p) ≡ put_u64 c ++ (put_u32 m ++ put_u64 p)
  unfolding encode_header put_u16
  header_correlation = refl

  header_metadata : drop 16 (encode_header t c m p) ≡ put_u32 m ++ put_u64 p
  unfolding encode_header put_u16 put_u64
  header_metadata = refl

  header_payload : drop 20 (encode_header t c m p) ≡ put_u64 p ++ []
  unfolding encode_header put_u16 put_u32 put_u64
  header_payload = refl

  pub parse_header-encode_header :
      t < 2 ^ 16
      → c < 2 ^ 64
      → m ≤ max_metadata
      → p ≤ max_payload_bytes
      → parse_header (encode_header t c m p)
        ≡ ok (record { type = t; correlation = c; metadata_length = m; payload_length = p })
  unfolding parse_header
  parse_header-encode_header ht hc hm hp =
      let v =
        get_u16-put_u16 framing_version (put_u16 t ++ (put_u64 c ++ (put_u32 m ++ put_u64 p)))
          (omega arith) in
      let a = get_u16-put_u16 t (put_u64 c ++ (put_u32 m ++ put_u64 p)) ht in
      let b = get_u64-put_u64 c (put_u32 m ++ put_u64 p) hc in
      let d = get_u32-put_u32 m (put_u64 p) (omega arith) in
      let e = get_u64-put_u64 p [] (omega arith) in
      rw (header_magic, header_version, v, text_eq_refl magic)
        (rw (header_metadata, header_payload, header_type, header_correlation)
          (rw (a, b, d, e) (ground arith)))

read_exact-encode_header :
    (t c m p : ℕ) (rest : Bytes)
    → read_exact header_size (encode_header t c m p ++ rest) ≡ ok (encode_header t c m p, rest)
unfolding encode_header put_u16 put_u32 put_u64
read_exact-encode_header t c m p rest = read_exact-append (encode_header t c m p) rest

-- A frame that a `std::map` and the widths of the header's fields allow.
pub record IsFrame (f : Frame) : Type 0 where
  pub type_u16 : f.type < 2 ^ 16
  pub correlation_u64 : f.correlation_id < 2 ^ 64
  pub sorted : IsSorted f.metadata

abbrev pub header_of : Frame → Bytes → Bytes
header_of f metadata = encode_header f.type f.correlation_id (length metadata) (length f.payload)

pub encode_frame-parts :
    (f : Frame) (bytes : Bytes)
    → encode_frame f ≡ ok bytes
    → (metadata : Bytes) × (encode_metadata f.metadata ≡ ok metadata)
      × (length metadata ≤ max_metadata)
      × (length f.payload ≤ max_payload_bytes)
      × (bytes ≡ header_of f metadata ++ (metadata ++ f.payload))
unfolding encode_frame
encode_frame-parts f bytes e =
    let (metadata, em, later) = >>=-eq-ok (encode_metadata f.metadata) _ e in
    elim (Bool-cases
      (ltb max_metadata (length metadata) || ltb max_payload_bytes (length f.payload))) [
        | inl big ↦ absurd (cc (rw big at later))
        | inr fits ↦
            (metadata, em, ground arith, ground arith, ok-injective (sym (rw fits at later)))
      ]

-- Every frame that `encode_frame` accepts is read back from its bytes, with what follows them left.
pub read_frame-encode_frame :
    (f : Frame) (bytes rest : Bytes)
    → IsFrame f
    → encode_frame f ≡ ok bytes
    → read_frame (bytes ++ rest) ≡ ok (f, rest)
unfolding read_frame make_frame
read_frame-encode_frame f bytes rest w e =
    let (metadata, em, hm, hp, eb) = encode_frame-parts f bytes e in
    let parsed =
      parse_header-encode_header f.type f.correlation_id (length metadata) (length f.payload)
        w.type_u16 w.correlation_u64 hm hp in
    let decoded = decode_metadata-encode_metadata f.metadata metadata em w.sorted in
    let behind =
      read_exact-encode_header f.type f.correlation_id (length metadata) (length f.payload)
        (metadata ++ (f.payload ++ rest)) in
    rw (eb, append_assoc, append_assoc)
      (rw (behind, parsed)
        (rw (read_exact-append metadata (f.payload ++ rest), read_exact-append f.payload rest)
          (rw decoded)))

-- The same frame is taken from a buffer that starts with its bytes.
pub take_frame-encode_frame :
    (f : Frame) (bytes rest : Bytes)
    → IsFrame f
    → encode_frame f ≡ ok bytes
    → take_frame (bytes ++ rest) ≡ (ok (some f), rest)
take_frame-encode_frame f bytes rest w e =
    (take_frame-read_frame (bytes ++ rest) rest f).1 (read_frame-encode_frame f bytes rest w e)
