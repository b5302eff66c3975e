-- ===== src/Protocol/Prefix.antt =====
-- A buffer that holds a part of a frame only.
use madre.Base.{
  ℕ, zero, suc, ◌+◌, ◌≡◌, ◌≤◌, ◌<◌, inl, inr, refl, sym, ap, ◌∙◌, List, [], ◌∷◌, ◌++◌, none, ltb,
  length, length-append, take, Bytes, arith, Bool-cases, ok, lt→ltb,
}
use madre.Protocol.{Frame}
use madre.Protocol.Integers.{put_u16, put_u32, put_u64}
use madre.Protocol.Frames.{take_frame, take_body, header_size, encode_frame, encode_header}
use madre.Protocol.RoundTrip.{
  IsFrame, encode_frame-parts, parse_header-encode_header, length-encode_header, header_of,
}

take-append {ℓ} : {A : Type ℓ} (n : ℕ) (p q : List A) → n ≤ length p → take n (p ++ q) ≡ take n p
take-append zero p q h = refl
take-append (suc n) [] q h = absurd (omega arith)
take-append (suc n) (x ∷ p) q h = rw (take-append n p q (omega arith)) refl

take_header :
    (t c m l : ℕ) (rest : Bytes)
    → take header_size (encode_header t c m l ++ rest) ≡ encode_header t c m l
unfolding encode_header put_u16 put_u32 put_u64
take_header t c m l rest = refl

-- Of a frame that has not arrived in full nothing is taken, and what has arrived stays.
pub take_frame_prefix :
    (f : Frame) (encoded p q : Bytes)
    → IsFrame f
    → encode_frame f ≡ ok encoded
    → p ++ q ≡ encoded
    → length p < length encoded
    → take_frame p ≡ (ok none, p)
unfolding take_frame take_body
take_frame_prefix f encoded p q w e split short =
    let (metadata, em, hm, hp, eb) = encode_frame-parts f encoded e in
    let head = header_of f metadata in
    elim (Bool-cases (ltb (length p) header_size)) [
      | inl few ↦ rw few refl
      | inr long ↦
          let start : take header_size p ≡ head =
            sym (take-append header_size p q (ground arith))
            ∙ ap (take header_size) (split ∙ eb)
            ∙ take_header f.type f.correlation_id (length metadata) (length f.payload)
                (metadata ++ f.payload) in
          let parsed =
            parse_header-encode_header f.type f.correlation_id (length metadata) (length f.payload)
              w.type_u16 w.correlation_u64 hm hp in
          let size : length encoded ≡ header_size + length metadata + length f.payload =
            rw
              (
                eb,
                length-append head (metadata ++ f.payload),
                length-append metadata f.payload,
                length-encode_header f.type f.correlation_id (length metadata) (length f.payload),
              )
              (omega arith) in
          rw (long, start, parsed)
            (rw (lt→ltb (length p) (header_size + length metadata + length f.payload) (omega arith))
              refl)
    ]
