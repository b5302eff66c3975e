-- ===== src/Protocol/Reading.antt =====
-- The two ways to read a frame, from a stream and from a buffer, agree.
use native.Mathlib.Nat.{zero-add}
use madre.Base.{
  ℕ, zero, suc, ◌+◌, ◌-◌, ◌≡◌, ◌≤◌, ◌↔◌, inl, inr, refl, List, [], ◌∷◌, Option, some, true, false,
  ltb, length, take, drop, Bytes, arith, if◌then◌else◌, Bool-cases, Result, ok, err, runtime_error,
  ◌>>=◌, Result-cases,
}
use madre.Protocol.{Frame}
use madre.Protocol.Frames.{
  Header, parse_header, make_frame, read_exact, read_frame, take_body, take_frame, total_size,
  header_size, peer_closed, some_frame,
}

pub read_exact_lem :
    (n : ℕ) (s : Bytes)
    → read_exact n s
      ≡ (if ltb (length s) n then err (runtime_error peer_closed) else ok (take n s, drop n s))
unfolding read_exact
read_exact_lem zero s = ground arith
read_exact_lem (suc n) [] = ground arith
read_exact_lem (suc n) (b ∷ s) = ground (arith, read_exact_lem n s)

drop_nil {ℓ} : {A : Type ℓ} (n : ℕ) → drop {A = A} n [] ≡ []
drop_nil zero = refl
drop_nil (suc n) = refl

drop-drop {ℓ} : {A : Type ℓ} (m n : ℕ) (s : List A) → drop n (drop m s) ≡ drop (m + n) s
drop-drop zero n s = rw zero-add
drop-drop (suc m) n [] = rw (drop_nil n, drop_nil (suc m + n))
drop-drop (suc m) n (x ∷ s) =
    let e : suc m + n ≡ suc (m + n) = omega arith in rw e (drop-drop m n s)

pub length-drop {ℓ} : {A : Type ℓ} (n : ℕ) (s : List A) → length (drop n s) ≡ length s - n
length-drop zero s = omega arith
length-drop (suc n) [] = omega arith
length-drop (suc n) (x ∷ s) = omega (arith, length-drop n s)

-- What `read_frame` does once it has the header.
abbrev read_payload : Header → Bytes → Bytes → Result (Frame × Bytes)
read_payload h metadata body = do
  (payload, rest) ← read_exact h.payload_length body
  frame ← make_frame h metadata payload
  ok (frame, rest)

abbrev read_body : Header → Bytes → Result (Frame × Bytes)
read_body h body = do
  (metadata, body') ← read_exact h.metadata_length body
  read_payload h metadata body'

abbrev with_rest : Result Frame → Bytes → Result (Frame × Bytes)
with_rest r rest = r >>= λ frame. ok (frame, rest)

-- The body is complete in the buffer.
read_body_whole :
    (h : Header) (s : Bytes)
    → ltb (length s) (total_size h) ≡ false
    → read_body h (drop header_size s)
      ≡ with_rest
          (make_frame h
            (take h.metadata_length (drop header_size s))
            (take h.payload_length (drop (header_size + h.metadata_length) s)))
          (drop (total_size h) s)
read_body_whole h s whole =
    let a : ltb (length (drop header_size s)) h.metadata_length ≡ false =
      rw (length-drop header_size s) (ground arith) in
    let b : ltb (length (drop (header_size + h.metadata_length) s)) h.payload_length ≡ false =
      rw (length-drop (header_size + h.metadata_length) s) (ground arith) in
    rw (read_exact_lem h.metadata_length (drop header_size s), a)
      (rw (drop-drop header_size h.metadata_length s) (
        rw (read_exact_lem h.payload_length (drop (header_size + h.metadata_length) s), b)
          (rw (drop-drop (header_size + h.metadata_length) h.payload_length s))))

read_body_short :
    (h : Header) (s : Bytes)
    → header_size ≤ length s
    → ltb (length s) (total_size h) ≡ true
    → read_body h (drop header_size s) ≡ err (runtime_error peer_closed)
read_body_short h s long short =
    elim (Bool-cases (ltb (length (drop header_size s)) h.metadata_length)) [
      | inl a ↦ rw (read_exact_lem h.metadata_length (drop header_size s), a)
      | inr a ↦
          let b : ltb (length (drop (header_size + h.metadata_length) s)) h.payload_length ≡ true =
            rw (length-drop (header_size + h.metadata_length) s) (ground arith) in
          rw (read_exact_lem h.metadata_length (drop header_size s), a)
            (rw (drop-drop header_size h.metadata_length s)
              (rw (read_exact_lem h.payload_length (drop (header_size + h.metadata_length) s), b)))
    ]

abbrev taken : Result Frame → Bytes → Result (Option Frame) × Bytes
taken r behind = (some_frame r, behind)

frame_and_rest :
    (r : Result Frame) (behind rest : Bytes) (f : Frame)
    → (taken r behind ≡ (ok (some f), rest)) ↔ (with_rest r behind ≡ ok (f, rest))
frame_and_rest (ok g) behind rest f = (λ e. ground arith, λ e. ground arith)
frame_and_rest (err x) behind rest f = (λ e. ground arith, λ e. ground arith)

take_body-read_body :
    (h : Header) (s rest : Bytes) (f : Frame)
    → header_size ≤ length s
    → (take_body h s ≡ (ok (some f), rest)) ↔ (read_body h (drop header_size s) ≡ ok (f, rest))
unfolding take_body
take_body-read_body h s rest f long = elim (Bool-cases (ltb (length s) (total_size h))) [
  | inl short ↦ rw (short, read_body_short h s long short) (λ e. ground arith, λ e. ground arith)
  | inr whole ↦
      rw (whole, read_body_whole h s whole) (frame_and_rest _ (drop (total_size h) s) rest f)
]

-- The incremental reader takes a frame from its buffer exactly when `read_frame` reads that frame
-- from the same bytes, and both leave the same bytes behind it.
pub take_frame-read_frame :
    (s rest : Bytes) (f : Frame)
    → (take_frame s ≡ (ok (some f), rest)) ↔ (read_frame s ≡ ok (f, rest))
unfolding take_frame read_frame
take_frame-read_frame s rest f = elim (Bool-cases (ltb (length s) header_size)) [
  | inl short ↦
      rw (short, read_exact_lem header_size s, short) (λ e. ground arith, λ e. ground arith)
  | inr long ↦ elim (Result-cases (parse_header (take header_size s))) [
    | inl (h, eh) ↦
        rw (long, read_exact_lem header_size s, long, eh)
          (take_body-read_body h s rest f (ground arith))
    | inr (x, ex) ↦
        rw (long, read_exact_lem header_size s, long, ex) (λ e. ground arith, λ e. ground arith)
  ]
]
