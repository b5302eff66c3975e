-- ===== src/Protocol/Available.antt =====
-- `IncrementalFrameReader::read_available`: a turn of reads from a pipe that does not block, then a
-- frame from the buffer. What the pipe answers to the reads of a turn is a list; at its end the
-- pipe has nothing more to say now.
use mathlib.Core.List.{append_assoc, append-nil}
use madre.Base.{
  ℕ, ◌+◌, ◌-◌, ◌*◌, ◌≡◌, ◌≤◌, ◌<◌, ◌∙◌, inl, inr, refl, List, [], ◌∷◌, ◌++◌, Option, none, some,
  Bool, true, false, ltb, not, length, length-append, Bytes, Text, codes, is_empty, arith,
  if◌then◌else◌, Bool-cases, Result, ok, err, Error, runtime_error, framing_error, min, sym, ap,
  take, lt→ltb, All, Result-cases,
}
use madre.Protocol.{Frame, max_payload_bytes}
use madre.Protocol.Frames.{
  take_frame, take_body, total_size, parse_header, Header, encode_frame, header_size, max_metadata,
  peer_closed,
}
use madre.Protocol.Reading.{length-drop}
use madre.Protocol.RoundTrip.{IsFrame, take_frame-encode_frame}

-- `::read`: the bytes (none at the end of the file) or `errno`. It is asked for at most 8192 bytes
-- and no more than the budget leaves, and answers with no more than it was asked for.
pub data ReadAnswer : Type 0 where
  bytes : Bytes → ReadAnswer
  interrupted blocked : ReadAnswer
  failed : Text → ReadAnswer

abbrev pub read_budget : ℕ
read_budget = 64 * 1024

abbrev pub max_buffered_frame : ℕ
max_buffered_frame = header_size + max_metadata + max_payload_bytes

-- A turn of reads ends with the buffer and the answers that were not asked for.
pub record Turn : Type 0 where
  pub thrown : Option Error
  pub buffer : Bytes
  pub unread : List ReadAnswer

abbrev pub read_on : Bytes → List ReadAnswer → Turn
read_on buffer unread = record { thrown = none; buffer = buffer; unread = unread }

abbrev pub throws : Error → Bytes → List ReadAnswer → Turn
throws e buffer unread = record { thrown = some e; buffer = buffer; unread = unread }

-- `n == 0`
abbrev pub end_of_file : Bytes → Error
end_of_file [] = runtime_error peer_closed
end_of_file (_ ∷ _) = framing_error (codes "peer closed during partial framed IPC")

abbrev pub overflows : Bytes → Bytes → Bool
overflows buffer received =
    ltb (max_buffered_frame - min (length buffer) max_buffered_frame) (length received)

-- The loop, `read_this_turn` bytes into the budget.
unfoldable pub read_turn : ℕ → Bytes → List ReadAnswer → Turn
read_turn read_this_turn buffer [] = read_on buffer []
read_turn read_this_turn buffer (bytes received ∷ answers) =
    let next = read_turn (read_this_turn + length received) (buffer ++ received) answers in
    if not (ltb read_this_turn read_budget)
    then read_on buffer (bytes received ∷ answers)
    else if is_empty received
    then throws (end_of_file buffer) buffer answers
    else if overflows buffer received
    then throws (framing_error (codes "worker frame exceeds bounded incremental buffer")) buffer
        answers
    else next
read_turn read_this_turn buffer (interrupted ∷ answers) =
    let next = read_turn read_this_turn buffer answers in
    if ltb read_this_turn read_budget then next else read_on buffer (interrupted ∷ answers)
read_turn read_this_turn buffer (blocked ∷ answers) =
    if ltb read_this_turn read_budget
    then read_on buffer answers
    else read_on buffer (blocked ∷ answers)
read_turn read_this_turn buffer (failed error ∷ answers) =
    if ltb read_this_turn read_budget
    then throws (runtime_error (codes "IPC read failed: " ++ error)) buffer answers
    else read_on buffer (failed error ∷ answers)

abbrev pub after_turn : Option Error → Bytes → Result (Option Frame) × Bytes
after_turn (some e) buffer = (err e, buffer)
after_turn none buffer = take_frame buffer

-- What one call returns or throws, with the buffer and the unread answers after it.
unfoldable pub read_available :
    Bytes → List ReadAnswer → (Result (Option Frame) × Bytes) × List ReadAnswer
read_available buffer answers =
    let turn = read_turn 0 buffer answers in (after_turn turn.thrown turn.buffer, turn.unread)

-- The bytes that answers bring.
abbrev pub brought : List ReadAnswer → Bytes
brought [] = []
brought (bytes received ∷ answers) = received ++ brought answers
brought (interrupted ∷ answers) = brought answers
brought (blocked ∷ answers) = brought answers
brought (failed error ∷ answers) = brought answers

abbrev pub IsAccounted : Bytes → List ReadAnswer → Turn → Type 0
IsAccounted buffer answers turn = (turn.buffer ++ brought turn.unread ≡ buffer ++ brought answers)

read_turn-brought :
    (n : ℕ) (buffer : Bytes) (answers : List ReadAnswer)
    → (read_turn n buffer answers).thrown ≡ none
    → IsAccounted buffer answers (read_turn n buffer answers)
unfolding read_turn
read_turn-brought n buffer [] h = refl
read_turn-brought n buffer (interrupted ∷ answers) h =
    ground (arith, read_turn-brought n buffer answers)
read_turn-brought n buffer (blocked ∷ answers) h = ground arith
read_turn-brought n buffer (failed error ∷ answers) h = ground arith
read_turn-brought n buffer (bytes received ∷ answers) h = elim (Bool-cases (ltb n read_budget)) [
  | inr stop ↦ rw stop refl
  | inl go ↦ elim (Bool-cases (is_empty received)) [
    | inl closed ↦ ground arith
    | inr some_bytes ↦ elim (Bool-cases (overflows buffer received)) [
      | inl big ↦ ground arith
      | inr fits ↦
          let next =
            read_turn-brought (n + length received) (buffer ++ received) answers (ground arith) in
          rw (go, some_bytes, fits) (next ∙ append_assoc buffer received (brought answers))
    ]
  ]
]

read_turn-length :
    (n : ℕ) (buffer : Bytes) (answers : List ReadAnswer)
    → length buffer ≤ max_buffered_frame
    → length (read_turn n buffer answers).buffer ≤ max_buffered_frame
unfolding read_turn
read_turn-length n buffer [] h = h
read_turn-length n buffer (interrupted ∷ answers) h =
    ground (arith, read_turn-length n buffer answers)
read_turn-length n buffer (blocked ∷ answers) h = ground arith
read_turn-length n buffer (failed error ∷ answers) h = ground arith
read_turn-length n buffer (bytes received ∷ answers) h =
    elim (Bool-cases (overflows buffer received)) [
      | inl big ↦ ground arith
      | inr fits ↦
          let next =
            read_turn-length (n + length received) (buffer ++ received) answers
              (rw (length-append buffer received) (ground arith)) in
          ground arith
    ]

take_body-length : (h : Header) (s : Bytes) → length (take_body h s).1 ≤ length s
unfolding take_body
take_body-length h s = elim (Bool-cases (ltb (length s) (total_size h))) [
  | inl short ↦ rw short (omega arith)
  | inr whole ↦ rw (whole, length-drop (total_size h) s) (omega arith)
]

take_frame-length : (s : Bytes) → length (take_frame s).1 ≤ length s
unfolding take_frame
take_frame-length s = elim (Bool-cases (ltb (length s) header_size)) [
  | inl short ↦ rw short (omega arith)
  | inr long ↦ elim (Result-cases (parse_header (take header_size s))) [
    | inl (h, eh) ↦ rw (long, eh) (take_body-length h s)
    | inr (e, ee) ↦ rw (long, ee) (omega arith)
  ]
]

after_turn-length :
    (thrown : Option Error) (buffer : Bytes) → length (after_turn thrown buffer).1 ≤ length buffer
after_turn-length none buffer = take_frame-length buffer
after_turn-length (some e) buffer = omega arith

-- The buffer never grows beyond the largest frame, whatever the pipe answers.
pub read_available-length :
    (buffer : Bytes) (answers : List ReadAnswer)
    → length buffer ≤ max_buffered_frame
    → length (read_available buffer answers).0.1 ≤ max_buffered_frame
unfolding read_available
read_available-length buffer answers h =
    let turn = read_turn 0 buffer answers in
    omega (arith, read_turn-length 0 buffer answers h, after_turn-length turn.thrown turn.buffer)

-- Answers that neither fail nor end the pipe, nor say that it has nothing now.
abbrev pub IsCalm : ReadAnswer → Type 0
IsCalm (bytes received) = is_empty received ≡ false
IsCalm interrupted = Unit
IsCalm blocked = 1 ≤ 0
IsCalm (failed error) = 1 ≤ 0

pub read_turn-IsCalm :
    (n : ℕ) (buffer : Bytes) (answers : List ReadAnswer)
    → All IsCalm answers
    → n + length (brought answers) < read_budget
    → length buffer + length (brought answers) ≤ max_buffered_frame
    → read_turn n buffer answers ≡ read_on (buffer ++ brought answers) []
unfolding read_turn
read_turn-IsCalm n buffer [] c hn hb = rw (append-nil buffer) refl
read_turn-IsCalm n buffer (interrupted ∷ answers) c hn hb =
    rw (lt→ltb n read_budget (omega arith)) (read_turn-IsCalm n buffer answers c.1 hn hb)
read_turn-IsCalm n buffer (bytes received ∷ answers) c hn hb =
    let size = length-append received (brought answers) in
    let go : ltb n read_budget ≡ true = lt→ltb n read_budget (omega arith) in
    let fits : overflows buffer received ≡ false = ground arith in
    rw (go, c.0, fits)
      (rw (sym (append_assoc buffer received (brought answers))) (
        read_turn-IsCalm (n + length received) (buffer ++ received) answers c.1 (omega arith)
          (rw (length-append buffer received) (omega arith))))
read_turn-IsCalm n buffer (blocked ∷ answers) c hn hb = absurd (omega arith)
read_turn-IsCalm n buffer (failed error ∷ answers) c hn hb = absurd (omega arith)

-- However a frame's bytes are cut into reads, and whatever part of them was buffered by earlier
-- calls, the call that gets the last of them returns the frame and keeps what follows it. The
-- bytes fit the buffer and the budget of a call.
pub read_available-encode_frame :
    (f : Frame) (encoded rest buffer : Bytes) (answers : List ReadAnswer)
    → IsFrame f
    → encode_frame f ≡ ok encoded
    → buffer ++ brought answers ≡ encoded ++ rest
    → All IsCalm answers
    → length (brought answers) < read_budget
    → length buffer + length (brought answers) ≤ max_buffered_frame
    → read_available buffer answers ≡ ((ok (some f), rest), [])
unfolding read_available
read_available-encode_frame f encoded rest buffer answers w e split c hn hb =
    rw (read_turn-IsCalm 0 buffer answers c (omega arith) hb, split)
      (ap (λ taken. (taken, [])) (take_frame-encode_frame f encoded rest w e))
