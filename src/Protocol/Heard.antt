-- ===== src/Protocol/Heard.antt =====
-- What `read_available` has read where it returns a frame, and where it returns none.
use mathlib.Core.List.{append_assoc, append-nil}
use mathlib.Core.Path.{subst}
use madre.Base.{
  ℕ, ◌+◌, ◌≡◌, ◌≢◌, Error, ◌∙◌, inl, inr, refl, sym, ap, List, [], ◌∷◌, ◌++◌, Option, none, some,
  ltb, length, Bytes, is_empty, Bool-cases, Result, ok, err, Result-cases, take,
}
use madre.Protocol.{Frame}
use madre.Protocol.Frames.{
  take_frame, take_body, total_size, parse_header, Header, header_size, read_frame, some_frame,
}
use madre.Protocol.Reading.{take_frame-read_frame}
use madre.Protocol.Available.{
  ReadAnswer, bytes, interrupted, blocked, failed, read_turn, read_available, read_budget,
  overflows, brought, after_turn,
}

-- A buffer behind one look after the other: each puts a first part of what its reads bring, or
-- nothing, behind the bytes of the buffer before.
pub data Heard : Bytes → List (List ReadAnswer) → Bytes → Type 0 where
  so_far : {buffer : Bytes} {looks : List (List ReadAnswer)} → Heard buffer looks buffer
  more :
      {buffer heard : Bytes} {answers : List ReadAnswer} {looks : List (List ReadAnswer)}
      (received unread : Bytes)
      → brought answers ≡ received ++ unread
      → Heard (buffer ++ received) looks heard
      → Heard buffer (answers ∷ looks) heard

-- The part of what the answers bring that a turn puts into the buffer.
pub record Extends (buffer : Bytes) (answers : List ReadAnswer) (after : Bytes) : Type 0 where
  pub received : Bytes
  pub unread : Bytes
  pub parts : brought answers ≡ received ++ unread
  pub grows : after ≡ buffer ++ received

stays : (buffer : Bytes) (answers : List ReadAnswer) → Extends buffer answers buffer
stays buffer answers = record {
  received = [];
  unread = brought answers;
  parts = refl;
  grows = sym (append-nil buffer);
}

read_turn-Extends :
    (n : ℕ) (buffer : Bytes) (answers : List ReadAnswer)
    → Extends buffer answers (read_turn n buffer answers).buffer
unfolding read_turn
read_turn-Extends n buffer [] = stays buffer []
read_turn-Extends n buffer (interrupted ∷ answers) = elim (Bool-cases (ltb n read_budget)) [
  | inr stop ↦ rw stop (stays buffer _)
  | inl go ↦
      let next = read_turn-Extends n buffer answers in
      rw go (record {
        received = next.received;
        unread = next.unread;
        parts = next.parts;
        grows = next.grows;
      })
]
read_turn-Extends n buffer (blocked ∷ answers) = elim (Bool-cases (ltb n read_budget)) [
  | inr stop ↦ rw stop (stays buffer _)
  | inl go ↦ rw go (stays buffer _)
]
read_turn-Extends n buffer (failed error ∷ answers) = elim (Bool-cases (ltb n read_budget)) [
  | inr stop ↦ rw stop (stays buffer _)
  | inl go ↦ rw go (stays buffer _)
]
read_turn-Extends n buffer (bytes received ∷ answers) = elim (Bool-cases (ltb n read_budget)) [
  | inr stop ↦ rw stop (stays buffer _)
  | inl go ↦ elim (Bool-cases (is_empty received)) [
    | inl closed ↦ rw (go, closed) (stays buffer _)
    | inr some_bytes ↦ elim (Bool-cases (overflows buffer received)) [
      | inl big ↦ rw (go, some_bytes, big) (stays buffer _)
      | inr fits ↦
          let next = read_turn-Extends (n + length received) (buffer ++ received) answers in
          rw (go, some_bytes, fits)
            (record {
              received = received ++ next.received;
              unread = next.unread;
              parts =
                  ap (λ rest. received ++ rest) next.parts
                  ∙ sym (append_assoc received next.received next.unread);
              grows = next.grows ∙ append_assoc buffer received next.received;
            })
    ]
  ]
]

some_frame-none : (made : Result Frame) → some_frame made ≢ ok none
some_frame-none (ok f) e = cc
some_frame-none (err x) e = cc

take_body-none : (h : Header) (s : Bytes) → (take_body h s).0 ≡ ok none → (take_body h s).1 ≡ s
unfolding take_body
take_body-none h s e = elim (Bool-cases (ltb (length s) (total_size h))) [
  | inl short ↦ rw short refl
  | inr whole ↦ absurd (some_frame-none _ (rw whole at e))
]

take_frame-none : (s : Bytes) → (take_frame s).0 ≡ ok none → (take_frame s).1 ≡ s
unfolding take_frame
take_frame-none s e = elim (Bool-cases (ltb (length s) header_size)) [
  | inl short ↦ rw short refl
  | inr long ↦ elim (Result-cases (parse_header (take header_size s))) [
    | inr (x, thrown) ↦ rw (long, thrown) refl
    | inl (h, parsed) ↦ rw (long, parsed) (take_body-none h s (rw (long, parsed) at e))
  ]
]

-- What one call of `read_available` leaves, where it throws nothing.
abbrev pub IsLooked : Bytes → List ReadAnswer → Option Frame → Bytes → Type 0
IsLooked buffer answers none after = Extends buffer answers after
IsLooked buffer answers (some f) after =
    (whole : Bytes) × Extends buffer answers whole × (read_frame whole ≡ ok (f, after))

after_turn-IsLooked :
    (buffer whole : Bytes) (answers : List ReadAnswer) (thrown : Option Error)
    (found : Option Frame)
    → Extends buffer answers whole
    → (after_turn thrown whole).0 ≡ ok found
    → IsLooked buffer answers found (after_turn thrown whole).1
after_turn-IsLooked buffer whole answers (some x) found h e = absurd (cc e)
after_turn-IsLooked buffer whole answers none none h e = rw (take_frame-none whole e) h
after_turn-IsLooked buffer whole answers none (some f) h e = (
  whole,
  h,
  (take_frame-read_frame whole (take_frame whole).1 f).0 (ap (λ r. (r, (take_frame whole).1)) e),
)

pub read_available-IsLooked :
    (buffer : Bytes) (answers : List ReadAnswer) (found : Option Frame)
    → (read_available buffer answers).0.0 ≡ ok found
    → IsLooked buffer answers found (read_available buffer answers).0.1
unfolding read_available
read_available-IsLooked buffer answers found e =
    let turn = read_turn 0 buffer answers in
    after_turn-IsLooked buffer turn.buffer answers turn.thrown found
      (read_turn-Extends 0 buffer answers) e

-- A look that was not taken, and one that was.
pub Heard-skip :
    (buffer heard : Bytes) (answers : List ReadAnswer) (looks : List (List ReadAnswer))
    → Heard buffer looks heard
    → Heard buffer (answers ∷ looks) heard
Heard-skip buffer heard answers looks h =
    Heard.more [] (brought answers) refl
      (subst (λ start. Heard start looks heard) (sym (append-nil buffer)) h)

pub Heard-look :
    (buffer after heard : Bytes) (answers : List ReadAnswer) (looks : List (List ReadAnswer))
    → Extends buffer answers after
    → Heard after looks heard
    → Heard buffer (answers ∷ looks) heard
Heard-look buffer after heard answers looks e h =
    Heard.more e.received e.unread e.parts (subst (λ start. Heard start looks heard) e.grows h)
