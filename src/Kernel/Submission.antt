-- ===== src/Kernel/Submission.antt =====
-- A submission: what the handler lets through is what the database accepts.
use mathlib.Core.Path.{subst}
use madre.Base.{
  ℕ, ◌^◌, ◌≡◌, ◌≤◌, ◌<◌, ◌∙◌, Map, inl, inr, refl, sym, [], ◌∷◌, ◌++◌, true, false, ◌||◌, ltb,
  length, Text, codes, Bytes, ok, Result-cases, Bool-cases, stoll, stoll-IsU64, lt_i64, le_i32,
  le_i64, >>=-eq-ok, ok-injective, arith, assign, any_of,
}
use madre.Protocol.{Frame, max_payload_bytes}
use madre.Protocol.MessageType
use madre.Protocol.Frames.{metadata_value}
use madre.Store.{WorkRecord, WorkStore, bind_text, has_id}
use madre.Store.Operations
use madre.Store.Operations.{inserted_row, insert_allowed}
use madre.Kernel.{Kernel, parse_i64, parse_positive_int, response}
use madre.Kernel.Handlers
use madre.Kernel.Handlers.{
  submitted_work, new_work, read_kind, read_retries, read_times, with_field,
}
use madre.Kernel.Files.{write_binary_atomic, require_c1_payload_size}

parse_i64-IsU64 : (value field : Text) (n : ℕ) → parse_i64 value field ≡ ok n → n < 2 ^ 64
unfolding parse_i64
parse_i64-IsU64 value field n e = elim (Result-cases (stoll value)) [
  | inr (x, f) ↦ absurd (cc (rw f at e))
  | inl ((m, []), f) ↦
      let same : m ≡ n = ok-injective (rw f at e) in
      let bound = stoll-IsU64 value m [] f in omega arith
  | inl ((m, c ∷ s), f) ↦ absurd (cc (rw f at e))
]

parse_positive_int-le_i32 :
    (request : Frame) (key : Text) (n : ℕ)
    → parse_positive_int request key ≡ ok n
    → le_i32 1 n ≡ true
unfolding parse_positive_int
parse_positive_int-le_i32 request key n e =
    let (value, _, e1) = >>=-eq-ok (metadata_value request key) _ e in
    let (parsed, h, e2) = >>=-eq-ok (parse_i64 value key) _ e1 in
    let bound = parse_i64-IsU64 value key parsed h in
    elim (Bool-cases (lt_i64 parsed 1 || lt_i64 2147483647 parsed)) [
      | inl out ↦ absurd (cc (rw out at e2))
      | inr good ↦
          let same : parsed ≡ n = ok-injective (rw good at e2) in
          let positive : le_i32 1 parsed ≡ true = ground arith in rw (sym same) positive
    ]

read_retries-checked :
    (request : Frame) (retries : ℕ × ℕ)
    → read_retries request ≡ ok retries
    → (le_i32 1 retries.0 ≡ true) × (le_i64 0 retries.1 ≡ true)
unfolding read_retries
read_retries-checked request retries e =
    let (attempts, h, e1) = >>=-eq-ok (parse_positive_int request (codes "max_attempts")) _ e in
    let (retry_text, _, e2) = >>=-eq-ok (metadata_value request (codes "retry_delay_ms")) _ e1 in
    let (retry, r, e3) = >>=-eq-ok (parse_i64 retry_text (codes "retry_delay_ms")) _ e2 in
    elim (Bool-cases (lt_i64 retry 0)) [
      | inl negative ↦ absurd (cc (rw negative at e3))
      | inr fine ↦
          let same = ok-injective (rw fine at e3) in
          let positive = parse_positive_int-le_i32 request (codes "max_attempts") attempts h in
          let from_zero : le_i64 0 retry ≡ true = ground arith in
          subst (λ (p : ℕ × ℕ). (le_i32 1 p.0 ≡ true) × (le_i64 0 p.1 ≡ true)) same
            (positive, from_zero)
    ]

-- A row that came from a request has a count of attempts and a delay that the CHECKs accept.
submitted_work-checked :
    (data_dir : Text) (now : ℕ) (id : Text) (request : Frame) (w : WorkRecord)
    → submitted_work data_dir now id request ≡ ok w
    → (w.id ≡ id) × (le_i32 1 w.max_attempts ≡ true) × (le_i64 0 w.retry_delay_ms ≡ true)
unfolding submitted_work new_work
submitted_work-checked data_dir now id request w e =
    let (kind, _, e1) = >>=-eq-ok (read_kind request) _ e in
    let (retries, h, e2) = >>=-eq-ok (read_retries request) _ e1 in
    let (times, _, e3) = >>=-eq-ok (read_times request) _ e2 in
    let (attempts, delay) = read_retries-checked request retries h in
    subst (λ k. (k.id ≡ id) × (le_i32 1 k.max_attempts ≡ true) × (le_i64 0 k.retry_delay_ms ≡ true))
      (ok-injective e3) (refl, attempts, delay)

submit_accepted :
    (errmsg : Text) (w : WorkRecord) (db : WorkStore)
    → le_i32 1 w.max_attempts ≡ true
    → le_i64 0 w.retry_delay_ms ≡ true
    → any_of (has_id (bind_text w.id)) db.work ≡ false
    → Operations.submit errmsg w db ≡ ok (record db { work = db.work ++ (inserted_row w ∷ []) })
unfolding Operations.submit insert_allowed inserted_row
submit_accepted errmsg w db attempts delay unused = rw (attempts, delay, unused) refl

write_bounded :
    (path : Text) (payload : Bytes) (files : Map Bytes)
    → length payload ≤ max_payload_bytes
    → write_binary_atomic path payload files ≡ ok (assign path payload files)
unfolding write_binary_atomic require_c1_payload_size
write_bounded path payload files h =
    let fits : ltb max_payload_bytes (length payload) ≡ false = ground arith in rw fits refl

-- What an accepted submission leaves.
abbrev pub with_work : Kernel → WorkRecord → Bytes → Kernel
with_work kernel w payload = record kernel {
  store = record kernel.store { work = kernel.store.work ++ (inserted_row w ∷ []) };
  files = assign w.input_path payload kernel.files;
}

abbrev pub submit_reply : Frame → Text → Frame
submit_reply request id =
    with_field (codes "work_id") id (response MessageType.submit_response request)

-- A submission of a bounded payload whose fields are in order, with an id that no row has, is never
-- turned down by the database: its row is the last of the table, its input file is written, and the
-- reply carries the id.
pub submit_lem :
    (errmsg : Text) (now : ℕ) (id : Text) (request : Frame) (kernel : Kernel) (w : WorkRecord)
    → submitted_work kernel.data_dir now id request ≡ ok w
    → length request.payload ≤ max_payload_bytes
    → any_of (has_id (bind_text id)) kernel.store.work ≡ false
    → Handlers.submit errmsg now id request kernel
      ≡ (with_work kernel w request.payload, ok (submit_reply request id))
unfolding Handlers.submit Handlers.store_work Handlers.insert_work
submit_lem errmsg now id request kernel w e small absent_id =
    let (same_id, attempts, delay) = submitted_work-checked kernel.data_dir now id request w e in
    let fits : ltb max_payload_bytes (length request.payload) ≡ false = ground arith in
    let unused : any_of (has_id (bind_text w.id)) kernel.store.work ≡ false =
      rw same_id absent_id in
    let first : Handlers.submit errmsg now id request kernel
        ≡ Handlers.store_work errmsg w request kernel =
      rw (fits, e, Handlers.submit) refl in
    let written = write_bounded w.input_path request.payload kernel.files small in
    let accepted = submit_accepted errmsg w kernel.store attempts delay unused in
    first
    ∙ rw (written, Handlers.store_work) (rw (accepted, Handlers.insert_work) (rw same_id refl))
