-- ===== src/Llamacpp/Ending.antt =====
-- The loop of the worker's `main` ends with its input.
use madre.Base.{
  true, false, Error, what, codes, ◌≢◌, ℕ, zero, suc, ◌+◌, ◌≡◌, ◌<◌, [], ◌∷◌, length, Bytes, arith,
  ok, err, >>=-eq-ok, ok-injective, ap,
}
use madre.Protocol.{Frame}
use madre.Protocol.Frames.{read_exact, read_frame, parse_header, make_frame, header_size}
use madre.Llamacpp.{Options}
use madre.Llamacpp.Generation.{Llama, Live}
use madre.Llamacpp.Serving.{Process, Exit, Served, exits, execute}

read_exact-length :
    (n : ℕ) (s out rest : Bytes) → read_exact n s ≡ ok (out, rest) → length rest + n ≡ length s
unfolding read_exact
read_exact-length zero s out rest e =
    let same : s ≡ rest = ap (λ r. r.1) (ok-injective e) in rw⁻¹ same (omega arith)
read_exact-length (suc n) [] out rest e = absurd (cc e)
read_exact-length (suc n) (b ∷ s) out rest e =
    let ((out', rest'), read, last) = >>=-eq-ok (read_exact n s) _ e in
    let same : rest' ≡ rest = ap (λ r. r.1) (ok-injective last) in
    rw⁻¹ same (omega (arith, read_exact-length n s out' rest' read))

-- A frame takes its header at least.
pub read_frame-length :
    (s rest : Bytes) (frame : Frame) → read_frame s ≡ ok (frame, rest) → length rest < length s
unfolding read_frame
read_frame-length s rest frame e =
    let ((header, body), read, e1) = >>=-eq-ok (read_exact header_size s) _ e in
    let (h, parsed, e2) = >>=-eq-ok (parse_header header) _ e1 in
    let ((metadata, body'), read', e3) = >>=-eq-ok (read_exact h.metadata_length body) _ e2 in
    let ((payload, rest'), read'', e4) = >>=-eq-ok (read_exact h.payload_length body') _ e3 in
    let (made, is_made, last) = >>=-eq-ok (make_frame h metadata payload) _ e4 in
    let same : rest' ≡ rest = ap (λ r. r.1) (ok-injective last) in
    rw⁻¹ same (
      omega (
        arith,
        read_exact-length header_size s header body read,
        read_exact-length h.metadata_length body metadata body' read',
        read_exact-length h.payload_length body' payload rest' read'',
      ))

module _ (llama : Llama) (options : Options) where
  -- The requests that are read and answered one after the other, from one state of the process to
  -- another.
  pub data Answers : Process → Process → Type 0 where
    done : {process : Process} → Answers process process
    answered :
        {process last : Process} (request : Frame) (rest output : Bytes) (live : Live)
        → read_frame process.input ≡ ok (request, rest)
        → execute llama options request process ≡ (ok output, live)
        → Answers (record { input = rest; output = output; live = live }) last
        → Answers process last

  -- Why the process leaves `main`, and with what exit code: no request can be read, because the input
  -- has ended or for another reason; or a reply cannot be written as a frame.
  pub data Leaves (last : Process) : Exit → Process → Type 0 where
    closed :
        (e : Error)
        → read_frame last.input ≡ err e
        → what e ≡ codes "peer closed framed IPC"
        → Leaves last (record { code = 0; freed = true }) last
    refused :
        (e : Error)
        → read_frame last.input ≡ err e
        → what e ≢ codes "peer closed framed IPC"
        → Leaves last (record { code = 1; freed = true }) last
    unanswered :
        (request : Frame) (rest : Bytes) (e : Error) (live : Live)
        → read_frame last.input ≡ ok (request, rest)
        → execute llama options request last ≡ (err e, live)
        → Leaves last
            (record { code = 1; freed = false })
            (record { input = rest; output = last.output; live = live })

  pub record IsServed (process : Process) (served : Served) : Type 0 where
    pub last : Process
    pub answers : Answers process last
    pub exit : Exit
    pub left : Process
    pub has_exited : served ≡ exits exit left
    pub leaves : Leaves last exit left
