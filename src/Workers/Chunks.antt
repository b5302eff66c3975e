-- ===== src/Workers/Chunks.antt =====
-- A response that comes in pieces, over several rounds of the loop that waits for it.
use madre.Base.{
  ℕ, ◌+◌, ◌≡◌, ◌≤◌, ◌<◌, ◌∙◌, refl, sym, ap, List, [], ◌∷◌, ◌++◌, none, some, false, length,
  length-append, Bytes, arith, ok, All,
}
use mathlib.Core.List.{append_assoc}
use madre.Protocol.{Frame}
use madre.Protocol.Frames.{encode_frame}
use madre.Protocol.RoundTrip.{IsFrame, encode_frame-parts, length-encode_header, header_of}
use madre.Protocol.Prefix.{take_frame_prefix}
use madre.Protocol.Available.{
  read_available, read_turn, read_on, read_turn-IsCalm, read_available-encode_frame, brought,
  IsCalm, read_budget, max_buffered_frame,
}
use madre.Workers.{
  WorkerProcess, WaitStatus, Attempt, Progress, waits, ends, goes_on, and_then, alive, running,
}
use madre.Workers.Receiving.{ReceiveRound, receive, look, finish_response, may_wait}
use madre.Workers.Ending.{ends_receiving}
use madre.Workers.Prompt.{IsOver}

-- A round in which nothing but reading happens, and the reads stay within the budget of a call.
pub record IsQuiet (attempt : Attempt) (round : ReceiveRound) : Type 0 where
  pub unfinished : ends_receiving attempt round ≡ false
  pub lives : round.process ≡ running
  pub polled : round.poll ≡ none
  pub calm : All IsCalm round.reads
  pub within : length (brought round.reads) < read_budget

-- What the reads of rounds bring.
abbrev pub brought_by : List ReceiveRound → Bytes
brought_by [] = []
brought_by (round ∷ rounds) = brought round.reads ++ brought_by rounds

abbrev pub with_buffer : Bytes → WorkerProcess → WorkerProcess
with_buffer buffer worker = record worker { response_reader = buffer }

split_prefix {ℓ} :
    {A : Type ℓ} (p s a b : List A)
    → p ++ s ≡ a ++ b
    → length p ≤ length a
    → (q : List A) × (p ++ q ≡ a)
split_prefix [] s a b e h = (a, refl)
split_prefix (x ∷ p) s [] b e h = absurd (omega arith)
split_prefix (x ∷ p) s (y ∷ a) b e h =
    let (q, same) = split_prefix p s a b (cc e) (omega arith) in
    let first : x ≡ y = cc e in (q, ground arith)

over_and_then :
    (first : Progress WorkerProcess) (next : WorkerProcess → Progress WorkerProcess)
    → IsOver first
    → and_then first next ≡ first
over_and_then waits next h = refl
over_and_then (ends outcome worker) next h = refl
over_and_then (goes_on worker) next h = elim h [ ]

finish_response-IsOver :
    (attempt : Attempt) (killed : WaitStatus) (response : Frame) (worker : WorkerProcess)
    → IsOver (finish_response attempt killed response worker)
unfolding finish_response
finish_response-IsOver attempt killed response worker = ground arith

pub encode_frame-length :
    (f : Frame) (encoded : Bytes)
    → encode_frame f ≡ ok encoded
    → length encoded ≤ max_buffered_frame
encode_frame-length f encoded e =
    let (metadata, em, hm, hp, eb) = encode_frame-parts f encoded e in
    rw
      (
        eb,
        length-append (header_of f metadata) (metadata ++ f.payload),
        length-append metadata f.payload,
        length-encode_header f.type f.correlation_id (length metadata) (length f.payload),
      )
      (omega arith)

module _ (attempt : Attempt) (worker : WorkerProcess)
    (living : (p : ℕ) × (worker.pid ≡ some p)) where
  may_wait-IsQuiet :
      (round : ReceiveRound) (buffer : Bytes)
      → IsQuiet attempt round
      → may_wait attempt round (with_buffer buffer worker) ≡ goes_on (with_buffer buffer worker)
  unfolding may_wait look alive
  may_wait-IsQuiet round buffer quiet = ground (arith, quiet, living)

  look-IsQuiet :
      (f : Frame) (encoded buffer rest later : Bytes) (round : ReceiveRound)
      → IsFrame f
      → encode_frame f ≡ ok encoded
      → IsQuiet attempt round
      → (buffer ++ brought round.reads) ++ later ≡ encoded ++ rest
      → length (buffer ++ brought round.reads) < length encoded
      → length encoded ≤ max_buffered_frame
      → look attempt round round.reads (with_buffer buffer worker)
        ≡ goes_on (with_buffer (buffer ++ brought round.reads) worker)
  unfolding look read_available
  look-IsQuiet f encoded buffer rest later round w e quiet split short fits =
      let (q, whole) =
        split_prefix (buffer ++ brought round.reads) later encoded rest split (omega arith) in
      let turn : read_turn 0 buffer round.reads ≡ read_on (buffer ++ brought round.reads) [] =
        read_turn-IsCalm 0 buffer round.reads quiet.calm (omega (arith, quiet.within))
          (rw⁻¹ (length-append buffer (brought round.reads)) (omega arith)) in
      rw (turn, take_frame_prefix f encoded (buffer ++ brought round.reads) q w e whole short) refl

-- However the bytes of a frame are cut into reads and the reads into rounds of a living worker's
-- loop, the round that gets the last of them finishes with that frame and keeps what follows it:
-- also if in that round the Kernel is stopping, the Work is cancelled or the time is up. In the
-- rounds before, nothing is to be done but to read; each round reads within the budget of a call.
pub receive-encode_frame :
    (attempt : Attempt) (worker : WorkerProcess) (f : Frame) (encoded buffer rest : Bytes)
    (earlier rounds : List ReceiveRound) (last : ReceiveRound)
    → (p : ℕ) × (worker.pid ≡ some p)
    → IsFrame f
    → encode_frame f ≡ ok encoded
    → All (IsQuiet attempt) earlier
    → All IsCalm last.reads
    → length (brought last.reads) < read_budget
    → buffer ++ (brought_by earlier ++ brought last.reads) ≡ encoded ++ rest
    → length (buffer ++ brought_by earlier) < length encoded
    → length (encoded ++ rest) ≤ max_buffered_frame
    → receive attempt (earlier ++ (last ∷ rounds)) (with_buffer buffer worker)
      ≡ finish_response attempt last.killed f (with_buffer rest worker)
unfolding receive look
receive-encode_frame attempt worker f encoded buffer rest [] rounds last living w e quiet calm
      within whole short fits =
    let size : length buffer + length (brought last.reads) ≡ length (encoded ++ rest) =
      sym (length-append buffer (brought last.reads)) ∙ ap length whole in
    let found =
      read_available-encode_frame f encoded rest buffer last.reads w e whole calm within
        (rw size fits) in
    let over = finish_response-IsOver attempt last.killed f (with_buffer rest worker) in
    rw found (
      rw (over_and_then _ (may_wait attempt last) over)
        (over_and_then _ (receive attempt rounds) over))
receive-encode_frame attempt worker f encoded buffer rest (round ∷ earlier) rounds last living w e
      quiet calm within whole short fits =
    let bytes = brought round.reads in
    let now : (buffer ++ bytes) ++ (brought_by earlier ++ brought last.reads) ≡ encoded ++ rest =
      append_assoc buffer bytes (brought_by earlier ++ brought last.reads)
      ∙ ap (λ s. buffer ++ s) (sym (append_assoc bytes (brought_by earlier) (brought last.reads)))
      ∙ whole in
    let short' : length ((buffer ++ bytes) ++ brought_by earlier) < length encoded =
      rw (append_assoc buffer bytes (brought_by earlier)) short in
    let few : length (buffer ++ bytes) < length encoded =
      omega (arith, short', length-append (buffer ++ bytes) (brought_by earlier)) in
    let goes =
      look-IsQuiet attempt worker living f encoded buffer rest
        (brought_by earlier ++ brought last.reads) round w e quiet.0 now few
        (encode_frame-length f encoded e) in
    rw (goes, may_wait-IsQuiet attempt worker living round (buffer ++ bytes) quiet.0)
      (receive-encode_frame attempt worker f encoded (buffer ++ bytes) rest earlier rounds last
        living w e quiet.1 calm within now short' fits)
