-- ===== src/Workers/Busy.antt =====
-- An attempt leaves alone what the pool keeps in its worker.
use madre.Base.{
  ℕ, ◌≡◌, ◌∙◌, inl, inr, refl, List, [], ◌∷◌, ◌++◌, Option, none, some, Bool, not, ◌==◌, ltb, take,
  drop, Bytes, arith, ok, err, Result, Option-cases, Bool-cases, by_test, what, codes,
}
use madre.Protocol.{Frame}
use madre.Protocol.MessageType
use madre.Protocol.Available.{ReadAnswer}
use madre.Kernel.Attempts.{WorkerOutcome}
use madre.Workers.{
  WorkerProcess, WaitStatus, WaitAnswer, Attempt, Progress, waits, ends, goes_on, and_then, alive,
  terminate, unless_alive, protocol_failure, ipc_failure, kill, kill_if_alive, time_is_up,
}
use madre.Workers.Sending.{
  SendRound, send, may_write, write_some, poll_writable, after_round, written, would_block,
  write_failed, WriteAnswer,
}
use madre.Workers.Receiving.{
  ReceiveRound, receive, look, looked, finish_response, may_wait, give_up, poll_ready,
}
use madre.Workers.Execution.{Outside, exchange, await, execute}
use madre.Workers.Walks.{alive-busy, terminate-busy}

abbrev pub Keeps : Bool → Progress WorkerProcess → Type 0
Keeps b waits = Unit
Keeps b (goes_on worker) = worker.busy ≡ b
Keeps b (ends outcome worker) = worker.busy ≡ b

abbrev KeepsPair : Bool → Progress (ℕ × WorkerProcess) → Type 0
KeepsPair b waits = Unit
KeepsPair b (goes_on (n, worker)) = worker.busy ≡ b
KeepsPair b (ends outcome worker) = worker.busy ≡ b

module _ (b : Bool) where
  and_then-Keeps :
      (first : Progress WorkerProcess) (next : WorkerProcess → Progress WorkerProcess)
      → Keeps b first
      → ((worker : WorkerProcess) → worker.busy ≡ b → Keeps b (next worker))
      → Keeps b (and_then first next)
  and_then-Keeps waits next h k = tt
  and_then-Keeps (goes_on worker) next h k = k worker h
  and_then-Keeps (ends outcome worker) next h k = h

  killed-busy :
      (status : WaitStatus) (worker : WorkerProcess)
      → worker.busy ≡ b
      → (terminate status worker).busy ≡ b
  killed-busy status worker h = terminate-busy status worker ∙ h

  unless_alive-Keeps :
      (answer : WaitAnswer) (worker : WorkerProcess)
      → worker.busy ≡ b
      → Keeps b (unless_alive (alive answer worker))
  unless_alive-Keeps answer worker h = ground (arith, alive-busy answer worker)

  kill_if_alive-Keeps :
      (status : WaitStatus) (outcome : WorkerOutcome) (answer : WaitAnswer) (worker : WorkerProcess)
      → worker.busy ≡ b
      → Keeps b (kill_if_alive status outcome (alive answer worker))
  kill_if_alive-Keeps status outcome answer worker h =
      ground (arith, alive-busy answer worker, terminate-busy status (alive answer worker).1)

  kill_if_alive-KeepsPair :
      (status : WaitStatus) (outcome : WorkerOutcome) (answer : WaitAnswer) (worker : WorkerProcess)
      → worker.busy ≡ b
      → KeepsPair b (kill_if_alive status outcome (alive answer worker))
  kill_if_alive-KeepsPair status outcome answer worker h =
      ground (arith, alive-busy answer worker, terminate-busy status (alive answer worker).1)

  finish_response-Keeps :
      (attempt : Attempt) (killed : WaitStatus) (response : Frame) (worker : WorkerProcess)
      → worker.busy ≡ b
      → Keeps b (finish_response attempt killed response worker)
  unfolding finish_response
  finish_response-Keeps attempt killed response worker h =
      by_test (Keeps b) (not (response.correlation_id == attempt.correlation_id)) _ _
        (λ other. killed-busy killed worker h)
        (λ same.
          by_test (Keeps b) (response.type == MessageType.worker_result) _ _ (λ done. h)
            (λ not_done.
              by_test (Keeps b) (response.type == MessageType.worker_failure) _ _ (λ bad. h)
                (λ unknown. killed-busy killed worker h)))

  looked-Keeps :
      (attempt : Attempt) (round : ReceiveRound) (found : Result (Option Frame))
      (worker : WorkerProcess)
      → worker.busy ≡ b
      → Keeps b (looked attempt round found worker)
  looked-Keeps attempt round (ok none) worker h = h
  looked-Keeps attempt round (ok (some response)) worker h =
      finish_response-Keeps attempt round.killed response worker h
  looked-Keeps attempt round (err e) worker h =
      kill_if_alive-Keeps round.killed (protocol_failure (what e)) round.process worker h

  look-Keeps :
      (attempt : Attempt) (round : ReceiveRound) (answers : List ReadAnswer)
      (worker : WorkerProcess)
      → worker.busy ≡ b
      → Keeps b (look attempt round answers worker)
  unfolding look
  look-Keeps attempt round answers worker h = looked-Keeps attempt round _ _ h

  poll_ready-Keeps :
      (round : ReceiveRound) (worker : WorkerProcess)
      → worker.busy ≡ b
      → Keeps b (poll_ready round worker)
  poll_ready-Keeps round worker h = elim (Option-cases round.poll) [
    | inl ready ↦ rw ready h
    | inr (error, failed) ↦ rw failed (killed-busy round.killed worker h)
  ]

  give_up-Keeps :
      (attempt : Attempt) (round : ReceiveRound) (outcome : WorkerOutcome) (worker : WorkerProcess)
      → worker.busy ≡ b
      → Keeps b (give_up attempt round outcome worker)
  give_up-Keeps attempt round outcome worker h =
      and_then-Keeps _ (kill round.killed outcome)
        (look-Keeps attempt round round.last_reads worker h) (killed-busy round.killed)

  may_wait-Keeps :
      (attempt : Attempt) (round : ReceiveRound) (worker : WorkerProcess)
      → worker.busy ≡ b
      → Keeps b (may_wait attempt round worker)
  unfolding may_wait
  may_wait-Keeps attempt round worker h =
      by_test (Keeps b) round.stopping _ _ (λ stop. killed-busy round.killed worker h)
        (λ run.
          by_test (Keeps b) round.cancelled _ _ (λ c. give_up-Keeps attempt round _ worker h)
            (λ wanted.
              by_test (Keeps b) (time_is_up attempt.stop_at_ms round.now) _ _
                (λ late. give_up-Keeps attempt round _ worker h)
                (λ early.
                  and_then-Keeps _ (poll_ready round) (unless_alive-Keeps round.process worker h)
                    (poll_ready-Keeps round))))

  receive-Keeps :
      (attempt : Attempt) (rounds : List ReceiveRound) (worker : WorkerProcess)
      → worker.busy ≡ b
      → Keeps b (receive attempt rounds worker)
  unfolding receive
  receive-Keeps attempt [] worker h = tt
  receive-Keeps attempt (round ∷ rounds) worker h =
      and_then-Keeps _ (receive attempt rounds)
        (and_then-Keeps _ (may_wait attempt round) (look-Keeps attempt round round.reads worker h)
          (may_wait-Keeps attempt round))
        (receive-Keeps attempt rounds)

  may_write-Keeps :
      (attempt : Attempt) (round : SendRound) (worker : WorkerProcess)
      → worker.busy ≡ b
      → Keeps b (may_write attempt round worker)
  unfolding may_write
  may_write-Keeps attempt round worker h =
      by_test (Keeps b) round.stopping _ _ (λ stop. killed-busy round.killed worker h)
        (λ run.
          by_test (Keeps b) round.cancelled _ _ (λ c. killed-busy round.killed worker h)
            (λ wanted.
              by_test (Keeps b) (time_is_up attempt.stop_at_ms round.now) _ _
                (λ late. killed-busy round.killed worker h)
                (λ early. unless_alive-Keeps round.before worker h)))

  poll_writable-KeepsPair :
      (round : SendRound) (worker : WorkerProcess)
      → worker.busy ≡ b
      → KeepsPair b (poll_writable round worker)
  poll_writable-KeepsPair round worker h = elim (Option-cases round.poll) [
    | inl ready ↦ rw ready h
    | inr (error, failed) ↦ rw failed (terminate-busy round.killed worker ∙ h)
  ]

  write_some-KeepsPair :
      (round : SendRound) (answer : WriteAnswer) (worker : WorkerProcess)
      → round.write ≡ answer
      → worker.busy ≡ b
      → KeepsPair b (write_some round worker)
  unfolding write_some
  write_some-KeepsPair round (written n) worker e h = rw e (
      by_test (KeepsPair b) (ltb 0 n) _ _ (λ some_bytes. h)
        (λ nothing. poll_writable-KeepsPair round worker h))
  write_some-KeepsPair round would_block worker e h = rw e (poll_writable-KeepsPair round worker h)
  write_some-KeepsPair round (write_failed error) worker e h = rw e (
      kill_if_alive-KeepsPair round.killed (ipc_failure (codes "request write failed: " ++ error))
        round.behind worker h)

  after_round-Keeps :
      (round : SendRound) (taken : Bytes)
      (next : ℕ → WorkerProcess → Bytes × Progress WorkerProcess) (first : Progress WorkerProcess)
      → Keeps b first
      → ((n : ℕ) (worker : WorkerProcess) → worker.busy ≡ b → Keeps b (next n worker).1)
      → Keeps b (after_round taken next (and_then first (write_some round))).1
  after_round-Keeps round taken next waits h k = tt
  after_round-Keeps round taken next (ends outcome worker) h k = h
  after_round-Keeps round taken next (goes_on worker) h k =
      wrote (write_some round worker) (write_some-KeepsPair round round.write worker refl h)
    where
      wrote :
          (turn : Progress (ℕ × WorkerProcess))
          → KeepsPair b turn
          → Keeps b (after_round taken next turn).1
      wrote waits h' = tt
      wrote (ends outcome left) h' = h'
      wrote (goes_on (n, left)) h' = k n left h'

  send-Keeps :
      (attempt : Attempt) (taken left : Bytes) (rounds : List SendRound) (worker : WorkerProcess)
      → worker.busy ≡ b
      → Keeps b (send attempt taken left rounds worker).1
  unfolding send
  send-Keeps attempt taken [] rounds worker h = h
  send-Keeps attempt taken (x ∷ left) [] worker h = tt
  send-Keeps attempt taken (x ∷ left) (round ∷ rounds) worker h =
      after_round-Keeps round taken _ (may_write attempt round worker)
        (may_write-Keeps attempt round worker h)
        (λ n. send-Keeps attempt (taken ++ take n (x ∷ left)) (drop n (x ∷ left)) rounds)

  await-Keeps :
      (attempt : Attempt) (rounds : List ReceiveRound) (sent : Bytes × Progress WorkerProcess)
      → Keeps b sent.1
      → Keeps b (await attempt rounds sent).1
  await-Keeps attempt rounds (taken, waits) h = tt
  await-Keeps attempt rounds (taken, ends outcome worker) h = h
  await-Keeps attempt rounds (taken, goes_on worker) h = receive-Keeps attempt rounds worker h

  exchange-Keeps :
      (attempt : Attempt) (outside : Outside) (request : Result Bytes) (worker : WorkerProcess)
      → worker.busy ≡ b
      → Keeps b (exchange attempt outside request worker).1
  unfolding exchange
  exchange-Keeps attempt outside (err e) worker h = terminate-busy outside.killed worker ∙ h
  exchange-Keeps attempt outside (ok request) worker h =
      await-Keeps attempt outside.receives _ (send-Keeps attempt [] request outside.sends worker h)

pub execute-Keeps :
    (attempt : Attempt) (outside : Outside) (worker : WorkerProcess)
    → Keeps worker.busy (execute attempt outside worker).1
unfolding execute
execute-Keeps attempt outside worker =
    let same = alive-busy outside.before worker in
    elim (Bool-cases (alive outside.before worker).0) [
      | inr dead ↦ rw dead same
      | inl living ↦ rw living (exchange-Keeps worker.busy attempt outside _ _ same)
    ]
