-- ===== src/Workers/Outcomes.antt =====
-- How an attempt ends, and in what state it leaves the worker.
use madre.Base.{
  ℕ, zero, suc, ◌∙◌, ap, ◌≡◌, ◌⊎◌, inl, inr, refl, sym, List, [], ◌∷◌, ◌++◌, true, ltb, take, drop,
  Bytes, arith, ok, err, Result, Bool-cases, Option-cases,
}
use mathlib.Core.Path.{subst}
use mathlib.Core.List.{append_assoc, append-nil}
use madre.Protocol.Frames.{encode_frame}
use madre.Protocol.Available.{ReadAnswer}
use madre.Protocol.Heard.{Heard}
use madre.Kernel.Attempts.{WorkerOutcome}
use madre.Workers.{
  WorkerProcess, WaitAnswer, Attempt, Progress, waits, ends, goes_on, alive, time_is_up,
}
use madre.Workers.Sending.{
  SendRound, WriteAnswer, send, send_round, may_write, write_some, poll_writable, after_round,
  written, would_block, write_failed,
}
use madre.Workers.Receiving.{ReceiveRound, receive}
use madre.Workers.Execution.{Outside, request_frame, exchange, await, execute}
use madre.Workers.Replies.{
  IsSound, IsReady, looks_of, IsReply, IsLost, IsFair, IsFairTo, kill-IsFair, unless_alive-IsFair,
  kill_if_alive-IsFair, and_then-IsFair, receive-IsFair, alive-IsGone, terminate-IsGone,
}

-- The sending leaves the buffer of the responses as it is.
abbrev Untouched : Bytes → Bytes → Type 0
Untouched start buffer = start ≡ buffer

-- The worker says nothing before it has the request.
abbrev IsNothing : WorkerOutcome → Type 0
IsNothing outcome = ⊥

module _ (attempt : Attempt) (start : Bytes) where
  abbrev IsWaiting : WorkerProcess → Type 0
  IsWaiting = IsReady (Untouched start)

  abbrev IsWaitingPair : ℕ × WorkerProcess → Type 0
  IsWaitingPair (n, worker) = IsWaiting worker

  may_write-IsFair :
      (round : SendRound) (worker : WorkerProcess)
      → IsWaiting worker
      → IsFair (Untouched start) IsNothing (may_write attempt round worker)
  unfolding may_write
  may_write-IsFair round worker h = elim (Bool-cases round.stopping) [
    | inl stop ↦ rw stop (kill-IsFair IsNothing IsWaiting round.killed _ worker (λ e. cc))
    | inr run ↦ elim (Bool-cases round.cancelled) [
      | inl cancelled ↦
          rw (run, cancelled) (kill-IsFair IsNothing IsWaiting round.killed _ worker (λ e. cc))
      | inr wanted ↦ elim (Bool-cases (time_is_up attempt.stop_at_ms round.now)) [
        | inl late ↦
            rw (run, wanted, late) (kill-IsFair IsNothing IsWaiting round.killed _ worker (λ e. cc))
        | inr early ↦
            rw (run, wanted, early)
              (unless_alive-IsFair IsNothing (Untouched start) round.before worker h)
      ]
    ]
  ]

  poll_writable-IsFair :
      (round : SendRound) (worker : WorkerProcess)
      → IsWaiting worker
      → IsFairTo IsWaitingPair IsNothing (poll_writable round worker)
  poll_writable-IsFair round worker h = elim (Option-cases round.poll) [
    | inl ready ↦ rw ready h
    | inr (error, failed) ↦
        rw failed (kill-IsFair IsNothing IsWaitingPair round.killed _ worker (λ e. cc))
  ]

  write_some-IsFair :
      (round : SendRound) (answer : WriteAnswer) (worker : WorkerProcess)
      → round.write ≡ answer
      → IsWaiting worker
      → IsFairTo IsWaitingPair IsNothing (write_some round worker)
  unfolding write_some
  write_some-IsFair round (written n) worker e h = elim (Bool-cases (ltb 0 n)) [
    | inl some_bytes ↦ rw (e, some_bytes) h
    | inr nothing ↦ rw (e, nothing) (poll_writable-IsFair round worker h)
  ]
  write_some-IsFair round would_block worker e h = rw e (poll_writable-IsFair round worker h)
  write_some-IsFair round (write_failed error) worker e h = rw e (
      kill_if_alive-IsFair IsNothing IsWaitingPair round.killed _ round.behind worker (λ e'. cc)
        h.0)

  send_round-IsFair :
      (round : SendRound) (worker : WorkerProcess)
      → IsWaiting worker
      → IsFairTo IsWaitingPair IsNothing (send_round attempt round worker)
  send_round-IsFair round worker h =
      and_then-IsFair IsNothing IsWaiting IsWaitingPair (may_write attempt round worker)
        (write_some round) (may_write-IsFair round worker h)
        (λ next sound. write_some-IsFair round round.write next refl sound)

  after_round-IsFair :
      (taken : Bytes) (next : ℕ → WorkerProcess → Bytes × Progress WorkerProcess)
      (turn : Progress (ℕ × WorkerProcess))
      → IsFairTo IsWaitingPair IsNothing turn
      → ((n : ℕ) (worker : WorkerProcess)
          → IsWaiting worker
          → IsFair (Untouched start) IsNothing (next n worker).1)
      → IsFair (Untouched start) IsNothing (after_round taken next turn).1
  after_round-IsFair taken next waits fair k = tt
  after_round-IsFair taken next (ends outcome worker) fair k = fair
  after_round-IsFair taken next (goes_on (n, worker)) fair k = k n worker fair

  send-IsFair :
      (taken left : Bytes) (rounds : List SendRound) (worker : WorkerProcess)
      → IsWaiting worker
      → IsFair (Untouched start) IsNothing (send attempt taken left rounds worker).1
  unfolding send
  send-IsFair taken [] rounds worker h = h
  send-IsFair taken (b ∷ left) [] worker h = tt
  send-IsFair taken (b ∷ left) (round ∷ rounds) worker h =
      after_round-IsFair taken _ (send_round attempt round worker)
        (send_round-IsFair round worker h)
        (λ n. send-IsFair (taken ++ take n (b ∷ left)) (drop n (b ∷ left)) rounds)

-- The loop ends with the whole request in the pipe.
abbrev IsWhole : Bytes → Bytes × Progress WorkerProcess → Type 0
IsWhole request (taken, goes_on worker) = taken ≡ request
IsWhole request (taken, waits) = Unit
IsWhole request (taken, ends outcome worker) = Unit

take-drop {ℓ} : {A : Type ℓ} (n : ℕ) (s : List A) → take n s ++ drop n s ≡ s
take-drop zero s = refl
take-drop (suc n) [] = refl
take-drop (suc n) (x ∷ s) = ap (λ rest. x ∷ rest) (take-drop n s)

after_round-IsWhole :
    (request taken : Bytes) (next : ℕ → WorkerProcess → Bytes × Progress WorkerProcess)
    (turn : Progress (ℕ × WorkerProcess))
    → ((n : ℕ) (worker : WorkerProcess) → IsWhole request (next n worker))
    → IsWhole request (after_round taken next turn)
after_round-IsWhole request taken next waits k = tt
after_round-IsWhole request taken next (ends outcome worker) k = tt
after_round-IsWhole request taken next (goes_on (n, worker)) k = k n worker

send-IsWhole :
    (attempt : Attempt) (taken left : Bytes) (rounds : List SendRound) (worker : WorkerProcess)
    → IsWhole (taken ++ left) (send attempt taken left rounds worker)
unfolding send
send-IsWhole attempt taken [] rounds worker = sym (append-nil taken)
send-IsWhole attempt taken (b ∷ left) [] worker = tt
send-IsWhole attempt taken (b ∷ left) (round ∷ rounds) worker =
    after_round-IsWhole (taken ++ (b ∷ left)) taken _ (send_round attempt round worker)
      (λ n worker'.
        let e : (taken ++ take n (b ∷ left)) ++ drop n (b ∷ left) ≡ taken ++ (b ∷ left) =
          append_assoc taken (take n (b ∷ left)) (drop n (b ∷ left))
          ∙ ap (λ rest. taken ++ rest) (take-drop n (b ∷ left)) in
        subst
          (λ whole.
            IsWhole whole
              (send attempt (taken ++ take n (b ∷ left)) (drop n (b ∷ left)) rounds worker'))
          e (send-IsWhole attempt (taken ++ take n (b ∷ left)) (drop n (b ∷ left)) rounds worker'))

-- An attempt that has ended has lost its worker, or has its answer to the request that was sent.
abbrev pub IsSettled :
    Attempt
    → Bytes
    → List (List ReadAnswer)
    → Result Bytes
    → Bytes × Progress WorkerProcess
    → Type 0
IsSettled attempt start looks request (taken, ends outcome worker) =
    IsLost outcome worker ⊎ (IsReply attempt start looks outcome × (request ≡ ok taken))
IsSettled attempt start looks request (taken, waits) = Unit
IsSettled attempt start looks request (taken, goes_on worker) = Unit

await-IsSettled :
    (attempt : Attempt) (start request : Bytes) (rounds : List ReceiveRound)
    (sent : Bytes × Progress WorkerProcess)
    → IsFair (Untouched start) IsNothing sent.1
    → IsWhole request sent
    → IsSettled attempt start (looks_of rounds) (ok request) (await attempt rounds sent)
await-IsSettled attempt start request rounds (taken, waits) h w = tt
await-IsSettled attempt start request rounds (taken, ends outcome worker) (inl lost) w = inl lost
await-IsSettled attempt start request rounds (taken, ends outcome worker) (inr nothing) w =
    elim nothing [ ]
await-IsSettled attempt start request rounds (taken, goes_on worker) h w =
    received (receive attempt rounds worker) (
      receive-IsFair attempt start (looks_of rounds) rounds worker (
        h.0,
        λ heard later. subst (λ buffer. Heard buffer (looks_of rounds) heard) (sym h.1) later,
      ))
  where
    received :
        (answer : Progress WorkerProcess)
        → IsFair (λ _. Unit {0}) (IsReply attempt start (looks_of rounds)) answer
        → IsSettled attempt start (looks_of rounds) (ok request) (taken, answer)
    received waits fair = tt
    received (goes_on worker') fair = tt
    received (ends outcome worker') (inl gone) = inl gone
    received (ends outcome worker') (inr reply) = inr (reply, ap ok (sym w))

kept_alive :
    (answer : WaitAnswer) (worker : WorkerProcess)
    → (alive answer worker).0 ≡ true
    → (alive answer worker).1 ≡ worker
unfolding alive
kept_alive answer worker e = ground arith

module _ (attempt : Attempt) (outside : Outside) (worker : WorkerProcess) (h : IsSound worker) where
  exchange-IsSettled :
      (request : Result Bytes)
      → IsSettled attempt worker.response_reader
          (looks_of outside.receives)
          request
          (exchange attempt outside request worker)
  unfolding exchange
  exchange-IsSettled (err e) =
      inl (record { gone = terminate-IsGone outside.killed worker; no_success = λ e'. cc })
  exchange-IsSettled (ok request) =
      await-IsSettled attempt worker.response_reader request outside.receives
        (send attempt [] request outside.sends worker)
        (send-IsFair attempt worker.response_reader [] request outside.sends worker (h, refl))
        (send-IsWhole attempt [] request outside.sends worker)

-- Whatever the outside does: an attempt that ends has either lost its worker, which is gone with
-- both pipes closed, and is then no success; or the pipe has taken the bytes of the whole request,
-- and the outcome is that of a frame with the attempt's correlation id: the payload of a result, or
-- the failure that is reported. That frame is what `read_frame` reads of the bytes that the buffer
-- held before and the looks for a response then put behind them. Before, the worker had a process
-- or closed pipes.
pub execute-IsSettled :
    (attempt : Attempt) (outside : Outside) (worker : WorkerProcess)
    → IsSound worker
    → IsSettled attempt worker.response_reader
        (looks_of outside.receives)
        (encode_frame (request_frame attempt worker))
        (execute attempt outside worker)
unfolding execute
execute-IsSettled attempt outside worker h = elim (Bool-cases (alive outside.before worker).0) [
  | inr dead ↦
      rw dead
        (inl (record { gone = alive-IsGone outside.before worker h dead; no_success = λ e. cc }))
  | inl living ↦
      rw (living, kept_alive outside.before worker living)
        (exchange-IsSettled attempt outside worker h (encode_frame (request_frame attempt worker)))
]
