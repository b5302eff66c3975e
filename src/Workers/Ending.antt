-- ===== src/Workers/Ending.antt =====
-- Both loops of `execute` end when they are told to: by the Kernel, by a cancellation, or by the
-- clock.
use madre.Base.{
  ℕ, ◌≡◌, inl, inr, refl, List, [], ◌∷◌, ◌++◌, Bool, true, false, ◌||◌, ltb, take, drop, Bytes,
  arith, ok, err, Result, Bool-cases, Option-cases, any_of,
}
use madre.Kernel.Attempts.{WorkerOutcome}
use madre.Workers.{WorkerProcess, Attempt, Progress, waits, ends, goes_on, alive, time_is_up}
use madre.Workers.Sending.{
  SendRound, WriteAnswer, send, may_write, write_some, poll_writable, after_round, written,
  would_block, write_failed,
}
use madre.Workers.Receiving.{ReceiveRound, receive, receive_round, look, may_wait, poll_ready}
use madre.Workers.Execution.{Outside, exchange, await, execute}
use madre.Workers.Prompt.{
  IsOver, IsPrompt, and_then-IsOver, and_then-IsPrompt, and_then-IsOver_first,
  kill_if_alive-IsPrompt, unless_alive-IsPrompt, look-IsPrompt, give_up-IsOver, poll_ready-IsPrompt,
  over-IsPrompt,
}

-- A round of the sending that is told to end.
abbrev pub ends_sending : Attempt → SendRound → Bool
ends_sending attempt round =
    round.stopping || (round.cancelled || time_is_up attempt.stop_at_ms round.now)

abbrev pub ends_receiving : Attempt → ReceiveRound → Bool
ends_receiving attempt round =
    round.stopping || (round.cancelled || time_is_up attempt.stop_at_ms round.now)

module _ (attempt : Attempt) where
  may_wait-IsOver :
      (round : ReceiveRound) (worker : WorkerProcess)
      → ends_receiving attempt round ≡ true
      → IsOver (may_wait attempt round worker)
  unfolding may_wait look
  may_wait-IsOver round worker e = elim (Bool-cases round.stopping) [
    | inl stop ↦ rw stop tt
    | inr run ↦ elim (Bool-cases round.cancelled) [
      | inl cancelled ↦ rw (run, cancelled) (give_up-IsOver attempt round _ worker)
      | inr wanted ↦
          let late : time_is_up attempt.stop_at_ms round.now ≡ true = ground arith in
          rw (run, wanted, late) (give_up-IsOver attempt round _ worker)
    ]
  ]

  may_wait-IsPrompt :
      (round : ReceiveRound) (worker : WorkerProcess) → IsPrompt (may_wait attempt round worker)
  unfolding may_wait look
  may_wait-IsPrompt round worker = elim (Bool-cases (ends_receiving attempt round)) [
    | inl over ↦ over-IsPrompt attempt _ (may_wait-IsOver round worker over)
    | inr runs ↦
        let run : round.stopping ≡ false = ground arith in
        let wanted : round.cancelled ≡ false = ground arith in
        let early : time_is_up attempt.stop_at_ms round.now ≡ false = ground arith in
        rw (run, wanted, early)
          (and_then-IsPrompt _ (poll_ready round) (unless_alive-IsPrompt _)
            (poll_ready-IsPrompt attempt round))
  ]

  -- A round that is told to end does, and any other round does not wait.
  receive_round-IsOver :
      (round : ReceiveRound) (worker : WorkerProcess)
      → ends_receiving attempt round ≡ true
      → IsOver (receive_round attempt round worker)
  receive_round-IsOver round worker e =
      and_then-IsOver _ (may_wait attempt round) (look-IsPrompt attempt round round.reads worker)
        (λ left. may_wait-IsOver round left e)

  receive-IsOver :
      (rounds : List ReceiveRound) (worker : WorkerProcess)
      → any_of (ends_receiving attempt) rounds ≡ true
      → IsOver (receive attempt rounds worker)
  unfolding receive any_of
  receive-IsOver [] worker e = absurd (cc e)
  receive-IsOver (round ∷ rounds) worker e = elim (Bool-cases (ends_receiving attempt round)) [
    | inl over ↦
        and_then-IsOver_first _ (receive attempt rounds) (receive_round-IsOver round worker over)
    | inr runs ↦
        and_then-IsOver _ (receive attempt rounds)
          (and_then-IsPrompt _ (may_wait attempt round)
            (look-IsPrompt attempt round round.reads worker) (may_wait-IsPrompt round))
          (λ left. receive-IsOver rounds left (ground arith))
  ]

  may_write-IsOver :
      (round : SendRound) (worker : WorkerProcess)
      → ends_sending attempt round ≡ true
      → IsOver (may_write attempt round worker)
  unfolding may_write
  may_write-IsOver round worker e = ground arith

  may_write-IsPrompt :
      (round : SendRound) (worker : WorkerProcess) → IsPrompt (may_write attempt round worker)
  unfolding may_write
  may_write-IsPrompt round worker = elim (Bool-cases (ends_sending attempt round)) [
    | inl over ↦ over-IsPrompt attempt _ (may_write-IsOver round worker over)
    | inr runs ↦
        let run : round.stopping ≡ false = ground arith in
        let wanted : round.cancelled ≡ false = ground arith in
        let early : time_is_up attempt.stop_at_ms round.now ≡ false = ground arith in
        rw (run, wanted, early) (unless_alive-IsPrompt _)
  ]

  poll_writable-IsPrompt :
      (round : SendRound) (worker : WorkerProcess) → IsPrompt (poll_writable round worker)
  poll_writable-IsPrompt round worker = elim (Option-cases round.poll) [
    | inl ready ↦ rw ready tt
    | inr (error, failed) ↦ rw failed tt
  ]

  write_some-IsPrompt :
      (round : SendRound) (answer : WriteAnswer) (worker : WorkerProcess)
      → round.write ≡ answer
      → IsPrompt (write_some round worker)
  unfolding write_some
  write_some-IsPrompt round (written n) worker e = elim (Bool-cases (ltb 0 n)) [
    | inl some_bytes ↦ rw (e, some_bytes) tt
    | inr nothing ↦ rw (e, nothing) (poll_writable-IsPrompt round worker)
  ]
  write_some-IsPrompt round would_block worker e = rw e (poll_writable-IsPrompt round worker)
  write_some-IsPrompt round (write_failed error) worker e =
      rw e (kill_if_alive-IsPrompt (ℕ × WorkerProcess) round.killed _ _)

  after_round-IsPrompt :
      (taken : Bytes) (next : ℕ → WorkerProcess → Bytes × Progress WorkerProcess)
      (turn : Progress (ℕ × WorkerProcess))
      → IsPrompt turn
      → ((n : ℕ) (worker : WorkerProcess) → IsPrompt (next n worker).1)
      → IsPrompt (after_round taken next turn).1
  after_round-IsPrompt taken next waits h k = h
  after_round-IsPrompt taken next (ends outcome worker) h k = tt
  after_round-IsPrompt taken next (goes_on (n, worker)) h k = k n worker

  over_round :
      (taken : Bytes) (next : ℕ → WorkerProcess → Bytes × Progress WorkerProcess)
      (turn : Progress (ℕ × WorkerProcess))
      → IsOver turn
      → IsPrompt (after_round taken next turn).1
  over_round taken next waits h = h
  over_round taken next (ends outcome worker) h = tt
  over_round taken next (goes_on value) h = elim h [ ]

  send-IsPrompt :
      (taken left : Bytes) (rounds : List SendRound) (worker : WorkerProcess)
      → any_of (ends_sending attempt) rounds ≡ true
      → IsPrompt (send attempt taken left rounds worker).1
  unfolding send any_of
  send-IsPrompt taken [] rounds worker e = tt
  send-IsPrompt taken (b ∷ left) [] worker e = absurd (cc e)
  send-IsPrompt taken (b ∷ left) (round ∷ rounds) worker e =
      elim (Bool-cases (ends_sending attempt round)) [
        | inl over ↦
            over_round taken _ _
              (and_then-IsOver_first _ (write_some round) (may_write-IsOver round worker over))
        | inr runs ↦
            after_round-IsPrompt taken _ _
              (and_then-IsPrompt _ (write_some round) (may_write-IsPrompt round worker)
                (λ next. write_some-IsPrompt round round.write next refl))
              (λ n next.
                send-IsPrompt (taken ++ take n (b ∷ left)) (drop n (b ∷ left)) rounds next
                  (ground arith))
      ]

abbrev pub HasEnded : Bytes × Progress WorkerProcess → Type 0
HasEnded (taken, progress) =
    (outcome : WorkerOutcome) × (left : WorkerProcess) × (progress ≡ ends outcome left)

over-HasEnded :
    (taken : Bytes) (progress : Progress WorkerProcess)
    → IsOver progress
    → HasEnded (taken, progress)
over-HasEnded taken waits h = elim h [ ]
over-HasEnded taken (goes_on worker) h = elim h [ ]
over-HasEnded taken (ends outcome worker) h = (outcome, worker, refl)

await-HasEnded :
    (attempt : Attempt) (rounds : List ReceiveRound) (sent : Bytes × Progress WorkerProcess)
    → IsPrompt sent.1
    → any_of (ends_receiving attempt) rounds ≡ true
    → HasEnded (await attempt rounds sent)
await-HasEnded attempt rounds (taken, waits) h e = elim h [ ]
await-HasEnded attempt rounds (taken, ends outcome worker) h e = (outcome, worker, refl)
await-HasEnded attempt rounds (taken, goes_on worker) h e =
    over-HasEnded taken _ (receive-IsOver attempt rounds worker e)

exchange-HasEnded :
    (attempt : Attempt) (outside : Outside) (request : Result Bytes) (worker : WorkerProcess)
    → any_of (ends_sending attempt) outside.sends ≡ true
    → any_of (ends_receiving attempt) outside.receives ≡ true
    → HasEnded (exchange attempt outside request worker)
unfolding exchange
exchange-HasEnded attempt outside (err e) worker hs hr = (_, _, refl)
exchange-HasEnded attempt outside (ok request) worker hs hr =
    await-HasEnded attempt outside.receives _
      (send-IsPrompt attempt [] request outside.sends worker hs) hr

-- The attempt ends with an outcome if in some round of each loop the Kernel is stopping, the Work
-- is cancelled, or the time at which the attempt must stop has come: whatever the pipes and the
-- process do in that round and before it.
pub execute-HasEnded :
    (attempt : Attempt) (outside : Outside) (worker : WorkerProcess)
    → any_of (ends_sending attempt) outside.sends ≡ true
    → any_of (ends_receiving attempt) outside.receives ≡ true
    → HasEnded (execute attempt outside worker)
unfolding execute
execute-HasEnded attempt outside worker hs hr = elim (Bool-cases (alive outside.before worker).0) [
  | inr dead ↦ rw dead (_, _, refl)
  | inl living ↦ rw living (exchange-HasEnded attempt outside _ _ hs hr)
]
