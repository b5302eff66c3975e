-- ===== src/Workers/Prompt.antt =====
-- No part of `execute` waits of itself: it returns or goes on.
use madre.Base.{
  inl, inr, List, Option, none, some, Bool, true, false, arith, ok, err, Result, Option-cases,
}
use madre.Protocol.{Frame}
use madre.Protocol.Available.{ReadAnswer}
use madre.Kernel.Attempts.{WorkerOutcome}
use madre.Workers.{
  WaitStatus, WorkerProcess, Attempt, Progress, waits, ends, goes_on, and_then, unless_alive, kill,
  kill_if_alive,
}
use madre.Workers.Receiving.{ReceiveRound, look, looked, finish_response, give_up, poll_ready}

abbrev pub IsOver : {A : Type 0} → Progress A → Type 0
IsOver waits = ⊥
IsOver (goes_on value) = ⊥
IsOver (ends outcome worker) = Unit

abbrev pub IsPrompt : {A : Type 0} → Progress A → Type 0
IsPrompt waits = ⊥
IsPrompt (goes_on value) = Unit
IsPrompt (ends outcome worker) = Unit

module _ {A B : Type 0} where
  pub and_then-IsOver :
      (first : Progress A) (next : A → Progress B)
      → IsPrompt first
      → ((value : A) → IsOver (next value))
      → IsOver (and_then first next)
  and_then-IsOver (goes_on value) next h k = k value
  and_then-IsOver (ends outcome worker) next h k = tt
  and_then-IsOver waits next h k = h

  pub and_then-IsPrompt :
      (first : Progress A) (next : A → Progress B)
      → IsPrompt first
      → ((value : A) → IsPrompt (next value))
      → IsPrompt (and_then first next)
  and_then-IsPrompt (goes_on value) next h k = k value
  and_then-IsPrompt (ends outcome worker) next h k = tt
  and_then-IsPrompt waits next h k = h

  pub and_then-IsOver_first :
      (first : Progress A) (next : A → Progress B) → IsOver first → IsOver (and_then first next)
  and_then-IsOver_first (goes_on value) next h = elim h [ ]
  and_then-IsOver_first (ends outcome worker) next h = tt
  and_then-IsOver_first waits next h = h

pub kill_if_alive-IsPrompt :
    (A : Type 0) (status : WaitStatus) (outcome : WorkerOutcome) (living : Bool × WorkerProcess)
    → IsPrompt (kill_if_alive {A = A} status outcome living)
kill_if_alive-IsPrompt A status outcome (true, worker) = tt
kill_if_alive-IsPrompt A status outcome (false, worker) = tt

pub unless_alive-IsPrompt : (living : Bool × WorkerProcess) → IsPrompt (unless_alive living)
unless_alive-IsPrompt (true, worker) = tt
unless_alive-IsPrompt (false, worker) = tt

module _ (attempt : Attempt) where
  finish_response-IsPrompt :
      (killed : WaitStatus) (response : Frame) (worker : WorkerProcess)
      → IsPrompt (finish_response attempt killed response worker)
  unfolding finish_response
  finish_response-IsPrompt killed response worker = ground arith

  looked-IsPrompt :
      (round : ReceiveRound) (found : Result (Option Frame)) (worker : WorkerProcess)
      → IsPrompt (looked attempt round found worker)
  looked-IsPrompt round (ok none) worker = tt
  looked-IsPrompt round (ok (some response)) worker =
      finish_response-IsPrompt round.killed response worker
  looked-IsPrompt round (err e) worker = kill_if_alive-IsPrompt WorkerProcess round.killed _ _

  pub look-IsPrompt :
      (round : ReceiveRound) (answers : List ReadAnswer) (worker : WorkerProcess)
      → IsPrompt (look attempt round answers worker)
  unfolding look
  look-IsPrompt round answers worker = looked-IsPrompt round _ _

  pub give_up-IsOver :
      (round : ReceiveRound) (outcome : WorkerOutcome) (worker : WorkerProcess)
      → IsOver (give_up attempt round outcome worker)
  give_up-IsOver round outcome worker =
      and_then-IsOver _ (kill round.killed outcome) (look-IsPrompt round round.last_reads worker)
        (λ left. tt)

  pub poll_ready-IsPrompt :
      (round : ReceiveRound) (worker : WorkerProcess) → IsPrompt (poll_ready round worker)
  poll_ready-IsPrompt round worker = elim (Option-cases round.poll) [
    | inl ready ↦ rw ready tt
    | inr (error, failed) ↦ rw failed tt
  ]

  pub over-IsPrompt : {A : Type 0} (p : Progress A) → IsOver p → IsPrompt p
  over-IsPrompt waits h = h
  over-IsPrompt (goes_on value) h = tt
  over-IsPrompt (ends outcome worker) h = tt
