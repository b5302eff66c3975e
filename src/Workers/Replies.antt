-- ===== src/Workers/Replies.antt =====
-- What `execute` leaves behind: a worker that has answered, or none.
use mathlib.Core.Path.{subst}
use madre.Base.{
  Bytes, ok, ◌≡◌, ◌≢◌, ◌⊎◌, inl, inr, List, [], ◌∷◌, none, some, false, ◌==◌, arith, Bool-cases,
  Option-cases, Result-cases,
}
use madre.Protocol.{Frame}
use madre.Protocol.MessageType
use madre.Protocol.Frames.{read_frame}
use madre.Protocol.Available.{ReadAnswer, read_available}
use madre.Protocol.Heard.{Heard, Heard-skip, Heard-look, read_available-IsLooked}
use madre.Kernel.Attempts.{WorkerOutcomeKind, WorkerOutcome}
use madre.Workers.{
  WaitStatus, WorkerProcess, WaitAnswer, Attempt, Progress, waits, ends, goes_on, and_then, alive,
  terminate, time_is_up, unless_alive, kill, kill_if_alive,
}
use madre.Workers.Receiving.{
  ReceiveRound, receive, look, finish_response, may_wait, give_up, poll_ready, failure,
}

-- The process is gone and both pipes are closed.
pub record IsGone (worker : WorkerProcess) : Type 0 where
  pub no_pid : worker.pid ≡ none
  pub no_input : worker.input_fd ≡ none
  pub no_output : worker.output_fd ≡ none

-- A worker without a process has closed its pipes.
abbrev pub IsSound : WorkerProcess → Type 0
IsSound worker = worker.pid ≡ none → (worker.input_fd ≡ none) × (worker.output_fd ≡ none)

-- Where the worker is sound, and its buffer is as it should be.
abbrev pub IsReady : (Bytes → Type 0) → WorkerProcess → Type 0
IsReady Holds worker = IsSound worker × Holds worker.response_reader

-- The outcome that a response stands for, by its type.
pub data IsOutcomeOf (response : Frame) : WorkerOutcome → Type 0 where
  result :
      response.type ≡ MessageType.worker_result
      → IsOutcomeOf response (record {
        kind = WorkerOutcomeKind.succeeded;
        payload = response.payload;
        technical_failure = [];
      })
  report :
      response.type ≡ MessageType.worker_failure → IsOutcomeOf response (failure response.metadata)

-- The outcome is that of a response with the attempt's correlation id, and the response is the
-- frame that the bytes spell which the buffer held at the start and the looks put behind them.
pub record IsReply (attempt : Attempt) (start : Bytes) (looks : List (List ReadAnswer))
    (outcome : WorkerOutcome) : Type 0 where
  pub heard : Bytes
  pub rest : Bytes
  pub response : Frame
  pub is_heard : Heard start looks heard
  pub is_read : read_frame heard ≡ ok (response, rest)
  pub correlated : response.correlation_id ≡ attempt.correlation_id
  pub is_outcome : IsOutcomeOf response outcome

-- The looks of the loop's rounds, in order: at the start of a round, and before giving up in it.
abbrev pub looks_of : List ReceiveRound → List (List ReadAnswer)
looks_of [] = []
looks_of (round ∷ rounds) = round.reads ∷ (round.last_reads ∷ looks_of rounds)

-- Lost: the process is gone, and that is no success.
pub record IsLost (outcome : WorkerOutcome) (worker : WorkerProcess) : Type 0 where
  pub gone : IsGone worker
  pub no_success : outcome.kind ≢ WorkerOutcomeKind.succeeded

-- What a part of `execute` comes to: a value that is good, an answer, or the loss of the worker.
abbrev pub IsFairTo : {A : Type 0} → (A → Type 0) → (WorkerOutcome → Type 0) → Progress A → Type 0
IsFairTo IsGood IsAnswer waits = Unit
IsFairTo IsGood IsAnswer (goes_on value) = IsGood value
IsFairTo IsGood IsAnswer (ends outcome worker) = IsLost outcome worker ⊎ IsAnswer outcome

abbrev pub IsFair : (Bytes → Type 0) → (WorkerOutcome → Type 0) → Progress WorkerProcess → Type 0
IsFair Holds = IsFairTo (IsReady Holds)

pub terminate-IsGone :
    (status : WaitStatus) (worker : WorkerProcess) → IsGone (terminate status worker)
unfolding terminate
terminate-IsGone status worker = ground arith

alive-IsReady :
    (Holds : Bytes → Type 0) (answer : WaitAnswer) (worker : WorkerProcess)
    → IsReady Holds worker
    → IsReady Holds (alive answer worker).1
unfolding alive
alive-IsReady Holds answer worker h = (ground (arith, h.0), subst Holds (reader answer) h.1)
  where
    reader :
        (answer : WaitAnswer) → worker.response_reader ≡ (alive answer worker).1.response_reader
    reader answer = ground arith

pub alive-IsGone :
    (answer : WaitAnswer) (worker : WorkerProcess)
    → IsSound worker
    → (alive answer worker).0 ≡ false
    → IsGone (alive answer worker).1
unfolding alive
alive-IsGone answer worker h e = ground arith

module _ (IsAnswer : WorkerOutcome → Type 0) where
  pub kill-IsFair :
      {A : Type 0} (IsGood : A → Type 0) (status : WaitStatus) (outcome : WorkerOutcome)
      (worker : WorkerProcess)
      → outcome.kind ≢ WorkerOutcomeKind.succeeded
      → IsFairTo IsGood IsAnswer (kill status outcome worker)
  kill-IsFair IsGood status outcome worker n =
      inl (record { gone = terminate-IsGone status worker; no_success = n })

  pub unless_alive-IsFair :
      (Holds : Bytes → Type 0) (answer : WaitAnswer) (worker : WorkerProcess)
      → IsReady Holds worker
      → IsFair Holds IsAnswer (unless_alive (alive answer worker))
  unless_alive-IsFair Holds answer worker h = elim (Bool-cases (alive answer worker).0) [
    | inl living ↦ rw (living) (alive-IsReady Holds answer worker h)
    | inr dead ↦
        rw dead (inl (record { gone = alive-IsGone answer worker h.0 dead; no_success = λ e. cc }))
  ]

  pub kill_if_alive-IsFair :
      {A : Type 0} (IsGood : A → Type 0) (status : WaitStatus) (outcome : WorkerOutcome)
      (answer : WaitAnswer) (worker : WorkerProcess)
      → outcome.kind ≢ WorkerOutcomeKind.succeeded
      → IsSound worker
      → IsFairTo IsGood IsAnswer (kill_if_alive status outcome (alive answer worker))
  kill_if_alive-IsFair IsGood status outcome answer worker n h =
      elim (Bool-cases (alive answer worker).0) [
        | inl living ↦ rw living (kill-IsFair IsGood status outcome (alive answer worker).1 n)
        | inr dead ↦
            rw dead
              (inl (record { gone = alive-IsGone answer worker h dead; no_success = λ e. cc }))
      ]

  pub and_then-IsFair :
      {A B : Type 0} (IsGood : A → Type 0) (IsBetter : B → Type 0) (first : Progress A)
      (next : A → Progress B)
      → IsFairTo IsGood IsAnswer first
      → ((value : A) → IsGood value → IsFairTo IsBetter IsAnswer (next value))
      → IsFairTo IsBetter IsAnswer (and_then first next)
  and_then-IsFair IsGood IsBetter waits next h k = tt
  and_then-IsFair IsGood IsBetter (ends outcome worker) next h k = h
  and_then-IsFair IsGood IsBetter (goes_on value) next h k = k value h

module _ (attempt : Attempt) (start : Bytes) (all : List (List ReadAnswer)) where
  -- What is heard from this buffer by these looks is heard from the start by all.
  abbrev Leads : List (List ReadAnswer) → Bytes → Type 0
  Leads looks buffer = (heard : Bytes) → Heard buffer looks heard → Heard start all heard

  abbrev IsAnswer : WorkerOutcome → Type 0
  IsAnswer = IsReply attempt start all

  Leads-skip :
      (answers : List ReadAnswer) (looks : List (List ReadAnswer)) (worker : WorkerProcess)
      → IsReady (Leads (answers ∷ looks)) worker
      → IsReady (Leads looks) worker
  Leads-skip answers looks worker h =
      (h.0, λ heard later. h.1 heard (Heard-skip worker.response_reader heard answers looks later))

  finish_response-IsFair :
      (Holds : Bytes → Type 0) (status : WaitStatus) (response : Frame) (worker : WorkerProcess)
      (heard rest : Bytes)
      → Heard start all heard
      → read_frame heard ≡ ok (response, rest)
      → IsFair Holds IsAnswer (finish_response attempt status response worker)
  unfolding finish_response
  finish_response-IsFair Holds status response worker heard rest h read =
      elim (Bool-cases (response.correlation_id == attempt.correlation_id)) [
        | inr other ↦ rw other (kill-IsFair IsAnswer (IsReady Holds) status _ worker (λ e. cc))
        | inl same ↦
            let reply : (outcome : WorkerOutcome)
                → IsOutcomeOf response outcome
                → IsAnswer outcome =
              λ outcome o. record {
                heard = heard;
                rest = rest;
                response = response;
                is_heard = h;
                is_read = read;
                correlated = ground arith;
                is_outcome = o;
              } in
            elim (Bool-cases (response.type == MessageType.worker_result)) [
              | inl done ↦ rw (same, done) (inr (reply _ (IsOutcomeOf.result (ground arith))))
              | inr not_done ↦ elim (Bool-cases (response.type == MessageType.worker_failure)) [
                | inl bad ↦
                    rw (same, not_done, bad) (inr (reply _ (IsOutcomeOf.report (ground arith))))
                | inr unknown ↦
                    rw (same, not_done, unknown)
                      (kill-IsFair IsAnswer (IsReady Holds) status _ worker (λ e. cc))
              ]
            ]
      ]

  look-IsFair :
      (round : ReceiveRound) (answers : List ReadAnswer) (looks : List (List ReadAnswer))
      (worker : WorkerProcess)
      → IsReady (Leads (answers ∷ looks)) worker
      → IsFair (Leads looks) IsAnswer (look attempt round answers worker)
  unfolding look
  look-IsFair round answers looks worker h =
      let buffer = worker.response_reader in
      let looked = read_available-IsLooked buffer answers in
      elim (Result-cases (read_available buffer answers).0.0) [
        | inr (e, thrown) ↦ rw thrown (
            kill_if_alive-IsFair IsAnswer (IsReady (Leads looks)) round.killed _ round.process _
              (λ e. cc) h.0)
        | inl (none, nothing) ↦ rw nothing (
          h.0,
          λ heard later. h.1 heard (
              Heard-look buffer (read_available buffer answers).0.1 heard answers looks
                (looked none nothing) later),
        )
        | inl (some response, found) ↦
            let (whole, extends, read) = looked (some response) found in
            rw found (
              finish_response-IsFair (Leads looks) round.killed response _ whole _
                (h.1 whole (Heard-look buffer whole whole answers looks extends Heard.so_far)) read)
      ]

  poll_ready-IsFair :
      (Holds : Bytes → Type 0) (round : ReceiveRound) (worker : WorkerProcess)
      → IsReady Holds worker
      → IsFair Holds IsAnswer (poll_ready round worker)
  poll_ready-IsFair Holds round worker h = elim (Option-cases round.poll) [
    | inl ready ↦ rw ready h
    | inr (error, failed) ↦
        rw failed (kill-IsFair IsAnswer (IsReady Holds) round.killed _ worker (λ e. cc))
  ]

  give_up-IsFair :
      (round : ReceiveRound) (looks : List (List ReadAnswer)) (outcome : WorkerOutcome)
      (worker : WorkerProcess)
      → outcome.kind ≢ WorkerOutcomeKind.succeeded
      → IsReady (Leads (round.last_reads ∷ looks)) worker
      → IsFair (Leads looks) IsAnswer (give_up attempt round outcome worker)
  give_up-IsFair round looks outcome worker n h =
      and_then-IsFair IsAnswer (IsReady (Leads looks)) (IsReady (Leads looks)) _
        (kill round.killed outcome) (look-IsFair round round.last_reads looks worker h)
        (λ left ready. kill-IsFair IsAnswer (IsReady (Leads looks)) round.killed outcome left n)

  may_wait-IsFair :
      (round : ReceiveRound) (looks : List (List ReadAnswer)) (worker : WorkerProcess)
      → IsReady (Leads (round.last_reads ∷ looks)) worker
      → IsFair (Leads looks) IsAnswer (may_wait attempt round worker)
  unfolding may_wait look
  may_wait-IsFair round looks worker h = elim (Bool-cases round.stopping) [
    | inl stop ↦
        rw stop (kill-IsFair IsAnswer (IsReady (Leads looks)) round.killed _ worker (λ e. cc))
    | inr run ↦ elim (Bool-cases round.cancelled) [
      | inl cancelled ↦ rw (run, cancelled) (give_up-IsFair round looks _ worker (λ e. cc) h)
      | inr wanted ↦ elim (Bool-cases (time_is_up attempt.stop_at_ms round.now)) [
        | inl late ↦ rw (run, wanted, late) (give_up-IsFair round looks _ worker (λ e. cc) h)
        | inr early ↦
            rw (run, wanted, early)
              (and_then-IsFair IsAnswer (IsReady (Leads looks)) (IsReady (Leads looks)) _
                (poll_ready round)
                (unless_alive-IsFair IsAnswer (Leads looks) round.process worker
                  (Leads-skip round.last_reads looks worker h))
                (poll_ready-IsFair (Leads looks) round))
      ]
    ]
  ]

  pub receive-IsFair :
      (rounds : List ReceiveRound) (worker : WorkerProcess)
      → IsReady (Leads (looks_of rounds)) worker
      → IsFair (λ _. Unit {0}) IsAnswer (receive attempt rounds worker)
  unfolding receive
  receive-IsFair [] worker h = tt
  receive-IsFair (round ∷ rounds) worker h =
      let looks = looks_of rounds in
      and_then-IsFair IsAnswer (IsReady (Leads looks)) (IsReady (λ _. Unit {0})) _
        (receive attempt rounds)
        (and_then-IsFair IsAnswer (IsReady (Leads (round.last_reads ∷ looks)))
          (IsReady (Leads looks)) _ (may_wait attempt round)
          (look-IsFair round round.reads (round.last_reads ∷ looks) worker h)
          (may_wait-IsFair round looks))
        (receive-IsFair rounds)
