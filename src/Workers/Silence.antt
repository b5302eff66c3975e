-- ===== src/Workers/Silence.antt =====
-- A worker that says nothing until its attempt is given up.
use mathlib.Core.Path.{subst}
use madre.Kernel.Attempts.{WorkerOutcomeKind, WorkerOutcome}
use madre.Workers.Replies.{IsGone, terminate-IsGone}
use madre.Store.Endings.{Fits}
use madre.Base.{
  Option, ◌≤◌, sym, codes, IsNat63, by_test, ℕ, ◌≡◌, ◌∙◌, refl, ap, List, [], ◌∷◌, ◌++◌, none, some,
  true, false, arith, All,
}
use madre.Protocol.Frames.{take_frame}
use madre.Protocol.Available.{ReadAnswer, read_available, read_turn}
use madre.Workers.{
  WorkerProcess, Attempt, ends, goes_on, and_then, alive, running, time_is_up, timeout, terminate,
  Progress, kill,
}
use madre.Workers.Receiving.{ReceiveRound, receive, receive_round, look, may_wait, give_up}
use madre.Workers.Ending.{ends_receiving}

-- A round in which nothing happens at all.
pub record IsSilent (attempt : Attempt) (round : ReceiveRound) : Type 0 where
  pub unfinished : ends_receiving attempt round ≡ false
  pub lives : round.process ≡ running
  pub polled : round.poll ≡ none
  pub no_reads : round.reads ≡ []

silent_look :
    (attempt : Attempt) (round : ReceiveRound) (answers : List ReadAnswer) (worker : WorkerProcess)
    → worker.response_reader ≡ []
    → answers ≡ []
    → look attempt round answers worker ≡ goes_on worker
unfolding look read_available read_turn take_frame
silent_look attempt round answers worker empty nothing = rw (nothing, empty) refl

silent_round :
    (attempt : Attempt) (round : ReceiveRound) (worker : WorkerProcess)
    → (p : ℕ) × (worker.pid ≡ some p)
    → worker.response_reader ≡ []
    → IsSilent attempt round
    → receive_round attempt round worker ≡ goes_on worker
unfolding may_wait look alive
silent_round attempt round worker living empty silent =
    let waited : may_wait attempt round worker ≡ goes_on worker = ground (arith, silent, living) in
    ap (λ first. and_then first (may_wait attempt round))
      (silent_look attempt round round.reads worker empty silent.no_reads)
    ∙ waited

-- How an attempt ends whose worker has said nothing: stopped before cancelled, that before its time
-- is up, with the text for what was to come first, the attempt's timeout or the Work's deadline.
pub data IsGivenUp (attempt : Attempt) (last : ReceiveRound) : WorkerOutcome → Type 0 where
  stopped :
      last.stopping ≡ true
      → IsGivenUp attempt last
          (record { kind = WorkerOutcomeKind.stopped; payload = []; technical_failure = [] })
  cancelled :
      last.stopping ≡ false
      → last.cancelled ≡ true
      → IsGivenUp attempt last (record {
        kind = WorkerOutcomeKind.cancelled;
        payload = [];
        technical_failure = codes "cancelled";
      })
  timed_out :
      last.stopping ≡ false
      → last.cancelled ≡ false
      → (t : ℕ) × (attempt.stop_at_ms ≡ some t) × (t ≤ last.now)
      → attempt.timeout_wins ≡ true
      → IsGivenUp attempt last (record {
        kind = WorkerOutcomeKind.timed_out;
        payload = [];
        technical_failure = codes "ATTEMPT_TIMEOUT: per-attempt timeout expired";
      })
  expired :
      last.stopping ≡ false
      → last.cancelled ≡ false
      → (t : ℕ) × (attempt.stop_at_ms ≡ some t) × (t ≤ last.now)
      → attempt.timeout_wins ≡ false
      → IsGivenUp attempt last (record {
        kind = WorkerOutcomeKind.timed_out;
        payload = [];
        technical_failure = codes "DEADLINE_EXPIRED: Work deadline expired during attempt";
      })

-- The attempt has ended so, and the worker is gone.
pub record IsEndedBy (attempt : Attempt) (last : ReceiveRound) (turn : Progress WorkerProcess)
    : Type 0 where
  pub outcome : WorkerOutcome
  pub worker : WorkerProcess
  pub ended : turn ≡ ends outcome worker
  pub given_up : IsGivenUp attempt last outcome
  pub gone : IsGone worker

is_late :
    (stop_at : Option ℕ) (now : ℕ)
    → Fits stop_at
    → IsNat63 now
    → time_is_up stop_at now ≡ true
    → (t : ℕ) × (stop_at ≡ some t) × (t ≤ now)
is_late none now hs hn e = absurd (cc e)
is_late (some t) now hs hn e = (t, refl, ground arith)

killed :
    (attempt : Attempt) (last : ReceiveRound) (outcome : WorkerOutcome) (worker : WorkerProcess)
    → IsGivenUp attempt last outcome
    → IsEndedBy attempt last (kill last.killed outcome worker)
killed attempt last outcome worker g = record {
  outcome = outcome;
  worker = terminate last.killed worker;
  ended = refl;
  given_up = g;
  gone = terminate-IsGone last.killed worker;
}

silent_give_up :
    (attempt : Attempt) (last : ReceiveRound) (outcome : WorkerOutcome) (worker : WorkerProcess)
    → worker.response_reader ≡ []
    → last.last_reads ≡ []
    → IsGivenUp attempt last outcome
    → IsEndedBy attempt last (give_up attempt last outcome worker)
silent_give_up attempt last outcome worker empty nothing g =
    subst (λ first. IsEndedBy attempt last (and_then first (kill last.killed outcome)))
      (sym (silent_look attempt last last.last_reads worker empty nothing))
      (killed attempt last outcome worker g)

timeout-IsGivenUp :
    (attempt : Attempt) (last : ReceiveRound)
    → last.stopping ≡ false
    → last.cancelled ≡ false
    → (t : ℕ) × (attempt.stop_at_ms ≡ some t) × (t ≤ last.now)
    → IsGivenUp attempt last (timeout attempt)
timeout-IsGivenUp attempt last run wanted late =
    by_test
      (λ text.
        IsGivenUp attempt last
          (record { kind = WorkerOutcomeKind.timed_out; payload = []; technical_failure = text }))
      attempt.timeout_wins _ _ (IsGivenUp.timed_out run wanted late)
      (IsGivenUp.expired run wanted late)

last_round :
    (attempt : Attempt) (last : ReceiveRound) (worker : WorkerProcess)
    → worker.response_reader ≡ []
    → last.last_reads ≡ []
    → Fits attempt.stop_at_ms
    → IsNat63 last.now
    → ends_receiving attempt last ≡ true
    → IsEndedBy attempt last (may_wait attempt last worker)
unfolding may_wait
last_round attempt last worker empty nothing hs hn over =
    by_test (IsEndedBy attempt last) last.stopping _ _
      (λ stop. killed attempt last _ worker (IsGivenUp.stopped stop))
      (λ run.
        by_test (IsEndedBy attempt last) last.cancelled _ _
          (λ dropped.
            silent_give_up attempt last _ worker empty nothing (IsGivenUp.cancelled run dropped))
          (λ wanted.
            let late : time_is_up attempt.stop_at_ms last.now ≡ true = ground (arith, over) in
            rw late (
              silent_give_up attempt last _ worker empty nothing
                (timeout-IsGivenUp attempt last run wanted (is_late _ _ hs hn late)))))

-- Rounds in which a living worker says nothing, before one in which it still has said nothing and
-- the attempt is to end: it ends there, as stopped by the Kernel, else as cancelled, else as timed
-- out, with the text of the timeout or of the deadline, whichever was to come first; and the worker
-- is gone. The times are not negative.
pub receive-IsEndedBy :
    (attempt : Attempt) (worker : WorkerProcess) (earlier rounds : List ReceiveRound)
    (last : ReceiveRound)
    → (p : ℕ) × (worker.pid ≡ some p)
    → worker.response_reader ≡ []
    → All (IsSilent attempt) earlier
    → (last.reads ≡ []) × (last.last_reads ≡ [])
    → Fits attempt.stop_at_ms
    → IsNat63 last.now
    → ends_receiving attempt last ≡ true
    → IsEndedBy attempt last (receive attempt (earlier ++ (last ∷ rounds)) worker)
unfolding receive
receive-IsEndedBy attempt worker [] rounds last living empty silent quiet hs hn over =
    let looked : may_wait attempt last worker ≡ receive_round attempt last worker = sym (
      ap (λ first. and_then first (may_wait attempt last))
        (silent_look attempt last last.reads worker empty quiet.0)) in
    let end = last_round attempt last worker empty quiet.1 hs hn over in
    record {
      outcome = end.outcome;
      worker = end.worker;
      ended = ap (λ first. and_then first (receive attempt rounds)) (sym looked ∙ end.ended);
      given_up = end.given_up;
      gone = end.gone;
    }
receive-IsEndedBy attempt worker (round ∷ earlier) rounds last living empty silent quiet hs hn
      over =
    subst
      (λ first.
        IsEndedBy attempt last (and_then first (receive attempt (earlier ++ (last ∷ rounds)))))
      (sym (silent_round attempt round worker living empty silent.0))
      (receive-IsEndedBy attempt worker earlier rounds last living empty silent.1 quiet hs hn over)
