-- ===== src/Store/Evolution/Runs.antt =====
-- Every call moves the row of an id along `Evolves`, and what that says of a history of calls.
use madre.Base.{◌≡◌, refl, List, [], ◌∷◌, some, true, Text, arith}
use madre.Store.{WorkRecord, WorkStore}
use madre.Store.Completion.{recover_interrupted}
use madre.Store.History.{
  Call, submits, expires, fails, begins, succeeds, stops, breaks, recovers, cancels, acknowledges,
  step, run,
}
use madre.Store.Rows.{row}
use madre.Store.Evolution.{is_terminal, Evolves}
use madre.Store.Evolution.Recovers.{recover_rows-Evolves}
use madre.Store.Evolution.Calls.{
  acknowledge-Evolves, begin-Evolves, break-Evolves, cancel-Evolves, expire-Evolves, fail-Evolves,
  stop-Evolves, submit-Evolves, success-Evolves,
}

-- Whatever call is made, the row of an id changes in the ways that `Evolves` lists.
pub step-Evolves :
    (db : WorkStore) (c : Call) (id : Text) (v : WorkRecord)
    → row id db ≡ some v
    → (w : WorkRecord) × (row id (step db c) ≡ some w) × Evolves v w
step-Evolves db (submits errmsg r) id v e = submit-Evolves id v errmsg r db e
step-Evolves db (expires now) id v e = expire-Evolves id v now db e
step-Evolves db (fails i failure) id v e = fail-Evolves id v i failure db e
step-Evolves db (begins errmsg i engine_id model_id at) id v e =
    begin-Evolves id v errmsg i engine_id model_id at db e
step-Evolves db (succeeds i n at) id v e = success-Evolves id v i n at db e
step-Evolves db (stops i n at) id v e = stop-Evolves id v i n at db e
step-Evolves db (breaks i n s failure at) id v e = break-Evolves id v i n s failure at db e
step-Evolves db (recovers now) id v e =
    unfold step recover_interrupted in recover_rows-Evolves now id _ v db e
step-Evolves db (cancels i) id v e = cancel-Evolves id v i db e
step-Evolves db (acknowledges i) id v e = acknowledge-Evolves id v i db e

-- Once Work has succeeded, failed or been cancelled, no history of calls changes anything of its
-- row but the acknowledgement of its result.
pub run_terminal :
    (cs : List Call) (db : WorkStore) (id : Text) (v : WorkRecord)
    → row id db ≡ some v
    → is_terminal v.state ≡ true
    → (w : WorkRecord) × (row id (run db cs) ≡ some w)
      × (w ≡ record v { acknowledged = w.acknowledged })
unfolding run
run_terminal [] db id v e t = (v, e, refl)
run_terminal (c ∷ cs) db id v e t =
    let (u, eu, g) = step-Evolves db c id v e in
    let kept = g.frozen t in
    let (w, ew, same) = run_terminal cs (step db c) id u eu (ground arith) in (w, ew, ground arith)

-- What a row keeps over any history: all that the client submitted, a request to cancel, and
-- an acknowledgement.
pub record Keeps (v w : WorkRecord) : Type 0 where
  pub fixed : w ≡ record v {
    state = w.state;
    next_attempt_at_ms = w.next_attempt_at_ms;
    attempt_count = w.attempt_count;
    acknowledged = w.acknowledged;
    cancel_requested = w.cancel_requested;
    selected_engine_id = w.selected_engine_id;
    selected_model_id = w.selected_model_id;
    technical_failure = w.technical_failure;
  }
  pub cancel_kept : v.cancel_requested ≡ true → w.cancel_requested ≡ true
  pub acknowledged_kept : v.acknowledged ≡ true → w.acknowledged ≡ true

Keeps-trans : (u v w : WorkRecord) → Keeps u v → Keeps v w → Keeps u w
Keeps-trans u v w g h = ground arith

pub run-Keeps :
    (cs : List Call) (db : WorkStore) (id : Text) (v : WorkRecord)
    → row id db ≡ some v
    → (w : WorkRecord) × (row id (run db cs) ≡ some w) × Keeps v w
unfolding run
run-Keeps [] db id v e = (v, e, ground arith)
run-Keeps (c ∷ cs) db id v e =
    let (u, eu, g) = step-Evolves db c id v e in
    let first : Keeps v u = record {
      fixed = g.fixed;
      cancel_kept = g.cancel_kept;
      acknowledged_kept = g.acknowledged_kept;
    } in
    let (w, ew, rest) = run-Keeps cs (step db c) id u eu in (w, ew, Keeps-trans v u w first rest)
