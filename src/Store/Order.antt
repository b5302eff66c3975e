-- ===== src/Store/Order.antt =====
-- The order in which the Work that is due is taken, by its urgency and its age (`next_eligible`).
use madre.Base.{
  ℕ, ◌≡◌, ◌↔◌, ◌⊎◌, ◌≤◌, ◌<◌, refl, List, ◌∷◌, ◌++◌, some, true, false, arith, All, ltb, ◌==◌,
  IsNat63, lt_i64-ltb,
}
use madre.Store.{Urgency, WorkState, WorkRecord, WorkStore}
use madre.Store.Operations.{is_eligible, sorts_before, urgency_rank, next_eligible}
use madre.Store.Schedule.{next_eligible-IsFirst, All-zip, All-split}

-- Somebody waits before it can wait, and that before what nobody waits for.
abbrev pub IsMoreUrgent : Urgency → Urgency → Type 0
IsMoreUrgent Urgency.interactive Urgency.interactive = ⊥
IsMoreUrgent Urgency.interactive _ = Unit
IsMoreUrgent Urgency.normal Urgency.background = Unit
IsMoreUrgent _ _ = ⊥

-- More urgent, or as urgent and older.
abbrev pub Precedes : WorkRecord → WorkRecord → Type 0
Precedes v u =
    IsMoreUrgent v.urgency u.urgency
    ⊎ ((v.urgency ≡ u.urgency) × (v.created_at_ms < u.created_at_ms))

-- Queued Work that nobody has cancelled and whose times have come.
pub record IsDue (now : ℕ) (v : WorkRecord) : Type 0 where
  pub queued : v.state ≡ WorkState.queued
  pub wanted : v.cancel_requested ≡ false
  pub eligible : v.eligible_at_ms ≤ now
  pub retried : v.next_attempt_at_ms ≤ now

-- The times of a row are not negative.
pub record IsTimed (v : WorkRecord) : Type 0 where
  pub created : IsNat63 v.created_at_ms
  pub eligible : IsNat63 v.eligible_at_ms
  pub retried : IsNat63 v.next_attempt_at_ms

rank_iff : (a b : Urgency) → (ltb (urgency_rank a) (urgency_rank b) ≡ true) ↔ IsMoreUrgent a b
rank_iff Urgency.interactive Urgency.interactive = ground arith
rank_iff Urgency.interactive Urgency.normal = ground arith
rank_iff Urgency.interactive Urgency.background = ground arith
rank_iff Urgency.normal Urgency.interactive = ground arith
rank_iff Urgency.normal Urgency.normal = ground arith
rank_iff Urgency.normal Urgency.background = ground arith
rank_iff Urgency.background Urgency.interactive = ground arith
rank_iff Urgency.background Urgency.normal = ground arith
rank_iff Urgency.background Urgency.background = ground arith

rank_injective : (a b : Urgency) → (urgency_rank a == urgency_rank b) ≡ true → a ≡ b
rank_injective Urgency.interactive Urgency.interactive e = refl
rank_injective Urgency.interactive Urgency.normal e = cc
rank_injective Urgency.interactive Urgency.background e = cc
rank_injective Urgency.normal Urgency.interactive e = cc
rank_injective Urgency.normal Urgency.normal e = refl
rank_injective Urgency.normal Urgency.background e = cc
rank_injective Urgency.background Urgency.interactive e = cc
rank_injective Urgency.background Urgency.normal e = cc
rank_injective Urgency.background Urgency.background e = refl

sorts_before_iff :
    (v u : WorkRecord) → IsTimed v → IsTimed u → (sorts_before v u ≡ true) ↔ Precedes v u
unfolding sorts_before
sorts_before_iff v u hv hu =
    let (urgent, is_urgent) = rank_iff v.urgency u.urgency in
    let older = lt_i64-ltb v.created_at_ms u.created_at_ms hv.created hu.created in
    let same = rank_injective v.urgency u.urgency in
    rw older (ground (arith, urgent, same), ground (arith, is_urgent))

is_eligible_iff :
    (now : ℕ) (v : WorkRecord) → IsNat63 now → IsTimed v → (is_eligible now v ≡ true) ↔ IsDue now v
unfolding is_eligible
is_eligible_iff now v hn hv = (
  λ e. record {
    queued = ground arith;
    wanted = ground arith;
    eligible = ground arith;
    retried = ground arith;
  },
  λ d. ground (arith, d.queued, d.wanted, d.eligible, d.retried),
)

-- `w` is the row of the table that is due and comes first: rows before it in the table that are due
-- come after it, and those behind it do not come before it.
pub record IsNext (now : ℕ) (rows : List WorkRecord) (w : WorkRecord) : Type 0 where
  pub before : List WorkRecord
  pub behind : List WorkRecord
  pub splits : rows ≡ before ++ (w ∷ behind)
  pub due : IsDue now w
  pub beats : All (λ v. IsDue now v → Precedes w v) before
  pub unbeaten : All (λ v. IsDue now v → Precedes v w → ⊥) behind

-- The scheduler is given Work that is queued, not cancelled and due: of such Work the most urgent,
-- in a class of urgency the oldest, and of equally old Work the one inserted first. The times of
-- the rows and of the clock are not negative.
pub next_eligible-IsNext :
    (now : ℕ) (db : WorkStore) (w : WorkRecord)
    → IsNat63 now
    → All IsTimed db.work
    → next_eligible now db ≡ some w
    → IsNext now db.work w
next_eligible-IsNext now db w hn timed e =
    let f = next_eligible-IsFirst now db w e in
    let (timed_before, timed_rest) =
      All-split IsTimed f.before (w ∷ f.behind) (rw f.splits at timed) in
    record {
      before = f.before;
      behind = f.behind;
      splits = f.splits;
      due = (is_eligible_iff now w hn timed_rest.0).0 f.passes;
      beats =
          All-zip _ _ _ f.before
            (λ v t h due.
              (sorts_before_iff w v timed_rest.0 t).0 (h ((is_eligible_iff now v hn t).1 due)))
            timed_before f.beats;
      unbeaten =
          All-zip _ _ _ f.behind
            (λ v t h due precedes. cc (
              (sorts_before_iff v w t timed_rest.0).1 precedes,
              h ((is_eligible_iff now v hn t).1 due),
            ))
            timed_rest.1 f.unbeaten;
    }
