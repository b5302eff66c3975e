-- ===== src/Engines/Choice.antt =====
-- The engine and the model that `select_engine` chooses, in terms of what the Work asks for.
use madre.Base.{
  ◌≡◌, ◌≢◌, ◌↔◌, ◌⊎◌, inl, inr, refl, ap, List, [], ◌∷◌, ◌++◌, Option, none, some, true, Text,
  codes, find_if, Bool-cases, All, arith, text_eq_iff, any_of, all_of, by_test, is_empty,
}
use mathlib.Core.Path.{subst}
use madre.Store.{WorkRecord, Effort}
use madre.Engines.{
  EngineDescriptorFacts, SelectedEngine, select_engine, split_csv, contains, contains_all,
  supports_type, is_capable, is_allowed, is_exact_engine, has_exact_model, supports_effort,
  is_available, model_for, effort_text, in_allowlist, first_or_empty,
}
use madre.Engines.Selection.{serves, select_option, select_engine_lem}

-- The name of an effort in an engine's list.
abbrev effort_name : Effort → Text
effort_name Effort.standard = codes "STANDARD"
effort_name Effort.high = codes "HIGH"

abbrev pub Lists : List Text → Text → Type 0
Lists [] name = ⊥
Lists (item ∷ rest) name = (item ≡ name) ⊎ Lists rest name

-- What the Work asks of an engine. An empty list of engines, an empty engine and an empty model ask
-- for nothing.
pub record Serves (work : WorkRecord) (engine : EngineDescriptorFacts) : Type 0 where
  pub work_type : Lists engine.work_types work.work_type
  pub capable : All (Lists engine.capabilities) (split_csv work.required_capabilities)
  pub allowed :
      (split_csv work.eligible_engine_ids ≡ [])
      ⊎ Lists (split_csv work.eligible_engine_ids) engine.id
  pub exact_engine : (work.exact_engine_id ≡ []) ⊎ (engine.id ≡ work.exact_engine_id)
  pub exact_model : (work.exact_model_id ≡ []) ⊎ Lists engine.model_ids work.exact_model_id
  pub effort : Lists engine.supported_efforts (effort_name work.effort)
  pub available : engine.availability ≡ codes "AVAILABLE"

-- The model: the one that the Work asks for, or else the engine's first, if it has one.
pub data IsModel (work : WorkRecord) (engine : EngineDescriptorFacts) : Text → Type 0 where
  as_asked : work.exact_model_id ≢ [] → IsModel work engine work.exact_model_id
  front_model :
      (model : Text) (others : List Text)
      → work.exact_model_id ≡ []
      → engine.model_ids ≡ model ∷ others
      → IsModel work engine model
  unnamed : work.exact_model_id ≡ [] → engine.model_ids ≡ [] → IsModel work engine []

contains_iff : (names : List Text) (name : Text) → (contains names name ≡ true) ↔ Lists names name
unfolding contains any_of
contains_iff [] name = ground arith
contains_iff (item ∷ rest) name = ground (arith, text_eq_iff item name, contains_iff rest name)

contains_all_iff :
    (available required : List Text)
    → (contains_all available required ≡ true) ↔ All (Lists available) required
unfolding contains_all all_of
contains_all_iff available [] = ground arith
contains_all_iff available (name ∷ rest) =
    ground (arith, contains_iff available name, contains_all_iff available rest)

is_empty_iff : (s : Text) → (is_empty s ≡ true) ↔ (s ≡ [])
unfolding is_empty
is_empty_iff [] = ground arith
is_empty_iff (c ∷ s) = (λ e. absurd (cc e), λ e. absurd (cc e))

effort_same : (e : Effort) → effort_text e ≡ effort_name e
effort_same Effort.standard = refl
effort_same Effort.high = refl

allowed_iff :
    (work : WorkRecord) (engine : EngineDescriptorFacts)
    → (is_allowed work engine ≡ true) ↔ (
        (split_csv work.eligible_engine_ids ≡ [])
        ⊎ Lists (split_csv work.eligible_engine_ids) engine.id)
unfolding is_allowed
allowed_iff work engine = by_list (split_csv work.eligible_engine_ids)
  where
    by_list :
        (names : List Text)
        → (in_allowlist names engine.id ≡ true) ↔ ((names ≡ []) ⊎ Lists names engine.id)
    by_list [] = (λ e. inl refl, λ h. refl)
    by_list (name ∷ names) = ground (arith, contains_iff (name ∷ names) engine.id)

model_for-IsModel :
    (work : WorkRecord) (engine : EngineDescriptorFacts)
    → IsModel work engine (model_for work engine)
unfolding model_for
model_for-IsModel work engine =
    by_test (IsModel work engine) (is_empty work.exact_model_id) _ _
      (λ free. by_models engine.model_ids refl ((is_empty_iff work.exact_model_id).0 free))
      (λ asked. IsModel.as_asked (λ e. cc (asked, (is_empty_iff work.exact_model_id).1 e)))
  where
    by_models :
        (models : List Text)
        → engine.model_ids ≡ models
        → work.exact_model_id ≡ []
        → IsModel work engine (first_or_empty models)
    by_models [] e free = IsModel.unnamed free e
    by_models (model ∷ others) e free = IsModel.front_model model others free e

exact_engine_iff :
    (work : WorkRecord) (engine : EngineDescriptorFacts)
    → (is_exact_engine work engine ≡ true)
      ↔ ((work.exact_engine_id ≡ []) ⊎ (engine.id ≡ work.exact_engine_id))
unfolding is_exact_engine
exact_engine_iff work engine =
    ground (arith, is_empty_iff work.exact_engine_id, text_eq_iff engine.id work.exact_engine_id)

exact_model_iff :
    (work : WorkRecord) (engine : EngineDescriptorFacts)
    → (has_exact_model work engine ≡ true)
      ↔ ((work.exact_model_id ≡ []) ⊎ Lists engine.model_ids work.exact_model_id)
unfolding has_exact_model
exact_model_iff work engine =
    ground
      (arith, is_empty_iff work.exact_model_id, contains_iff engine.model_ids work.exact_model_id)

effort_iff :
    (work : WorkRecord) (engine : EngineDescriptorFacts)
    → (supports_effort work engine ≡ true)
      ↔ Lists engine.supported_efforts (effort_name work.effort)
unfolding supports_effort
effort_iff work engine =
    subst
      (λ name.
        (contains engine.supported_efforts (effort_text work.effort) ≡ true)
        ↔ Lists engine.supported_efforts name)
      (effort_same work.effort) (contains_iff engine.supported_efforts (effort_text work.effort))

serves-Serves :
    (work : WorkRecord) (engine : EngineDescriptorFacts)
    → serves work engine ≡ true
    → Serves work engine
unfolding supports_type is_capable is_available
serves-Serves work engine e = record {
  work_type = (contains_iff engine.work_types work.work_type).0 (ground (arith, e));
  capable =
      (contains_all_iff engine.capabilities (split_csv work.required_capabilities)).0
        (ground (arith, e));
  allowed = (allowed_iff work engine).0 (ground (arith, e));
  exact_engine = (exact_engine_iff work engine).0 (ground (arith, e));
  exact_model = (exact_model_iff work engine).0 (ground (arith, e));
  effort = (effort_iff work engine).0 (ground (arith, e));
  available = (text_eq_iff engine.availability (codes "AVAILABLE")).0 (ground (arith, e));
}

Serves-serves :
    (work : WorkRecord) (engine : EngineDescriptorFacts)
    → Serves work engine
    → serves work engine ≡ true
unfolding supports_type is_capable is_available
Serves-serves work engine s = ground (
  arith,
  (contains_iff engine.work_types work.work_type).1 s.work_type,
  (contains_all_iff engine.capabilities (split_csv work.required_capabilities)).1 s.capable,
  (allowed_iff work engine).1 s.allowed,
  (exact_engine_iff work engine).1 s.exact_engine,
  (exact_model_iff work engine).1 s.exact_model,
  (effort_iff work engine).1 s.effort,
  (text_eq_iff engine.availability (codes "AVAILABLE")).1 s.available,
)

-- What is chosen for the Work from an inventory.
pub data IsChoice (work : WorkRecord) (inventory : List EngineDescriptorFacts)
    : Option SelectedEngine → Type 0 where
  taken :
      (before behind : List EngineDescriptorFacts) (engine : EngineDescriptorFacts) (model : Text)
      → inventory ≡ before ++ (engine ∷ behind)
      → All (λ other. Serves work other → ⊥) before
      → Serves work engine
      → IsModel work engine model
      → IsChoice work inventory (some (record { engine = engine; model_id = model }))
  not_served : All (λ other. Serves work other → ⊥) inventory → IsChoice work inventory none

IsChoice-skip :
    (work : WorkRecord) (engine : EngineDescriptorFacts) (inventory : List EngineDescriptorFacts)
    (choice : Option SelectedEngine)
    → (Serves work engine → ⊥)
    → IsChoice work inventory choice
    → IsChoice work (engine ∷ inventory) choice
IsChoice-skip work engine inventory _ n (IsChoice.taken before behind chosen model e all s m) =
    IsChoice.taken (engine ∷ before) behind chosen model (ap (λ rest. engine ∷ rest) e) (n, all) s m
IsChoice-skip work engine inventory _ n (IsChoice.not_served all) = IsChoice.not_served (n, all)

find_if-IsChoice :
    (work : WorkRecord) (inventory : List EngineDescriptorFacts)
    → IsChoice work inventory (select_option work (find_if (serves work) inventory))
unfolding find_if
find_if-IsChoice work [] = IsChoice.not_served tt
find_if-IsChoice work (engine ∷ rest) = elim (Bool-cases (serves work engine)) [
  | inl good ↦ rw good (
      IsChoice.taken [] rest engine (model_for work engine) refl tt (serves-Serves work engine good)
        (model_for-IsModel work engine))
  | inr bad ↦ rw bad (
      IsChoice-skip work engine rest _ (λ s. cc (bad, Serves-serves work engine s))
        (find_if-IsChoice work rest))
]

-- The engine selected is the first of the inventory that has the type, every capability and the
-- effort that the Work asks for, is available and in its list of engines, and is the engine and has
-- the model that it names, where it has such a list or names one; with it goes that model, or else
-- the engine's first. Nothing is selected only if the inventory has no such engine.
pub select_engine-IsChoice :
    (work : WorkRecord) (inventory : List EngineDescriptorFacts)
    → IsChoice work inventory (select_engine work inventory).selection
select_engine-IsChoice work inventory =
    rw (select_engine_lem work inventory) (find_if-IsChoice work inventory)
