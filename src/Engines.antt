-- ===== src/Engines.antt =====
-- kernel/src/main.cpp: the engines that the Kernel knows, the lists of names that describe them,
-- and the choice of an engine for a Work.
pub mod Csv
pub mod Inventory
pub mod Selection
pub mod Choice
pub mod Failure
use madre.Base.{
  ℕ, ◌*◌, List, [], ◌∷◌, ◌++◌, Option, none, some, Bool, true, false, not, ◌==◌, Text, codes,
  is_empty, text_eq, any_of, all_of, keep_if, split_on, if◌then◌else◌,
}
use madre.Store.{WorkRecord, Effort}
use madre.Resources.{ResourceRequirement}

-- Every piece between the commas that is not empty.
unfoldable pub split_csv : Text → List Text
split_csv csv = keep_if (λ piece. not (is_empty piece)) (split_on b',' csv)

abbrev pub joined : List Text → Text
joined [] = []
joined (value ∷ values) = b',' ∷ (value ++ joined values)

unfoldable pub join_csv : List Text → Text
join_csv [] = []
join_csv (value ∷ values) = value ++ joined values

unfoldable pub contains : List Text → Text → Bool
contains values value = any_of (λ item. text_eq item value) values

unfoldable pub contains_all : List Text → List Text → Bool
contains_all available required = all_of (λ item. contains available item) required

pub record EngineDescriptorFacts : Type 0 where
  pub id : Text
  pub work_types : List Text
  pub capabilities : List Text
  pub model_ids : List Text
  pub supported_efforts : List Text
  pub placement : Text
  pub availability : Text
  pub resources : ResourceRequirement

pub record SelectedEngine : Type 0 where
  pub engine : EngineDescriptorFacts
  pub model_id : Text

pub record SelectionResult : Type 0 where
  pub selection : Option SelectedEngine
  pub failure : Text

-- The column's text.
abbrev pub effort_text : Effort → Text
effort_text Effort.standard = codes "STANDARD"
effort_text Effort.high = codes "HIGH"

abbrev pub no_engine : Text → SelectionResult
no_engine failure = record { selection = none; failure = failure }

-- `if (candidates.empty()) return {nullopt, failure};`
abbrev pub unless_empty : List EngineDescriptorFacts → Text → SelectionResult → SelectionResult
unless_empty [] failure later = no_engine failure
unless_empty (_ ∷ _) failure later = later

-- The tests of the stages, in their order.
unfoldable pub supports_type : WorkRecord → EngineDescriptorFacts → Bool
supports_type work engine = contains engine.work_types work.work_type

unfoldable pub is_capable : WorkRecord → EngineDescriptorFacts → Bool
is_capable work engine = contains_all engine.capabilities (split_csv work.required_capabilities)

abbrev pub in_allowlist : List Text → Text → Bool
in_allowlist [] id = true
in_allowlist (first ∷ rest) id = contains (first ∷ rest) id

unfoldable pub is_allowed : WorkRecord → EngineDescriptorFacts → Bool
is_allowed work engine = in_allowlist (split_csv work.eligible_engine_ids) engine.id

unfoldable pub is_exact_engine : WorkRecord → EngineDescriptorFacts → Bool
is_exact_engine work engine =
    if is_empty work.exact_engine_id then true else text_eq engine.id work.exact_engine_id

unfoldable pub has_exact_model : WorkRecord → EngineDescriptorFacts → Bool
has_exact_model work engine =
    if is_empty work.exact_model_id then true else contains engine.model_ids work.exact_model_id

unfoldable pub supports_effort : WorkRecord → EngineDescriptorFacts → Bool
supports_effort work engine = contains engine.supported_efforts (effort_text work.effort)

unfoldable pub is_available : EngineDescriptorFacts → Bool
is_available engine = text_eq engine.availability (codes "AVAILABLE")

abbrev pub first_or_empty : List Text → Text
first_or_empty [] = []
first_or_empty (model ∷ _) = model

-- The model that goes with the selected engine.
unfoldable pub model_for : WorkRecord → EngineDescriptorFacts → Text
model_for work engine =
    if is_empty work.exact_model_id then first_or_empty engine.model_ids else work.exact_model_id

abbrev pub select_front : WorkRecord → List EngineDescriptorFacts → SelectionResult
select_front work [] = no_engine []
select_front work (engine ∷ _) = record {
  selection = some (record { engine = engine; model_id = model_for work engine });
  failure = [];
}

abbrev pub no_type : WorkRecord → Text
no_type work = codes "NO_ELIGIBLE_ENGINE: no engine supports Work type " ++ work.work_type

abbrev pub no_capability : Text
no_capability = codes "NO_ELIGIBLE_ENGINE: required capabilities are not satisfied"

abbrev pub not_allowed : Text
not_allowed = codes "NO_ELIGIBLE_ENGINE: eligible engine allowlist excluded all compatible engines"

abbrev pub not_exact : Text
not_exact = codes "EXACT_SELECTION_UNSATISFIED: exact engine/model constraint did not match"

abbrev pub no_effort : WorkRecord → Text
no_effort work =
    codes "NO_ELIGIBLE_ENGINE: requested effort "
    ++ (effort_text work.effort ++ codes " is unsupported")

abbrev pub not_available : Text
not_available = codes "NO_ELIGIBLE_ENGINE: compatible engines are unavailable"

unfoldable pub select_engine : WorkRecord → List EngineDescriptorFacts → SelectionResult
select_engine work inventory =
    let typed = keep_if (supports_type work) inventory in
    let capable = keep_if (is_capable work) typed in
    let allowed = keep_if (is_allowed work) capable in
    let exact = keep_if (has_exact_model work) (keep_if (is_exact_engine work) allowed) in
    let effortful = keep_if (supports_effort work) exact in
    let available = keep_if is_available effortful in
    unless_empty typed (no_type work) (
      unless_empty capable no_capability (
        unless_empty allowed not_allowed (
          unless_empty exact not_exact (
            unless_empty effortful (no_effort work)
              (unless_empty available not_available (select_front work available))))))
