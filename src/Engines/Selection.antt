-- ===== src/Engines/Selection.antt =====
-- Which engine `select_engine` takes.
use madre.Base.{
  ◌≡◌, ◌∙◌, inl, inr, refl, ap, List, [], ◌∷◌, Option, none, some, Bool, ◌&&◌, Text, keep_if,
  find_if, Bool-cases,
}
use madre.Store.{WorkRecord}
use madre.Engines.{
  EngineDescriptorFacts, SelectedEngine, SelectionResult, supports_type, is_capable, is_allowed,
  is_exact_engine, has_exact_model, supports_effort, is_available, model_for, select_engine,
  unless_empty, select_front, not_available,
}

-- What a Work asks of an engine, all at once.
abbrev pub serves : WorkRecord → EngineDescriptorFacts → Bool
serves work engine =
    supports_type work engine
    && (is_capable work engine
        && (is_allowed work engine
            && (is_exact_engine work engine
                && (has_exact_model work engine
                    && (supports_effort work engine && is_available engine)))))

abbrev pub selected : WorkRecord → EngineDescriptorFacts → SelectedEngine
selected work engine = record { engine = engine; model_id = model_for work engine }

abbrev pub select_option : WorkRecord → Option EngineDescriptorFacts → Option SelectedEngine
select_option work none = none
select_option work (some engine) = some (selected work engine)

pub keep_if-keep_if {ℓ} :
    {A : Type ℓ} (p q : A → Bool) (xs : List A)
    → keep_if p (keep_if q xs) ≡ keep_if (λ x. q x && p x) xs
unfolding keep_if
keep_if-keep_if p q [] = refl
keep_if-keep_if p q (x ∷ xs) = elim (Bool-cases (q x)) [
  | inl good ↦ rw good (rw (keep_if-keep_if p q xs) refl)
  | inr bad ↦ rw bad (keep_if-keep_if p q xs)
]

select_front-keep_if :
    (work : WorkRecord) (p : EngineDescriptorFacts → Bool) (xs : List EngineDescriptorFacts)
    → (select_front work (keep_if p xs)).selection ≡ select_option work (find_if p xs)
unfolding keep_if find_if
select_front-keep_if work p [] = refl
select_front-keep_if work p (x ∷ xs) = elim (Bool-cases (p x)) [
  | inl good ↦ rw good refl
  | inr bad ↦ rw bad (select_front-keep_if work p xs)
]

-- Stopping at an empty stage gives what the later stages would.
unless_empty_lem :
    (work : WorkRecord) (stage : List EngineDescriptorFacts) (failure : Text)
    (later : SelectionResult) (p : EngineDescriptorFacts → Bool)
    → later.selection ≡ select_option work (find_if p stage)
    → (unless_empty stage failure later).selection ≡ select_option work (find_if p stage)
unfolding find_if
unless_empty_lem work [] failure later p h = refl
unless_empty_lem work (x ∷ xs) failure later p h = h

find_if-keep_if {ℓ} :
    {A : Type ℓ} (p q : A → Bool) (xs : List A)
    → find_if p (keep_if q xs) ≡ find_if (λ x. q x && p x) xs
unfolding find_if keep_if
find_if-keep_if p q [] = refl
find_if-keep_if p q (x ∷ xs) = elim (Bool-cases (q x)) [
  | inl good ↦ rw good (rw (find_if-keep_if p q xs) refl)
  | inr bad ↦ rw bad (find_if-keep_if p q xs)
]

stage_lem :
    (work : WorkRecord) (q p : EngineDescriptorFacts → Bool) (stage : List EngineDescriptorFacts)
    (failure : Text) (later : SelectionResult)
    → later.selection ≡ select_option work (find_if p (keep_if q stage))
    → (unless_empty (keep_if q stage) failure later).selection
      ≡ select_option work (find_if (λ x. q x && p x) stage)
stage_lem work q p stage failure later h =
    unless_empty_lem work (keep_if q stage) failure later p h
    ∙ ap (select_option work) (find_if-keep_if p q stage)

front_lem :
    (work : WorkRecord) (failure : Text) (stage : List EngineDescriptorFacts)
    → (unless_empty stage failure (select_front work stage)).selection
      ≡ (select_front work stage).selection
front_lem work failure [] = refl
front_lem work failure (x ∷ xs) = refl

-- The engine selected is the first of the inventory that serves the Work, with the exact model that
-- the Work asks for or else the engine's first; there is no selection exactly when no engine
-- serves it.
pub select_engine_lem :
    (work : WorkRecord) (inventory : List EngineDescriptorFacts)
    → (select_engine work inventory).selection
      ≡ select_option work (find_if (serves work) inventory)
unfolding select_engine
select_engine_lem work inventory =
    let typed = keep_if (supports_type work) inventory in
    let capable = keep_if (is_capable work) typed in
    let allowed = keep_if (is_allowed work) capable in
    let exact_engine = keep_if (is_exact_engine work) allowed in
    let exact = keep_if (has_exact_model work) exact_engine in
    let effortful = keep_if (supports_effort work) exact in
    stage_lem work (supports_type work) _ inventory _ _ (
      stage_lem work (is_capable work) _ typed _ _ (
        stage_lem work (is_allowed work) _ capable _ _ (
          stage_lem work (has_exact_model work) _ exact_engine _ _ (
            stage_lem work (supports_effort work) is_available exact _ _ (
              front_lem work not_available (keep_if is_available effortful)
              ∙ select_front-keep_if work is_available effortful))
          ∙ ap (select_option work) (
              find_if-keep_if
                (λ engine.
                  has_exact_model work engine
                  && (supports_effort work engine && is_available engine))
                (is_exact_engine work) allowed))))
