-- ===== src/Engines/Failure.antt =====
-- Why `select_engine` selects nothing.
use madre.Base.{List, [], ◌∷◌, Bool, ◌&&◌, Text, any_of, if◌then◌else◌}
use madre.Store.{WorkRecord}
use madre.Engines.{
  EngineDescriptorFacts, supports_type, is_capable, is_allowed, is_exact_engine, has_exact_model,
  supports_effort, is_available, no_type, no_capability, not_allowed, not_exact, no_effort,
  not_available,
}

abbrev pub Test : Type 0
Test = EngineDescriptorFacts → Bool

abbrev pub both : Test → Test → Test
both p q engine = p engine && q engine

-- What a Work asks for, with what it is told when no engine has it.
abbrev pub requirements : WorkRecord → List (Test × Text)
requirements work =
    (supports_type work, no_type work)
    ∷ (is_capable work, no_capability)
    ∷ (is_allowed work, not_allowed)
    ∷ (both (is_exact_engine work) (has_exact_model work), not_exact)
    ∷ (supports_effort work, no_effort work)
    ∷ (is_available, not_available)
    ∷ []

-- The first of them that no engine meets together with those before it.
abbrev pub first_unmet : List (Test × Text) → Test → List EngineDescriptorFacts → Text
first_unmet [] before inventory = []
first_unmet ((p, failure) ∷ rest) before inventory =
    if any_of (both before p) inventory then first_unmet rest (both before p) inventory else failure
