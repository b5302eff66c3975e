-- ===== src/Llamacpp/Configured.antt =====
-- The worker's command line: what it accepts, and the arguments that give a configuration.
use mathlib.Core.Path.{subst}
use madre.Base.{
  ℕ, ◌^◌, ◌%◌, ◌≡◌, ◌<◌, inl, inr, refl, List, [], ◌∷◌, true, Text, arith, codes, text_eq,
  to_string, stoi, stoul, stoi-IsU32, stoi-to_string, stoul-to_string, ok, err, Result, ◌>>=◌,
  >>=-eq-ok, ok-injective, Bool-cases, Result-cases,
}
use madre.Llamacpp.{
  Options, default_options, apply_argument, read_arguments, check_options, is_configured,
  parse_options,
}
use madre.Llamacpp.Generated.{IsConfigured}

-- The numbers fit their types.
record IsTyped (options : Options) : Type 0 where
  predict_int : options.n_predict < 2 ^ 32
  context_uint : options.context_size < 2 ^ 32
  layers_int : options.gpu_layers < 2 ^ 32

abbrev AllTyped : Result Options → Type 0
AllTyped (ok options) = IsTyped options
AllTyped (err e) = Unit

stoi-AllTyped :
    (value : Text) (next : ℕ → Options)
    → ((n : ℕ) → n < 2 ^ 32 → IsTyped (next n))
    → AllTyped (stoi value >>= (λ n. ok (next n)))
stoi-AllTyped value next k = elim (Result-cases (stoi value)) [
  | inl (n, e) ↦ rw e (k n (stoi-IsU32 value n e))
  | inr (x, e) ↦ rw e tt
]

stoul-AllTyped :
    (value : Text) (next : ℕ → Options)
    → ((n : ℕ) → n < 2 ^ 32 → IsTyped (next n))
    → AllTyped (stoul value >>= (λ n. ok (next (n % 2 ^ 32))))
stoul-AllTyped value next k = elim (Result-cases (stoul value)) [
  | inl (n, e) ↦ rw e (k (n % 2 ^ 32) (omega arith))
  | inr (x, e) ↦ rw e tt
]

apply_argument-AllTyped :
    (argument value : Text) (options : Options)
    → IsTyped options
    → AllTyped (apply_argument argument value options)
unfolding apply_argument
apply_argument-AllTyped argument value options w =
    elim (Bool-cases (text_eq argument (codes "--engine-id"))) [
      | inl a ↦ rw a (ground arith)
      | inr a ↦ elim (Bool-cases (text_eq argument (codes "--model"))) [
        | inl b ↦ rw (a, b) (ground arith)
        | inr b ↦ elim (Bool-cases (text_eq argument (codes "--n-predict"))) [
          | inl c ↦ rw (a, b, c) (stoi-AllTyped value _ (λ n h. ground arith))
          | inr c ↦ elim (Bool-cases (text_eq argument (codes "--ctx-size"))) [
            | inl d ↦
                rw (a, b, c, d)
                  (stoul-AllTyped value (λ n. record options { context_size = n })
                    (λ n h. ground arith))
            | inr d ↦ elim (Bool-cases (text_eq argument (codes "--gpu-layers"))) [
              | inl f ↦ rw (a, b, c, d, f) (stoi-AllTyped value _ (λ n h. ground arith))
              | inr f ↦ rw (a, b, c, d, f) tt
            ]
          ]
        ]
      ]
    ]

read_arguments-AllTyped :
    (arguments : List Text) (options : Options)
    → IsTyped options
    → AllTyped (read_arguments arguments options)
unfolding read_arguments
read_arguments-AllTyped [] options w = w
read_arguments-AllTyped (argument ∷ []) options w = tt
read_arguments-AllTyped (argument ∷ value ∷ rest) options w =
    elim (Result-cases (apply_argument argument value options)) [
      | inl (next, e) ↦ rw e (
          read_arguments-AllTyped rest next
            (subst AllTyped e (apply_argument-AllTyped argument value options w)))
      | inr (x, e) ↦ rw e tt
    ]

is_configured-IsConfigured :
    (options : Options) → IsTyped options → is_configured options ≡ true → IsConfigured options
is_configured-IsConfigured options w h = ground arith

-- A command line that the worker accepts names an engine and a model, predicts between one and
-- `2 ^ 31 - 1` tokens, and has a context of at least 32.
pub parse_options-IsConfigured :
    (arguments : List Text) (options : Options)
    → parse_options arguments ≡ ok options
    → IsConfigured options
unfolding parse_options check_options
parse_options-IsConfigured arguments options e =
    let (given, read, checked) = >>=-eq-ok (read_arguments arguments default_options) _ e in
    elim (Bool-cases (is_configured given)) [
      | inr bad ↦ absurd (cc (rw bad at checked))
      | inl good ↦
          let same : given ≡ options = ok-injective (rw good at checked) in
          subst IsConfigured same (
            is_configured-IsConfigured given
              (subst AllTyped read
                (read_arguments-AllTyped arguments default_options (ground arith)))
              good)
    ]

abbrev pub arguments_of : Options → List Text
arguments_of options =
    codes "--engine-id"
    ∷ options.engine_id
    ∷ codes "--model"
    ∷ options.model_path
    ∷ codes "--n-predict"
    ∷ to_string options.n_predict
    ∷ codes "--ctx-size"
    ∷ to_string options.context_size
    ∷ codes "--gpu-layers"
    ∷ to_string options.gpu_layers
    ∷ []

-- Every configuration that may be accepted has a command line that gives it.
pub parse_options-arguments_of :
    (options : Options) → IsConfigured options → parse_options (arguments_of options) ≡ ok options
unfolding parse_options check_options read_arguments apply_argument codes text_eq
parse_options-arguments_of options c =
    let kept : options.context_size % 2 ^ 32 ≡ options.context_size = ground (arith, c.context) in
    let accepted : is_configured options ≡ true = ground (arith, c) in
    rw (stoi-to_string options.n_predict c.predicts.1) (
      rw (stoul-to_string options.context_size (ground (arith, c.context)), kept)
        (rw (stoi-to_string options.gpu_layers c.layers, accepted) refl))
