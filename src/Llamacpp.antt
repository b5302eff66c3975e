-- ===== src/Llamacpp.antt =====
-- kernel/workers/llamacpp/main.cpp: the text generation worker, a process that the Kernel starts.
-- This file is its command line; llama.cpp itself is a parameter of Llamacpp/Generation.
pub mod Generation
pub mod Serving
pub mod Generated
pub mod Configured
pub mod Ending
pub mod Answers
use madre.Base.{
  ℕ, List, [], ◌∷◌, Bool, true, false, not, ◌||◌, ltb, ◌%◌, ◌^◌, Text, codes, is_empty, text_eq,
  lt_i32, stoi, stoul, if◌then◌else◌, Result, ok, err, runtime_error, guard, ◌>>=◌, ◌>>◌,
}

pub record Options : Type 0 where
  pub engine_id : Text
  pub model_path : Text
  pub n_predict : ℕ
  pub context_size : ℕ
  pub gpu_layers : ℕ

abbrev pub default_options : Options
default_options = record {
  engine_id = [];
  model_path = [];
  n_predict = 64;
  context_size = 512;
  gpu_layers = 0;
}

abbrev pub usage : Text
usage =
    codes
      "usage: madre-llamacpp-worker --engine-id <id> --model <gguf> [--n-predict N] [--ctx-size N] [--gpu-layers N]"

-- One argument with its value; the size of the context is cut to 32 bits.
unfoldable pub apply_argument : Text → Text → Options → Result Options
apply_argument argument value options =
    if text_eq argument (codes "--engine-id")
    then ok (record options { engine_id = value })
    else if text_eq argument (codes "--model")
    then ok (record options { model_path = value })
    else if text_eq argument (codes "--n-predict")
    then stoi value >>= (λ n. ok (record options { n_predict = n }))
    else if text_eq argument (codes "--ctx-size")
    then stoul value >>= (λ n. ok (record options { context_size = n % 2 ^ 32 }))
    else if text_eq argument (codes "--gpu-layers")
    then stoi value >>= (λ n. ok (record options { gpu_layers = n }))
    else err (runtime_error usage)

-- An argument at the end has no value, and no test accepts it.
unfoldable pub read_arguments : List Text → Options → Result Options
read_arguments [] options = ok options
read_arguments (argument ∷ []) options = err (runtime_error usage)
read_arguments (argument ∷ value ∷ rest) options =
    apply_argument argument value options >>= read_arguments rest

abbrev pub is_configured : Options → Bool
is_configured options = not (
    is_empty options.engine_id
    || is_empty options.model_path
    || lt_i32 options.n_predict 1
    || ltb options.context_size 32
    || lt_i32 options.gpu_layers 0)

unfoldable pub check_options : Options → Result Options
check_options options = do
  guard (is_configured options) (runtime_error (codes "invalid llama.cpp worker configuration"))
  ok options

-- On the arguments behind the program's name.
unfoldable pub parse_options : List Text → Result Options
parse_options arguments = read_arguments arguments default_options >>= check_options
