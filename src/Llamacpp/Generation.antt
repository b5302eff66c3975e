-- ===== src/Llamacpp/Generation.antt =====
-- `tokenize`, `token_piece` and `generate`, over the functions of llama.cpp that they call.
use madre.Base.{
  ℕ, zero, suc, ◌+◌, ◌-◌, List, [], ◌∷◌, ◌++◌, Option, none, some, Bool, true, false, not, ltb,
  length, Text, Bytes, codes, min, max, add_u64, if◌then◌else◌, Result, ok, err, runtime_error,
  guard, ◌>>=◌, ◌>>◌,
}
use madre.Protocol.{max_payload_bytes}
use madre.Llamacpp.{Options}

-- What a call that fills a buffer of the caller returns: the contents, or how many items it wants.
pub data Filled : Type 0 where
  filled : List ℕ → Filled
  wants : ℕ → Filled

-- llama.cpp, with a model loaded. A context changes as it decodes; a sampler chain that holds the
-- greedy sampler only reads it.
pub record Llama : Type 1 where
  pub Context : Type 0
  pub llama_tokenize : Bytes → ℕ → Filled
  pub llama_token_to_piece : ℕ → ℕ → Filled
  pub llama_vocab_is_eog : ℕ → Bool
  pub llama_init_from_model : ℕ → ℕ → Option Context
  pub llama_sampler_chain_init : Bool
  pub llama_sampler_sample : Context → ℕ
  pub llama_decode : Context → List ℕ → Option Context

-- The contexts and the samplers that have not been freed.
pub record Live : Type 0 where
  pub contexts : ℕ
  pub samplers : ℕ

-- `required` is positive, as the first call wants room.
abbrev pub required : Filled → Result ℕ
required (wants (suc n)) = ok (suc n)
required (wants zero) = err (runtime_error (codes "failed to size prompt tokenization"))
required (filled tokens) = err (runtime_error (codes "failed to size prompt tokenization"))

abbrev pub or_throw : Text → Filled → Result (List ℕ)
or_throw message (filled items) = ok items
or_throw message (wants n) = err (runtime_error message)

module _ (llama : Llama) where
  open llama use {
    Context, llama_tokenize, llama_token_to_piece, llama_vocab_is_eog, llama_init_from_model,
    llama_sampler_chain_init, llama_sampler_sample, llama_decode,
  }

  unfoldable pub tokenize : Bytes → Result (List ℕ)
  tokenize prompt = do
    n ← required (llama_tokenize prompt 0)
    or_throw (codes "failed to tokenize prompt") (llama_tokenize prompt n)

  -- A second call gets the room that the first one wanted.
  abbrev retry_piece : ℕ → Filled → Result Bytes
  retry_piece token (filled piece) = ok piece
  retry_piece token (wants n) =
      or_throw (codes "failed to convert generated token to bytes") (llama_token_to_piece token n)

  unfoldable pub token_piece : ℕ → Result Bytes
  token_piece token = retry_piece token (llama_token_to_piece token 256)

  abbrev pub evaluated : Text → Option Context → Result Context
  evaluated message none = err (runtime_error message)
  evaluated message (some context) = ok context

  -- The result with a piece, unless it exceeds the payload of a frame.
  unfoldable pub with_piece : Bytes → Bytes → Result Bytes
  with_piece result piece = do
    guard (not (ltb max_payload_bytes (length result + length piece)))
        (runtime_error (codes "generated result exceeds bounded C1 payload"))
    ok (result ++ piece)

  -- The loop, with what is left of `n_predict`.
  unfoldable pub generate_tokens : ℕ → Context → Bytes → Result Bytes
  generate_tokens zero context result = ok result
  generate_tokens (suc left) context result =
      let token = llama_sampler_sample context in
      if llama_vocab_is_eog token
      then ok result
      else (token_piece token >>= (λ piece. with_piece result piece) >>= (λ longer.
          evaluated (codes "failed to evaluate generated token") (llama_decode context (token ∷ []))
          >>= (λ next. generate_tokens left next longer)))

  -- The `try` block up to the frees.
  unfoldable pub run_prompt : Options → List ℕ → Context → Result Bytes
  run_prompt options prompt_tokens context =
      evaluated (codes "failed to evaluate prompt") (llama_decode context prompt_tokens)
      >>= (λ next. generate_tokens options.n_predict next [])

  -- `llama_sampler_free(sampler); llama_free(context);`
  abbrev pub without_both : Live → Live
  without_both live = record { contexts = live.contexts - 1; samplers = live.samplers - 1 }

  -- The calls at the end of the block, and those of its handler.
  abbrev pub free_both : Result Bytes → Live → Result Bytes × Live
  free_both (ok bytes) live = (ok bytes, without_both live)
  free_both (err e) live = (err e, without_both live)

  abbrev pub with_sampler : Options → List ℕ → Context → Live → Bool → Result Bytes × Live
  with_sampler options prompt_tokens context live false = (
    err (runtime_error (codes "failed to create llama sampler")),
    record live { contexts = live.contexts - 1 },
  )
  with_sampler options prompt_tokens context live true =
      free_both (run_prompt options prompt_tokens context)
        (record live { samplers = live.samplers + 1 })

  abbrev pub with_context : Options → List ℕ → Live → Option Context → Result Bytes × Live
  with_context options prompt_tokens live none =
      (err (runtime_error (codes "failed to create llama context")), live)
  with_context options prompt_tokens live (some context) =
      with_sampler options prompt_tokens context (record live { contexts = live.contexts + 1 })
        llama_sampler_chain_init

  abbrev pub exceeds_context : Options → List ℕ → Bool
  exceeds_context options prompt_tokens =
      ltb options.context_size (add_u64 (add_u64 (length prompt_tokens) options.n_predict) 1)

  abbrev pub n_batch : Options → List ℕ → ℕ
  n_batch options prompt_tokens = min options.context_size (max 32 (length prompt_tokens))

  abbrev pub with_tokens : Options → Live → Result (List ℕ) → Result Bytes × Live
  with_tokens options live (err e) = (err e, live)
  with_tokens options live (ok prompt_tokens) =
      if exceeds_context options prompt_tokens
      then (
        err (runtime_error (codes "prompt plus configured generation exceeds worker context size")),
        live,
      )
      else with_context options prompt_tokens live
          (llama_init_from_model options.context_size (n_batch options prompt_tokens))

  -- The generated bytes or the exception, and what is not freed then.
  unfoldable pub generate : Options → Bytes → Live → Result Bytes × Live
  generate options payload live = with_tokens options live (tokenize payload)
