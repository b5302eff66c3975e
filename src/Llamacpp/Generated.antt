-- ===== src/Llamacpp/Generated.antt =====
-- What the worker generates, and that it frees what it allocates.
use madre.Base.{
  ℕ, zero, suc, ◌+◌, ◌^◌, ◌≡◌, ◌≤◌, ◌<◌, inl, inr, refl, sym, ap, ◌∙◌, List, [], ◌∷◌, ◌++◌, Option,
  none, some, Bool, true, false, ltb, length, length-append, Bytes, arith, ok, err, Result, ◌>>=◌,
  >>=-eq-ok, All, Bool-cases, codes, ok-injective, is_empty,
}
use mathlib.Core.List.{append_assoc, append-nil}
use madre.Protocol.{max_payload_bytes}
use madre.Llamacpp.{Options}
use madre.Llamacpp.Generation.{
  Llama, Live, tokenize, token_piece, evaluated, with_piece, generate_tokens, run_prompt, generate,
  free_both, with_sampler, with_context, with_tokens, exceeds_context,
}

module _ (llama : Llama) where
  open llama use {
    Context, llama_vocab_is_eog, llama_init_from_model, llama_sampler_chain_init,
    llama_sampler_sample, llama_decode,
  }

  -- The pieces of tokens, one behind the other.
  unfoldable pub pieces : List ℕ → Result Bytes
  pieces [] = ok []
  pieces (token ∷ tokens) =
      token_piece llama token >>= λ piece. (pieces tokens >>= λ rest. ok (piece ++ rest))

  -- At most `n` tokens, none of which ends the generation, behind bytes that were there before.
  pub record IsGenerated (n : ℕ) (before result : Bytes) : Type 0 where
    pub tokens : List ℕ
    pub text : Bytes
    pub few : length tokens ≤ n
    pub go_on : All (λ token. llama_vocab_is_eog token ≡ false) tokens
    pub joined : pieces tokens ≡ ok text
    pub behind : result ≡ before ++ text
    pub bounded : length result ≤ max_payload_bytes

  with_piece-eq-ok :
      (result piece longer : Bytes)
      → with_piece llama result piece ≡ ok longer
      → (longer ≡ result ++ piece) × (length longer ≤ max_payload_bytes)
  unfolding with_piece
  with_piece-eq-ok result piece longer e =
      elim (Bool-cases (ltb max_payload_bytes (length result + length piece))) [
        | inl big ↦ absurd (cc (rw big at e))
        | inr fits ↦
            let same : result ++ piece ≡ longer = ok-injective (rw fits at e) in
            (sym same, rw⁻¹ same (rw (length-append result piece) (ground arith)))
      ]

  one_more :
      (n token : ℕ) (before piece longer result : Bytes)
      → llama_vocab_is_eog token ≡ false
      → token_piece llama token ≡ ok piece
      → longer ≡ before ++ piece
      → IsGenerated n longer result
      → IsGenerated (suc n) before result
  unfolding pieces
  one_more n token before piece longer result more is_piece is_longer g = record {
    tokens = token ∷ g.tokens;
    text = piece ++ g.text;
    few = omega (arith, g.few);
    go_on = (more, g.go_on);
    joined = rw (is_piece, g.joined) refl;
    behind = g.behind ∙ ap (λ bytes. bytes ++ g.text) is_longer ∙ append_assoc before piece g.text;
    bounded = g.bounded;
  }

  generate_tokens-IsGenerated :
      (n : ℕ) (context : Context) (before result : Bytes)
      → length before ≤ max_payload_bytes
      → generate_tokens llama n context before ≡ ok result
      → IsGenerated n before result
  unfolding generate_tokens pieces
  generate_tokens-IsGenerated zero context before result h e = record {
    tokens = [];
    text = [];
    few = omega arith;
    go_on = tt;
    joined = refl;
    behind = sym (append-nil before ∙ ok-injective e);
    bounded = rw⁻¹ (ok-injective e) h;
  }
  generate_tokens-IsGenerated (suc n) context before result h e =
      let token = llama_sampler_sample context in
      elim (Bool-cases (llama_vocab_is_eog token)) [
        | inl over ↦
            let same : before ≡ result = ok-injective (rw over at e) in
            record {
              tokens = [];
              text = [];
              few = omega arith;
              go_on = tt;
              joined = refl;
              behind = sym (append-nil before ∙ same);
              bounded = rw⁻¹ same h;
            }
        | inr more ↦
            let (longer, added, left) = >>=-eq-ok _ _ (rw more at e) in
            let (piece, is_piece, joins) = >>=-eq-ok (token_piece llama token) _ added in
            let (next, decoded, last) =
              >>=-eq-ok
                (evaluated llama (codes "failed to evaluate generated token")
                  (llama_decode context (token ∷ [])))
                (λ next. generate_tokens llama n next longer) left in
            let (is_longer, fits) = with_piece-eq-ok before piece longer joins in
            one_more n token before piece longer result more is_piece is_longer
              (generate_tokens-IsGenerated n next longer result fits last)
      ]

-- The frees undo the allocations.
abbrev IsFreed : Live → Result Bytes × Live → Type 0
IsFreed live (result, left) = left ≡ live

module _ (llama : Llama) (options : Options) (live : Live) where
  with_sampler-IsFreed :
      (tokens : List ℕ) (context : llama.Context) (has_sampler : Bool)
      → IsFreed live (
          with_sampler llama options tokens context
            (record live { contexts = live.contexts + 1 })
            has_sampler)
  with_sampler-IsFreed tokens context false = ground arith
  with_sampler-IsFreed tokens context true = ground arith

  with_context-IsFreed :
      (tokens : List ℕ) (context : Option llama.Context)
      → IsFreed live (with_context llama options tokens live context)
  with_context-IsFreed tokens none = refl
  with_context-IsFreed tokens (some context) =
      with_sampler-IsFreed tokens context llama.llama_sampler_chain_init

  with_tokens-IsFreed :
      (tokens : Result (List ℕ)) → IsFreed live (with_tokens llama options live tokens)
  with_tokens-IsFreed (err e) = refl
  with_tokens-IsFreed (ok tokens) = elim (Bool-cases (exceeds_context llama options tokens)) [
    | inl big ↦ rw big refl
    | inr fits ↦ rw fits (with_context-IsFreed tokens _)
  ]

-- `n_predict` is positive, the context has at most `2 ^ 32` tokens.
pub record IsConfigured (options : Options) : Type 0 where
  pub engine_named : is_empty options.engine_id ≡ false
  pub model_named : is_empty options.model_path ≡ false
  pub predicts : (1 ≤ options.n_predict) × (options.n_predict < 2 ^ 31)
  pub context : (32 ≤ options.context_size) × (options.context_size < 2 ^ 32)
  pub layers : options.gpu_layers < 2 ^ 31

-- The tokens of the prompt leave room for those that are generated, and for one more.
abbrev pub FitsContext : Options → Result (List ℕ) → Type 0
FitsContext options (err e) = Unit
FitsContext options (ok tokens) = length tokens + options.n_predict + 1 ≤ options.context_size

-- llama.cpp counts tokens in an `int32_t`.
abbrev pub IsCounted : Result (List ℕ) → Type 0
IsCounted (err e) = Unit
IsCounted (ok tokens) = length tokens < 2 ^ 31

module _ (llama : Llama) (options : Options) (live : Live) (c : IsConfigured options) where
  run_prompt-IsGenerated :
      (tokens : List ℕ) (context : llama.Context) (result : Bytes)
      → run_prompt llama options tokens context ≡ ok result
      → IsGenerated llama options.n_predict [] result
  unfolding run_prompt
  run_prompt-IsGenerated tokens context result e =
      let (next, decoded, last) =
        >>=-eq-ok
          (evaluated llama (codes "failed to evaluate prompt") (llama.llama_decode context tokens))
          (λ next. generate_tokens llama options.n_predict next []) e in
      generate_tokens-IsGenerated llama options.n_predict next [] result (omega arith) last

  free_both-result : (result : Result Bytes) (now : Live) → (free_both llama result now).0 ≡ result
  free_both-result (ok bytes) now = refl
  free_both-result (err e) now = refl

  with_sampler-IsGenerated :
      (tokens : List ℕ) (context : llama.Context) (now : Live) (has_sampler : Bool) (result : Bytes)
      → (with_sampler llama options tokens context now has_sampler).0 ≡ ok result
      → IsGenerated llama options.n_predict [] result
  with_sampler-IsGenerated tokens context now false result e = absurd (cc e)
  with_sampler-IsGenerated tokens context now true result e =
      run_prompt-IsGenerated tokens context result
        (sym (free_both-result (run_prompt llama options tokens context) _) ∙ e)

  with_context-IsGenerated :
      (tokens : List ℕ) (context : Option llama.Context) (result : Bytes)
      → (with_context llama options tokens live context).0 ≡ ok result
      → IsGenerated llama options.n_predict [] result
  with_context-IsGenerated tokens none result e = absurd (cc e)
  with_context-IsGenerated tokens (some context) result e =
      with_sampler-IsGenerated tokens context _ llama.llama_sampler_chain_init result e

  with_tokens-IsGenerated :
      (tokens : Result (List ℕ)) (result : Bytes)
      → IsCounted tokens
      → (with_tokens llama options live tokens).0 ≡ ok result
      → IsGenerated llama options.n_predict [] result × FitsContext options tokens
  with_tokens-IsGenerated (err e') result counted e = absurd (cc e)
  with_tokens-IsGenerated (ok tokens) result counted e =
      elim (Bool-cases (exceeds_context llama options tokens)) [
        | inl big ↦ absurd (cc (rw big at e))
        | inr fits ↦ (
          with_context-IsGenerated tokens _ result (rw fits at e),
          ground (arith, c.predicts, c.context),
        )
      ]

-- A result of the configured worker is, in order, the bytes of at most `n_predict` tokens, of which
-- none ends the generation; it fits a frame, and the prompt with all of those tokens fits the
-- context. llama.cpp counts the tokens of the prompt in an `int32_t`.
pub generate-IsGenerated :
    (llama : Llama) (options : Options) (payload : Bytes) (live : Live) (result : Bytes)
    → IsConfigured options
    → IsCounted (tokenize llama payload)
    → (generate llama options payload live).0 ≡ ok result
    → IsGenerated llama options.n_predict [] result × FitsContext options (tokenize llama payload)
unfolding generate
generate-IsGenerated llama options payload live result c counted e =
    with_tokens-IsGenerated llama options live c (tokenize llama payload) result counted e

-- However `generate` ends, with a result or an exception and at whichever call, it has freed the
-- context and the sampler that it created and no other.
pub generate-live :
    (llama : Llama) (options : Options) (payload : Bytes) (live : Live)
    → (generate llama options payload live).1 ≡ live
unfolding generate
generate-live llama options payload live =
    with_tokens-IsFreed llama options live (tokenize llama payload)
