-- ===== src/Examples/Workers.antt =====
-- The theorems on workers and their pool, with a worker that repeats one letter.
use mathlib.Core.Path.{subst}
use madre.Base.{
  ℕ, ◌≡◌, refl, sym, List, [], ◌∷◌, ◌++◌, none, some, Bool, true, false, Text, Bytes, codes, arith,
  is_empty, has_byte, has_any_of, any_of, length, ok, to_string, decimal, ◌==◌, if◌then◌else◌,
}
use madre.Protocol.MessageType
use madre.Protocol.Integers.{put_u16, put_u32, put_u64}
use madre.Protocol.Entries.{encode_metadata, is_entry}
use madre.Protocol.Frames.{encode_frame, encode_header}
use madre.Protocol.RoundTrip.{IsFrame}
use madre.Protocol.Available.{ReadAnswer, bytes}
use madre.Workers.{WorkerProcess, signal, running, Attempt, ends}
use madre.Workers.Sending.{SendRound, written}
use madre.Workers.Receiving.{ReceiveRound, receive, finish_response}
use madre.Workers.Execution.{Outside, request_frame, execute}
use madre.Workers.Outcomes.{IsSettled, execute-IsSettled}
use madre.Workers.Ending.{HasEnded, execute-HasEnded}
use madre.Workers.Chunks.{IsQuiet, receive-encode_frame, with_buffer}
use madre.Workers.Silence.{receive-IsEndedBy, IsEndedBy}
use madre.Llamacpp.{Options, parse_options}
use madre.Llamacpp.Generation.{
  Llama, run_prompt, generate_tokens, token_piece, with_piece, filled, wants, Live, generate,
  tokenize,
}
use madre.Llamacpp.Generated.{
  IsConfigured, IsGenerated, FitsContext, generate-IsGenerated, generate-live,
}
use madre.Llamacpp.Configured.{arguments_of, parse_options-arguments_of}
use madre.Llamacpp.Serving.{Process, serve_one, serves, result_frame}
use madre.Workers.Replies.{looks_of}
use madre.Llamacpp.Answers.{reply_frame, reply_outcome, serve_one-receive}

abbrev engine : Text
engine = b'e' ∷ []

abbrev attempt : Attempt
attempt = record {
  payload = b'h' ∷ b'i' ∷ [];
  correlation_id = 7;
  attempt_started_at_ms = 5;
  stop_at_ms = some 200;
  timeout_wins = true;
}

abbrev worker : WorkerProcess
worker = record {
  engine_id = engine;
  response_reader = [];
  pid = some 30;
  last_wait_status = none;
  input_fd = some 5;
  output_fd = some 6;
  busy = true;
  last_used_ms = 0;
}

abbrev request_metadata : Bytes
request_metadata = codes "attempt_started_at_ms=5\nengine_id=e\n"

abbrev sent_request : Bytes
sent_request =
    encode_header MessageType.worker_execute 7 36 2 ++ (request_metadata ++ (b'h' ∷ b'i' ∷ []))

request_encoded : encode_frame (request_frame attempt worker) ≡ ok sent_request
unfolding encode_frame encode_metadata is_entry is_empty has_any_of any_of has_byte request_frame
    codes to_string decimal
request_encoded = refl

-- A model that says `a` to everything.
abbrev parrot : Llama
parrot = record {
  Context = ℕ;
  llama_tokenize = λ prompt room. if room == 0 then wants (length prompt) else filled prompt;
  llama_token_to_piece = λ token room. filled (token ∷ []);
  llama_vocab_is_eog = λ token. token == 0;
  llama_init_from_model = λ n_ctx n_batch. some 0;
  llama_sampler_chain_init = true;
  llama_sampler_sample = λ context. b'a';
  llama_decode = λ context tokens. some context;
}

abbrev options : Options
options = record {
  engine_id = engine;
  model_path = b'm' ∷ [];
  n_predict = 2;
  context_size = 32;
  gpu_layers = 0;
}

options-IsConfigured : IsConfigured options
unfolding is_empty
options-IsConfigured = record {
  engine_named = refl;
  model_named = refl;
  predicts = (omega arith, omega arith);
  context = (omega arith, omega arith);
  layers = omega arith;
}

abbrev nothing_live : Live
nothing_live = record { contexts = 0; samplers = 0 }

abbrev said : Bytes
said = b'a' ∷ b'a' ∷ []

generated : (generate parrot options attempt.payload nothing_live).0 ≡ ok said
unfolding generate tokenize run_prompt generate_tokens token_piece with_piece
generated = refl

generate-IsGenerated_example :
    IsGenerated parrot 2 [] said × FitsContext options (tokenize parrot attempt.payload)
unfolding tokenize
generate-IsGenerated_example =
    generate-IsGenerated parrot options attempt.payload nothing_live said options-IsConfigured
      (omega arith) generated

generate-live_example : (generate parrot options attempt.payload nothing_live).1 ≡ nothing_live
generate-live_example = generate-live parrot options attempt.payload nothing_live

parse_options-arguments_of_example : parse_options (arguments_of options) ≡ ok options
parse_options-arguments_of_example = parse_options-arguments_of options options-IsConfigured

abbrev process : Process
process = record { input = sent_request; output = []; live = nothing_live }

abbrev reply_header : Bytes
reply_header = encode_header MessageType.worker_result 7 0 2

abbrev reply : Bytes
reply = reply_header ++ said

reply_encoded : encode_frame (result_frame (request_frame attempt worker) said) ≡ ok reply
unfolding encode_frame encode_metadata result_frame request_frame
reply_encoded = refl

abbrev quiet_round : List ReadAnswer → Bool → ℕ → ReceiveRound
quiet_round reads cancelled now = record {
  reads = reads;
  stopping = false;
  cancelled = cancelled;
  now = now;
  last_reads = [];
  process = running;
  poll = none;
  killed = signal 9;
}

-- The header of the reply comes first; the Work is cancelled when the rest comes.
abbrev first_round : ReceiveRound
first_round = quiet_round (bytes reply_header ∷ []) false 100

abbrev last_round : ReceiveRound
last_round = quiet_round (bytes said ∷ []) true 300

first_round-IsQuiet : IsQuiet attempt first_round
unfolding encode_header put_u16 put_u32 put_u64 is_empty
first_round-IsQuiet = record {
  unfinished = refl;
  lives = refl;
  polled = refl;
  calm = (refl, tt);
  within = omega arith;
}

reply-IsFrame : IsFrame (result_frame (request_frame attempt worker) said)
unfolding result_frame request_frame
reply-IsFrame = record { type_u16 = omega arith; correlation_u64 = omega arith; sorted = tt }

receive-encode_frame_example :
    receive attempt (first_round ∷ last_round ∷ []) (with_buffer [] worker)
    ≡ finish_response attempt
        (signal 9)
        (result_frame (request_frame attempt worker) said)
        (with_buffer [] worker)
unfolding encode_header put_u16 put_u32 put_u64 is_empty
receive-encode_frame_example =
    receive-encode_frame attempt worker (result_frame (request_frame attempt worker) said) reply []
      [] (first_round ∷ []) [] last_round (30, refl) reply-IsFrame reply_encoded
      (first_round-IsQuiet, tt) (refl, tt) (omega arith) refl (omega arith) (omega arith)

serve_one-receive_example :
    (serve_one parrot options process
      ≡ serves (record { input = []; output = reply; live = nothing_live }))
    × (receive attempt (first_round ∷ last_round ∷ []) worker
        ≡ ends (reply_outcome (generate parrot options attempt.payload nothing_live).0) worker)
unfolding encode_header put_u16 put_u32 put_u64 is_empty codes
serve_one-receive_example =
    serve_one-receive parrot options attempt worker process sent_request reply [] (first_round ∷ [])
      [] last_round (30, refl) refl refl (omega arith) request_encoded refl
      (subst (λ result. encode_frame (reply_frame (request_frame attempt worker) result) ≡ ok reply)
        (sym generated) reply_encoded)
      (first_round-IsQuiet, tt) (refl, tt) (omega arith) refl (omega arith)

abbrev late_round : ReceiveRound
late_round = quiet_round [] false 300

abbrev silent_round : ReceiveRound
silent_round = quiet_round [] false 100

receive-IsEndedBy_example :
    IsEndedBy attempt late_round (receive attempt (silent_round ∷ late_round ∷ []) worker)
receive-IsEndedBy_example =
    receive-IsEndedBy attempt worker (silent_round ∷ []) [] late_round (30, refl) refl
      (record { unfinished = refl; lives = refl; polled = refl; no_reads = refl }, tt) (refl, refl)
      (omega arith) (omega arith) refl

abbrev send_all : ℕ → SendRound
send_all now = record {
  stopping = false;
  cancelled = false;
  now = now;
  before = running;
  write = written 66;
  behind = running;
  poll = none;
  killed = signal 9;
}

abbrev outside : Outside
outside = record {
  before = running;
  killed = signal 9;
  sends = send_all 100 ∷ send_all 300 ∷ [];
  receives = silent_round ∷ late_round ∷ [];
}

execute-HasEnded_example : HasEnded (execute attempt outside worker)
unfolding any_of
execute-HasEnded_example = execute-HasEnded attempt outside worker refl refl

execute-IsSettled_example :
    IsSettled attempt []
      (looks_of outside.receives)
      (encode_frame (request_frame attempt worker))
      (execute attempt outside worker)
execute-IsSettled_example = execute-IsSettled attempt outside worker (λ e. cc)
