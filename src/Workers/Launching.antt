-- ===== src/Workers/Launching.antt =====
-- The constructor of `WorkerProcess` in the POSIX build: two pipes, the child process, and the
-- descriptors that are open in the Kernel on the way.
use madre.Base.{
  ℕ, List, [], ◌∷◌, ◌++◌, Option, none, some, false, ltb, Text, codes, if◌then◌else◌, Result, ok,
  err, runtime_error,
}
use madre.Options.{WorkerLaunchSpec}
use madre.Workers.{WorkerProcess, WaitStatus}
use madre.Workers.Pool.{erase_worker}

-- A call that returns a value, or sets `errno`, of which it has the text.
pub data Answer {ℓ} (A : Type ℓ) : Type ℓ where
  returns : A → Answer A
  fails : Text → Answer A

-- What the outside answers for one end of a pipe: `none`, or the text of `errno`; and the
-- duplicate, if one is made.
pub record EndAnswers : Type 0 where
  pub set_cloexec : Option Text
  pub duplicate : Answer ℕ

-- `::pipe`, and the answers for its two ends.
pub record PipeAnswers : Type 0 where
  pub pipe : Answer (ℕ × ℕ)
  pub first : EndAnswers
  pub second : EndAnswers

-- All that the constructor asks for. `posix_spawn` is given the program and `argv`.
pub record LaunchAnswers : Type 0 where
  pub parent_to_child : PipeAnswers
  pub child_to_parent : PipeAnswers
  pub init : Option Text
  pub actions : List (Option Text)
  pub spawn : Text → List Text → Answer ℕ
  pub input_nonblocking : Option Text
  pub output_nonblocking : Option Text
  pub killed : WaitStatus
  pub now : ℕ

-- The descriptors that are open.
abbrev pub Open : Type 0
Open = List ℕ

abbrev pub close : ℕ → Open → Open
close fd open_fds = erase_worker fd open_fds

abbrev pub close_pair : ℕ × ℕ → Open → Open
close_pair (first, second) open_fds = close second (close first open_fds)

abbrev pub set_cloexec : ℕ → Open → Option Text → Result ℕ × Open
set_cloexec fd open_fds none = (ok fd, open_fds)
set_cloexec fd open_fds (some error) =
    (err (runtime_error (codes "set worker pipe close-on-exec failed: " ++ error)), open_fds)

abbrev pub moved : ℕ → Open → Answer ℕ → Result ℕ × Open
moved fd open_fds (returns duplicate) = (ok duplicate, close fd (duplicate ∷ open_fds))
moved fd open_fds (fails error) = (
  err (runtime_error (codes "move worker pipe above standard descriptors failed: " ++ error)),
  open_fds,
)

-- The descriptor to use, or the exception.
unfoldable pub normalize_pipe_fd : EndAnswers → ℕ → Open → Result ℕ × Open
normalize_pipe_fd answers fd open_fds =
    if ltb 2 fd
    then set_cloexec fd open_fds answers.set_cloexec
    else moved fd open_fds answers.duplicate

abbrev pub both_ends : ℕ → ℕ → Result ℕ × Open → Result (ℕ × ℕ) × Open
both_ends first second (ok second', open_fds) = (ok (first, second'), open_fds)
both_ends first second (err e, open_fds) = (err e, close_pair (first, second) open_fds)

abbrev pub first_end : EndAnswers → ℕ × ℕ → Result ℕ × Open → Result (ℕ × ℕ) × Open
first_end answers (first, second) (err e, open_fds) = (err e, close_pair (first, second) open_fds)
first_end answers (first, second) (ok first', open_fds) =
    both_ends first' second (normalize_pipe_fd answers second open_fds)

abbrev pub piped : PipeAnswers → Open → Answer (ℕ × ℕ) → Result (ℕ × ℕ) × Open
piped answers open_fds (fails error) =
    (err (runtime_error (codes "create worker pipe failed: " ++ error)), open_fds)
piped answers open_fds (returns (first, second)) =
    first_end answers.second (first, second)
      (normalize_pipe_fd answers.first first (first ∷ second ∷ open_fds))

-- The two ends of a pipe, above the standard descriptors.
unfoldable pub make_cloexec_pipe : PipeAnswers → Open → Result (ℕ × ℕ) × Open
make_cloexec_pipe answers open_fds = piped answers open_fds answers.pipe

abbrev action_descriptions : List Text
action_descriptions =
    codes "configure worker stdin"
    ∷ codes "configure worker stdout"
    ∷ codes "close worker inherited stdin pipe"
    ∷ codes "close worker inherited parent input pipe"
    ∷ codes "close worker inherited parent output pipe"
    ∷ codes "close worker inherited stdout pipe"
    ∷ []

-- The first of the spawn actions that fails.
abbrev pub first_failure : List Text → List (Option Text) → Option Text
first_failure (description ∷ descriptions) (none ∷ answers) = first_failure descriptions answers
first_failure (description ∷ descriptions) (some error ∷ answers) =
    some (description ++ (codes ": " ++ error))
first_failure _ _ = none

-- What keeps the process from being spawned.
abbrev pub spawn_failure : LaunchAnswers → Option Text
spawn_failure answers = elim answers.init [
  | some error ↦ some (codes "initialize worker spawn actions failed: " ++ error)
  | none ↦ first_failure action_descriptions answers.actions
]

abbrev pub spawned : Answer ℕ → Result ℕ
spawned (returns pid) = ok pid
spawned (fails error) = err (runtime_error (codes "spawn worker failed: " ++ error))

abbrev pub spawned_pid : LaunchAnswers → WorkerLaunchSpec → Option Text → Result ℕ
spawned_pid answers launch (some failure) = err (runtime_error failure)
spawned_pid answers launch none =
    spawned (answers.spawn launch.executable (launch.executable ∷ launch.arguments))

abbrev pub new_worker : Text → ℕ → ℕ → ℕ → ℕ → WorkerProcess
new_worker engine_id pid input_fd output_fd now = record {
  engine_id = engine_id;
  response_reader = [];
  pid = some pid;
  last_wait_status = none;
  input_fd = some input_fd;
  output_fd = some output_fd;
  busy = false;
  last_used_ms = now;
}

abbrev nonblocking_failure : Text → Result WorkerProcess
nonblocking_failure error =
    err (runtime_error (codes "set worker pipe nonblocking failed: " ++ error))

-- With the process. A failure terminates it, which closes the two descriptors that are left.
abbrev pub set_nonblocking :
    Option Text → Option Text → ℕ × ℕ → WorkerProcess → Open → Result WorkerProcess × Open
set_nonblocking (some error) output ends worker open_fds =
    (nonblocking_failure error, close_pair ends open_fds)
set_nonblocking none (some error) ends worker open_fds =
    (nonblocking_failure error, close_pair ends open_fds)
set_nonblocking none none ends worker open_fds = (ok worker, open_fds)

abbrev pub with_pid :
    LaunchAnswers → Text → ℕ × ℕ → ℕ × ℕ → Result ℕ → Open → Result WorkerProcess × Open
with_pid answers engine_id to_child to_parent (err e) open_fds =
    (err e, close_pair to_parent (close_pair to_child open_fds))
with_pid answers engine_id (child_input, input_fd) (output_fd, child_output) (ok pid) open_fds =
    set_nonblocking answers.input_nonblocking answers.output_nonblocking (input_fd, output_fd)
      (new_worker engine_id pid input_fd output_fd answers.now)
      (close child_output (close child_input open_fds))

abbrev pub with_second_pipe :
    LaunchAnswers
    → WorkerLaunchSpec
    → Text
    → ℕ × ℕ
    → Result (ℕ × ℕ) × Open
    → Result WorkerProcess × Open
with_second_pipe answers launch engine_id to_child (err e, open_fds) =
    (err e, close_pair to_child open_fds)
with_second_pipe answers launch engine_id to_child (ok to_parent, open_fds) =
    with_pid answers engine_id to_child to_parent
      (spawned_pid answers launch (spawn_failure answers)) open_fds

abbrev pub with_first_pipe :
    LaunchAnswers → WorkerLaunchSpec → Text → Result (ℕ × ℕ) × Open → Result WorkerProcess × Open
with_first_pipe answers launch engine_id (err e, open_fds) = (err e, open_fds)
with_first_pipe answers launch engine_id (ok to_child, open_fds) =
    with_second_pipe answers launch engine_id to_child
      (make_cloexec_pipe answers.child_to_parent open_fds)

-- The worker, or what the constructor throws, with the descriptors that are open then.
unfoldable pub launch : LaunchAnswers → WorkerLaunchSpec → Text → Open → Result WorkerProcess × Open
launch answers spec engine_id open_fds =
    with_first_pipe answers spec engine_id (make_cloexec_pipe answers.parent_to_child open_fds)
