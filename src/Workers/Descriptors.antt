-- ===== src/Workers/Descriptors.antt =====
-- No descriptor is lost when a worker is launched.
use madre.Base.{
  ℕ, ◌+◌, ◌≡◌, ◌≤◌, refl, ◌∷◌, Option, none, some, ltb, Text, if◌then◌else◌, arith, Result, ok, err,
  by_test, ◌==◌,
}
use mathlib.Core.Path.{subst}
use madre.Options.{WorkerLaunchSpec}
use madre.Workers.{WorkerProcess}
use madre.Workers.Walks.{count, count-erase_worker}
use madre.Workers.Launching.{
  Answer, returns, fails, LaunchAnswers, PipeAnswers, EndAnswers, Open, close, close_pair,
  normalize_pipe_fd, moved, set_cloexec, first_end, both_ends, piped, make_cloexec_pipe,
  with_first_pipe, with_second_pipe, with_pid, set_nonblocking, launch,
}

abbrev one : ℕ → ℕ → ℕ
one fd x = if x == fd then 1 else 0

module _ (fd : ℕ) where
  count-close :
      (x : ℕ) (open_fds : Open)
      → one fd x ≤ count fd open_fds
      → count fd (close x open_fds) + one fd x ≡ count fd open_fds
  count-close x open_fds h = ground (arith, count-erase_worker x fd open_fds)

  count-close_pair :
      (x y : ℕ) (open_fds : Open)
      → one fd x + one fd y ≤ count fd open_fds
      → count fd (close_pair (x, y) open_fds) + (one fd x + one fd y) ≡ count fd open_fds
  count-close_pair x y open_fds h = omega (
    arith,
    count-close x open_fds (omega arith),
    count-close y (close x open_fds) (omega (arith, count-close x open_fds (omega arith))),
  )

  -- One end, which was `old`, is open beside `n` others.
  abbrev IsEnd : ℕ → ℕ → Result ℕ × Open → Type 0
  IsEnd old n (ok new, open_fds) = count fd open_fds ≡ n + one fd new
  IsEnd old n (err e, open_fds) = count fd open_fds ≡ n + one fd old

  set_cloexec-IsEnd :
      (x n : ℕ) (open_fds : Open) (answer : Option Text)
      → count fd open_fds ≡ n + one fd x
      → IsEnd x n (set_cloexec x open_fds answer)
  set_cloexec-IsEnd x n open_fds none h = h
  set_cloexec-IsEnd x n open_fds (some error) h = h

  moved-IsEnd :
      (x n : ℕ) (open_fds : Open) (answer : Answer ℕ)
      → count fd open_fds ≡ n + one fd x
      → IsEnd x n (moved x open_fds answer)
  moved-IsEnd x n open_fds (fails error) h = h
  moved-IsEnd x n open_fds (returns y) h = omega (arith, count-close x (y ∷ open_fds) (omega arith))

  normalize_pipe_fd-IsEnd :
      (answers : EndAnswers) (x n : ℕ) (open_fds : Open)
      → count fd open_fds ≡ n + one fd x
      → IsEnd x n (normalize_pipe_fd answers x open_fds)
  unfolding normalize_pipe_fd
  normalize_pipe_fd-IsEnd answers x n open_fds h =
      by_test (IsEnd x n) (ltb 2 x) _ _
        (λ high. set_cloexec-IsEnd x n open_fds answers.set_cloexec h)
        (λ low. moved-IsEnd x n open_fds answers.duplicate h)

  -- Two ends are open beside `n` others, or after a failure those alone.
  abbrev IsPair : ℕ → Result (ℕ × ℕ) × Open → Type 0
  IsPair n (ok (x, y), open_fds) = count fd open_fds ≡ n + (one fd x + one fd y)
  IsPair n (err e, open_fds) = count fd open_fds ≡ n

  both_ends-IsPair :
      (x y n : ℕ) (second : Result ℕ × Open)
      → IsEnd y (n + one fd x) second
      → IsPair n (both_ends x y second)
  both_ends-IsPair x y n (ok z, open_fds) h = omega (arith, h)
  both_ends-IsPair x y n (err e, open_fds) h =
      omega (arith, h, count-close_pair x y open_fds (omega (arith, h)))

  first_end-IsPair :
      (answers : EndAnswers) (x y n : ℕ) (first : Result ℕ × Open)
      → IsEnd x (n + one fd y) first
      → IsPair n (first_end answers (x, y) first)
  first_end-IsPair answers x y n (err e, open_fds) h =
      omega (arith, h, count-close_pair x y open_fds (omega (arith, h)))
  first_end-IsPair answers x y n (ok z, open_fds) h =
      both_ends-IsPair z y n (normalize_pipe_fd answers y open_fds)
        (normalize_pipe_fd-IsEnd answers y (n + one fd z) open_fds (omega (arith, h)))

  piped-IsPair :
      (answers : PipeAnswers) (open_fds : Open) (answer : Answer (ℕ × ℕ))
      → IsPair (count fd open_fds) (piped answers open_fds answer)
  piped-IsPair answers open_fds (fails error) = refl
  piped-IsPair answers open_fds (returns (x, y)) =
      first_end-IsPair answers.second x y (count fd open_fds) _ (
        normalize_pipe_fd-IsEnd answers.first x (count fd open_fds + one fd y) (x ∷ y ∷ open_fds)
          (omega arith))

  make_cloexec_pipe-IsPair :
      (answers : PipeAnswers) (open_fds : Open)
      → IsPair (count fd open_fds) (make_cloexec_pipe answers open_fds)
  unfolding make_cloexec_pipe
  make_cloexec_pipe-IsPair answers open_fds = piped-IsPair answers open_fds answers.pipe

  abbrev held : Option ℕ → ℕ
  held none = 0
  held (some x) = one fd x

  -- The descriptors of the worker are open beside `n` others; or, without a worker, those alone.
  abbrev pub IsLaunched : ℕ → Result WorkerProcess × Open → Type 0
  IsLaunched n (ok worker, open_fds) =
      count fd open_fds ≡ n + (held worker.input_fd + held worker.output_fd)
  IsLaunched n (err e, open_fds) = count fd open_fds ≡ n

  set_nonblocking-IsLaunched :
      (input output : Option Text) (x y n : ℕ) (worker : WorkerProcess) (open_fds : Open)
      → worker.input_fd ≡ some x
      → worker.output_fd ≡ some y
      → count fd open_fds ≡ n + (one fd x + one fd y)
      → IsLaunched n (set_nonblocking input output (x, y) worker open_fds)
  set_nonblocking-IsLaunched (some error) output x y n worker open_fds hx hy h =
      omega (arith, h, count-close_pair x y open_fds (omega (arith, h)))
  set_nonblocking-IsLaunched none (some error) x y n worker open_fds hx hy h =
      omega (arith, h, count-close_pair x y open_fds (omega (arith, h)))
  set_nonblocking-IsLaunched none none x y n worker open_fds hx hy h = rw (hx, hy) h

  with_pid-IsLaunched :
      (answers : LaunchAnswers) (engine_id : Text) (to_child to_parent : ℕ × ℕ) (pid : Result ℕ)
      (n : ℕ) (open_fds : Open)
      → count fd open_fds
        ≡ n + (one fd to_child.0 + one fd to_child.1) + (one fd to_parent.0 + one fd to_parent.1)
      → IsLaunched n (with_pid answers engine_id to_child to_parent pid open_fds)
  with_pid-IsLaunched answers engine_id (a, b) (c, d) (err e) n open_fds h =
      let first = count-close_pair a b open_fds (omega (arith, h)) in
      omega (
        arith,
        h,
        first,
        count-close_pair c d (close_pair (a, b) open_fds) (omega (arith, h, first)),
      )
  with_pid-IsLaunched answers engine_id (a, b) (c, d) (ok pid) n open_fds h =
      let first = count-close a open_fds (omega (arith, h)) in
      let second = count-close d (close a open_fds) (omega (arith, h, first)) in
      set_nonblocking-IsLaunched answers.input_nonblocking answers.output_nonblocking b c n _ _ refl
        refl (omega (arith, h, first, second))

  with_second_pipe-IsLaunched :
      (answers : LaunchAnswers) (spec : WorkerLaunchSpec) (engine_id : Text) (x y n : ℕ)
      (pipe : Result (ℕ × ℕ) × Open)
      → IsPair (n + (one fd x + one fd y)) pipe
      → IsLaunched n (with_second_pipe answers spec engine_id (x, y) pipe)
  with_second_pipe-IsLaunched answers spec engine_id x y n (err e, open_fds) h =
      omega (arith, h, count-close_pair x y open_fds (omega (arith, h)))
  with_second_pipe-IsLaunched answers spec engine_id x y n (ok (c, d), open_fds) h =
      with_pid-IsLaunched answers engine_id (x, y) (c, d) _ n open_fds h

  with_first_pipe-IsLaunched :
      (answers : LaunchAnswers) (spec : WorkerLaunchSpec) (engine_id : Text) (n : ℕ)
      (pipe : Result (ℕ × ℕ) × Open)
      → IsPair n pipe
      → IsLaunched n (with_first_pipe answers spec engine_id pipe)
  with_first_pipe-IsLaunched answers spec engine_id n (err e, open_fds) h = h
  with_first_pipe-IsLaunched answers spec engine_id n (ok (x, y), open_fds) h =
      let second = make_cloexec_pipe-IsPair answers.child_to_parent open_fds in
      with_second_pipe-IsLaunched answers spec engine_id x y n
        (make_cloexec_pipe answers.child_to_parent open_fds)
        (subst (λ m. IsPair m (make_cloexec_pipe answers.child_to_parent open_fds)) h second)

-- Whichever call fails while a worker is launched: without a worker the same descriptors are open
-- as before, each as often; with one, its two are open besides, and the other two ends of the pipes
-- are closed.
pub launch-IsLaunched :
    (answers : LaunchAnswers) (spec : WorkerLaunchSpec) (engine_id : Text) (open_fds : Open)
    (fd : ℕ)
    → IsLaunched fd (count fd open_fds) (launch answers spec engine_id open_fds)
unfolding launch
launch-IsLaunched answers spec engine_id open_fds fd =
    with_first_pipe-IsLaunched fd answers spec engine_id (count fd open_fds) _
      (make_cloexec_pipe-IsPair fd answers.parent_to_child open_fds)
