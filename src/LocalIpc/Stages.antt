-- ===== src/LocalIpc/Stages.antt =====
-- The constructor of the local endpoint call by call: what the server has at each, and at a failure.
use madre.Base.{
  ℕ, ◌+◌, ◌≡◌, ◌⊎◌, inl, inr, refl, [], Option, none, some, Bool, true, false, Text, length, ltb,
  ◌==◌, if◌then◌else◌, arith, by_test,
}
use madre.Workers.Walks.{count}
use madre.Workers.Launching.{Answer, returns, fails}
use madre.LocalIpc.{
  Lock, free, others, ours, Machine, LocalIpcServer, IpcAnswers, Opening, goes_on, thrown, and_then,
  unless_failed, with_lock_file, take_lock, check_path, remove_endpoint, with_socket, bound, flock,
  open_socket, open_endpoint, lock_path_of, set_lock,
}

abbrev pub held : ℕ → Option ℕ → ℕ
held fd none = 0
held fd (some x) = if x == fd then 1 else 0

module _ (before : Machine) (path : Text) where
  -- The descriptors that the server has are open besides those that were.
  unfoldable pub IsCounted : LocalIpcServer → Machine → Type 0
  IsCounted server machine =
      (fd : ℕ)
      → count fd machine.open_fds
        ≡ count fd before.open_fds + (held fd server.lock_fd + held fd server.server_fd)

  pub record IsUnlocked (server : LocalIpcServer) (machine : Machine) : Type 0 where
    pub counted : IsCounted server machine
    pub at_path : server.lock_path ≡ path
    pub same_locks : machine.locks ≡ before.locks
    pub same_file : machine.socket_file ≡ before.socket_file
    pub not_owned : server.endpoint_owned ≡ false
    pub no_socket : server.server_fd ≡ none

  pub record IsLocked (server : LocalIpcServer) (machine : Machine) : Type 0 where
    pub counted : IsCounted server machine
    pub at_path : server.lock_path ≡ path
    pub is_ours : machine.locks ≡ set_lock path ours before.locks
    pub was_free : before.locks path ≡ free
    pub lock_fd : ℕ
    pub has_lock : server.lock_fd ≡ some lock_fd

  abbrev pub AllOpening : (LocalIpcServer → Machine → Type 0) → Opening → Type 0
  AllOpening IsGood (goes_on server machine) = IsGood server machine
  AllOpening IsGood (thrown e server machine) = IsUnlocked server machine ⊎ IsLocked server machine

  -- Without and with the lock's file; with the lock, without and with the socket.
  abbrev IsFirst : LocalIpcServer → Machine → Type 0
  IsFirst server machine = IsUnlocked server machine × (server.lock_fd ≡ none)

  abbrev IsSecond : LocalIpcServer → Machine → Type 0
  IsSecond server machine = IsUnlocked server machine × ((x : ℕ) × (server.lock_fd ≡ some x))

  abbrev IsThird : LocalIpcServer → Machine → Type 0
  IsThird server machine = IsLocked server machine × (server.server_fd ≡ none)

  and_then-AllOpening :
      (IsGood IsNext : LocalIpcServer → Machine → Type 0) (first : Opening)
      (next : LocalIpcServer → Machine → Opening)
      → AllOpening IsGood first
      → ((server : LocalIpcServer) (machine : Machine)
          → IsGood server machine
          → AllOpening IsNext (next server machine))
      → AllOpening IsNext (and_then first next)
  and_then-AllOpening IsGood IsNext (goes_on server machine) next h k = k server machine h
  and_then-AllOpening IsGood IsNext (thrown e server machine) next h k = h

  unless_failed-IsFirst :
      (message : Text) (answer : Option Text) (server : LocalIpcServer) (machine : Machine)
      → IsFirst server machine
      → AllOpening IsFirst (unless_failed message answer server machine)
  unless_failed-IsFirst message none server machine w = w
  unless_failed-IsFirst message (some error) server machine w = inl w.0

  unless_failed-IsThird :
      (message : Text) (answer : Option Text) (server : LocalIpcServer) (machine : Machine)
      → IsThird server machine
      → AllOpening IsThird (unless_failed message answer server machine)
  unless_failed-IsThird message none server machine w = w
  unless_failed-IsThird message (some error) server machine w = inr w.0

  with_lock_file-IsSecond :
      (answer : Answer ℕ) (server : LocalIpcServer) (machine : Machine)
      → IsFirst server machine
      → AllOpening IsSecond (with_lock_file answer server machine)
  unfolding IsCounted
  with_lock_file-IsSecond (fails error) server machine w = inl w.0
  with_lock_file-IsSecond (returns x) server machine w = (
    record {
      counted = λ fd. ground (arith, w.0.counted fd, w.1);
      at_path = w.0.at_path;
      same_locks = w.0.same_locks;
      same_file = w.0.same_file;
      not_owned = w.0.not_owned;
      no_socket = w.0.no_socket;
    },
    (x, refl),
  )

  flock-IsThird :
      (answer : Option Text) (lock : Lock) (server : LocalIpcServer) (machine : Machine)
      → machine.locks server.lock_path ≡ lock
      → IsSecond server machine
      → AllOpening IsThird (flock answer lock server machine)
  unfolding IsCounted
  flock-IsThird answer others server machine e w = inl w.0
  flock-IsThird answer ours server machine e w = inl w.0
  flock-IsThird (some error) free server machine e w = inl w.0
  flock-IsThird none free server machine e w = (
    record {
      counted = w.0.counted;
      at_path = w.0.at_path;
      is_ours = rw (w.0.at_path, w.0.same_locks) refl;
      was_free = rw (w.0.at_path, w.0.same_locks) at e;
      lock_fd = w.1.0;
      has_lock = w.1.1;
    },
    w.0.no_socket,
  )

  check_path-IsThird :
      (endpoint : Text) (server : LocalIpcServer) (machine : Machine)
      → IsThird server machine
      → AllOpening IsThird (check_path endpoint server machine)
  check_path-IsThird endpoint server machine w =
      by_test (AllOpening IsThird) (ltb (length endpoint) 108) _ _ (λ fits. w) (λ long. inr w.0)

  remove_endpoint-IsThird :
      (removed : Bool) (server : LocalIpcServer) (machine : Machine)
      → IsThird server machine
      → IsThird server (remove_endpoint removed machine)
  unfolding IsCounted
  remove_endpoint-IsThird false server machine w = w
  remove_endpoint-IsThird true server machine w = (
    record {
      counted = w.0.counted;
      at_path = w.0.at_path;
      is_ours = w.0.is_ours;
      was_free = w.0.was_free;
      lock_fd = w.0.lock_fd;
      has_lock = w.0.has_lock;
    },
    w.1,
  )

  with_socket-IsLocked :
      (answer : Answer ℕ) (server : LocalIpcServer) (machine : Machine)
      → IsThird server machine
      → AllOpening IsLocked (with_socket answer server machine)
  unfolding IsCounted
  with_socket-IsLocked (fails error) server machine w = inr w.0
  with_socket-IsLocked (returns x) server machine w = record {
    counted = λ fd. ground (arith, w.0.counted fd, w.1);
    at_path = w.0.at_path;
    is_ours = w.0.is_ours;
    was_free = w.0.was_free;
    lock_fd = w.0.lock_fd;
    has_lock = w.0.has_lock;
  }

  -- Bound: the endpoint's file is the server's.
  pub record IsBound (server : LocalIpcServer) (machine : Machine) : Type 0 where
    pub locked : IsLocked server machine
    pub owned : server.endpoint_owned ≡ true
    pub exists : machine.socket_file ≡ true

  bound-IsBound :
      (answer : Option Text) (server : LocalIpcServer) (machine : Machine)
      → IsLocked server machine
      → AllOpening IsBound (bound answer server machine)
  unfolding IsCounted
  bound-IsBound (some error) server machine w = inr w
  bound-IsBound none server machine w = record {
    locked = record {
      counted = w.counted;
      at_path = w.at_path;
      is_ours = w.is_ours;
      was_free = w.was_free;
      lock_fd = w.lock_fd;
      has_lock = w.has_lock;
    };
    owned = refl;
    exists = refl;
  }

  unless_failed-IsBound :
      (message : Text) (answer : Option Text) (server : LocalIpcServer) (machine : Machine)
      → IsBound server machine
      → AllOpening IsBound (unless_failed message answer server machine)
  unless_failed-IsBound message none server machine w = w
  unless_failed-IsBound message (some error) server machine w = inr w.locked

  open_socket-IsBound :
      (answers : IpcAnswers) (endpoint : Text) (server : LocalIpcServer) (machine : Machine)
      → IsThird server machine
      → AllOpening IsBound (open_socket answers endpoint server machine)
  unfolding open_socket
  open_socket-IsBound answers endpoint server machine w =
      and_then-AllOpening IsThird IsBound _ _
        (and_then-AllOpening IsThird IsThird (check_path endpoint server machine) _
          (check_path-IsThird endpoint server machine w)
          (unless_failed-IsThird [] answers.endpoint_directory))
        (λ server' machine' w'.
          and_then-AllOpening IsBound IsBound _ _
            (and_then-AllOpening IsLocked IsBound
              (with_socket answers.socket server' (remove_endpoint answers.removed machine'))
              (bound answers.bind)
              (with_socket-IsLocked answers.socket server'
                (remove_endpoint answers.removed machine')
                (remove_endpoint-IsThird answers.removed server' machine' w'))
              (bound-IsBound answers.bind))
            (λ server'' machine'' w''.
              and_then-AllOpening IsBound IsBound _ _
                (unless_failed-IsBound _ answers.chmod server'' machine'' w'')
                (unless_failed-IsBound _ answers.listen)))

  pub open_endpoint-IsBound :
      (answers : IpcAnswers) (endpoint : Text)
      → lock_path_of endpoint ≡ path
      → AllOpening IsBound (open_endpoint answers endpoint before)
  unfolding open_endpoint IsCounted
  open_endpoint-IsBound answers endpoint same =
      let start : LocalIpcServer = record {
        endpoint = endpoint;
        lock_path = lock_path_of endpoint;
        lock_fd = none;
        server_fd = none;
        endpoint_owned = false;
      } in
      let first : IsFirst start before = (
        record {
          counted = λ fd. omega arith;
          at_path = same;
          same_locks = refl;
          same_file = refl;
          not_owned = refl;
          no_socket = refl;
        },
        refl,
      ) in
      and_then-AllOpening IsThird IsBound _ (open_socket answers endpoint)
        (and_then-AllOpening IsSecond IsThird _ (take_lock answers.flock)
          (and_then-AllOpening IsFirst IsSecond _ (with_lock_file answers.open_lock)
            (unless_failed-IsFirst [] answers.lock_directory start before first)
            (with_lock_file-IsSecond answers.open_lock))
          (λ server machine w.
            flock-IsThird answers.flock (machine.locks server.lock_path) server machine refl w))
        (open_socket-IsBound answers endpoint)
