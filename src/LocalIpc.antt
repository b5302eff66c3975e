-- ===== src/LocalIpc.antt =====
-- kernel/src/local_ipc.cpp: the local endpoint, in the POSIX build: its lock file, its socket and the
-- connections that it accepts.
pub mod Stages
pub mod Exclusion
use madre.Base.{
  ℕ, List, [], ◌∷◌, ◌++◌, Option, none, some, Bool, true, false, ltb, length, Text, codes, text_eq,
  if◌then◌else◌, ◌&&◌, Result, ok, err, Error, runtime_error,
}
use madre.Workers.Launching.{Answer, returns, fails, Open, close}

-- Who has the `flock` on the lock file: this server, by its descriptor, with which the lock goes; or
-- another one.
pub data Lock : Type 0 where
  free others ours : Lock

-- What the process shares with others: its descriptors, the lock of each path, and whether the
-- endpoint's file exists.
pub record Machine : Type 0 where
  pub open_fds : Open
  pub locks : Text → Lock
  pub socket_file : Bool

-- `LocalIpcServer::Impl`, with `-1` as `none`.
pub record LocalIpcServer : Type 0 where
  pub endpoint : Text
  pub lock_path : Text
  pub lock_fd : Option ℕ
  pub server_fd : Option ℕ
  pub endpoint_owned : Bool

-- What the outside answers to the constructor: the text of an error, or nothing; and whether the
-- file of the endpoint can be removed, before the socket is made and in the cleanup.
pub record IpcAnswers : Type 0 where
  pub lock_directory : Option Text
  pub open_lock : Answer ℕ
  pub flock : Option Text
  pub endpoint_directory : Option Text
  pub removed : Bool
  pub socket : Answer ℕ
  pub bind : Option Text
  pub chmod : Option Text
  pub listen : Option Text
  pub removed_at_end : Bool

-- The `try` block so far: it goes on, or has thrown.
pub data Opening : Type 0 where
  goes_on : LocalIpcServer → Machine → Opening
  thrown : Error → LocalIpcServer → Machine → Opening

abbrev pub and_then : Opening → (LocalIpcServer → Machine → Opening) → Opening
and_then (goes_on server machine) next = next server machine
and_then (thrown e server machine) next = thrown e server machine

-- `if (call failed) throw`
abbrev pub unless_failed : Text → Option Text → LocalIpcServer → Machine → Opening
unless_failed message none server machine = goes_on server machine
unless_failed message (some error) server machine =
    thrown (runtime_error (message ++ error)) server machine

-- `lock_path = endpoint; lock_path += ".lock";`
abbrev pub lock_path_of : Text → Text
lock_path_of endpoint = endpoint ++ codes ".lock"

abbrev pub set_lock : Text → Lock → (Text → Lock) → Text → Lock
set_lock path lock locks other = if text_eq other path then lock else locks other

abbrev pub with_lock_file : Answer ℕ → LocalIpcServer → Machine → Opening
with_lock_file (fails error) server machine =
    thrown (runtime_error (codes "open Kernel endpoint lock failed: " ++ error)) server machine
with_lock_file (returns fd) server machine =
    goes_on (record server { lock_fd = some fd })
      (record machine { open_fds = fd ∷ machine.open_fds })

abbrev pub flock_free : Option Text → LocalIpcServer → Machine → Opening
flock_free none server machine =
    goes_on server (record machine { locks = set_lock server.lock_path ours machine.locks })
flock_free (some error) server machine =
    thrown (runtime_error (codes "acquire Kernel endpoint lock failed: " ++ error)) server machine

-- `::flock(lock_fd, LOCK_EX | LOCK_NB)`
abbrev pub flock : Option Text → Lock → LocalIpcServer → Machine → Opening
flock answer free server machine = flock_free answer server machine
flock answer others server machine =
    thrown (runtime_error (codes "Kernel endpoint lock is already held")) server machine
flock answer ours server machine =
    thrown (runtime_error (codes "Kernel endpoint lock is already held")) server machine

abbrev pub take_lock : Option Text → LocalIpcServer → Machine → Opening
take_lock answer server machine = flock answer (machine.locks server.lock_path) server machine

-- `sizeof(sockaddr_un::sun_path)`
abbrev sun_path_size : ℕ
sun_path_size = 108

abbrev pub check_path : Text → LocalIpcServer → Machine → Opening
check_path endpoint server machine =
    if ltb (length endpoint) sun_path_size
    then goes_on server machine
    else thrown (runtime_error (codes "Unix-domain socket path is too long")) server machine

-- `fs::remove(endpoint, error)`
abbrev pub remove_endpoint : Bool → Machine → Machine
remove_endpoint true machine = record machine { socket_file = false }
remove_endpoint false machine = machine

abbrev pub with_socket : Answer ℕ → LocalIpcServer → Machine → Opening
with_socket (fails error) server machine =
    thrown (runtime_error (codes "create Unix-domain socket failed: " ++ error)) server machine
with_socket (returns fd) server machine =
    goes_on (record server { server_fd = some fd })
      (record machine { open_fds = fd ∷ machine.open_fds })

abbrev pub bound : Option Text → LocalIpcServer → Machine → Opening
bound none server machine =
    goes_on (record server { endpoint_owned = true }) (record machine { socket_file = true })
bound (some error) server machine =
    thrown (runtime_error (codes "bind Unix-domain socket failed: " ++ error)) server machine

-- The socket, behind the lock.
unfoldable pub open_socket : IpcAnswers → Text → LocalIpcServer → Machine → Opening
open_socket answers endpoint server machine =
    and_then
      (and_then (check_path endpoint server machine) (unless_failed [] answers.endpoint_directory))
      (λ server' machine'.
        and_then
          (and_then (with_socket answers.socket server' (remove_endpoint answers.removed machine'))
            (bound answers.bind))
          (λ server'' machine''.
            and_then
              (unless_failed (codes "set owner-only Unix-domain socket permissions failed: ")
                answers.chmod server'' machine'')
              (unless_failed (codes "listen on Unix-domain socket failed: ") answers.listen)))

-- The `try` block of the constructor.
unfoldable pub open_endpoint : IpcAnswers → Text → Machine → Opening
open_endpoint answers endpoint machine =
    and_then
      (and_then
        (and_then
          (unless_failed [] answers.lock_directory
            (record {
              endpoint = endpoint;
              lock_path = lock_path_of endpoint;
              lock_fd = none;
              server_fd = none;
              endpoint_owned = false;
            })
            machine)
          (with_lock_file answers.open_lock))
        (take_lock answers.flock))
      (open_socket answers endpoint)

abbrev pub close_if : Option ℕ → Open → Open
close_if none open_fds = open_fds
close_if (some fd) open_fds = close fd open_fds

abbrev pub released : Lock → Lock
released free = free
released others = others
released ours = free

-- The file of the lock is closed, if it was open.
abbrev pub unlocked : Option ℕ → Text → (Text → Lock) → Text → Lock
unlocked none path locks = locks
unlocked (some fd) path locks = set_lock path (released (locks path)) locks

abbrev removed_if : Bool → Bool → Bool → Bool
removed_if true true exists = false
removed_if true false exists = exists
removed_if false can_remove exists = exists

abbrev is_named : Text → Bool
is_named [] = false
is_named (c ∷ endpoint) = true

-- `cleanup`, of a server that has no more than its descriptors then.
unfoldable pub cleanup : Bool → LocalIpcServer → Machine → Machine
cleanup removed server machine = record {
  open_fds = close_if server.lock_fd (close_if server.server_fd machine.open_fds);
  locks = unlocked server.lock_fd server.lock_path machine.locks;
  socket_file =
      removed_if (server.endpoint_owned && is_named server.endpoint) removed machine.socket_file;
}

abbrev pub opened : Bool → Opening → Result LocalIpcServer × Machine
opened removed (goes_on server machine) = (ok server, machine)
opened removed (thrown e server machine) = (err e, cleanup removed server machine)

-- The constructor: the server, or the exception after the cleanup.
unfoldable pub make_server : IpcAnswers → Text → Machine → Result LocalIpcServer × Machine
make_server answers endpoint machine =
    opened answers.removed_at_end (open_endpoint answers endpoint machine)

-- `::poll` and `::accept4`: nothing yet, `EINTR`, an error, or a descriptor.
pub data Waited : Type 0 where
  nothing interrupted ready : Waited
  poll_failed : Text → Waited

pub data Accepted : Type 0 where
  connection : ℕ → Accepted
  accept_interrupted : Accepted
  accept_failed : Text → Accepted

abbrev accepted : Accepted → Machine → Result (Option ℕ) × Machine
accepted (connection fd) machine =
    (ok (some fd), record machine { open_fds = fd ∷ machine.open_fds })
accepted accept_interrupted machine = (ok none, machine)
accepted (accept_failed error) machine =
    (err (runtime_error (codes "accept local IPC client failed: " ++ error)), machine)

-- The connection, or `none` for `-1`.
unfoldable pub accept_for : Waited → Accepted → Machine → Result (Option ℕ) × Machine
accept_for nothing answer machine = (ok none, machine)
accept_for interrupted answer machine = (ok none, machine)
accept_for (poll_failed error) answer machine =
    (err (runtime_error (codes "poll local IPC socket failed: " ++ error)), machine)
accept_for ready answer machine = accepted answer machine

unfoldable pub close_local_ipc : Option ℕ → Machine → Machine
close_local_ipc fd machine = record machine { open_fds = close_if fd machine.open_fds }
