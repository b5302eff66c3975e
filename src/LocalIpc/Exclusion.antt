-- ===== src/LocalIpc/Exclusion.antt =====
-- One Kernel at an endpoint: what the constructor leaves, in success and in failure.
use mathlib.Core.Path.{subst}
use madre.Base.{
  sym, ap, text_eq, text_eq_iff, text_eq_refl, Bool-cases, if◌then◌else◌, Error, [], ℕ, ◌+◌, ◌≡◌,
  ◌≢◌, ◌≤◌, ◌∙◌, ◌⊎◌, inl, inr, refl, Option, none, some, Bool, true, Text, arith, Result, ok, err,
}
use madre.Workers.Walks.{count, count-erase_worker}
use madre.Workers.Launching.{Open}
use madre.LocalIpc.{
  Lock, free, others, ours, Machine, LocalIpcServer, IpcAnswers, Opening, goes_on, thrown, close_if,
  unlocked, open_endpoint, lock_path_of, set_lock, released, cleanup, opened, make_server,
}
use madre.LocalIpc.Stages.{held, IsCounted, IsBound, AllOpening, open_endpoint-IsBound}

module _ (before : Machine) where
  count-close_if :
      (fd : ℕ) (x : Option ℕ) (open_fds : Open)
      → held fd x ≤ count fd open_fds
      → count fd (close_if x open_fds) + held fd x ≡ count fd open_fds
  count-close_if fd none open_fds h = omega arith
  count-close_if fd (some x) open_fds h = ground (arith, count-erase_worker x fd open_fds)

  cleanup-count :
      (removed : Bool) (server : LocalIpcServer) (machine : Machine) (fd : ℕ)
      → IsCounted before [] server machine
      → count fd (cleanup removed server machine).open_fds ≡ count fd before.open_fds
  unfolding cleanup IsCounted
  cleanup-count removed server machine fd counted =
      let first = count-close_if fd server.server_fd machine.open_fds (omega (arith, counted fd)) in
      omega (
        arith,
        counted fd,
        first,
        count-close_if fd server.lock_fd (close_if server.server_fd machine.open_fds)
            (omega (arith, counted fd, first)),
      )

-- With a server: the lock of the endpoint was free and is its own, its socket's file exists, and its
-- descriptors are open besides those that were. Without: the locks and the descriptors are as before;
-- and if the lock was another's, so is the file.
abbrev pub IsMade : Text → Machine → Result LocalIpcServer × Machine → Type 0
IsMade endpoint before (ok server, machine) =
    (before.locks (lock_path_of endpoint) ≡ free)
    × (machine.locks ≡ set_lock (lock_path_of endpoint) ours before.locks)
    × (machine.socket_file ≡ true)
    × ((fd : ℕ)
        → count fd machine.open_fds
          ≡ count fd before.open_fds + (held fd server.lock_fd + held fd server.server_fd))
IsMade endpoint before (err e, machine) =
    ((path : Text) → machine.locks path ≡ before.locks path)
    × ((fd : ℕ) → count fd machine.open_fds ≡ count fd before.open_fds)
    × ((before.locks (lock_path_of endpoint) ≡ free) ⊎ (machine.socket_file ≡ before.socket_file))

set_lock_same :
    (path : Text) (lock : Lock) (locks : Text → Lock)
    → locks path ≡ lock
    → (other : Text) → set_lock path lock locks other ≡ locks other
set_lock_same path lock locks e other = elim (Bool-cases (text_eq other path)) [
  | inl same ↦ rw same (sym e ∙ ap locks (sym ((text_eq_iff other path).0 same)))
  | inr different ↦ rw different refl
]

unlocked_other :
    (fd : Option ℕ) (path : Text) (locks : Text → Lock)
    → locks path ≢ ours
    → (other : Text) → unlocked fd path locks other ≡ locks other
unlocked_other none path locks n other = refl
unlocked_other (some fd) path locks n other =
    set_lock_same path (released (locks path)) locks (kept (locks path) n) other
  where
    kept : (lock : Lock) → lock ≢ ours → lock ≡ released lock
    kept free n = refl
    kept others n = refl
    kept ours n = absurd (n refl)

-- A lock that was free and that is taken and released is as it was.
unlocked_taken :
    (path : Text) (locks : Text → Lock)
    → locks path ≡ free
    → (other : Text)
    → set_lock path (released (set_lock path ours locks path)) (set_lock path ours locks) other
      ≡ locks other
unlocked_taken path locks e other = elim (Bool-cases (text_eq other path)) [
  | inl same ↦
      rw (same, text_eq_refl path) (sym e ∙ ap locks (sym ((text_eq_iff other path).0 same)))
  | inr different ↦ rw different refl
]

opened-IsMade :
    (before : Machine) (endpoint : Text) (removed : Bool) (opening : Opening)
    → before.locks (lock_path_of endpoint) ≢ ours
    → AllOpening before (lock_path_of endpoint) (IsBound before (lock_path_of endpoint)) opening
    → IsMade endpoint before (opened removed opening)
unfolding IsCounted cleanup
opened-IsMade before endpoint removed (goes_on server machine) n w =
    (w.locked.was_free, w.locked.is_ours, w.exists, w.locked.counted)
opened-IsMade before endpoint removed (thrown e server machine) n (inl w) = (
  λ path.
      unlocked_other server.lock_fd server.lock_path machine.locks (rw (w.same_locks, w.at_path) n)
        path
      ∙ ap (λ locks. locks path) w.same_locks,
  λ fd. cleanup-count before removed server machine fd w.counted,
  inr (rw w.not_owned w.same_file),
)
opened-IsMade before endpoint removed (thrown e server machine) n (inr w) = (
  λ path.
      rw (w.has_lock, w.is_ours, w.at_path)
        (unlocked_taken (lock_path_of endpoint) before.locks w.was_free path),
  λ fd. cleanup-count before removed server machine fd w.counted,
  inl w.was_free,
)

-- The constructor makes a server only if the lock beside the endpoint was free; the process then has
-- that lock, and the other locks are as they were. A constructor that throws, at whichever call,
-- leaves the locks and the descriptors as they were; and if another process has the lock, its
-- socket's file too. Before, this process has no server at the endpoint.
pub make_server-IsMade :
    (answers : IpcAnswers) (endpoint : Text) (before : Machine)
    → before.locks (lock_path_of endpoint) ≢ ours
    → IsMade endpoint before (make_server answers endpoint before)
unfolding make_server
make_server-IsMade answers endpoint before n =
    opened-IsMade before endpoint answers.removed_at_end (open_endpoint answers endpoint before) n
      (open_endpoint-IsBound before (lock_path_of endpoint) answers endpoint refl)

-- What a lock of one process is to another one.
abbrev pub seen_by_another : Lock → Lock
seen_by_another free = free
seen_by_another ours = others
seen_by_another others = others

-- The constructor has thrown, and the socket's file is as it was.
pub record IsRefused (before : Machine) (made : Result LocalIpcServer × Machine) : Type 0 where
  pub e : Error
  pub machine : Machine
  pub thrown : made ≡ (err e, machine)
  pub same_file : machine.socket_file ≡ before.socket_file

not_free-IsRefused :
    (endpoint : Text) (before : Machine) (made : Result LocalIpcServer × Machine)
    → before.locks (lock_path_of endpoint) ≡ others
    → IsMade endpoint before made
    → IsRefused before made
not_free-IsRefused endpoint before (ok server, machine) e w = absurd (cc (e, w.0))
not_free-IsRefused endpoint before (err x, machine) e (same, fds, inl free') =
    absurd (cc (e, free'))
not_free-IsRefused endpoint before (err x, machine) e (same, fds, inr file) = record {
  e = x;
  machine = machine;
  thrown = refl;
  same_file = file;
}

-- Of two Kernels at one endpoint only one gets a server: once one process has made its server,
-- another one that sees its lock on the endpoint's path does not make a second, whatever the outside
-- answers it, and leaves the socket's file alone.
pub make_server-IsExclusive :
    (first second : IpcAnswers) (endpoint : Text) (before mine theirs : Machine)
    (server : LocalIpcServer)
    → before.locks (lock_path_of endpoint) ≢ ours
    → make_server first endpoint before ≡ (ok server, mine)
    → theirs.locks (lock_path_of endpoint) ≡ seen_by_another (mine.locks (lock_path_of endpoint))
    → IsRefused theirs (make_server second endpoint theirs)
make_server-IsExclusive first second endpoint before mine theirs server n made seen =
    let w = subst (IsMade endpoint before) made (make_server-IsMade first endpoint before n) in
    let path = lock_path_of endpoint in
    let has : mine.locks path ≡ ours =
      ap (λ locks. locks path) w.1
      ∙ ap (λ same. if same then ours else before.locks path) (text_eq_refl path) in
    let elsewhere : theirs.locks path ≡ others = seen ∙ ap seen_by_another has in
    not_free-IsRefused endpoint theirs (make_server second endpoint theirs) elsewhere
      (make_server-IsMade second endpoint theirs (λ e. cc (e, elsewhere)))
