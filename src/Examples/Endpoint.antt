-- ===== src/Examples/Endpoint.antt =====
-- The theorems on the local endpoint, where another process serves it.
use madre.Base.{text_eq, refl, [], ◌∷◌, none, some, true, false, codes}
use madre.Workers.Launching.{returns}
use madre.LocalIpc.{Machine, others, free, open_endpoint, open_socket, IpcAnswers, make_server}
use madre.LocalIpc.Exclusion.{IsMade, make_server-IsMade, IsRefused, make_server-IsExclusive}

abbrev served : Machine
served = record { open_fds = 0 ∷ 1 ∷ 2 ∷ []; locks = λ path. others; socket_file = true }

abbrev willing : IpcAnswers
willing = record {
  lock_directory = none;
  open_lock = returns 3;
  flock = none;
  endpoint_directory = none;
  removed = true;
  socket = returns 4;
  bind = none;
  chmod = none;
  listen = none;
  removed_at_end = true;
}

make_server-IsMade_example :
    IsMade (codes "/run/madre") served (make_server willing (codes "/run/madre") served)
make_server-IsMade_example = make_server-IsMade willing (codes "/run/madre") served (λ e. cc)

abbrev unserved : Machine
unserved = record served { locks = λ path. free; socket_file = false }

make_server-IsExclusive_example : IsRefused served (make_server willing (codes "/run/madre") served)
unfolding make_server open_endpoint open_socket codes text_eq
make_server-IsExclusive_example =
    make_server-IsExclusive willing willing (codes "/run/madre") unserved
      (make_server willing (codes "/run/madre") unserved).1 served
      (record {
        endpoint = codes "/run/madre";
        lock_path = codes "/run/madre.lock";
        lock_fd = some 3;
        server_fd = some 4;
        endpoint_owned = true;
      })
      (λ e. cc) refl refl
