-- ===== src/Kernel/Effects.antt =====
-- What a command does to the database.
use madre.Base.{
  ℕ, ◌≡◌, inl, inr, refl, List, [], ◌∷◌, Bool, true, false, ltb, length, Text, codes, Result, ok,
  Result-cases, Option-cases, Bool-cases, ◌==◌, if◌then◌else◌,
}
use madre.Protocol.{Frame, max_payload_bytes}
use madre.Protocol.MessageType
use madre.Protocol.Frames.{metadata_value}
use madre.Store.{WorkRecord}
use madre.Store.Operations
use madre.Store.Completion
use madre.Store.History.{Call, submits, cancels, acknowledges, step, run}
use madre.Kernel.{Kernel}
use madre.Kernel.Handlers
use madre.Kernel.Handlers.{submitted_work}
use madre.Kernel.Files.{write_binary_atomic}
use madre.Kernel.Dispatch.{Surroundings, handle, unsupported}

abbrev ReachesStore : Kernel → Kernel → Type 0
ReachesStore kernel kernel' = (calls : List Call) × (kernel'.store ≡ run kernel.store calls)

unchanged : (kernel : Kernel) → ReachesStore kernel kernel
unfolding run
unchanged kernel = ([], refl)

insert_work-ReachesStore :
    (errmsg : Text) (work : WorkRecord) (request : Frame) (kernel : Kernel)
    → ReachesStore kernel (Handlers.insert_work errmsg work request kernel).0
unfolding Handlers.insert_work run step
insert_work-ReachesStore errmsg work request kernel =
    elim (Result-cases (Operations.submit errmsg work kernel.store)) [
      | inl (store, e) ↦ rw (e, Handlers.insert_work) (submits errmsg work ∷ [], rw e refl)
      | inr (x, e) ↦ rw (e, Handlers.insert_work) ([], refl)
    ]

store_work-ReachesStore :
    (errmsg : Text) (work : WorkRecord) (request : Frame) (kernel : Kernel)
    → ReachesStore kernel (Handlers.store_work errmsg work request kernel).0
unfolding Handlers.store_work
store_work-ReachesStore errmsg work request kernel =
    elim (Result-cases (write_binary_atomic work.input_path request.payload kernel.files)) [
      | inr (x, f) ↦ rw (f, Handlers.store_work) (unchanged kernel)
      | inl (files, f) ↦
          rw (f, Handlers.store_work)
            (insert_work-ReachesStore errmsg work request (record kernel { files = files }))
    ]

submit-ReachesStore :
    (errmsg : Text) (now : ℕ) (id : Text) (request : Frame) (kernel : Kernel)
    → ReachesStore kernel (Handlers.submit errmsg now id request kernel).0
unfolding Handlers.submit
submit-ReachesStore errmsg now id request kernel =
    elim (Bool-cases (ltb max_payload_bytes (length request.payload))) [
      | inl big ↦ rw (big, Handlers.submit) (unchanged kernel)
      | inr fits ↦ elim (Result-cases (submitted_work kernel.data_dir now id request)) [
        | inr (x, e) ↦ rw (fits, e, Handlers.submit) (unchanged kernel)
        | inl (work, e) ↦
            rw (fits, e, Handlers.submit) (store_work-ReachesStore errmsg work request kernel)
      ]
    ]

acknowledge_work-ReachesStore :
    (id : Text) (work : WorkRecord) (request : Frame) (kernel : Kernel)
    → ReachesStore kernel (Handlers.acknowledge_work id work request kernel).0
unfolding Handlers.acknowledge_work run step
acknowledge_work-ReachesStore id work request kernel =
    elim (Bool-cases (Completion.acknowledge id kernel.store).0) [
      | inl taken ↦ rw (taken, Handlers.acknowledge_work) (acknowledges id ∷ [], refl)
      | inr refused ↦ rw (refused, Handlers.acknowledge_work) (acknowledges id ∷ [], refl)
    ]

acknowledge-ReachesStore :
    (request : Frame) (kernel : Kernel)
    → ReachesStore kernel (Handlers.acknowledge request kernel).0
unfolding Handlers.acknowledge
acknowledge-ReachesStore request kernel =
    elim (Result-cases (metadata_value request (codes "work_id"))) [
      | inr (x, e) ↦ rw (e, Handlers.acknowledge) (unchanged kernel)
      | inl (id, e) ↦ elim (Option-cases (Operations.find id kernel.store)) [
        | inl unknown ↦ rw (e, unknown, Handlers.acknowledge) (unchanged kernel)
        | inr (work, known) ↦
            rw (e, known, Handlers.acknowledge)
              (acknowledge_work-ReachesStore id work request kernel)
      ]
    ]

cancel-ReachesStore :
    (request : Frame) (kernel : Kernel) → ReachesStore kernel (Handlers.cancel request kernel).0
unfolding Handlers.cancel run step
cancel-ReachesStore request kernel =
    elim (Result-cases (metadata_value request (codes "work_id"))) [
      | inr (x, e) ↦ rw (e, Handlers.cancel) ([], refl)
      | inl (id, e) ↦ rw (e, Handlers.cancel) (cancels id ∷ [], refl)
    ]

record Replies (kernel : Kernel) (reply : Handlers.Reply) : Type 0 where
  reached : ReachesStore kernel reply.0

replies :
    {kernel : Kernel} (reply : Handlers.Reply) → ReachesStore kernel reply.0 → Replies kernel reply
replies reply r = record { reached = r }

either :
    {kernel : Kernel} (b : Bool) {x y : Handlers.Reply}
    → Replies kernel x
    → Replies kernel y
    → Replies kernel (if b then x else y)
either true hx hy = hx
either false hx hy = hy

handle-Replies :
    (around : Surroundings) (request : Frame) (kernel : Kernel)
    → Replies kernel (handle around request kernel)
unfolding handle
handle-Replies around request kernel =
    let stays : (r : Result Frame) → Replies kernel (kernel, r) =
      λ r. replies (kernel, r) (unchanged kernel) in
    let submitted = Handlers.submit around.errmsg around.now around.work_id request kernel in
    let described = Handlers.engine_status around.is_warm request kernel in
    let listed = Handlers.list_engines around.is_warm request kernel in
    either (request.type == MessageType.submit)
      (replies submitted
        (submit-ReachesStore around.errmsg around.now around.work_id request kernel))
      (either (request.type == MessageType.status) (stays (Handlers.status request kernel)) (
        either (request.type == MessageType.result) (stays (Handlers.result request kernel)) (
          either (request.type == MessageType.acknowledge)
            (replies (Handlers.acknowledge request kernel)
              (acknowledge-ReachesStore request kernel))
            (either (request.type == MessageType.cancel)
              (replies (Handlers.cancel request kernel) (cancel-ReachesStore request kernel))
              (either (request.type == MessageType.list_engines) (stays (ok listed)) (
                either (request.type == MessageType.engine_status) (stays described)
                  (stays (ok (unsupported request)))))))))

-- Whatever a client asks, the database goes only through the calls of the store: every command is a
-- sequence of them, so what holds along all histories of calls holds of the Kernel's database.
pub handle-run :
    (around : Surroundings) (request : Frame) (kernel : Kernel)
    → (calls : List Call) × ((handle around request kernel).0.store ≡ run kernel.store calls)
handle-run around request kernel = (handle-Replies around request kernel).reached
