-- ===== src/Lib.antt =====
-- Verification library of the native Kernel of MADRE (kernel/ in the repository).
--
-- The Kernel keeps Work that clients submit over a local connection in an SQLite database, chooses an
-- engine for it, reserves the machine's resources and runs it as attempts in worker processes. The
-- files follow those parts:
--   Base (with its children): numbers and texts as the C++ code has them. A `std::string` is the list
--     of its bytes; an integer of w bits is its pattern below 2^w, with the wrap-around written out;
--     a `std::map` with text keys is the list of its entries in order; an exception is the error of a
--     `Result`.
--   Store: kernel/src/store.hpp and store.cpp. A table is the list of its rows in rowid order. Each
--     method of `WorkStore` is one function of Store/Operations or Store/Completion, its SQL written
--     as `find_if`, `update_where` and `changes` over the rows. Store/History lists the calls that
--     change the tables; the other files prove what all calls keep (Invariant, Ledger, Evolution) and
--     what single ones do (Schedule and Order, Requests, Endings, Acknowledgement, Recovery, Restart).
--   Protocol: kernel/src/protocol.hpp and protocol.cpp. Integers and Entries encode the header's
--     fields and the metadata; Frames has `encode_frame`, `read_frame` and the frame that the
--     incremental reader takes from its buffer; Available is `read_available`, for which the answers
--     of `read` are an input, and Heard what it has read.
--   Resources: `ResourceManager` and its leases, of kernel/src/worker_runtime.hpp and
--     worker_runtime.cpp.
--   Engines: the lists of names, the engine descriptors and `select_engine`, of kernel/src/main.cpp. Choice says
--     what it chooses, Failure why it chooses nothing.
--   Kernel: the rest of the class `Kernel` of kernel/src/main.cpp. Handlers and Dispatch are the
--     commands of a connection; Scheduler is one turn of `scheduler_loop`; Attempts is the end of
--     `execute_worker`. They call Store, Protocol, Resources and Engines as the code does. System has the
--     steps of the whole: a turn, a command, the end of an attempt; Turns, Reservations, Effects, Ends and
--     Interleavings prove what those keep.
--   Workers: `WorkerPool` and `WorkerPool::WorkerProcess` of kernel/src/worker_runtime.cpp, in the
--     POSIX build. Sending and Receiving are the two loops of `WorkerProcess::execute`, Execution puts
--     them together, Launching is the constructor and Pool the pool with its leases. Replies, Outcomes,
--     Prompt, Ending, Chunks, Silence and Busy are about an attempt, Walks, Leases, Runs and Reuse about
--     the pool, Descriptors about the launch. What the operating system answers is an input: a round of
--     a loop is a record of the answers that it gets. The objects that pool and leases share stand in a
--     store by their identity.
--   Llamacpp: kernel/workers/llamacpp/main.cpp. Generation has `generate` over a record of the llama.cpp
--     functions that it calls, Serving the loop of `main` from standard input to standard output;
--     Generated, Configured and Ending are about them, Answers about the two sides of an attempt, the
--     Kernel's `execute` and this worker, put together.
--   LocalIpc: kernel/src/local_ipc.cpp, in the POSIX build: `LocalIpcServer` over the descriptors, the
--     locks by their paths and the file of the endpoint. Stages follows its constructor, Exclusion is
--     what it leaves, and what a second process gets.
--   Options: `parse_options` and what `main` makes of the options.
--   Examples: the theorems at concrete inputs.
--
-- State is passed explicitly, one operation at a time: the code runs each call of the store and of
-- the manager under a mutex, or in one transaction. A turn of the scheduler makes several such calls
-- and is one step of System all the same: a call of another thread in the midst of a turn is not
-- modelled. The loops of an attempt recur on the list of their rounds, and still wait at its end.
-- Two functions run on fuel: the one that prints decimal numbers, whose fuel is the number itself,
-- which has fewer digits than its value, and the worker's loop, for which one turn more than its
-- input has bytes is enough. Times are `std::int64_t`: their sum wraps in the model where it
-- overflows, which C++ leaves undefined, and a theorem about the value of a sum assumes that it does
-- not.
--
-- Not modelled: SQLite below its statements (a failing disk, busy timeouts), the file system beyond
-- files under their paths, llama.cpp itself and the loading of its model, the threads of the
-- scheduler and of the attempts (an attempt on a worker is one step against the pool), and the
-- Windows branches.
pub mod Base
pub mod Store
pub mod Protocol
pub mod Resources
pub mod Engines
pub mod Kernel
pub mod Workers
pub mod Llamacpp
pub mod LocalIpc
pub mod Options
mod Examples
