-- ===== src/Lib.antt =====
-- xx-core: an asynchronous runtime library with its own coroutines, buffered input and output,
-- synchronization and intrusive data structures. This library models the parts that hold the
-- program's own logic. Paths are from the root of the repository.
--
-- Parts and files:
--   Io           src/async_std/io and src/io. Contract states what a reader and a writer promise;
--                the reader or writer below a buffer is a parameter that keeps it. BufReader is
--                src/async_std/io/buf_reader.rs with read_until and fill of read.rs: one function
--                for each method, on a record with the buffer, the range that is buffered and the
--                reader. BufReader/Seek is its Seek implementation. BufWriter is
--                src/async_std/io/buf_writer.rs, with BufWriter/Seek. Seek is
--                src/async_std/io/seek.rs. Transfer has the loops of read.rs and write.rs that
--                fill or send a whole buffer, and Vectored and Scatter those over several slices. ToEnd is
--                read_to_end, and Lines has append_to_string, read_line and the iterator over lines,
--                all of read.rs. Typed is src/async_std/io/typed.rs with src/io/typed.rs: numbers
--                of any width, and of a variable size, in both byte orders.
--   Branch       src/coroutines/branch.rs, with what select.rs and join.rs beside it make of its output:
--                two futures that run at once. What a future does in a run or a cancellation is an
--                argument. Shape says which branches can be waiting, and Races follows one from its run to
--                its completion.
--   Intrusive    src/container/intrusive/linked_list.rs over an explicit heap of nodes: reads and
--                writes of a node that is not alive are undefined, failed assertions panic.
--   Waiter       AtomicWaiter of src/async_std/sync/wait_list.rs: the points of each call between
--                two atomic operations, and a step relation of any number of threads.
--   Mutex        src/async_std/sync/mutex.rs, likewise, with the suspension, the cancellation and
--                wake_one of ThreadSafeWaitList, on which the mutex suspends its lockers.
--   SpinMutex    src/sync/spin_lock.rs and src/sync/spin_mutex.rs, likewise, with a value that is read
--                and written through the guards.
--   Broadcast    src/async_std/sync/broadcast.rs: the ring of slots, with any number of receivers;
--                Invariant says what holds of a channel, System runs the operations in any order.
--   Oneshot      src/async_std/sync/channel/oneshot.rs: sender and receiver between two atomic
--                operations, in all interleavings.
--   MpChannel    src/async_std/sync/channel/mp.rs: the bounded ring between its atomic operations, with
--                any number of senders and receivers and a history of what was sent and taken.
--                Invariant says what holds in every reachable state, Frame, Owners, Claims, Accesses,
--                Turns and Keeps that each step keeps it. Waiting has the loops of send and recv.
--   FiberPool    src/fiber/pool.rs: the stacks that are kept for new fibers.
--   Backoff      src/sync/backoff.rs: the step of a loop that waits and the spins of each round.
--   Uint         src/impls/uint.rs for any width; the broadcast channel and the seeks use it.
--   Base         lists, slices of a buffer, signed numbers, and the outcomes of fallible code.
--
-- Parameters. Readers, writers and streams below a buffer are arguments with the contract of their
-- trait as hypothesis; memchr and from_utf8, which says whether bytes are valid UTF-8, are
-- arguments, and so is the growth of a vector, which is at least what is asked for. A future of a
-- branch calls back for itself only, within its cancellation or later. Whether the task is
-- interrupted is asked of the state of the reader or the writer, which takes in what is around it, at
-- each check anew. Each contract has an instance in a Tests module.
-- Numbers. A width of w bits is given by half, 2 ^ (w - 1), and wrap-around is written out where
-- the code wraps. Lengths and indices of a buffer are lengths of lists and do not wrap. The
-- broadcast channel and the ring of MpChannel are proved for fewer than half of the numbers of
-- their counters.
-- Fuel. The loops of pipe_from, read_until, read_to_end, try_read_fully, try_write_all,
-- default_write_vectored and default_read_vectored, and a walk over all lines, take fuel, and their
-- theorems say that the call ends for any fuel above a bound that they name: a size of the bytes
-- that are left in the stream or in the buffers given. flush_buf is given one round more than there
-- are buffered bytes, and skip_amount three rounds, which are shown to be enough.
-- The callbacks of a branch take a depth of calls within calls, of which two are shown to be
-- enough.
-- Interleavings are sequences of atomic operations that are seen by all threads in one order.
--
-- Not modelled: the switch of stacks of the fibers and the system calls (assembly and the operating
-- system), the packed errors, logging, the macros, and wrappers of raw pointers and atomics. Fibers
-- and their executor, the thread pool, the formatting of typed writes and floats of a variable size
-- are not modelled.
pub mod Backoff
pub mod Base
pub mod Branch
pub mod Broadcast
pub mod FiberPool
pub mod Intrusive
pub mod Io
pub mod MpChannel
pub mod Mutex
pub mod Oneshot
pub mod SpinMutex
pub mod Uint
pub mod Waiter
