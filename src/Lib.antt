-- ===== src/Lib.antt =====
-- What the shared-memory queues of aos, its times and its message types do.
--
-- The program is the aos library of the repository: processes exchange messages through
-- fixed-size queues in shared memory, stamp and schedule by its times, and describe messages to
-- each other by serialized message types. Its vision code finds the blobs of an image.
--
-- - `RawQueue` (aos/linux_code/ipc_lib/queue.{h,cc}): `Shm` has the members of the class and of
--   `MessageHeader`; `Messages` the reference counts and the free list (GetMessage,
--   Increment- and DecrementMessageReferenceCount); `Write` WriteMessage, DoWriteMessage,
--   FreeMessage and DoFreeMessage with the recycle queue; `Read` ReadMessage, ReadMessageIndex
--   and what they share; `Create` the constructor and FreeMessages. `View` reads the messages off
--   a ring, and `Fifo` says what a client may rely on. The queue is a user of `Options`.
-- - `Mutex` (aos/linux_code/ipc_lib/aos_sync.cc): the mutex under every queue, as the threads of all
--   processes run it; `Invariant` what holds in every state, `Safety` what users rely on.
-- - `Event` (aos/common/event.{h,cc}, on the futex_ functions of aos_sync.cc): an event that any
--   thread can set, clear and wait for; `Safety` that waits end, `Unset` that they do not end too
--   early, `Counts` what Clear finds.
-- - `Condition` (aos_sync.cc): condition variables on top of `Mutex`; `Phases` where a waiting thread
--   stands in the mutex, `Moving` what a step changes of that, `Relocked` that it stands there in every state,
--   `Broadcast` who is woken.
-- - `RobustList` (aos_sync.cc, as `Mutex`): the doubly linked list of the mutexes that a thread holds, in
--   memory; `Chained` its links, `Locking` Adder and Remover, `Offsets` SetRobustListOffset.
-- - `LogFile` (aos/common/logging/binary_log_file.{h,cc}): the pages of a log file, that one process
--   writes while others read; `Segments` what a reader has before it, `Writing` GetWritePosition,
--   `Reader` ReadNextMessage, `Seeking` IsLastPage and SkipToLastSeekablePage.
-- - `BinaryLog` (aos/common/logging/binary_log_writer.cc, and the loop of log_displayer.cc): log
--   messages to a file, by `LogFile`, with their types, by `MessageType`. `Publish` is a message made
--   visible, `Follow` a reader that keeps up, `Described` what a log has to say before a message,
--   `Written` CheckTypeWritten, `Clear` the sections of pages, `Loop` the main loop, `Display` what
--   log_displayer.cc takes out of a message, `ReadBack` a log that is read from its start.
-- - `WorkStack` (aos/common/transaction.h): changes of memory that can be undone, after an interruption
--   anywhere; `Undo` what CompleteWork restores, `Rollback` a change that is interrupted.
-- - `LinkedList` (aos/common/util/linked_list.h): the intrusive list, on the memory and by the steps of
--   `WorkStack`; `Chain` its elements, `Finding` its loops, `Reverting` Add and Remove.
-- - `PhasedLoop` (aos/common/util/phased_loop.{h,cc}): the times at which a loop runs, on `Time`;
--   `Rounding` whole intervals, `Arrive` the checks of Iterate, `Iterate` what it gives, `Start` Reset
--   and the constructor. The time that the source asks the clock for is an argument.
-- - `LogInterval` (aos/common/util/log_interval.h): what happens often, logged seldom, by `Time`.
-- - `WrappingCounter` (aos/common/util/wrapping_counter.{h,cc}): a count from one byte that wraps.
-- - `Options` (aos/common/util/options.h): sets of option bits.
-- - `Time` (aos/common/time.{h,cc}): seconds and nanoseconds, their arithmetic and conversions;
--   `Divide` is about division.
-- - `MessageType` (aos/common/queue_types.{h,cc}): Serialize and Deserialize, with the conversions
--   of aos/common/byteorder.h in `Base/Bytes`.
-- - `Printing` (aos/common/queue_types.cc): PrintMessage, PrintArray and PrintMatrix; `Texts` what they
--   are to write, `Emits` and `Parts` what the parts of a printer do when there is room, `Loops`, `Exact`
--   and `Messages` that of the whole, `Matrix` PrintMatrix.
-- - `PrintInteger` (aos/common/print_field_helpers.h): an integer as text; `Digits` the loop that writes
--   the digits, `Swaps` the one that turns them around, `Decimal` what a text says, `Placed` the text in
--   the buffer, `Whole` all of it.
-- - `Blob` (aos/vision/blob/range_image.h, codec.{h,cc} and threshold.h): the spans of pixels that
--   the vision code works on; `Codec` their bytes, `Threshold` how an image is made into spans.
-- - `FindBlob` (aos/vision/blob/find_blob.cc and disjoint_set.h): the spans of an image put together
--   to blobs; `Weights` sums over spans, `Forest` and `Sets` the disjoint sets, `Operations` what
--   the sets' operations do, `Rows` and `Loops` the loops, `Conserved` the whole function.
-- - `Base`: lists, integers, Boolean tests and bytes that the others share.
--
-- A call on a queue is one step, as the data lock makes it: the outcome is a result, a crash
-- (LOG(FATAL) or abort), or a wait on a condition, after which the source starts the call over.
-- A message is named by its address, and a compare-and-exchange loop is one exchange. The loop of
-- DoWriteMessage has two rounds, since one override makes room; the loop of DoReadMessage for
-- kFromEnd has as many as the array has entries. Running out of rounds is an outcome of its own,
-- which the theorems exclude. Counts of messages and positions are natural numbers and do not
-- wrap; reference counts do, at 32 bits. On a mutex, a step is one access to the futex or one
-- system call that returns, but the load and the and-fetch at the end of a lock are one step, and a
-- second lock by the thread that holds the mutex is left out; the kernel is a parameter, `Mutex.Kernel`, with what the code relies on
-- of the futex calls and of the exit of a thread. The recursion of DisjointSet::find has one round
-- more than the array has entries, and the loops over a row one more than its steps; that these are
-- enough is part of what is shown. The numbers of spans, and the seconds and nanoseconds of a time,
-- are integers that do not wrap, since an overflow is undefined in the source; the conversions of
-- integers to fewer bits do wrap.
--
-- A log file is written in four kinds of steps, between which readers may run: the ftruncate, the mark
-- on the old page with the taking of a place, the filling in of a message, and the setting of its
-- marker. The stores that fill in a message are one step.
--
-- Steps of an event and of a condition variable are like those of a mutex, with `Event.Kernel`; a
-- change that a `WorkStack` can undo is a list of writes and of the two parts of AddWork, which an
-- interruption cannot split. Remove and the other loops over a linked list have more rounds than the
-- list has elements, and the loop over the digits of an integer more than it has units.
--
-- Not modelled: Fetch, which finds queues by name; condition variables with USE_REQUEUE_PI and the
-- allocation of shared memory; clocks and sleeping; the type cache, and PrintField, which the build
-- generates; the implementations of logging, log files that cannot be mapped, and the choice of the
-- log file; the starter, the corners of blobs, contours and the rest of the vision code, the
-- dashboard and the third-party libraries.
pub mod Base
pub mod Options
pub mod LogFile
pub mod BinaryLog
pub mod Printing
pub mod PrintInteger
pub mod PhasedLoop
pub mod LogInterval
pub mod Event
pub mod Condition
pub mod WorkStack
pub mod LinkedList
pub mod WrappingCounter
pub mod RawQueue
pub mod RobustList
pub mod Mutex
pub mod Blob
pub mod FindBlob
pub mod Time
pub mod MessageType
