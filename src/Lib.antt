-- ===== src/Lib.antt =====
-- coplus, a parallel programming library: a verification library for its data structures.
--
-- The parts and the files that model them (paths from the repository's root):
-- - include/coplus/fast_queue.h, `SlowQueue`: SlowQueue.antt. A ring under a mutex, the free list of
--   `FastQueue`. A method is a function from the queue to the new queue and the result; the lock
--   makes each method one step. `ret`, a reference in the source, is an argument and a result.
--   SlowQueue/Order.antt reads the contents off the ring, Refine.antt proves each method against a
--   list, Bag.antt any sequence of calls against a bag.
-- - `FastLocalQueue`: LocalQueue.antt models a call as one step on the eight counters, which are
--   32-bit and wrap; Refine.antt proves it a bounded queue. Threads.antt models the same calls one
--   shared access at a time, one producer against any number of consumers, as a step relation;
--   below it stand the invariant (Verdicts, Consumers), what it gives (Safety, Capacity), the order
--   of the items with one consumer (Linear) and an evaluator of schedules (Schedule).
-- - `PushOnlyFastStack`: FastStack.antt, one call at a time, with a fault for a read outside the
--   array of chunks; Items.antt reads the items off the chunks. FastStack/Threads.antt has any number
--   of threads that push and get, one shared access at a time, with the chunks by their numbers, and
--   its Found.antt what a token finds. OwnerStack.antt is the specialisation for `std::unique_ptr`,
--   with what an assignment to a cell and the destructor delete; its Pushes.antt is on both.
-- - `FastQueue` and `ProducerHandle`: FastQueue.antt has the queue, with a pointer to a local queue
--   as an index into a list of those made, and the producers' side; FastQueue/Consume.antt has
--   `pop`, `pop_hard` and `element_count`, their loops on fuel and the random index an argument.
--   Consume/Livelock.antt is on queues that are all empty; there `pop_hard` needs one unit of fuel
--   more than there are queues.
-- - include/coplus/channel.h: Channel.antt is the buffered `Channel` and Channel/Sync.antt the
--   `SyncChannel`, each with its calling threads, its scheduler thread and the condition variables as
--   a step relation whose steps are critical sections; spurious wakeups are steps of their own.
--   Order.antt is on what passes through, Wakeups.antt on threads that wait, Tests.antt has schedules.
-- - include/coplus/util.h, `StringUtil`: Text.antt, with strings as lists of bytes; Text/Split.antt is
--   on `split`, Text/Join.antt on it at single separators, Text/Affixes.antt on `starts_with` and
--   `ends_with`. The loop of `split` needs one unit of fuel more than the string has bytes, since each
--   round leaves a byte behind; that of the `split` at spaces needs one more than there are rounds,
--   and has a test only.
-- - include/coplus/protocol.h: Protocol.antt, the framing of a message, with its layout in
--   Protocol/Frame.antt; Protocol/Listing.antt the list messages, written and read, and
--   Protocol/Format.antt `format_message`, which prints a list of lines here. Listing/RoundTrip.antt
--   and Listing/Columns.antt are on lists, Format/Received.antt and Format/Direct.antt on messages that
--   are framed and then read. `split_all` gives `split` the fuel that is always enough.
-- - include/coplus/arena/arena.h: Arena.antt has the tables, the page headers and the first words of
--   objects; Arena/Sizes.antt the size classes, Spans.antt the span lists and the heap, Malloc.antt and
--   Free.antt the two calls, with the macros and the parts that both repeat as functions. Sizes/Fit.antt
--   is on the classes, Page.antt on a page of objects, Page/Fresh.antt and Page/Exhausted.antt on its
--   start and its end. Heap.antt says when the heap of spans is in order: chunks that tile the pages
--   (Heap/Tiled.antt) and free ones that are doubly linked by size (Heap/Linked.antt). Below it, Links,
--   Steps, Chunks and Busy have what one step on a list or a chunk does, Grow, Take, Cut and Big are on
--   `Malloc`, Small and Serve on it for objects, Loose, Merge and Give on `Free`, RoundTrip on both,
--   and Start on `Init`. Arena/Allocator.antt is `allocator` of include/coplus/arena/allocator.h. An
--   address is counted from `PtrOf(0)`. Assertions are those of a release build.
--   The write through `PtrOf(0)` in `Free` goes to a header of its own here, not into `is_head_`.
-- - include/coplus/thread_pool.h, task.h, fiber_task.h, machine.h and coroutine.h, src/coroutine.cc and
--   src/fiber_task.cc: ThreadPool.antt has workers, fibers, triggers and the wait queue (a
--   `PushOnlyFastStack`), with the queue of tasks as a parameter; a fiber is the script of its
--   suspensions. ThreadPool/Notify.antt is on `notify`, Await.antt on `await`, Machines.antt on the
--   threads. The rounds of `as_machine` are on fuel.
-- - include/coplus/socket.h: Server.antt is `Server`, with `Serve` and its threads as a step relation
--   whose steps are the parts of a round that accepts a client, and the rounds of the clients'
--   threads, for one call of `Serve`; Server/Tracking.antt has what the clients and the threads have
--   to do with each other, and Server/Serving.antt is on `Serve`; Server/Opening.antt is
--   `NewSocket` and the names of sockets.
--   Client.antt is `Client`, Client/Lives.antt has all clients from their constructors to
--   their destructors, Client/Buffers.antt what that does to their buffers, and Client/Connecting.antt the sockets that `Connect` leaves
--   open. The calls of the socket library are parameters.
-- - include/coplus/colog.h: Colog.antt is `Colog`, a call with its lock as one step that adds to what
--   the console got; Colog/Console.antt has the console and its colours, Calls.antt what calls are to
--   show, and Lines.antt and Numbers.antt what they do.
-- - include/coplus/level_hash.h: StringHash.antt is the hash of strings, Polynomial.antt is on it.
-- - Fifo.antt is the list that the queues are held against. Prelude.antt has the shared names, lists
--   over native numbers, 32-bit arithmetic and tallies over numbered threads.
--
-- Bounds. The theorems on threads are for fewer than 2^31 steps, within which no counter wraps: the
-- source's own assumption on its counters. One call at a time needs no such bound. A place in a text
-- is an `int`: texts are shorter than 2^31 bytes. `pop` of `FastQueue` is a fault where its
-- counters leave the range of an `int`.
--
-- Not modelled: memory orders weaker than sequential consistency (the source uses the default one),
-- the platform layers for fibers, consoles and memory, WSAStartup, random numbers and timers, the
-- futures that `submit` and `go` give for results, and workers of the pool that interleave.
pub mod Prelude
pub mod Fifo
pub mod SlowQueue
pub mod Text
pub mod Colog
pub mod StringHash
pub mod Protocol
pub mod Server
pub mod Client
pub mod LocalQueue
pub mod Arena
pub mod Channel
pub mod FastStack
pub mod OwnerStack
pub mod FastQueue
pub mod ThreadPool
