-- ===== src/Lib.antt =====
-- The timers, the reactor's scheduler and stream sockets, the TCP server with its pool of workers,
-- the thread pool, the addresses and the queues of corosio, a C++20 library of asynchronous I/O on
-- coroutines: models of their code and the theorems that make it correct.
--
-- A coroutine that waits for a timer embeds a waiter node. timer
-- (include/boost/corosio/detail/timer.hpp and src/corosio/src/timer.cpp) tests without the lock
-- whether there is anything to do and hands the node to timer_service
-- (include/boost/corosio/detail/timer_service.hpp), which keeps the waiters of each timer in a
-- list, the timers with waiters in a binary heap by expiry, and the nearest expiry in an atomic for
-- the scheduler. The run loop calls process_expired; a stop callback calls cancel_waiter. Completed
-- waiters are posted to the scheduler, whose queue is ready_queue
-- (include/boost/corosio/detail/ready_queue.hpp).
--
-- A stream socket (include/boost/corosio/native/detail/reactor) tries a system call first. If it
-- would block, register_op parks the operation in a slot of the descriptor; the reactor adds ready
-- events to the descriptor and queues it, and the scheduler calls invoke_deferred_io, which tries
-- the parked operations again and queues those that complete. The scheduler counts a piece of work
-- for each operation from its start to its handler; each thread has a queue and a count of its own,
-- which it adds to the shared ones after each handler. Sockets are given endpoints, which hold an
-- IPv4 or an IPv6 address.
--
-- A tcp_server has an accept loop for each port and a pool of workers. A loop takes an idle worker
-- or waits for one, accepts a connection and hands it to the worker, which is active until its
-- coroutine gives it back. A thread_pool has a queue of work items, which its threads take and run.
--
-- The files, by the code that they model:
--   Base, Chain     what the models share: tests on numbers, lists, results, chains of linked nodes
--   TcpServer       tcp_server.hpp of include/boost/corosio and src/corosio/src/tcp_server.cpp; in
--                   Loops the steps of the accept loops, the workers, start and stop
--   ThreadPool      thread_pool of include/boost/corosio/detail/thread_pool.hpp; in Threads the steps
--                   of its threads, of those that post and of the shutdown
--   TimerHeap       the heap of timer_service: up_heap, down_heap, swap_heap, remove_timer_impl
--   TimerService    insert_waiter, cancel_timer, cancel_waiter, cancel_one_waiter, update_timer,
--                   process_expired, and timer::implementation::wait up to insert_waiter
--   Timer           cancel, cancel_one, expires_at and expires_after of timer; in Race the flag that
--                   wait sets without the lock
--   TimerPool       construct, destroy, destroy_impl and shutdown, with the slot of one thread
--   Scheduler       reactor_scheduler.hpp: the configuration and the inline budget; in Queue the
--                   posts, the work counts and the signal, in Loop do_one and what enters it
--   Descriptor      reactor_descriptor_state.hpp: invoke_deferred_io up to the end of its lock
--   StreamSocket    reactor_basic_socket.hpp: register_op and the cancellations; in Close the
--                   close and the release; in Start and Result reactor_stream_socket.hpp,
--                   make_err.hpp, coro_op_complete.hpp and the handlers of
--                   reactor_op_complete.hpp; in Invoke the end of invoke_deferred_io;
--                   in Reach the steps of a socket, its callers and the reactor
--   ReadyQueue      ready_queue, the tagged links of operations and continuations
--   IntrusiveList   intrusive_list of include/boost/corosio/detail/intrusive.hpp
--   IntrusiveQueue  intrusive_queue of include/boost/corosio/detail/intrusive.hpp
--   SpeculativeState  include/boost/corosio/native/detail/speculative_state.hpp
--   Ipv4, Ipv6      src/corosio/src/ipv4_address.cpp and ipv6_address.cpp with their headers
--   Endpoint        src/corosio/src/endpoint.cpp and include/boost/corosio/endpoint.hpp
--
-- Timers, waiters and queue entries are the numbers that stand for their addresses; 0 is the null
-- pointer where links are modelled. An operation takes the state and returns the next one, and is
-- the critical section of the mutex with the tests around it, so that threads interleave as
-- sequences of operations; timer::implementation::wait is two, begin_wait and insert_waiter. `none`
-- as a result stands for an access out of bounds or a loop that ran out of fuel in TimerHeap,
-- TimerService and TimerPool, for an integer that overflows in the inline budget and in
-- expiry_after, and for an error code in Ipv4 and in parse_port; in Ipv6 and Endpoint `invalid` is
-- the error and `fault` the access out of bounds or the end of the fuel.
--
-- The scheduler is seen from one thread, with the frame that reactor_find_context gives it. What a
-- system call answers is an argument, and so are run_task, the calls of entries and the waits for
-- the signal, with named hypotheses in Scheduler/Settle, Scheduler/Poll and Scheduler/Enter on the
-- work and the entries that they keep. The queue of a thread or of the scheduler is the sequence of
-- its entries. A slot of a descriptor holds its own operation of the socket or none.
--
-- The accept loops of a tcp_server run on its executor, so that what one does between two
-- suspensions is a step; the outcome of an accept and what a worker does with its launcher are
-- chosen by the step. The waiters are the sequence of the loops that wait. A step of a thread_pool
-- is a section under its mutex, a notification, or the return of an item's function.
--
-- Numbers are natural. A time point is its signed 64-bit count of ticks plus 2^63, so that
-- time_point::min() is 0, the clock's epoch 2^63 and time_point::max() 2^64 - 1; a heap index is
-- below npos = 2^64 - 1. The count of outstanding work wraps at 2^64, and the theorems on it are
-- equations modulo 2^64. An array of bytes is a list of numbers below 256, a text the list of its
-- characters.
--
-- Loops run on fuel: up_heap on the index plus one, since the index gets smaller; down_heap on the
-- number of entries plus one, since the index grows; process_expired on the number of entries plus
-- one, since each round takes one from the heap; the parser of an IPv6 address on the length of the
-- text plus one, since each round that goes on reads some of it; its printer on the number of bytes
-- plus one; do_one on the number of its passes, of which a poll needs two; the drain of a
-- thread_pool on the number of items plus one; do_stop of a tcp_server on the number of active
-- workers plus one. The theorems on these functions say that they return, so the fuel is enough.
--
-- Not modelled: an exception of run_task, the moves of a tcp_server, the system calls of the
-- backends, the acceptors, datagram sockets, files and TLS streams, io_uring and IOCP, and the
-- atomics beyond a single order of the operations. The intrusive list of a timer's waiters is the
-- sequence of its nodes. The stop token of a waiter is the flag that it shows when insert_waiter
-- looks at it, and the coroutine frame is the number of its waiter. The coroutine of a socket's
-- operation is any sequence of requests; its handle, its executor and its buffers are left out,
-- except whether the buffer is empty.
pub mod Base
pub mod Ipv4
pub mod Ipv6
pub mod Endpoint
pub mod Chain
pub mod IntrusiveQueue
pub mod IntrusiveList
pub mod Scheduler
pub mod Descriptor
pub mod StreamSocket
pub mod SpeculativeState
pub mod ReadyQueue
pub mod TcpServer
pub mod ThreadPool
pub mod TimerHeap
pub mod Timer
pub mod TimerPool
pub mod TimerService
