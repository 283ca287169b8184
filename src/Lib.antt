-- ===== src/Lib.antt =====
-- The a-curl-library: an event loop over libcurl's multi interface that runs requests with rate
-- limits, retries and download limits, and lets them wait for shared resources. The paths below are
-- from the repository's root; those without a directory are files of src/.
--
-- The parts, and the modules that model them.
--
-- RateManager is rate_manager.c: a token bucket for each key. The loop asks `start_request` before
-- it starts a request with a rate limit, and tells `request_done` and `handle_429` how it ended.
-- The manager is an optional record, as the C code has a global pointer; each public function holds
-- one mutex for its whole body and is one step. RateManager.Calls composes the calls to a run.
--
-- Request is curl_event_request.c and include/a-curl-library/curl_event_request.h: the record
-- `curl_event_request_s` and its wrapper of impl/curl_event_priv.h. Its children follow the
-- functions: Headers (add_header, set_header), Config (the setters, depend, the JSON body), Build
-- (init and the builders), Setup (setup_curl_handle), Submit (submit, submitp), Retry
-- (compute_backoff_ms and the default policy), Length (header_callback), Download (write_thunk) and
-- Sinks (the default callbacks). The modules Replace, Options with Quiet, Submission, Backoff,
-- Reads, Limit and SinkOrder hold the proofs.
--
-- Loop is the state of the event loop, `curl_event_loop_s` of impl/curl_event_priv.h, with the
-- wrappers that it points to, and a log of the calls of user code and of libraries.
--
-- Resource is curl_resource.c on that state: Refs (reference counts), Publish (publishing, and the
-- waiters that it wakes or ends), Blocking (how a request comes to wait), Inbox (posts of other
-- threads and their drain), Teardown (destroy_all). Lifecycle is the end of a request in
-- curl_event_request.c, which a failed resource calls and which releases the request's
-- dependencies.
--
-- WorkerPool is worker_pool.c: the linked queue of work items on a heap, and the rounds of a
-- worker; Fifo has the queue as a list, Threads the pool with its threads and its destruction as
-- steps that interleave freely, Rounds and Sound what every step keeps, Joins and Stopping what
-- holds of the runs.
--
-- EventLoop is curl_event_loop.c with curl_event_loop_request_start of curl_event_request.c, on a
-- state of the loop, the rate manager, and the clock readings and libcurl handles still to come.
-- Start has the tests for readiness and the start, Cancel what other threads ask of the loop,
-- Pending process_cancelled_and_pending_requests, Move move_inactive_requests_to_queue, Complete
-- process_completed_requests, Timer calculate_next_timer_expiry, Shutdown the creation and the
-- destruction, and Run the rounds of curl_event_loop_run. A round calls the functions of Resource,
-- Request and RateManager. The proofs stand in Frame, Outcome, Put, Away and Settling (what a step
-- does to the loop's maps of requests), Conserve, Tries, Moves, Beside and Limited (the loops of
-- Move), Cuts, Answers, Admission, Retaining, Scheduling, Cancelling, Cancelled, Rounds, Asking,
-- Readiness, and Destroying, Cleared and Destroyed.
--
-- The sinks are MemorySink for sinks/memory.c, which collects a response and hands it to the user,
-- and FileSink for sinks/file.c, which writes it to a file.
--
-- External holds the interfaces of code that is elsewhere: Double for floating-point numbers with
-- what IEEE 754 says of them, Table for the maps of the-macro-library and Queue for its multimaps
-- of requests by time, Buffer for the growing buffer of a-memory-library, with Fixed, Slots and Bag
-- as concrete instances. Results of calls into libcurl, libc, ajson and the memory library, what
-- the user's callbacks do and answer, the clock and the random numbers are arguments. Base is the
-- shared vocabulary.
--
-- Conventions. Pointers are numbers, `none` is NULL. A text is the list of its bytes before the
-- NUL. An int has 32 bits, a long and a size_t 64, and their overflow is written out where a
-- program can reach it; signed counters of running requests are integers. A function that can read
-- freed memory returns an option or a `Torn`, and the fault is a value of it; the exceptions stand
-- under "Not modelled".
--
-- Fuel. RateManager.destroy, Resource.Teardown.destroy_all, the loops of EventLoop.Move and those
-- of curl_event_loop_destroy over a map take one round for each node of the map and are given that
-- many and one more; the list of cancelled requests, which can be circular, is given the fuel as an
-- argument. That the rounds are enough is among the results.
--
-- Not modelled: curl_event_loop_inject, whose copy of a request shares the pool of the original, so
-- that the end of the one ends the other; the lists of injected requests that the loop processes
-- are then empty, or hold requests with pools of their own. What libcurl does between two rounds:
-- the waiting for I/O, and the calls of header_callback and write_thunk from curl_multi_perform,
-- which change the wrapper of the transfer that they belong to; Request has them by themselves.
-- Also the drivers in examples and tests. A request that waits on a resource, or is pending, is
-- taken to be alive when the resource is published or the list is processed: the model has no fault
-- for a read of such a request after its end, and the results do not say that there is none.
-- Callbacks are taken not to call back into the loop, and calls of a resource function from a
-- thread that does not own it, which the code rejects, are left out. Allocations succeed unless an
-- argument says otherwise.
pub mod Base
pub mod External
pub mod RateManager
pub mod Request
pub mod Loop
pub mod Resource
pub mod EventLoop
pub mod WorkerPool
pub mod MemorySink
pub mod FileSink
