-- ===== src/Lib.antt =====
-- gpstation: a server that keeps a queue of jobs, launchers that connect to it and run worker
-- programs, and clients that talk to a worker through the answer that the server passes on.
--
-- The program's parts and the files that model them:
--   * Protocol: app_v1/sdk/protocol/messages.py, the control messages of a launcher, and what the
--     server relies on of json and pydantic, as the record `Codec`: a parameter of the model.
--   * Jobs: app_v1/server/app/service/job_service.py, launcher_service.py and db.py. The two tables
--     are lists of rows (Rows); a method of the service is a function from tables to tables. Reports
--     holds `create_job` and the five `mark_launcher_*` and `append_*` updates, Claim the query and
--     the update of `claim_next_compatible_job`, Ending `request_kill`, `fail_assigned_job`,
--     `disconnect_launchers_and_fail_jobs`, `recover_after_server_restart` and
--     `expire_stale_jobs`, LauncherRows the launcher's rows. A method commits or rolls back one
--     transaction: History has the calls and their sequences. Lifecycle, Sound and Effects say what
--     a call may do to a row, Order and Choice which pair the claim's query finds, Claims what a claim is to do,
--     without the code's tests, Invariant what holds over a history.
--   * Registry: app_v1/server/app/state.py. Events has the wake-up events of waiting requests, an
--     event being a handle into a heap of flags; Waiters and Wakeups have the invariant over every
--     interleaving of requests. Launchers has the connected launchers.
--   * Orchestrator: app_v1/server/app/service/job_orchestrator.py and
--     app_v1/server/app/routers/v1/launchers.py. Server is the state that the handlers share: the
--     tables, the registry and the dispatcher's flag. Handlers, Dispatch and Connections have the
--     handlers, Ownership to Links the proof that each keeps the tables and the registry in step,
--     Actions the handlers in any order, Passes the dispatcher's pass, and Reports what a launcher's
--     messages may do. Waiting has `wait_for_answer`; Telling, Notices, Announcements, MassEndings,
--     Awake and Requests show that every handler tells the requests that wait what it changes.
--   * Workers: app_v1/launcher/app/subprocess_manager.py with control.py, the program beside a worker.
--     State, Reports and Control have the handlers of `WorkerManager`, Events the order in which they
--     run (the end of a process and the end of its output are two events), Keeps and Accounts the account of
--     every job, Repeats how often the end of a job is told.
--   * Transfer: the attachments of a job call, from the client to the worker. Sending has the client's
--     `_send_request_attachment` and `encode_binary_frame` (job_peer.py and binary.py in
--     app_v1/sdk/master/python/gpstation_master), Frames and Receiving the worker's side
--     (app_v1/sdk/slave/channel.py and worker.py). Files and Bounds show what a chunk does to its file, Round
--     the way from the sender to the receiver, Safety the receiver under any traffic. The
--     JSON text of a header is a parameter, `HeaderText`. A byte is a number.
--   * Session: app_v1/sdk/master/python/gpstation_master/job_peer.py (with `call` of client.py) and
--     app_v1/sdk/slave/worker.py, the two ends of a job's data channel from `job.ready` on. Client and Worker have
--     the ends, Steps what may happen, Spec the contract; Peers, Clients, Handling and Workers show what the
--     operations keep, Invariant, Answers and Refinement that a session keeps its contract, Lost what a late
--     acknowledgement does. Calls are numbered; a result's attachments arrive with it.
--   * Prewarm: app_v1/sdk/master/python/gpstation_master/client.py, the connections that are prepared for later
--     jobs. Pool has the operations, cut at their awaits, Steps what may happen; Sound, Later and OwnKey show that
--     keys are kept apart, Kept to Forgotten where each connection is, Sharing what a late caller does. The lock is
--     never held over an await, so it has no part in the model.
--   * Keys: app_v1/server/app/service/access_key_service.py, app_v1/server/app/auth.py and
--     app_v1/server/app/routers/web/crud_access_keys.py. Service has the queries, the check of a token and
--     revoking, Creating a key's creation; Agreement, Revoking and Created have the theorems. Closing a key's
--     launchers is the registry's operation.
--   * Programs: app_v1/slaves/cae/app/program.py, the checks of a simulation program. Syntax has the trees,
--     Checks the check of one node, Validation the walk and `validate_and_load_simulate`, Safe the grammar that
--     the checks are compared with, Acceptance and Shadowing the theorems. Python's parser and exec are the
--     parameter `Python`.
--   * Residency: app_v1/slaves/ai/app/gpu_residency.py, which models are on which GPU. Models has the tables,
--     Leases `GpuModelLease` as a step relation, with the cancellation of a task on its way in as a step. Tables to
--     Soundness show what a step keeps, Steps any interleaving, Order to Deadlock how leases wait for each other,
--     Residents what the body of a lease relies on, Cancelling what a cancelled task leaves behind.
--   * Prelude: Boolean tests, lists, tables updated by a test, dictionaries.
-- Examples in each part are tests, and instances of the theorems.
--
-- Numbers: ids, processes and sockets are opaque and stand as numbers that are only compared (job and
-- launcher ids also order rows, as in ORDER BY). A time of the database is a number of microseconds, one
-- of the monotonic clock a number of milliseconds; each is an argument of the operation that reads the
-- clock, and no order is assumed between them. `a < now - d` is written `a + d < now`, the same test
-- without a negative number. Python's integers are unbounded, and so are these numbers.
--
-- Nondeterminism is an argument: whether a socket takes a message (`sent`), which rows other
-- transactions hold (`locked`, for SKIP LOCKED), which access keys are active, how the wait for a worker
-- ends. The theorems hold for every choice.
--
-- Atomicity: a method of the job service is one transaction. A handler of the orchestrator runs to its
-- end before the next one, with its parts in the code's order; the dispatcher's claim and its delivery are
-- separate actions, so that others come between them. A handler of the worker manager is one event,
-- except `start_job`, which is two, with the wait for the worker's readiness between them.
--
-- Fuel: `claim_loop` stands for the `while True` of `dispatch_available_jobs`. It gets one round more than
-- there are idle launchers. Each assignment takes one launcher out of the idle ones, and a round that
-- assigns nothing ends the loop.
-- `walk` stands for the loop over `ast.walk`. It gets one unit of fuel for each node of the tree, and every
-- step takes one node out of the queue.
--
-- Not modelled: the sockets, the session with the database and its errors, audit records, the client's HTTP
-- requests, the frames of a result's attachments on their way back to the client, the web routers, sessions
-- and accounts, the frontends, WebRTC, and the model code of the slave apps. The manifest lists the parts.
pub mod Prelude
pub mod Protocol
pub mod Jobs
pub mod Registry
pub mod Orchestrator
pub mod Workers
pub mod Transfer
pub mod Session
pub mod Prewarm
pub mod Keys
pub mod Programs
pub mod Residency
