-- ===== src/Lib.antt =====
-- The CI server of this repository and its worker (backend/app). The server keeps projects, jobs,
-- the attempts of jobs and workers in a database, queues jobs in Redis, leases them to workers that
-- ask, takes the workers' reports, retries what failed for reasons of the infrastructure, and asks a
-- language model about failures. A worker claims jobs over HTTP, runs the steps of a pipeline in a
-- container, streams the logs and reports the result.
--
-- The parts and their models:
--   backend/app/models.py, config.py, schemas.py: Models, Config and the records in Api. Columns
--     for display alone (created_at, updated_at, registered_at, meta) are left out.
--   backend/app/redis_client.py: RedisClient (`enqueue`, `dequeue_one`, `requeue`).
--   backend/app/scheduler/lease_manager.py: Lease (claims, renewals, reports, retries), DelayedEntry
--     (the members of the delayed set) and Reaper (the four sweeps, and `run_reaper_once` of
--     scheduler/scheduler.py). Where a function of the source is long, its parts are definitions of
--     their own, in the order of the source: `complete_attempt` is `complete_leased`,
--     `complete_valid` and `finish_attempt`.
--   backend/app/scheduler/job_manager.py: JobManager. backend/app/pipeline.py: Pipeline.
--   backend/app/ai: Ai, with a module for schemas, context, each provider and the analyzer.
--   backend/app/api: Api, with a module for each router.
--   backend/app/api/websocket.py: Api.Streams, where each round of a stream's loop sees the server as
--     it is at that time.
--   backend/app/worker/docker_executor.py: Agent.Executor (`_exec`) and Agent.Steps (`run_pipeline`,
--     `_run_steps`), with the library's `shlex.quote` in Agent.Shell, as it is documented.
--   backend/app/worker/worker.py: Agent.Network (one call of the HTTP client) and Agent.Client (the
--     methods of `Worker`), which run the handlers of Api on the server's world.
--   backend/app/main.py: Server, where a `Request` is what a client can ask for, a background task
--     or a tick of the reaper, `Step` is one of these or a loss of the Redis sets, and `Reach` is
--     any sequence of steps from the empty server.
--
-- The state is `World` (World.antt). A handler takes a world and gives its answer and the next one.
-- Every handler and every tick runs alone, with its commits taken together at its end: two handlers
-- that interleave inside a transaction, and a crash between the commit and the call to Redis, are
-- not modelled. Times are in ticks of 2^-22 s (Config.antt), scores are doubles in ticks.
--
-- What the program calls and does not implement is one record of parameters, `Runtime`: the
-- database, the sorted sets, the clock, identifiers, tokens and the rounding of doubles, YAML, JSON,
-- the regular expressions and the model's client, each with the documented laws that are used. The
-- clock may be set back between two readings. Tests/Machine.antt has a runtime of lists that
-- satisfies all of them, and Tests/Scenario.antt runs the server on it. A share of processors is a
-- double, counted in units of 2^-1074, and its conversion for the daemon is a parameter too.
--
-- The worker has two more parameters: `Docker`, the Docker client with the monotonic clock and the
-- queue between threads, whose calls all return, and `Network`, which says how each call of the HTTP
-- client ends and what the server serves before it, the requests of the worker's own two threads
-- included. Tests/Daemon.antt has a daemon and networks.
--
-- Fuel: the decimal digits in DelayedEntry have one more than the number itself, and no number has
-- more digits than that; the loop that reads the output of a command (`drain`) has one round for each
-- reading of the clock until the deadline has passed, after which it returns; the loops of the worker
-- (`register`, `work`) run as many rounds as they are given.
--
-- Not modelled: the routes that only list rows, the database session, the dashboard and the
-- deployment files; and that the database refuses an exit code or a capacity outside the range of
-- its INTEGER, which ends the request but for the last chunk of a report's logs (a priority outside it
-- is modelled). What a shell reads of a command (Execution.Quoting) covers blanks, quotes and plain
-- characters only.
--
-- Consistency is about the invariant of jobs and attempts, with modules by the operations; Finality
-- about closed jobs; Reporting about reports and renewals; Queueing about claims, the queues,
-- pushes and the return of failed jobs; Execution about one run of a pipeline; Working about the
-- worker and the server together; Watching about the log stream; Ai.Rows, Ai.Validation, Ai.Excerpts
-- and Pipeline.Validity about what their names say.
pub mod Prelude
pub mod Config
pub mod Models
pub mod Runtime
pub mod World
pub mod RedisClient
pub mod DelayedEntry
pub mod Lease
pub mod Pipeline
pub mod Reaper
pub mod JobManager
pub mod Consistency
pub mod Ai
pub mod Api
pub mod Server
pub mod Reporting
pub mod Finality
pub mod Queueing
pub mod Agent
pub mod Execution
pub mod Working
pub mod Watching
pub mod Tests
