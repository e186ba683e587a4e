-- ===== src/Lib.antt =====
-- Verification of task-orchestrator: a service that accepts tasks over HTTP and runs them at
-- once, or hands them to background workers through a Redis queue.
--
-- The parts of the program, and the files that model them (paths below task-orchestrator/):
--   errors/errors.go                          Errors
--   logger/logger.go                          Logger
--   config/config.go                          Config, Config/Parse
--   tasks/task.go                             Task
--   tasks/context/context.go                  Context
--   tasks/store                               Store
--   tasks/registry, tasks/handlers            Registry, Handlers
--   tasks/runners                             Runners
--   tasks/queue                               Queue, Queue/Testcontainer
--   tasks/orchestrator/execution              Execution: StateManager, ResultHandler, Workflow
--   tasks/orchestrator                        Orchestrator
--   tasks/workers                             Workers, Workers/Pool
--   api/submit.go, task_status.go, health.go  Api: Submit, Status, Health, Writer, Path
--   api/middleware/logging.go                 Api/Writer (the response writer), Api/Middleware
--   api/server/server.go                      Api/Server
--   cmd/task-orchestrator/main.go             Main
--
-- A request is checked by Api.Submit.handle_submit. A submission goes from
-- Orchestrator.submit_task through Store.save and Workflow.execute to a runner. The synchronous
-- runner calls a handler of the registry; the asynchronous one puts the execution context into a
-- queue, from which Workers.process_next_task takes it.
--
-- State. World holds what the components share: the task objects on a heap, since the memory
-- store keeps pointers and the workflow writes through them; the map of the memory store; the
-- log; the number of clock readings and of UUIDs so far; and the state of the Redis server. A
-- function of the program is a function of the same name, in snake case, in the monad M over
-- World, whose failure is a panic. A Go error is an Option, nil is none. A worker decodes a copy
-- of a task, so that the store's object and the worker's are two objects there, and one in
-- synchronous execution.
--
-- Parameters. The clock, the UUIDs, encoding/json, the Redis client and its server,
-- time.ParseDuration and the environment are arguments (Env, Payloads, Codec, Client, Http, Mux,
-- Os). What the theorems need of handlers, sleepers and queues is stated by IsTame, IsQuiet and
-- IsCalm.
--
-- The integration tests' container (Queue/Testcontainer) is a parameter. What the helper logs,
-- makes, sleeps, closes and ends is a list of events beside the state of Docker and Redis
-- (Bench), and t.Skipf and t.Fatalf, which end the test, are values (Verdict).
--
-- Bounds. Durations and the seconds of a payload are 64-bit; their product wraps (Base/Int).
-- show_nat recurs on fuel that is the number itself, which has fewer digits than that. The loop
-- of a worker runs over the list of what its select finds in each round.
--
-- Store/Contract describes a task store to its clients, over any sequence of calls: replies are
-- given by a map from IDs to tasks, and a client may write to the copies that it got.
--
-- The goroutines of a worker pool and callers of Stop are interleaved in Workers/Pool, as a list
-- of actions of which each may be impossible in a state. A goroutine is at its select, blocked
-- in Dequeue, or processing a task. A blocked one goes on when the queue gives it a task or an
-- error, or because its context is cancelled, which worker.go expects of a queue.
--
-- The process as it is wired (Main) serves its requests with the synchronous runner, one after
-- the other. The invariant between two of them is IsSettled (Orchestrator/Settled): every task is
-- done or failed. What the proofs need from outside is in IsServed and IsProvided: UUIDs that are
-- not repeated, answers that can be encoded, and an answer of the mux where no route fits.
--
-- With the asynchronous runner, the program is a system (Workers/System) whose steps are
-- submissions, status queries and rounds of workers. The invariant between two steps is
-- IsTracked (Workers/Tracked): a stored task waits in the queue, or is done or failed. What the
-- queue has to do for that is IsFifo (Queue/Fifo), a contract over an abstract list of the tasks
-- that wait. The Redis queue (Queue/Fifo/Redis) meets it under strict assumptions on Redis and
-- its client (IsRedis): each command is tried once, no reply is lost, and a call that reports an
-- error changed nothing. A client that tries a command again, or loses the reply to a BRPOP,
-- does not meet it. Of encoding/json it is asked that it gives back a like task (IsLossless).
-- Workers/Overlap has the same program with a worker's round as two steps, so that a worker can
-- hold a task while others take and finish theirs.
--
-- net/http serves requests at the same time. Orchestrator/Jobs cuts a submission to the
-- synchronous runner where the store's lock is released: at the save of the task, at its start,
-- at the call of its handler, and at its end. Any number of submissions are each at a stage, and
-- their steps and status queries come in any order. The invariant is IsServing: every stored
-- task is over, or is one of the submissions' own and stands as its stage says.
--
-- Not modelled: the choice of a route (net/http), sockets and signals, whose outcome is an
-- argument of the server; the steps of a handler, and those of a worker between the start and the
-- end of the processing of a task; the passage of time, so that a timeout may end a wait at any
-- moment; and TestMain of the integration tests.
mod Base
pub mod Errors
pub mod Task
pub mod World
pub mod Logger
pub mod Context
pub mod Store
pub mod Registry
pub mod Handlers
pub mod Queue
pub mod Runners
pub mod Execution
pub mod Orchestrator
pub mod Workers
pub mod Config
pub mod Api
pub mod Main
mod Tests
