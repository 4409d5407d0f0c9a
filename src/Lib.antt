-- ===== src/Lib.antt =====
-- The spine of agentic-octopus: a run queue in Postgres, the worker that executes runs, consent
-- gates, cron schedules, and the routing of model requests under a cost guard.
--
-- Parts, and the files of src/octo that they model:
--   Status, Transition   models.py: the run states, the legal pairs, `transition`
--   Db, Table            the tables of db/migrations and the statements that the program issues
--   Queue                queue.py: enqueue, claim, heartbeat, finish, reap_expired, events
--   Approvals            approvals.py: request, has_approved, decide
--   Scheduler            worker/scheduler.py: compute_next, tick, sync_from_registry
--   Registry             registry.py: the validated agent manifests
--   Executor             executor.py: the Claude SDK, the OpenRouter and the fake executor
--   Worker               worker/main.py: process_once
--   Providers, Config    providers/*.py, config.py: routing, the free-model guard, the tag cache
--   Auth                 api/auth.py: the two token checks
--   Routes               api/routes.py: the administration routes
--   Compat               api/openai_compat.py: the completions of the OpenAI-compatible routes
--   Chat                 chat.py: the context window, the tools of a persona; its children:
--                        Store (the conversations), Protocol (tool calls), Sse (the provider's
--                        stream), Turn, Send and Stream (_prepare, the tool loop, send, send_stream)
--   Tools                tools/web.py: run_tool, web_search, fetch_page
--   Migrations           db.py: upgrade
--   Telemetry            telemetry.py: merge_tags and parse_tags_header
--   Audit                no file of its own: the invariant that ties the rows to their events
--   Tests                the model run on concrete data
-- The worker claims from the queue, asks the gate, runs an executor and finishes the run; the
-- scheduler and the API enqueue; the approvals and the reaper move runs on. Each module has the
-- function names of its file, and the laws of a module stand in its children.
--
-- Model. A transaction is a function from the tables to a result and new tables, or an error, and an
-- error rolls every write back. The worker is a sequence of such transactions, and before each one
-- other processes commit any change (`Call.others`). Rows that other open transactions hold are a
-- predicate (`locked`), which FOR UPDATE SKIP LOCKED passes over. The time of a transaction, the ids
-- that the database draws, croniter, YAML, JSON, Python's `str`, the SDK session and the HTTP servers
-- are arguments. Ids and times are natural numbers; texts are lists of code points.
-- A turn of the chat is a sequence of transactions too, over the tables of the chat, with a record of
-- the requests and tool calls that it has made and of the events that a stream has given; nobody else
-- writes to its conversation in between. A client that closes a stream is a number of events that it
-- still takes. What the servers and the web answer may depend on how often they were asked.
-- The loops of the modelled code run over lists, but for two on fuel: the loop over the events in a
-- buffer of the stream, with the buffer's length, which is enough as each event takes two bytes; and
-- the tool loop, whose fuel is the range of its `for`.
--
-- Not modelled: the HTTP routes of the chat, the streams of the OpenAI-compatible ones, the command
-- line, the endless loops of the worker, the clocks and the spans around a request, failures of the
-- HTTP transport, logging.
pub mod Prelude
pub mod Status
pub mod Table
pub mod Db
pub mod Transition
pub mod Queue
pub mod Approvals
pub mod Audit
pub mod Registry
pub mod Scheduler
pub mod Telemetry
pub mod Tools
pub mod Config
pub mod Providers
pub mod Executor
pub mod Worker
pub mod Auth
pub mod Chat
pub mod Routes
pub mod Compat
pub mod Migrations
pub mod Tests
