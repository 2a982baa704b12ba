-- ===== src/Lib.antt =====
-- Mi Harness: the durable state of agent runs, the scheduler over it, the policy engine, the
-- gateway of its tools, the choice and the budget of its models, its memory, the sessions and
-- commands of its users, and the registry of its plugins.
--
-- The program keeps all its state in one SQLite database. harness/storage/store.py owns the tables
-- and the transactions; harness/scheduler/service.py moves runs through their life over it
-- (submission, claim by a worker, waiting, delegation, cancellation, recovery);
-- harness/policy/engine.py computes from it what a run may do, and harness/tools/gateway.py runs
-- its tools under that policy and records what they did. harness/runtime/model_selection.py says
-- which model a call of a run is bound to, harness/scheduler/budget.py reserves what the call may
-- use, and harness/context holds the token budget and the memories that go into its input.
-- harness/server/auth.py admits the users, and `Services.mutate` of harness/server/composition.py
-- runs their commands once. harness/plugins says in which order plugins are loaded and what they
-- add. harness/core/contracts.py holds the types that they share.
--
-- How the files correspond to the code:
--   Core                  harness/core/contracts.py, the types and `validate_sequence`
--   Exec                  `Store.transaction`, and the language of the methods: a method is a function
--                         from a world (database, identifiers, clock) to a result and a world. What
--                         a method wrote before an error stays, unless a transaction undoes it.
--   Exec.Keeps, Atomic, Returns, Establishes, Hands, Reads, Answers, Leaves, Ends
--                         rules for invariants, for the rollback, for results and for effects
--   Store.Schema          the tables of SCHEMA, a record for each row
--   Store.Records ... Store.Commands
--                         the methods of `Store`, by table, under their names; an UPDATE under a
--                         revision is `update_rows`, a UNIQUE or REFERENCES is a `require`
--   Policy.Documents      the documents that `PolicyEngine` combines, and the ways it does
--   Policy.Engine         `current`, `for_agent`, `effective`, `decide`, `endpoint`, `authorize_skill`,
--                         `authorize_mcp` of `PolicyEngine`
--   Scheduler.*           the methods of `Scheduler`: Transition, Submit, Claim, Waiting, Cancel,
--                         Delegate, Settle, Recover, Steering
--   Tools.Registry, Tools.Modes
--                         harness/tools/registry.py with the values of harness/tools/contracts.py, and
--                         harness/runtime/modes.py
--   Tools.Gateway, Tools.Approval, Tools.Attempt, Tools.Execute
--                         `ToolGateway.execute` of harness/tools/gateway.py: its parts, the question to
--                         the user, the run of an executor with `_resume_protocol`, and the whole call.
--                         An executor is any function of the database; what it raises is a code.
--   Tools.Reconcile       `_finish` and `reconcile` of `ToolGateway`
--   Server.Auth           `AuthService` of harness/server/auth.py; its memory of attempts stands beside
--                         the store
--   Server.Commands       `Services.mutate` of harness/server/composition.py, for one key: the lock
--                         of the key orders its calls
--   Model.Access, Model.Preferences, Model.Selection
--                         `ModelSelectionService` of harness/runtime/model_selection.py, with the checks
--                         of `Services` that it calls
--   Model.Permits         `ModelBudgetAdapter` of harness/scheduler/budget.py; `reserve` waits between
--                         its rounds, and `reserve_round` is one of them
--   Model.Protocol        `validate_history` of harness/model_gateway/protocol.py
--   Context.Budget        the token budget of the input, in harness/context
--   Context.Memory        `MemoryService` of harness/context
--   Plugins.Manifest, Plugins.Extensions, Plugins.Dependencies
--                         harness/plugins/manifest.py, `ExtensionRegistry` and
--                         `PluginRegistry.resolve_dependencies` of harness/plugins/registry.py
--   Host                  what these parts take from code outside the model: hashes, JSON schemas,
--                         name resolution, files, processes, and the hooks that the composition sets
--   Store.Events.Numbering, Store.Records.View, Store.Records.Kept, Policy.ReadOnly, Safety.*
--                         the properties; Examples and its children apply each of them to a small
--                         database
--   Safety.Forward        how other parts use the scheduler: `SchedulerCall` is a call of one of its
--                         methods with its arguments, or a write of another part to other tables
--
-- Numbers are natural numbers and budget amounts integers, as Python's are unbounded. The dimension
-- "cost" of a budget is counted in floats by the code: rounding is not modelled. Times are
-- milliseconds. JSON documents that the code only carries are texts; those that it reads are records.
-- A nested transaction rolls back to its own start, where the code has one transaction for all.
-- The outer one then sees the error, since no modelled method
-- catches an error inside a transaction.
--
-- Loops run over lists and are structural. The worklist of `Scheduler.cancel` runs on fuel, one
-- step for each recorded delegation and one for the root; a list that needs more, where a run has two
-- parents, is an error of the model alone. The resolution of dependencies runs on
-- fuel for one more visit than there are manifests, and `retrieve` of the memories on as much fuel
-- as there are memories; the theorems on them say why that is enough.
--
-- Not modelled: SQLite's set-up and migrations, the metrics report, the resolution of file paths,
-- the model runtime (LangGraph), prompts, the HTTP protocols of the model providers, built-in tools
-- and processes, artifacts and backups on disk, MCP clients, skills, the code of plugins, the HTTP
-- routes, the worker's timers, the supervisor and the web client. They do I/O or call third-party
-- code throughout.
pub mod Prelude
pub mod Exec
pub mod Core
pub mod Store
pub mod Host
pub mod Policy
pub mod Tools
pub mod Scheduler
pub mod Server
pub mod Context
pub mod Model
pub mod Plugins
pub mod Safety
pub mod Examples
