-- ===== src/Lib.antt =====
-- A model of HoH, the harness that lets a supervisor, workers and a critic change a repository
-- together. The library holds the path of a work item through it: the values that the roles exchange,
-- task files and project tasks, the durable queue with the ledgers beside it, the journal, the store of
-- worker jobs, the supervisor that verifies, applies, tests and commits a worker's patch, and the gates
-- that it asks: the patch verifier, the trust levels and the policy on verification commands.
--
-- - Domain: src/llm_harness/domain.py, the records of work items, patches, reports and results.
--   A `ValueError` of a constructor is the `err` of `checked`; a path is its text.
-- - Journal: src/llm_harness/journal.py, `JournalEvent`, `InteractionJournal.record` and `redact`.
--   The substitutions by regular expressions are parameters, one by one. Journal/Redaction says what
--   `redact` makes of a value.
-- - Json: JSON values as Python holds them.
-- - State: src/llm_harness/state.py. A method of `HohStateStore` is an action on a `World`, which has
--   the files as lists of records, the clock, the source of ids and the lease; an exception is a
--   value of `Error`, and what was written before it stays written.
--     Records: the dataclasses. Store: the files, `_state_mutation`, `_update_task`,
--     `_replace_task`. Graph: dependencies, and the search for cycles of `enqueue_many`.
--     Schedule: `schedule`, `schedule_batch`, `downstream_tasks`. Queue, Results, Review, Ledger:
--     the methods that change state. Operations: one type of calls of them, and runs of calls.
--     Encode, Values, Decode: the JSON forms. Graph/Cycles: the search for cycles on a graph.
--     Graph/Entries, Graph/Needed: what the graph holds, in terms of the queue and the batch.
--     Graph/Verdict: the check of a batch. Lifecycle: changes of the queue under a rule; Permits:
--     the rule of each operation, with the changes of status that it may make; Rules: the ways in which
--     methods are composed; Queue, Review, Ledger: each method under its rule; Reach: all runs.
--     Schedule/Ready, Schedule/Batch, Claims, Decisions, Repeated, Immutable, RoundTrip, Paths (the
--     records with a path, and pathlib as a parameter): further theorems.
-- - Jobs: src/llm_harness/jobs.py with src/llm_harness/targets.py; Jobs/Tokens has the theorems.
-- - Commands: src/llm_harness/command_policy.py; Commands/Safety has the theorems.
--   `shlex.split` and the lexer of `_shell_operators` are two parameters: they read `#` differently.
-- - Trust: src/llm_harness/trust.py, the trust levels of workers and what each may do.
-- - Verifier: src/llm_harness/verifier.py. Quoted: a path in C quotes. Headers: the header lines of a
--   patch. Scan: `scan_patch`, its loop as a walk over the lines with the local variables as a record.
--   Gate: `PolicyVerifier` and the tests on paths. Safety, FailClosed: what passes the gate.
-- - Git: src/llm_harness/git_ops.py. Git/Calls: the calls that reach the world outside, as a trace, and
--   the answers of that world as functions of the calls before.
-- - Supervisor: src/llm_harness/supervisor.py, which composes the worker jobs, the gate on patches, git,
--   the verification commands and the semantic verifier. Evidence: what it writes into the journal and
--   the ledger. Effects: the effect of calls on the repository, with rules for composed methods;
--   GitEffects, Quiet, Commits, Tested, Passed, Outcome, Settled, Verdict, Guard and Dispatch apply them,
--   and Keeps and Processes rules for properties of all calls, to one method after the other.
-- - Reading: the checked fields of JSON objects that the next two share. Tasks: src/llm_harness/tasks.py,
--   task files. Projects: the tasks of src/llm_harness/lifecycle.py; Projects/Files relates the two.
-- - Prelude: Python's lists, dictionaries, strings, integers and exceptions. Tests: sample values, and
--   the theorems at concrete inputs.
--
-- The queue is read and written by the store's methods under a lease, so one method is one step; a
-- nested call re-enters the lease. The journal is written by the same methods and redacts what it is
-- given. The encoders give the contents of ledgers and of journal events.
--
-- The recursive search for cycles runs on fuel, one more than the size of the graph: a path without a
-- repeated id is no longer than that (State/Graph/Cycles). The recursion limit of the interpreter, which
-- a long chain of dependencies reaches, is not modelled. `downstream_tasks` runs on fuel two more
-- than the number of ids: each id enters its queue once.
--
-- Not modelled: `collect_worker_completion_in_attempt` and `dispatch_work_item_in_attempt` of the
-- supervisor, and a notifier, a journal or a worker that raises; failing reads and writes of files, a
-- git program that cannot be started, the decoding of the output of processes, the records behind
-- `OperationLedger`, whose calls are noted and answered, and the lock file behind the lease, since the
-- model has the outcome of taking it (`contended`); case folding of characters beyond ASCII; the engine
-- of regular expressions, `shlex` and `pathlib`, which are parameters, as are PurePosixPath, UTF-8 and
-- `repr`; and the parts of the program that talk to providers, the network and users.
pub mod Prelude
pub mod Json
pub mod Journal
pub mod Domain
pub mod State
pub mod Jobs
pub mod Commands
pub mod Trust
pub mod Verifier
pub mod Git
pub mod Supervisor
pub mod Reading
pub mod Tasks
pub mod Projects
pub mod Tests
