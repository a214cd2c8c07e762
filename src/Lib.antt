-- ===== src/Lib.antt =====
-- Verification of the Runner Manager and the Pi Bridge of pi-opensandbox-runner.
--
-- The Manager gives each user of a consumer an instance: a sandbox with a Pi Bridge in it. Its API
-- writes rows to a database, most of them operations; an executor takes the operations one by one
-- and asks OpenSandbox, LiteLLM and the Bridge for what they want. Users open sessions on an
-- instance, submit turns in a session, and open terminals with single-use tickets. The Bridge
-- (src/pi_opensandbox_runner) is the other program of the repository. It runs in the sandbox, keeps
-- sessions and their journals of events, and starts a Pi process for a session that has a prompt.
--
-- Base holds the shared names. Base.Table, Base.Rows and Base.Select are tables as lists of rows, with
-- the queries, updates and deletes that the source makes of them.
--
-- Manager models src/pi_opensandbox_manager:
--   Problem     problems.py and the problems of clients.py; what a call returns or raises
--   Models      models.py: the rows, and `Db`, the database with a list for each table
--   Crypto      crypto.py, over the package cryptography as a parameter
--   Catalog     catalog_config.py: `sync_catalog` over an interface of rows with revisions
--   Catalog.Document  the configuration, its references, and the interface for models and policies
--   Operations  service/short_transactions.py: the transactions that queue and fail operations
--   Upstream    the interface of the clients and clocks that the executor calls
--   Exec        a monad for code that commits, calls, raises and may run for ever
--   Load        `_load` of service/long_tasks.py
--   Executor    the transactions of `OperationExecutor` of service/long_tasks.py
--   Executor.Run  `execute_next`, `_provision`, `_stop` and the loops that wait
--   Api         app/helpers.py and `Principal` of security.py
--   Security    security.py: `bootstrap` and `Authenticator.principal`
--   Monitor     `SandboxRecoveryMonitor` of service/long_tasks.py
--   Turns       app/turn_routes.py: `put_turn` and `cancel_turn`
--   Sessions    app/session_routes.py: `put_session`, `get_session`, `delete_session`; `get_turn`
--   Terminals   app/terminal_routes/: tickets, creation, deletion, the end of a connection
--   Terminals.Lifecycle  lifecycle.py and `get_terminal` of crud.py
--   Examples    test data, and each result applied to it
--
-- Bridge models src/pi_opensandbox_runner:
--   Problem     app/problems.py and rpc/errors.py; what a call returns or raises
--   Catalog     catalog/store.py and catalog/models.py: the sessions and their counters of events
--   Journal     journal.py: the files with the events of a session
--   Supervisor  rpc/supervisor.py: the processes of the sessions, their start, stop and eviction
--   Supervisor.Events  the events and the exit of a process, the reaper, the reload of MCP tools
--   Prompts     `prompt` of app/session_routes.py
--   Sessions    the other routes of app/session_routes.py, and abort and stop
--   Examples    test data, and each result applied to it
-- Journal.Filed and Journal.Log relate the files to a log; Supervisor.Reach is the state machine, and
-- Supervisor.Outside counts the processes that a failed start leaves.
--
-- The modules below these prove what their first lines say. Function names follow the source;
-- a function with several transactions has one definition for each and one for the whole.
--
-- A transaction is a function on `Db`; one that raises leaves the database as it was. A call to
-- another system is an argument with its answer in the API's handlers, and a call of the interface
-- Upstream, which threads a state of the world outside, in the executor. Row ids, secrets and the
-- time are arguments too. A handler as a whole, and the executor, are modelled as run alone:
-- transactions of other requests do not come between theirs. Turns.Race takes the transactions one
-- by one, as two requests at once would.
--
-- The loops that wait for a sandbox and for the Bridge run on fuel of one more than the timeout in
-- seconds. The clock never goes back and a sleep lasts a second at least, so a loop meets its
-- deadline before its fuel is out; a loop without fuel would diverge, which the results exclude.
--
-- The state of the Bridge is the table of sessions, a directory of files for each session, and the
-- dictionary of processes. What runs under a lock runs as one step; the events of a process, its exit
-- and the requests of other sessions are other steps. What Pi answers is an argument of each handler.
-- A directory is read from the files sorted by name, which are numbers with leading zeros; `writable`
-- says whether a journal's files can be opened, and `outside` which processes run without being entered.
-- The bytes of an encoded event (`size`), whether `splitlines` leaves its line whole (`whole`), and what
-- `rmtree` leaves of a directory (`left`) are parameters.
--
-- Not modelled: the HTTP clients, the payloads for OpenSandbox and the Bridge, the texts of
-- problems, the WebSocket relay, the settings' environment (I/O or data for other systems); the
-- listings, the file of the catalog and the hash of tokens; of the Bridge the routes that only read, the
-- model catalog, the pipe to a Pi process, the proxies, and files that other programs have changed.
pub mod Base
pub mod Manager
pub mod Bridge
