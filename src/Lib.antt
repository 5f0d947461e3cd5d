-- ===== src/Lib.antt =====
-- GitGym: an API service that keeps practice sessions, and a runner service that keeps their git
-- workspaces. The API creates a workspace on the runner for each session, hands a session out to its
-- owner while it is active, and schedules a cleanup job when the session expires or its workspace is
-- gone; a loop claims the due jobs and asks the runner to delete the workspaces.
--
-- Api, services/api/internal:
--   Api/Domain, Api/Errors: domain/models.go, domain/workspace_cleanup_job.go, and the constants and
--     error sentinels of service/practice_service.go.
--   Api/Ports: the interfaces PracticeSessionStore, runner.Client and PracticeCatalog, as records of
--     operations on a world. Api/Monad: calls in sequence, each with a value or an error and a world.
--   Api/Catalog: service/practice_catalog.go, and in Stored the catalogue over the database of
--     http/router.go.
--   Api/Store/State, Sessions, Jobs: the fields and methods of InMemoryPracticeSessionStore in
--     service/practice_service.go; Invariant, Claim, Lifecycle and Expire are about them.
--   Api/Service and Service/Access, Cleanup, Listing: practiceService of the same file, over any store,
--     runner and catalogue; a method keeps its name in snake_case. Service/Loops:
--     service/practice_session_reaper.go.
--   Api/Memory: practiceService over the store in memory.
--   Api/Mysql: MySQLStore of store/mysql.go over the tables of db/migrations. Tables has the rows and
--     how a statement and a transaction run; Users, Sessions and Jobs have the methods; Refinement,
--     Sweep and Updates set them beside the store in memory, SignIn and Tokens are about the tables
--     alone.
--   Api/Http: http/handlers and http/middleware. Reply has the replies and the status of an error,
--     Session and Operator the two middlewares, Handlers and Jobs the handlers, Terminal the bridge of
--     a terminal; Own, Gate, Unset and Terminal/Forwards are about them. A request comes in parsed: a
--     cookie, a path parameter, a decoded body.
--   Api/Auth: the sign-in over GitHub. Ports has what it calls, Github is oauth/github.go, Request,
--     Reply and Handlers are http/handlers/auth.go, and new_session_token and hash_session_token are
--     service/session_cookie.go; Site sets the store of mysql.go under them, and Callback, Passes and
--     Logout are about the handlers.
--   Api/RunnerClient: HTTPClient of runner/client.go; Wire and Created set it beside the
--     delete and the create handler of the runner.
--   Api/Config: config/config.go, and the merging of overrides in http/router.go.
--   Api/Migrate: main of services/api/cmd/migrate/main.go; Outcome and Again are about it.
-- Runner, services/runner/internal:
--   Runner/Command: parseCommand, validateCommandPolicy, RunCommand and RunCommandWithEvents of
--     engine/commands.go.
--   Runner/Cleanup: WorkspaceCleanupManager of engine/workspace_cleanup.go, with one step for each section
--     under its mutex; the threads are its callers and goroutines.
--   Runner/Terminal/Chunks: splitTerminalInputChunks of engine/terminal_sessions.go.
--   Runner/Terminal/Session: the fields and methods of TerminalSession of the same file; what the
--     pseudo-terminal and the process answer is an argument.
--   Runner/Terminal/Manager: Acquire and Release of TerminalManager of the same file, one step for each
--     section under the mutex and for each wait; a slot and a terminal have the number of the call that
--     made them.
--   Runner/Socket: what http/handlers/terminal_ws.go reads out of the output and the input of a
--     terminal. Bytes has the functions on strings, Marker the lines that the shell prints, Tracker
--     commandCompletionTracker, and Exit the exit commands and the last completions.
--   Runner/Workspace: the paths of workspaces in http/handlers/commands.go and, in Delete, the handler of
--     http/handlers/deletes.go; Inside, Delay and Accepted are about them.
--   Runner/Disk: CaptureSnapshot of engine/snapshots.go, engine/templates.go, engine/workspaces.go and
--     resetWorkspaceContents of http/handlers/resets.go; Handlers has the handlers of workspaces.go,
--     resets.go, repo_state.go and commands.go, and Status and Create are about them.
-- Prelude holds the shared types and lemmas: texts as lists of code points, Go maps as association
-- lists, sorting, and results. Examples, in Api and in Runner, apply the theorems to concrete inputs.
--
-- Times are numbers of nanoseconds; a difference that Go would make negative is written with the
-- sides moved. uint64 ids and the uint32 attempt count wrap at 2 ^ 64 and 2 ^ 32; theorems that need
-- fresh ids say how many calls they allow. Every loop is a recursion on a list, so no fuel is used.
-- `range` over a Go map meets the keys in the order of the list; what is proved of the results holds
-- for every list that stands for the map.
--
-- A parameter stands for the runner's machine (processes, snapshots, files), the clock, and the texts
-- of errors. Contexts and log lines are left out: a call that is cut off is an error of the callee.
-- The database is a parameter as well: a list says which of the statements to come fail, also where a
-- foreign key refuses a row, and a field has its clock. Columns that no method reads are left out, a
-- table is a list in the order of the ids, and texts compare byte by byte.
-- The numbering of a table does not run out, and times keep every digit.
-- GitHub, the random bytes, the hash, URLs, and the transport behind the clients are parameters too: a
-- request ends with an error or with a reply, whose body decodes to a value or to none.
-- Not modelled: HTTP routes and health checks, the choice of a store at the start and process start,
-- the catalogue queries of mysql.go, the shell processes behind the terminals, the loops of the
-- runner's terminal sockets, and the web application.
pub mod Prelude
pub mod Api
pub mod Runner
