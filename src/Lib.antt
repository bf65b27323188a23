-- ===== src/Lib.antt =====
-- crucible-iap: the life of a run.
--
-- Crucible plans and applies infrastructure stacks. A run is a row of the table runs; users, signed
-- links, runner containers, external agents and the finalizer change it by SQL statements. Here a
-- table is a list of records, a statement is a function on the tables (Db), and a handler returns
-- its response with the tables after it. A statement is one atomic step; the statements of one
-- handler run one after the other, and what the code starts in the background runs after them.
--
-- The parts, under api/internal:
--   Base          lists, tables, tests on native numbers, integers
--   Db            the tables, the job queue (queue/queue.go), the audit log, the shared statements
--   Access        access/access.go: StackRole, StackRoleForRun, resolve, and the guards of handlers
--   Quotas        quotas/handler.go: countActiveRuns, CheckConcurrentQuota; Get, Update and Status
--                 (Settings)
--   Policy        policy/policy.go: parseResultSet, eval, Evaluate, EvaluateByIDs
--   Deps          deps/predicate.go: Validate, Matches (Predicate); deps/handler.go: AddDownstream,
--                 SetPredicate, SetRetry, RemoveDownstream (Graph)
--   State         state/handler.go: Lock, Unlock, ForceUnlock, Get, Update, Delete, and the storage
--                 key of a version (Keys); ListResources and GetVersionDiff (Diff)
--   Worker        worker/worker.go: Work; one pass of the loops over waiting runs (Approvals) and of
--                 the TTL, cron and drift loops (Schedules); loadRunEnv and what it merges
--                 (Environment)
--   Agent         agent/handler.go: Claim, Finish
--   Runs          runs: chain.go (Chain, and loadChainStatus in Chain/View); of handler.go Confirm,
--                 Approve, approveWithChain (Review), Discard, Cancel, Delete (Control), Create,
--                 Retrigger (Create) and ChatOpsAction (Chatops), TriggerDrift (Drift);
--                 ReportStatus, ReportPlanSummary and ReportCost of internal.go (Internal); and
--                 finalize.go: Complete, Fail, SetStatus and the retry (Finalize), the policies
--                 (PlanPolicies), the budgets (Budget, with projects/budgets.go) and the downstream
--                 stacks (Downstream); plandiff.go (PlanDiff). Decisions puts the requests on a run
--                 into one type.
--   Webhooks      webhooks: the events that the payloads of the forges stand for (Events, Gitlab,
--                 Forges), the check of a request (Verify), Receive, DispatchGitHubEvent,
--                 Redeliver and RotateSecret (Receive), dispatchEvent with path_filter.go and push_policy.go (the
--                 module itself), handleTagPush (Tags), handlePRClose and maybeSpawnPreview
--                 (Previews), recordDelivery (Deliveries)
--   Chatops       chatops/token.go: GenerateToken, ValidateToken
--   Middleware    middleware/rbac.go: RequireRole, RequireInstanceAdmin
--   Validation    worker/validation.go: Work; the condition of worker/validation_schedule.go
--   Retention     worker/retention.go: runRetention and its ticks
--   Publishing    worker/module_publish.go: Work, buildArchiveURL, repackageModule,
--                 readTarEntries, writeTarGz
--   Pagination    pagination/pagination.go: Parse, Wrap
--   Tests         the theorems at concrete inputs
--
-- Parameters: float64 is the record Float64, strconv.ParseFloat among its fields; a Rego query is
-- a function from its input to a result set or an error; the check of a link's signature comes in
-- as its answer to ChatOpsAction; the container of a run is a function from the job and the tables
-- to its success and the tables after it; json.Marshal, the decoder of a state document, the next
-- time of a cron expression, a compiled glob, json.Unmarshal of a payload, HMAC, base64, the
-- download of an archive and Go's text functions are functions. Times are seconds, and the
-- identifiers that the database draws are a function of a counter. Loops are structural recursions
-- on lists or on a count of steps; only the recursive query of the cycle check runs on fuel, one
-- round more than there are edges, and it is proved to end within them.
-- A statement that names no order takes the rows in the order of the list. A connection to the database
-- that fails is not modelled: a query has an answer, and an INSERT or UPDATE fails only where a value
-- of the code itself does not fit its column: the approver of a service account, whose user id
-- sa:<id> is no UUID, and the trigger of a drift remediation, which is no value of its enum. A value
-- from outside that a column refuses is left out: a payload with the escape of a NUL, which leaves no
-- delivery, the audit event of a service account; and so is a queue that refuses a job, after which a
-- webhook records its delivery as skipped (enqueue_failed).
--
-- Not modelled: the HTTP and JSON layer, the log and artifact stores, the tokens of a job,
-- notifications beyond the fact that one is sent, the stores behind the state backend, the OIDC
-- specification of a container, the formats of gzip and tar, the SIEM worker, the handlers over single tables
-- (stacks, blueprints, variable sets and the like), and the user interface.
pub mod Base
pub mod Db
pub mod Access
pub mod Runs
pub mod Policy
pub mod Deps
pub mod Quotas
pub mod State
pub mod Worker
pub mod Webhooks
pub mod Chatops
pub mod Middleware
pub mod Validation
pub mod Retention
pub mod Publishing
pub mod Pagination
pub mod Agent
pub mod Tests
