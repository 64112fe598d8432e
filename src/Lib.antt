-- ===== src/Lib.antt =====
-- Verification of the workflow builder: the engine that executes workflow runs (packages/engine) and
-- the HTTP handlers that call it (apps/web).
--
-- The program. A workflow is a list of steps; a run of it is a row of workflow_runs, and each step
-- leaves a row of step_runs. A user triggers a run through an action, which checks the shared
-- secret, finds the user's role by walking the tables, reserves a unit of the organization's quota
-- and inserts the run. The insertion sends an event, delivered at least once, whose handler executes
-- the run: it claims the row, then goes from step to step, with templates filled in from earlier
-- outputs, retries, branches and approval gates, where the run pauses. Approving a gate claims its
-- row and resumes the run.
--
-- The model. A program (Store/Program) takes the world, which is the tables and a count of the
-- interactions so far, to a result and a world: what was done before an error stays done. A request
-- to Hasura is performed whole or not at all; it may be answered, refused, or done with its answer
-- lost. What comes from outside (numbers, regular expressions, clock, identifiers, random numbers,
-- environment, the fate of a request) is the record Host. URLs, name resolution, `fetch` and text
-- decoding are the record Network; the world logs the addresses that were fetched. Times are
-- milliseconds.
--
-- Files, and the code that they model:
--   Common, Common/*      shared names, lists, tests, and the string methods the code calls
--   Json, Json/Stringify  the type Json of packages/engine/src/types.ts, JSON.stringify
--   Domain                packages/engine/src/types.ts: rows, statuses, conditions, errors
--   Host                  the outside
--   Context, Context/*    packages/engine/src/core/context.ts: RunContext, resolvePath (resolve_path),
--                         interpolateString, resolveTemplates (resolve_templates)
--   Conditions            packages/engine/src/core/conditions.ts: evaluateCondition
--   Retry, Retry/*        packages/engine/src/core/retry.ts: withRetry (with_retry)
--   Env                   packages/engine/src/lib/env.ts
--   Store, Store/*        the tables, programs over them, and rules for relations and results
--   Tables, Tables/*      the GraphQL documents of packages/engine/src/core/repository.ts
--   Repository, Repository/*
--                         packages/engine/src/core/repository.ts, one function each
--   Network               the platform that the outbound steps use
--   Hasura, .../Refining  packages/engine/src/lib/hasura.ts: execute (execute_graphql), adminRequest,
--                         userRequest
--   Executors             the calls of packages/engine/src/steps that a step may make: an interface
--   Steps, Steps/Frames, Steps/Halting
--                         packages/engine/src/steps/dbWrite.ts and notify.ts, which implement it
--   Steps/Http            packages/engine/src/steps/http.ts: executeHttpRequest up to the response;
--                         Address is isBlockedAddress, Guard assertUrlAllowed, Answer readCapped and
--                         what becomes of the response; Traffic, Vetting, Guarding, Ranges,
--                         Admission and Reading are about what is fetched, blocked and read
--   Steps/Llm             packages/engine/src/steps/llm.ts: executeLlmCall, stubCompletion; Providers
--                         is postJson, OpenAi and Gemini the two ways to call a provider, Extraction
--                         extractJson; Outcomes, Calls and Fencing are about them
--   Steps/Dispatch        packages/engine/src/core/engine.ts: the steps that runStepBody calls
--   Branching, Branching/*
--                         packages/engine/src/core/engine.ts: the branch step, resolveBranchTarget
--   Engine/Rounds         packages/engine/src/core/engine.ts: one round of the loop of executeRun,
--                         buildContext, runStepBody
--   Engine                packages/engine/src/core/engine.ts: executeRun (execute_run); the loop is
--                         run_loop, and execute_bundle is what follows the claim
--   Engine/Progress, Engine/Frames, Engine/Accounts, Engine/Executing, Engine/Loop, Engine/Outcome,
--   Engine/Claims         what the engine does to the rows of a run
--   Engine/Ending, Engine/Total, Engine/Whole
--                         that executing a run comes to an end
--   Quota, Quota/Bounds   packages/engine/src/core/quota.ts, and the functions reserve_org_quota and
--                         release_org_quota of
--                         hasura/migrations/default/1786000000000_init_workflow_schema/up.sql
--   Runs, Runs/*          packages/engine/src/core/runs.ts: createRunWithQuota
--   Authz, Authz/*        packages/engine/src/core/authz.ts: requireUserId, isUuid,
--                         authorizeWorkflowExecution, authorizeApproval
--   Approval, .../Winner  packages/engine/src/core/approval.ts: approveAndResume
--   Routes                apps/web/lib/action-guard.ts
--   Routes/Actions        apps/web/app/api/actions/trigger-workflow-run/route.ts and
--                         apps/web/app/api/actions/approve-step/route.ts
--   Routes/Events         apps/web/app/api/events/workflow-run/route.ts
--   Routes/Webhook        apps/web/app/api/webhook/[triggerId]/route.ts
--   Routes/WebhookUrl     apps/web/app/api/actions/get-webhook-url/route.ts
--   Routes/Notifications  apps/web/app/api/events/notification/route.ts
--   Routes/Schedule       apps/web/app/api/events/scheduled-dispatch/route.ts
--   Routes/Guarded, Routes/Authorized, Routes/Opaque, Routes/Received, Routes/Revealed,
--   Routes/Settled, Routes/Due, Routes/Swept
--                         what the handlers let through and do
--   Tests, Tests/*        a small installation, to which the theorems are applied
--
-- Bounds and fuel. The loop of executeRun has one unit of fuel for each step and one more: the index
-- grows with every round, since a branch backwards fails the run, so the loop is over by then.
-- withRetry takes its fuel from the caller, because its bound may be configured as infinite; with a
-- finite bound of m attempts, m + 2 is enough. The redirect loop of http_request counts down from the
-- code's own limit of three. Everything else is structural recursion.
--
-- Not modelled: the web client and its queries, the schema and permissions of
-- Hasura, scripts and tests. Objects have their own properties only, strings are sequences of
-- characters, and constant-time comparison is equality. Ids are compared as texts, where the database
-- compares uuids without regard to case. What the log prints is left out.

pub mod Common
pub mod Json
pub mod Domain
pub mod Host
pub mod Network
pub mod Hasura
pub mod Context
pub mod Conditions
pub mod Store
pub mod Env
pub mod Retry
pub mod Tables
pub mod Repository
pub mod Executors
pub mod Branching
pub mod Engine
pub mod Quota
pub mod Runs
pub mod Authz
pub mod Approval
pub mod Routes
pub mod Steps
mod Tests
