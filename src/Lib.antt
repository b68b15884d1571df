-- ===== src/Lib.antt =====
-- A model of ForgeIQ's control plane and of the stores and limits around it, with theorems about
-- it.
--
-- The program lets AI agents act on incidents under a policy. A rule agent answers with a policy, a
-- decision agent with a plan or a runbook agent with a runbook, and the program executes the steps,
-- checking budgets, tags and scopes, and waiting for human approval where it is needed. Three of
-- its parts do that: the synchronous orchestrator, the incident workflows, and the runbook
-- workflow, which keeps its state in a versioned memory. Runbooks are validated when they are
-- loaded, tool arguments against the tool's schema, tasks and plan steps on request; the HTTP side
-- limits requests, and a storage keeps records of workflows, artifacts and audit logs. The agents are
-- chosen by routers that score the registered ones, with a language model's choice if configured;
-- agent strategies are loops of a model and its tools.
--
-- The files, with the code that they model:
--   Contracts: internal/controlplane/contracts/types.go and run-book-a2a.go. Contracts/Values is `any`
--     as the JSON and YAML decoders fill it, and the `[]string` that Go code puts into a schema.
--   Runtime: stringFromAny, parseFloatAny and mapString of the runbook code, with fmt.Sprint and
--     strconv.ParseFloat as parameters.
--   Orchestrator: Orchestrator.Run of internal/controlplane/orchestrator/orchestrator.go, its decoding
--     in Orchestrator/Decode and its step loop in Orchestrator/Steps.
--   Temporal/Memory: RunbookMemory of internal/controlplane/temporal/runbook_memory.go. `apply` is
--     Apply, with the buckets' switches in Temporal/Memory/Buckets.
--   Temporal/Runbook: RunbookAutomationWorkflow of internal/controlplane/temporal/runbook_workflow.go:
--     its packets, its deltas, and in Temporal/Runbook/Steps its two loops.
--   Temporal/Incident: IncidentWorkflow of internal/controlplane/temporal/workflow.go.
--   Temporal/Iterative: IncidentWorkflowIterative of internal/controlplane/temporal/workflow_agentic.go.
--   Runbooks/Gate: evalDiagnosticGate and compareFloat of runbook_workflow.go.
--   Runbooks/Validate: ValidateRunbook of internal/runbooks/validate.go.
--   Temporal/Agentic: internal/controlplane/temporal/agentic_loop.go, its iterations in
--     Temporal/Agentic/Loop, and in Temporal/Agentic/Workflow the workflow of workflow_agentic.go around
--     it.
--   Temporal/Activities: internal/controlplane/temporal/activies.go, the routing tags in
--     Temporal/Activities/Tags.
--   Strategy: internal/agent/strategy: types.go and interfaces.go, the loops of function_calling.go and
--     react.go (Strategy/FunctionCalling, Strategy/React), what they share in Strategy/Progress. The calls
--     of the tool client are kept apart from the trace that the code writes.
--   Catalog: ValidateArgsAgainstSchema of internal/catalog/validate.go, and in Catalog/Tools the catalog
--     of internal/catalog/catalog.go.
--   Validation: ValidateTask and ValidatePlanStep of internal/validation/validator.go.
--   RateLimit: internal/middleware/ratelimit.go.
--   Tenancy: internal/middleware/tenancy.go: the texts it cuts, its token check in Tenancy/Jwt, its
--     handler in Tenancy/Middleware. What a token and a path say is described apart from the code in
--     Tenancy/Tokens, Tenancy/Claims and Tenancy/Paths.
--   Storage: internal/storage/memory.go and storage.go.
--   Routing: internal/transport/a2a/router.go (Routing/Score, Routing/Router), hybrid_router.go
--     (Routing/Hybrid), runtime_weights.go and the building of routers from the configuration
--     (Routing/Setup).
--   Prelude, GoMap, Text, Float64: shared lists, integers, results, Go's maps, strings.TrimSpace, and
--     the comparison, truncation and arithmetic of IEEE doubles on their bit patterns.
--
-- Stateful code passes its state along; where it writes in place and may then return an error, as the
-- memory does, the state comes back with the error. What the program calls and does not define (agents, tools,
-- activities, clocks, number formatting) is a record of functions that a definition takes as an
-- argument; the answers may depend on the calls made before, so that no assumption is made about
-- them. Signals are the list of the values that the workflow will receive, in their order; a
-- workflow that has received them all is waiting. Every loop is a recursion on the list of steps,
-- records or rounds that it goes through, so that no fuel is needed: the three rounds of the
-- iterative workflow are the bound that its code sets, and a strategy's loop and the agentic
-- loop count down the iterations of their budgets. Integers are natural or signed numbers, with
-- the wrap-around of int64 written out where versions are counted and durations multiplied. Times
-- are natural numbers.
--
-- A map of Go is a list of entries with distinct keys; where the program ranges over a map and the
-- order matters (the storage's lists, the properties of a schema), the order of the visit is an
-- argument. The storage keeps the addresses of workflow records, since callers share them.
--
-- Not modelled: logging, metrics and HTTP framing; the SQL, vector and search stores, the A2A and
-- MCP transports and the language model clients, which are services' behaviour; the activities of
-- the runbook workflow and the sanitizer. Retries and timeouts of activities belong
-- to the workflow engine: an activity's answer is the one after its retries.
pub mod Prelude
pub mod RateLimit
pub mod Storage
pub mod Catalog
pub mod Validation
pub mod Examples
pub mod GoMap
pub mod Text
pub mod Float64
pub mod Contracts
pub mod Runtime
pub mod Runbooks
pub mod Orchestrator
pub mod Temporal
pub mod Routing
pub mod Strategy
pub mod Tenancy
