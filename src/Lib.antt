-- ===== src/Lib.antt =====
-- Verification of vage, a framework for agents in Go: the parts that decide, without I/O.
--
-- Parts of the program and where they are modelled
-- Schema: `RunRequest` and `RunResponse` of schema/message.go. The types of third-party code in
-- them are the fields of a record, `Types`, an argument of every model that passes them on.
-- LargeModel: the middlewares around a model client, largemodel/. A client is a function of a
-- request and a world `W`; a middleware keeps its own state next to it. Completer: `Chain`,
-- `DefaultChain` (middleware.go). CircuitBreaker: `allow`, `recordResult`, `Wrap`
-- (circuitbreaker.go). RateLimit: `allowRequest`, `recordTokens`, the prune functions
-- (ratelimit.go). Cache: `MapCache.Get`, `MapCache.Set` and the wrapper (cache.go). Retry: the
-- backoff, `isRetryable` and the loop of `Wrap` (retry.go).
-- Orchestrate: the execution of graphs of nodes, orchestrate/. Node: `Node`, `NodeStatus`
-- (orchestrate.go). Validation: the references that `ValidateDAG` and `BuildDAG` check
-- (orchestrate.go). Cycle: `detectCycle` (dag.go). Connected: `checkConnected` (orchestrate.go).
-- Graph: `ValidateDAG` and `BuildDAG` of these parts; what it accepts is what the theorems on Dag
-- ask for. Topology: `buildDAGMaps` (topo.go). Dag: `dagExecutor` with `scheduleReady`,
-- `propagateDownstream`, `handleNodeSuccess`, `handleNodeError`, `newDagExecutor` (dag.go); it
-- takes its edges from Topology and its messages from Schema. Backpressure: the controller of
-- concurrency (backpressure.go), from which the executor's goroutines take slots. Loop:
-- `ExecuteLoop` (loop.go). Conditional: `ValidateConditionalNode`, `ExecuteConditional`
-- (conditional.go). Checkpoint: the store in memory (checkpoint.go). Compensate: the rollback of
-- completed nodes (compensate.go) and `topologicalSort` (topo.go).
-- Service: the store of asynchronous tasks, service/task.go, as service/handler.go drives it.
-- Guard: `RunGuards` (guard/chain.go) and the filters of guard/length.go, guard/topic.go and
-- guard/content_filter.go, which are guards of such a chain.
-- Memory: the compressors of memory/compressor.go, memory/compressor_token_budget.go and
-- memory/compressor_chain.go, and the store of memory/mapstore.go.
-- Tool: the registry of tools with its filter (tool/registry.go) and the truncation of results
-- (tool/truncate.go).
-- Agent: the agents of agent/. Chat: the messages and the third-party types of a model,
-- schema/message.go.
-- TaskAgent: `Run` of agent/taskagent/task.go with its parts: Budget (budget.go), Skills
-- (`mergeSkillToolFilter`, `prepareAITools`), Prepare (`resolveRunParams`, `buildInitialMessages`
-- and what they call), Guarding (the guards of Guard around a run), Run (the loop and
-- `finalizeRun`), Chunks (`buildSend` and the chunks of a stream), Stream (`RunStream`, with the
-- same preparation and guards as Run). Workflow: agent/workflowagent/workflow.go, whose loop mode
-- is Loop of Orchestrate. Router: agent/routeragent/router.go and routefunc.go.
-- Hook: the manager of hooks, hook/manager.go.
-- Common: shared names, lists measured by native numbers, Go's maps as association lists, and
-- the search for the oldest entry that Cache and Service share.
--
-- Conventions
-- Go's `int`, `time.Time` and `time.Duration` are natural numbers, of nanoseconds for times, where
-- a negative value acts like 0 (a limit, a capacity, a time to live); where it does not, as for
-- `maxRetries`, there is an integer. Overflow of 64-bit integers is not modelled. Clocks, random
-- numbers, sleeping, polls of a context and callbacks are arguments. A mutex makes an operation one
-- step; goroutines are orders of such steps. A map is a list of entries in the order in which a
-- `range` loop meets them, and statements hold for every order.
--
-- Fuel
-- `schedule` of Orchestrate/Dag.antt calls itself through the nodes that it skips, on fuel. The
-- number of nodes is enough, since every skip takes one pending node.
-- `visit` of Orchestrate/Cycle.antt has as much fuel as there are nodes, and turns a white node
-- gray before each call of itself. `search_component` of Orchestrate/Connected.antt has as much,
-- and an ID enters its queue once.
-- `sort_queue` of Orchestrate/Compensate.antt takes its fuel as an argument; the number of nodes
-- is enough.
-- `execute_loop` of Orchestrate/Loop.antt runs on fuel when the loop has no bound, and says so when
-- the fuel runs out; a loop with a bound uses none. All other loops recurse on a list or on a
-- number that the code counts down.
--
-- Not modelled
-- The priority queue, forward recovery, resource limits, the timeline and the aggregators of
-- orchestrate/; the streams that wrap a run of the other agents; the tiers and the manager of
-- memory/; guards on regular expressions; skills, the tools themselves, evaluation, MCP and the
-- HTTP layer, which are I/O or glue.
pub mod Common
pub mod Schema
pub mod LargeModel
pub mod Orchestrate
pub mod Service
pub mod Guard
pub mod Memory
pub mod Tool
pub mod Agent
pub mod Hook
