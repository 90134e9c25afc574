-- ===== src/Lib.antt =====
-- A model of rpenginext, a turn engine for role-playing stories, with the theorems on its state.
--
-- The engine keeps a world state. A turn opens a draft of it, collects commands, applies them to the
-- draft, has a narrative written, and publishes the draft with a journal entry, or discards it.
-- * Contracts (packages/contracts/src): the data that the parts exchange. Results and failures are
--   Contracts.Results, states and commands Contracts.World, actions, passages and journal entries
--   Contracts.Turns, snapshots Contracts.Snapshots, permissions Contracts.Permissions.
-- * Kernel (packages/core/src/state/state-kernel.ts): the record StateKernel is the class, a
--   method is a function from its arguments and the kernel to its result and the new kernel.
-- * CoreCommands (packages/core/src/state/core-commands.ts): the commands that the engine
--   registers.
-- * Journal (packages/core/src/state/journal-replay.ts): `replayJournal`. Journal.Live states what
--   a turn does to the kernel, as the specification that a replay and the pipeline are compared
--   with.
-- * Migrations (packages/core/src/state/slice-migrations.ts): the slices of a loaded state.
-- * ConflictPaths (packages/core/src/pipeline/conflict-paths.ts): which commands a key concerns.
-- * Pipeline (packages/core/src/pipeline/turn-pipeline.ts): the stages that touch the commands and
--   the kernel. A stage is a step (Pipeline.Steps) from a state to a result and the state.
--   Pipeline.Commands is `checkCommandPermissions`, `propose` and `stagePropose`,
--   Pipeline.Conflicts `resolveConflicts`, Pipeline.Validate `stageValidate`, Pipeline.Materialize
--   `stageMaterialize`, Pipeline.Commit `stageCommit`, Pipeline.Interceptors `runInterceptorList`,
--   Pipeline.Dispatch `dispatchModuleEvents`, Pipeline.Guard `stageGuard`, Pipeline.Agents
--   `stagePlan` and the queued agents, Pipeline.Narrate the critics of `stageNarrate`,
--   Pipeline.Normalize `stageNormalize` (a confidence is a number of billionths), Pipeline.Run
--   `run` over all stages (Run.Types the state, Run.Stage one stage, Run.Turn the loop);
--   Pipeline.Permitted, Pipeline.Interceptors.Effects and the modules named Outcomes, Bounds,
--   Answers, Critics, Ranked, Chosen, Kept, Published, Standing and Late hold the theorems,
--   Pipeline.Refines compares with Journal.Live. The code of game modules is a parameter: the
--   fields of ContributionIndex, of GuardPorts for the guard stage.
-- * Session (packages/core/src/session/session-runtime.ts): the memory of answered actions and the
--   drain of inline system turns. Session.Live is one session as a state machine: what `submitAction`,
--   `submitSystemTurn` and `pumpBackgroundJobs` do between two waits (Live.Steps in any order), with
--   Live.Alone, Live.Drained, Live.Jobs, Live.Stalled and Live.Races.
-- * Persistence (packages/core/src/persistence/in-memory-persistence.ts): the stored sessions.
-- * Capabilities (packages/core/src/registry/capability-graph.ts): what modules provide and
--   require.
-- * Events (packages/core/src/events/event-bus.ts): subscriptions, with the sets on a heap.
-- * Agents (packages/core/src/agents): Agents has what is exchanged with a language model,
--   Agents.ToolLoop is `runToolCallingTask` (tool-loop.ts), Agents.Tools `invokeTool` and
--   Agents.Orchestrator `execute` and Agents.Parallel `executeMany` (agent-orchestrator.ts). The
--   model, the tools' handlers and the mock script act on a world of any type.
-- * Scene (packages/modules/scene-controller/src): the slice of the scene controller, its
--   operations and the mode of the guidance, with Scene.Coherent, Scene.Closed, Scene.Guidance and
--   Scene.Urged; a progress is a number of parts, the shortening of a label a parameter.
-- * Memory (packages/modules/working-memory/src, packages/modules/summary/src): the archive of the
--   turns, its window, and the chunks that sum it up, with Memory.Covered and Memory.Window.
-- Common is what the modules share, Samples the concrete data of the modules named Tests.
--
-- JavaScript: a `Map` or a record is an association list in insertion order (Common.Dicts), a
-- JSON number an integer, a text a native string. `deepClone` and `deepFreeze` are the identity,
-- since a value of the model is never changed. A method that is `async` is a function: between
-- two waits the program runs alone; only the workers of `executeMany` and the calls of a live
-- session are steps in any order. What zod says of a refused payload is a parameter. The `while`
-- of a slice's migration is on fuel, the registered version, since each step goes forward; so is
-- the search for cycles, with one more than there are modules, since the modules under way are
-- different. `none` is the fuel at its end. The dispatch of events recurs on what is left of the
-- cap of 256, the tool loop on the rounds and the attempts that are left, as the code counts
-- them.
--
-- Not modelled: what the stage intent makes of the action, the brief of the narrative and the
-- assembly of the passage (functions of Run.Types.TurnPorts, as is the stage normalize there),
-- the start, the load and the save of a session, the registries but for the capability graph,
-- exceptions of handlers (but of tools), timeouts, traces and logs, the prompts and adapters of
-- language models and the reading of their JSON texts, streams, files and HTTP, the other modules
-- of the game.
pub mod Common
pub mod Contracts
pub mod Kernel
pub mod CoreCommands
pub mod Journal
pub mod Migrations
pub mod Persistence
pub mod Capabilities
pub mod Events
pub mod ConflictPaths
pub mod Pipeline
pub mod Session
pub mod Agents
pub mod Scene
pub mod Memory
mod Samples
