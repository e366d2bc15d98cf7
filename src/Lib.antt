-- ===== src/Lib.antt =====
-- pi-workflows: a workflow extension for the Pi coding agent.
--
-- A workflow is a graph of nodes. The server validates the graph, runs it step by step and keeps
-- the state of each run; the state changes only by transitions that an event proposes and that the
-- state machine accepts. While a step runs in a Pi session, the session's events are recorded and
-- folded into the messages and tools that the viewers show, at any point of the recording.
--
-- The parts and their files:
-- * Json models the JSON values of src/state/json.ts. A number is the bit pattern of its double;
--   Json/Number reads the numbers that the code tests, Json/Equality compares values,
--   and Json/Canonical brings them into the form that is stored.
-- * Graph models src/workflows/graph.ts: the validation of a definition, the search for
--   unreachable nodes and the routing of an output. Graph/Search and Graph/Reach are about the
--   search, Graph/Routes about the routing.
-- * Transitions models src/workflows/transitions.ts: the state of a run (src/workflows/types.ts),
--   the guards (Guards), the change of the state by each kind of transition (Apply) and the
--   transition that an event proposes (Propose). It calls Graph for the next node. Shape, Path and
--   Finish are about the agreement of the state's fields, the path of the steps and completion;
--   History has the sequences of transitions from an initial state.
-- * Session models src/workflows/session-reducer.ts: the fold of the session's events (Step, Fold)
--   and the index that seeks in a recording (Seek). Keyed, Blocks and Keep are about the fold's
--   state, Order about its result, Sorted and Projected about a state with sorted blocks, as a
--   checkpoint has them, Runs and Continue about folding on from a checkpoint, Seek/Exact and
--   Seek/Bisect about the index.
-- * CommandBatch models src/workflows/command-batch.ts: the validation of a request, and the run of
--   a batch as a sequence of pieces that the slots run between two awaits (Run). How a command ends
--   is part of a piece. Once and Finish are about the results, Ends about termination, Bounds about
--   validation.
-- * JsonPatch models src/workflows/json-patch.ts: pointers, the effect of each operation on a
--   document (Apply), and the validation of a patch (Validate). Undo and Inverse are about adding
--   and removing, Target about the lookups, Pointer about the escapes.
-- * Conditions models src/resource-managers/conditions.ts; Merge, with Keyed, is about its merge.
-- * AttemptTime models src/state/attempt-time.ts: the table of active intervals, the ids of the attempts
--   that it refers to and the anchors that a server process keeps for it. Anchored, with Anchors, is about the calls after recovery.
-- * Queue models src/workflows/queue.ts: what the database has about one run (Queue), the log,
--   the lease and the settling of effects (Claims), parking and resuming (Parks), the ends (Ends), and the whole queue with its
--   reservations (Store). Calls and Steps have the sequences of calls, by any callers at any
--   times; Fencing, Final, Log, Sessions and Next are about what they keep, and Undone is shared.
-- * Mutation models src/state/mutation.ts: the resources of the database with their revisions, leases and
--   events, and the operations on them (Calls). Later and Forward are about how rows change, Fence and
--   Takeover about lost leases, Permits about expected revisions. The other tables, which a
--   mutation's own code writes, are a parameter.
-- * Requests models src/workflows/requests.ts: the interactive requests and the submissions that answer them
--   (Submit). Retry is about a submission that is sent again, Settled and Output about settled requests.
-- * Progress models the current updates of src/workflows/updates.ts (Projection is about them) and the history of
--   src/workflows/progress.ts (History).
-- * ControlLoop models src/workflows/control-loop.ts, which builds edges for Graph; Edges is about them.
-- * Engine models src/workflows/engine.ts: the step limits (Scopes), what is recorded (Record), the
--   attempt of a node (Node), the loop and its ends (Loop) and resumption (Resume), which take their
--   routes from Graph and their state from Transitions. Projection models what src/workflows/store.ts
--   builds from the recorded steps. What a node does, with the pauses, parks and cancellations
--   around it, the ids, the times and the texts of the engine's own errors, is an Environment that
--   may do anything. Boundary, Passed and Output are about one round, Reached is about any number of
--   them, Continue and Failed about resumption, Ranked and Budget about the limit, Saved and Rebuilt
--   about the store. The saved state of a run is taken as the engine holds it, where the store has
--   null for an output that is not there.
-- * Prelude has the tests, lists, maps and error results that the parts share.
--
-- In the session fold and in the progress history JavaScript's Map is a function from keys,
-- the Map of a message's blocks the list of its values, and elsewhere it is an association list. An exception is the throw of Outcome. The hash of a token,
-- the id of a resource, the shortening of a text, the text of a number, the parser of a date, the
-- difference of two times, the test for an absolute path and the length of a value's canonical text
-- are parameters. The search for reachable nodes runs on fuel, one unit for each target of the
-- edges and one for the start, and Graph/Search shows that this is enough. The engine's loop runs
-- on fuel too, of which Engine/Ranked and Engine/Budget show how much is enough.
--
-- Not modelled: of the engine, the execution of each kind of node, a write that the store refuses,
-- the retries of a settings route and the validation before a run; of the queue, its listing, the adoption of a run of an older server, the timeout of
-- an interaction and the stored text of a source; of progress, the estimates, which compute with
-- doubles; the SQLite database and the server around it, sockets, child processes, the extension's
-- calls of the Pi host, rendering, and the prompts of the built-in workflows.

mod Prelude
pub mod Json
pub mod Graph
pub mod Transitions
pub mod Session
pub mod CommandBatch
pub mod JsonPatch
pub mod Conditions
pub mod AttemptTime
pub mod Queue
pub mod Mutation
pub mod Requests
pub mod Progress
pub mod ControlLoop
pub mod Engine
