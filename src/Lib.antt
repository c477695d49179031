-- ===== src/Lib.antt =====
-- Verification library of ThreadMesh: a coordinator that stores messages between agent tasks, asks a
-- relationship policy whether each may be sent, and hands accepted ones to an adapter, and a router
-- that offers lifecycle events to tasks and decides when a dependency is satisfied.
--
-- The parts, and the files that model them:
--   Disposition   the transition tables and reason codes (src/state/disposition-transitions.mjs)
--   Policy        evaluateRelationshipPolicy (src/policy/relationship-policy.mjs)
--   Coordinator   the tables and the methods of src/coordinator/sqlite-coordinator.mjs:
--                 Mailbox has submit, respond and failDelivery; Claims has claimPending and
--                 acknowledgePending; Submissions has prepareAdapterSubmission; Attempts has
--                 beginAdapterSubmission, recordAdapterReceipt and reconcileAdapterSubmission;
--                 Tasks has registerTask, getTask, updateTaskState, updateTaskRuntime, attachTask
--                 and rotateTaskIncarnation; Grants has installGrant and revokeGrant; Expiry has
--                 expireDueMessages; Admission has prepareContextAdmission,
--                 recoverContextAdmission and confirmContextAdmission; Calls puts them together as
--                 one step
--   Lifecycle     the specification: the moves that the rows of one message may make, the methods
--                 as moves, and histories of calls
--   Dispatcher    DurableDispatcher.dispatch (src/dispatcher/durable-dispatcher.mjs)
--   Routing       evaluateAttentionRoute and Routing/Dependency with evaluateDependencyEffect
--                 (src/routing/lifecycle-events.mjs); Routing/Trust has the trust checks of
--                 src/protocol-validator.mjs, Routing/Wake the AttentionWakeCursorConsumer of
--                 src/routing/attention-wake.mjs
--   TurnIntent    the durable turn intents of src/state/durable-turn-intent.mjs: Checks and Validation
--                 have the checks of their parts and validate, Operations and Outcomes the exported
--                 functions
--   Tests         the theorems at concrete inputs
-- States and Vocabulary hold the words that these share; Prelude holds equality tests, tables, lists
-- and results.
--
-- How the parts interact: the dispatcher calls the coordinator; the coordinator's methods call the
-- policy on snapshots of the tasks and the grant, and the transition tables; the router calls the
-- policy and the trust checks. A method of the coordinator is a function from the database to the new
-- database and a response, or an error, and runs in one transaction. Identifiers of a message are the
-- pair of the sender's incarnation and the message id; a message's row and its disposition's row are
-- one row here. Random identifiers, the claim token and the time are arguments; the clock is read once
-- in a call. A timestamp is what Date.parse makes of it. While the dispatcher awaits an adapter, other
-- calls may change the database in any way.
--
-- Parameters, for what is not code of the repository or only calls a library: schema validation (ajv),
-- SHA-256 digests, JSON texts, slices of strings and signatures are the fields of Platform and Crypto,
-- and the regular expressions and digests of turn intents those of Formats; adapters, the page reader,
-- the judge of relevance and the handler of the wake consumer are functions. The wake consumer awaits
-- its callbacks; here nothing else touches the consumer meanwhile, so a reconciliation is one that no
-- other of the same consumer overlaps.
--
-- The methods on adapter submissions answer with the submission, which the schema must accept: if it
-- does not, the method throws and nothing is written (assert_submission, with the schema as a field of
-- Platform).
--
-- Loops: the page loop of the wake consumer recurses on the pages that may still be read, at most
-- maxPages; all other loops recurse on lists. No fuel is needed anywhere.
--
-- The test of confirmContextAdmission that a verified admission has its provenance on record is an
-- argument, since it reads the evidence of turn intents. The SQL comparison of an expiry time with the
-- current time as texts is a field of Platform (expiry_text_passed).
--
-- Not modelled: listPending and other queries, grant proposals, content purges,
-- confirmContextAdmissionFromTurn, the tables that hold turn intents, dependencies and cursors in the
-- database, git evidence, the event pump, the JSON-RPC binding, the SDK, the adapters and the
-- validation scenarios. The histories are those of the modelled calls.
pub mod Prelude
pub mod States
pub mod Disposition
pub mod Vocabulary
pub mod Policy
pub mod Coordinator
pub mod Lifecycle
pub mod Dispatcher
pub mod Routing
pub mod TurnIntent
pub mod Tests
