-- ===== src/Lib.antt =====
-- Verification of parts of the device management service.
--
-- The program's parts here are the capability system; the kernel of actors, which checks,
-- dispatches and limits messages; the resources of
-- a machine, which a resource manager commits and allocates; and the update of a deployment, which
-- the orchestrator checks and takes apart into what leaves and what comes.
--
-- The service authorises every message between actors by capability tokens. A token says who may
-- do what, where and until when; it is signed by its issuer and may hang below another token, its
-- chain. A node, a user or an actor keeps a capability context: its root anchors, its side chains
-- (require and provide tokens), the tokens that it has been shown, by subject, and revocations.
--
-- Files and the code that they are about:
-- - Common, Common/...: shared lists, maps, results and Boolean tests. Go maps are association
--   lists; theorems are about every list, so about every order of iteration.
-- - Ucan/Capability, Ucan/Capability/Order: lib/ucan/cap.go, `Implies`.
-- - Ucan/Did: lib/did. A DID is its URI. `Anchor`, `Provider` and `TrustContext` are records of
--   operations: signature schemes and the resolution of DIDs are parameters.
-- - Ucan/Token, Ucan/Token/Links: lib/ucan/token.go, the data and what only reads it (`Anchor`,
--   `ExpireBefore`, `RevocationKey`, `SignatureData`, `verifyDepth`).
-- - Ucan/Allow, Ucan/Allow/Laws: `AllowInvocation`, `AllowBroadcast`, `AllowDelegation`,
--   `AllowAction`, `Subsumes`.
-- - Ucan/Verify, Ucan/Verify/...: `Verify`. Need is the loop over needed capabilities; Chain gives
--   the rules that it decides; Attenuation and Later are about authority and about other times.
-- - Ucan/Delegate, Ucan/Delegate/Roundtrip: `delegate` and what issues by it.
-- - Ucan/Context and the files below it: lib/ucan/context.go. State is `BasicCapabilityContext`;
--   Roots has `AddRoots`, `cleanUpTokens`, `RemoveRoots`, `consumeAnchorToken` (Kept is about what
--   stays, Failed about a failure); Consume has
--   `Consume`; Discard has `Discard` and `gcTokens`; Require has `Require` and `RequireBroadcast`;
--   Provide has `Grant`, `Revoke`, `Delegate`, `DelegateInvocation`, `DelegateBroadcast`
--   and in its child Request `Provide` and `ProvideBroadcast`. Invariant says when a context is
--   sound; Reach is the relation of the contexts that calls lead to.
-- - Ucan/Tests: a small network on which the theorems are applied.
-- - Actor/Message: actor/interface.go, actor/handle.go, actor/msg.go, the envelope. Actor/Limiter:
--   actor/limiter.go. Its Laws are about one call; Counts about what is acquired and released;
--   Bounds and Runs about sequences of calls. A Go `int` is a whole number there.
-- - Types/Comparison: types/comparison.go and comparator.go, the outcome of a comparison. A map is
--   visited in the order of the list. Types/Hardware and Types/Hardware/Compare: types/hardware.go
--   and types/resources.go, what `Add`, `Subtract`, `Compare` and `Equal` do. Floating-point numbers
--   are a type `F` with the operations `Numbers`. Types/Hardware/Amounts: memory and storage as
--   whole numbers; Types/Hardware/Gpus: the memory of each GPU.
-- - Resources: dms/resources/resource_manager.go and store.go. The state is `DefaultManager`; what
--   the database answers is an argument of the call. `share` writes out that the free and the
--   onboarded resources have one array of GPUs. Events lists the calls; Totals, Free, Capacity,
--   Check and Runs are about amounts; Effects and Lifecycle about the two maps; Update about
--   `UpdateOnboardedResources`; Sharing about the GPUs.
-- - Ensemble: dms/jobs/types/ensemble.go, the configuration of an ensemble; allocations and contracts
--   are carried along as types. The generator of node identifiers is the interface that the code
--   takes. Ensemble/Location: locations and constraints on them; Ensemble/Nodes: the loops that
--   fill a map.
-- - Orchestrator, Orchestrator/Validate: dms/orchestrator/manifest_diff.go. Diff is about what leaves
--   a deployment, Fresh about what comes, Update about what an accepted update keeps, Standby
--   about the standbys of a node.
-- - Actor/Security, Actor/Security/...: actor/security.go and the signed part of actor/msg.go. A
--   private key is the operation `sign`; `public_key` gives what checks a signature. Authority is
--   about who may send, Signatures about signing; Provide has the messages that carry tokens and
--   `Grant`.
-- - Actor/Dispatch, Actor/Dispatch/...: actor/dispatch.go, over the security context and the
--   limiter. A round of `recv` or `dispatch` is an operation on the kernel; the queue between them
--   is a list. Runs is about one round; Reaches is the relation of the kernels that messages, calls
--   of the kernel and calls of its capability context lead to (`Grant`, `Provide`, the `Discard` that
--   a message carries, what the behaviors for capabilities call); Authority is about what a message
--   that reaches a continuation has shown.
-- - Actor/Tests: a broadcast and a public message with the default limits.
--
-- Conventions. An operation that changes a context returns the new one. `now` is the clock, which
-- a call reads once. Parameters stand for serialisation and cryptography: `marshal` (`json.Marshal`
-- of a token), `unmarshal`, `from_id` (`did.FromID`), `rand` (`rand.Read`), the trust context.
-- An error is a sentinel value or a text; logs are left out. Depths wrap at 2 ^ 64. All recursion
-- is on tokens and lists, so there is no fuel.
--
-- Not modelled: locks (each call runs alone), the collector's goroutine (`gcTokens` is a call), the
-- listing of roots, the store, parsing of DIDs, and the rest of the service: the registry and the
-- supervision of actors, the rest of the orchestrator, contracts, network and executors.
mod Common
pub mod Ucan
pub mod Actor
pub mod Types
pub mod Resources
pub mod Ensemble
pub mod Orchestrator
