-- ===== src/Lib.antt =====
-- ThreadLoop keeps one work session per task: its lifecycle, the proof that gates passed, the
-- signed evidence of CI and review, and a hash-chained audit log, in an SQLite database of the
-- repository. An operator or an agent asks for a transition; the transition is applied only where
-- the lifecycle graph has it and the guards find the evidence for it.
--
-- Parts and files. A name of the source in camel case is the same name here in snake case; a type
-- keeps its name.
-- - Task: src/domain/types.ts, the states, phases and actors.
-- - Lifecycle: src/domain/lifecycle.ts, `evaluateLifecycleTransition`; Lifecycle/Graph draws the
--   lifecycle diagram of docs/lifecycle.md as a relation, with the one move that only the code has.
-- - Json, Json/Canonical: src/domain/canonical-json.ts on parsed values.
-- - Proof: src/domain/proof.ts, the types of plans. Setup is the check of recorded setup steps,
--   Latest is `latestBy`, Receipt is `evaluateProofEvidence` with `parseAndValidateReceipt`, and
--   Evidence is `aggregateGateStatus`.
-- - Package: src/domain/attestation.ts, `parseSignedEnvelope`, `bindSignedStatement` and
--   `reverifyStoredPackage` for any kind of receipt; Package/Ci is `evaluateCiProofEvidence`.
-- - Review: src/domain/review.ts, the evidence types and the questions about a review; its child
--   Evidence is `evaluateReviewEvidence`.
-- - Transition: src/domain/session-transition.ts. Input reads a request, Guards is
--   `evaluateTransitionGuards`, Plan is `planNextTransition`, Request is
--   `canonicalizeTransitionRequest`. Transition/Authority lists, edge by edge, what evidence
--   authorizes a move; its children prove the guards against that list.
-- - Audit: src/domain/audit.ts. Audit/Chain is what a verified chain is, and Audit/Verification
--   and Audit/Tamper prove `verifyAuditChain` against it.
-- - Store: src/adapters/fs/sqlite-store.ts, `applySessionTransition` with all that it calls.
--   History is `assertSessionTransitionHistoryAuthority`, Ledger is `appendAuditEvent`, Rejection
--   is the record of refused and of repeated requests, Apply is the call itself. Store/Outcome
--   lists the ways in which a call returns, and its children what each leaves; Store/History's
--   children say what an authoritative history is. Store/Calls is any number of calls.
-- - Session: src/services/session-service.ts. Session/Proof is `evaluateSessionProof` with
--   `bindStoredProofPlan` of src/domain/proof.ts, Files is what is read of a receipt's files
--   (`readReceiptArtifactDigests`, and `readControlledSignedReceiptPackageContents` of
--   src/services/signed-receipt-files.ts), Basis is `buildProofGuardContext` with
--   `hasCommittedDiff` of src/adapters/git/client.ts, Prepare is `prepareBoundProofPlan`, and
--   Transition is `transitionSession`: Run is the call, Gathered lists the guards that a call can
--   have gathered, Edges lists what the edges need, and Applied and Worked prove what an applied
--   transition rests on. Files/Controlled and Files/Vouched are about the paths and the digests,
--   Reading about the lifecycle that is read first, and Prepare/Bound with Baseline and Inside about
--   the plan that is bound.
-- - Gaap/Json: src/domain/gaap-json.ts, `parseGaapJson`. Scan is how far each scan goes, Reader is
--   `JsonReader`, and Accepts, Accepted and Surrogates prove what it accepts.
-- - Scenarios: a small JSON writer and digest, runs, and each theorem at a concrete input.
--
-- How the parts interact. Store/Apply calls the lifecycle graph with the phase that it derives from
-- the transition history, the guards by an argument (the service passes `evaluateTransitionGuards`
-- with the evidence that it read), and the audit chain for every event. Transition/Plan calls the
-- same guards for the candidate that it offers. Session/Transition reads the evidence first, in
-- snapshots of their own that the model keeps apart (`Snapshots`; it does not say that the receipts
-- are read behind their watermark, which is the order of the code), and then calls Store/Apply on the
-- store as it is by then, with the watermark of the receipts that it had read. Package verifies stored packages again for Package/Ci
-- and for Review/Evidence; what these and Proof/Receipt find is the evidence of the guards' context.
--
-- State. `SessionStore` is the projection of the database to one session: each statement of the
-- modelled calls selects by the session's id. A table is the list of its rows, oldest first. An
-- operation takes the store and returns the new one inside `Action`, or throws a `Fault`; a throw
-- rolls the write transaction back, so nothing of a store that was being built is kept. The
-- compare-and-swap update of `tasks` meets the row that the same transaction has just read, so it
-- changes exactly one row and has no test here. Rows of other sessions enter only through the insert
-- guards on globally unique ids; an id that `createId` makes is taken to be new outside the session.
-- An audit row is its decoded event: the comparison of the decoded event with the row's columns, in
-- `storedAuditEventFromRow`, is left out.
--
-- Parameters. `JSON.stringify`, `JSON.parse` and SHA-256 are arguments of the definitions (`Engine`).
-- Two assumptions on them occur: `IsCanonical` asks that the text of a recorded request parses to that
-- request, and a call that is to return needs a digest in hexadecimal. The schema of a receipt's
-- payload (`gateReceiptPayloadSchema`, of the zod package) is a field of `ReceiptReader`; those of a
-- signed package and the runtime's `Buffer` are fields of `PackageReader` and of `SignedReceiptKind`.
-- The clock and the ids of a call are the record `Fresh`. Errors are kept by their codes: messages,
-- recovery hints and the details of a failed result are prose for the operator. Numbers are natural
-- numbers, with the tests for safe integers where the source has them: a negative or fractional number
-- is refused by those tests, and no modelled value is one but a JSON value. All loops but those of
-- `JsonReader` are structural recursion on a list or on a JSON value. The reader's three mutual
-- functions recurse on fuel, a unit for each call: between two calls the text gets shorter or the next
-- call of the cycle is made, so three times the units of the text and one is enough.
-- Git and the file system are arguments too (`Git`, `Files`), as functions that answer as at the
-- moment of the call; `none` is a throw. The texts of `JsonReader` are UTF-16 code units, and its
-- offset is the units that are left, which differs from the source only where the offset has passed
-- the end and the text is refused.
--
-- Not modelled: the signing side and the import of signed packages, the session service's other
-- commands, the gate runner, the rest of the GAAP executor, the command line, rendering, migrations,
-- and the calls of GitHub and Sigstore.
pub mod Base
pub mod Task
pub mod Lifecycle
pub mod Json
pub mod Gaap
pub mod Proof
pub mod Package
pub mod Review
pub mod Transition
pub mod Audit
pub mod Store
pub mod Session
pub mod Scenarios
