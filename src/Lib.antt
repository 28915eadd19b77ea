-- ===== src/Lib.antt =====
-- Agent Airlock runs every Agent transaction against Candidate State and lets only a validated
-- outcome become Canonical State. Each decision is published as a signed receipt, and the digests
-- of the receipts go into an append-only transparency log that anyone can check offline. This
-- library models the parts that carry those guarantees.
--
-- Parts, by file, with the code that each models (paths from the repository's root; PPR stands for
-- packages/portable-promotion-receipt/src):
--
-- Prelude            shared names, lists and texts on the native numbers, results of throwing code
-- Canonical          PPR/canonical.ts: assertCanonicalJsonValue, canonicalize, utf8Bytes
-- Base64, Time       PPR/validation.ts: decodeCanonicalBase64Url; PPR/transparency.ts: isTimestamp
-- Digest, Signature  PPR/crypto.ts: sha256Digest, publicJwkFingerprint, verifyPortableSignature;
--                    PPR/validation.ts: isDigest, assertPortablePublicJwk
-- Tree               the tree that PPR/transparency.ts hashes, for any way of joining two nodes:
--                    roots (transparencyRoot), the frontier of TransparencyRootAccumulator,
--                    inclusion paths (createTransparencyInclusionProof) and their walk
-- Transparency       the same with SHA-256: roots, TransparencyRootAccumulator.append and root,
--                    createTransparencyInclusionProof, verifyTransparencyInclusion
-- Merkle             PPR/merkle.ts: buildEvidenceCommitment and verifyEvidenceDisclosure, with the
--                    shape checks of leaves and disclosures from PPR/validation.ts
-- Checkpoints        verifySignedTransparencyCheckpoint, createTransparencyConsistencyProof,
--                    verifyTransparencyConsistency, detectTransparencySplitView
-- Entries            createTransparencyEntry and verifyTransparencyEntries
-- StableJson         apps/server/src/candidate-selection.ts: stableJson, compareUtf8; a stable sort
-- Selection          apps/server/src/candidate-selection.ts: assertSelectionContract and
--                    selectCandidates, with the scorecard, its order and the winner;
--                    Selection/Replay: replayCandidateSelection and createQualityAssertion
-- CandidateSet       apps/server/src/candidate-set.ts: validateCandidateSetInput
-- Outcome            apps/server/src/outcome-contract.ts: validateOutcomeContractInput and
--                    createNextOutcomeContract
-- Assurance          apps/server/src/assurance.ts: applyAssuranceOperations and
--                    assertMonotonicStrengthening; Assurance/Simulation: simulateOperation
-- Resources          packages/transactional-resource-sdk/src/validation.ts and types.ts: the lifecycle
--                    values and their parsers (Resources/Handles), validateMetadata
--                    (Resources/Metadata), assessRequiredResourceEligibility
--                    (Resources/Eligibility)
-- Registry           apps/server/src/resource-registry.ts: ResourceRegistry's constructor and get,
--                    with validateTransactionalResourceProvider of the SDK
-- Journal            apps/server/src/promotion-journal.ts, whole: the record and its validation
--                    (Journal/Validation, Journal/Evidence), begin, advance, recordRecoveryError,
--                    updateTransaction, bindExternalActionScope, read and scan over a directory
--                    (Journal/Operations), the machine that they refine (Journal/Machine)
-- Trust              PPR/trust-policy.ts, PPR/authority-rotation.ts and PPR/crypto.ts: the shape checks
--                    (Trust), evaluateSigningKeyTrust (Trust/Evaluation),
--                    verifySignedSigningKeyTrustPolicyEnvelope and
--                    verifySignedPolicyAuthorityRotationEnvelope (Trust/Authority)
--
-- How they interact: Transparency and Merkle use Tree with the hashes of Digest; Checkpoints and
-- Entries hash canonical JSON (Canonical), and Checkpoints uses the roots of Transparency.
-- Selection and Assurance hash stable JSON (StableJson), and Assurance makes its contracts through
-- Outcome. Journal checks the evidence in a record with the parsers of Resources. Registry checks
-- manifests with Resources. Trust checks keys and signatures with Signature. A module's Examples
-- child holds runs of its code at concrete inputs.
--
-- Conventions. A string is the list of its UTF-16 code units. A number that the code checks or
-- makes to be a non-negative integer is a native ℕ, a criterion value may be negative; a type test
-- of the code (`typeof`, exact keys) is the type of the model. Code that throws gives `thrown` with
-- the start of the message, or `ok`; HttpError's status is left out. A caught error is the value
-- that the catch returns. Objects are values: none of the modelled code shares a mutable object
-- between callers, and the accumulator's state is passed from call to call. A parser that gives
-- back its input is a check. The journal's directory is a list of named files, passed from
-- operation to operation as its queue runs them; failures of the file system are left out.
--
-- Loops over a tree's levels run on fuel: the width of the level for the roots, the tree size for a
-- walk. A level is half of the one below it, rounded up, so the fuel is enough. Digits of a number
-- run on the number.
--
-- Parameters: SHA-256 (`Sha256`, with the length and the range of its digests) and the Ed25519
-- check (`Verifier`) of node:crypto, `localeCompare`, the compilation of a regular expression,
-- the tests for credentials (`Patterns`, `credential_free`, `redact`), Date.parse (`Clock`; the
-- journal asks only whether a date parses) and the size of a record's file (`Checks`,
-- `Platform`). That SHA-256 has no collisions is not assumed: a statement that needs it names,
-- as the other case, two different messages with one hash among those that the code hashes there
-- (`Collision`). Tree/Notes collects these messages.
--
-- A JSON number that `JSON.stringify` does not print as an integer in plain digits comes with its
-- text (`decimal`); canonical JSON refuses it.
--
-- Not modelled: the parser of canonical JSON, evidence packets, decision chains, the durable
-- journals beside the Promotion journal, the workspace and resource providers, the runners, the
-- HTTP server, the web client and the scripts. In assurance.ts, the derivation of a proposal from
-- runs, its digests and their check.
pub mod Prelude
pub mod Tree
pub mod Canonical
pub mod Time
pub mod Base64
pub mod Signature
pub mod Digest
pub mod Transparency
pub mod Checkpoints
pub mod Entries
pub mod StableJson
pub mod Selection
pub mod Outcome
pub mod Assurance
pub mod Resources
pub mod Journal
pub mod Trust
pub mod Merkle
pub mod Registry
pub mod CandidateSet
