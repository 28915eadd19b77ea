-- ===== src/Checkpoints.antt =====
-- Signed checkpoints of the transparency log, consistency proofs between two of them, and split
-- views: packages/portable-promotion-receipt/src/transparency.ts. A check of a report is its name
-- and its verdict; the prose beside them is left out.
pub mod Logs
pub mod Consistency
pub mod Examples
use agent_airlock.Prelude.{
  ℕ, suc, ◌+◌, Bool, true, false, not, List, [], ◌∷◌, ◌++◌, Option, none, some, length, take, all,
  ltb, leb, ◌==◌, ◌&&◌, ◌||◌, if◌then◌else◌,
}
use agent_airlock.Prelude.Int.{pos}
use agent_airlock.Prelude.Texts.{Text, codes, text_eq}
use agent_airlock.Prelude.Results.{Result, ok, thrown, ◌>>=◌, ◌>>◌, throw_if, catch}
use agent_airlock.Canonical.{Json, null, num, str, obj, fields}
use agent_airlock.Base64.{decode_canonical_base64url}
use agent_airlock.Digest.{Sha256, is_digest}
use agent_airlock.Signature.{
  PublicJwk, Domain, Verifier, assert_portable_public_jwk, canonical_digest, public_jwk_fingerprint,
  verify_portable_signature,
}
use agent_airlock.Transparency.{Checkpoint, is_checkpoint, transparency_root}

pub record SignedCheckpoint : Type 0 where
  pub checkpoint : Checkpoint
  pub checkpoint_digest : Text
  pub signature_algorithm : Text
  pub signature : Text
  pub public_jwk : PublicJwk

pub record Check : Type 0 where
  pub name : Text
  pub valid : Bool

pub record Report : Type 0 where
  pub valid : Bool
  pub split_view : Bool
  pub checks : List Check

pub record ConsistencyProof : Type 0 where
  pub from_size : ℕ
  pub to_size : ℕ
  pub receipt_digests : List Text

abbrev pub null_or_str : Option Text → Json
null_or_str none = null
null_or_str (some t) = str t

abbrev pub checkpoint_json : Checkpoint → Json
checkpoint_json c = obj (
    fields (
      (codes "schema", str c.schema)
      ∷ (codes "schemaVersion", num (pos c.schema_version))
      ∷ (codes "treeSize", num (pos c.tree_size))
      ∷ (codes "root", str c.root)
      ∷ (codes "priorCheckpointDigest", null_or_str c.prior_checkpoint_digest)
      ∷ (codes "createdAt", str c.created_at)
      ∷ (codes "keyId", str c.key_id)
      ∷ []))

abbrev pub check : Text → Bool → Check
check name valid = record { name = name; valid = valid }

-- `assertSignedCheckpoint`.
unfoldable pub assert_signed_checkpoint : SignedCheckpoint → Result (Unit {0})
assert_signed_checkpoint s = do
  throw_if (not (is_checkpoint s.checkpoint)) "Transparency checkpoint is invalid"
  throw_if (not (is_digest s.checkpoint_digest)) "Signed transparency checkpoint is invalid"
  throw_if (not (text_eq s.signature_algorithm (codes "Ed25519")))
      "Signed transparency checkpoint is invalid"
  bytes ← decode_canonical_base64url s.signature 64
  throw_if (not (length bytes == 64)) "Signed transparency checkpoint is invalid"
  assert_portable_public_jwk s.public_jwk

-- `assertTransparencyConsistencyProof`, as the test that it throws by.
unfoldable pub is_consistency_proof : ConsistencyProof → Bool
is_consistency_proof p =
    leb p.from_size p.to_size
    && leb p.to_size 100000
    && length p.receipt_digests == p.to_size
    && all is_digest p.receipt_digests

unfoldable pub same_prior : Option Text → Option Text → Bool
same_prior none none = true
same_prior (some a) (some b) = text_eq a b
same_prior _ _ = false

abbrev pub is_not_null : Option Text → Bool
is_not_null none = false
is_not_null (some a) = true

-- The prior digest of the later checkpoint: that of the earlier one at one size, else not null.
unfoldable pub prior_links : Checkpoint → Checkpoint → Bool
prior_links from to =
    if to.tree_size == from.tree_size
    then same_prior to.prior_checkpoint_digest from.prior_checkpoint_digest
    else is_not_null to.prior_checkpoint_digest

-- A throwing call compared with a digest inside `try`: an error answers false.
abbrev pub is_ok_digest : Result Text → Text → Bool
is_ok_digest (ok d) e = text_eq d e
is_ok_digest (thrown m) e = false

module _ (sha : Sha256) (verifier : Verifier) where
  -- The three checks of a checkpoint that has the right shape.
  unfoldable pub checkpoint_checks : SignedCheckpoint → Result (List Check)
  checkpoint_checks s = do
    assert_signed_checkpoint s
    expected ← canonical_digest sha (checkpoint_json s.checkpoint)
    key_id ← public_jwk_fingerprint sha s.public_jwk
    ok (
        check (codes "checkpoint-digest") (text_eq expected s.checkpoint_digest)
        ∷ check (codes "checkpoint-key") (text_eq key_id s.checkpoint.key_id)
        ∷ check (codes "checkpoint-signature") (
            verify_portable_signature verifier s.checkpoint_digest s.signature s.public_jwk
              Domain.checkpoint)
        ∷ [])

  abbrev pub invalid_report : Report
  invalid_report = record {
    valid = false;
    split_view = false;
    checks = check (codes "checkpoint-schema") false ∷ [];
  }

  unfoldable pub verify_signed_transparency_checkpoint : SignedCheckpoint → Report
  verify_signed_transparency_checkpoint s = elim (checkpoint_checks s) [
    | thrown _ ↦ invalid_report
    | ok checks ↦ record { valid = all (λ c. c.valid) checks; split_view = false; checks = checks }
  ]

  unfoldable pub create_transparency_consistency_proof : List Text → ℕ → Result ConsistencyProof
  create_transparency_consistency_proof receipt_digests from_size = do
    throw_if (ltb (length receipt_digests) from_size) "Transparency consistency range is invalid"
    throw_if (not (all is_digest receipt_digests)) "Transparency digest is invalid"
    ok (record {
      from_size = from_size;
      to_size = length receipt_digests;
      receipt_digests = receipt_digests;
    })

  unfoldable pub verify_transparency_consistency :
      ConsistencyProof → SignedCheckpoint → SignedCheckpoint → Bool
  verify_transparency_consistency p from to =
      is_consistency_proof p
      && (verify_signed_transparency_checkpoint from).valid
      && (verify_signed_transparency_checkpoint to).valid
      && text_eq from.checkpoint.key_id to.checkpoint.key_id
      && p.from_size == from.checkpoint.tree_size
      && p.to_size == to.checkpoint.tree_size
      && length p.receipt_digests == p.to_size
      && all is_digest p.receipt_digests
      && is_ok_digest (transparency_root sha (take p.from_size p.receipt_digests))
          from.checkpoint.root
      && is_ok_digest (transparency_root sha p.receipt_digests) to.checkpoint.root
      && prior_links from.checkpoint to.checkpoint

  unfoldable pub detect_transparency_split_view : SignedCheckpoint → SignedCheckpoint → Bool
  detect_transparency_split_view left right =
      (verify_signed_transparency_checkpoint left).valid
      && (verify_signed_transparency_checkpoint right).valid
      && text_eq left.checkpoint.key_id right.checkpoint.key_id
      && left.checkpoint.tree_size == right.checkpoint.tree_size
      && not (text_eq left.checkpoint.root right.checkpoint.root)
