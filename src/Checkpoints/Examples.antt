-- ===== src/Checkpoints/Examples.antt =====
-- Two signed checkpoints of one log, the second after one more receipt.
use agent_airlock.Prelude.{
  ◌≡◌, ◌≢◌, refl, ◌⊎◌, true, false, List, [], ◌∷◌, Option, none, some, length, take, arith,
}
use agent_airlock.Prelude.Texts.{Text, codes, text_eq}
use agent_airlock.Prelude.Results.{ok, catch}
use agent_airlock.Digest.{Collision, sha256_digest, is_digest, digest_bytes}
use agent_airlock.Digest.Examples.{toy_sha, checksum, digest_of, replicate}
use agent_airlock.Canonical.{canonicalize, utf8_bytes}
use agent_airlock.Base64.{decode_canonical_base64url}
use agent_airlock.Time.{is_timestamp}
use agent_airlock.Signature.{
  PublicJwk, Verifier, assert_portable_public_jwk, canonical_digest, public_jwk_fingerprint,
  verify_portable_signature,
}
use agent_airlock.Tree.{next_level, last_level, tree_root, head?}
use agent_airlock.Transparency.{
  Checkpoint, checkpoint_schema, empty_root, hash_transparency_leaf, hash_transparency_node,
  transparency_root, is_checkpoint,
}
use agent_airlock.Transparency.Hashes.{root_messages}
use agent_airlock.Checkpoints.{
  SignedCheckpoint, ConsistencyProof, checkpoint_json, assert_signed_checkpoint, checkpoint_checks,
  is_consistency_proof, same_prior, prior_links, verify_signed_transparency_checkpoint,
  create_transparency_consistency_proof, verify_transparency_consistency,
  detect_transparency_split_view,
}
use agent_airlock.Checkpoints.Logs.{transparency_root_binding}
use agent_airlock.Checkpoints.Consistency.{
  verify_transparency_consistency_sound, verify_transparency_consistency_complete,
  detect_transparency_split_view_lem,
}

evaluated : Unit {0}
unfolding transparency_root hash_transparency_leaf hash_transparency_node sha256_digest is_digest
    digest_bytes checksum tree_root next_level last_level head? is_checkpoint is_timestamp text_eq
    canonicalize utf8_bytes decode_canonical_base64url assert_portable_public_jwk canonical_digest
    public_jwk_fingerprint verify_portable_signature assert_signed_checkpoint checkpoint_checks
    is_consistency_proof same_prior prior_links verify_signed_transparency_checkpoint
    verify_transparency_consistency detect_transparency_split_view empty_root
evaluated = tt

abbrev any_signature : Verifier
any_signature = λ _ _ _. true

abbrev jwk : PublicJwk
jwk = record { crv = codes "Ed25519"; kty = codes "OKP"; x = replicate 43 b'A' }

abbrev signed : List Text → Option Text → SignedCheckpoint
signed log prior =
    let c : Checkpoint = record {
      schema = checkpoint_schema;
      schema_version = 1;
      tree_size = length log;
      root = catch (transparency_root toy_sha log) [];
      prior_checkpoint_digest = prior;
      created_at = codes "2026-01-02T03:04:05.006Z";
      key_id = catch (public_jwk_fingerprint toy_sha jwk) [];
    } in
    record {
      checkpoint = c;
      checkpoint_digest = catch (canonical_digest toy_sha (checkpoint_json c)) [];
      signature_algorithm = codes "Ed25519";
      signature = replicate 86 b'A';
      public_jwk = jwk;
    }

abbrev log : List Text
log = digest_of b'a' ∷ digest_of b'b' ∷ []

abbrev earlier : SignedCheckpoint
earlier = signed (digest_of b'a' ∷ []) none

abbrev later : SignedCheckpoint
later = signed log (some (digest_of b'e'))

earlier_root : transparency_root toy_sha (take 1 log) ≡ ok earlier.checkpoint.root
unfolding evaluated
earlier_root = refl

later_root : transparency_root toy_sha log ≡ ok later.checkpoint.root
unfolding evaluated
later_root = refl

earlier_valid : (verify_signed_transparency_checkpoint toy_sha any_signature earlier).valid ≡ true
unfolding evaluated
earlier_valid = refl

later_valid : (verify_signed_transparency_checkpoint toy_sha any_signature later).valid ≡ true
unfolding evaluated
later_valid = refl

later_links : prior_links earlier.checkpoint later.checkpoint ≡ true
unfolding evaluated
later_links = refl

transparency_root_binding_example :
    (log ≡ log) ⊎ Collision toy_sha (root_messages toy_sha log) (root_messages toy_sha log)
transparency_root_binding_example =
    transparency_root_binding toy_sha log log later.checkpoint.root later_root later_root refl

verify_transparency_consistency_complete_example :
    (p : ConsistencyProof) × (create_transparency_consistency_proof toy_sha any_signature log 1
      ≡ ok p)
    × (verify_transparency_consistency toy_sha any_signature p earlier later ≡ true)
verify_transparency_consistency_complete_example =
    verify_transparency_consistency_complete toy_sha any_signature log 1 earlier later (omega arith)
      earlier_root refl later_root refl earlier_valid later_valid refl later_links

abbrev growth : ConsistencyProof
growth = record { from_size = 1; to_size = 2; receipt_digests = log }

growth_accepted : verify_transparency_consistency toy_sha any_signature growth earlier later ≡ true
unfolding evaluated
growth_accepted = refl

verify_transparency_consistency_sound_example :
    (take 1 log ≡ take 1 log)
    ⊎ (Collision toy_sha (root_messages toy_sha (take 1 log)) (root_messages toy_sha (take 1 log))
        ⊎ Collision toy_sha (root_messages toy_sha log) (root_messages toy_sha log))
verify_transparency_consistency_sound_example =
    verify_transparency_consistency_sound toy_sha any_signature growth earlier later (take 1 log)
      log growth_accepted earlier_root refl later_root refl

-- The same size and key over another log.
abbrev other_log : List Text
other_log = digest_of b'a' ∷ digest_of b'c' ∷ []

abbrev other : SignedCheckpoint
other = signed other_log (some (digest_of b'e'))

other_valid : (verify_signed_transparency_checkpoint toy_sha any_signature other).valid ≡ true
unfolding evaluated
other_valid = refl

other_root : transparency_root toy_sha other_log ≡ ok other.checkpoint.root
unfolding evaluated
other_root = refl

split_view : detect_transparency_split_view toy_sha any_signature later other ≡ true
unfolding evaluated
split_view = refl

detect_transparency_split_view_example :
    (detect_transparency_split_view toy_sha any_signature later other ≡ true → log ≢ other_log)
    × (detect_transparency_split_view toy_sha any_signature later other ≡ false
        → (log ≡ other_log)
          ⊎ Collision toy_sha (root_messages toy_sha log) (root_messages toy_sha other_log))
detect_transparency_split_view_example =
    detect_transparency_split_view_lem toy_sha any_signature later other log other_log later_valid
      other_valid refl refl refl refl later_root other_root
