-- ===== src/Transparency/Examples.antt =====
-- The transparency tree on three receipts.
use agent_airlock.Prelude.{◌≡◌, refl, ◌⊎◌, true, List, [], ◌∷◌, none, some, get_elem?, arith}
use agent_airlock.Prelude.Texts.{Text, codes, text_eq}
use agent_airlock.Prelude.Results.{ok, ◌>>=◌, catch}
use agent_airlock.Digest.{Collision, sha256_digest, is_digest, digest_bytes}
use agent_airlock.Digest.Examples.{toy_sha, checksum, digest_of}
use agent_airlock.Time.{is_timestamp}
use agent_airlock.Tree.{
  sibling_at, next_level, last_level, tree_root, path_from, absorb, climb, head?,
}
use agent_airlock.Transparency.{
  Checkpoint, InclusionProof, checkpoint_schema, new_accumulator, hash_transparency_leaf,
  hash_transparency_node, transparency_root, root, append_all, is_checkpoint, is_inclusion_proof,
  create_transparency_inclusion_proof, walks_to, verify_transparency_inclusion,
}
use agent_airlock.Transparency.Hashes.{inclusion_messages}
use agent_airlock.Transparency.Roots.{append_all-root}
use agent_airlock.Transparency.Inclusion.{
  verify_transparency_inclusion_sound, verify_transparency_inclusion_complete,
}

abbrev three : List Text
three = digest_of b'a' ∷ digest_of b'b' ∷ digest_of b'c' ∷ []

append_all-root_example :
    (append_all toy_sha new_accumulator three >>= root toy_sha) ≡ transparency_root toy_sha three
append_all-root_example = append_all-root toy_sha three (omega arith)

-- What the proofs by evaluation look into.
evaluated : Unit {0}
unfolding transparency_root hash_transparency_leaf hash_transparency_node sha256_digest is_digest
    digest_bytes checksum tree_root next_level last_level head? is_checkpoint is_timestamp text_eq
    is_inclusion_proof create_transparency_inclusion_proof walks_to verify_transparency_inclusion
    path_from sibling_at absorb climb
evaluated = tt

abbrev three_root : Text
three_root = catch (transparency_root toy_sha three) []

three_root_lem : transparency_root toy_sha three ≡ ok three_root
unfolding evaluated
three_root_lem = refl

abbrev three_checkpoint : Checkpoint
three_checkpoint = record {
  schema = checkpoint_schema;
  schema_version = 1;
  tree_size = 3;
  root = three_root;
  prior_checkpoint_digest = none;
  created_at = codes "2026-01-02T03:04:05.006Z";
  key_id = digest_of b'd';
}

three_checkpoint_lem : is_checkpoint three_checkpoint ≡ true
unfolding evaluated
three_checkpoint_lem = refl

verify_transparency_inclusion_complete_example :
    (p : InclusionProof) × (create_transparency_inclusion_proof toy_sha three 1 ≡ ok p)
    × (verify_transparency_inclusion toy_sha p three_checkpoint ≡ true)
verify_transparency_inclusion_complete_example =
    verify_transparency_inclusion_complete toy_sha three 1 three_checkpoint (omega arith)
      three_checkpoint_lem three_root_lem refl

abbrev second_proof : InclusionProof
second_proof =
    catch (create_transparency_inclusion_proof toy_sha three 1)
      (record { receipt_digest = []; leaf_index = 0; tree_size = 0; siblings = [] })

second_proof_lem : verify_transparency_inclusion toy_sha second_proof three_checkpoint ≡ true
unfolding evaluated
second_proof_lem = refl

verify_transparency_inclusion_sound_example :
    (get_elem? three second_proof.leaf_index ≡ some second_proof.receipt_digest)
    ⊎ ((q : InclusionProof) × (create_transparency_inclusion_proof toy_sha three
            second_proof.leaf_index
          ≡ ok q)
        × Collision toy_sha
            (inclusion_messages toy_sha second_proof)
            (inclusion_messages toy_sha q))
verify_transparency_inclusion_sound_example =
    verify_transparency_inclusion_sound toy_sha second_proof three_checkpoint three second_proof_lem
      three_root_lem refl
