-- ===== src/Merkle/Examples.antt =====
-- A commitment of two leaves, and its first disclosure.
use agent_airlock.Prelude.{◌≡◌, refl, ◌⊎◌, Bool, true, [], ◌∷◌, none, some, length, get_elem?}
use agent_airlock.Prelude.Texts.{Text, codes, text_eq}
use agent_airlock.Prelude.Results.{ok, catch}
use agent_airlock.Canonical.{canonicalize, utf8_bytes}
use agent_airlock.StableJson.{sort, compare_utf8, compare_bytes}
use agent_airlock.Digest.{sha256_digest, is_digest, digest_bytes}
use agent_airlock.Digest.Examples.{toy_sha, checksum, digest_of}
use agent_airlock.Selection.{is_identifier}
use agent_airlock.Tree.{
  Direction, head?, next_level, build_levels, build_siblings, sibling_at, climb, absorb,
}
use agent_airlock.Merkle.{
  EvidenceLeaf, Disclosure, Commitment, last_of, assert_portable_evidence_leaf,
  assert_portable_evidence_disclosure, hash_evidence_leaf, hash_internal, check_leaves, disclose,
  commit, build_evidence_commitment, verify_evidence_disclosure,
}
use agent_airlock.Merkle.Soundness.{IsDisclosed, HasCollision, verify_evidence_disclosure_sound}
use agent_airlock.Merkle.Completeness.{verify_evidence_disclosure_complete}

abbrev any_text : Text → Bool
any_text t = true

abbrev leaf : Text → EvidenceLeaf
leaf identity = record {
  schema_version = 1;
  identity = identity;
  category = codes "validation";
  status = codes "passed";
  required = true;
  duration_ms = some 12;
  summary = none;
  value_hash = digest_of b'a';
}

evaluated : Unit {0}
unfolding build_evidence_commitment commit check_leaves assert_portable_evidence_leaf is_identifier
    is_digest text_eq utf8_bytes sort compare_utf8 compare_bytes hash_evidence_leaf hash_internal
    canonicalize sha256_digest digest_bytes checksum last_of build_levels build_siblings next_level
    sibling_at head? disclose verify_evidence_disclosure assert_portable_evidence_disclosure climb
    absorb
evaluated = tt

abbrev commitment : Commitment
commitment =
    catch (build_evidence_commitment toy_sha any_text (leaf (codes "b") ∷ leaf (codes "a") ∷ []))
      (record { root = []; leaves = []; disclosures = [] })

commitment-sample :
    build_evidence_commitment toy_sha any_text (leaf (codes "b") ∷ leaf (codes "a") ∷ [])
    ≡ ok commitment
unfolding evaluated
commitment-sample = refl

abbrev disclosure : Disclosure
disclosure = record {
  leaf = leaf (codes "a");
  leaf_index = 0;
  total_leaves = 2;
  siblings =
      (record {
        direction = Direction.right;
        hash = catch (hash_evidence_leaf toy_sha any_text (leaf (codes "b"))) [];
      })
      ∷ [];
}

disclosure-sample : get_elem? commitment.disclosures 0 ≡ some disclosure
unfolding evaluated
disclosure-sample = refl

verify_evidence_disclosure_complete_example :
    verify_evidence_disclosure toy_sha any_text disclosure commitment.root
      (length commitment.leaves)
    ≡ true
verify_evidence_disclosure_complete_example =
    verify_evidence_disclosure_complete toy_sha any_text (leaf (codes "b") ∷ leaf (codes "a") ∷ [])
      commitment 0 disclosure commitment-sample disclosure-sample

disclosure-accepted :
    verify_evidence_disclosure toy_sha any_text disclosure commitment.root
      (length commitment.leaves)
    ≡ true
unfolding evaluated
disclosure-accepted = refl

verify_evidence_disclosure_sound_example :
    IsDisclosed toy_sha any_text commitment disclosure
    ⊎ HasCollision toy_sha any_text commitment disclosure
verify_evidence_disclosure_sound_example =
    verify_evidence_disclosure_sound toy_sha any_text (leaf (codes "b") ∷ leaf (codes "a") ∷ [])
      commitment disclosure commitment-sample disclosure-accepted
