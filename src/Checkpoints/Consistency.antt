-- ===== src/Checkpoints/Consistency.antt =====
-- `verifyTransparencyConsistency` and `detectTransparencySplitView` of
-- packages/portable-promotion-receipt/src/transparency.ts, stated on the logs behind the checkpoints.
use agent_airlock.Prelude.{
  ℕ, ◌≤◌, ◌≡◌, ◌≢◌, sym, ap, ◌∙◌, ◌⊎◌, inl, inr, true, false, List, length, length-take, take,
  arith,
}
use agent_airlock.Prelude.Texts.{Text, text_eq, text_eq_refl, eq_of_text_eq}
use agent_airlock.Prelude.Results.{Result, ok, thrown}
use agent_airlock.Digest.{Sha256, Collision}
use agent_airlock.Signature.{Verifier}
use agent_airlock.Transparency.{transparency_root}
use agent_airlock.Transparency.Hashes.{root_messages}
use agent_airlock.Checkpoints.{
  SignedCheckpoint, ConsistencyProof, is_consistency_proof, is_ok_digest, prior_links,
  verify_signed_transparency_checkpoint, create_transparency_consistency_proof,
  verify_transparency_consistency, detect_transparency_split_view,
}
use agent_airlock.Checkpoints.Logs.{transparency_root_binding, transparency_root-digests}

is_ok_digest-cases : (r : Result Text) (d : Text) → is_ok_digest r d ≡ true → r ≡ ok d
is_ok_digest-cases (ok e) d h = ap ok (eq_of_text_eq e d h)
is_ok_digest-cases (thrown m) d h = absurd (cc)

module _ (sha : Sha256) (verifier : Verifier) where
  -- What the verifier has seen of an accepted proof.
  record Accepted (p : ConsistencyProof) (from to : SignedCheckpoint) : Type 0 where
    from_size : p.from_size ≡ from.checkpoint.tree_size
    to_size : p.to_size ≡ to.checkpoint.tree_size
    range : p.from_size ≤ p.to_size
    holds : length p.receipt_digests ≡ p.to_size
    old_root : transparency_root sha (take p.from_size p.receipt_digests) ≡ ok from.checkpoint.root
    new_root : transparency_root sha p.receipt_digests ≡ ok to.checkpoint.root

  accepted_lem :
      (p : ConsistencyProof) (from to : SignedCheckpoint)
      → verify_transparency_consistency sha verifier p from to ≡ true
      → Accepted p from to
  unfolding verify_transparency_consistency is_consistency_proof
  accepted_lem p from to h = record {
    from_size = ground arith;
    to_size = ground arith;
    range = ground arith;
    holds = ground arith;
    old_root = is_ok_digest-cases _ from.checkpoint.root (ground arith);
    new_root = is_ok_digest-cases _ to.checkpoint.root (ground arith);
  }

  -- An accepted consistency proof shows that the log was only appended to: of any logs that have
  -- the sizes and the roots of the two checkpoints, the earlier is the beginning of the later, or
  -- among the messages hashed for the root of one of these logs and those that the verifier hashes
  -- for the same root are two different ones with one hash.
  pub verify_transparency_consistency_sound :
      (p : ConsistencyProof) (from to : SignedCheckpoint) (older newer : List Text)
      → verify_transparency_consistency sha verifier p from to ≡ true
      → transparency_root sha older ≡ ok from.checkpoint.root
      → length older ≡ from.checkpoint.tree_size
      → transparency_root sha newer ≡ ok to.checkpoint.root
      → length newer ≡ to.checkpoint.tree_size
      → (older ≡ take (length older) newer)
        ⊎ (Collision sha
              (root_messages sha older)
              (root_messages sha (take p.from_size p.receipt_digests))
            ⊎ Collision sha (root_messages sha newer) (root_messages sha p.receipt_digests))
  verify_transparency_consistency_sound p from to older newer h old n new m =
      let a = accepted_lem p from to h in
      let cut = length-take p.from_size p.receipt_digests in
      elim (transparency_root_binding sha older (take p.from_size p.receipt_digests)
        from.checkpoint.root old a.old_root (omega (arith, a.from_size, a.range, a.holds, cut))) [
          | inr found ↦ inr (inl found)
          | inl begins ↦
              elim (transparency_root_binding sha newer p.receipt_digests to.checkpoint.root new
                a.new_root (omega (arith, a.to_size, a.holds))) [
                  | inr found ↦ inr (inr found)
                  | inl whole ↦
                      let size : p.from_size ≡ length older = a.from_size ∙ sym n in
                      inl (
                        begins
                        ∙ ap (λ k. take k p.receipt_digests) size
                        ∙ ap (take (length older)) (sym whole))
                ]
        ]

  -- A log is consistent with its own beginning: the proof is created and accepted between two valid
  -- checkpoints of one key that have the sizes and the roots of a log and of a beginning of it, if
  -- the prior digest of the later one is as the verifier wants it.
  pub verify_transparency_consistency_complete :
      (log : List Text) (n : ℕ) (from to : SignedCheckpoint)
      → n ≤ length log
      → transparency_root sha (take n log) ≡ ok from.checkpoint.root
      → from.checkpoint.tree_size ≡ n
      → transparency_root sha log ≡ ok to.checkpoint.root
      → to.checkpoint.tree_size ≡ length log
      → (verify_signed_transparency_checkpoint sha verifier from).valid ≡ true
      → (verify_signed_transparency_checkpoint sha verifier to).valid ≡ true
      → from.checkpoint.key_id ≡ to.checkpoint.key_id
      → prior_links from.checkpoint to.checkpoint ≡ true
      → (p : ConsistencyProof) × (create_transparency_consistency_proof sha verifier log n ≡ ok p)
        × (verify_transparency_consistency sha verifier p from to ≡ true)
  unfolding create_transparency_consistency_proof verify_transparency_consistency
      is_consistency_proof
  verify_transparency_consistency_complete log n from to h old s new t vf vt key prior =
      let (digests, small) = transparency_root-digests sha log to.checkpoint.root new in
      let same_key : text_eq from.checkpoint.key_id to.checkpoint.key_id ≡ true =
        rw key (text_eq_refl to.checkpoint.key_id) in
      let old_root : is_ok_digest (transparency_root sha (take n log)) from.checkpoint.root ≡ true =
        rw old (text_eq_refl from.checkpoint.root) in
      let new_root : is_ok_digest (transparency_root sha log) to.checkpoint.root ≡ true =
        rw new (text_eq_refl to.checkpoint.root) in
      (
        record { from_size = n; to_size = length log; receipt_digests = log },
        ground (arith, digests),
        rw (digests, vf, vt, same_key, old_root, new_root, prior) (ground arith),
      )

  -- Of two valid checkpoints of one key and one size, over the logs that have their roots, a split
  -- view is reported only if the logs differ, and if none is reported the logs are the same or a
  -- message hashed for one root and a different message hashed for the other have one hash.
  pub detect_transparency_split_view_lem :
      (left right : SignedCheckpoint) (ds es : List Text)
      → (verify_signed_transparency_checkpoint sha verifier left).valid ≡ true
      → (verify_signed_transparency_checkpoint sha verifier right).valid ≡ true
      → left.checkpoint.key_id ≡ right.checkpoint.key_id
      → length ds ≡ left.checkpoint.tree_size
      → length es ≡ right.checkpoint.tree_size
      → left.checkpoint.tree_size ≡ right.checkpoint.tree_size
      → transparency_root sha ds ≡ ok left.checkpoint.root
      → transparency_root sha es ≡ ok right.checkpoint.root
      → (detect_transparency_split_view sha verifier left right ≡ true → ds ≢ es)
        × (detect_transparency_split_view sha verifier left right ≡ false
            → (ds ≡ es) ⊎ Collision sha (root_messages sha ds) (root_messages sha es))
  unfolding detect_transparency_split_view
  detect_transparency_split_view_lem left right ds es vl vr key n m size p q =
      let same_key : text_eq left.checkpoint.key_id right.checkpoint.key_id ≡ true =
        rw key (text_eq_refl right.checkpoint.key_id) in
      (
        (λ h same.
            let roots : ◌≡◌ {A = Result Text} (ok left.checkpoint.root) (ok right.checkpoint.root) =
              sym p ∙ ap (transparency_root sha) same ∙ q in
            let root : left.checkpoint.root ≡ right.checkpoint.root = cc in
            let equal : text_eq left.checkpoint.root right.checkpoint.root ≡ true =
              rw root (text_eq_refl right.checkpoint.root) in
            ground arith),
        (λ h.
            let equal : text_eq left.checkpoint.root right.checkpoint.root ≡ true =
              ground (arith, same_key) in
            let root = eq_of_text_eq left.checkpoint.root right.checkpoint.root equal in
            transparency_root_binding sha ds es right.checkpoint.root (p ∙ ap ok root) q
              (omega arith)),
      )
