-- ===== src/Entries.antt =====
-- The hash-linked entries of a transparency log: `createTransparencyEntry`,
-- `assertTransparencyEntry` and `verifyTransparencyEntries` of
-- packages/portable-promotion-receipt/src/transparency.ts.
pub mod Chain
pub mod Examples
use agent_airlock.Prelude.{
  ℕ, ◌+◌, Bool, true, false, not, List, [], ◌∷◌, ◌++◌, Option, none, some, any, leb, ◌==◌, ◌&&◌,
  ◌||◌,
}
use agent_airlock.Prelude.Int.{pos}
use agent_airlock.Prelude.Texts.{Text, codes, text_eq}
use agent_airlock.Prelude.Results.{Result, ok, thrown, ◌>>=◌, ◌>>◌, throw_if}
use agent_airlock.Canonical.{Json, num, str, obj, fields, canonicalize, utf8_bytes}
use agent_airlock.Time.{is_timestamp}
use agent_airlock.Digest.{Sha256, sha256_digest, is_digest}
use agent_airlock.Transparency.{null_or_digest}
use agent_airlock.Checkpoints.{null_or_str, same_prior}

pub record Entry : Type 0 where
  pub schema_version : ℕ
  pub sequence : ℕ
  pub receipt_digest : Text
  pub prior_entry_hash : Option Text
  pub appended_at : Text
  pub entry_hash : Text

abbrev pub entry_domain : List ℕ
entry_domain = codes "agent-airlock-transparency-entry-v1" ++ 0 ∷ []

abbrev pub is_safe_natural : ℕ → Bool
is_safe_natural n = leb n 9007199254740991

-- The entry without its hash.
abbrev pub unsigned_json : ℕ → Text → Option Text → Text → Json
unsigned_json sequence receipt_digest prior_entry_hash appended_at = obj (
    fields (
      (codes "schemaVersion", num (pos 1))
      ∷ (codes "sequence", num (pos sequence))
      ∷ (codes "receiptDigest", str receipt_digest)
      ∷ (codes "priorEntryHash", null_or_str prior_entry_hash)
      ∷ (codes "appendedAt", str appended_at)
      ∷ []))

-- `assertTransparencyEntry`, as the test that it throws by.
unfoldable pub is_entry : Entry → Bool
is_entry e =
    e.schema_version == 1
    && is_safe_natural e.sequence
    && is_digest e.receipt_digest
    && null_or_digest e.prior_entry_hash
    && is_timestamp e.appended_at
    && is_digest e.entry_hash

-- `Set.has`.
unfoldable pub contains : List Text → Text → Bool
contains texts d = any (λ t. text_eq t d) texts

module _ (sha : Sha256) where
  unfoldable pub create_transparency_entry : Text → ℕ → Option Text → Text → Result Entry
  create_transparency_entry receipt_digest sequence prior_entry_hash appended_at = do
    throw_if
        (not (
          is_digest receipt_digest
          && is_safe_natural sequence
          && null_or_digest prior_entry_hash
          && is_timestamp appended_at))
        "Transparency entry input is invalid"
    text ← canonicalize (unsigned_json sequence receipt_digest prior_entry_hash appended_at)
    ok (record {
      schema_version = 1;
      sequence = sequence;
      receipt_digest = receipt_digest;
      prior_entry_hash = prior_entry_hash;
      appended_at = appended_at;
      entry_hash = sha256_digest sha (entry_domain ++ utf8_bytes text);
    })

  abbrev pub hash_agrees : Result Entry → Entry → Bool
  hash_agrees (ok expected) e = text_eq expected.entry_hash e.entry_hash
  hash_agrees (thrown m) e = false

  -- The loop, with its sequence, its set of receipts and the hash of the entry before.
  unfoldable pub verify_entries_from : List Entry → ℕ → List Text → Option Text → Bool
  verify_entries_from [] sequence receipts prior = true
  verify_entries_from (e ∷ es) sequence receipts prior =
      is_entry e
      && e.sequence == sequence
      && not (contains receipts e.receipt_digest)
      && hash_agrees (create_transparency_entry e.receipt_digest sequence prior e.appended_at) e
      && same_prior e.prior_entry_hash prior
      && verify_entries_from es (sequence + 1) (e.receipt_digest ∷ receipts) (some e.entry_hash)

  unfoldable pub verify_transparency_entries : List Entry → Bool
  verify_transparency_entries entries = verify_entries_from entries 0 [] none
