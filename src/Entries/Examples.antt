-- ===== src/Entries/Examples.antt =====
-- A log of two entries.
use agent_airlock.Prelude.{◌≡◌, ◌↔◌, true, List, [], ◌∷◌, none, map}
use agent_airlock.Prelude.Texts.{codes}
use agent_airlock.Prelude.Results.{ok, catch}
use agent_airlock.Digest.Examples.{toy_sha, digest_of}
use agent_airlock.Entries.{Entry, verify_transparency_entries}
use agent_airlock.Entries.Chain.{
  Receipt, IsDistinct, append_entries, receipt_of, verify_transparency_entries_iff,
}

abbrev receipts : List Receipt
receipts =
    (digest_of b'a', codes "2026-01-02T03:04:05.006Z")
    ∷ (digest_of b'b', codes "2026-01-02T03:04:06.007Z")
    ∷ []

abbrev entries : List Entry
entries = catch (append_entries toy_sha receipts 0 none) []

verify_transparency_entries_example :
    (verify_transparency_entries toy_sha entries ≡ true)
    ↔ ((append_entries toy_sha (map receipt_of entries) 0 none ≡ ok entries) × IsDistinct entries)
verify_transparency_entries_example = verify_transparency_entries_iff toy_sha entries
