-- ===== src/Journal/Scan.antt =====
-- `PromotionJournal.scan` (apps/server/src/promotion-journal.ts) beside its reads.
use mathlib.Core.List.{Memᴰ}
use agent_airlock.Prelude.{
  ◌≡◌, refl, sym, ap, ap₂, ◌∙◌, subst, true, false, not, [], ◌∷◌, ◌++◌, Option, none, some, length,
  length-append, All, arith, inl, inr, Bool-cases, negated,
}
use agent_airlock.Prelude.Texts.{Text, codes, text_eq, eq_of_text_eq, text_eq_apart, text_eq_refl}
use agent_airlock.Prelude.Results.{ok, throw_if, >>=-eq_ok, throw_if_done, Result-cases}
use agent_airlock.StableJson.{sort}
use agent_airlock.StableJson.Sorting.{sort-Memᴰ}
use agent_airlock.Journal.{Platform, JournalRecord, is_safe_identifier}
use agent_airlock.Journal.Operations.{
  File, holds, Disk, get_file, file_path, strip_json, read, Scan, scan_entry, scan_entries, scan,
}
use agent_airlock.Journal.Refinement.{read_lem}

get_file-Memᴰ : (name : Text) (f : File) (d : Disk) → get_file name d ≡ some f → Memᴰ (name, f) d
unfolding get_file
get_file-Memᴰ name f [] h = absurd (cc)
get_file-Memᴰ name f (e ∷ d) h = elim (Bool-cases (text_eq e.0 name)) [
  | inl same ↦
      let found : some e.1 ≡ some f = rw same at h in
      Memᴰ.head (ap₂ (λ n g. (n, g)) (sym (eq_of_text_eq e.0 name same)) (sym (cc)))
  | inr other ↦
      let later : get_file name d ≡ some f = rw other at h in
      Memᴰ.tail (get_file-Memᴰ name f d later)
]

-- The name of a Run's file, without its ending, is the Run's.
strip_json-file_path : (run_id : Text) → strip_json (file_path run_id) ≡ some run_id
unfolding strip_json file_path
strip_json-file_path [] = rw (text_eq_refl (codes ".json")) refl
strip_json-file_path (c ∷ run_id) =
    let longer : text_eq (c ∷ (run_id ++ codes ".json")) (codes ".json") ≡ false =
      text_eq_apart (c ∷ (run_id ++ codes ".json")) (codes ".json")
        (λ same. absurd (omega (arith, ap length same, length-append run_id (codes ".json")))) in
    rw (longer, strip_json-file_path run_id)

module _ (platform : Platform) where
  -- A scan's records are those that a read of some Run gives.
  abbrev pub IsRead : Disk → JournalRecord → Type 0
  IsRead d r = (run_id : Text) × (read platform run_id d ≡ ok r)

  scan_entry-IsRead :
      (name : Option Text) (d : Disk) (rest : Scan)
      → All (IsRead d) rest.records
      → All (IsRead d) (scan_entry platform name d rest).records
  scan_entry-IsRead none d rest h = h
  scan_entry-IsRead (some run_id) d rest h = elim (Bool-cases (is_safe_identifier run_id)) [
    | inr unsafe ↦ rw unsafe h
    | inl safe ↦ elim (Result-cases (read platform run_id d)) [
      | inl (r, found) ↦ rw (safe, found) ((run_id, found), h)
      | inr (e, failed) ↦ rw (safe, failed) h
    ]
  ]

  scan_entries-IsRead : (es : Disk) (d : Disk) → All (IsRead d) (scan_entries platform es d).records
  unfolding scan_entries
  scan_entries-IsRead [] d = tt
  scan_entries-IsRead (e ∷ es) d =
      scan_entry-IsRead (strip_json e.0) d (scan_entries platform es d) (scan_entries-IsRead es d)

  scan_entry-Memᴰ :
      (name : Option Text) (d : Disk) (rest : Scan) (r : JournalRecord)
      → Memᴰ r rest.records
      → Memᴰ r (scan_entry platform name d rest).records
  scan_entry-Memᴰ none d rest r m = m
  scan_entry-Memᴰ (some run_id) d rest r m = elim (Bool-cases (is_safe_identifier run_id)) [
    | inr unsafe ↦ rw unsafe m
    | inl safe ↦ elim (Result-cases (read platform run_id d)) [
      | inl (q, found) ↦ rw (safe, found) (Memᴰ.tail m)
      | inr (e, failed) ↦ rw (safe, failed) m
    ]
  ]

  read-is_safe_identifier :
      (run_id : Text) (d : Disk) (r : JournalRecord)
      → read platform run_id d ≡ ok r
      → is_safe_identifier run_id ≡ true
  unfolding read
  read-is_safe_identifier run_id d r h =
      let (_, safe, _) =
        >>=-eq_ok (throw_if (not (is_safe_identifier run_id)) "Run identifier is not safe") _ h in
      negated (is_safe_identifier run_id) (throw_if_done _ _ safe)

  scan_entry_found :
      (run_id : Text) (d : Disk) (rest : Scan) (r : JournalRecord)
      → read platform run_id d ≡ ok r
      → Memᴰ r (scan_entry platform (some run_id) d rest).records
  scan_entry_found run_id d rest r found =
      rw (read-is_safe_identifier run_id d r found, found) (Memᴰ.head refl)

  scan_entries-Memᴰ :
      (es : Disk) (d : Disk) (name : Text) (f : File) (run_id : Text) (r : JournalRecord)
      → Memᴰ (name, f) es
      → strip_json name ≡ some run_id
      → read platform run_id d ≡ ok r
      → Memᴰ r (scan_entries platform es d).records
  unfolding scan_entries
  scan_entries-Memᴰ [] d name f run_id r m named found = elim m [ ]
  scan_entries-Memᴰ (e ∷ es) d name f run_id r (Memᴰ.head same) named found =
      let own : strip_json e.0 ≡ some run_id = ap (λ x. strip_json x.0) (sym same) ∙ named in
      subst (λ n. Memᴰ r (scan_entry platform n d (scan_entries platform es d)).records) (sym own)
        (scan_entry_found run_id d (scan_entries platform es d) r found)
  scan_entries-Memᴰ (e ∷ es) d name f run_id r (Memᴰ.tail m) named found =
      scan_entry-Memᴰ (strip_json e.0) d (scan_entries platform es d) r
        (scan_entries-Memᴰ es d name f run_id r m named found)

  -- A scan finds the record of every Run that can be read, and its records are all of that kind.
  pub scan_lem :
      (d : Disk)
      → ((run_id : Text) (r : JournalRecord)
          → read platform run_id d ≡ ok r
          → Memᴰ r (scan platform d).records)
        × All (IsRead d) (scan platform d).records
  unfolding scan
  scan_lem d = (
    λ run_id r found.
        let (raw, there, _, _) = read_lem platform run_id d r found in
        scan_entries-Memᴰ (sort (λ a b. platform.checks.locale_compare a.0 b.0) d) d
          (file_path run_id) (holds raw) run_id r
          (sort-Memᴰ (λ a b. platform.checks.locale_compare a.0 b.0) (file_path run_id, holds raw) d
            (get_file-Memᴰ (file_path run_id) (holds raw) d there))
          (strip_json-file_path run_id) found,
    scan_entries-IsRead (sort (λ a b. platform.checks.locale_compare a.0 b.0) d) d,
  )
