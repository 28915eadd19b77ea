-- ===== src/Journal/Files.antt =====
-- The files of the Promotion journal (apps/server/src/promotion-journal.ts) under `persist`, and
-- between its two writes.
use mathlib.Core.List.{append_cancel_right}
use agent_airlock.Prelude.{
  ℕ, ◌≡◌, refl, sym, ap, ◌∙◌, false, [], ◌∷◌, ◌++◌, Option, none, some, arith, inl, inr, Bool-cases,
  if◌then◌else◌,
}
use agent_airlock.Prelude.Texts.{Text, codes, text_eq, text_eq_refl, eq_of_text_eq, text_eq_apart}
use agent_airlock.Journal.{JournalRecord}
use agent_airlock.Journal.Operations.{
  File, holds, Disk, get_file, remove_file, put_file, rename_file, file_path, temporary_path,
  write_temporary, persist,
}

get_file-remove_file :
    (n m : Text) (d : Disk)
    → get_file n (remove_file m d) ≡ (if text_eq m n then none else get_file n d)
unfolding get_file remove_file
get_file-remove_file n m [] = elim (Bool-cases (text_eq m n)) [
  | inl same ↦ rw same
  | inr differ ↦ rw differ
]
get_file-remove_file n m (e ∷ d) = elim (Bool-cases (text_eq e.0 m)) [
  | inl same ↦
      let moved = ap (λ t. text_eq t n) (eq_of_text_eq e.0 m same) in
      ground (arith, get_file-remove_file n m d, moved, same)
  | inr differ ↦ elim (Bool-cases (text_eq m n)) [
    | inl named ↦
        let moved = ap (λ t. text_eq e.0 t) (eq_of_text_eq m n named) in
        ground (arith, get_file-remove_file n m d, moved, differ, named)
    | inr other ↦ ground (arith, get_file-remove_file n m d, differ, other)
  ]
]

get_file-put_file :
    (n m : Text) (f : File) (d : Disk)
    → get_file n (put_file m f d) ≡ (if text_eq m n then some f else get_file n d)
unfolding get_file put_file
get_file-put_file n m f d = ground (arith, get_file-remove_file n m d)

get_file-put_self : (n : Text) (f : File) (d : Disk) → get_file n (put_file n f d) ≡ some f
get_file-put_self n f d =
    get_file-put_file n n f d ∙ ap (λ b. if b then some f else get_file n d) (text_eq_refl n)

get_file-put_apart :
    (n m : Text) (f : File) (d : Disk)
    → text_eq m n ≡ false
    → get_file n (put_file m f d) ≡ get_file n d
get_file-put_apart n m f d h =
    get_file-put_file n m f d ∙ ap (λ b. if b then some f else get_file n d) h

get_file-remove_apart :
    (n m : Text) (d : Disk) → text_eq m n ≡ false → get_file n (remove_file m d) ≡ get_file n d
get_file-remove_apart n m d h =
    get_file-remove_file n m d ∙ ap (λ b. if b then none else get_file n d) h

-- The last code unit of a text.
abbrev last : Text → Option ℕ
last [] = none
last (c ∷ []) = some c
last (c ∷ d ∷ t) = last (d ∷ t)

last-append : (s : Text) (c : ℕ) (t : Text) → last (s ++ c ∷ t) ≡ last (c ∷ t)
last-append [] c t = refl
last-append (a ∷ []) c t = refl
last-append (a ∷ b ∷ s) c t = last-append (b ∷ s) c t

temporary_path_apart : (a b uuid : Text) → text_eq (temporary_path a uuid) (file_path b) ≡ false
unfolding temporary_path file_path
temporary_path_apart a b uuid = text_eq_apart (temporary_path a uuid) (file_path b) (λ same.
    let p =
      last-append (file_path a) b'.' (uuid ++ codes ".tmp")
      ∙ last-append (b'.' ∷ uuid) b'.' (codes "tmp") in
    let n = last-append b b'.' (codes "json") in
    let clash : some 112 ≡ some 110 = sym p ∙ ap last same ∙ n in ground (arith, clash))

file_path_apart : (a b : Text) → (a ≡ b → ⊥) → text_eq (file_path a) (file_path b) ≡ false
unfolding file_path
file_path_apart a b apart =
    text_eq_apart (file_path a) (file_path b)
      (λ same. apart (append_cancel_right a b (codes ".json") same))

module _ (uuid : Text) (r : JournalRecord) (d : Disk) where
  persist_lem :
      persist uuid r d
      ≡ put_file
          (file_path r.run_id)
          (holds r)
          (remove_file (temporary_path r.run_id uuid) (write_temporary uuid r d))
  unfolding persist rename_file write_temporary
  persist_lem =
      let there : get_file (temporary_path r.run_id uuid) (write_temporary uuid r d)
          ≡ some (holds r) =
        get_file-put_self (temporary_path r.run_id uuid) (holds r) d in
      rw (there, rename_file)

  pub get_file-persist : get_file (file_path r.run_id) (persist uuid r d) ≡ some (holds r)
  get_file-persist =
      ap (get_file (file_path r.run_id)) persist_lem
      ∙ get_file-put_self (file_path r.run_id) (holds r)
          (remove_file (temporary_path r.run_id uuid) (write_temporary uuid r d))

  -- Between the two writes, no journal file has changed.
  pub get_file-write_temporary :
      (id : Text) → get_file (file_path id) (write_temporary uuid r d) ≡ get_file (file_path id) d
  unfolding write_temporary
  get_file-write_temporary id =
      get_file-put_apart (file_path id) (temporary_path r.run_id uuid) (holds r) d
        (temporary_path_apart r.run_id id uuid)

  pub get_file-persist_other :
      (id : Text)
      → (r.run_id ≡ id → ⊥)
      → get_file (file_path id) (persist uuid r d) ≡ get_file (file_path id) d
  get_file-persist_other id apart =
      ap (get_file (file_path id)) persist_lem
      ∙ get_file-put_apart (file_path id) (file_path r.run_id) (holds r)
          (remove_file (temporary_path r.run_id uuid) (write_temporary uuid r d))
          (file_path_apart r.run_id id apart)
      ∙ get_file-remove_apart (file_path id) (temporary_path r.run_id uuid)
          (write_temporary uuid r d) (temporary_path_apart r.run_id id uuid)
      ∙ get_file-write_temporary id
