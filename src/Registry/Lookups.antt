-- ===== src/Registry/Lookups.antt =====
-- What a registry that `ResourceRegistry` (apps/server/src/resource-registry.ts) accepts holds.
use mathlib.Core.List.{Memᴰ}
use agent_airlock.Prelude.{◌≡◌, sym, ap, ◌∙◌, true, false, List, [], ◌∷◌, some, neither}
use agent_airlock.Prelude.Texts.{Text, text_eq, text_eq_refl, includes}
use agent_airlock.Prelude.Results.{ok, throw_if, >>=-eq_ok, ok-injective, throw_if_done}
use agent_airlock.Registry.{Registered, resource_environment_name, index_entries, find_entry}

pub step_lem :
    (ids kinds names : List Text) (e : Registered) (es : List Registered)
    → index_entries ids kinds names (e ∷ es) ≡ ok tt
    → (name : Text) × (resource_environment_name e.manifest.provider_id ≡ ok name)
      × (includes ids e.manifest.provider_id ≡ false)
      × (includes names name ≡ false)
      × (index_entries
            (e.manifest.provider_id ∷ ids)
            (e.manifest.resource_kind ∷ kinds)
            (name ∷ names)
            es
          ≡ ok tt)
unfolding index_entries
step_lem ids kinds names e es h =
    let (name, named, r1) = >>=-eq_ok (resource_environment_name e.manifest.provider_id) _ h in
    let (_, new_id, r2) =
      >>=-eq_ok
        (throw_if (includes ids e.manifest.provider_id) "Duplicate Resource Provider identifier") _
        r1 in
    let (_, _, r3) =
      >>=-eq_ok
        (throw_if (includes kinds e.manifest.resource_kind) "Duplicate Resource Provider kind") _
        r2 in
    let (_, new_name, rest) =
      >>=-eq_ok
        (throw_if (includes names name)
          "Resource Provider identifiers collide at Runtime environment name")
        _ r3 in
    (name, named, throw_if_done _ _ new_id, throw_if_done _ _ new_name, rest)

-- An entry has an identifier that was not seen before.
unseen_lem :
    (ids kinds names : List Text) (es : List Registered) (e : Registered)
    → index_entries ids kinds names es ≡ ok tt
    → Memᴰ e es
    → includes ids e.manifest.provider_id ≡ false
unseen_lem ids kinds names [] e h m = elim m [ ]
unseen_lem ids kinds names (f ∷ es) e h m =
    let (name, _, new_id, _, rest) = step_lem ids kinds names f es h in
    elim m [
      | Memᴰ.head same ↦ ap (λ x. includes ids x.manifest.provider_id) same ∙ new_id
      | Memᴰ.tail below ↦
          (neither (text_eq f.manifest.provider_id e.manifest.provider_id)
            (includes ids e.manifest.provider_id)
            (unseen_lem (f.manifest.provider_id ∷ ids) (f.manifest.resource_kind ∷ kinds)
              (name ∷ names) es e rest below)).1
    ]

-- An entry has a name that was not seen before.
pub unseen_name_lem :
    (ids kinds names : List Text) (es : List Registered) (e : Registered) (own : Text)
    → index_entries ids kinds names es ≡ ok tt
    → Memᴰ e es
    → resource_environment_name e.manifest.provider_id ≡ ok own
    → includes names own ≡ false
unseen_name_lem ids kinds names [] e own h m k = elim m [ ]
unseen_name_lem ids kinds names (f ∷ es) e own h m k =
    let (name, named, _, new_name, rest) = step_lem ids kinds names f es h in
    elim m [
      | Memᴰ.head same ↦
          let both_names = ok-injective (
            sym named
            ∙ ap (λ x. resource_environment_name x.manifest.provider_id) (sym same)
            ∙ k) in
          ap (includes names) (sym both_names) ∙ new_name
      | Memᴰ.tail below ↦
          (neither (text_eq name own) (includes names own) (
            unseen_name_lem (f.manifest.provider_id ∷ ids) (f.manifest.resource_kind ∷ kinds)
              (name ∷ names) es e own rest below k)).1
    ]

pub find_entry-index_entries :
    (ids kinds names : List Text) (es : List Registered) (e : Registered)
    → index_entries ids kinds names es ≡ ok tt
    → Memᴰ e es
    → find_entry e.manifest.provider_id es ≡ some e
unfolding find_entry
find_entry-index_entries ids kinds names [] e h m = elim m [ ]
find_entry-index_entries ids kinds names (f ∷ es) e h m =
    let (name, _, _, _, rest) = step_lem ids kinds names f es h in
    elim m [
      | Memᴰ.head same ↦
          let own : text_eq f.manifest.provider_id e.manifest.provider_id ≡ true =
            ap (λ x. text_eq f.manifest.provider_id x.manifest.provider_id) same
            ∙ text_eq_refl f.manifest.provider_id in
          rw own (ap some (sym same))
      | Memᴰ.tail below ↦
          let (apart, _) =
            neither (text_eq f.manifest.provider_id e.manifest.provider_id)
              (includes ids e.manifest.provider_id)
              (unseen_lem (f.manifest.provider_id ∷ ids) (f.manifest.resource_kind ∷ kinds)
                (name ∷ names) es e rest below) in
          rw apart (
            find_entry-index_entries (f.manifest.provider_id ∷ ids)
              (f.manifest.resource_kind ∷ kinds) (name ∷ names) es e rest below)
    ]
