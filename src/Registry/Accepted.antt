-- ===== src/Registry/Accepted.antt =====
-- The registries that the constructor of `ResourceRegistry` (apps/server/src/resource-registry.ts)
-- accepts.
use mathlib.Core.List.{Memᴰ}
use agent_airlock.Prelude.{
  ◌≡◌, refl, sym, ap, ◌∙◌, subst, true, not, List, [], ◌∷◌, Option, some, All, Ordering, negated,
  neither,
}
use agent_airlock.Prelude.Texts.{Text, text_eq, text_eq_refl, includes}
use agent_airlock.Prelude.Results.{
  Result, ok, throw_if, traverse, traverse-All, traverse-cases, >>=-eq_ok, ok-injective,
  throw_if_done,
}
use agent_airlock.StableJson.Sorting.{sort-All, sort-Memᴰ}
use agent_airlock.Resources.{Patterns, Access}
use agent_airlock.Resources.Handles.{parse_resource_version_reference}
use agent_airlock.Resources.Eligibility.{assess_required_resource_eligibility}
use agent_airlock.Resources.Eligibility.Laws.{
  IsFullGuarantee, assess_required_resource_eligibility_lem,
}
use agent_airlock.Registry.{
  Registration, Registered, or_true, supports, supported_or_all, resource_order_key,
  resource_environment_name, index_entries, get, validate_transactional_resource_provider, register,
  sort_entries, create_registry,
}
use agent_airlock.Registry.Lookups.{step_lem, unseen_name_lem, find_entry-index_entries}

-- Two entries with one environment name are one entry.
same_name_lem :
    (ids kinds names : List Text) (es : List Registered) (e f : Registered) (own : Text)
    → index_entries ids kinds names es ≡ ok tt
    → Memᴰ e es
    → Memᴰ f es
    → resource_environment_name e.manifest.provider_id ≡ ok own
    → resource_environment_name f.manifest.provider_id ≡ ok own
    → e ≡ f
same_name_lem ids kinds names [] e f own h m n k l = elim m [ ]
same_name_lem ids kinds names (g ∷ es) e f own h m n k l =
    let (name, named, _, _, rest) = step_lem ids kinds names g es h in
    let later =
      index_entries (g.manifest.provider_id ∷ ids) (g.manifest.resource_kind ∷ kinds) (name ∷ names)
        es in
    let clash : (x y : Registered)
        → x ≡ g
        → Memᴰ y es
        → resource_environment_name x.manifest.provider_id ≡ ok own
        → resource_environment_name y.manifest.provider_id ≡ ok own
        → ⊥ =
      λ x y at below kx ky.
        let one =
          ok-injective (
            sym named ∙ ap (λ z. resource_environment_name z.manifest.provider_id) (sym at) ∙ kx) in
        let unseen =
          unseen_name_lem (g.manifest.provider_id ∷ ids) (g.manifest.resource_kind ∷ kinds)
            (name ∷ names) es y own rest below ky in
        let (apart, _) = neither (text_eq name own) (includes names own) unseen in
        cc (apart, ap (λ t. text_eq name t) one, text_eq_refl name) in
    elim m [
      | Memᴰ.head at ↦ elim n [
        | Memᴰ.head at' ↦ at ∙ sym at'
        | Memᴰ.tail below ↦ absurd (clash e f at below k l)
      ]
      | Memᴰ.tail below ↦ elim n [
        | Memᴰ.head at' ↦ absurd (clash f e at' below l k)
        | Memᴰ.tail below' ↦
            same_name_lem (g.manifest.provider_id ∷ ids) (g.manifest.resource_kind ∷ kinds)
              (name ∷ names) es e f own rest below below' k l
      ]
    ]

traverse-Memᴰ :
    {A B : Type 0} (f : A → Result B) (xs : List A) (ys : List B) (x : A)
    → traverse f xs ≡ ok ys
    → Memᴰ x xs
    → (y : B) × Memᴰ y ys × (f x ≡ ok y)
traverse-Memᴰ f [] ys x h m = elim m [ ]
traverse-Memᴰ f (z ∷ xs) ys x h m =
    let (y, rest, here, others, made) = traverse-cases f z xs ys h in
    elim m [
      | Memᴰ.head at ↦ (y, subst (Memᴰ y) (sym made) (Memᴰ.head refl), ap f at ∙ here)
      | Memᴰ.tail below ↦
          let (w, there, own) = traverse-Memᴰ f xs rest x others below in
          (w, subst (Memᴰ w) (sym made) (Memᴰ.tail there), own)
    ]

module _ (patterns : Patterns) (locale_compare : Text → Text → Ordering) where
  -- What registering makes of a registration.
  abbrev pub IsRequired : Registered → Type 0
  IsRequired e = IsFullGuarantee e.manifest.capabilities × (e.required ≡ true)

  register_lem :
      (supported : List Access) (r : Registration) (e : Registered)
      → register patterns locale_compare supported r ≡ ok e
      → (r.manifest ≡ e.manifest) × (r.initial_version ≡ e.initial_version) × IsRequired e
  unfolding register
  register_lem supported r e h =
      let (_, _, r1) =
        >>=-eq_ok (validate_transactional_resource_provider patterns locale_compare r.manifest) _
          h in
      let (_, _, r2) =
        >>=-eq_ok (parse_resource_version_reference patterns r.initial_version (some r.manifest)) _
          r1 in
      let (_, _, r3) =
        >>=-eq_ok
          (throw_if (not (supports supported r.manifest.capabilities.runtime_access))
            "Resource Provider requires unsupported Runtime access")
          _ r2 in
      let (_, needed, r4) =
        >>=-eq_ok
          (throw_if (not (or_true r.required))
            "Optional Resource Providers are not supported by the all-or-nothing Run transaction")
          _ r3 in
      let (_, eligible, last) =
        >>=-eq_ok
          (throw_if (not (assess_required_resource_eligibility r.manifest.capabilities).0)
            "Required Resource Provider has incompatible Capability Claims")
          _ r4 in
      let made = ok-injective last in
      let full = (assess_required_resource_eligibility_lem r.manifest.capabilities).0 (
        negated (assess_required_resource_eligibility r.manifest.capabilities).0
          (throw_if_done _ _ eligible)) in
      (
        ap (λ x. x.manifest) made,
        ap (λ x. x.initial_version) made,
        subst IsRequired made (full, negated (or_true r.required) (throw_if_done _ _ needed)),
      )

  abbrev sorted : List Registered → List Registered
  sorted = sort_entries patterns locale_compare

  create_registry-cases :
      (registrations : List Registration) (supported : Option (List Access))
      → (entries : List Registered)
      → create_registry patterns locale_compare registrations supported ≡ ok entries
      → (made : List Registered) × (traverse
            (register patterns locale_compare (supported_or_all supported))
            registrations
          ≡ ok made)
        × (sorted made ≡ entries)
        × (index_entries [] [] [] entries ≡ ok tt)
  unfolding create_registry
  create_registry-cases registrations supported entries h =
      let (made, registered, r1) =
        >>=-eq_ok
          (traverse (register patterns locale_compare (supported_or_all supported)) registrations) _
          h in
      let (_, indexed, last) = >>=-eq_ok (index_entries [] [] [] (sorted made)) _ r1 in
      let same = ok-injective last in
      (made, registered, same, subst (λ es. index_entries [] [] [] es ≡ ok tt) same indexed)

  -- In a registry that is accepted, every entry is required and claims all guarantees, two entries
  -- with one environment name are one, and a look-up of a registration's identifier gives the entry
  -- with its manifest and version.
  pub create_registry_lem :
      (registrations : List Registration) (supported : Option (List Access))
      → (entries : List Registered)
      → create_registry patterns locale_compare registrations supported ≡ ok entries
      → All IsRequired entries
        × ((e f : Registered) (name : Text)
            → Memᴰ e entries
            → Memᴰ f entries
            → resource_environment_name e.manifest.provider_id ≡ ok name
            → resource_environment_name f.manifest.provider_id ≡ ok name
            → e ≡ f)
        × ((r : Registration)
            → Memᴰ r registrations
            → (e : Registered) × (get r.manifest.provider_id entries ≡ ok e)
              × (r.manifest ≡ e.manifest)
              × (r.initial_version ≡ e.initial_version))
  unfolding get
  create_registry_lem registrations supported entries h =
      let (made, registered, same, indexed) =
        create_registry-cases registrations supported entries h in
      let registering = register patterns locale_compare (supported_or_all supported) in
      let order = λ (a b : Registered).
        locale_compare (resource_order_key a.manifest) (resource_order_key b.manifest) in
      (
        subst (All IsRequired) same (
            sort-All order IsRequired made (
              traverse-All registering IsRequired
                (λ r e k. (register_lem (supported_or_all supported) r e k).2) registrations made
                registered)),
        (λ e f name m n k l. same_name_lem [] [] [] entries e f name indexed m n k l),
        λ r m.
            let (e, there, own) = traverse-Memᴰ registering registrations made r registered m in
            let (manifest, version, _) = register_lem (supported_or_all supported) r e own in
            let listed = subst (Memᴰ e) same (sort-Memᴰ order e made there) in
            (
              e,
              rw
                  (
                    ap (λ x. x.provider_id) manifest,
                    find_entry-index_entries [] [] [] entries e indexed listed,
                  )
                  refl,
              manifest,
              version,
            ),
      )
