-- ===== src/Registry.antt =====
-- The registry of Resource Providers: apps/server/src/resource-registry.ts, with
-- `validateTransactionalResourceProvider` of packages/transactional-resource-sdk/src/validation.ts. A
-- provider is its manifest; that its lifecycle hooks are functions is its type. `localeCompare` is a
-- parameter.
pub mod Lookups
pub mod Accepted
pub mod Examples
use agent_airlock.Prelude.{
  ℕ, ◌-◌, Bool, true, false, not, List, [], ◌∷◌, ◌++◌, map, Option, none, some, any, leb, ◌==◌,
  ◌&&◌, ◌||◌, if◌then◌else◌, Ordering,
}
use agent_airlock.Prelude.Texts.{Text, codes, text_eq, includes}
use agent_airlock.Prelude.Results.{Result, ok, thrown, ◌>>=◌, ◌>>◌, throw_if, traverse}
use agent_airlock.StableJson.{sort}
use agent_airlock.Resources.{
  Patterns, Manifest, VersionReference, Isolation, Access, no_access, read_only, read_write,
  is_identifier,
}
use agent_airlock.Resources.Handles.{
  parse_resource_provider_manifest, parse_resource_version_reference, access_text,
}
use agent_airlock.Resources.Eligibility.{assess_required_resource_eligibility}

pub record Registration : Type 0 where
  pub manifest : Manifest
  pub initial_version : VersionReference
  pub required : Option Bool

pub record Registered : Type 0 where
  pub manifest : Manifest
  pub initial_version : VersionReference
  pub required : Bool

abbrev is_read_write : Access → Bool
is_read_write no_access = false
is_read_write read_only = false
is_read_write read_write = true

abbrev is_deferred : Isolation → Bool
is_deferred Isolation.candidate_copy = false
is_deferred Isolation.provider_branch = false
is_deferred Isolation.deferred_intent = true

abbrev pub or_true : Option Bool → Bool
or_true none = true
or_true (some b) = b

abbrev pub supported_or_all : Option (List Access) → List Access
supported_or_all none = no_access ∷ read_only ∷ read_write ∷ []
supported_or_all (some accesses) = accesses

abbrev pub supports : List Access → Access → Bool
supports accesses access = any (λ a. text_eq (access_text a) (access_text access)) accesses

-- `replaceAll` of dots and dashes, and `toUpperCase`, on the characters of an identifier.
abbrev environment_character : ℕ → ℕ
environment_character c =
    if c == b'.' || c == b'-' then b'_' else if leb 97 c && leb c 122 then c - 32 else c

unfoldable pub resource_environment_name : Text → Result Text
resource_environment_name provider_id = do
  throw_if (not (is_identifier provider_id))
      "Resource Provider identifier is unsafe for Runtime environment"
  ok (codes "AIRLOCK_RESOURCE_" ++ (map environment_character provider_id ++ codes "_PATH"))

abbrev pub resource_order_key : Manifest → Text
resource_order_key m = m.resource_kind ++ 0 ∷ m.provider_id

-- The loop over the sorted entries, with the identifiers, kinds and names of those before.
unfoldable pub index_entries :
    List Text → List Text → List Text → List Registered → Result (Unit {0})
index_entries ids kinds names [] = ok tt
index_entries ids kinds names (e ∷ es) = do
  name ← resource_environment_name e.manifest.provider_id
  throw_if (includes ids e.manifest.provider_id) "Duplicate Resource Provider identifier"
  throw_if (includes kinds e.manifest.resource_kind) "Duplicate Resource Provider kind"
  throw_if (includes names name) "Resource Provider identifiers collide at Runtime environment name"
  index_entries (e.manifest.provider_id ∷ ids) (e.manifest.resource_kind ∷ kinds) (name ∷ names) es

-- `byProviderId.get`.
unfoldable pub find_entry : Text → List Registered → Option Registered
find_entry id [] = none
find_entry id (e ∷ es) =
    let later = find_entry id es in if text_eq e.manifest.provider_id id then some e else later

abbrev found_entry : Option Registered → Result Registered
found_entry none = thrown "Unknown Resource Provider"
found_entry (some e) = ok e

unfoldable pub get : Text → List Registered → Result Registered
get id entries = found_entry (find_entry id entries)

module _ (patterns : Patterns) (locale_compare : Text → Text → Ordering) where
  unfoldable pub validate_transactional_resource_provider : Manifest → Result (Unit {0})
  validate_transactional_resource_provider m = do
    parse_resource_provider_manifest patterns m
    throw_if (is_read_write m.capabilities.runtime_access && is_deferred m.capabilities.isolation)
        "A deferred-intent Resource Provider cannot claim a read-write Runtime binding"

  unfoldable pub register : List Access → Registration → Result Registered
  register supported r = do
    validate_transactional_resource_provider r.manifest
    parse_resource_version_reference patterns r.initial_version (some r.manifest)
    throw_if (not (supports supported r.manifest.capabilities.runtime_access))
        "Resource Provider requires unsupported Runtime access"
    throw_if (not (or_true r.required))
        "Optional Resource Providers are not supported by the all-or-nothing Run transaction"
    throw_if (not (assess_required_resource_eligibility r.manifest.capabilities).0)
        "Required Resource Provider has incompatible Capability Claims"
    ok (record {
      manifest = r.manifest;
      initial_version = r.initial_version;
      required = or_true r.required;
    })

  abbrev pub sort_entries : List Registered → List Registered
  sort_entries =
      sort (λ a b. locale_compare (resource_order_key a.manifest) (resource_order_key b.manifest))

  -- The constructor of `ResourceRegistry`: its entries, in order.
  unfoldable pub create_registry :
      List Registration → Option (List Access) → Result (List Registered)
  create_registry registrations supported = do
    entries ← traverse (register (supported_or_all supported)) registrations
    index_entries [] [] [] (sort_entries entries)
    ok (sort_entries entries)
