-- ===== src/Registry/Examples.antt =====
-- Two providers whose environment names differ.
use mathlib.Core.List.{Memᴰ}
use agent_airlock.Prelude.{◌≡◌, refl, false, List, [], ◌∷◌, none, All}
use agent_airlock.Prelude.Texts.{Text, codes, text_eq}
use agent_airlock.Prelude.Results.{ok, catch}
use agent_airlock.Canonical.{end, count_items, utf8_bytes, quote, join, print_number}
use agent_airlock.StableJson.{sort, compare_bytes, json_text}
use agent_airlock.Digest.{is_lower_hex}
use agent_airlock.Digest.Examples.{replicate}
use agent_airlock.Resources.{
  Patterns, CapabilityClaim, Isolation, Visibility, Idempotency, Reconciliation, Retention,
  Discarding, Repair, read_write, is_grouped, is_identifier, is_opaque, assert_resource_fingerprint,
  expect_schema, expect_integer, assert_manifest_identity, assert_credential_free,
  expect_identifier, expect_opaque_identifier, expect_credential_free_string,
}
use agent_airlock.Resources.Metadata.{
  count_entry, validate_json_value, validate_json_items, validate_json_properties, normalized_key,
  validate_metadata,
}
use agent_airlock.Resources.Handles.{
  parse_capability_claim, parse_resource_provider_manifest, parse_resource_version_reference,
}
use agent_airlock.Resources.Eligibility.{eligibility_reasons, assess_required_resource_eligibility}
use agent_airlock.Registry.{
  Registration, Registered, resource_environment_name, index_entries, get,
  validate_transactional_resource_provider, register, create_registry,
}
use agent_airlock.Registry.Accepted.{IsRequired, create_registry_lem}

abbrev patterns : Patterns
patterns = record {
  sensitive_key = λ key. false;
  sensitive_value = λ value. false;
  redact = λ value. value;
}

abbrev claim : CapabilityClaim
claim = record {
  schema_version = 1;
  isolation = Isolation.candidate_copy;
  promotion_visibility = Visibility.canonical_manifest;
  promotion_idempotency = Idempotency.run_keyed;
  reconciliation = Reconciliation.forward;
  quarantine = Retention.retained;
  discard = Discarding.idempotent;
  repair = Repair.fork;
  runtime_access = read_write;
}

abbrev registration : Text → Registration
registration id = record {
  manifest = record {
    sdk_schema_version = 1;
    provider_id = id;
    resource_kind = id;
    label = codes "Provider";
    capabilities = claim;
    metadata = end;
  };
  initial_version = record {
    schema_version = 1;
    provider_id = id;
    resource_kind = id;
    version_id = codes "v1";
    fingerprint = replicate 64 b'a';
    metadata = end;
  };
  required = none;
}

abbrev registrations : List Registration
registrations = registration (codes "b.store") ∷ registration (codes "a-store") ∷ []

evaluated : Unit {0}
unfolding create_registry register validate_transactional_resource_provider index_entries
    resource_environment_name is_identifier is_grouped is_opaque text_eq sort compare_bytes
    parse_capability_claim parse_resource_provider_manifest parse_resource_version_reference
    validate_metadata validate_json_value validate_json_items validate_json_properties count_entry
    normalized_key utf8_bytes json_text quote join print_number count_items expect_schema
    expect_integer assert_manifest_identity assert_credential_free expect_identifier
    expect_opaque_identifier expect_credential_free_string assert_resource_fingerprint is_lower_hex
    assess_required_resource_eligibility eligibility_reasons
evaluated = tt

abbrev entries : List Registered
entries = catch (create_registry patterns compare_bytes registrations none) []

entries-sample : create_registry patterns compare_bytes registrations none ≡ ok entries
unfolding evaluated
entries-sample = refl

create_registry_example :
    All (IsRequired patterns compare_bytes) entries
    × ((e f : Registered) (name : Text)
        → Memᴰ e entries
        → Memᴰ f entries
        → resource_environment_name e.manifest.provider_id ≡ ok name
        → resource_environment_name f.manifest.provider_id ≡ ok name
        → e ≡ f)
    × ((r : Registration)
        → Memᴰ r registrations
        → (e : Registered) × (get r.manifest.provider_id entries ≡ ok e)
          × (r.manifest ≡ e.manifest)
          × (r.initial_version ≡ e.initial_version))
create_registry_example =
    create_registry_lem patterns compare_bytes registrations none entries entries-sample
