-- ===== src/Resources/Examples.antt =====
-- A claim with every guarantee, and metadata of one entry.
use agent_airlock.Prelude.{◌≤◌, ◌≡◌, ◌↔◌, refl, true, false, length}
use agent_airlock.Prelude.Texts.{codes, text_eq}
use agent_airlock.Prelude.Results.{ok}
use agent_airlock.Canonical.{
  str, arr, obj, nil, cons, Properties, property, end, count_items, utf8_bytes, quote, join,
  print_number,
}
use agent_airlock.StableJson.{json_text}
use agent_airlock.Resources.{
  Patterns, CapabilityClaim, Isolation, Visibility, Idempotency, Reconciliation, Retention,
  Discarding, Repair, read_write,
}
use agent_airlock.Resources.Metadata.{
  stringify, count_entry, validate_json_value, validate_json_items, validate_json_properties,
  normalized_key, validate_metadata,
}
use agent_airlock.Resources.Metadata.Bounds.{entries_of_properties, validate_metadata-entries_of}
use agent_airlock.Resources.Eligibility.{assess_required_resource_eligibility}
use agent_airlock.Resources.Eligibility.Laws.{
  IsFullGuarantee, assess_required_resource_eligibility_lem,
}

abbrev claim : CapabilityClaim
claim = record {
  schema_version = 1;
  isolation = Isolation.candidate_copy;
  promotion_visibility = Visibility.canonical_manifest;
  promotion_idempotency = Idempotency.run_keyed;
  reconciliation = Reconciliation.forward;
  quarantine = Retention.retained;
  discard = Discarding.idempotent;
  repair = Repair.fork;
  runtime_access = read_write;
}

assess_required_resource_eligibility_example :
    ((assess_required_resource_eligibility claim).0 ≡ true) ↔ IsFullGuarantee claim
assess_required_resource_eligibility_example = assess_required_resource_eligibility_lem claim

abbrev patterns : Patterns
patterns = record {
  sensitive_key = λ key. text_eq key (codes "password");
  sensitive_value = λ value. false;
  redact = λ value. value;
}

abbrev metadata : Properties
metadata = property (codes "tags") (arr (cons (str (codes "a")) (cons (str (codes "b")) nil))) end

metadata-sample : validate_metadata patterns metadata ≡ ok tt
unfolding validate_metadata validate_json_value validate_json_items validate_json_properties
    count_entry count_items normalized_key text_eq utf8_bytes json_text quote join print_number
metadata-sample = refl

validate_metadata-entries_of_example :
    (entries_of_properties metadata ≤ 128)
    × (length (utf8_bytes (stringify (obj metadata))) ≤ 16384)
validate_metadata-entries_of_example =
    validate_metadata-entries_of patterns metadata metadata-sample
