-- ===== src/Journal/Validation.antt =====
-- `validateRecord`, `validatePromotionAuthority` and `upgradeLegacyResourcePlan` of
-- apps/server/src/promotion-journal.ts, with the scope parser of external-actions.ts.
use agent_airlock.Prelude.{
  ℕ, Bool, false, not, List, [], ◌∷◌, Option, none, some, length, all, leb, ◌==◌, ◌&&◌, ◌||◌,
  if◌then◌else◌,
}
use agent_airlock.Prelude.Texts.{Text, codes, text_eq, includes}
use agent_airlock.Prelude.Results.{Result, ok, thrown, ◌>>◌, throw_if}
use agent_airlock.Digest.{is_digest, is_lower_hex}
use agent_airlock.Selection.{is_identifier}
use agent_airlock.Journal.{
  Checks, Scope, Authority, ordinary_run, candidate_set, federated_admission, federated_approval,
  phase_index, Plan, Transaction, Canonical, JournalRecord, is_safe_identifier, recovery_output,
}
use agent_airlock.Journal.Evidence.{validate_resource_evidence}

-- `parseExternalActionDispatcherScope`.
unfoldable pub parse_scope : Scope → Result (Unit {0})
parse_scope s =
    throw_if
      (not (s.schema_version == 1)
        || not
            (includes (codes "atomic-local-store" ∷ codes "idempotent-http" ∷ []) s.delivery_mode)
        || not (is_digest s.consumer_scope_digest))
      "external-action dispatcher scope is invalid"

-- `externalActionDispatcherScopesEqual`.
unfoldable pub scopes_equal : Scope → Scope → Bool
scopes_equal left right =
    left.schema_version == right.schema_version
    && text_eq left.delivery_mode right.delivery_mode
    && text_eq left.consumer_scope_digest right.consumer_scope_digest

-- /^[a-f0-9]{64}$/.
abbrev is_plain_digest : Text → Bool
is_plain_digest t = length t == 64 && all is_lower_hex t

-- What a candidate set's authority has against its record.
unfoldable pub candidate_set_contradicts :
    JournalRecord → Text → Text → Text → Text → Text → Text → Text → Bool
candidate_set_contradicts r set_id competitor_id winner_run_id decision seal state_id content_hash =
    not (is_identifier set_id)
    || not (is_identifier competitor_id)
    || not (is_safe_identifier winner_run_id)
    || not (is_plain_digest decision)
    || not (is_digest seal)
    || not (is_identifier state_id)
    || not (is_digest content_hash)
    || not (text_eq winner_run_id r.run_id)
    || not (text_eq state_id r.plan.source_state_id)
    || not (text_eq content_hash r.plan.source_content_hash)
    || not (text_eq state_id r.transaction.canonical_state_id_before)
    || not (text_eq content_hash r.transaction.canonical_content_hash_before)

unfoldable pub validate_promotion_authority : JournalRecord → Option Authority → Result (Unit {0})
validate_promotion_authority r none = thrown "Promotion journal authority is missing"
validate_promotion_authority r (some (ordinary_run version)) =
    throw_if (not (version == 1)) "Promotion journal authority schema is invalid"
validate_promotion_authority r
      (some (federated_admission version admission import_id digest producer policy)) =
    throw_if
      (not (version == 1)
        || not (is_digest admission)
        || not (is_digest import_id)
        || not (is_digest digest)
        || not (is_identifier producer)
        || not (is_digest policy))
      "Federated Admission Promotion authority is invalid"
validate_promotion_authority r
      (some (federated_approval version admission import_id pending decision producer policy)) =
    throw_if
      (not (version == 1)
        || not (is_digest admission)
        || not (is_digest import_id)
        || not (is_digest pending)
        || not (is_digest decision)
        || not (is_identifier producer)
        || not (is_digest policy))
      "Federated Approval Promotion authority is invalid"
validate_promotion_authority r
      (some (candidate_set version set_id competitor winner decision seal state content)) =
    throw_if
      (not (version == 1)
        || candidate_set_contradicts r set_id competitor winner decision seal state content)
      "Candidate Set Promotion authority contradicts its journal"

-- A scope exactly from schema version 3 on: `assertExactKeys` of the record.
abbrev pub has_exact_keys : ℕ → Option Scope → Bool
has_exact_keys version none = version == 2
has_exact_keys version (some scope) = version == 3

abbrev pub parse_optional_scope : Option Scope → Result (Unit {0})
parse_optional_scope none = ok tt
parse_optional_scope (some scope) = parse_scope scope

unfoldable pub lacks_target : ℕ → Option Canonical → Bool
lacks_target index none = leb 1 index
lacks_target index (some c) = false

unfoldable pub target_differs : Option Canonical → Plan → Bool
target_differs none plan = false
target_differs (some c) plan = not (text_eq c.state_id plan.target_state_id)

unfoldable pub identity_is_invalid : JournalRecord → Bool
identity_is_invalid r =
    not (is_safe_identifier r.run_id)
    || not (is_safe_identifier r.agent_id)
    || not (text_eq r.plan.run_id r.run_id)
    || not (text_eq r.plan.agent_id r.agent_id)
    || not (is_safe_identifier r.plan.target_state_id)
    || not (is_safe_identifier r.plan.source_state_id)
    || not (text_eq r.transaction.id r.run_id)
    || not (text_eq r.recovery_result.output recovery_output)

unfoldable pub validate_record : Checks → JournalRecord → Result (Unit {0})
unfolding parse_scope
validate_record checks r = do
  throw_if (not (r.schema_version == 2) && not (r.schema_version == 3))
      "Promotion journal identity or schema is invalid"
  throw_if (not (has_exact_keys r.schema_version r.scope))
      "Promotion journal contains unknown or missing fields"
  throw_if (identity_is_invalid r) "Promotion journal identity or schema is invalid"
  parse_optional_scope r.scope
  validate_promotion_authority r r.authority
  throw_if (lacks_target (phase_index r.phase) r.target_canonical)
      "Installed Promotion journal phase requires target fingerprints"
  throw_if (target_differs r.target_canonical r.plan)
      "Promotion journal target does not match its plan"
  validate_resource_evidence checks r

-- A missing array becomes an empty one.
abbrev pub or_empty : {A : Type 0} → Option (List A) → Option (List A)
or_empty none = some []
or_empty (some values) = some values

abbrev pub upgrade_authority : ℕ → Option Authority → Option Authority
upgrade_authority version none = if version == 1 then some (ordinary_run 1) else none
upgrade_authority version (some authority) = some authority

abbrev pub upgrade_canonical : Option Canonical → Option Canonical
upgrade_canonical none = none
upgrade_canonical (some c) = some (record c { provider_versions = or_empty c.provider_versions })

abbrev pub upgrade_transaction : Transaction → Transaction
upgrade_transaction t = record t {
  provider_resources = or_empty t.provider_resources;
  provider_resource_events = or_empty t.provider_resource_events;
}

abbrev pub upgrade_plan : Plan → Plan
upgrade_plan p = record p {
  source_provider_versions = or_empty p.source_provider_versions;
  target_provider_versions = or_empty p.target_provider_versions;
  resource_plans = or_empty p.resource_plans;
}

-- `upgradeLegacyResourcePlan`.
unfoldable pub upgrade : JournalRecord → JournalRecord
upgrade r = record r {
  schema_version = if r.schema_version == 1 then 2 else r.schema_version;
  authority = upgrade_authority r.schema_version r.authority;
  target_canonical = upgrade_canonical r.target_canonical;
  transaction = upgrade_transaction r.transaction;
  plan = upgrade_plan r.plan;
}
