-- ===== src/Journal.antt =====
-- The Promotion journal, one durable record for each approved Promotion: its data, from
-- apps/server/src/promotion-journal.ts and types.ts. An array that may be missing from a stored
-- record is an `Option`; fields that the journal only carries are JSON.
pub mod Evidence
pub mod Validation
pub mod Operations
pub mod Files
pub mod Upgrade
pub mod Machine
pub mod Refinement
pub mod Runs
pub mod Reads
pub mod Once
pub mod Progress
pub mod Scan
pub mod Examples
use agent_airlock.Prelude.{
  ℕ, suc, Bool, true, false, not, List, [], ◌∷◌, ◌++◌, Option, none, some, length, all, ltb, leb,
  ◌==◌, ◌&&◌, ◌||◌, Ordering,
}
use agent_airlock.Prelude.Texts.{Text, codes, text_eq}
use agent_airlock.Canonical.{Json}
use agent_airlock.Resources.{
  Patterns, CapabilityClaim, VersionReference, CandidateHandle, RuntimeBinding, ChangeEvidence,
  ResourceValidation, ResourcePlan, QuarantineHandle,
}

pub data Phase : Type 0 where
  validated version_installed canonical_advanced effects_delivered completed : Phase

-- `phaseOrder.indexOf`.
abbrev pub phase_index : Phase → ℕ
phase_index validated = 0
phase_index version_installed = 1
phase_index canonical_advanced = 2
phase_index effects_delivered = 3
phase_index completed = 4

pub record Scope : Type 0 where
  pub schema_version : ℕ
  pub delivery_mode : Text
  pub consumer_scope_digest : Text

pub data Authority : Type 0 where
  ordinary_run : (schema_version : ℕ) → Authority
  candidate_set :
      (schema_version : ℕ)
      (candidate_set_id competitor_id winner_run_id selection_decision_digest seal_digest : Text)
      (source_state_id source_content_hash : Text)
      → Authority
  federated_admission :
      (schema_version : ℕ)
      (admission_id import_identifier record_digest producer_id policy_digest : Text)
      → Authority
  federated_approval :
      (schema_version : ℕ)
      (admission_id import_identifier pending_record_digest approval_decision_digest : Text)
      (producer_id policy_digest : Text)
      → Authority

-- `PromotionPlan`.
pub record Plan : Type 0 where
  pub run_id : Text
  pub agent_id : Text
  pub target_state_id : Text
  pub source_state_id : Text
  pub source_content_hash : Text
  pub source_provider_versions : Option (List VersionReference)
  pub target_provider_versions : Option (List VersionReference)
  pub resource_plans : Option (List ResourcePlan)
  pub carried : Json

-- `ProviderResourceEvidence`.
pub record ResourceEvidence : Type 0 where
  pub schema_version : ℕ
  pub provider_id : Text
  pub resource_kind : Text
  pub label : Text
  pub required : Bool
  pub capabilities : CapabilityClaim
  pub source : VersionReference
  pub candidate : CandidateHandle
  pub runtime_binding : Option RuntimeBinding
  pub change : Option ChangeEvidence
  pub validations : List ResourceValidation
  pub promotion_plan : Option ResourcePlan
  pub installed_version : Option VersionReference
  pub quarantine : Option QuarantineHandle
  pub disposition : Option Text
  pub summary : Text

-- `ProviderResourceLifecycleEvent`.
pub record LifecycleEvent : Type 0 where
  pub schema_version : ℕ
  pub provider_id : Text
  pub resource_kind : Text
  pub stage : Text
  pub status : Text
  pub summary : Text
  pub at : Text

-- `PromotionRecoveryEvidence`.
pub record Recovery : Type 0 where
  pub journal_phase : Option Phase
  pub recovered_after_restart : Bool
  pub recovery_error : Option Text

-- `RunTransaction`.
pub record Transaction : Type 0 where
  pub id : Text
  pub status : Text
  pub canonical_state_id_before : Text
  pub canonical_content_hash_before : Text
  pub provider_resources : Option (List ResourceEvidence)
  pub provider_resource_events : Option (List LifecycleEvent)
  pub recovery : Recovery
  pub carried : Json

-- `CanonicalStateReference`.
pub record Canonical : Type 0 where
  pub state_id : Text
  pub provider_versions : Option (List VersionReference)
  pub carried : Json

-- `RunnerResult`.
pub record RecoveryResult : Type 0 where
  pub output : Text
  pub carried : Json

-- `PromotionJournalRecord`: a scope from schema version 3 on.
pub record JournalRecord : Type 0 where
  pub schema_version : ℕ
  pub run_id : Text
  pub agent_id : Text
  pub scope : Option Scope
  pub authority : Option Authority
  pub phase : Phase
  pub plan : Plan
  pub target_canonical : Option Canonical
  pub transaction : Transaction
  pub recovery_result : RecoveryResult
  pub created_at : Text
  pub updated_at : Text

-- What the journal's checks take from its platform: the regular expressions for credentials,
-- `Number.isFinite(Date.parse(...))` and `localeCompare`.
pub record Checks : Type 0 where
  pub patterns : Patterns
  pub is_date : Text → Bool
  pub locale_compare : Text → Text → Ordering

-- These, and the UTF-8 length of the text that `JSON.stringify` makes of a record.
pub record Platform : Type 0 where
  pub checks : Checks
  pub file_size : JournalRecord → ℕ

abbrev is_alphanumeric : ℕ → Bool
is_alphanumeric c = leb 65 c && leb c 90 || leb 97 c && leb c 122 || leb 48 c && leb c 57

abbrev is_safe_part : ℕ → Bool
is_safe_part c = is_alphanumeric c || c == b'.' || c == b'_' || c == b'-'

-- `safeIdentifierPattern`, /^[A-Za-z0-9][A-Za-z0-9._-]{0,127}$/.
unfoldable pub is_safe_identifier : Text → Bool
is_safe_identifier [] = false
is_safe_identifier (c ∷ rest) = is_alphanumeric c && leb (length rest) 127 && all is_safe_part rest

abbrev pub recovery_output : Text
recovery_output =
    codes
      "Agent Airlock recovered this approved Promotion after a server restart. The original Runtime response was not duplicated into the Promotion journal."
