-- ===== src/Selection/Replay.antt =====
-- `replayCandidateSelection` and `createQualityAssertion` of
-- apps/server/src/candidate-selection.ts: a selection made again from what is persisted.
pub mod Excluded
pub mod Quality
pub mod Examples
use agent_airlock.Prelude.{
  ℕ, ◌+◌, ◌*◌, ◌/◌, Bool, true, false, not, List, [], ◌∷◌, ◌++◌, Option, none, some, length, any,
  if◌then◌else◌, ◌&&◌,
}
use agent_airlock.Prelude.Int.{ℤ, pos, ◌+ℤ◌, exceeds}
use agent_airlock.Prelude.Texts.{Text, codes, text_eq}
use agent_airlock.Prelude.Results.{Result, ok, thrown, ◌>>=◌}
use agent_airlock.Digest.{Sha256}
use agent_airlock.Selection.{
  Kind, total_tokens, added_bytes, Contract, CandidateInput, Decision, quality_assertion,
  selection_criteria, select_candidates,
}

pub data ValidationStatus : Type 0 where
  passed failed error : ValidationStatus

pub record Validation : Type 0 where
  pub status : ValidationStatus
  pub required : Bool

abbrev pub has_passed : ValidationStatus → Bool
has_passed passed = true
has_passed failed = false
has_passed error = false

-- A persisted Run: the validations of its transaction, if it has one.
abbrev pub Run : Type 0
Run = Option (List Validation)

-- `is_sealed` says whether the competitor has a seal.
pub record Competitor : Type 0 where
  pub id : Text
  pub run_id : Text
  pub is_sealed : Bool
  pub exclusions : List Text
  pub criterion_values : Kind → Option ℤ

pub record CandidateSet : Type 0 where
  pub id : Text
  pub state_id : Text
  pub contract : Contract
  pub competitors : List Competitor
  pub max_total_tokens : ℕ
  pub max_total_changed_bytes : ℕ
  pub cancellation_requested : Bool

abbrev value_or_zero : Option ℤ → ℤ
value_or_zero none = pos 0
value_or_zero (some value) = value

-- `reduce` over the competitors' values of a kind, from the first on.
unfoldable pub aggregate : Kind → List Competitor → ℤ → ℤ
aggregate kind [] total = total
aggregate kind (c ∷ cs) total = aggregate kind cs (total +ℤ value_or_zero (c.criterion_values kind))

unfoldable pub aggregate_exclusions : CandidateSet → List Text
aggregate_exclusions s =
    (if exceeds (aggregate total_tokens s.competitors (pos 0)) s.max_total_tokens
      then codes "aggregate-budget:total-tokens" ∷ []
      else [])
    ++ ((if exceeds (aggregate added_bytes s.competitors (pos 0)) s.max_total_changed_bytes
          then codes "aggregate-budget:changed-bytes" ∷ []
          else [])
        ++ (if s.cancellation_requested
            then codes "candidate-set-cancelled-before-selection" ∷ []
            else []))

-- `runsById.get`, over the pairs of an identifier and its Run.
unfoldable pub find_run : Text → List (Text × Run) → Option Run
find_run id [] = none
find_run id (r ∷ rs) = let later = find_run id rs in if text_eq r.0 id then some r.1 else later

abbrev pub validations_passed : Run → Bool
validations_passed none = false
validations_passed (some validations) =
    not (any (λ v. v.required && not (has_passed v.status)) validations)

unfoldable pub candidate_input : List (Text × Run) → List Text → Competitor → Result CandidateInput
candidate_input runs aggregate_excluded c = elim (find_run c.run_id runs) [
  | none ↦ thrown "Candidate Set decision is missing a persisted Run"
  | some run ↦ ok (record {
    competitor_id = c.id;
    required_validations_passed = c.is_sealed && validations_passed run;
    exclusions = c.exclusions ++ aggregate_excluded;
    criterion_values = c.criterion_values;
  })
]

unfoldable pub candidate_inputs :
    List (Text × Run) → List Text → List Competitor → Result (List CandidateInput)
candidate_inputs runs aggregate_excluded [] = ok []
candidate_inputs runs aggregate_excluded (c ∷ cs) = do
  input ← candidate_input runs aggregate_excluded c
  inputs ← candidate_inputs runs aggregate_excluded cs
  ok (input ∷ inputs)

unfoldable pub replay_candidate_selection :
    Sha256 → CandidateSet → List (Text × Run) → Result (Decision × Text)
replay_candidate_selection sha s runs = do
  inputs ← candidate_inputs runs (aggregate_exclusions s) s.competitors
  select_candidates sha s.id s.state_id s.contract inputs

unfoldable pub count_passed : List ValidationStatus → ℕ
count_passed [] = 0
count_passed (s ∷ ss) = let rest = count_passed ss in if has_passed s then 1 + rest else rest

unfoldable pub create_quality_assertion : List ValidationStatus → ℕ
create_quality_assertion [] = 0
create_quality_assertion (s ∷ ss) =
    count_passed (s ∷ ss) * (selection_criteria quality_assertion).maximum / length (s ∷ ss)
