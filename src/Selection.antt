-- ===== src/Selection.antt =====
-- The choice among competing candidates: apps/server/src/candidate-selection.ts.
pub mod Order
pub mod Scoring
pub mod Ranking
pub mod Replay
pub mod Examples
use agent_airlock.Prelude.{
  ℕ, zero, suc, ◌+◌, ◌-◌, ◌*◌, ◌/◌, Bool, true, false, not, List, [], ◌∷◌, ◌++◌, map, Option, none,
  some, length, any, all, ltb, leb, ◌==◌, ◌&&◌, ◌||◌, if◌then◌else◌, compare, Ordering,
}
use agent_airlock.Prelude.Int.{ℤ, pos, negsuc}
use agent_airlock.Prelude.Texts.{Text, codes, text_eq, includes}
use agent_airlock.Prelude.Results.{Result, ok, thrown, ◌>>=◌, ◌>>◌, throw_if, traverse}
use agent_airlock.Canonical.{
  Json, null, bool, num, str, arr, obj, Items, nil, cons, fields, utf8_bytes, is_safe_integer,
}
use agent_airlock.StableJson.{compare_utf8, sort, stable_json}
use agent_airlock.Digest.{Sha256, hex_encode}

pub data Kind : Type 0 where
  quality_assertion changed_files added_bytes latency_ms total_tokens : Kind

abbrev pub kind_text : Kind → Text
kind_text quality_assertion = codes "quality-assertion"
kind_text changed_files = codes "changed-files"
kind_text added_bytes = codes "added-bytes"
kind_text latency_ms = codes "latency-ms"
kind_text total_tokens = codes "total-tokens"

pub record Criterion : Type 0 where
  pub kind : Kind
  pub source : Text
  pub direction : Text
  pub maximum : ℕ
  pub evaluator_version : Text

abbrev criterion : Kind → Text → Text → ℕ → Text → Criterion
criterion kind source direction maximum version = record {
  kind = kind;
  source = source;
  direction = direction;
  maximum = maximum;
  evaluator_version = version;
}

-- `SELECTION_CRITERIA`.
unfoldable pub selection_criteria : Kind → Criterion
selection_criteria quality_assertion =
    criterion quality_assertion (codes "trusted-validation-evaluator") (codes "maximize") 1000000
      (codes "airlock-validation-pass-rate-v1")
selection_criteria changed_files =
    criterion changed_files (codes "workspace-change-evidence") (codes "minimize") 10000
      (codes "airlock-workspace-change-v1")
selection_criteria added_bytes =
    criterion added_bytes (codes "workspace-change-evidence") (codes "minimize") 100000000
      (codes "airlock-workspace-change-v1")
selection_criteria latency_ms =
    criterion latency_ms (codes "monotonic-execution-measurement") (codes "minimize") 3600000
      (codes "airlock-monotonic-runtime-v1")
selection_criteria total_tokens =
    criterion total_tokens (codes "runtime-usage-response") (codes "minimize") 10000000
      (codes "airlock-runtime-usage-v1")

pub record Contract : Type 0 where
  pub schema_version : ℕ
  pub criteria : List Criterion

unfoldable pub create_default_selection_contract : Contract
unfolding selection_criteria
create_default_selection_contract = record {
  schema_version = 1;
  criteria =
      selection_criteria quality_assertion
      ∷ selection_criteria changed_files
      ∷ selection_criteria added_bytes
      ∷ selection_criteria latency_ms
      ∷ selection_criteria total_tokens
      ∷ [];
}

abbrev pub criterion_json : Criterion → Json
criterion_json c = obj (
    fields (
      (codes "kind", str (kind_text c.kind))
      ∷ (codes "source", str c.source)
      ∷ (codes "direction", str c.direction)
      ∷ (codes "maximum", num (pos c.maximum))
      ∷ (codes "evaluatorVersion", str c.evaluator_version)
      ∷ []))

-- The loop of `assertSelectionContract`, with the kinds seen so far.
unfoldable pub assert_criteria : List Criterion → List Text → Result (Unit {0})
assert_criteria [] seen = ok tt
assert_criteria (c ∷ cs) seen = do
  throw_if
      (not (
        text_eq (stable_json (criterion_json c))
          (stable_json (criterion_json (selection_criteria c.kind)))))
      "Selection Contract contains an unsupported criterion definition"
  throw_if (includes seen (kind_text c.kind)) "Selection Contract contains duplicate criteria"
  assert_criteria cs (kind_text c.kind ∷ seen)

unfoldable pub assert_selection_contract : Contract → Result (Unit {0})
assert_selection_contract c = do
  throw_if (not (c.schema_version == 1)) "Selection Contract schema is unsupported"
  throw_if (ltb (length c.criteria) 1 || ltb 5 (length c.criteria))
      "Selection Contract must declare one through five criteria"
  assert_criteria c.criteria []

pub record CandidateInput : Type 0 where
  pub competitor_id : Text
  pub required_validations_passed : Bool
  pub exclusions : List Text
  pub criterion_values : Kind → Option ℤ

pub record Component : Type 0 where
  pub criterion : Criterion
  pub raw_value : ℕ
  pub normalized_value : ℕ

pub record ScorecardEntry : Type 0 where
  pub competitor_id : Text
  pub eligible : Bool
  pub exclusions : List Text
  pub components : List Component
  pub rank : Option ℕ

abbrev is_alphanumeric : ℕ → Bool
is_alphanumeric c = leb 65 c && leb c 90 || leb 97 c && leb c 122 || leb 48 c && leb c 57

abbrev is_identifier_part : ℕ → Bool
is_identifier_part c = is_alphanumeric c || c == b'.' || c == b'_' || c == b':' || c == b'-'

-- /^[A-Za-z0-9][A-Za-z0-9._:-]{0,127}$/.
unfoldable pub is_identifier : Text → Bool
is_identifier [] = false
is_identifier (c ∷ rest) = is_alphanumeric c && leb (length rest) 127 && all is_identifier_part rest

unfoldable pub normalize_exclusions : CandidateInput → Result (List Text)
normalize_exclusions c = do
  throw_if (ltb 64 (length c.exclusions)) "Candidate exclusions are not bounded"
  throw_if (any (λ e. ltb (length e) 1 || ltb 240 (length (utf8_bytes e))) c.exclusions)
      "Candidate exclusion is invalid or oversized"
  ok (
      c.exclusions
      ++ (if c.required_validations_passed then [] else codes "required-validation-failed" ∷ []))

-- The raw value inside its bound.
unfoldable pub bounded_value : ℤ → ℕ → Result ℕ
bounded_value (pos n) maximum =
    throw_if (not (is_safe_integer (pos n)) || ltb maximum n)
      "Selection criterion is outside its integer bound"
    >> ok n
bounded_value (negsuc n) maximum = thrown "Selection criterion is outside its integer bound"

unfoldable pub component : Criterion → ℕ → Component
component c raw = record {
  criterion = c;
  raw_value = raw;
  normalized_value = if text_eq c.direction (codes "maximize") then raw else c.maximum - raw;
}

-- The walk over the contract's criteria: a missing value is one more exclusion.
unfoldable pub score_criteria :
    CandidateInput → List Criterion → List Text → Result (List Text × List Component)
score_criteria input [] exclusions = ok (exclusions, [])
score_criteria input (c ∷ cs) exclusions = elim (input.criterion_values c.kind) [
  | none ↦
      score_criteria input cs (exclusions ++ (codes "missing-criterion:" ++ kind_text c.kind) ∷ [])
  | some value ↦ bounded_value value c.maximum >>= λ raw.
      score_criteria input cs exclusions >>= λ rest. ok (rest.0, component c raw ∷ rest.1)
]

-- `[...new Set(values)]`: the first of each value stays.
unfoldable pub distinct : List Text → List Text → List Text
distinct [] seen = []
distinct (t ∷ ts) seen =
    let later = distinct ts (t ∷ seen) in
    let skipped = distinct ts seen in if includes seen t then skipped else t ∷ later

unfoldable pub score_candidate : Contract → CandidateInput → Result ScorecardEntry
score_candidate contract input = do
  exclusions ← normalize_exclusions input
  scored ← score_criteria input contract.criteria exclusions
  ok (record {
    competitor_id = input.competitor_id;
    eligible = length scored.0 == 0;
    exclusions = sort compare_utf8 (distinct scored.0 []);
    components = scored.1;
    rank = none;
  })

-- `input.candidates.map(...)`, with the identifiers seen so far.
unfoldable pub score_candidates :
    Contract → List CandidateInput → List Text → Result (List ScorecardEntry)
score_candidates contract [] ids = ok []
score_candidates contract (c ∷ cs) ids = do
  throw_if (not (is_identifier c.competitor_id)) "competitor identifier is invalid"
  throw_if (includes ids c.competitor_id) "Selection contains duplicate competitor identifiers"
  e ← score_candidate contract c
  es ← score_candidates contract cs (c.competitor_id ∷ ids)
  ok (e ∷ es)

-- `compareEntries`: the greater value comes first; a component that the right entry lacks is -1.
unfoldable pub compare_components : List Component → List Component → Ordering
compare_components [] right = Ordering.eq
compare_components (l ∷ ls) [] = Ordering.lt
compare_components (l ∷ ls) (r ∷ rs) = elim (compare r.normalized_value l.normalized_value) [
  | Ordering.lt ↦ Ordering.lt
  | Ordering.gt ↦ Ordering.gt
  | Ordering.eq ↦ compare_components ls rs
]

-- A difference decides; where there is none, the next comparison does.
abbrev pub or_else_by : Ordering → Ordering → Ordering
or_else_by Ordering.lt next = Ordering.lt
or_else_by Ordering.gt next = Ordering.gt
or_else_by Ordering.eq next = next

unfoldable pub compare_entries : ScorecardEntry → ScorecardEntry → Ordering
compare_entries left right =
    or_else_by (compare_components left.components right.components)
      (compare_utf8 left.competitor_id right.competitor_id)

unfoldable pub filter_eligible : List ScorecardEntry → List ScorecardEntry
filter_eligible [] = []
filter_eligible (e ∷ es) = let rest = filter_eligible es in if e.eligible then e ∷ rest else rest

unfoldable pub ordered_eligible : List ScorecardEntry → List ScorecardEntry
ordered_eligible scorecard = sort compare_entries (filter_eligible scorecard)

-- The place of an identifier in the order, counted from `place`.
unfoldable pub rank_in : Text → List ScorecardEntry → ℕ → Option ℕ
rank_in id [] place = none
rank_in id (e ∷ es) place =
    if text_eq e.competitor_id id then some place else rank_in id es (place + 1)

-- `entry.rank = index + 1` on the entries that the scorecard shares with the order; the identifiers
-- of a scorecard are distinct.
unfoldable pub set_ranks : List ScorecardEntry → List ScorecardEntry → List ScorecardEntry
set_ranks ordered [] = []
set_ranks ordered (e ∷ es) =
    record e { rank = rank_in e.competitor_id ordered 1 } ∷ set_ranks ordered es

abbrev pub by_identifier : ScorecardEntry → ScorecardEntry → Ordering
by_identifier left right = compare_utf8 left.competitor_id right.competitor_id

pub record Decision : Type 0 where
  pub candidate_set_id : Text
  pub source_state_id : Text
  pub ordered_competitor_ids : List Text
  pub winner_competitor_id : Option Text
  pub scorecard : List ScorecardEntry

abbrev pub winner : List Text → Option Text
winner [] = none
winner (id ∷ ids) = some id

unfoldable pub decide_order : Text → Text → List ScorecardEntry → Decision
decide_order candidate_set_id source_state_id scorecard =
    let ordered = ordered_eligible scorecard in
    record {
      candidate_set_id = candidate_set_id;
      source_state_id = source_state_id;
      ordered_competitor_ids = map (λ e. e.competitor_id) ordered;
      winner_competitor_id = winner (map (λ e. e.competitor_id) ordered);
      scorecard = sort by_identifier (set_ranks ordered scorecard);
    }

abbrev texts_json : List Text → Items
texts_json [] = nil
texts_json (t ∷ ts) = cons (str t) (texts_json ts)

abbrev component_json : Component → Json
component_json c = obj (
    fields (
      (codes "kind", str (kind_text c.criterion.kind))
      ∷ (codes "source", str c.criterion.source)
      ∷ (codes "evaluatorVersion", str c.criterion.evaluator_version)
      ∷ (codes "direction", str c.criterion.direction)
      ∷ (codes "maximum", num (pos c.criterion.maximum))
      ∷ (codes "rawValue", num (pos c.raw_value))
      ∷ (codes "normalizedValue", num (pos c.normalized_value))
      ∷ []))

abbrev components_json : List Component → Items
components_json [] = nil
components_json (c ∷ cs) = cons (component_json c) (components_json cs)

abbrev null_or_number : Option ℕ → Json
null_or_number none = null
null_or_number (some n) = num (pos n)

abbrev null_or_text : Option Text → Json
null_or_text none = null
null_or_text (some t) = str t

abbrev entry_json : ScorecardEntry → Json
entry_json e = obj (
    fields (
      (codes "competitorId", str e.competitor_id)
      ∷ (codes "eligible", bool e.eligible)
      ∷ (codes "exclusions", arr (texts_json e.exclusions))
      ∷ (codes "components", arr (components_json e.components))
      ∷ (codes "rank", null_or_number e.rank)
      ∷ []))

abbrev entries_json : List ScorecardEntry → Items
entries_json [] = nil
entries_json (e ∷ es) = cons (entry_json e) (entries_json es)

-- The decision without its digest.
abbrev pub decision_json : Decision → Json
decision_json d = obj (
    fields (
      (codes "schemaVersion", num (pos 1))
      ∷ (codes "candidateSetId", str d.candidate_set_id)
      ∷ (codes "sourceStateId", str d.source_state_id)
      ∷ (codes "orderedCompetitorIds", arr (texts_json d.ordered_competitor_ids))
      ∷ (codes "winnerCompetitorId", null_or_text d.winner_competitor_id)
      ∷ (codes "scorecard", arr (entries_json d.scorecard))
      ∷ (codes "tieBreak", str (codes "competitor-id-ascending-byte-order"))
      ∷ []))

-- `digest`: here without a prefix.
unfoldable pub decision_digest : Sha256 → Decision → Text
decision_digest sha d = hex_encode (sha.hash (utf8_bytes (stable_json (decision_json d))))

-- `selectCandidates`: the decision and its digest.
unfoldable pub select_candidates :
    Sha256 → Text → Text → Contract → List CandidateInput → Result (Decision × Text)
select_candidates sha candidate_set_id source_state_id contract candidates = do
  assert_selection_contract contract
  throw_if (not (is_identifier candidate_set_id)) "Candidate Set identifier is invalid"
  throw_if (not (is_identifier source_state_id)) "source state identifier is invalid"
  throw_if (ltb (length candidates) 1 || ltb 8 (length candidates))
      "Selection requires one through eight persisted Candidates"
  scorecard ← score_candidates contract candidates []
  let decision = decide_order candidate_set_id source_state_id scorecard
  ok (decision, decision_digest sha decision)
