-- ===== src/CandidateSet.antt =====
-- The input of a Candidate Set: apps/server/src/candidate-set.ts. `redactSensitiveText` is a
-- parameter.
pub mod Normal
pub mod Bounds
pub mod Examples
use agent_airlock.Prelude.{
  ℕ, Bool, true, false, not, List, [], ◌∷◌, length, all, ltb, leb, ◌==◌, ◌&&◌, ◌||◌, if◌then◌else◌,
}
use agent_airlock.Prelude.Texts.{Text, codes, text_eq, includes}
use agent_airlock.Prelude.Results.{Result, ok, ◌>>=◌, ◌>>◌, throw_if, with_prefix}
use Prim.Native.String.{String}
use agent_airlock.Canonical.{utf8_bytes}
use agent_airlock.Selection.{Contract, assert_selection_contract}

pub data LoserPolicy : Type 0 where
  retain discard : LoserPolicy

pub record Competitor : Type 0 where
  pub id : Text
  pub executor_profile_id : Text
  pub strategy_instruction : Text

pub record Budget : Type 0 where
  pub max_duration_ms_per_competitor : ℕ
  pub max_total_tokens : ℕ
  pub max_total_changed_bytes : ℕ

pub record SetInput : Type 0 where
  pub objective : Text
  pub competitors : List Competitor
  pub selection_contract : Contract
  pub max_concurrency : ℕ
  pub budget : Budget
  pub loser_policy : LoserPolicy

-- The characters that `trim` removes: white space and line ends.
unfoldable pub is_space : ℕ → Bool
is_space c =
    leb 9 c && leb c 13
    || c == 32
    || c == 160
    || c == 0x1680
    || leb 0x2000 c && leb c 0x200a
    || c == 0x2028
    || c == 0x2029
    || c == 0x202f
    || c == 0x205f
    || c == 0x3000
    || c == 0xfeff

unfoldable pub trim_start : Text → Text
trim_start [] = []
trim_start (c ∷ t) = let later = trim_start t in if is_space c then later else c ∷ t

abbrev pub is_empty : Text → Bool
is_empty [] = true
is_empty (c ∷ t) = false

unfoldable pub trim_end : Text → Text
trim_end [] = []
trim_end (c ∷ t) = let rest = trim_end t in if is_space c && is_empty rest then [] else c ∷ rest

-- `value.trim()`.
unfoldable pub trim : Text → Text
unfolding trim_start trim_end is_space
trim t = trim_end (trim_start t)

abbrev is_alphanumeric : ℕ → Bool
is_alphanumeric c = leb 65 c && leb c 90 || leb 97 c && leb c 122 || leb 48 c && leb c 57

abbrev is_identifier_part : ℕ → Bool
is_identifier_part c = is_alphanumeric c || c == b'.' || c == b'_' || c == b':' || c == b'-'

-- /^[A-Za-z0-9][A-Za-z0-9._:-]{0,63}$/.
unfoldable pub is_competitor_id : Text → Bool
is_competitor_id [] = false
is_competitor_id (c ∷ rest) =
    is_alphanumeric c && leb (length rest) 63 && all is_identifier_part rest

unfoldable pub assert_budget : Budget → ℕ → Result (Unit {0})
assert_budget b count =
    throw_if
      (ltb b.max_duration_ms_per_competitor 1000
        || ltb 3600000 b.max_duration_ms_per_competitor
        || ltb b.max_total_tokens count
        || ltb 10000000 b.max_total_tokens
        || ltb 800000000 b.max_total_changed_bytes)
      "Candidate Set budget is invalid, cannot reserve one token per competitor, or is outside its fixed bounds"

module _ (redact : Text → Text) where
  unfoldable pub assert_safe_text : Text → String → ℕ → ℕ → Result Text
  unfolding trim
  assert_safe_text value label minimum maximum = do
    throw_if
        (ltb (length (utf8_bytes (trim value))) minimum
          || ltb maximum (length (utf8_bytes (trim value))))
        (with_prefix "Candidate Set " (with_prefix label " is empty or oversized"))
    throw_if (not (text_eq (redact (trim value)) (trim value)))
        (with_prefix "Candidate Set " (with_prefix label " contains credential-like content"))
    ok (trim value)

  -- The loop over the competitors, with the identifiers seen before.
  unfoldable pub check_competitors : List Text → List Competitor → Result (List Competitor)
  check_competitors ids [] = ok []
  check_competitors ids (c ∷ cs) = do
    throw_if (not (is_competitor_id c.id)) "Competitor identifier is invalid"
    throw_if (includes ids c.id) "Candidate Set contains duplicate competitor identifiers"
    throw_if (not (text_eq c.executor_profile_id (codes "standard-v1")))
        "Competitor uses an unsupported trusted executor profile"
    instruction ← assert_safe_text c.strategy_instruction "strategy instruction" 1 4000
    rest ← check_competitors (c.id ∷ ids) cs
    ok (record c { strategy_instruction = instruction } ∷ rest)

  unfoldable pub validate_candidate_set_input : SetInput → Result SetInput
  validate_candidate_set_input input = do
    objective ← assert_safe_text input.objective "objective" 1 50000
    throw_if (ltb (length input.competitors) 2 || ltb 8 (length input.competitors))
        "Candidate Set must contain two through eight competitors"
    competitors ← check_competitors [] input.competitors
    assert_selection_contract input.selection_contract
    throw_if
        (ltb input.max_concurrency 1
          || ltb 4 input.max_concurrency
          || ltb (length competitors) input.max_concurrency)
        "Candidate Set concurrency must be between one and four competitors"
    assert_budget input.budget (length competitors)
    ok (record input { objective = objective; competitors = competitors })
