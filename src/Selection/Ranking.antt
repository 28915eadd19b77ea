-- ===== src/Selection/Ranking.antt =====
-- The order that `selectCandidates` of apps/server/src/candidate-selection.ts gives the candidates,
-- and its winner.
use mathlib.Core.List.{Permᴰ, Memᴰ}
use agent_airlock.Prelude.{
  ℕ, ◌≡◌, refl, sym, ap, subst, true, false, not, List, [], ◌∷◌, map, length, ltb, ◌||◌,
  if◌then◌else◌, Option, none, some, inl, inr, All, Bool-cases,
}
use agent_airlock.Prelude.Texts.{Text}
use agent_airlock.Prelude.Results.{ok, throw_if, >>=-eq_ok, ok-injective}
use agent_airlock.StableJson.{is_gt}
use agent_airlock.StableJson.Sorting.{IsSorted, sort-IsSorted, sort-Permᴰ, sort-All_back, sort-All}
use agent_airlock.Digest.{Sha256}
use agent_airlock.Selection.{
  Contract, CandidateInput, ScorecardEntry, Decision, is_identifier, winner,
  assert_selection_contract, score_candidates, compare_entries, filter_eligible, ordered_eligible,
  decide_order, decision_digest, select_candidates,
}
use agent_airlock.Selection.Order.{IsComplete, compare_entries_total, compare_entries_trans}
use agent_airlock.Selection.Scoring.{score_candidates_lem}

filter_eligible_in :
    (e : ScorecardEntry) (es : List ScorecardEntry)
    → e.eligible ≡ true
    → filter_eligible (e ∷ es) ≡ e ∷ filter_eligible es
unfolding filter_eligible
filter_eligible_in e es h = ap (λ b. if b then e ∷ filter_eligible es else filter_eligible es) h

filter_eligible_out :
    (e : ScorecardEntry) (es : List ScorecardEntry)
    → e.eligible ≡ false
    → filter_eligible (e ∷ es) ≡ filter_eligible es
unfolding filter_eligible
filter_eligible_out e es h = ap (λ b. if b then e ∷ filter_eligible es else filter_eligible es) h

module _ (P : ScorecardEntry → Type 0) where
  filter_eligible-All :
      (es : List ScorecardEntry)
      → All (λ e. e.eligible ≡ true → P e) es
      → All P (filter_eligible es)
  unfolding filter_eligible
  filter_eligible-All [] h = tt
  filter_eligible-All (e ∷ es) (p, h) = elim (Bool-cases e.eligible) [
    | inl allowed ↦
        subst (All P) (sym (filter_eligible_in e es allowed)) (p allowed, filter_eligible-All es h)
    | inr barred ↦ subst (All P) (sym (filter_eligible_out e es barred)) (filter_eligible-All es h)
  ]

  filter_eligible-All_back :
      (es : List ScorecardEntry)
      → All P (filter_eligible es)
      → All (λ e. e.eligible ≡ true → P e) es
  unfolding filter_eligible
  filter_eligible-All_back [] h = tt
  filter_eligible-All_back (e ∷ es) h = elim (Bool-cases e.eligible) [
    | inl allowed ↦
        let (here, rest) = subst (All P) (filter_eligible_in e es allowed) h in
        (λ _. here, filter_eligible-All_back es rest)
    | inr barred ↦ (
      λ allowed. absurd (cc),
      filter_eligible-All_back es (subst (All P) (filter_eligible_out e es barred) h),
    )
  ]

-- What the winner is: without one nobody is eligible; a winner is an eligible entry that no
-- eligible entry comes before.
abbrev pub IsWinner : List ScorecardEntry → Option Text → Type 0
IsWinner es none = All (λ e. e.eligible ≡ false) es
IsWinner es (some id) =
    (w : ScorecardEntry) × Memᴰ w es
    × (w.eligible ≡ true)
    × (w.competitor_id ≡ id)
    × All (λ e. e.eligible ≡ true → is_gt (compare_entries w e) ≡ false) es

module _ (n : ℕ) (es : List ScorecardEntry)
    (complete : All (λ e. e.eligible ≡ true → IsComplete n e) es) where
  ordered_eligible-IsSorted : IsSorted compare_entries (ordered_eligible es)
  unfolding ordered_eligible
  ordered_eligible-IsSorted =
      sort-IsSorted compare_entries (IsComplete n) (compare_entries_total n)
        (compare_entries_trans n) (filter_eligible es)
        (filter_eligible-All (IsComplete n) es complete)

-- Every element of a list stands in it.
All-Memᴰ :
    (Q : ScorecardEntry → Type 0) (l : List ScorecardEntry)
    → ((e : ScorecardEntry) → Memᴰ e l → Q e)
    → All Q l
All-Memᴰ Q [] h = tt
All-Memᴰ Q (e ∷ l) h = (h e (Memᴰ.head refl), All-Memᴰ Q l (λ f m. h f (Memᴰ.tail m)))

All-map :
    {Q R : ScorecardEntry → Type 0} (l : List ScorecardEntry)
    → ((e : ScorecardEntry) → Q e → R e)
    → All Q l
    → All R l
All-map [] f h = tt
All-map (e ∷ l) f (p, h) = (f e p, All-map l f h)

module _ (n : ℕ) (es : List ScorecardEntry)
    (complete : All (λ e. e.eligible ≡ true → IsComplete n e) es) where
  compare_entries_irrefl :
      (e : ScorecardEntry) → IsComplete n e → is_gt (compare_entries e e) ≡ false
  compare_entries_irrefl e p = elim (Bool-cases (is_gt (compare_entries e e))) [
    | inl later ↦ compare_entries_total n e e p p later
    | inr sooner ↦ sooner
  ]

  first-IsWinner :
      (o : List ScorecardEntry)
      → All (λ e. Memᴰ e es × (e.eligible ≡ true)) o
      → All (IsComplete n) o
      → IsSorted compare_entries o
      → ((Q : ScorecardEntry → Type 0) → All Q o → All (λ e. e.eligible ≡ true → Q e) es)
      → IsWinner es (winner (map (λ e. e.competitor_id) o))
  first-IsWinner [] members full sorted back =
      All-map es
        (λ e barred. elim (Bool-cases e.eligible) [
          | inl allowed ↦ absurd (barred allowed)
          | inr h ↦ h
        ])
        (back (λ _. ⊥) tt)
  first-IsWinner (w ∷ o) ((here, allowed), _) (p, _) (behind, _) back = (
    w,
    here,
    allowed,
    refl,
    back (λ e. is_gt (compare_entries w e) ≡ false) (compare_entries_irrefl w p, behind),
  )

  ordered_eligible-IsWinner :
      IsWinner es (winner (map (λ e. e.competitor_id) (ordered_eligible es)))
  unfolding ordered_eligible
  ordered_eligible-IsWinner =
      let eligible : All (λ e. Memᴰ e es × (e.eligible ≡ true)) (filter_eligible es) =
        filter_eligible-All (λ e. Memᴰ e es × (e.eligible ≡ true)) es
          (All-Memᴰ (λ e. e.eligible ≡ true → Memᴰ e es × (e.eligible ≡ true)) es
            (λ e m allowed. (m, allowed))) in
      first-IsWinner (ordered_eligible es)
        (sort-All compare_entries (λ e. Memᴰ e es × (e.eligible ≡ true)) (filter_eligible es)
          eligible)
        (sort-All compare_entries (IsComplete n) (filter_eligible es)
          (filter_eligible-All (IsComplete n) es complete))
        (ordered_eligible-IsSorted n es complete)
        (λ Q h.
          filter_eligible-All_back Q es (sort-All_back compare_entries Q (filter_eligible es) h))

-- The eligible entries of a scorecard, each once, none before one that compares lower.
abbrev pub IsRanking : List ScorecardEntry → List Text → Type 0
IsRanking es ids =
    (o : List ScorecardEntry) × Permᴰ (filter_eligible es) o
    × IsSorted compare_entries o
    × (ids ≡ map (λ e. e.competitor_id) o)

-- A decision ranks the scores of its candidates: the eligible ones, in order, and its winner is an
-- eligible one that no eligible one comes before, or nobody where nobody is eligible.
pub select_candidates_lem :
    (sha : Sha256) (set_id state_id : Text) (contract : Contract) (cs : List CandidateInput)
    → (decision : Decision) (digest : Text)
    → select_candidates sha set_id state_id contract cs ≡ ok (decision, digest)
    → (es : List ScorecardEntry) × (score_candidates contract cs [] ≡ ok es)
      × IsRanking es decision.ordered_competitor_ids
      × IsWinner es decision.winner_competitor_id
      × (digest ≡ decision_digest sha decision)
unfolding select_candidates decide_order ordered_eligible
select_candidates_lem sha set_id state_id contract cs decision digest made =
    let (_, _, r1) = >>=-eq_ok (assert_selection_contract contract) _ made in
    let (_, _, r2) =
      >>=-eq_ok (throw_if (not (is_identifier set_id)) "Candidate Set identifier is invalid") _
        r1 in
    let (_, _, r3) =
      >>=-eq_ok (throw_if (not (is_identifier state_id)) "source state identifier is invalid") _
        r2 in
    let (_, _, r4) =
      >>=-eq_ok
        (throw_if (ltb (length cs) 1 || ltb 8 (length cs))
          "Selection requires one through eight persisted Candidates")
        _ r3 in
    let (es, scored, last) = >>=-eq_ok (score_candidates contract cs []) _ r4 in
    let complete = score_candidates_lem contract cs [] es scored in
    let n = length contract.criteria in
    let result = ok-injective last in
    (
      es,
      scored,
      (
        ordered_eligible es,
        sort-Permᴰ compare_entries (filter_eligible es),
        ordered_eligible-IsSorted n es complete,
        sym (ap (λ r. r.0.ordered_competitor_ids) result),
      ),
      subst (IsWinner es) (ap (λ r. r.0.winner_competitor_id) result)
          (ordered_eligible-IsWinner n es complete),
      cc (ap (λ r. r.0) result, ap (λ r. r.1) result),
    )
