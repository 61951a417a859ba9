-- ===== src/Candidates/Service/Claims.antt =====
-- A decision as the database settles it: the reads, the claim and what is attached to it.
use flycanon.Prelude.{
  ℕ, String, str_eq, ◌≡◌, refl, sym, ap, ◌∙◌, Bool, true, ◌&&◌, Option, none, some, [], ◌∷◌, arith,
  Bool-cases, inl, inr,
}
use flycanon.Effects.{Value}
use flycanon.Table.{
  find, only, Unique, select-find, claim_row_won, claim_row-some, Unique-claim_row,
}
use flycanon.Knowledge.Requests.{Scope}
use flycanon.Candidates.{
  CandidateStatus, CandidateRow, Candidates, candidate_key, is_proposed, get, decided,
  claim_decision, finalised, finalise,
}

abbrev pub in_scope : Scope → CandidateRow → Bool
in_scope scope r = str_eq r.tenant_id scope.tenant_id && str_eq r.workspace_id scope.workspace_id

pub only_inv :
    (q : CandidateRow → Bool) (o : Option CandidateRow) {r : CandidateRow}
    → only candidate_key q o ≡ some r
    → (o ≡ some r) × (q r ≡ true)
only_inv q none e = absurd (ground arith)
only_inv q (some x) {r} e = elim (Bool-cases (q x)) [
  | inl holds ↦ let same : x ≡ r = ground arith in (ap some same, ap q (sym same) ∙ holds)
  | inr fails ↦ absurd (ground arith)
]

pub get_inv :
    (id : String) (scope : Scope) (rows : Candidates) {r : CandidateRow}
    → Unique candidate_key rows
    → get id scope.tenant_id scope.workspace_id rows ≡ some r
    → (find candidate_key id rows ≡ some r) × (in_scope scope r ≡ true)
unfolding get
get_inv id scope rows u h =
    only_inv (in_scope scope) (find candidate_key id rows)
      (sym (select-find candidate_key id (in_scope scope) rows u) ∙ h)

pub get_of_find :
    (id : String) (scope : Scope) (rows : Candidates) {r : CandidateRow}
    → Unique candidate_key rows
    → find candidate_key id rows ≡ some r
    → in_scope scope r ≡ true
    → get id scope.tenant_id scope.workspace_id rows ≡ some r
unfolding get
get_of_find id scope rows u found holds =
    select-find candidate_key id (in_scope scope) rows u ∙ rw (found, holds) refl

module _ (id : String) (status : CandidateStatus) (actor : Option String) (now : ℕ)
    (rows : Candidates) {row : CandidateRow} (u : Unique candidate_key rows)
    (found : find candidate_key id rows ≡ some row) (open_ : is_proposed row.status ≡ true) where
  abbrev pub claimed_rows : Candidates
  claimed_rows = (claim_decision id status actor now rows).1

  pub claim-won : (claim_decision id status actor now rows).0 ≡ some (decided status actor now row)
  unfolding claim_decision
  claim-won = claim_row_won candidate_key id _ (decided status actor now) rows u found open_

  pub claim-found : find candidate_key id claimed_rows ≡ some (decided status actor now row)
  unfolding claim_decision
  claim-found =
      let (_, _, _, _, after) =
        claim_row-some candidate_key id (λ (r : CandidateRow). is_proposed r.status)
          (decided status actor now) rows (λ r. unfold decided in refl) u claim-won in
      after

  pub claim-Unique : Unique candidate_key claimed_rows
  unfolding claim_decision
  claim-Unique =
      Unique-claim_row candidate_key id _ (decided status actor now) rows
        (λ r. unfold decided in refl) u

pub finalise-accepted :
    (id item_id : String) (version : ℕ) (rows : Candidates) {row : CandidateRow}
    → Unique candidate_key rows
    → find candidate_key id rows ≡ some row
    → let final = finalised (some item_id) (some version) [] row in
      let (stored, rows') = finalise id (some item_id) (some version) [] rows in
      (stored ≡ some final) × (find candidate_key id rows' ≡ some final)
unfolding finalise
finalise-accepted id item_id version rows {row} u found =
    let f = finalised (some item_id) (some version) [] in
    let won = claim_row_won candidate_key id (λ r. true) f rows u found refl in
    let (_, _, _, _, after) =
      claim_row-some candidate_key id (λ r. true) f rows (λ r. unfold finalised in refl) u won in
    (won, after)

pub finalise-rejected :
    (id : String) (entry : String × Value) (rows : Candidates) {row : CandidateRow}
    → Unique candidate_key rows
    → find candidate_key id rows ≡ some row
    → let final = finalised none none (entry ∷ []) row in
      let (stored, rows') = finalise id none none (entry ∷ []) rows in
      (stored ≡ some final) × (find candidate_key id rows' ≡ some final)
unfolding finalise
finalise-rejected id entry rows {row} u found =
    let f = finalised none none (entry ∷ []) in
    let won = claim_row_won candidate_key id (λ r. true) f rows u found refl in
    let (_, _, _, _, after) =
      claim_row-some candidate_key id (λ r. true) f rows (λ r. unfold finalised in refl) u won in
    (won, after)
