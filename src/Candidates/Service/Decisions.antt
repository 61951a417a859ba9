-- ===== src/Candidates/Service/Decisions.antt =====
-- What `accept` and `reject` leave, on every branch.
use flycanon.Prelude.{ℕ, String, ◌≡◌, refl, subst, true, false, Option, some, [], ◌∷◌, arith}
use flycanon.Effects.{text, Broker}
use flycanon.Table.{find, Unique, claim_row_refused}
use flycanon.Knowledge.{KnowledgeVersionRow, References}
use flycanon.Knowledge.Requests.{KnowledgeError, Reply, returned, raised, State, Scope}
use flycanon.Candidates.{
  accepted, rejected, CandidateRow, Candidates, candidate_key, is_proposed, get, decided,
  claim_decision, update_dict, finalised,
}
use flycanon.Candidates.Service.{
  AcceptCandidateRequest, RejectCandidateRequest, already_decided, knowledge_error, Decision,
  decided_row, refused, Inbox, CandidateEvents, Fresh, materialise, after_materialise,
  after_accept_claim, accept_found, accept, after_reject_claim, reject_found, reject,
}
use flycanon.Candidates.Service.Claims.{
  get_inv, get_of_find, claimed_rows, claim-won, claim-found, claim-Unique, finalise-accepted,
  finalise-rejected,
}

module _ (broker : Broker) (events : CandidateEvents) (valid : References)
    (page_of : String → Option ℕ) where
  abbrev accepts : String → AcceptCandidateRequest → Fresh → Scope → Inbox → Decision × Inbox
  accepts = accept broker events valid page_of

  abbrev rejects : String → RejectCandidateRequest → ℕ → Scope → Inbox → Decision × Inbox
  rejects = reject broker events valid page_of

  -- A candidate that has been decided is refused to every further accept and reject, which change
  -- nothing.
  pub decided_once :
      (id : String) (request : AcceptCandidateRequest) (request' : RejectCandidateRequest)
      (fresh : Fresh) (scope : Scope) (s : Inbox) {row : CandidateRow}
      → Unique candidate_key s.candidates
      → get id scope.tenant_id scope.workspace_id s.candidates ≡ some row
      → is_proposed row.status ≡ false
      → (accept broker events valid page_of id request fresh scope s
          ≡ (refused (already_decided id row.status), s))
        × (reject broker events valid page_of id request' fresh.now scope s
            ≡ (refused (already_decided id row.status), s))
  unfolding accept accept_found after_accept_claim reject reject_found after_reject_claim
      claim_decision
  decided_once id request request' fresh scope s {row} u got gone =
      let (found, _) = get_inv id scope s.candidates u got in
      let q = λ (r : CandidateRow). is_proposed r.status in
      let lost =
        claim_row_refused candidate_key id q (decided accepted request.actor fresh.now) s.candidates
          u found gone in
      let lost' =
        claim_row_refused candidate_key id q (decided rejected request'.actor fresh.now)
          s.candidates u found gone in
      (rw (got, lost) refl, rw (got, lost') refl)

  after_materialise-raised :
      (id : String) (request : AcceptCandidateRequest) (mine : CandidateRow) (scope : Scope)
      (rows : Candidates) (r : Reply KnowledgeVersionRow × State) {e : KnowledgeError}
      → r.0 ≡ raised e
      → after_materialise broker events valid page_of id request mine scope rows r
        ≡ (refused (knowledge_error e), record { candidates = rows; store = r.1 })
  unfolding after_materialise
  after_materialise-raised id request mine scope rows (raised x, store) {e} h =
      let same : x ≡ e = ground arith in
      λ i. (refused (knowledge_error (same i)), record { candidates = rows; store = store })
  after_materialise-raised id request mine scope rows (returned v, store) h = absurd (ground arith)

  -- An accept whose knowledge write raises keeps its claim: the candidate is accepted, with no item that
  -- it has become, and every later accept and reject of it is refused.
  pub accept_stranded :
      (id : String) (request : AcceptCandidateRequest) (fresh : Fresh) (scope : Scope) (s : Inbox)
      {row : CandidateRow} {e : KnowledgeError}
      → Unique candidate_key s.candidates
      → get id scope.tenant_id scope.workspace_id s.candidates ≡ some row
      → is_proposed row.status ≡ true
      → (materialise broker events valid page_of request.target_item_id request
          (decided accepted request.actor fresh.now row)
          fresh
          scope
          s.store).0
        ≡ raised e
      → let (decision, s') = accept broker events valid page_of id request fresh scope s in
        (decision ≡ refused (knowledge_error e))
        × (find candidate_key id s'.candidates
            ≡ some (decided accepted request.actor fresh.now row))
        × ((request' : AcceptCandidateRequest) (request'' : RejectCandidateRequest) (fresh' : Fresh)
            → (accept broker events valid page_of id request' fresh' scope s'
                ≡ (refused (already_decided id accepted), s'))
              × (reject broker events valid page_of id request'' fresh'.now scope s'
                  ≡ (refused (already_decided id accepted), s')))
  unfolding accept accept_found after_accept_claim
  accept_stranded id request fresh scope s {row} {e} u got open_ failed =
      let (found, here) = get_inv id scope s.candidates u got in
      let mine = decided accepted request.actor fresh.now row in
      let rows = (claim_decision id accepted request.actor fresh.now s.candidates).1 in
      let won = claim-won id accepted request.actor fresh.now s.candidates u found open_ in
      let after = claim-found id accepted request.actor fresh.now s.candidates u found open_ in
      let u' = claim-Unique id accepted request.actor fresh.now s.candidates u found open_ in
      let got' : get id scope.tenant_id scope.workspace_id rows ≡ some mine =
        get_of_find id scope rows u' after (unfold decided in here) in
      let s' : Inbox = record {
        candidates = rows;
        store =
            (materialise broker events valid page_of request.target_item_id request mine fresh scope
              s.store).1;
      } in
      let ended : accept broker events valid page_of id request fresh scope s
          ≡ (refused (knowledge_error e), s') =
        rw (got, won) (after_materialise-raised id request mine scope rows _ failed) in
      rw ended (
        refl,
        after,
        λ request' request'' fresh'.
            unfold decided in decided_once id request' request'' fresh' scope s' u' got' refl,
      )

  after_materialise-returned :
      (id : String) (request : AcceptCandidateRequest) (mine : CandidateRow) (scope : Scope)
      (rows : Candidates) (r : Reply KnowledgeVersionRow × State) {v : KnowledgeVersionRow}
      → Unique candidate_key rows
      → find candidate_key id rows ≡ some mine
      → r.0 ≡ returned v
      → let final = finalised (some v.knowledge_item_id) (some v.version) [] mine in
        let (decision, s') =
          after_materialise broker events valid page_of id request mine scope rows r in
        (decision ≡ decided_row final)
        × (find candidate_key id s'.candidates ≡ some final)
        × (s'.store.items ≡ r.1.items)
        × (s'.store.versions ≡ r.1.versions)
        × (s'.store.citations ≡ r.1.citations)
  unfolding after_materialise
  after_materialise-returned id request mine scope rows (raised x, store) u found h =
      absurd (ground arith)
  after_materialise-returned id request mine scope rows (returned x, store) {v} u found h =
      let same : x ≡ v = ground arith in
      subst
        (λ w.
          let final = finalised (some w.knowledge_item_id) (some w.version) [] mine in
          let (decision, s') =
            after_materialise broker events valid page_of id request mine scope rows
              (returned x, store) in
          (decision ≡ decided_row final)
          × (find candidate_key id s'.candidates ≡ some final)
          × (s'.store.items ≡ store.items)
          × (s'.store.versions ≡ store.versions)
          × (s'.store.citations ≡ store.citations))
        same
        (let (stored, kept) = finalise-accepted id x.knowledge_item_id x.version rows u found in
          (rw stored refl, kept, refl, refl, refl))

  -- An accept of a proposed candidate whose knowledge write succeeds: the candidate is accepted and
  -- points to the item and the version that it has become, and the knowledge store is what that one
  -- write has left of it.
  pub accept_materialises :
      (id : String) (request : AcceptCandidateRequest) (fresh : Fresh) (scope : Scope) (s : Inbox)
      {row : CandidateRow} {v : KnowledgeVersionRow}
      → Unique candidate_key s.candidates
      → get id scope.tenant_id scope.workspace_id s.candidates ≡ some row
      → is_proposed row.status ≡ true
      → let mine = decided accepted request.actor fresh.now row in
        let wrote =
          materialise broker events valid page_of request.target_item_id request mine fresh scope
            s.store in
        wrote.0 ≡ returned v
        → let final = record row {
          status = accepted;
          decided_at = some fresh.now;
          decided_by = request.actor;
          materialised_knowledge_item_id = some v.knowledge_item_id;
          materialised_version = some v.version;
        } in
          let (decision, s') = accept broker events valid page_of id request fresh scope s in
          (decision ≡ decided_row final)
          × (find candidate_key id s'.candidates ≡ some final)
          × (s'.store.items ≡ wrote.1.items)
          × (s'.store.versions ≡ wrote.1.versions)
          × (s'.store.citations ≡ wrote.1.citations)
  unfolding accept accept_found after_accept_claim decided finalised update_dict
  accept_materialises id request fresh scope s {row} {v} u got open_ ok =
      let (found, _) = get_inv id scope s.candidates u got in
      rw (got, claim-won id accepted request.actor fresh.now s.candidates u found open_)
        (after_materialise-returned id request (decided accepted request.actor fresh.now row) scope
          _ _ (claim-Unique id accepted request.actor fresh.now s.candidates u found open_)
          (claim-found id accepted request.actor fresh.now s.candidates u found open_) ok)

  -- A reject of a proposed candidate marks it with the reason, and leaves the knowledge store alone but
  -- for its log.
  pub reject-verdict :
      (id : String) (request : RejectCandidateRequest) (now : ℕ) (scope : Scope) (s : Inbox)
      {row : CandidateRow}
      → Unique candidate_key s.candidates
      → get id scope.tenant_id scope.workspace_id s.candidates ≡ some row
      → is_proposed row.status ≡ true
      → let final = record row {
        status = rejected;
        decided_at = some now;
        decided_by = request.actor;
        metadata_json =
            update_dict row.metadata_json (("rejection_reason", text request.reason) ∷ []);
      } in
        let (decision, s') = reject broker events valid page_of id request now scope s in
        (decision ≡ decided_row final)
        × (find candidate_key id s'.candidates ≡ some final)
        × (s'.store.items ≡ s.store.items)
        × (s'.store.versions ≡ s.store.versions)
        × (s'.store.citations ≡ s.store.citations)
  unfolding reject reject_found after_reject_claim decided finalised
  reject-verdict id request now scope s {row} u got open_ =
      let (found, _) = get_inv id scope s.candidates u got in
      let (stored, kept) =
        finalise-rejected id ("rejection_reason", text request.reason)
          (claimed_rows id rejected request.actor now s.candidates u found open_)
          (claim-Unique id rejected request.actor now s.candidates u found open_)
          (claim-found id rejected request.actor now s.candidates u found open_) in
      rw (got, claim-won id rejected request.actor now s.candidates u found open_)
        (rw stored refl, kept, refl, refl, refl)
