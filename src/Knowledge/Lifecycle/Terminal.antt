-- ===== src/Knowledge/Lifecycle/Terminal.antt =====
-- Requests that run one after the other, each to its end.
use flycanon.Prelude.{
  ℕ, String, ◌≡◌, refl, sym, subst, ap, ◌∙◌, Bool, true, false, Option, none, some, arith,
}
use flycanon.Effects.{Broker}
use flycanon.Table.{find, Unique, find-update_miss, Unique-update_where, claim_row}
use flycanon.Knowledge.{
  KnowledgeStatus, KnowledgeItemRow, Items, References, item_key, is_open, is_retired, not_retired,
  transition, claim_status_transition,
}
use flycanon.Knowledge.Requests.{
  CreateKnowledgeRequest, UpdateKnowledgeRequest, SupersedeKnowledgeRequest, RetireKnowledgeRequest,
  KnowledgeError, Reply, State, Scope, KnowledgeEvents,
}
use flycanon.Knowledge.Service.{create, update}
use flycanon.Knowledge.Service.Kept.{create-keeps, update-keeps, Unique-create, Unique-update}
use flycanon.Knowledge.Lifecycle.{
  supersede, retire, guarded, claim_supersede, claim_retire, after_supersede, after_retire,
}

module _ (broker : Broker) (events : KnowledgeEvents) (valid : References) where
  -- One request, with any arguments; the id that uuid4 gives to a new item is not in use.
  pub data Step (s : State) : State → Type 0 where
    created :
        (request : CreateKnowledgeRequest) (item_id version_id : String)
        (candidate_id : Option String) (scope : Scope) (db_now : ℕ)
        → find item_key item_id s.items ≡ none
        → Step s
            (create broker events valid request item_id version_id candidate_id scope db_now s).1
    updated :
        (request : UpdateKnowledgeRequest) (item_id version_id : String)
        (candidate_id : Option String) (scope : Scope) (now : ℕ)
        → Step s (update broker events valid item_id request version_id candidate_id scope now s).1
    superseded_ :
        (request : SupersedeKnowledgeRequest) (item_id : String) (scope : Scope) (db_now : ℕ)
        → Step s (supersede broker events item_id request scope db_now s).1
    retired_ :
        (request : RetireKnowledgeRequest) (item_id : String) (scope : Scope) (db_now : ℕ)
        → Step s (retire broker events item_id request scope db_now s).1

  pub data Steps (s : State) : State → Type 0 where
    done : Steps s s
    then_step : {s' s'' : State} → Steps s s' → Step s' s'' → Steps s s''

items-supersede :
    (broker : Broker) (events : KnowledgeEvents) (item_id : String)
    (request : SupersedeKnowledgeRequest) (scope : Scope) (s : State)
    (o : Option KnowledgeItemRow × Items)
    → (after_supersede broker events item_id request scope s o).1.items ≡ o.1
unfolding after_supersede
items-supersede broker events item_id request scope s (none, items) = refl
items-supersede broker events item_id request scope s (some r, items) = refl

items-retire :
    (broker : Broker) (events : KnowledgeEvents) (item_id : String)
    (request : RetireKnowledgeRequest) (scope : Scope) (s : State)
    (o : Option KnowledgeItemRow × Items)
    → (after_retire broker events item_id request scope s o).1.items ≡ o.1
unfolding after_retire
items-retire broker events item_id request scope s (none, items) = refl
items-retire broker events item_id request scope s (some r, items) = refl

module _ {κ} (broker : Broker) (events : KnowledgeEvents) (P : Items → Type κ) (s : State)
    (before : P s.items) where
  guarded-keeps :
      (refusal : Option KnowledgeError) (next : Reply KnowledgeItemRow × State)
      → P next.1.items
      → P (guarded broker events refusal s next).1.items
  unfolding guarded
  guarded-keeps none next h = h
  guarded-keeps (some e) next h = before

-- A conditional UPDATE of another row, or of none, keeps a retired row.
claim-keeps :
    (k item_id : String) (from_statuses : KnowledgeStatus → Bool) (to_status : KnowledgeStatus)
    (by reason : Option String) (mark : Bool) (db_now : ℕ) (items : Items) {r : KnowledgeItemRow}
    → find item_key k items ≡ some r
    → from_statuses r.status ≡ false
    → find item_key k
        (claim_status_transition item_id from_statuses to_status by reason mark db_now items).1
      ≡ some r
unfolding claim_status_transition claim_row
claim-keeps k item_id from_statuses to_status by reason mark db_now items found fails =
    find-update_miss item_key k _ (transition to_status by reason mark db_now) items
      (λ r. unfold transition in refl) found (ground arith)

Unique-claim :
    (item_id : String) (from_statuses : KnowledgeStatus → Bool) (to_status : KnowledgeStatus)
    (by reason : Option String) (mark : Bool) (db_now : ℕ) (items : Items)
    → Unique item_key items
    → Unique item_key
        (claim_status_transition item_id from_statuses to_status by reason mark db_now items).1
unfolding claim_status_transition claim_row
Unique-claim item_id from_statuses to_status by reason mark db_now items u =
    Unique-update_where item_key _ (transition to_status by reason mark db_now) items
      (λ r. unfold transition in refl) u

module _ (broker : Broker) (events : KnowledgeEvents) (valid : References) where
  Step-Unique :
      {s s' : State}
      → Step broker events valid s s'
      → Unique item_key s.items
      → Unique item_key s'.items
  unfolding supersede retire claim_supersede claim_retire
  Step-Unique {s} (created request item_id version_id candidate_id scope db_now fresh) u =
      Unique-create broker events valid s u request item_id version_id candidate_id scope db_now
  Step-Unique {s} (updated request item_id version_id candidate_id scope now) u =
      Unique-update broker events valid s u request item_id version_id candidate_id scope now
  Step-Unique {s} (superseded_ request item_id scope db_now) u =
      guarded-keeps broker events (Unique item_key) s u _ _ (
        subst (Unique item_key) (sym (items-supersede broker events item_id request scope s _))
          (Unique-claim item_id is_open _ _ _ false db_now s.items u))
  Step-Unique {s} (retired_ request item_id scope db_now) u =
      guarded-keeps broker events (Unique item_key) s u _ _ (
        subst (Unique item_key) (sym (items-retire broker events item_id request scope s _))
          (Unique-claim item_id not_retired _ _ _ true db_now s.items u))

  Step-keeps :
      {s s' : State} (k : String) {r : KnowledgeItemRow}
      → Step broker events valid s s'
      → Unique item_key s.items
      → find item_key k s.items ≡ some r
      → is_retired r.status ≡ true
      → find item_key k s'.items ≡ some r
  unfolding supersede retire claim_supersede claim_retire
  Step-keeps {s} k (created request item_id version_id candidate_id scope db_now fresh) u found
        gone =
      create-keeps broker events valid k s u found request item_id version_id candidate_id scope
        db_now fresh
  Step-keeps {s} k (updated request item_id version_id candidate_id scope now) u found gone =
      update-keeps broker events valid k s u found request item_id version_id candidate_id scope now
        gone
  Step-keeps {s} k {r} (superseded_ request item_id scope db_now) u found gone =
      guarded-keeps broker events (λ items. find item_key k items ≡ some r) s found _ _
        (ap (find item_key k) (items-supersede broker events item_id request scope s _)
          ∙ claim-keeps k item_id is_open _ _ _ false db_now s.items found (ground arith))
  Step-keeps {s} k {r} (retired_ request item_id scope db_now) u found gone =
      guarded-keeps broker events (λ items. find item_key k items ≡ some r) s found _ _
        (ap (find item_key k) (items-retire broker events item_id request scope s _)
          ∙ claim-keeps k item_id not_retired _ _ _ true db_now s.items found (ground arith))

  -- Requests that do not interleave keep the ids of the items distinct, and a retired item as it is:
  -- nothing brings it back.
  pub retired-stays :
      {s s' : State} (k : String) {r : KnowledgeItemRow}
      → Steps broker events valid s s'
      → Unique item_key s.items
      → find item_key k s.items ≡ some r
      → is_retired r.status ≡ true
      → Unique item_key s'.items × (find item_key k s'.items ≡ some r)
  retired-stays k done u found gone = (u, found)
  retired-stays k (then_step steps step) u found gone =
      let (u', found') = retired-stays k steps u found gone in
      (Step-Unique step u', Step-keeps k step u' found' gone)
