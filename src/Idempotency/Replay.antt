-- ===== src/Idempotency/Replay.antt =====
-- A recorded response is replayed.
use flycanon.Prelude.{
  ℕ, suc, ◌+◌, ◌≤◌, ◌<◌, ◌≡◌, refl, subst, String, str_eq, eq_iff, eq_refl, Bool, true, false, some,
  List, [], ◌∷◌, length, leb, arith, Bool-cases, inl, inr,
}
use flycanon.Prelude.Actions.{ok}
use flycanon.Idempotency.{
  ttl, is_key, IdempotencyEntry, InMemoryIdempotencyStore, is_replay, lookup_entry, assign,
  enforce_cap, lookup, replay_entry, record_key, record_response,
}

-- No key is empty.
not_empty : (key : String) → is_key key ≡ true → str_eq key "" ≡ false
not_empty key valid = elim (Bool-cases (str_eq key "")) [
  | inr other ↦ other
  | inl same ↦ absurd (no_empty_key (subst (λ k. is_key k ≡ true) ((eq_iff key "").0 same) valid))
]
  where
    no_empty_key : is_key "" ≡ true → ⊥
    no_empty_key h = unfold is_key in cc h

module _ {B : Type 0} where
  enforce_cap-room :
      (max_entries : ℕ) (es : List (IdempotencyEntry B))
      → 0 < max_entries
      → (es' : List (IdempotencyEntry B)) × (enforce_cap max_entries es ≡ some es')
        × (length es' < max_entries)
  unfolding enforce_cap
  enforce_cap-room max_entries [] room =
      let some_room : leb max_entries 0 ≡ false = ground (arith, room) in
      ([], rw some_room refl, omega (arith, room))
  enforce_cap-room max_entries (e ∷ es) room =
      elim (Bool-cases (leb max_entries (length (e ∷ es)))) [
        | inl full ↦
            let (es', same, few) = enforce_cap-room max_entries es room in (es', rw full same, few)
        | inr fits ↦ (e ∷ es, rw fits refl, ground (arith, fits))
      ]

  lookup_entry-assign :
      (p : IdempotencyEntry B → Bool) (entry : IdempotencyEntry B) (es : List (IdempotencyEntry B))
      → p entry ≡ true
      → lookup_entry p (assign p entry es) ≡ some entry
  unfolding lookup_entry assign
  lookup_entry-assign p entry [] h = rw h refl
  lookup_entry-assign p entry (e ∷ es) h = elim (Bool-cases (p e)) [
    | inl here ↦ rw here (rw h refl)
    | inr other ↦ rw other (rw other (lookup_entry-assign p entry es h))
  ]

  length-assign :
      (p : IdempotencyEntry B → Bool) (entry : IdempotencyEntry B) (es : List (IdempotencyEntry B))
      → length (assign p entry es) ≤ suc (length es)
  unfolding assign
  length-assign p entry [] = omega arith
  length-assign p entry (e ∷ es) = ground (arith, length-assign p entry es)

  -- A store whose cap is not zero takes a response under a valid key, holds no more entries than its
  -- cap, and gives the response to a lookup that directly follows, with no write between, before its
  -- 24 hours are over.
  pub lookup-record_response :
      (tenant_id route key : String) (status : ℕ) (json_body : B) (now now' : ℕ)
      (store : InMemoryIdempotencyStore B)
      → is_key key ≡ true
      → 0 < store.max_entries
      → now' < now + ttl
      → let (outcome, store') = record_response tenant_id route key status json_body now store in
        (outcome ≡ ok tt)
        × (lookup tenant_id route key now' store'
            ≡ some (record { status = status; body = json_body }))
        × (length store'.replays ≤ store.max_entries)
  unfolding record_response record_key lookup
  lookup-record_response tenant_id route key status json_body now now' store valid room fresh =
      let (es, capped, few) = enforce_cap-room store.max_entries store.replays room in
      let p = is_replay tenant_id route key in
      let entry : IdempotencyEntry B = replay_entry tenant_id route key status json_body now in
      let own : p entry ≡ true = rw (eq_refl tenant_id, eq_refl route, eq_refl key) refl in
      let there = lookup_entry-assign p entry es own in
      let alive : leb (now + ttl) now' ≡ false = ground (arith, fresh) in
      rw (not_empty key valid, valid, capped)
        (refl, rw (there, alive) refl, omega (arith, few, length-assign p entry es))
