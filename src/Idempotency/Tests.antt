-- ===== src/Idempotency/Tests.antt =====
-- A store of two entries, and the theorem at it.
use flycanon.Prelude.{◌≤◌, ◌≡◌, refl, String, true, none, some, [], ◌∷◌, length, arith}
use flycanon.Prelude.Actions.{ok, err}
use flycanon.Idempotency.{
  is_key, invalid_key, stop_iteration, InMemoryIdempotencyStore, lookup_entry, assign, enforce_cap,
  replay_entry, record_key, record_response, lookup,
}
use flycanon.Idempotency.Replay.{lookup-record_response}

abbrev full_store : InMemoryIdempotencyStore String
full_store = record {
  max_entries = 2;
  entries = [];
  replays =
      replay_entry "t" "/sources" "k1" 201 "first" 0
      ∷ replay_entry "t" "/sources" "k2" 201 "second" 0
      ∷ [];
}

-- A third response puts out the first.
put_out :
    lookup "t" "/sources" "k1" 1 (record_response "t" "/sources" "k3" 200 "third" 1 full_store).1
    ≡ none
unfolding record_response record_key is_key enforce_cap assign lookup lookup_entry
put_out = refl

bad_key : (record_response "t" "/sources" "k 1" 200 "x" 1 full_store).0 ≡ err (invalid_key "k 1")
unfolding record_response record_key is_key
bad_key = refl

no_room :
    (record_response {B = String} "t" "/sources" "k1" 200 "x" 1
      (record { max_entries = 0; entries = []; replays = [] })).0
    ≡ err stop_iteration
unfolding record_response record_key is_key enforce_cap
no_room = refl

k3_valid : is_key "k3" ≡ true
unfolding is_key
k3_valid = refl

lookup-record_response_example :
    let (outcome, store') = record_response "t" "/sources" "k3" 200 "third" 1 full_store in
    (outcome ≡ ok tt)
    × (lookup "t" "/sources" "k3" 86400000000 store'
        ≡ some (record { status = 200; body = "third" }))
    × (length store'.replays ≤ 2)
lookup-record_response_example =
    lookup-record_response "t" "/sources" "k3" 200 "third" 1 86400000000 full_store k3_valid
      (omega arith) (omega arith)
