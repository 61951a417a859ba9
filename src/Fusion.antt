-- ===== src/Fusion.antt =====
-- core/services/retrieval/fusion.py. Scores are floats there: here a type with the arithmetic that the
-- code uses. What the corpus, the embedder and the vector store answer is an argument, none where the
-- call raises.
pub mod Scores
pub mod Sorting
pub mod Retrieval
pub mod Tests
use flycanon.Effects.{Payload}
use flycanon.Prelude.{
  ℕ, zero, suc, ◌+◌, String, str_eq, Bool, true, false, Option, none, some, List, [], ◌∷◌, ◌++◌,
  map, take, if◌then◌else◌,
}

pub record Arithmetic (S : Type 0) : Type 0 where
  pub nought : S
  pub plus : S → S → S
  pub reciprocal : ℕ → S
  pub less : S → S → Bool

pub record StoredChunk : Type 0 where
  pub chunk_id : String
  pub doc_id : String
  pub source_path : String
  pub index_in_doc : ℕ
  pub content : String
  pub metadata : Payload

pub record ChunkHit (S : Type 0) : Type 0 where
  pub chunk_id : String
  pub score : S
  pub content : String
  pub metadata : Payload
  pub source_path : String
  pub doc_id : String

-- dict.get
unfoldable pub lookup {ℓ} : {A : Type ℓ} → String → List (String × A) → Option A
lookup k [] = none
lookup k ((j, x) ∷ d) = if str_eq j k then some x else lookup k d

module _ {S : Type 0} (arithmetic : Arithmetic S) where
  -- scores[chunk_id] = scores.get(chunk_id, 0.0) + x, in a dict that keeps the order of insertion
  unfoldable pub credit : String → S → List (String × S) → List (String × S)
  credit chunk_id x [] = (chunk_id, arithmetic.plus arithmetic.nought x) ∷ []
  credit chunk_id x ((j, s) ∷ scores) =
      let rest = credit chunk_id x scores in
      if str_eq j chunk_id then (j, arithmetic.plus s x) ∷ scores else (j, s) ∷ rest

  unfoldable pub credit_ranking : ℕ → ℕ → List String → List (String × S) → List (String × S)
  credit_ranking k rank [] scores = scores
  credit_ranking k rank (chunk_id ∷ ranking) scores =
      credit_ranking k (suc rank) ranking
        (credit chunk_id (arithmetic.reciprocal (k + rank)) scores)

  unfoldable pub credit_all : ℕ → List (List String) → List (String × S) → List (String × S)
  credit_all k [] scores = scores
  credit_all k (ranking ∷ rankings) scores =
      credit_all k rankings (credit_ranking k 1 ranking scores)

  -- sorted(…, key=score, reverse=True) keeps the order of equal scores.
  unfoldable pub place_by_score : String × S → List (String × S) → List (String × S)
  place_by_score x [] = x ∷ []
  place_by_score x (y ∷ ys) =
      let rest = place_by_score x ys in if arithmetic.less x.1 y.1 then y ∷ rest else x ∷ y ∷ ys

  unfoldable pub sorted : List (String × S) → List (String × S)
  sorted [] = []
  sorted (x ∷ xs) = place_by_score x (sorted xs)

  unfoldable pub reciprocal_rank_fusion : ℕ → List (List String) → List (String × S)
  reciprocal_rank_fusion k rankings = sorted (credit_all k rankings [])

-- A query is its text and its route.
pub data Route : Type 0 where
  hybrid : Route
  vec_only : Route

pub record Query : Type 0 where
  pub text : String
  pub route : Route

pub record Backends : Type 0 where
  pub bm25_search : String → ℕ → Option (List String)
  pub vector_search : String → ℕ → Option (List String)
  pub get_chunks : List String → List StoredChunk

abbrev pub ranked : Option (List String) → List (List String)
ranked none = []
ranked (some ranking) = ranking ∷ []

module _ (backends : Backends) where
  abbrev bm25_ranking : Query → ℕ → List (List String)
  bm25_ranking q top_k = by_route q.route
    where
      by_route : Route → List (List String)
      by_route hybrid = ranked (backends.bm25_search q.text top_k)
      by_route vec_only = []

  unfoldable pub rankings_of : ℕ → List Query → List (List String)
  rankings_of top_k [] = []
  rankings_of top_k (q ∷ queries) =
      bm25_ranking q top_k
      ++ (ranked (backends.vector_search q.text top_k) ++ rankings_of top_k queries)

-- {c.chunk_id: c for c in stored}.get(chunk_id): the last one with the id
unfoldable pub stored_by_id : String → List StoredChunk → Option StoredChunk
stored_by_id chunk_id [] = none
stored_by_id chunk_id (c ∷ stored) = last_of (stored_by_id chunk_id stored)
  where
    last_of : Option StoredChunk → Option StoredChunk
    last_of (some later) = some later
    last_of none = if str_eq c.chunk_id chunk_id then some c else none

module _ {S : Type 0} where
  abbrev hit_of : StoredChunk → S → ChunkHit S
  hit_of chunk score = record {
    chunk_id = chunk.chunk_id;
    score = score;
    content = chunk.content;
    metadata = chunk.metadata;
    source_path = chunk.source_path;
    doc_id = chunk.doc_id;
  }

  abbrev add_hit :
      Option StoredChunk → Option S → Option (List (ChunkHit S)) → Option (List (ChunkHit S))
  add_hit none score rest = rest
  add_hit (some chunk) none rest = none
  add_hit (some chunk) (some score) none = none
  add_hit (some chunk) (some score) (some found) = some (hit_of chunk score ∷ found)

  -- The hits for the ids, none where an id has no score (a KeyError).
  unfoldable pub hits :
      List (String × S) → List StoredChunk → List String → Option (List (ChunkHit S))
  hits score_by_id stored [] = some []
  hits score_by_id stored (chunk_id ∷ ids) =
      let rest = hits score_by_id stored ids in
      add_hit (stored_by_id chunk_id stored) (lookup chunk_id score_by_id) rest

  -- The early returns, on no query or no ranking, give what the rest would give.
  unfoldable pub retrieve :
      Backends → Arithmetic S → ℕ → List Query → ℕ → ℕ → Option (List (ChunkHit S))
  retrieve backends arithmetic rrf_k queries top_k_per_query top_k_final =
      let fused =
        take top_k_final (
          reciprocal_rank_fusion arithmetic rrf_k (rankings_of backends top_k_per_query queries)) in
      let top_ids = map (λ x. x.0) fused in hits fused (backends.get_chunks top_ids) top_ids
