-- ===== src/Fusion/Tests.antt =====
-- Two rankings of three chunks, with a score as a number of 840ths; the theorems at them.
use flycanon.Prelude.{
  ℕ, ◌+◌, ◌/◌, ◌≡◌, refl, String, true, false, none, some, List, [], ◌∷◌, arith, ltb,
}
use flycanon.Table.{Unique}
use flycanon.Fusion.{
  Arithmetic, StoredChunk, ChunkHit, hybrid, vec_only, Query, Backends, lookup, credit,
  credit_ranking, credit_all, place_by_score, sorted, reciprocal_rank_fusion, rankings_of,
  stored_by_id, hits, retrieve,
}
use flycanon.Fusion.Scores.{id_of, score_of}
use flycanon.Fusion.Sorting.{Descending, fusion-sums}

abbrev numbers : Arithmetic ℕ
numbers = record { nought = 0; plus = λ a b. a + b; reciprocal = λ n. 840 / n; less = ltb }

abbrev rankings : List (List String)
rankings = ("a" ∷ "b" ∷ []) ∷ ("b" ∷ "c" ∷ "a" ∷ []) ∷ []

fused : reciprocal_rank_fusion numbers 1 rankings ≡ ("b", 700) ∷ ("a", 630) ∷ ("c", 280) ∷ []
unfolding reciprocal_rank_fusion sorted place_by_score credit_all credit_ranking credit
fused = refl

less_asymmetric : (a b : ℕ) → ltb a b ≡ true → ltb b a ≡ false
less_asymmetric a b h = ground (arith, h)

fusion-sums_example :
    (lookup "a" (reciprocal_rank_fusion numbers 1 rankings) ≡ score_of numbers 1 "a" rankings none)
    × Unique id_of (reciprocal_rank_fusion numbers 1 rankings)
    × Descending numbers (reciprocal_rank_fusion numbers 1 rankings)
fusion-sums_example = fusion-sums numbers 1 rankings "a" less_asymmetric

abbrev chunk : String → StoredChunk
chunk id = record {
  chunk_id = id;
  doc_id = "d";
  source_path = "p";
  index_in_doc = 0;
  content = "text";
  metadata = [];
}

abbrev hit : String → ℕ → ChunkHit ℕ
hit id score = record {
  chunk_id = id;
  score = score;
  content = "text";
  metadata = [];
  source_path = "p";
  doc_id = "d";
}

-- The full-text search fails for the second query; chunk "c" is stored no more.
abbrev backends : Backends
backends = record {
  bm25_search = λ text top_k. none;
  vector_search = λ text top_k. some ("a" ∷ "c" ∷ "b" ∷ []);
  get_chunks = λ ids. chunk "b" ∷ chunk "a" ∷ [];
}

abbrev queries : List Query
queries = record { text = "q"; route = hybrid } ∷ record { text = "h"; route = vec_only } ∷ []

found : retrieve backends numbers 1 queries 30 10 ≡ some (hit "a" 840 ∷ hit "b" 420 ∷ [])
unfolding retrieve rankings_of reciprocal_rank_fusion sorted place_by_score credit_all
    credit_ranking credit hits stored_by_id lookup
found = refl
