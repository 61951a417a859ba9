-- ===== src/Chunker/Tests.antt =====
-- The chunker on small documents, and its theorems at them.
use flycanon.Prelude.{
  ℕ, ◌+◌, ◌≡◌, refl, Bool, ◌||◌, none, some, List, [], ◌∷◌, map, length, All, arith, ◌==◌,
}
use flycanon.Chunker.{
  Text, Section, Chunk, ParagraphChunker, slice, next_start, split_loop, split_by_chars, reseed,
  flush, pack_loop, place, number, section_path_of, char_budget_of, overlap_chars_of, paragraphs_of,
  pack_section, chunk_sections, chunk,
}
use flycanon.Chunker.Slices.{glue, FitsBudget, split_by_chars_covers}
use flycanon.Chunker.Termination.{split_loop_diverges}
use flycanon.Chunker.Layout.{IsNumbered, IsLaidOut, Label, label, labels, chunk-layout}

program : Unit {0}
unfolding slice next_start split_loop split_by_chars reseed flush pack_loop place number
    section_path_of char_budget_of overlap_chars_of paragraphs_of pack_section chunk_sections chunk
program = tt

-- Blanks and line ends.
abbrev is_space : ℕ → Bool
is_space c = c == 32 || c == 10

abbrev ten : Text
ten = 1 ∷ 2 ∷ 3 ∷ 4 ∷ 5 ∷ 6 ∷ 7 ∷ 8 ∷ 9 ∷ 11 ∷ []

split_ten :
    split_by_chars ten 4 1
    ≡ some ((1 ∷ 2 ∷ 3 ∷ 4 ∷ []) ∷ (4 ∷ 5 ∷ 6 ∷ 7 ∷ []) ∷ (7 ∷ 8 ∷ 9 ∷ 11 ∷ []) ∷ [])
unfolding program
split_ten = refl

abbrev two_paragraphs : Section
two_paragraphs = record {
  path = (65 ∷ []) ∷ [] ∷ (66 ∷ []) ∷ [];
  body = 32 ∷ 1 ∷ 2 ∷ 3 ∷ 10 ∷ 10 ∷ 10 ∷ 10 ∷ 4 ∷ 5 ∷ 6 ∷ 32 ∷ [];
  page = some 7;
}

pack_two :
    pack_section is_space two_paragraphs 5 2
    ≡ some ((1 ∷ 2 ∷ 3 ∷ []) ∷ (2 ∷ 3 ∷ 10 ∷ 10 ∷ 4 ∷ 5 ∷ 6 ∷ []) ∷ [])
unfolding program
pack_two = refl

abbrev settings : ParagraphChunker
settings = record { chunk_size_tokens = 2; overlap_tokens = 1 }

chunk_two :
    chunk is_space settings (two_paragraphs ∷ [])
    ≡ some (
        record {
          content = 1 ∷ 2 ∷ 3 ∷ 10 ∷ 10 ∷ 4 ∷ 5 ∷ 6 ∷ [];
          index_in_source = 0;
          total_chunks = 1;
          char_start = 0;
          char_end = 8;
          section_path = some (65 ∷ 32 ∷ 62 ∷ 32 ∷ 66 ∷ []);
          page = some 7;
        }
        ∷ [])
unfolding program
chunk_two = refl

split_by_chars_covers_example :
    (pieces : List Text) × (split_by_chars ten 4 1 ≡ some pieces)
    × All (FitsBudget 4) pieces
    × (glue 1 pieces ≡ ten)
split_by_chars_covers_example = split_by_chars_covers ten 4 1 (omega arith)

split_loop_diverges_example : split_loop 1000 ten 4 5 0 ≡ none
split_loop_diverges_example =
    split_loop_diverges 1000 ten 4 5 0 (omega arith) (omega arith) (omega arith)

chunk-layout_example :
    (cs : List Chunk) × (chunk is_space settings (two_paragraphs ∷ []) ≡ some cs)
    × IsNumbered 0 (length cs) cs
    × IsLaidOut 0 cs
    × (labels is_space (char_budget_of settings) (overlap_chars_of settings) (two_paragraphs ∷ [])
        ≡ some (map label cs))
    × All
        (λ (l : Label). FitsBudget (char_budget_of settings + overlap_chars_of settings + 2) l.2)
        (map label cs)
chunk-layout_example = chunk-layout is_space settings (two_paragraphs ∷ []) (omega arith)
