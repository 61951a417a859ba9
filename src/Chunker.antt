-- ===== src/Chunker.antt =====
-- core/services/ingestion/chunker.py: `ParagraphChunker`. A text is the list of its code points.
-- `tokens_per_char` has its default, 0.25, which the factory never overrides, so a token is four
-- characters.
mod Strings
pub mod Slices
pub mod Termination
pub mod Pack
pub mod Layout
pub mod Tests
use flycanon.Prelude.{
  ℕ, zero, suc, ◌+◌, ◌-◌, ◌*◌, min, max, Bool, true, false, ◌&&◌, Option, none, some, List, [], ◌∷◌,
  ◌++◌, map, length, take, drop, filter, ltb, ◌==◌, if◌then◌else◌,
}
use Strings.{join, strip, split_blank, is_empty, not_empty, last_or_nil, suffix, ◌>>=◌}
pub use Strings.{Text, separator}

pub record Section : Type 0 where
  pub path : List Text
  pub body : Text
  pub page : Option ℕ

pub record Chunk : Type 0 where
  pub content : Text
  pub index_in_source : ℕ
  pub total_chunks : ℕ
  pub char_start : ℕ
  pub char_end : ℕ
  pub section_path : Option Text
  pub page : Option ℕ

pub record ParagraphChunker : Type 0 where
  pub chunk_size_tokens : ℕ
  pub overlap_tokens : ℕ

-- text[i:end]
pub slice : Text → ℕ → ℕ → Text
slice text i end = take (end - i) (drop i text)

-- i = max(0, end - overlap_chars), and the defensive test after it
pub next_start : ℕ → ℕ → ℕ
next_start end overlap_chars = let i = end - overlap_chars in if i == 0 then end else i

-- The `while` of `_split_by_chars`; `none` means that the fuel ran out.
pub split_loop : ℕ → Text → ℕ → ℕ → ℕ → Option (List Text)
unfolding slice next_start
split_loop zero text char_budget overlap_chars i = none
split_loop (suc fuel) text char_budget overlap_chars i =
    let end = min (length text) (i + char_budget) in
    let rest = split_loop fuel text char_budget overlap_chars (next_start end overlap_chars) in
    let piece = slice text i end in
    if ltb i (length text)
    then if end == length text then some (piece ∷ []) else (do ps ← rest; some (piece ∷ ps))
    else some []

-- The empty text leaves the loop at once, so the source's early `return` adds nothing to it.
pub split_by_chars : Text → ℕ → ℕ → Option (List Text)
split_by_chars text char_budget overlap_chars =
    split_loop (suc (length text)) text char_budget overlap_chars 0

-- The buffer that the overflow branch seeds for the next chunk, and its length.
pub reseed : List Text → Text → ℕ → List Text × ℕ
reseed buf paragraph overlap_chars =
    let seed = suffix overlap_chars (last_or_nil buf) in
    if ltb 0 overlap_chars && ltb overlap_chars (length (last_or_nil buf))
    then (seed ∷ paragraph ∷ [], length seed + length paragraph + 2)
    else (paragraph ∷ [], length paragraph)

-- `yield "\n\n".join(buf)` under `if buf`
pub flush : List Text → List Text
flush [] = []
flush (p ∷ buf) = join separator (p ∷ buf) ∷ []

pub pack_loop : ℕ → ℕ → List Text → List Text → ℕ → Option (List Text)
pack_loop char_budget overlap_chars [] buf buf_len = some (flush buf)
pack_loop char_budget overlap_chars (paragraph ∷ paragraphs) buf buf_len =
    let n = length paragraph in
    let fresh = pack_loop char_budget overlap_chars paragraphs [] 0 in
    let seeded = reseed buf paragraph overlap_chars in
    let next = pack_loop char_budget overlap_chars paragraphs seeded.0 seeded.1 in
    let same =
      pack_loop char_budget overlap_chars paragraphs (buf ++ paragraph ∷ [])
        (buf_len + (n + (if buf_len == 0 then 0 else 2))) in
    if ltb char_budget n
    then (do
      pieces ← split_by_chars paragraph char_budget overlap_chars
      rest ← fresh
      some (flush buf ++ (pieces ++ rest)))
    else if ltb char_budget (buf_len + n + 2) && not_empty buf
    then (do rest ← next; some (join separator buf ∷ rest))
    else same

-- The chunks of one section from a character offset, and the offset behind them.
pub place : Option Text → Option ℕ → ℕ → List Text → List Chunk × ℕ
place section_path page offset [] = ([], offset)
place section_path page offset (piece ∷ pieces) =
    let end = offset + length piece in
    let (chunks, last) = place section_path page (end + 1) pieces in
    (
      record {
        content = piece;
        index_in_source = 0;
        total_chunks = 1;
        char_start = offset;
        char_end = end;
        section_path = section_path;
        page = page;
      }
          ∷ chunks,
      last,
    )

-- The loop that sets `index_in_source` and `total_chunks`.
pub number : ℕ → ℕ → List Chunk → List Chunk
number idx total [] = []
number idx total (chunk ∷ chunks) =
    record chunk { index_in_source = idx; total_chunks = total } ∷ number (idx + 1) total chunks

-- " > ".join(p for p in section.path if p) or None
pub section_path_of : Section → Option Text
section_path_of section =
    let path = join (b' ' ∷ b'>' ∷ b' ' ∷ []) (filter not_empty section.path) in
    if is_empty path then none else some path

-- max(1, int(chunk_size_tokens / tokens_per_char))
pub char_budget_of : ParagraphChunker → ℕ
char_budget_of chunker = max 1 (chunker.chunk_size_tokens * 4)

pub overlap_chars_of : ParagraphChunker → ℕ
overlap_chars_of chunker = chunker.overlap_tokens * 4

-- Python's `str.isspace` on one code point
module _ (is_space : ℕ → Bool) where
  pub paragraphs_of : Text → List Text
  paragraphs_of body = filter not_empty (map (strip is_space) (split_blank body))

  -- A body with no paragraph is blank, and its strip has no character to slice.
  pub pack_section : Section → ℕ → ℕ → Option (List Text)
  pack_section section char_budget overlap_chars =
      let paragraphs = paragraphs_of section.body in
      if is_empty paragraphs
      then (do
        pieces ← split_by_chars (strip is_space section.body) char_budget overlap_chars
        some (filter not_empty pieces))
      else pack_loop char_budget overlap_chars paragraphs [] 0

  pub chunk_sections : ℕ → ℕ → List Section → ℕ → Option (List Chunk)
  chunk_sections char_budget overlap_chars [] offset = some []
  chunk_sections char_budget overlap_chars (section ∷ sections) offset =
      pack_section section char_budget overlap_chars >>= λ pieces.
      let (chunks, last) = place (section_path_of section) section.page offset pieces in
      chunk_sections char_budget overlap_chars sections last >>= λ rest. some (chunks ++ rest)

  pub chunk : ParagraphChunker → List Section → Option (List Chunk)
  chunk chunker sections = do
    chunks ← chunk_sections (char_budget_of chunker) (overlap_chars_of chunker) sections 0
    some (number 0 (length chunks) chunks)
