-- ===== src/Chunker/Layout.antt =====
-- `chunk`: the numbering, the character ranges and the sections of what it returns.
use flycanon.Prelude.{
  ℕ, suc, ◌+◌, ◌<◌, ◌≡◌, refl, ap, Option, some, List, [], ◌∷◌, ◌++◌, map, length, All, All-append,
  Bool, arith,
}
use flycanon.Chunker.{
  Text, Section, Chunk, ParagraphChunker, place, number, section_path_of, char_budget_of,
  overlap_chars_of, pack_section, chunk_sections, chunk,
}
use flycanon.Chunker.Strings.{◌>>=◌}
use flycanon.Chunker.Slices.{FitsBudget}
use flycanon.Chunker.Pack.{pack_section-FitsBudget}

-- Each chunk has its position and the number of all of them.
abbrev pub IsNumbered : ℕ → ℕ → List Chunk → Type 0
IsNumbered idx total [] = Unit
IsNumbered idx total (c ∷ cs) =
    (c.index_in_source ≡ idx) × (c.total_chunks ≡ total) × IsNumbered (idx + 1) total cs

-- The ranges are as long as the contents, and one character apart.
abbrev pub IsLaidOut : ℕ → List Chunk → Type 0
IsLaidOut offset [] = Unit
IsLaidOut offset (c ∷ cs) =
    (c.char_start ≡ offset)
    × (c.char_end ≡ offset + length c.content)
    × IsLaidOut (c.char_end + 1) cs

-- What a chunk says of its section, and its content.
abbrev pub Label : Type 0
Label = Option Text × Option ℕ × Text

abbrev pub label : Chunk → Label
label c = (c.section_path, c.page, c.content)

-- The pieces of each section in turn, under that section's path and page.
abbrev pub labels : (ℕ → Bool) → ℕ → ℕ → List Section → Option (List Label)
labels is_space char_budget overlap [] = some []
labels is_space char_budget overlap (s ∷ ss) = do
  pieces ← pack_section is_space s char_budget overlap
  rest ← labels is_space char_budget overlap ss
  some (map (λ p. (section_path_of s, s.page, p)) pieces ++ rest)

number-IsNumbered : (idx total : ℕ) (cs : List Chunk) → IsNumbered idx total (number idx total cs)
unfolding number
number-IsNumbered idx total [] = tt
number-IsNumbered idx total (c ∷ cs) = (refl, refl, number-IsNumbered (idx + 1) total cs)

number-IsLaidOut :
    (idx total offset : ℕ) (cs : List Chunk)
    → IsLaidOut offset cs
    → IsLaidOut offset (number idx total cs)
unfolding number
number-IsLaidOut idx total offset [] h = tt
number-IsLaidOut idx total offset (c ∷ cs) h =
    (h.0, h.1, number-IsLaidOut (idx + 1) total (c.char_end + 1) cs h.2)

length-number : (idx total : ℕ) (cs : List Chunk) → length (number idx total cs) ≡ length cs
unfolding number
length-number idx total [] = refl
length-number idx total (c ∷ cs) = ap suc (length-number (idx + 1) total cs)

map-number : (idx total : ℕ) (cs : List Chunk) → map label (number idx total cs) ≡ map label cs
unfolding number
map-number idx total [] = refl
map-number idx total (c ∷ cs) = ap (◌∷◌ (label c)) (map-number (idx + 1) total cs)

-- The offset behind the chunks.
abbrev last_offset : ℕ → List Chunk → ℕ
last_offset offset [] = offset
last_offset offset (c ∷ cs) = last_offset (c.char_end + 1) cs

IsLaidOut-append :
    (offset : ℕ) (cs ds : List Chunk)
    → IsLaidOut offset cs
    → IsLaidOut (last_offset offset cs) ds
    → IsLaidOut offset (cs ++ ds)
IsLaidOut-append offset [] ds h k = k
IsLaidOut-append offset (c ∷ cs) ds h k = (h.0, h.1, IsLaidOut-append (c.char_end + 1) cs ds h.2 k)

module _ (path : Option Text) (page : Option ℕ) where
  place-IsLaidOut :
      (offset : ℕ) (pieces : List Text) → IsLaidOut offset (place path page offset pieces).0
  unfolding place
  place-IsLaidOut offset [] = tt
  place-IsLaidOut offset (p ∷ ps) = (refl, refl, place-IsLaidOut (offset + length p + 1) ps)

  place-last_offset :
      (offset : ℕ) (pieces : List Text)
      → last_offset offset (place path page offset pieces).0 ≡ (place path page offset pieces).1
  unfolding place
  place-last_offset offset [] = refl
  place-last_offset offset (p ∷ ps) = place-last_offset (offset + length p + 1) ps

  map-place :
      (offset : ℕ) (pieces : List Text)
      → map label (place path page offset pieces).0 ≡ map (λ p. (path, page, p)) pieces
  unfolding place
  map-place offset [] = refl
  map-place offset (p ∷ ps) = ap (◌∷◌ (path, page, p)) (map-place (offset + length p + 1) ps)

map_append {ℓ κ} :
    {A : Type ℓ} {B : Type κ} (f : A → B) (xs ys : List A) → map f (xs ++ ys) ≡ map f xs ++ map f ys
map_append f [] ys = refl
map_append f (x ∷ xs) ys = ap (◌∷◌ (f x)) (map_append f xs ys)

module _ (is_space : ℕ → Bool) (char_budget overlap : ℕ) (room : overlap < char_budget) where
  abbrev LabelFits : Label → Type 0
  LabelFits l = FitsBudget (char_budget + overlap + 2) l.2

  abbrev Sections : List Section → ℕ → Type 0
  Sections ss offset =
      (cs : List Chunk) × (chunk_sections is_space char_budget overlap ss offset ≡ some cs)
      × IsLaidOut offset cs
      × (labels is_space char_budget overlap ss ≡ some (map label cs))
      × All LabelFits (map label cs)

  All-labels :
      (path : Option Text) (page : Option ℕ) (pieces : List Text)
      → All (FitsBudget (char_budget + overlap + 2)) pieces
      → All LabelFits (map (λ p. (path, page, p)) pieces)
  All-labels path page [] h = tt
  All-labels path page (p ∷ ps) h = (h.0, All-labels path page ps h.1)

  sections_lem : (ss : List Section) (offset : ℕ) → Sections ss offset
  unfolding chunk_sections
  sections_lem [] offset = ([], refl, tt, refl, tt)
  sections_lem (s ∷ ss) offset =
      let (pieces, packs, fit) = pack_section-FitsBudget is_space s char_budget overlap room in
      let path = section_path_of s in
      let cs = (place path s.page offset pieces).0 in
      let last = (place path s.page offset pieces).1 in
      let (rest, runs, laid, labelled, fits) = sections_lem ss last in
      let joined = map_append label cs rest in
      let own = map-place path s.page offset pieces in
      (
        cs ++ rest,
        rw (packs, runs),
        IsLaidOut-append offset cs rest (place-IsLaidOut path s.page offset pieces)
            (rw (place-last_offset path s.page offset pieces) laid),
        rw (packs, labelled, joined, own),
        rw (joined, own)
            (All-append LabelFits (map (λ p. (path, s.page, p)) pieces) (map label rest)
              (All-labels path s.page pieces fit) fits),
      )

budgets_lem :
    (chunker : ParagraphChunker)
    → chunker.overlap_tokens < chunker.chunk_size_tokens
    → overlap_chars_of chunker < char_budget_of chunker
unfolding overlap_chars_of char_budget_of
budgets_lem chunker h = omega arith

-- With an overlap setting below the chunk size, `chunk` returns chunks that are numbered from 0 with
-- their total, whose ranges start at 0 and follow one another, that carry the pieces of each section in
-- turn under its path and page, and of which none is empty or passes the budget by more than the
-- overlap and a blank line.
pub chunk-layout :
    (is_space : ℕ → Bool) (chunker : ParagraphChunker) (sections : List Section)
    → chunker.overlap_tokens < chunker.chunk_size_tokens
    → (cs : List Chunk) × (chunk is_space chunker sections ≡ some cs)
      × IsNumbered 0 (length cs) cs
      × IsLaidOut 0 cs
      × (labels is_space (char_budget_of chunker) (overlap_chars_of chunker) sections
          ≡ some (map label cs))
      × All
          (λ (l : Label). FitsBudget (char_budget_of chunker + overlap_chars_of chunker + 2) l.2)
          (map label cs)
chunk-layout is_space chunker sections h =
    let b = char_budget_of chunker in
    let o = overlap_chars_of chunker in
    let (cs, runs, laid, labelled, fits) =
      sections_lem is_space b o (budgets_lem chunker h) sections 0 in
    let n = length cs in
    let same = map-number 0 n cs in
    (
      number 0 n cs,
      unfold chunk in rw runs,
      rw (length-number 0 n cs) (number-IsNumbered 0 n cs),
      number-IsLaidOut 0 n 0 cs laid,
      rw same labelled,
      rw same fits,
    )
