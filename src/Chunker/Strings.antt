-- ===== src/Chunker/Strings.antt =====
-- The string methods that the chunker calls: `join`, `strip`, `split("\n\n")`, slices from the end.
use flycanon.Prelude.{
  ℕ, ◌-◌, Bool, true, false, ◌&&◌, Option, none, some, List, [], ◌∷◌, ◌++◌, length, drop, ◌==◌,
  if◌then◌else◌,
}
use mathlib.Core.List.{reverse}

abbrev pub Text : Type 0
Text = List ℕ

-- "\n\n"
abbrev pub separator : Text
separator = 10 ∷ 10 ∷ []

infixl 5 ◌>>=◌
abbrev pub ◌>>=◌ {ℓ κ} : {A : Type ℓ} {B : Type κ} → Option A → (A → Option B) → Option B
none >>= f = none
some a >>= f = f a

abbrev pub is_empty {ℓ} : {A : Type ℓ} → List A → Bool
is_empty [] = true
is_empty (x ∷ xs) = false

abbrev pub not_empty {ℓ} : {A : Type ℓ} → List A → Bool
not_empty [] = false
not_empty (x ∷ xs) = true

-- sep.join(parts)
abbrev pub join : Text → List Text → Text
join sep [] = []
join sep (p ∷ []) = p
join sep (p ∷ q ∷ ps) = p ++ (sep ++ join sep (q ∷ ps))

-- buf[-1] of a buffer that is not empty
abbrev pub last_or_nil : List Text → Text
last_or_nil [] = []
last_or_nil (p ∷ []) = p
last_or_nil (p ∷ q ∷ ps) = last_or_nil (q ∷ ps)

-- text[-k:] for 0 < k
abbrev pub suffix : ℕ → Text → Text
suffix k text = drop (length text - k) text

abbrev lstrip : (ℕ → Bool) → Text → Text
lstrip is_space [] = []
lstrip is_space (c ∷ text) =
    let rest = lstrip is_space text in if is_space c then rest else c ∷ text

abbrev pub strip : (ℕ → Bool) → Text → Text
strip is_space text = reverse (lstrip is_space (reverse (lstrip is_space text)))

abbrev push : ℕ → List Text → List Text
push c [] = (c ∷ []) ∷ []
push c (p ∷ ps) = (c ∷ p) ∷ ps

-- text.split("\n\n"): leftmost separators first, none overlapping
abbrev pub split_blank : Text → List Text
split_blank [] = [] ∷ []
split_blank (c ∷ []) = (c ∷ []) ∷ []
split_blank (c ∷ d ∷ text) = elim (c == 10 && d == 10) [
  | true ↦ [] ∷ split_blank text
  | false ↦ push c (split_blank (d ∷ text))
]
