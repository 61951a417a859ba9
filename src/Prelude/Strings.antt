-- ===== src/Prelude/Strings.antt =====
-- Python's string methods on native strings, by characters.
use Prim.Native.Nat.{ℕ, zero, suc}
use Prim.Native.Char.{Char, code}
use Prim.Native.String.count
use Prim.Native.String.append
use Prim.Native.String.{String, [], ◌∷◌, ◌++◌, count}
use mathlib.Core.Path.{◌≡◌, refl, ap}
use mathlib.Core.Bool.{Bool, true, false}
use mathlib.Core.Option.{Option, none, some}
use flycanon.Prelude.Tests.{◌==◌, if◌then◌else◌}

-- s[:n]
abbrev pub first_chars : ℕ → String → String
first_chars zero s = []
first_chars (suc n) [] = []
first_chars (suc n) (c ∷ s) = c ∷ first_chars n s

pub first_chars-append : (s t : String) → first_chars (count s) (s ++ t) ≡ s
first_chars-append [] t = refl
first_chars-append (c ∷ s) t =
    rw (count.cons c s, append.cons c s t) (ap (◌∷◌ c) (first_chars-append s t))

abbrev is_empty : String → Bool
is_empty [] = true
is_empty (c ∷ s) = false

abbrev lstrip : (Char → Bool) → String → String
lstrip is_space [] = []
lstrip is_space (c ∷ s) = let rest = lstrip is_space s in if is_space c then rest else c ∷ s

-- The last characters go when nothing but white space is left after them.
abbrev rstrip : (Char → Bool) → String → String
rstrip is_space [] = []
rstrip is_space (c ∷ s) =
    let rest = rstrip is_space s in
    if is_empty rest then (if is_space c then [] else c ∷ []) else c ∷ rest

abbrev pub strip : (Char → Bool) → String → String
strip is_space s = rstrip is_space (lstrip is_space s)

-- s.partition(c), none where c is not in s
abbrev pub partition : Char → String → Option (String × String)
partition c [] = none
partition c (d ∷ s) =
    let rest = partition c s in if code c == code d then some ([], s) else push d rest
  where
    push : Char → Option (String × String) → Option (String × String)
    push d none = none
    push d (some (before, behind)) = some (d ∷ before, behind)

-- s.replace(c, d) for characters
abbrev pub replace : Char → Char → String → String
replace c d [] = []
replace c d (e ∷ s) = (if code e == code c then d else e) ∷ replace c d s
