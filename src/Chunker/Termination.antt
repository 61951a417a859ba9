-- ===== src/Chunker/Termination.antt =====
-- When the `while` of `_split_by_chars` does not end.
use flycanon.Prelude.{ℕ, zero, suc, ◌+◌, ◌≤◌, ◌<◌, ◌≡◌, refl, none, length, arith}
use flycanon.Chunker.{Text, split_loop}

-- With an overlap that is not below the budget, a text longer than both together keeps the loop
-- going for ever: from every offset up to the overlap, the loop outlives any number of rounds.
pub split_loop_diverges :
    (fuel : ℕ) (text : Text) (char_budget overlap_chars i : ℕ)
    → char_budget ≤ overlap_chars
    → overlap_chars + char_budget < length text
    → i ≤ overlap_chars
    → split_loop fuel text char_budget overlap_chars i ≡ none
unfolding split_loop
split_loop_diverges zero text b o i h long low = refl
split_loop_diverges (suc fuel) text b o i h long low =
    grind (arith, split_loop_diverges fuel text b o)
