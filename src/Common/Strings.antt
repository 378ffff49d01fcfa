-- ===== src/Common/Strings.antt =====
-- Functions of Go's package `strings` on ASCII texts.
pub mod Trimming
use wg_proxy.Common.{
  ℕ, Bool, true, false, ◌&&◌, ◌||◌, List, [], ◌∷◌, ◌++◌, ◌==◌, leb, if◌then◌else◌,
}
use mathlib.Core.List.{reverse}
use wg_proxy.Common.Bytes.{Bytes}

abbrev pub is_space : ℕ → Bool
is_space c = c == b' ' || leb 9 c && leb c 13

-- A test of the characters in front.
unfoldable pub trim_left : Bytes → Bytes
trim_left [] = []
trim_left (c ∷ s) = if is_space c then trim_left s else c ∷ s

-- `strings.TrimSpace`
unfoldable pub trim_space : Bytes → Bytes
unfolding trim_left
trim_space s = reverse (trim_left (reverse (trim_left s)))

-- The word that was read so far, if there is one, in front of the others.
abbrev end_word : Bytes → List Bytes → List Bytes
end_word [] ws = ws
end_word (c ∷ w) ws = (c ∷ w) ∷ ws

-- The words of a text whose beginning, `w`, was read already.
unfoldable pub fields_from : Bytes → Bytes → List Bytes
fields_from w [] = end_word w []
fields_from w (c ∷ s) = elim (is_space c) [
  | true ↦ end_word w (fields_from [] s)
  | false ↦ fields_from (w ++ (c ∷ [])) s
]

-- `strings.Fields`
unfoldable pub fields : Bytes → List Bytes
unfolding fields_from
fields s = fields_from [] s

unfoldable pub has_prefix : Bytes → Bytes → Bool
has_prefix s [] = true
has_prefix [] (c ∷ p) = false
has_prefix (a ∷ s) (c ∷ p) = a == c && has_prefix s p

-- `strings.TrimPrefix`
unfoldable pub trim_prefix : Bytes → Bytes → Bytes
trim_prefix s [] = s
trim_prefix [] (c ∷ p) = []
trim_prefix (a ∷ s) (c ∷ p) = if a == c && has_prefix s p then trim_prefix s p else a ∷ s

-- `strings.Contains`
unfoldable pub contains_text : Bytes → Bytes → Bool
unfolding has_prefix
contains_text [] p = has_prefix [] p
contains_text (c ∷ s) p = has_prefix (c ∷ s) p || contains_text s p

-- The parts of a text whose current part began with `w`.
unfoldable pub split_from : ℕ → Bytes → Bytes → List Bytes
split_from sep w [] = w ∷ []
split_from sep w (c ∷ s) = elim (c == sep) [
  | true ↦ w ∷ split_from sep [] s
  | false ↦ split_from sep (w ++ (c ∷ [])) s
]

-- `strings.Split` at a separator of one character
unfoldable pub split : ℕ → Bytes → List Bytes
unfolding split_from
split sep s = split_from sep [] s
