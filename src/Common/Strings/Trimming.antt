-- ===== src/Common/Strings/Trimming.antt =====
-- What the functions on texts leave.
use mathlib.Core.List.{
  reverse, reverse_aux, reverse-append, reverse-reverse, append-nil, append_assoc,
}
use wg_proxy.Common.{ℕ, ◌≡◌, ◌≢◌, refl, ap, ◌∙◌, false, [], ◌∷◌, ◌++◌, ◌==◌, ==_refl, arith, All}
use wg_proxy.Common.Bytes.{Bytes}
use wg_proxy.Common.Strings.{is_space, trim_left, trim_space, split_from}

abbrev pub NoSpace : Bytes → Type 0
NoSpace = All (λ c. is_space c ≡ false)

trim_left_lem : (s : Bytes) → NoSpace s → trim_left s ≡ s
unfolding trim_left
trim_left_lem [] h = refl
trim_left_lem (c ∷ s) (h, hs) = rw h

NoSpace-reverse_aux : (s acc : Bytes) → NoSpace s → NoSpace acc → NoSpace (reverse_aux s acc)
NoSpace-reverse_aux [] acc h k = k
NoSpace-reverse_aux (c ∷ s) acc (h, hs) k = NoSpace-reverse_aux s (c ∷ acc) hs (h, k)

-- A line that is written with its line feed is read back.
pub trim_space-line : (s : Bytes) → NoSpace s → trim_space (s ++ (b'\n' ∷ [])) ≡ s
unfolding trim_space
trim_space-line [] h = refl
trim_space-line (c ∷ s) (h, hs) =
    rw
      (
        h,
        reverse-append (c ∷ s) (b'\n' ∷ []),
        trim_left_lem (reverse (c ∷ s)) (NoSpace-reverse_aux (c ∷ s) [] (h, hs) tt),
      )
      (reverse-reverse (c ∷ s))

-- A text without the separator, up to the first one.
pub split_from-line :
    (sep : ℕ) (w s rest : Bytes)
    → All (λ c. c ≢ sep) s
    → split_from sep w (s ++ (sep ∷ rest)) ≡ (w ++ s) ∷ split_from sep [] rest
unfolding split_from
split_from-line sep w [] rest h = rw (==_refl sep, split_from, append-nil)
split_from-line sep w (c ∷ s) rest (h, hs) =
    let other : (c == sep) ≡ false = ground arith in
    rw (other, split_from)
      (split_from-line sep (w ++ (c ∷ [])) s rest hs
        ∙ ap (λ v. v ∷ split_from sep [] rest) (append_assoc w (c ∷ []) s))

-- A text without the separator is one part.
pub split_from-end :
    (sep : ℕ) (w s : Bytes) → All (λ c. c ≢ sep) s → split_from sep w s ≡ (w ++ s) ∷ []
unfolding split_from
split_from-end sep w [] h = rw append-nil refl
split_from-end sep w (c ∷ s) (h, hs) =
    let other : (c == sep) ≡ false = ground arith in
    rw (other, split_from)
      (split_from-end sep (w ++ (c ∷ [])) s hs ∙ ap (λ v. v ∷ []) (append_assoc w (c ∷ []) s))
