-- ===== src/Topic/Split.antt =====
-- Splitting a text at its slashes and joining the parts (`split("/")`, `join("/")`).
use Prim.Native.Char.{Char, code}
use Prim.Native.String.{[], ◌∷◌}
use text.Mathlib.TextEquality.{Char-path}
use text.Mathlib.TextLemmas.{nil-append, cons-append}
use mathlib.Core.Logic.{inl, inr}
use tio.Common.{
  ◌≡◌, ◌∙◌, refl, ap, ◌≢◌, true, false, List, String, nat_eq, Bool-cases, split, join, push_char,
  ◌+++◌, arith,
}

abbrev pub NoSlash : String → Type 0
NoSlash [] = Unit
NoSlash (c ∷ s) = (code c ≢ b'/') × NoSlash s

push_char_ne_nil : (c : Char) (ps : List String) → push_char c ps ≢ List.[]
push_char_ne_nil c List.[] = cc
push_char_ne_nil c (List.◌∷◌ p ps) = cc

pub split_ne_nil : (s : String) → split s ≢ List.[]
unfolding split
split_ne_nil [] = cc
split_ne_nil (c ∷ s) = ground (arith, push_char_ne_nil c (split s))

join-push_char : (c : Char) (ps : List String) → ps ≢ List.[] → join (push_char c ps) ≡ c ∷ join ps
unfolding join
join-push_char c List.[] h = absurd (h refl)
join-push_char c (List.◌∷◌ p List.[]) h = refl
join-push_char c (List.◌∷◌ p (List.◌∷◌ q ps)) h = cons-append c p _

join-cons :
    (p : String) (ps : List String) → ps ≢ List.[] → join (List.◌∷◌ p ps) ≡ p +++ ("/" +++ join ps)
unfolding join
join-cons p List.[] h = absurd (h refl)
join-cons p (List.◌∷◌ q ps) h = refl

-- A slash put in front of the rest.
slash_append : (c : Char) (s : String) → nat_eq (code c) b'/' ≡ true → "/" +++ s ≡ c ∷ s
slash_append c s h =
    cons-append "/" [] s
    ∙ ap (λ x. "/" ∷ x) (nil-append s)
    ∙ ap (λ (x : Char). x ∷ s) (Char-path "/" c (ground arith))

-- Joining the parts gives the text back.
pub join-split : (s : String) → join (split s) ≡ s
unfolding split
join-split [] = unfold join in refl
join-split (c ∷ s) = elim (Bool-cases (nat_eq (code c) b'/')) [
  | inl slash ↦ rw slash (
      join-cons "" (split s) (split_ne_nil s)
      ∙ nil-append _
      ∙ ap (λ x. "/" +++ x) (join-split s)
      ∙ slash_append c s slash)
  | inr other ↦
      rw other (join-push_char c (split s) (split_ne_nil s) ∙ ap (λ x. c ∷ x) (join-split s))
]

not_slash : (c : Char) → code c ≢ b'/' → nat_eq (code c) b'/' ≡ false
not_slash c h = ground arith

split-slash : (f : String) → split ("/" +++ f) ≡ List.◌∷◌ "" (split f)
unfolding split
split-slash f = rw (cons-append "/" [] f) (rw (nil-append f) refl)

-- A part without a slash, put in front with a slash, is the first part.
pub split-append : (g f : String) → NoSlash g → split (g +++ ("/" +++ f)) ≡ List.◌∷◌ g (split f)
unfolding split
split-append [] f h = rw (nil-append ("/" +++ f)) (split-slash f)
split-append (c ∷ g) f (ne, h) =
    let ih = split-append g f h in rw (cons-append c g ("/" +++ f), ih, not_slash c ne) refl
