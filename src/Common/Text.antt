-- ===== src/Common/Text.antt =====
-- What the source does with texts, by recursion on their characters.
use Prim.Native.Char.{Char, code}
use Prim.Native.String
use Prim.Native.String.{String, [], ◌∷◌}
use mathlib.Core.Path.{◌≡◌, refl}
use mathlib.Core.Bool.{Bool, true, false, ◌&&◌, ◌||◌}
use mathlib.Core.List.{List}
use mathlib.Core.Logic.{inl, inr}
use native.Mathlib.Omega.{arith}
use text.Mathlib.Text.{◌==◌ as str_eq}
use text.Mathlib.TextEquality.{eq_iff}
use text.Mathlib.TextLemmas.{cons-append, nil-append}
use tio.Common.Tests.{nat_eq, if◌then◌else◌, Bool-cases}

infix 50 ◌==◌
abbrev pub ◌==◌ : String → String → Bool
s == t = str_eq s t

infixr 65 ◌+++◌
abbrev pub ◌+++◌ : String → String → String
s +++ t = String.◌++◌ s t

-- `s.startsWith(p)`
unfoldable pub starts_with : String → String → Bool
starts_with s [] = true
starts_with [] (c ∷ p) = false
starts_with (d ∷ s) (c ∷ p) = nat_eq (code c) (code d) && starts_with s p

-- `s.includes(p)`
unfoldable pub includes : String → String → Bool
includes [] p = starts_with [] p
includes (c ∷ s) p = starts_with (c ∷ s) p || includes s p

-- A character put before the first part.
abbrev pub push_char : Char → List String → List String
push_char c List.[] = List.◌∷◌ (c ∷ []) List.[]
push_char c (List.◌∷◌ p ps) = List.◌∷◌ (c ∷ p) ps

-- `s.split("/")`
unfoldable pub split : String → List String
split [] = List.◌∷◌ [] List.[]
split (c ∷ s) =
    let rest = split s in if nat_eq (code c) b'/' then List.◌∷◌ [] rest else push_char c rest

-- `parts.join("/")`
unfoldable pub join : List String → String
join List.[] = []
join (List.◌∷◌ p List.[]) = p
join (List.◌∷◌ p (List.◌∷◌ q ps)) = p +++ ("/" +++ join (List.◌∷◌ q ps))

-- Equality of texts, decided.
pub string_dec : (s t : String) → Dec (s ≡ t)
string_dec s t = elim (Bool-cases (s == t)) [
  | inl e ↦ yes ((eq_iff s t).0 e)
  | inr e ↦ no (λ p. ground (arith, eq_iff s t))
]

starts_with_nil : (s : String) → starts_with s "" ≡ true
unfolding starts_with
starts_with_nil [] = refl
starts_with_nil (c ∷ s) = refl

pub starts_with-append : (p s : String) → starts_with (p +++ s) p ≡ true
unfolding starts_with
starts_with-append [] s = starts_with_nil ("" +++ s)
starts_with-append (c ∷ p) s = rw (cons-append c p s) (ground (arith, starts_with-append p s))

pub includes_of_starts_with : (s p : String) → starts_with s p ≡ true → includes s p ≡ true
unfolding includes
includes_of_starts_with [] p h = h
includes_of_starts_with (c ∷ s) p h = rw h

pub nil-append_text : (s : String) → "" +++ s ≡ s
nil-append_text s = nil-append s
