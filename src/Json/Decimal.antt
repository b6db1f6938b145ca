-- ===== src/Json/Decimal.antt =====
-- The decimal text of a number, as in the key of an array's element.
use Prim.Native.Char.{code}
use Prim.Native.String.{[], ◌∷◌}
use Prim.Native.Nat.{◌/◌, ◌%◌}
use text.Mathlib.TextLemmas.{nil-append, cons-append}
use tio.Common.{
  ℕ, zero, suc, ◌+◌, ◌-◌, ◌*◌, ◌<◌, ◌≡◌, ◌∙◌, sym, ap, String, ltb, Bool-cases, inl, inr, ◌+++◌,
  if◌then◌else◌, arith,
}

digit : ℕ → String
digit zero = "0"
digit (suc zero) = "1"
digit (suc (suc zero)) = "2"
digit (suc (suc (suc zero))) = "3"
digit (suc (suc (suc (suc zero)))) = "4"
digit (suc (suc (suc (suc (suc zero))))) = "5"
digit (suc (suc (suc (suc (suc (suc zero)))))) = "6"
digit (suc (suc (suc (suc (suc (suc (suc zero))))))) = "7"
digit (suc (suc (suc (suc (suc (suc (suc (suc zero)))))))) = "8"
digit _ = "9"

-- With more fuel than the number, every digit is written.
decimal_from : ℕ → ℕ → String
decimal_from zero n = ""
decimal_from (suc fuel) n =
    let high = decimal_from fuel (n / 10) in if ltb n 10 then digit n else high +++ digit (n % 10)

unfoldable pub decimal : ℕ → String
unfolding digit decimal_from
decimal n = decimal_from (suc n) n

-- The number that a text of digits stands for, read after the digits of `acc`.
read : ℕ → String → ℕ
read acc [] = acc
read acc (c ∷ s) = read (acc * 10 + (code c - 48)) s

read-append : (acc : ℕ) (s t : String) → read acc (s +++ t) ≡ read (read acc s) t
unfolding read
read-append acc [] t = rw nil-append
read-append acc (c ∷ s) t = rw cons-append (read-append (acc * 10 + (code c - 48)) s t)

read-digit : (acc d : ℕ) → d < 10 → read acc (digit d) ≡ acc * 10 + d
unfolding read digit
read-digit acc zero h = omega arith
read-digit acc (suc zero) h = omega arith
read-digit acc (suc (suc zero)) h = omega arith
read-digit acc (suc (suc (suc zero))) h = omega arith
read-digit acc (suc (suc (suc (suc zero)))) h = omega arith
read-digit acc (suc (suc (suc (suc (suc zero))))) h = omega arith
read-digit acc (suc (suc (suc (suc (suc (suc zero)))))) h = omega arith
read-digit acc (suc (suc (suc (suc (suc (suc (suc zero))))))) h = omega arith
read-digit acc (suc (suc (suc (suc (suc (suc (suc (suc zero)))))))) h = omega arith
read-digit acc (suc (suc (suc (suc (suc (suc (suc (suc (suc zero))))))))) h = omega arith
read-digit acc (suc (suc (suc (suc (suc (suc (suc (suc (suc (suc d)))))))))) h =
    absurd (omega arith)

read-decimal_from : (fuel n : ℕ) → n < fuel → read 0 (decimal_from fuel n) ≡ n
unfolding decimal_from
read-decimal_from zero n h = absurd (omega arith)
read-decimal_from (suc fuel) n h = elim (Bool-cases (ltb n 10)) [
  | inl small ↦ rw small (read-digit 0 n (ground arith) ∙ omega arith)
  | inr big ↦
      rw
        (
          big,
          read-append,
          read-decimal_from fuel (n / 10) (ground arith),
          read-digit (n / 10) (n % 10) (omega arith),
        )
        (omega arith)
]

pub decimal_injective : (m n : ℕ) → decimal m ≡ decimal n → m ≡ n
unfolding decimal
decimal_injective m n e =
    sym (read-decimal_from (suc m) m (omega arith))
    ∙ ap (read 0) e
    ∙ read-decimal_from (suc n) n (omega arith)
