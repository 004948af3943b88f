-- ===== src/Text/Decimal.antt =====
-- Two numbers with the same decimal text are equal.
use Prim.Native.Char.{code}
use maibot_lunagentic_resear.Prelude.{
  ltb, Bool-cases, ℕ, zero, suc, ◌+◌, ◌-◌, ◌*◌, ◌/◌, ◌%◌, ◌<◌, String, ◌≡◌, refl, sym, ap, ◌∙◌, inl,
  inr, arith,
}
use maibot_lunagentic_resear.Text.{digit_char, decimal, str}

-- The number that a text of digits stands for, after what has been read.
value_of : ℕ → String → ℕ
value_of read String.[] = read
value_of read (String.◌∷◌ c rest) = value_of (10 * read + (code c - b'0')) rest

code-digit_char : (d : ℕ) → d < 10 → code (digit_char d) - b'0' ≡ d
code-digit_char zero h = refl
code-digit_char (suc zero) h = refl
code-digit_char (suc (suc zero)) h = refl
code-digit_char (suc (suc (suc zero))) h = refl
code-digit_char (suc (suc (suc (suc zero)))) h = refl
code-digit_char (suc (suc (suc (suc (suc zero))))) h = refl
code-digit_char (suc (suc (suc (suc (suc (suc zero)))))) h = refl
code-digit_char (suc (suc (suc (suc (suc (suc (suc zero))))))) h = refl
code-digit_char (suc (suc (suc (suc (suc (suc (suc (suc zero)))))))) h = refl
code-digit_char (suc (suc (suc (suc (suc (suc (suc (suc (suc zero))))))))) h = refl
code-digit_char (suc (suc (suc (suc (suc (suc (suc (suc (suc (suc d)))))))))) h =
    absurd (omega arith)

value_of-decimal :
    (fuel n : ℕ) (rest : String) → n < fuel → value_of 0 (decimal fuel n rest) ≡ value_of n rest
unfolding decimal value_of
value_of-decimal zero n rest h = absurd (omega arith)
value_of-decimal (suc fuel) n rest h = elim (Bool-cases (ltb n 10)) [
  | inl last ↦
      rw last (ap (λ (k : ℕ). value_of k rest) (omega (arith, code-digit_char n (ground arith))))
  | inr more ↦ rw more (
      value_of-decimal fuel (n / 10) (String.◌∷◌ (digit_char (n % 10)) rest) (ground arith)
      ∙ ap (λ (k : ℕ). value_of k rest) (omega (arith, code-digit_char (n % 10) (omega arith))))
]

pub str_injective : (n m : ℕ) → str n ≡ str m → n ≡ m
unfolding str value_of
str_injective n m h =
    sym (value_of-decimal (suc n) n "" (omega arith))
    ∙ ap (value_of 0) h
    ∙ value_of-decimal (suc m) m "" (omega arith)
