-- ===== src/Base/Decimal.antt =====
-- `String(n)` of a whole number, in decimal, and that it tells numbers apart.
use Prim.Native.Nat.{ℕ, zero, suc, ◌+◌, ◌-◌, ◌*◌, ◌/◌, ◌%◌, ◌<◌}
use Prim.Native.Char.{Char, code}
use Prim.Native.String.{String, [], ◌∷◌, char_at}
use mathlib.Core.Path.{◌≡◌, refl, sym, ap, ◌∙◌}
use mathlib.Core.Logic.{inl, inr}
use mathlib.Core.List.{[], ◌∷◌}
use native.Mathlib.Omega.{arith}
use full_revna_like_projekt.Base.Tests.{ltb, if◌then◌else◌, Bool-cases}

abbrev digit : ℕ → Char
digit d = char_at "0123456789" d

-- The digits of `n` before the text `out`; fuel above `n` is enough.
emit : ℕ → ℕ → String → String
emit zero n out = out
emit (suc fuel) n out =
    let more = emit fuel (n / 10) (digit (n % 10) ∷ out) in if ltb n 10 then digit n ∷ out else more

unfoldable pub to_text : ℕ → String
unfolding emit
to_text n = emit (suc n) n []

-- Reads a text of decimal digits, the first digit first.
scan : ℕ → String → ℕ
scan acc [] = acc
scan acc (c ∷ s) = scan (10 * acc + (code c - 48)) s

-- The value of a digit is the digit.
digit_value : (d : ℕ) → d < 10 → code (digit d) - 48 ≡ d
digit_value zero h = refl
digit_value (suc zero) h = refl
digit_value (suc (suc zero)) h = refl
digit_value (suc (suc (suc zero))) h = refl
digit_value (suc (suc (suc (suc zero)))) h = refl
digit_value (suc (suc (suc (suc (suc zero))))) h = refl
digit_value (suc (suc (suc (suc (suc (suc zero)))))) h = refl
digit_value (suc (suc (suc (suc (suc (suc (suc zero))))))) h = refl
digit_value (suc (suc (suc (suc (suc (suc (suc (suc zero)))))))) h = refl
digit_value (suc (suc (suc (suc (suc (suc (suc (suc (suc zero))))))))) h = refl
digit_value (suc (suc (suc (suc (suc (suc (suc (suc (suc (suc d)))))))))) h = absurd (omega arith)

-- Reading back what `emit` wrote before `out` is reading `out` from `n`.
scan-emit : (fuel n : ℕ) (out : String) → n < fuel → scan 0 (emit fuel n out) ≡ scan n out
unfolding scan emit
scan-emit zero n out h = absurd (omega arith)
scan-emit (suc fuel) n out h = elim (Bool-cases (ltb n 10)) [
  | inl small ↦ rw small (ap (λ k. scan k out) (omega (arith, digit_value n (ground arith))))
  | inr large ↦ rw large (
      scan-emit fuel (n / 10) (digit (n % 10) ∷ out) (ground arith)
      ∙ ap (λ k. scan k out) (omega (arith, digit_value (n % 10) (omega arith))))
]

-- Different numbers have different texts.
pub to_text-injective : (m n : ℕ) → to_text m ≡ to_text n → m ≡ n
unfolding to_text scan
to_text-injective m n e =
    sym (scan-emit (suc m) m [] (omega arith))
    ∙ ap (scan 0) e
    ∙ scan-emit (suc n) n [] (omega arith)

to_text_test : to_text 1204 ≡ "1204"
unfolding to_text
to_text_test = refl
