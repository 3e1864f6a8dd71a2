-- ===== src/Ids/Decimal.antt =====
-- What Python's `str` prints for a natural number, and that it tells numbers apart.
use Prim.Native.Char.{Char, code}
use rtlfarm.Prelude.{
  ℕ, zero, suc, ◌+◌, ◌-◌, ◌*◌, ◌/◌, ◌%◌, ◌<◌, String, ◌≡◌, refl, sym, ap, ◌∙◌, ltb, inl, inr,
  Bool-cases, if◌then◌else◌, arith,
}

digit : ℕ → Char
digit zero = "0"
digit (suc zero) = "1"
digit (suc (suc zero)) = "2"
digit (suc (suc (suc zero))) = "3"
digit (suc (suc (suc (suc zero)))) = "4"
digit (suc (suc (suc (suc (suc zero))))) = "5"
digit (suc (suc (suc (suc (suc (suc zero)))))) = "6"
digit (suc (suc (suc (suc (suc (suc (suc zero))))))) = "7"
digit (suc (suc (suc (suc (suc (suc (suc (suc zero)))))))) = "8"
digit (suc (suc (suc (suc (suc (suc (suc (suc (suc n))))))))) = "9"

-- The digits of `n` in front of `rest`; the fuel bounds the number of digits.
decimal_onto : ℕ → ℕ → String → String
unfolding digit
decimal_onto zero n rest = rest
decimal_onto (suc fuel) n rest =
    let more = decimal_onto fuel (n / 10) (String.◌∷◌ (digit (n % 10)) rest) in
    if ltb n 10 then String.◌∷◌ (digit n) rest else more

-- The fuel is enough: `n` has at most `n + 1` digits.
unfoldable pub decimal : ℕ → String
unfolding decimal_onto
decimal n = decimal_onto (suc n) n ""

-- Reads digits after a number already read.
value : ℕ → String → ℕ
value v String.[] = v
value v (String.◌∷◌ c s) = value (10 * v + (code c - 48)) s

code-digit : (d : ℕ) → d < 10 → code (digit d) ≡ 48 + d
unfolding digit
code-digit zero h = refl
code-digit (suc zero) h = refl
code-digit (suc (suc zero)) h = refl
code-digit (suc (suc (suc zero))) h = refl
code-digit (suc (suc (suc (suc zero)))) h = refl
code-digit (suc (suc (suc (suc (suc zero))))) h = refl
code-digit (suc (suc (suc (suc (suc (suc zero)))))) h = refl
code-digit (suc (suc (suc (suc (suc (suc (suc zero))))))) h = refl
code-digit (suc (suc (suc (suc (suc (suc (suc (suc zero)))))))) h = refl
code-digit (suc (suc (suc (suc (suc (suc (suc (suc (suc n))))))))) h = omega arith

value-decimal_onto :
    (fuel n : ℕ) (rest : String) → n < fuel → value 0 (decimal_onto fuel n rest) ≡ value n rest
unfolding decimal_onto value
value-decimal_onto zero n rest h = elim h [ ]
value-decimal_onto (suc fuel) n rest h = elim (Bool-cases (ltb n 10)) [
  | inl small ↦
      rw small (ap (λ v. value v rest) (let c = code-digit n (ground arith) in omega arith))
  | inr large ↦ rw large (
      value-decimal_onto fuel (n / 10) _ (ground arith)
      ∙ ap (λ v. value v rest) (let c = code-digit (n % 10) (omega arith) in omega arith))
]

value-decimal : (n : ℕ) → value 0 (decimal n) ≡ n
unfolding decimal value
value-decimal n = value-decimal_onto (suc n) n "" (omega arith)

-- Two numbers that print alike are equal.
pub decimal_inj : (m n : ℕ) → decimal m ≡ decimal n → m ≡ n
decimal_inj m n e = sym (value-decimal m) ∙ ap (value 0) e ∙ value-decimal n

decimal-1270 : decimal 1270 ≡ "1270"
unfolding decimal
decimal-1270 = refl
