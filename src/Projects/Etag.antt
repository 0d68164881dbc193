-- ===== src/Projects/Etag.antt =====
-- The entity tags of rust/src/persistence/repository.rs tell versions apart: the tag of a version is
-- read back to it.
use Prim.Native.Char.{code}
use Prim.Native.String.{◌++◌, [], ◌∷◌}
use Prim.Native.String.append as append
use tco_calculator.Prelude.{
  ℕ, zero, suc, ◌+◌, ◌*◌, ◌-◌, ◌/◌, ◌%◌, ◌<◌, ◌≡◌, refl, ap, String, arith, ltb, Bool-cases, inl,
  inr,
}
use tco_calculator.Prelude.Text.{digit, show_digits, show_ℕ}
use tco_calculator.Projects.Document.{etag}

-- the number that a text of digits continues
value : String → ℕ → ℕ
value [] acc = acc
value (c ∷ s) acc = value s (acc * 10 + (code c - 48))

value-append : (s t : String) (acc : ℕ) → value (s ++ t) acc ≡ value t (value s acc)
unfolding value
value-append [] t acc = rw (append.nil t) refl
value-append (c ∷ s) t acc = rw (append.cons c s t) (value-append s t (acc * 10 + (code c - 48)))

value-digit : (n acc : ℕ) → n < 10 → value (digit n) acc ≡ acc * 10 + n
unfolding value digit
value-digit zero acc h = omega arith
value-digit (suc zero) acc h = omega arith
value-digit (suc (suc zero)) acc h = omega arith
value-digit (suc (suc (suc zero))) acc h = omega arith
value-digit (suc (suc (suc (suc zero)))) acc h = omega arith
value-digit (suc (suc (suc (suc (suc zero))))) acc h = omega arith
value-digit (suc (suc (suc (suc (suc (suc zero)))))) acc h = omega arith
value-digit (suc (suc (suc (suc (suc (suc (suc zero))))))) acc h = omega arith
value-digit (suc (suc (suc (suc (suc (suc (suc (suc zero)))))))) acc h = omega arith
value-digit (suc (suc (suc (suc (suc (suc (suc (suc (suc zero))))))))) acc h = omega arith
value-digit (suc (suc (suc (suc (suc (suc (suc (suc (suc (suc n)))))))))) acc h =
    absurd (omega arith)

value-show_digits : (f n : ℕ) → n < f → value (show_digits f n) 0 ≡ n
unfolding show_digits
value-show_digits zero n h = absurd (omega arith)
value-show_digits (suc f) n h = elim (Bool-cases (ltb n 10)) [
  | inl e ↦ rw e (omega (arith, value-digit n 0 (ground arith)))
  | inr e ↦
      let ih = value-show_digits f (n / 10) (ground arith) in
      rw (e, value-append (show_digits f (n / 10)) (digit (n % 10)) 0, ih)
        (omega (arith, value-digit (n % 10) (n / 10) (omega arith)))
]

value_quote : (acc : ℕ) → value "\"" acc ≡ acc * 10
unfolding value
value_quote acc = omega arith

value-etag : (n : ℕ) → value (etag n) 0 ≡ n * 10
unfolding etag show_ℕ
value-etag n =
    rw
      (
        value-append "\"" (show_digits (suc n) n ++ "\"") 0,
        value_quote 0,
        value-append (show_digits (suc n) n) "\"" 0,
        value-show_digits (suc n) n (omega arith),
      )
      (value_quote n)

pub etag_injective : (m n : ℕ) → etag m ≡ etag n → m ≡ n
etag_injective m n h = omega (arith, value-etag m, value-etag n, ap (λ s. value s 0) h)
