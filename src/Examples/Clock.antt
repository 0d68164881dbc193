-- ===== src/Examples/Clock.antt =====
-- Instants that are numbers, and are written as so many strokes; a span of ten minutes is 1.
use Prim.Native.String.{[], ◌∷◌}
use tco_calculator.Prelude.{ℕ, zero, suc, ◌+◌, ◌/◌, ◌≡◌, refl, ap, String, some, leb, arith}
use tco_calculator.Clock.{Times, IsTimes}

-- a text of so many strokes, and their number
unfoldable pub strokes : ℕ → String
strokes zero = ""
strokes (suc n) = "I" ∷ strokes n

unfoldable pub count : String → ℕ
count [] = 0
count (c ∷ s) = suc (count s)

count-strokes : (n : ℕ) → count (strokes n) ≡ n
unfolding count strokes
count-strokes zero = refl
count-strokes (suc n) = ap suc (count-strokes n)

unfoldable pub times : Times ℕ
times = record {
  parse = λ text. some (count text);
  format = λ t. some (strokes t);
  plus = λ t seconds. t + seconds / 600;
  checked_plus = λ t seconds. some (t + seconds / 600);
  reached = λ later earlier. leb earlier later;
}

pub times-IsTimes : IsTimes times
unfolding times
times-IsTimes = record {
  reached_trans = λ a b c h k. ground arith;
  parse-format = λ t text h. let e : strokes t ≡ text = cc in rw⁻¹ e (ap some (count-strokes t));
}
