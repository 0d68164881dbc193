-- ===== src/Prelude/Text.antt =====
-- `{}` of a Rust unsigned integer: its decimal digits.
use Prim.Native.Nat.{ℕ, zero, suc, ◌/◌, ◌%◌}
use Prim.Native.Char.{Char}
use Prim.Native.String.{String, ◌++◌, ◌∷◌}
use Prim.Native.String.append as append
use Prim.Native.String.compare as compare
use mathlib.Core.Path.{◌≡◌, refl}
use mathlib.Core.Bool.{false}
use text.Mathlib.Text.{◌==◌ as text_eq}
use tco_calculator.Prelude.Tests.{ltb, ◌==◌, if◌then◌else◌}

unfoldable pub digit : ℕ → String
digit d =
    if d == 0
    then "0"
    else if d == 1
    then "1"
    else if d == 2
    then "2"
    else if d == 3
    then "3"
    else if d == 4
    then "4"
    else if d == 5
    then "5"
    else if d == 6
    then "6"
    else if d == 7
    then "7"
    else if d == 8
    then "8"
    else "9"

-- A number has fewer digits than it counts, so `suc n` is enough fuel.
unfoldable pub show_digits : ℕ → ℕ → String
unfolding digit
show_digits zero n = ""
show_digits (suc f) n =
    let higher = show_digits f (n / 10) in if ltb n 10 then digit n else (higher ++ digit (n % 10))

unfoldable pub show_ℕ : ℕ → String
unfolding show_digits
show_ℕ n = show_digits (suc n) n

pub append_nonempty : (c : Char) (s t : String) → text_eq ((c ∷ s) ++ t) "" ≡ false
append_nonempty c s t = rw (append.cons c s t, compare.cons-nil c (s ++ t)) refl
