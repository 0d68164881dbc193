-- ===== src/Vm/Text.antt =====
-- The texts that rust/src/calculation/vm_target_selector.rs compares.
use Prim.Native.Char.{code}
use Prim.Native.String.{[], ◌∷◌}
use tco_calculator.Prelude.{ℕ, ◌+◌, Bool, true, false, String, ◌==◌, if◌then◌else◌}
use tco_calculator.Validation.Text.{within}

-- `to_ascii_lowercase` of a character
abbrev pub lower : ℕ → ℕ
lower c = if within 65 90 c then c + 32 else c

unfoldable pub eq_ignore_ascii_case : String → String → Bool
eq_ignore_ascii_case [] [] = true
eq_ignore_ascii_case [] (c ∷ s) = false
eq_ignore_ascii_case (c ∷ s) [] = false
eq_ignore_ascii_case (c ∷ s) (c' ∷ s') =
    let rest = eq_ignore_ascii_case s s' in
    if lower (code c) == lower (code c') then rest else false

-- `key == &text.to_ascii_lowercase()`
unfoldable pub is_lowercase_of : String → String → Bool
is_lowercase_of [] [] = true
is_lowercase_of [] (c ∷ s) = false
is_lowercase_of (c ∷ s) [] = false
is_lowercase_of (c ∷ s) (c' ∷ s') =
    let rest = is_lowercase_of s s' in if code c == lower (code c') then rest else false
