-- ===== src/Validation/Text.antt =====
-- The texts that rust/src/domain/project.rs tests. Its tests of bytes hold of ASCII only: a text with
-- another character fails `all`, so that its length in characters may stand for that in bytes.
use Prim.Native.Char.{code}
use Prim.Native.String.{len, [], ◌∷◌}
use tco_calculator.Prelude.{
  ℕ, Bool, true, ◌&&◌, ◌||◌, String, Option, none, some, is_some_and, leb, ◌==◌, if◌then◌else◌,
}

-- `(low..=high).contains(&n)`
abbrev pub within : ℕ → ℕ → ℕ → Bool
within low high n = leb low n && leb n high

unfoldable pub all_chars : (ℕ → Bool) → String → Bool
all_chars p [] = true
all_chars p (c ∷ s) = p (code c) && all_chars p s

-- `char::is_whitespace`: the characters of Unicode with the property White_Space
unfoldable pub is_whitespace : ℕ → Bool
is_whitespace c =
    within 9 13 c
    || c == 32
    || c == 133
    || c == 160
    || c == 5760
    || within 8192 8202 c
    || c == 8232
    || c == 8233
    || c == 8239
    || c == 8287
    || c == 12288

-- `text.trim().is_empty()`
unfoldable pub is_blank : String → Bool
unfolding all_chars is_whitespace
is_blank text = all_chars is_whitespace text

unfoldable pub strip_prefix : String → String → Option String
strip_prefix [] s = some s
strip_prefix (c ∷ p) [] = none
strip_prefix (c ∷ p) (c' ∷ s) =
    let rest = strip_prefix p s in if code c == code c' then rest else none

abbrev pub is_lower_hex : ℕ → Bool
is_lower_hex c = within 48 57 c || within 97 102 c

abbrev pub is_sku_char : ℕ → Bool
is_sku_char c = within 48 57 c || within 65 90 c || within 97 122 c || c == 95 || c == 45 || c == 46

unfoldable pub is_snapshot_id : String → String → Bool
unfolding strip_prefix all_chars
is_snapshot_id value start =
    is_some_and (strip_prefix start value)
      λ digest. len digest == 64 && all_chars is_lower_hex digest
