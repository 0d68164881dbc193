-- ===== src/Vm/Source.antt =====
-- The classes of source instances in rust/src/calculation/vm_target_selector.rs.
use Prim.Native.Char.{code}
use Prim.Native.String.{String, [], ◌∷◌}
use tco_calculator.Prelude.{Option, none, some, if◌then◌else◌}
use tco_calculator.Validation.Text.{within, is_whitespace}
use tco_calculator.Vm.Types.{SourceClass}
use tco_calculator.Vm.Text.{lower, eq_ignore_ascii_case}

-- The family of an instance type: of the text before the first dot, trimmed, the letters that it begins
-- with, in lower case. Trailing blanks end the letters, so that only leading ones are skipped.
unfoldable pub family_letters : String → String
family_letters [] = ""
family_letters (c ∷ s) =
    let rest = family_letters s in if within 97 122 (lower (code c)) then (c ∷ rest) else ""

unfoldable pub family : String → String
unfolding family_letters is_whitespace
family [] = ""
family (c ∷ s) =
    let rest = family s in if is_whitespace (code c) then rest else family_letters (c ∷ s)

-- `"t" =>`, where the letters are compared in lower case
unfoldable pub classify_source_instance : String → Option SourceClass
unfolding family eq_ignore_ascii_case
classify_source_instance instance_type =
    let name = family instance_type in
    if eq_ignore_ascii_case name "t"
    then some SourceClass.burstable
    else if eq_ignore_ascii_case name "m"
    then some SourceClass.general_purpose
    else if eq_ignore_ascii_case name "r"
    then some SourceClass.memory_optimized
    else if eq_ignore_ascii_case name "z"
    then some SourceClass.high_frequency_memory_optimized
    else none

-- The caveat that stays visible in the result whenever the class is mapped.
unfoldable pub required_caveat : SourceClass → Option String
required_caveat SourceClass.burstable =
    some
      "The source is burstable and maps to the Azure burstable lineage. AWS and Azure CPU-credit models are not claimed to be identical."
required_caveat SourceClass.high_frequency_memory_optimized =
    some
      "The source is a high-frequency instance. This target is a capacity fit on vCPU and memory only; per-core performance equivalence is not claimed and requires review outside this estimate."
required_caveat SourceClass.general_purpose = none
required_caveat SourceClass.memory_optimized = none
