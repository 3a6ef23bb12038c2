-- ===== src/Examples/Policies.antt =====
-- The theorems about the policy registry at concrete inputs.
use dstudio.Base.{◌≡◌, ◌↔◌, ◌≤◌, refl, true, false, some, codes, ok, is_empty, str_eq, ◌⊎◌}
use dstudio.Graph.Paths.{relative_path_valid, component_bytes}
use dstudio.Policy.{policy_validate}
use dstudio.Policy.Actions.{text_length}
use dstudio.Policy.Confined.{native_action_policy-IsConfined}
use dstudio.Policy.Shapes.{IsConfined}
use dstudio.Policy.Storage.{write_policy-outside, next_separator}
use dstudio.Policy.Accepted.{IsAdmitted, policy_validate_iff}
use dstudio.Examples.Samples.{sample, writer, program}

policy_validate_iff_example : (policy_validate sample false ≡ ok tt) ↔ IsAdmitted sample false
policy_validate_iff_example = policy_validate_iff sample false

native_action_policy-IsConfined_example : IsConfined sample writer
unfolding program
native_action_policy-IsConfined_example = native_action_policy-IsConfined sample writer refl

write_policy-outside_example :
    (is_empty writer.action_path ≡ false)
    × (relative_path_valid writer.action_path ≡ true)
    × (text_length writer.action_text ≤ writer.action_max_bytes)
    × ((str_eq (component_bytes writer.action_path) (codes ".dstudio") ≡ false)
        ⊎ (next_separator writer.action_path ≡ some b'\\'))
unfolding program
write_policy-outside_example = write_policy-outside writer refl
