-- ===== src/Examples/Tools.antt =====
-- The theorems about tools and permissions, on the tool of the samples.
use mellivor_kernel.Prelude.{ℕ, ◌≡◌, ◌↔◌, ◌⊎◌, refl, true, false, [], ◌∷◌, arith}
use mellivor_kernel.Python.{lit, error, tool_validation_error, returned, raised, is_blank_text}
use mellivor_kernel.World.{tool_validated, tool_executed}
use mellivor_kernel.Tools.Permissions.{codes, make_permission, missing_permissions}
use mellivor_kernel.Tools.Permissions.Pattern.{chomp, is_dotted, make_permission_iff}
use mellivor_kernel.Tools.Permissions.Sets.{Covers}
use mellivor_kernel.Tools.Base.{BaseTool}
use mellivor_kernel.Tools.Pipeline.{run}
use mellivor_kernel.Tools.Pipeline.Gate.{run_gate}
use mellivor_kernel.Examples.Samples.{host_timer, file_read, read_tool, new_world}

-- A tool whose validation fails.
abbrev strict_tool : BaseTool ℕ
strict_tool = record read_tool {
  validate = λ request now. (raised (error tool_validation_error (lit "no path" ∷ [])), now);
}

uncovered : ¬ Covers [] (file_read ∷ [])
uncovered h = ground (arith, h "filesystem.read" refl)

covered : Covers (file_read ∷ []) (file_read ∷ [])
covered v h = h

run_gate_example :
    ((run host_timer read_tool [] (file_read ∷ []) new_world).1.trace
      ≡ tool_validated "read_file" ∷ [])
    ⊎ ((run host_timer read_tool [] (file_read ∷ []) new_world).1.trace
        ≡ tool_executed "read_file" ∷ tool_validated "read_file" ∷ [])
      × ((read_tool.validate [] 0).0 ≡ returned tt)
      × Covers (file_read ∷ []) (file_read ∷ [])
run_gate_example = run_gate host_timer read_tool [] (file_read ∷ []) new_world

no_path_not_blank : is_blank_text (lit "no path" ∷ []) ≡ false
unfolding is_blank_text
no_path_not_blank = refl

none_missing : missing_permissions (file_read ∷ []) (file_read ∷ []) ≡ []
unfolding missing_permissions
none_missing = refl

empty_is_blank : is_blank_text [] ≡ true
unfolding is_blank_text
empty_is_blank = refl

make_permission_iff_example :
    (make_permission "net.http.get" ≡ returned (record { value = "net.http.get" }))
    ↔ (is_dotted (chomp (codes "net.http.get")) ≡ true)
make_permission_iff_example = make_permission_iff "net.http.get"

dotted : is_dotted (codes "filesystem.read") ≡ true
unfolding is_dotted
dotted = refl
