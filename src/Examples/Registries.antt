-- ===== src/Examples/Registries.antt =====
-- The theorems about the registries, on the tools of the samples.
use mellivor_kernel.Prelude.{ℕ, ◌≡◌, refl, none, List, [], ◌∷◌, get, put}
use mellivor_kernel.Python.{returned}
use mellivor_kernel.Registry.{register, unregister, lookup}
use mellivor_kernel.Registry.Invariant.{Command, add, drop, perform, perform_all, lookup-ident}
use mellivor_kernel.Tools.Base.{BaseTool}
use mellivor_kernel.Tools.Registry.{tool_kind}
use mellivor_kernel.Examples.Samples.{read_tool}

nothing_registered : get {V = BaseTool ℕ} "read_file" [] ≡ none
unfolding get
nothing_registered = refl

abbrev some_calls : List (Command (BaseTool ℕ))
some_calls = add read_tool ∷ drop "other" ∷ add read_tool ∷ []

read_tool_found :
    lookup tool_kind "read_file" (perform_all tool_kind some_calls []) ≡ returned read_tool
unfolding lookup perform_all perform register unregister get put
read_tool_found = refl

lookup-ident_example : read_tool.id ≡ "read_file"
lookup-ident_example = lookup-ident tool_kind some_calls "read_file" read_tool read_tool_found
