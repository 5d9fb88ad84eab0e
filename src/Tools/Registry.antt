-- ===== src/Tools/Registry.antt =====
-- src/mellivor_kernel/tools/registry.py: the shared registry code over tools.
use mellivor_kernel.Prelude.{String, Bool, List, map, Dict}
use mellivor_kernel.Python.{Result, Action, tool_registration_error}
use mellivor_kernel.Registry
use mellivor_kernel.Registry.{Kind}
use mellivor_kernel.Tools.Base.{BaseTool, ToolMetadata, metadata}

abbrev pub ToolRegistry : Type 0 → Type 0
ToolRegistry E = Dict (BaseTool E)

module _ {E : Type 0} where
  abbrev pub tool_kind : Kind (BaseTool E)
  tool_kind = record { ident = λ t. t.id; class = tool_registration_error; noun = "Tool " }

  unfoldable pub register : BaseTool E → Action (ToolRegistry E) Unit
  register = Registry.register tool_kind

  unfoldable pub unregister : String → Action (ToolRegistry E) Unit
  unregister = Registry.unregister tool_kind

  unfoldable pub lookup : String → ToolRegistry E → Result (BaseTool E)
  lookup = Registry.lookup tool_kind

  unfoldable pub exists : String → ToolRegistry E → Bool
  exists = Registry.exists tool_kind

  unfoldable pub enumerate : ToolRegistry E → List ToolMetadata
  enumerate tools = map metadata (Registry.items_of tool_kind tools)
