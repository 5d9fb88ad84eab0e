-- ===== src/Workflow/Definition/Names.antt =====
-- Definitions that are accepted.
use mellivor_kernel.Prelude.{
  ◌≤◌, String, ◌≡◌, ◌↔◌, refl, Bool, true, false, not, ◌&&◌, List, [], ◌∷◌, contains, length,
  nat_eq, arith,
}
use mellivor_kernel.Python.{is_blank, returned}
use mellivor_kernel.Workflow.Definition.{WorkflowDefinition, step_names, distinct, make_definition}

-- No name stands twice.
abbrev pub are_unique : List String → Bool
are_unique [] = true
are_unique (n ∷ ns) = not (contains n ns) && are_unique ns

length-distinct : (ns : List String) → length (distinct ns) ≤ length ns
unfolding distinct
length-distinct [] = omega arith
length-distinct (n ∷ ns) = ground (arith, length-distinct ns)

distinct_iff : (ns : List String) → nat_eq (length ns) (length (distinct ns)) ≡ are_unique ns
unfolding distinct
distinct_iff [] = refl
distinct_iff (n ∷ ns) = ground (arith, distinct_iff ns, length-distinct ns)

-- A definition is accepted, unchanged, exactly if its name is not blank and no two of its steps
-- have the same name.
pub make_definition_iff :
    (d : WorkflowDefinition)
    → (make_definition d ≡ returned d)
      ↔ ((is_blank d.name ≡ false) × (are_unique (step_names d.steps) ≡ true))
unfolding make_definition
make_definition_iff d = ground (arith, distinct_iff (step_names d.steps))
