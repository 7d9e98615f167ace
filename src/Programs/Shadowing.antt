-- ===== src/Programs/Shadowing.antt =====
-- app_v1/slaves/cae/app/program.py: the ways a reserved name can be bound.
use gpstation.Prelude.{◌≤◌, String, true, ◌≡◌, refl, arith}
use gpstation.Programs.Syntax.{Node, Nodes}
use gpstation.Programs.Checks.{
  allowed, refused, is_reserved, validate_assignment_target, check_node, reserved_assigned,
}
use gpstation.Programs.Validation.{size, nodes, walk}
use gpstation.Programs.Safe.{IsSafe, AreSafe}
use gpstation.Programs.Walk.{walk-AreSafe, walk-allowed}

abbrev pub assignment : String → Node → Node
assignment id value = Node.assign (Nodes.cons (Node.name id) Nodes.nil) value

abbrev pub no_parameters : Node
no_parameters = Node.arguments Nodes.nil Nodes.nil Nodes.nil Nodes.nil Nodes.nil Nodes.nil Nodes.nil

abbrev pub definition : String → Nodes → Node
definition id body = Node.async_function_def id no_parameters body Nodes.nil Nodes.nil

whole : (n : Node) → nodes (Nodes.cons n Nodes.nil) ≤ size n
unfolding size
whole n = omega arith

-- An assignment to a reserved name is refused, but a nested `async def` of that name passes, with any body that
-- passes.
pub reserved_shadowed :
    (id : String) (value : Node) (body : Nodes)
    → is_reserved id ≡ true
    → walk (nodes body) body ≡ allowed tt
    → (walk (size (assignment id value)) (Nodes.cons (assignment id value) Nodes.nil)
        ≡ refused (reserved_assigned id))
      × (walk (size (definition id body)) (Nodes.cons (definition id body) Nodes.nil) ≡ allowed tt)
unfolding walk check_node validate_assignment_target size
reserved_shadowed id value body r w = (
  rw r refl,
  walk-allowed (size (definition id body)) (Nodes.cons (definition id body) Nodes.nil)
      (whole (definition id body))
      (AreSafe.cons
        (IsSafe.function
          (IsSafe.arguments AreSafe.nil AreSafe.nil AreSafe.nil AreSafe.nil AreSafe.nil AreSafe.nil
            AreSafe.nil)
          (walk-AreSafe (nodes body) body w) AreSafe.nil AreSafe.nil)
        AreSafe.nil),
)
