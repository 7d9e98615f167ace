-- ===== src/Programs/Examples.antt =====
-- app_v1/slaves/cae/app/program.py: small programs, and the theorems about them.
use gpstation.Prelude.{String, true, some, ◌≡◌, ◌↔◌, refl}
use gpstation.Programs.Syntax.{Node, Nodes, children}
use gpstation.Programs.Checks.{
  allowed, refused, foreign_attribute, check_node, validate_call, validate_assignment_target,
  is_builtin, is_method, is_reserved, is_private, is_sim, reserved_assigned,
}
use gpstation.Programs.Validation.{
  size, nodes, walk, parsed, coroutine_function, Python, check_entrypoint,
  validate_and_load_simulate,
}
use gpstation.Programs.Acceptance.{IsProgram, accepted_iff}
use gpstation.Programs.Shadowing.{definition, assignment, reserved_shadowed}

abbrev one : Node → Nodes
one n = Nodes.cons n Nodes.nil

abbrev parameter : String → Node
parameter id = Node.arg id Nodes.nil

abbrev simulate : Nodes → Node
simulate body =
    Node.async_function_def "simulate"
      (Node.arguments Nodes.nil Nodes.nil Nodes.nil
        (Nodes.cons (parameter "sim") (
          Nodes.cons (parameter "tasks") (Nodes.cons (parameter "vars") (one (parameter "world")))))
        Nodes.nil Nodes.nil Nodes.nil)
      body Nodes.nil Nodes.nil

-- await sim.run(tasks)
abbrev runs_tasks : Node
runs_tasks = Node.plain (
    one (
      Node.plain (
        one (
          Node.call (Node.attribute (Node.name "sim") "run") (one (Node.name "tasks")) Nodes.nil))))

-- for (i, x) in enumerate(vars): await sim.run(tasks)
abbrev loops : Node
loops =
    Node.for_loop (Node.tuple_display (Nodes.cons (Node.name "i") (one (Node.name "x"))))
      (Node.call (Node.name "enumerate") (one (Node.name "vars")) Nodes.nil) (one runs_tasks)
      Nodes.nil

-- y = vars.copy
abbrev reaches_out : Node
reaches_out = Node.assign (one (Node.name "y")) (Node.attribute (Node.name "vars") "copy")

abbrev python_of : Nodes → Python
python_of body = record {
  utf8_size = λ s. some 100;
  strip = λ s. s;
  parse = λ s. parsed (one (simulate body));
  load = λ f. coroutine_function;
}

runs :
    validate_and_load_simulate (python_of (one loops)) (some "source")
    ≡ allowed (simulate (one loops))
unfolding validate_and_load_simulate check_entrypoint walk check_node validate_call
    validate_assignment_target is_builtin is_method is_reserved is_private is_sim size children
runs = refl

stops :
    validate_and_load_simulate (python_of (one reaches_out)) (some "source")
    ≡ refused foreign_attribute
unfolding validate_and_load_simulate check_entrypoint walk check_node validate_call
    validate_assignment_target is_builtin is_method is_reserved is_private is_sim size children
stops = refl

accepted_iff_example :
    (validate_and_load_simulate (python_of (one loops)) (some "source")
      ≡ allowed (simulate (one loops)))
    ↔ IsProgram (python_of (one loops)) "source" (simulate (one loops))
accepted_iff_example = accepted_iff (python_of (one loops)) "source" (simulate (one loops))

is_taken : is_reserved "sim" ≡ true
unfolding is_reserved is_builtin
is_taken = refl

passes : walk (nodes (one runs_tasks)) (one runs_tasks) ≡ allowed tt
unfolding walk check_node validate_call is_builtin is_method is_private is_sim size children
passes = refl

reserved_shadowed_example :
    (walk (size (assignment "sim" (Node.name "vars"))) (one (assignment "sim" (Node.name "vars")))
      ≡ refused (reserved_assigned "sim"))
    × (walk (size (definition "sim" (one runs_tasks))) (one (definition "sim" (one runs_tasks)))
        ≡ allowed tt)
reserved_shadowed_example =
    reserved_shadowed "sim" (Node.name "vars") (one runs_tasks) is_taken passes
