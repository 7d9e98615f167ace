-- ===== src/Programs/Checks.antt =====
-- app_v1/slaves/cae/app/program.py: what is checked of one node.
use Prim.Native.Char.{code}
use text.Mathlib.Text.{◌==◌ as str_eq}
use gpstation.Prelude.{String, ℕ, Bool, true, false, ◌||◌, not, List, [], ◌∷◌, ◌==◌}
use gpstation.Programs.Syntax.{
  Node, name, attribute, call, assign, ann_assign, for_loop, async_for_loop, list_display,
  tuple_display, other, Nodes, nil, cons,
}

-- Each message of a `CaeError`.
pub data Refusal : Type 0 where
  source_required not_utf8 source_too_large : Refusal
  syntax_error : String → ℕ → Refusal
  not_one_function wrong_entrypoint wrong_signature : Refusal
  construct_not_allowed : String → Refusal
  reserved_assigned : String → Refusal
  target_not_local private_name private_attribute foreign_attribute : Refusal
  call_not_allowed : String → Refusal
  foreign_call not_loaded not_async : Refusal
  -- Only of a walk that is given too little fuel.
  unfinished : Refusal

pub data Verdict (A : Type 0) : Type 0 where
  allowed : A → Verdict A
  refused : Refusal → Verdict A

infixl 5 ◌>>=◌ ◌>>◌
abbrev pub ◌>>=◌ : {A B : Type 0} → Verdict A → (A → Verdict B) → Verdict B
allowed a >>= f = f a
refused why >>= f = refused why

abbrev pub ◌>>◌ : {B : Type 0} → Verdict Unit → Verdict B → Verdict B
m >> k = m >>= λ _. k

-- `if test: raise CaeError(…)`
abbrev pub refuse_if : Bool → Refusal → Verdict Unit
refuse_if true why = refused why
refuse_if false why = allowed tt

abbrev pub member : String → List String → Bool
member s [] = false
member s (t ∷ ts) = str_eq s t || member s ts

abbrev pub allowed_builtins : List String
allowed_builtins =
    "abs" ∷ "bool" ∷ "enumerate" ∷ "float" ∷ "int" ∷ "len" ∷ "max" ∷ "min" ∷ "range" ∷ "round"
    ∷ "str" ∷ "sum" ∷ "tuple" ∷ "zip" ∷ []

abbrev pub sim_methods : List String
sim_methods = "run" ∷ "record" ∷ "release" ∷ "random" ∷ []

abbrev pub parameters : List String
parameters = "sim" ∷ "tasks" ∷ "vars" ∷ "world" ∷ []

unfoldable pub is_builtin : String → Bool
is_builtin id = member id allowed_builtins

unfoldable pub is_method : String → Bool
is_method attr = member attr sim_methods

unfoldable pub is_reserved : String → Bool
unfolding is_builtin
is_reserved id = is_builtin id || member id parameters

-- `id.startswith("_")`
unfoldable pub is_private : String → Bool
is_private String.[] = false
is_private (String.◌∷◌ c s) = code c == 95

unfoldable pub is_sim : String → Bool
is_sim id = str_eq id "sim"

unfoldable mutual
  pub validate_assignment_target : Bool → Node → Verdict Unit
  validate_assignment_target unpacking (name id) = refuse_if (is_reserved id) (reserved_assigned id)
  validate_assignment_target true (list_display elts) = validate_targets true elts
  validate_assignment_target true (tuple_display elts) = validate_targets true elts
  validate_assignment_target _ _ = refused target_not_local

  pub validate_targets : Bool → Nodes → Verdict Unit
  validate_targets unpacking nil = allowed tt
  validate_targets unpacking (cons n ns) =
      validate_assignment_target unpacking n >> validate_targets unpacking ns

-- `isinstance(node, ast.Name) and node.id == "sim"`
abbrev pub is_sim_name : Node → Bool
is_sim_name (name id) = is_sim id
is_sim_name _ = false

unfoldable pub validate_call : Node → Verdict Unit
validate_call (name id) = refuse_if (not (is_builtin id)) (call_not_allowed id)
validate_call (attribute value attr) =
    refuse_if (not (is_sim_name value) || not (is_method attr)) foreign_call
validate_call _ = refused foreign_call

-- The body of the loop over `ast.walk(tree)`.
unfoldable pub check_node : Node → Verdict Unit
check_node (other kind nodes) = refused (construct_not_allowed kind)
check_node (assign targets value) = validate_targets false targets
check_node (ann_assign target annotation value) = validate_assignment_target false target
check_node (for_loop target iter body orelse) = validate_assignment_target true target
check_node (async_for_loop target iter body orelse) = validate_assignment_target true target
check_node (name id) = refuse_if (is_private id) private_name
check_node (attribute value attr) = do
  refuse_if (is_private attr) private_attribute
  refuse_if (not (is_sim_name value) || not (is_method attr)) foreign_attribute
check_node (call func args keywords) = validate_call func
check_node _ = allowed tt
