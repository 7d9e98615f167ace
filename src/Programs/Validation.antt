-- ===== src/Programs/Validation.antt =====
-- app_v1/slaves/cae/app/program.py: `validate_and_load_simulate`.
use text.Mathlib.Text.{◌==◌ as str_eq}
use gpstation.Prelude.{
  ℕ, zero, suc, ◌+◌, ◌*◌, String, Bool, true, false, ◌&&◌, ◌||◌, not, Option, none, some, List, [],
  ◌∷◌, ltb, if◌then◌else◌,
}
use gpstation.Programs.Syntax.{
  Node, name, async_function_def, arguments, arg, plain, Nodes, nil, cons, ◌+++◌, children,
}
use gpstation.Programs.Checks.{
  source_required, not_utf8, source_too_large, syntax_error, not_one_function, wrong_entrypoint,
  wrong_signature, not_loaded, not_async, unfinished, Verdict, allowed, refused, ◌>>=◌, ◌>>◌,
  refuse_if, parameters, check_node,
}

unfoldable mutual
  pub size : Node → ℕ
  size (name id) = 1
  size (Node.attribute value attr) = suc (size value)
  size (Node.call func args keywords) = suc (size func + (nodes args + nodes keywords))
  size (Node.assign targets value) = suc (nodes targets + size value)
  size (Node.ann_assign target annotation value) =
      suc (size target + (size annotation + nodes value))
  size (Node.for_loop target iter body orelse) =
      suc (size target + (size iter + (nodes body + nodes orelse)))
  size (Node.async_for_loop target iter body orelse) =
      suc (size target + (size iter + (nodes body + nodes orelse)))
  size (Node.list_display elts) = suc (nodes elts)
  size (Node.tuple_display elts) = suc (nodes elts)
  size (async_function_def id args body decorators rest) =
      suc (size args + (nodes body + (nodes decorators + nodes rest)))
  size (arguments posonly args vararg kwonly kw_defaults kwarg defaults) = suc (
      nodes posonly
      + (nodes args
          + (nodes vararg + (nodes kwonly + (nodes kw_defaults + (nodes kwarg + nodes defaults))))))
  size (arg id annotation) = suc (nodes annotation)
  size (plain ns) = suc (nodes ns)
  size (Node.other kind ns) = suc (nodes ns)

  pub nodes : Nodes → ℕ
  nodes nil = 0
  nodes (cons n ns) = size n + nodes ns

-- The loop over `ast.walk`, which takes nodes from the front of a queue and adds their children at its end. One
-- unit of fuel goes with each node.
unfoldable pub walk : ℕ → Nodes → Verdict Unit
walk fuel nil = allowed tt
walk zero (cons n ns) = refused unfinished
walk (suc fuel) (cons n ns) = let rest = walk fuel (ns +++ children n) in check_node n >> rest

-- What the checks rely on of Python: the UTF-8 size of a text, if it has one, `str.strip`, `ast.parse` with
-- the statements of the module, and what `exec` binds the name `simulate` to.
pub data Parsed : Type 0 where
  parsed : Nodes → Parsed
  failed : String → ℕ → Parsed

pub data Loaded : Type 0 where
  raised nothing_async coroutine_function : Loaded

pub record Python : Type 0 where
  pub utf8_size : String → Option ℕ
  pub strip : String → String
  pub parse : String → Parsed
  pub load : Node → Loaded

abbrev pub max_simulation_source_bytes : ℕ
max_simulation_source_bytes = 1024 * 1024

abbrev pub is_empty_text : String → Bool
is_empty_text String.[] = true
is_empty_text (String.◌∷◌ c s) = false

abbrev pub is_nil : Nodes → Bool
is_nil nil = true
is_nil (cons n ns) = false

-- `[arg.arg for arg in args.kwonlyargs] == …`
abbrev pub are_named : Nodes → List String → Bool
are_named nil [] = true
are_named (cons (arg id annotation) ns) (s ∷ ss) = str_eq id s && are_named ns ss
are_named _ _ = false

abbrev pub has_signature : Node → Bool
has_signature (arguments posonly args vararg kwonly kw_defaults kwarg defaults) =
    is_nil posonly
    && is_nil args
    && is_nil vararg
    && is_nil kwarg
    && are_named kwonly parameters
    && is_nil kw_defaults
has_signature _ = false

abbrev pub the_function : Nodes → Verdict Node
the_function (cons (async_function_def id args body decorators rest) nil) =
    allowed (async_function_def id args body decorators rest)
the_function _ = refused not_one_function

unfoldable pub check_entrypoint : Node → Verdict Unit
check_entrypoint (async_function_def id args body decorators rest) = do
  refuse_if (not (str_eq id "simulate") || not (is_nil decorators)) wrong_entrypoint
  refuse_if (not (has_signature args)) wrong_signature
check_entrypoint _ = refused not_one_function

abbrev pub check_size : Option ℕ → Verdict Unit
check_size none = refused not_utf8
check_size (some n) = refuse_if (ltb max_simulation_source_bytes n) source_too_large

abbrev pub take_tree : Parsed → Verdict Nodes
take_tree (parsed body) = allowed body
take_tree (failed message line) = refused (syntax_error message line)

abbrev pub check_text : (String → String) → Option String → Verdict String
check_text strip none = refused source_required
check_text strip (some source) =
    if is_empty_text (strip source) then refused source_required else allowed source

abbrev pub take_loaded : Node → Loaded → Verdict Node
take_loaded tree raised = refused not_loaded
take_loaded tree nothing_async = refused not_async
take_loaded tree coroutine_function = allowed tree

-- A source that is not a text is `none`. The result is the function's tree.
unfoldable pub validate_and_load_simulate : Python → Option String → Verdict Node
validate_and_load_simulate p given = do
  source ← check_text p.strip given
  check_size (p.utf8_size source)
  body ← take_tree (p.parse source)
  function ← the_function body
  check_entrypoint function
  walk (size (plain body)) (cons (plain body) nil)
  take_loaded function (p.load function)
