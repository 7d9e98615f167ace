-- ===== src/Programs/Syntax.antt =====
-- app_v1/slaves/cae/app/program.py: the trees that `ast.parse` makes, as far as the checks tell their nodes apart.
use gpstation.Prelude.{String}

-- Child nodes stand in the order of `ast.iter_child_nodes`; one that may be missing is a list of at most one. The
-- contexts Load and Store are left out: they are allowed everywhere and have no children. `plain` is any other
-- allowed node, `other` a node of a type that is not allowed, with the type's name.
mutual
  pub data Node : Type 0 where
    name : String → Node
    attribute : Node → String → Node
    call : Node → Nodes → Nodes → Node
    assign : Nodes → Node → Node
    ann_assign : Node → Node → Nodes → Node
    for_loop : Node → Node → Nodes → Nodes → Node
    async_for_loop : Node → Node → Nodes → Nodes → Node
    list_display : Nodes → Node
    tuple_display : Nodes → Node
    async_function_def : String → Node → Nodes → Nodes → Nodes → Node
    arguments : Nodes → Nodes → Nodes → Nodes → Nodes → Nodes → Nodes → Node
    arg : String → Nodes → Node
    plain : Nodes → Node
    other : String → Nodes → Node

  pub data Nodes : Type 0 where
    nil : Nodes
    cons : Node → Nodes → Nodes

infixr 65 ◌+++◌
abbrev pub ◌+++◌ : Nodes → Nodes → Nodes
nil +++ ms = ms
cons n ns +++ ms = cons n (ns +++ ms)

-- `ast.iter_child_nodes`
unfoldable pub children : Node → Nodes
children (name id) = nil
children (attribute value attr) = cons value nil
children (call func args keywords) = cons func (args +++ keywords)
children (assign targets value) = targets +++ cons value nil
children (ann_assign target annotation value) = cons target (cons annotation value)
children (for_loop target iter body orelse) = cons target (cons iter (body +++ orelse))
children (async_for_loop target iter body orelse) = cons target (cons iter (body +++ orelse))
children (list_display elts) = elts
children (tuple_display elts) = elts
children (async_function_def id args body decorators rest) =
    cons args (body +++ decorators +++ rest)
children (arguments posonly args vararg kwonly kw_defaults kwarg defaults) =
    posonly +++ args +++ vararg +++ kwonly +++ kw_defaults +++ kwarg +++ defaults
children (arg id annotation) = annotation
children (plain nodes) = nodes
children (other kind nodes) = nodes
