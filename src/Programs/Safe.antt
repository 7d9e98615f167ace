-- ===== src/Programs/Safe.antt =====
-- app_v1/slaves/cae/app/program.py: the programs that are meant to be allowed, as a grammar.
use gpstation.Prelude.{String, true, false, ◌≡◌}
use gpstation.Programs.Syntax.{Node, Nodes}
use gpstation.Programs.Checks.{is_private, is_reserved, is_builtin, is_method}

-- A local name that may be assigned.
pub data IsLocal : Node → Type 0 where
  local : {id : String} → is_private id ≡ false → is_reserved id ≡ false → IsLocal (Node.name id)

pub data AreLocal : Nodes → Type 0 where
  none : AreLocal Nodes.nil
  one_more : {n : Node} {ns : Nodes} → IsLocal n → AreLocal ns → AreLocal (Nodes.cons n ns)

-- What the target of a loop may be: local names in lists and tuples.
mutual
  pub data IsPattern : Node → Type 0 where
    local : {n : Node} → IsLocal n → IsPattern n
    listed : {elts : Nodes} → ArePatterns elts → IsPattern (Node.list_display elts)
    tupled : {elts : Nodes} → ArePatterns elts → IsPattern (Node.tuple_display elts)

  pub data ArePatterns : Nodes → Type 0 where
    nil : ArePatterns Nodes.nil
    cons : {n : Node} {ns : Nodes} → IsPattern n → ArePatterns ns → ArePatterns (Nodes.cons n ns)

-- `sim.run`, `sim.record`, `sim.release` or `sim.random`
pub data IsMethod : Node → Type 0 where
  of_sim :
      {id attr : String}
      → id ≡ "sim"
      → is_method attr ≡ true
      → IsMethod (Node.attribute (Node.name id) attr)

mutual
  pub data IsSafe : Node → Type 0 where
    name : {id : String} → is_private id ≡ false → IsSafe (Node.name id)
    method : {n : Node} → IsMethod n → IsSafe n
    builtin_call :
        {id : String} {args keywords : Nodes}
        → is_builtin id ≡ true
        → AreSafe args
        → AreSafe keywords
        → IsSafe (Node.call (Node.name id) args keywords)
    method_call :
        {n : Node} {args keywords : Nodes}
        → IsMethod n
        → AreSafe args
        → AreSafe keywords
        → IsSafe (Node.call n args keywords)
    assign :
        {targets : Nodes} {value : Node}
        → AreLocal targets
        → IsSafe value
        → IsSafe (Node.assign targets value)
    ann_assign :
        {target annotation : Node} {value : Nodes}
        → IsLocal target
        → IsSafe annotation
        → AreSafe value
        → IsSafe (Node.ann_assign target annotation value)
    for_loop :
        {target iter : Node} {body orelse : Nodes}
        → IsPattern target
        → IsSafe iter
        → AreSafe body
        → AreSafe orelse
        → IsSafe (Node.for_loop target iter body orelse)
    async_for_loop :
        {target iter : Node} {body orelse : Nodes}
        → IsPattern target
        → IsSafe iter
        → AreSafe body
        → AreSafe orelse
        → IsSafe (Node.async_for_loop target iter body orelse)
    list_display : {elts : Nodes} → AreSafe elts → IsSafe (Node.list_display elts)
    tuple_display : {elts : Nodes} → AreSafe elts → IsSafe (Node.tuple_display elts)
    function :
        {id : String} {args : Node} {body decorators rest : Nodes}
        → IsSafe args
        → AreSafe body
        → AreSafe decorators
        → AreSafe rest
        → IsSafe (Node.async_function_def id args body decorators rest)
    arguments :
        {posonly args vararg kwonly kw_defaults kwarg defaults : Nodes}
        → AreSafe posonly
        → AreSafe args
        → AreSafe vararg
        → AreSafe kwonly
        → AreSafe kw_defaults
        → AreSafe kwarg
        → AreSafe defaults
        → IsSafe (Node.arguments posonly args vararg kwonly kw_defaults kwarg defaults)
    arg : {id : String} {annotation : Nodes} → AreSafe annotation → IsSafe (Node.arg id annotation)
    plain : {ns : Nodes} → AreSafe ns → IsSafe (Node.plain ns)

  pub data AreSafe : Nodes → Type 0 where
    nil : AreSafe Nodes.nil
    cons : {n : Node} {ns : Nodes} → IsSafe n → AreSafe ns → AreSafe (Nodes.cons n ns)
