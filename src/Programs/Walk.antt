-- ===== src/Programs/Walk.antt =====
-- app_v1/slaves/cae/app/program.py: what the loop over `ast.walk` comes to.
use gpstation.Prelude.{ℕ, zero, suc, ◌+◌, ◌≤◌, ◌≡◌, refl, arith}
use gpstation.Programs.Syntax.{Node, Nodes, ◌+++◌, children}
use gpstation.Programs.Checks.{allowed, check_node}
use gpstation.Programs.Validation.{size, nodes, walk}
use gpstation.Programs.Safe.{AreSafe}
use gpstation.Programs.Meaning.{>>-allowed, AreSafe-append, AreSafe-split, check-IsSafe}
use gpstation.Programs.Grammar.{safe-check, safe-children}

nodes-append : (ns ms : Nodes) → nodes (ns +++ ms) ≡ nodes ns + nodes ms
unfolding size
nodes-append Nodes.nil ms = omega arith
nodes-append (Nodes.cons n ns) ms = omega (arith, nodes-append ns ms)

size-children : (n : Node) → size n ≡ suc (nodes (children n))
unfolding size children
size-children (Node.name id) = refl
size-children (Node.attribute value attr) = omega arith
size-children (Node.call func args keywords) = omega (arith, nodes-append args keywords)
size-children (Node.assign targets value) =
    omega (arith, nodes-append targets (Nodes.cons value Nodes.nil))
size-children (Node.ann_assign target annotation value) = omega arith
size-children (Node.for_loop target iter body orelse) = omega (arith, nodes-append body orelse)
size-children (Node.async_for_loop target iter body orelse) =
    omega (arith, nodes-append body orelse)
size-children (Node.list_display elts) = refl
size-children (Node.tuple_display elts) = refl
size-children (Node.async_function_def id args body decorators rest) =
    omega (arith, nodes-append body (decorators +++ rest), nodes-append decorators rest)
size-children (Node.arguments posonly args vararg kwonly kw_defaults kwarg defaults) = omega (
  arith,
  nodes-append posonly (args +++ vararg +++ kwonly +++ kw_defaults +++ kwarg +++ defaults),
  nodes-append args (vararg +++ kwonly +++ kw_defaults +++ kwarg +++ defaults),
  nodes-append vararg (kwonly +++ kw_defaults +++ kwarg +++ defaults),
  nodes-append kwonly (kw_defaults +++ kwarg +++ defaults),
  nodes-append kw_defaults (kwarg +++ defaults),
  nodes-append kwarg defaults,
)
size-children (Node.arg id annotation) = refl
size-children (Node.plain ns) = refl
size-children (Node.other kind ns) = refl

-- A step takes one unit from the queue's size.
queue-shrinks :
    (n : Node) (ns : Nodes) (fuel : ℕ)
    → nodes (Nodes.cons n ns) ≤ suc fuel
    → nodes (ns +++ children n) ≤ fuel
unfolding size
queue-shrinks n ns fuel h = omega (arith, size-children n, nodes-append ns (children n))

positive : (n : Node) (ns : Nodes) → 1 ≤ nodes (Nodes.cons n ns)
unfolding size
positive n ns = omega (arith, size-children n)

pub walk-AreSafe : (fuel : ℕ) (ns : Nodes) → walk fuel ns ≡ allowed tt → AreSafe ns
unfolding walk
walk-AreSafe fuel Nodes.nil e = AreSafe.nil
walk-AreSafe zero (Nodes.cons n ns) e = cc
walk-AreSafe (suc fuel) (Nodes.cons n ns) e =
    let (h, t) = >>-allowed (check_node n) (walk fuel (ns +++ children n)) e in
    let (s, c) = AreSafe-split ns (children n) (walk-AreSafe fuel (ns +++ children n) t) in
    AreSafe.cons (check-IsSafe n h c) s

pub walk-allowed :
    (fuel : ℕ) (ns : Nodes) → nodes ns ≤ fuel → AreSafe ns → walk fuel ns ≡ allowed tt
unfolding walk
walk-allowed fuel Nodes.nil h s = refl
walk-allowed zero (Nodes.cons n ns) h s = absurd (omega (arith, h, positive n ns))
walk-allowed (suc fuel) (Nodes.cons n ns) h (AreSafe.cons s ss) = rw (safe-check s) (
    walk-allowed fuel (ns +++ children n) (queue-shrinks n ns fuel h)
      (AreSafe-append ns (children n) ss (safe-children s)))
