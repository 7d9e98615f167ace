-- ===== src/Programs/Entrypoint.antt =====
-- app_v1/slaves/cae/app/program.py: the signature of the entrypoint.
use text.Mathlib.Text.{◌==◌ as str_eq}
use text.Mathlib.TextEquality.{eq_iff}
use mathlib.Core.Path.{subst}
use gpstation.Prelude.{
  String, true, ◌||◌, not, List, [], ◌∷◌, ◌≡◌, inl, inr, refl, arith, Bool-cases,
}
use gpstation.Programs.Syntax.{Node, Nodes}
use gpstation.Programs.Checks.{wrong_entrypoint, wrong_signature, allowed, refuse_if, parameters}
use gpstation.Programs.Validation.{is_nil, are_named, has_signature, check_entrypoint}
use gpstation.Programs.Meaning.{>>-allowed, refuse_if-allowed}

-- Parameters with these names, in this order.
pub data AreNamed : Nodes → List String → Type 0 where
  no_more : AreNamed Nodes.nil []
  named :
      {id : String} {annotation ns : Nodes} {ids : List String}
      → AreNamed ns ids
      → AreNamed (Nodes.cons (Node.arg id annotation) ns) (id ∷ ids)

-- `async def simulate(*, sim, tasks, vars, world)`, undecorated and without defaults.
pub data IsEntrypoint : Node → Type 0 where
  entry :
      {id : String} {kwonly defaults body rest : Nodes}
      → id ≡ "simulate"
      → AreNamed kwonly parameters
      → IsEntrypoint (
          Node.async_function_def id
            (Node.arguments Nodes.nil Nodes.nil Nodes.nil kwonly Nodes.nil Nodes.nil defaults)
            body
            Nodes.nil
            rest)

are_named-AreNamed : (ns : Nodes) (ids : List String) → are_named ns ids ≡ true → AreNamed ns ids
are_named-AreNamed Nodes.nil [] e = no_more
are_named-AreNamed Nodes.nil (i ∷ is) e = cc
are_named-AreNamed (Nodes.cons (Node.arg id annotation) ns) (i ∷ is) e =
    elim (Bool-cases (str_eq id i)) [
      | inl h ↦
          subst (λ k. AreNamed (Nodes.cons (Node.arg id annotation) ns) (k ∷ is))
            ((eq_iff id i).0 h) (named (are_named-AreNamed ns is (rw h at e)))
      | inr h ↦ cc (rw h at e)
    ]
are_named-AreNamed _ _ e = cc

AreNamed-are_named : {ns : Nodes} {ids : List String} → AreNamed ns ids → are_named ns ids ≡ true
AreNamed-are_named no_more = refl
AreNamed-are_named (named {id} a) = rw ((eq_iff id id).1 refl) (AreNamed-are_named a)

is_nil-eq : (ns : Nodes) → is_nil ns ≡ true → ns ≡ Nodes.nil
is_nil-eq Nodes.nil e = refl
is_nil-eq (Nodes.cons n ns) e = cc

entry_of :
    (id : String) (args : Node) (body decorators rest : Nodes)
    → id ≡ "simulate"
    → is_nil decorators ≡ true
    → has_signature args ≡ true
    → IsEntrypoint (Node.async_function_def id args body decorators rest)
entry_of id (Node.arguments posonly args vararg kwonly kw_defaults kwarg defaults) body decorators
      rest e d s =
    rw (is_nil-eq decorators d) (
      rw (is_nil-eq posonly (ground (arith, s))) (
        rw (is_nil-eq args (ground (arith, s))) (
          rw (is_nil-eq vararg (ground (arith, s))) (
            rw (is_nil-eq kw_defaults (ground (arith, s))) (
              rw (is_nil-eq kwarg (ground (arith, s)))
                (entry e (are_named-AreNamed kwonly parameters (ground (arith, s)))))))))
entry_of id _ body decorators rest e d s = cc

pub signature-IsEntrypoint : (f : Node) → check_entrypoint f ≡ allowed tt → IsEntrypoint f
unfolding check_entrypoint
signature-IsEntrypoint (Node.async_function_def id args body decorators rest) e =
    let (h, t) =
      >>-allowed
        (refuse_if (not (str_eq id "simulate") || not (is_nil decorators)) wrong_entrypoint) _ e in
    let g = refuse_if-allowed _ _ h in
    entry_of id args body decorators rest ((eq_iff id "simulate").0 (ground (arith, g)))
      (ground (arith, g))
      (ground (arith, refuse_if-allowed (not (has_signature args)) wrong_signature t))
signature-IsEntrypoint _ e = cc

pub IsEntrypoint-passes : {f : Node} → IsEntrypoint f → check_entrypoint f ≡ allowed tt
unfolding check_entrypoint
IsEntrypoint-passes (entry {id} {kwonly} e a) =
    rw ((eq_iff id "simulate").1 e) (rw (AreNamed-are_named a) refl)
