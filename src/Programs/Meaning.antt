-- ===== src/Programs/Meaning.antt =====
-- app_v1/slaves/cae/app/program.py: what the checks of one node mean, given that its children are safe.
use text.Mathlib.Text.{◌==◌ as str_eq}
use text.Mathlib.TextEquality.{eq_iff}
use gpstation.Prelude.{
  String, Bool, true, false, ◌||◌, not, List, [], ◌∷◌, ◌≡◌, inl, inr, refl, ap, ◌∙◌, arith,
  Bool-cases, All,
}
use gpstation.Programs.Syntax.{Node, Nodes, ◌+++◌, children}
use gpstation.Programs.Checks.{
  Refusal, Verdict, allowed, refused, ◌>>◌, refuse_if, member, allowed_builtins, sim_methods,
  is_builtin, is_method, is_reserved, is_private, is_sim, is_sim_name, validate_assignment_target,
  validate_targets, validate_call, check_node, private_name, private_attribute,
}
use gpstation.Programs.Safe.{
  IsLocal, AreLocal, none, one_more, IsPattern, ArePatterns, IsMethod, IsSafe, AreSafe,
}

pub refuse_if-allowed : (b : Bool) (why : Refusal) → refuse_if b why ≡ allowed tt → b ≡ false
refuse_if-allowed true why e = cc
refuse_if-allowed false why e = refl

pub >>-allowed : (m k : Verdict Unit) → (m >> k) ≡ allowed tt → (m ≡ allowed tt) × (k ≡ allowed tt)
>>-allowed (allowed tt) k e = (refl, e)
>>-allowed (refused why) k e = cc

pub AreSafe-append : (ns ms : Nodes) → AreSafe ns → AreSafe ms → AreSafe (ns +++ ms)
AreSafe-append Nodes.nil ms s t = t
AreSafe-append (Nodes.cons n ns) ms (AreSafe.cons s ss) t =
    AreSafe.cons s (AreSafe-append ns ms ss t)

pub AreSafe-split : (ns ms : Nodes) → AreSafe (ns +++ ms) → AreSafe ns × AreSafe ms
AreSafe-split Nodes.nil ms t = (AreSafe.nil, t)
AreSafe-split (Nodes.cons n ns) ms (AreSafe.cons s ss) =
    let (l, r) = AreSafe-split ns ms ss in (AreSafe.cons s l, r)

-- The names that mean something are not private.
abbrev ArePublic : List String → Type 0
ArePublic = All (λ t. is_private t ≡ false)

member-public :
    (s : String) (ts : List String) → ArePublic ts → member s ts ≡ true → is_private s ≡ false
member-public s [] p m = cc
member-public s (t ∷ ts) (p, ps) m = elim (Bool-cases (str_eq s t)) [
  | inl e ↦ ap is_private ((eq_iff s t).0 e) ∙ p
  | inr n ↦ member-public s ts ps (rw n at m)
]

pub builtin-public : (id : String) → is_builtin id ≡ true → is_private id ≡ false
unfolding is_builtin is_private
builtin-public id h =
    member-public id allowed_builtins
      (
        refl,
        (
          refl,
          (
            refl,
            (
              refl,
              (refl, (refl, (refl, (refl, (refl, (refl, (refl, (refl, (refl, (refl, tt)))))))))),
            ),
          ),
        ),
      )
      h

pub method-public : (id : String) → is_method id ≡ true → is_private id ≡ false
unfolding is_method is_private
method-public id h = member-public id sim_methods (refl, (refl, (refl, (refl, tt)))) h

pub safe-public : {id : String} → IsSafe (Node.name id) → is_private id ≡ false
safe-public (IsSafe.name h) = h
safe-public (IsSafe.method m) = elim m [ ]

check-IsMethod :
    (n : Node) (attr : String)
    → (not (is_sim_name n) || not (is_method attr)) ≡ false
    → IsMethod (Node.attribute n attr)
unfolding is_sim
check-IsMethod (Node.name id) attr e =
    IsMethod.of_sim ((eq_iff id "sim").0 (ground (arith, e))) (ground (arith, e))
check-IsMethod _ attr e = cc

public-IsLocal :
    {id : String} → IsSafe (Node.name id) → is_reserved id ≡ false → IsLocal (Node.name id)
public-IsLocal s e = IsLocal.local (safe-public s) e

target-IsLocal : (n : Node) → IsSafe n → validate_assignment_target false n ≡ allowed tt → IsLocal n
unfolding validate_assignment_target
target-IsLocal (Node.name id) s e = public-IsLocal s (refuse_if-allowed (is_reserved id) _ e)
target-IsLocal _ s e = cc

targets-AreLocal : (ns : Nodes) → AreSafe ns → validate_targets false ns ≡ allowed tt → AreLocal ns
unfolding validate_assignment_target
targets-AreLocal Nodes.nil s e = none
targets-AreLocal (Nodes.cons n ns) (AreSafe.cons s ss) e =
    let (h, t) = >>-allowed (validate_assignment_target false n) (validate_targets false ns) e in
    one_more (target-IsLocal n s h) (targets-AreLocal ns ss t)

safe-list : {ns : Nodes} → IsSafe (Node.list_display ns) → AreSafe ns
safe-list (IsSafe.list_display s) = s
safe-list (IsSafe.method m) = elim m [ ]

safe-tuple : {ns : Nodes} → IsSafe (Node.tuple_display ns) → AreSafe ns
safe-tuple (IsSafe.tuple_display s) = s
safe-tuple (IsSafe.method m) = elim m [ ]

mutual
  unfolding validate_assignment_target

  target-IsPattern :
      (n : Node) → IsSafe n → validate_assignment_target true n ≡ allowed tt → IsPattern n
  target-IsPattern (Node.name id) s e =
      IsPattern.local (public-IsLocal s (refuse_if-allowed (is_reserved id) _ e))
  target-IsPattern (Node.list_display elts) s e =
      IsPattern.listed (targets-ArePatterns elts (safe-list s) e)
  target-IsPattern (Node.tuple_display elts) s e =
      IsPattern.tupled (targets-ArePatterns elts (safe-tuple s) e)
  target-IsPattern _ s e = cc

  targets-ArePatterns :
      (ns : Nodes) → AreSafe ns → validate_targets true ns ≡ allowed tt → ArePatterns ns
  targets-ArePatterns Nodes.nil s e = ArePatterns.nil
  targets-ArePatterns (Nodes.cons n ns) (AreSafe.cons s ss) e =
      let (h, t) = >>-allowed (validate_assignment_target true n) (validate_targets true ns) e in
      ArePatterns.cons (target-IsPattern n s h) (targets-ArePatterns ns ss t)

call-IsSafe :
    (func : Node) (args keywords : Nodes)
    → validate_call func ≡ allowed tt
    → AreSafe args
    → AreSafe keywords
    → IsSafe (Node.call func args keywords)
unfolding validate_call
call-IsSafe (Node.name id) args keywords e s t =
    IsSafe.builtin_call (ground (arith, refuse_if-allowed (not (is_builtin id)) _ e)) s t
call-IsSafe (Node.attribute value attr) args keywords e s t =
    IsSafe.method_call (check-IsMethod value attr (refuse_if-allowed _ _ e)) s t
call-IsSafe _ args keywords e s t = cc

safe-one : {n : Node} → AreSafe (Nodes.cons n Nodes.nil) → IsSafe n
safe-one (AreSafe.cons s rest) = s

-- A node that passes its check above safe children is safe.
pub check-IsSafe : (n : Node) → check_node n ≡ allowed tt → AreSafe (children n) → IsSafe n
unfolding check_node children
check-IsSafe (Node.name id) e s = IsSafe.name (refuse_if-allowed (is_private id) private_name e)
check-IsSafe (Node.attribute value attr) e s =
    let (h, t) = >>-allowed (refuse_if (is_private attr) private_attribute) _ e in
    IsSafe.method (check-IsMethod value attr (refuse_if-allowed _ _ t))
check-IsSafe (Node.call func args keywords) e (AreSafe.cons f s) =
    let (l, r) = AreSafe-split args keywords s in call-IsSafe func args keywords e l r
check-IsSafe (Node.assign targets value) e s =
    let (l, r) = AreSafe-split targets (Nodes.cons value Nodes.nil) s in
    IsSafe.assign (targets-AreLocal targets l e) (safe-one r)
check-IsSafe (Node.ann_assign target annotation value) e (AreSafe.cons t (AreSafe.cons a v)) =
    IsSafe.ann_assign (target-IsLocal target t e) a v
check-IsSafe (Node.for_loop target iter body orelse) e (AreSafe.cons t (AreSafe.cons i s)) =
    let (l, r) = AreSafe-split body orelse s in IsSafe.for_loop (target-IsPattern target t e) i l r
check-IsSafe (Node.async_for_loop target iter body orelse) e (AreSafe.cons t (AreSafe.cons i s)) =
    let (l, r) = AreSafe-split body orelse s in
    IsSafe.async_for_loop (target-IsPattern target t e) i l r
check-IsSafe (Node.list_display elts) e s = IsSafe.list_display s
check-IsSafe (Node.tuple_display elts) e s = IsSafe.tuple_display s
check-IsSafe (Node.async_function_def id args body decorators rest) e (AreSafe.cons a s) =
    let (b, s') = AreSafe-split body (decorators +++ rest) s in
    let (d, r) = AreSafe-split decorators rest s' in IsSafe.function a b d r
check-IsSafe (Node.arguments posonly args vararg kwonly kw_defaults kwarg defaults) e s =
    let (s0, t0) =
      AreSafe-split posonly (args +++ vararg +++ kwonly +++ kw_defaults +++ kwarg +++ defaults) s in
    let (s1, t1) =
      AreSafe-split args (vararg +++ kwonly +++ kw_defaults +++ kwarg +++ defaults) t0 in
    let (s2, t2) = AreSafe-split vararg (kwonly +++ kw_defaults +++ kwarg +++ defaults) t1 in
    let (s3, t3) = AreSafe-split kwonly (kw_defaults +++ kwarg +++ defaults) t2 in
    let (s4, t4) = AreSafe-split kw_defaults (kwarg +++ defaults) t3 in
    let (s5, s6) = AreSafe-split kwarg defaults t4 in IsSafe.arguments s0 s1 s2 s3 s4 s5 s6
check-IsSafe (Node.arg id annotation) e s = IsSafe.arg s
check-IsSafe (Node.plain ns) e s = IsSafe.plain s
check-IsSafe (Node.other kind ns) e s = cc
