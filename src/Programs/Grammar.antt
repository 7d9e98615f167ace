-- ===== src/Programs/Grammar.antt =====
-- app_v1/slaves/cae/app/program.py: every program of the grammar passes the checks.
use text.Mathlib.TextEquality.{eq_iff}
use gpstation.Prelude.{String, Bool, true, false, ◌≡◌, refl, ap}
use gpstation.Programs.Syntax.{Node, Nodes, children}
use gpstation.Programs.Checks.{
  allowed, refuse_if, is_private, is_sim, validate_assignment_target, validate_targets,
  validate_call, check_node, reserved_assigned,
}
use gpstation.Programs.Safe.{
  IsLocal, AreLocal, none, one_more, IsPattern, ArePatterns, IsMethod, IsSafe, AreSafe,
}
use gpstation.Programs.Meaning.{AreSafe-append, builtin-public, method-public}

local-IsSafe : {n : Node} → IsLocal n → IsSafe n
local-IsSafe (IsLocal.local p r) = IsSafe.name p

local-target :
    {n : Node} (unpacking : Bool) → IsLocal n → validate_assignment_target unpacking n ≡ allowed tt
unfolding validate_assignment_target
local-target unpacking (IsLocal.local {id} p r) = ap (λ b. refuse_if b (reserved_assigned id)) r

locals-AreSafe : {ns : Nodes} → AreLocal ns → AreSafe ns
locals-AreSafe none = AreSafe.nil
locals-AreSafe (one_more l ls) = AreSafe.cons (local-IsSafe l) (locals-AreSafe ls)

locals-targets : {ns : Nodes} → AreLocal ns → validate_targets false ns ≡ allowed tt
unfolding validate_assignment_target
locals-targets none = refl
locals-targets (one_more l ls) = rw (local-target false l) (locals-targets ls)

mutual
  pattern-IsSafe : {n : Node} → IsPattern n → IsSafe n
  pattern-IsSafe (IsPattern.local l) = local-IsSafe l
  pattern-IsSafe (IsPattern.listed ps) = IsSafe.list_display (patterns-AreSafe ps)
  pattern-IsSafe (IsPattern.tupled ps) = IsSafe.tuple_display (patterns-AreSafe ps)

  patterns-AreSafe : {ns : Nodes} → ArePatterns ns → AreSafe ns
  patterns-AreSafe ArePatterns.nil = AreSafe.nil
  patterns-AreSafe (ArePatterns.cons p ps) = AreSafe.cons (pattern-IsSafe p) (patterns-AreSafe ps)

mutual
  unfolding validate_assignment_target

  pattern-target : {n : Node} → IsPattern n → validate_assignment_target true n ≡ allowed tt
  pattern-target (IsPattern.local l) = local-target true l
  pattern-target (IsPattern.listed ps) = patterns-targets ps
  pattern-target (IsPattern.tupled ps) = patterns-targets ps

  patterns-targets : {ns : Nodes} → ArePatterns ns → validate_targets true ns ≡ allowed tt
  patterns-targets ArePatterns.nil = refl
  patterns-targets (ArePatterns.cons p ps) = rw (pattern-target p) (patterns-targets ps)

sim-public : {id : String} → id ≡ "sim" → is_private id ≡ false
unfolding is_private
sim-public e = ap is_private e

method-check : {n : Node} → IsMethod n → check_node n ≡ allowed tt
unfolding check_node is_sim
method-check (IsMethod.of_sim {id} {attr} e m) =
    rw (method-public attr m) (rw ((eq_iff id "sim").1 e) (rw m refl))

method-children : {n : Node} → IsMethod n → AreSafe (children n)
unfolding children
method-children (IsMethod.of_sim e m) = AreSafe.cons (IsSafe.name (sim-public e)) AreSafe.nil

method-call : {n : Node} → IsMethod n → validate_call n ≡ allowed tt
unfolding validate_call is_sim
method-call (IsMethod.of_sim {id} e m) = rw ((eq_iff id "sim").1 e) (rw m refl)

-- A node of the grammar passes its check, and its children are of the grammar.
pub safe-check : {n : Node} → IsSafe n → check_node n ≡ allowed tt
unfolding check_node validate_call
safe-check (IsSafe.name p) = rw p refl
safe-check (IsSafe.method m) = method-check m
safe-check (IsSafe.builtin_call b s t) = rw b refl
safe-check (IsSafe.method_call m s t) = method-call m
safe-check (IsSafe.assign l v) = locals-targets l
safe-check (IsSafe.ann_assign l a v) = local-target false l
safe-check (IsSafe.for_loop p i b o) = pattern-target p
safe-check (IsSafe.async_for_loop p i b o) = pattern-target p
safe-check (IsSafe.list_display s) = refl
safe-check (IsSafe.tuple_display s) = refl
safe-check (IsSafe.function a b d r) = refl
safe-check (IsSafe.arguments s0 s1 s2 s3 s4 s5 s6) = refl
safe-check (IsSafe.arg s) = refl
safe-check (IsSafe.plain s) = refl

pub safe-children : {n : Node} → IsSafe n → AreSafe (children n)
unfolding children
safe-children (IsSafe.name p) = AreSafe.nil
safe-children (IsSafe.method m) = method-children m
safe-children (IsSafe.builtin_call {id} b s t) =
    AreSafe.cons (IsSafe.name (builtin-public id b)) (AreSafe-append _ _ s t)
safe-children (IsSafe.method_call m s t) = AreSafe.cons (IsSafe.method m) (AreSafe-append _ _ s t)
safe-children (IsSafe.assign l v) =
    AreSafe-append _ _ (locals-AreSafe l) (AreSafe.cons v AreSafe.nil)
safe-children (IsSafe.ann_assign l a v) = AreSafe.cons (local-IsSafe l) (AreSafe.cons a v)
safe-children (IsSafe.for_loop p i b o) =
    AreSafe.cons (pattern-IsSafe p) (AreSafe.cons i (AreSafe-append _ _ b o))
safe-children (IsSafe.async_for_loop p i b o) =
    AreSafe.cons (pattern-IsSafe p) (AreSafe.cons i (AreSafe-append _ _ b o))
safe-children (IsSafe.list_display s) = s
safe-children (IsSafe.tuple_display s) = s
safe-children (IsSafe.function a b d r) =
    AreSafe.cons a (AreSafe-append _ _ b (AreSafe-append _ _ d r))
safe-children (IsSafe.arguments s0 s1 s2 s3 s4 s5 s6) = AreSafe-append _ _ s0 (
    AreSafe-append _ _ s1 (
      AreSafe-append _ _ s2
        (AreSafe-append _ _ s3 (AreSafe-append _ _ s4 (AreSafe-append _ _ s5 s6)))))
safe-children (IsSafe.arg s) = s
safe-children (IsSafe.plain s) = s
