-- ===== src/Programs/Acceptance.antt =====
-- app_v1/slaves/cae/app/program.py: which sources `validate_and_load_simulate` accepts.
use mathlib.Core.Path.{subst}
use gpstation.Prelude.{
  ℕ, ◌≤◌, String, false, Option, none, some, ◌≡◌, ◌↔◌, inl, inr, refl, sym, ap, ◌∙◌, arith, ltb,
  Bool-cases,
}
use gpstation.Programs.Syntax.{Node, Nodes}
use gpstation.Programs.Checks.{Verdict, allowed, refused, ◌>>=◌}
use gpstation.Programs.Validation.{
  size, nodes, walk, Parsed, parsed, failed, Loaded, raised, nothing_async, coroutine_function,
  Python, max_simulation_source_bytes, is_empty_text, the_function, check_entrypoint, check_size,
  take_tree, check_text, take_loaded, validate_and_load_simulate,
}
use gpstation.Programs.Safe.{IsSafe, AreSafe}
use gpstation.Programs.Meaning.{refuse_if-allowed}
use gpstation.Programs.Entrypoint.{IsEntrypoint, entry, signature-IsEntrypoint, IsEntrypoint-passes}
use gpstation.Programs.Walk.{walk-AreSafe, walk-allowed}

-- The sources that are meant to be accepted, with their function.
pub record IsProgram (p : Python) (source : String) (function : Node) : Type 0 where
  pub written : is_empty_text (p.strip source) ≡ false
  pub bytes : ℕ
  pub is_utf8 : p.utf8_size source ≡ some bytes
  pub fits : bytes ≤ max_simulation_source_bytes
  pub is_alone : p.parse source ≡ parsed (Nodes.cons function Nodes.nil)
  pub entrypoint : IsEntrypoint function
  pub safe : IsSafe function
  pub loads : p.load function ≡ coroutine_function

>>=-allowed :
    {A B : Type 0} (m : Verdict A) (k : A → Verdict B) {b : B}
    → (m >>= k) ≡ allowed b
    → (a : A) × (m ≡ allowed a) × (k a ≡ allowed b)
>>=-allowed (allowed a) k e = (a, refl, e)
>>=-allowed (refused why) k e = cc

text-allowed :
    (strip : String → String) (given : Option String) (source : String)
    → check_text strip given ≡ allowed source
    → (given ≡ some source) × (is_empty_text (strip source) ≡ false)
text-allowed strip none source e = cc
text-allowed strip (some given) source e = elim (Bool-cases (is_empty_text (strip given))) [
  | inl h ↦ cc (rw h at e)
  | inr h ↦
      let same : given ≡ source = cc (rw h at e) in
      (ap some same, ap (λ s. is_empty_text (strip s)) (sym same) ∙ h)
]

size-allowed :
    (o : Option ℕ)
    → check_size o ≡ allowed tt
    → (n : ℕ) × (o ≡ some n) × (n ≤ max_simulation_source_bytes)
size-allowed none e = cc
size-allowed (some n) e = (n, refl, ground (arith, refuse_if-allowed _ _ e))

tree-allowed : (t : Parsed) (body : Nodes) → take_tree t ≡ allowed body → t ≡ parsed body
tree-allowed (parsed ns) body e = cc
tree-allowed (failed message line) body e = cc

function-alone :
    (body : Nodes) (f : Node) → the_function body ≡ allowed f → body ≡ Nodes.cons f Nodes.nil
function-alone (Nodes.cons (Node.async_function_def id args b d r) Nodes.nil) f e = cc
function-alone _ f e = cc

loaded-allowed :
    (f g : Node) (l : Loaded) → take_loaded f l ≡ allowed g → (f ≡ g) × (l ≡ coroutine_function)
loaded-allowed f g raised e = cc
loaded-allowed f g nothing_async e = cc
loaded-allowed f g coroutine_function e = (cc, refl)

walked-safe :
    {f : Node} → AreSafe (Nodes.cons (Node.plain (Nodes.cons f Nodes.nil)) Nodes.nil) → IsSafe f
walked-safe (AreSafe.cons (IsSafe.plain (AreSafe.cons s rest)) r) = s
walked-safe (AreSafe.cons (IsSafe.method m) r) = elim m [ ]

accepted-IsProgram :
    (p : Python) (given : Option String) (f : Node)
    → validate_and_load_simulate p given ≡ allowed f
    → (source : String) × (given ≡ some source) × IsProgram p source f
unfolding validate_and_load_simulate
accepted-IsProgram p given f e =
    let (source, e0, r0) = >>=-allowed (check_text p.strip given) _ e in
    let (u1, e1, r1) = >>=-allowed (check_size (p.utf8_size source)) _ r0 in
    let (body, e2, r2) = >>=-allowed (take_tree (p.parse source)) _ r1 in
    let (g, e3, r3) = >>=-allowed (the_function body) _ r2 in
    let (u4, e4, r4) = >>=-allowed (check_entrypoint g) _ r3 in
    let (u5, e5, r5) =
      >>=-allowed (walk (size (Node.plain body)) (Nodes.cons (Node.plain body) Nodes.nil)) _ r4 in
    let (same, loads) = loaded-allowed g f (p.load g) r5 in
    let (is_source, written) = text-allowed p.strip given source e0 in
    let (bytes, is_utf8, fits) = size-allowed (p.utf8_size source) e1 in
    let alone = function-alone body g e3 in
    let safe = walked-safe (
      subst (λ b. AreSafe (Nodes.cons (Node.plain b) Nodes.nil)) alone
        (walk-AreSafe (size (Node.plain body)) (Nodes.cons (Node.plain body) Nodes.nil) e5)) in
    (
      source,
      is_source,
      subst (IsProgram p source) same record {
        written = written;
        bytes = bytes;
        is_utf8 = is_utf8;
        fits = fits;
        is_alone = tree-allowed (p.parse source) body e2 ∙ ap parsed alone;
        entrypoint = signature-IsEntrypoint g e4;
        safe = safe;
        loads = loads;
      },
    )

whole-size : (n : Node) → nodes (Nodes.cons n Nodes.nil) ≤ size n
unfolding size
whole-size n = omega arith

alone-function : {f : Node} → IsEntrypoint f → the_function (Nodes.cons f Nodes.nil) ≡ allowed f
alone-function (entry e a) = refl

IsProgram-accepted :
    (p : Python) (source : String) (f : Node)
    → IsProgram p source f
    → validate_and_load_simulate p (some source) ≡ allowed f
unfolding validate_and_load_simulate
IsProgram-accepted p source f q =
    let tree = Node.plain (Nodes.cons f Nodes.nil) in
    let small : ltb max_simulation_source_bytes q.bytes ≡ false = ground (arith, q.fits) in
    rw q.written (
      rw q.is_utf8 (
        rw small (
          rw q.is_alone (
            rw (alone-function q.entrypoint) (
              rw (IsEntrypoint-passes q.entrypoint) (
                rw
                  (walk-allowed (size tree) (Nodes.cons tree Nodes.nil) (whole-size tree)
                    (AreSafe.cons (IsSafe.plain (AreSafe.cons q.safe AreSafe.nil)) AreSafe.nil))
                  (rw q.loads refl)))))))

-- A source is accepted, with a function, exactly when it is a text of at most 1 MiB that parses to that function
-- alone, an undecorated `async def simulate(*, sim, tasks, vars, world)` of the grammar of safe programs that loads.
pub accepted_iff :
    (p : Python) (source : String) (f : Node)
    → (validate_and_load_simulate p (some source) ≡ allowed f) ↔ IsProgram p source f
accepted_iff p source f = (
  (λ e.
      let (s, same, q) = accepted-IsProgram p (some source) f e in
      subst (λ t. IsProgram p t f) (cc) q),
  IsProgram-accepted p source f,
)
