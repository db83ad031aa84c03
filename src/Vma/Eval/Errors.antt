-- ===== src/Vma/Eval/Errors.antt =====
-- The error counter of src/vma/vma_misc.c over the evaluation of src/vma/vma_asm.c.
use mathlib.Core.Path.{subst}
use mette.Base.{
  ℕ, zero, suc, ◌+◌, ◌≤◌, ◌≡◌, refl, Bool, true, false, Option, none, some, arith, String,
}
use mette.Base.{get_elem?, if◌then◌else◌, ◌==◌}
use mette.Vma.Syntax.{
  SymbolId, SymRef, ExprId, Node, literal, symref, binary, unary, BinOp, Meaning,
}
use mette.Vma.Syntax.{label, constant, ncall, resolved}
use mette.Vma.Symtab.{lookup_chain}
use mette.Vma.Eval.{Outcome, done, aborted, out_of_fuel, ◌>>=◌, Asm, error, set_value, set_node}
use mette.Vma.Eval.{
  apply_binary, apply_unary, eval_meaning, eval_symref, eval_node, evaluate_expr, symbol_at,
  value_of, failed, ref_name,
}

-- `P` holds of the result, if the program goes on.
abbrev pub Reaches {ℓ κ} : {A : Type ℓ} → (A → Type κ) → Outcome A → Type κ
Reaches P (done a) = P a
Reaches P aborted = Unit
Reaches P out_of_fuel = Unit

pub Reaches-bind {ℓ κ μ ν} :
    {A : Type ℓ} {B : Type κ} (P : A → Type μ) (Q : B → Type ν) (m : Outcome A) (f : A → Outcome B)
    → Reaches P m
    → ((a : A) → P a → Reaches Q (f a))
    → Reaches Q (m >>= f)
Reaches-bind P Q (done a) f h k = k a h
Reaches-bind P Q aborted f h k = tt
Reaches-bind P Q out_of_fuel f h k = tt

pub Reaches-done {ℓ κ} :
    {A : Type ℓ} (P : A → Type κ) (m : Outcome A) (a : A) → Reaches P m → m ≡ done a → P a
Reaches-done P m a h e = subst (Reaches P) e h

pub Reaches-if {ℓ κ} :
    {A : Type ℓ} (P : A → Type κ) (b : Bool) (x y : Outcome A)
    → Reaches P x
    → Reaches P y
    → Reaches P (if b then x else y)
Reaches-if P true x y h k = h
Reaches-if P false x y h k = k

Reaches-option {ℓ κ μ} :
    {A : Type ℓ} {B : Type κ} (P : B → Type μ) (o : Option A) (x : Outcome B) (f : A → Outcome B)
    → Reaches P x
    → ((a : A) → Reaches P (f a))
    → Reaches P (elim o [ none ↦ x | some a ↦ f a ])
Reaches-option P none x f h k = h
Reaches-option P (some a) x f h k = k a

Reaches-bool {ℓ κ} :
    {A : Type ℓ} (P : A → Type κ) (b : Bool) (x y : Outcome A)
    → Reaches P x
    → Reaches P y
    → Reaches P (elim b [ false ↦ x | true ↦ y ])
Reaches-bool P false x y h k = h
Reaches-bool P true x y h k = k

pub Reaches-weaken {ℓ κ μ} :
    {A : Type ℓ} (P : A → Type κ) (Q : A → Type μ) (m : Outcome A)
    → Reaches P m
    → ((a : A) → P a → Reaches Q (done a))
    → Reaches Q m
Reaches-weaken P Q (done a) h f = f a h
Reaches-weaken P Q aborted h f = tt
Reaches-weaken P Q out_of_fuel h f = tt

-- No error is taken back: the counter of the state after is at least that before.
abbrev pub Counts : {A : Type 0} → Asm → A × Asm → Type 0
Counts s r = s.errors ≤ r.1.errors

error-Counts : (s : Asm) → Reaches (λ s'. s'.errors ≡ s.errors + 1) (error s)
unfolding error
error-Counts s = ground arith

set_value-errors : (id : ExprId) (v : ℕ) (s : Asm) → (set_value id v s).errors ≡ s.errors
unfolding set_value
set_value-errors id v s = ground arith

set_node-errors : (id : ExprId) (n : Node) (s : Asm) → (set_node id n s).errors ≡ s.errors
unfolding set_node
set_node-errors id n s = ground arith

apply_binary-Counts : (op : BinOp) (a b : ℕ) (s : Asm) → Reaches (Counts s) (apply_binary op a b s)
unfolding apply_binary
apply_binary-Counts BinOp.or a b s = omega arith
apply_binary-Counts BinOp.and a b s = omega arith
apply_binary-Counts BinOp.xor a b s = omega arith
apply_binary-Counts BinOp.add a b s = omega arith
apply_binary-Counts BinOp.sub a b s = omega arith
apply_binary-Counts BinOp.mul a b s = omega arith
apply_binary-Counts BinOp.div a b s =
    Reaches-if (Counts s) (b == 0) _ _
      (Reaches-bind (λ s'. s'.errors ≡ s.errors + 1) (Counts s) (error s) (λ s'. done (1, s'))
        (error-Counts s) (λ s' e. omega arith))
      (omega arith)

failed-Counts : (s : Asm) → Reaches (Counts s) (failed s)
failed-Counts s =
    Reaches-bind (λ s'. s'.errors ≡ s.errors + 1) (Counts s) (error s) (λ s'. done (false, s'))
      (error-Counts s) (λ s' e. omega arith)

-- The end of an evaluation: the value is stored if there is one.
stored-errors :
    (got : Bool) (id : ExprId) (v : ℕ) (s : Asm)
    → (if got then set_value id v s else s).errors ≡ s.errors
stored-errors true id v s = set_value-errors id v s
stored-errors false id v s = refl

module _ (stale : SymbolId → String) where
  module _ (eval : ExprId → Asm → Outcome (Bool × Asm))
      (counts : (id : ExprId) (s : Asm) → Reaches (Counts s) (eval id s)) where
    eval_meaning-Counts :
        (id : ExprId) (m : Meaning) (s : Asm) → Reaches (Counts s) (eval_meaning stale eval id m s)
    unfolding eval_meaning
    eval_meaning-Counts id (label i) s =
        Reaches-option (Counts s) (get_elem? s.addrs i) _ _ (failed-Counts s)
          (λ addr. omega (arith, set_value-errors id addr s))
    eval_meaning-Counts id (constant e) s =
        Reaches-bind (Counts s) (Counts s) (eval e s) _ (counts e s)
          (λ r h. omega (arith, stored-errors r.0 id (value_of r.1 e) r.1))
    eval_meaning-Counts id (ncall _) s = failed-Counts s

    eval_symref-Counts :
        (id : ExprId) (r : SymRef) (s : Asm) → Reaches (Counts s) (eval_symref stale eval id r s)
    unfolding eval_symref
    eval_symref-Counts id r s =
        Reaches-option (Counts s) (lookup_chain s.tables (ref_name stale r)) _ _ (failed-Counts s)
          (λ found. Reaches-option (Counts s) (symbol_at s.tables found) _ _ tt (λ sym.
            let s1 = set_node id (symref (resolved found)) s in
            Reaches-weaken (Counts s1) (Counts s) _ (eval_meaning-Counts id sym.meaning s1)
              (λ r h. omega (arith, set_node-errors id (symref (resolved found)) s))))

    eval_node-Counts :
        (id : ExprId) (n : Node) (s : Asm) → Reaches (Counts s) (eval_node stale eval id n s)
    unfolding eval_node
    eval_node-Counts id literal s = omega arith
    eval_node-Counts id (symref r) s = eval_symref-Counts id r s
    eval_node-Counts id (binary op a b) s =
        Reaches-bind (Counts s) (Counts s) (eval a s) _ (counts a s) (λ r h.
          Reaches-bool (Counts s) r.0 _ _ (omega arith) (
            Reaches-bind (Counts s) (Counts s) (eval b r.1) _
              (Reaches-weaken (Counts r.1) (Counts s) _ (counts b r.1) (λ q k. omega arith))
              (λ q k. Reaches-bool (Counts s) q.0 _ _ (omega arith) (
                Reaches-bind (Counts q.1) (Counts s) _ _
                  (apply_binary-Counts op (value_of q.1 a) (value_of q.1 b) q.1)
                  (λ v l. omega (arith, set_value-errors id v.0 v.1))))))
    eval_node-Counts id (unary op a) s =
        Reaches-bind (Counts s) (Counts s) (eval a s) _ (counts a s)
          (λ r h. omega (arith, stored-errors r.0 id (apply_unary op (value_of r.1 a)) r.1))

  pub evaluate_expr-Counts :
      (fuel : ℕ) (id : ExprId) (s : Asm) → Reaches (Counts s) (evaluate_expr stale fuel id s)
  unfolding evaluate_expr
  evaluate_expr-Counts zero id s = tt
  evaluate_expr-Counts (suc fuel) id s =
      Reaches-option (Counts s) (get_elem? s.exprs id) _ _ tt
        (λ e. eval_node-Counts (evaluate_expr stale fuel) (evaluate_expr-Counts fuel) id e.node s)
