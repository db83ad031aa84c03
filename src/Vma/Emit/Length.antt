-- ===== src/Vma/Emit/Length.antt =====
-- The sizes that pass 1 of src/vma/vma_asm.c reserves, against the bytes that pass 2 writes.
use mette.Base.{ℕ, zero, suc, ◌+◌, ◌*◌, ◌^◌, ◌%◌, ◌≤◌, ◌<◌, ◌≡◌, refl, arith, String, List, [], ◌∷◌}
use mette.Base.{
  ltb, length, length-append, length-replicate, replicate, map, u8, add32, sub32, slt32, ◌||◌, ◌-◌,
}
use mette.Arch.{Opcode}
use mette.Vma.Syntax.{SymbolId, ExprId, Operand, expr, ncall_id, Insn, machine, defb}
use mette.Vma.Syntax.{defh, defw, defs, resb, resh, resw, const_mark, subend, substart}
use mette.Vma.Eval.{done, ◌>>=◌, Asm, error, value_of, evaluate_expr}
use mette.Vma.Pass1.{operand_bytes, Placed}
use mette.Vma.Emit.{
  fill, Written, evaluated, emit_byte, emit_branch, emit_word, emit_relative, emit_values,
  emit_operand, emit_body, emit_insn, form, Form, output_u8, output_u16, output_u32,
}
use mette.Vma.Emit.{bare, byte, branch, number, word, relative}
use mette.Vma.Eval.Errors.{
  Reaches, Reaches-bind, Reaches-weaken, Reaches-if, Counts, evaluate_expr-Counts,
}

abbrev form_bytes : Form → ℕ
form_bytes bare = 0
form_bytes byte = 1
form_bytes branch = 1
form_bytes number = 2
form_bytes word = 4
form_bytes relative = 4

form_bytes-form : (op : Opcode) → form_bytes (form op) ≡ operand_bytes op
unfolding form operand_bytes
form_bytes-form Opcode.ldc_ub = refl
form_bytes-form _ = refl

-- What is written is `n` bytes long, unless there was an error.
abbrev pub Sized : Asm → ℕ → List ℕ × Asm → Type 0
Sized s n r = (s.errors ≤ r.1.errors) × (r.1.errors ≡ s.errors → length r.0 ≡ n)

-- The room that a .RESx takes at the value its expression has.
abbrev pub room : Insn → Asm → ℕ
room (resb e) s = value_of s e
room (resh e) s = 2 * value_of s e
room (resw e) s = 4 * value_of s e
room _ s = 0

-- The bytes of the other instructions do not depend on the state.
abbrev pub fixed_size : Insn → ℕ
fixed_size (machine op _) = 1 + operand_bytes op
fixed_size (defs text) = length text
fixed_size (defb es) = length es
fixed_size (defh es) = 2 * length es
fixed_size (defw es) = 4 * length es
fixed_size _ = 0

-- What pass 1 reserves for a .RESx, and for any instruction.
abbrev Reserved : ℕ → ExprId → Asm → ℕ × Asm → Type 0
Reserved size e s r =
    (s.errors ≤ r.1.errors) × (r.1.errors ≡ s.errors → r.0 ≡ size * value_of r.1 e % 2 ^ 32)

abbrev Estimated : Insn → Asm → ℕ × Asm → Type 0
Estimated insn s r =
    r.1.errors ≡ s.errors → room insn r.1 < 2 ^ 32 → r.0 ≡ fixed_size insn + room insn r.1

length-fill : (n : ℕ) (unit : List ℕ) → length (fill n unit) ≡ n * length unit
unfolding fill
length-fill zero unit = omega arith
length-fill (suc n) unit = omega (arith, length-append unit (fill n unit), length-fill n unit)

length-map : (f : ℕ → ℕ) (xs : List ℕ) → length (map f xs) ≡ length xs
length-map f [] = refl
length-map f (x ∷ xs) = omega (arith, length-map f xs)

one_more :
    (s s' : Asm) → s.errors ≤ s'.errors → Reaches (λ s2. s'.errors + 1 ≤ s2.errors) (error s')
unfolding error
one_more s s' h = ground arith

module _ (stale : SymbolId → String) (fuel : ℕ) where
  evaluated-Counts : (e : ExprId) (s : Asm) → Reaches (Counts s) (evaluated stale fuel e s)
  unfolding evaluated
  evaluated-Counts e s =
      Reaches-bind (Counts s) (Counts s) (evaluate_expr stale fuel e s) _
        (evaluate_expr-Counts stale fuel e s) (λ r h. h)

  -- Behind an error nothing is said of the bytes.
  after_error :
      (s s1 : Asm) (n : ℕ) (bytes : List ℕ)
      → s.errors ≤ s1.errors
      → Reaches (Sized s n) (error s1 >>= λ s2. done (bytes, s2))
  after_error s s1 n bytes h =
      Reaches-bind (λ s2. s1.errors + 1 ≤ s2.errors) (Sized s n) (error s1) _ (one_more s s1 h)
        (λ s2 k. (omega arith, λ e. absurd (omega arith)))

  after_evaluation :
      (n : ℕ) (e : ExprId) (s : Asm) (f : ℕ × Asm → Written)
      → ((v : ℕ) (s1 : Asm) → s.errors ≤ s1.errors → Reaches (Sized s n) (f (v, s1)))
      → Reaches (Sized s n) (evaluated stale fuel e s >>= f)
  after_evaluation n e s f k =
      Reaches-bind (Counts s) (Sized s n) (evaluated stale fuel e s) f (evaluated-Counts e s)
        (λ r h. k r.0 r.1 h)

  emit_operand-Sized :
      (start : ℕ) (f : Form) (operand : Operand) (s : Asm)
      → Reaches (Sized s (form_bytes f)) (emit_operand stale fuel start f operand s)
  unfolding emit_operand emit_byte emit_branch emit_word emit_relative
  emit_operand-Sized start bare _ s = (omega arith, λ e. refl)
  emit_operand-Sized start byte (expr e) s =
      after_evaluation 1 e s _
        λ v s1 h. Reaches-if (Sized s 1) (ltb 0xFF v) _ _ (after_error s s1 1 [] h) (h, λ _. refl)
  emit_operand-Sized start branch (expr e) s = after_evaluation 1 e s _ λ v s1 h.
      let diff = sub32 v (add32 start 2) in
      Reaches-if (Sized s 1) (slt32 127 diff || slt32 diff (2 ^ 32 - 128)) _
        (done (output_u8 diff, s1)) (after_error s s1 1 (output_u8 diff) h) (h, λ _. refl)
  emit_operand-Sized start number (ncall_id id) s = (omega arith, λ e. refl)
  emit_operand-Sized start word (expr e) s = after_evaluation 4 e s _ (λ v s1 h. (h, λ _. refl))
  emit_operand-Sized start relative (expr e) s = after_evaluation 4 e s _ (λ v s1 h. (h, λ _. refl))
  emit_operand-Sized start _ _ s = tt

  emit_values-Sized :
      (output : ℕ → List ℕ) (width : ℕ) (es : List ExprId) (s : Asm)
      → ((v : ℕ) → length (output v) ≡ width)
      → Reaches (Sized s (width * length es)) (emit_values stale fuel output es s)
  unfolding emit_values
  emit_values-Sized output width [] s w = (omega arith, λ e. omega arith)
  emit_values-Sized output width (e ∷ es) s w =
      after_evaluation (width * length (e ∷ es)) e s _ λ v s1 h.
        Reaches-bind (Sized s1 (width * length es)) (Sized s (width * length (e ∷ es)))
          (emit_values stale fuel output es s1) _ (emit_values-Sized output width es s1 w)
          (λ r k. (
            omega arith,
            λ eq. omega (arith, k.1 (omega arith), w v, length-append (output v) r.0),
          ))

  emit_body-Sized :
      (start : ℕ) (insn : Insn) (s : Asm)
      → Reaches (Sized s (fixed_size insn + room insn s)) (emit_body stale fuel start insn s)
  unfolding emit_body
  emit_body-Sized start (machine op operand) s =
      Reaches-bind (Sized s (form_bytes (form op))) (Sized s (fixed_size (machine op operand) + 0))
        (emit_operand stale fuel start (form op) operand s) _
        (emit_operand-Sized start (form op) operand s)
        (λ r h. (h.0, λ e. omega (arith, h.1 e, form_bytes-form op)))
  emit_body-Sized start (defs text) s = (omega arith, λ e. omega (arith, length-map u8 text))
  emit_body-Sized start (defb es) s =
      Reaches-weaken (Sized s (1 * length es)) (Sized s (length es + 0)) _
        (emit_values-Sized output_u8 1 es s (λ v. refl)) (λ r h. (h.0, λ e. omega (arith, h.1 e)))
  emit_body-Sized start (defh es) s =
      Reaches-weaken (Sized s (2 * length es)) (Sized s (2 * length es + 0)) _
        (emit_values-Sized output_u16 2 es s (λ v. refl)) (λ r h. (h.0, λ e. omega (arith, h.1 e)))
  emit_body-Sized start (defw es) s =
      Reaches-weaken (Sized s (4 * length es)) (Sized s (4 * length es + 0)) _
        (emit_values-Sized output_u32 4 es s (λ v. refl)) (λ r h. (h.0, λ e. omega (arith, h.1 e)))
  emit_body-Sized start (resb e) s =
      (omega arith, λ _. omega (arith, length-fill (value_of s e) (output_u8 0xCC)))
  emit_body-Sized start (resh e) s =
      (omega arith, λ _. omega (arith, length-fill (value_of s e) (output_u16 0xCCCC)))
  emit_body-Sized start (resw e) s =
      (omega arith, λ _. omega (arith, length-fill (value_of s e) (output_u32 0xCCCCCCCC)))
  emit_body-Sized start const_mark s = (omega arith, λ _. refl)
  emit_body-Sized start subend s = (omega arith, λ _. refl)
  emit_body-Sized start (substart k) s = (omega arith, λ _. refl)

  pub emit_insn-Sized :
      (p : Placed) (s : Asm)
      → Reaches
          (Sized s (p.align_bytes + fixed_size p.insn + room p.insn s))
          (emit_insn stale fuel p s)
  unfolding emit_insn
  emit_insn-Sized p s =
      Reaches-bind (Sized s (fixed_size p.insn + room p.insn s)) (Sized s _)
        (emit_body stale fuel p.start_addr p.insn s) _ (emit_body-Sized p.start_addr p.insn s)
        (λ r h. (
          h.0,
          λ e. omega (
            arith,
            h.1 e,
            length-append (replicate p.align_bytes 0xAA) r.0,
            length-replicate {A = ℕ} p.align_bytes 0xAA,
          ),
        ))
