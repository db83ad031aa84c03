-- ===== src/Vm/Step/Invariant.antt =====
-- Whatever the bytecode, a step and a run of `vm_step` keep the invariant of `Valid`.
use mette.Base.{ℕ, zero, suc, ◌<◌, ◌^◌, ◌/◌, arith}
use mette.Base.{Option, none, some, List, [], ◌∷◌, get_elem?, get_or, All}
use mette.Base.{Result, Returns, Returns-bind}
use mette.Base.{add32, sext8, sext16, sext8-lt, sext16-lt, bit_and}
use mette.Arch.{Opcode, offtab}
use mette.Vm.Memory.{Target, load8}
use mette.Vm.Memory.Laws.{load8-lt, fetch32_ua-lt, load16-lt, load32-lt}
use mette.Vm.Memory.Laws.{store8-IsBytes, store16-IsBytes, store32-IsBytes}
use mette.Vm.Stack
use mette.Vm.Stack.{Stack}
use mette.Vm.Stack.Items.{Holds, PoppedHolds, push-Holds, pop3-Holds}
use mette.Vm.Alu.Laws.{
  mulu-AreWords, muls-AreWords, divu-AreWords, divs-AreWords, lsl-lt, lsr-lt, asr-lt, flag-lt,
}
use mette.Vm.Context.{Context, World}
use mette.Vm.Step.{exec, push_each, dispatch, vm_step, run}
use mette.Vm.Step.Valid.{IsWord, IsValid, IsWorld}
use mette.Vm.Step.Moves.{
  op_ldloc-Keeps, op_stloc-Keeps, branch-Keeps, stored-Keeps, push_pair, op_call-Keeps,
  op_ret-Keeps, op_icall-Keeps, op_ncall-Keeps,
}
use mette.Vm.Step.Kept.{Keeps, push_loaded, op_locals-Keeps}

push_each-Holds :
    (s : Stack ℕ) (rs : List ℕ)
    → Holds IsWord s
    → All IsWord rs
    → Returns (Holds IsWord) (push_each s rs)
unfolding push_each
push_each-Holds s [] h k = h
push_each-Holds s (r ∷ rs) h k =
    Returns-bind (Holds IsWord) (Holds IsWord) (Stack.push s r) _ (push-Holds IsWord s r h k.0)
      λ s' h'. push_each-Holds s' rs h' k.1

pub get_or-IsWord : (xs : List ℕ) (i d : ℕ) → All IsWord xs → IsWord d → IsWord (get_or xs i d)
get_or-IsWord [] i d h k = k
get_or-IsWord (x ∷ xs) zero d h k = h.0
get_or-IsWord (x ∷ xs) (suc i) d h k = get_or-IsWord xs i d h.1 k

with_operands :
    (ctx : Context) (s : Stack ℕ) (pc : ℕ)
    → IsValid ctx
    → Holds IsWord s
    → IsWord pc
    → IsValid (record ctx { dstack = s; pc = pc })
with_operands ctx s pc v h hpc = record {
  operands = h;
  frames = v.frames;
  pc_word = hpc;
  locals_valid = v.locals_valid;
  bytes = v.bytes;
}

module _ (t : Target) (thunks : ℕ → Context → Result Context)
    (native : (addr : ℕ) (ctx : Context) → IsValid ctx → Returns IsValid (thunks addr ctx)) where
  exec-Keeps :
      (w : World) (op : Opcode) (ctx : Context) (a1 a2 pc : ℕ)
      → IsWorld w
      → IsValid ctx
      → IsWord a1
      → IsWord a2
      → IsWord pc
      → Returns Keeps (exec t thunks w op ctx a1 a2 pc)
  unfolding exec
  exec-Keeps w Opcode.add ctx a1 a2 pc hw v h1 h2 hpc = (v, hpc, (omega arith, tt))
  exec-Keeps w Opcode.sub ctx a1 a2 pc hw v h1 h2 hpc = (v, hpc, (omega arith, tt))
  exec-Keeps w Opcode.mulu ctx a1 a2 pc hw v h1 h2 hpc =
      let h = mulu-AreWords a1 a2 h1 h2 t (w.junk 2) (hw 2) in (v, hpc, (h.1, (h.0, tt)))
  exec-Keeps w Opcode.muls ctx a1 a2 pc hw v h1 h2 hpc =
      let h = muls-AreWords a1 a2 h1 h2 t (w.junk 2) (hw 2) in (v, hpc, (h.1, (h.0, tt)))
  exec-Keeps w Opcode.divu ctx a1 a2 pc hw v h1 h2 hpc =
      push_pair ctx pc _ v hpc (divu-AreWords a2 a1 h2 h1)
  exec-Keeps w Opcode.divs ctx a1 a2 pc hw v h1 h2 hpc =
      push_pair ctx pc _ v hpc (divs-AreWords a2 a1 h2 h1)
  exec-Keeps w Opcode.and ctx a1 a2 pc hw v h1 h2 hpc = (v, hpc, (omega arith, tt))
  exec-Keeps w Opcode.or ctx a1 a2 pc hw v h1 h2 hpc = (v, hpc, (omega arith, tt))
  exec-Keeps w Opcode.xor ctx a1 a2 pc hw v h1 h2 hpc = (v, hpc, (omega arith, tt))
  exec-Keeps w Opcode.not ctx a1 a2 pc hw v h1 h2 hpc = (v, hpc, (omega arith, tt))
  exec-Keeps w Opcode.lsl ctx a1 a2 pc hw v h1 h2 hpc =
      push_loaded ctx pc _ (2 ^ 32) (λ r. r) v hpc (lsl-lt a2 a1 h2 h1) (λ r h. h)
  exec-Keeps w Opcode.lsr ctx a1 a2 pc hw v h1 h2 hpc =
      push_loaded ctx pc _ (2 ^ 32) (λ r. r) v hpc (lsr-lt a2 a1 h2 h1) (λ r h. h)
  exec-Keeps w Opcode.asr ctx a1 a2 pc hw v h1 h2 hpc =
      push_loaded ctx pc _ (2 ^ 32) (λ r. r) v hpc (asr-lt a2 a1 h2 h1) (λ r h. h)
  exec-Keeps w Opcode.cmp_lt ctx a1 a2 pc hw v h1 h2 hpc = (v, hpc, (flag-lt _, tt))
  exec-Keeps w Opcode.cmp_gt ctx a1 a2 pc hw v h1 h2 hpc = (v, hpc, (flag-lt _, tt))
  exec-Keeps w Opcode.cmp_b ctx a1 a2 pc hw v h1 h2 hpc = (v, hpc, (flag-lt _, tt))
  exec-Keeps w Opcode.cmp_a ctx a1 a2 pc hw v h1 h2 hpc = (v, hpc, (flag-lt _, tt))
  exec-Keeps w Opcode.cmp_eq ctx a1 a2 pc hw v h1 h2 hpc = (v, hpc, (flag-lt _, tt))
  exec-Keeps w Opcode.ldc_0 ctx a1 a2 pc hw v h1 h2 hpc = (v, hpc, (omega arith, tt))
  exec-Keeps w Opcode.ldc_1 ctx a1 a2 pc hw v h1 h2 hpc = (v, hpc, (omega arith, tt))
  exec-Keeps w Opcode.ldc_2 ctx a1 a2 pc hw v h1 h2 hpc = (v, hpc, (omega arith, tt))
  exec-Keeps w Opcode.ldc_ub ctx a1 a2 pc hw v h1 h2 hpc =
      push_loaded ctx _ _ 256 (λ r. r) v (omega arith) (load8-lt ctx.memory pc v.bytes)
        (λ r h. omega arith)
  exec-Keeps w Opcode.ldc_sb ctx a1 a2 pc hw v h1 h2 hpc =
      push_loaded ctx _ _ 256 sext8 v (omega arith) (load8-lt ctx.memory pc v.bytes) sext8-lt
  exec-Keeps w Opcode.ldc_w ctx a1 a2 pc hw v h1 h2 hpc =
      push_loaded ctx _ _ (2 ^ 32) (λ r. r) v (omega arith) (fetch32_ua-lt t ctx.memory pc v.bytes)
        (λ r h. h)
  exec-Keeps w Opcode.lea ctx a1 a2 pc hw v h1 h2 hpc =
      push_loaded ctx _ _ (2 ^ 32) (λ r. add32 r (add32 pc 4)) v (omega arith)
        (fetch32_ua-lt t ctx.memory pc v.bytes) (λ r h. omega arith)
  exec-Keeps w Opcode.ldm_ub ctx a1 a2 pc hw v h1 h2 hpc =
      push_loaded ctx _ _ 256 (λ r. r) v hpc (load8-lt ctx.memory a1 v.bytes) (λ r h. omega arith)
  exec-Keeps w Opcode.ldm_sb ctx a1 a2 pc hw v h1 h2 hpc =
      push_loaded ctx _ _ 256 sext8 v hpc (load8-lt ctx.memory a1 v.bytes) sext8-lt
  exec-Keeps w Opcode.ldm_uh ctx a1 a2 pc hw v h1 h2 hpc =
      push_loaded ctx _ _ (2 ^ 16) (λ r. r) v hpc (load16-lt t ctx.memory a1 v.bytes)
        (λ r h. omega arith)
  exec-Keeps w Opcode.ldm_sh ctx a1 a2 pc hw v h1 h2 hpc =
      push_loaded ctx _ _ (2 ^ 16) sext16 v hpc (load16-lt t ctx.memory a1 v.bytes) sext16-lt
  exec-Keeps w Opcode.ldm_w ctx a1 a2 pc hw v h1 h2 hpc =
      push_loaded ctx _ _ (2 ^ 32) (λ r. r) v hpc (load32-lt t ctx.memory a1 v.bytes) (λ r h. h)
  exec-Keeps w Opcode.stm_b ctx a1 a2 pc hw v h1 h2 hpc =
      stored-Keeps ctx pc _ v hpc (store8-IsBytes ctx.memory a1 a2 v.bytes)
  exec-Keeps w Opcode.stm_h ctx a1 a2 pc hw v h1 h2 hpc =
      stored-Keeps ctx pc _ v hpc (store16-IsBytes t ctx.memory a1 a2 v.bytes)
  exec-Keeps w Opcode.stm_w ctx a1 a2 pc hw v h1 h2 hpc =
      stored-Keeps ctx pc _ v hpc (store32-IsBytes t ctx.memory a1 a2 v.bytes)
  exec-Keeps w Opcode.locals ctx a1 a2 pc hw v h1 h2 hpc = op_locals-Keeps w ctx pc hw v hpc
  exec-Keeps w Opcode.ldloc ctx a1 a2 pc hw v h1 h2 hpc = op_ldloc-Keeps ctx pc v hpc
  exec-Keeps w Opcode.stloc ctx a1 a2 pc hw v h1 h2 hpc = op_stloc-Keeps ctx a1 pc v h1 hpc
  exec-Keeps w Opcode.dup ctx a1 a2 pc hw v h1 h2 hpc = (v, hpc, (h1, (h1, tt)))
  exec-Keeps w Opcode.swap ctx a1 a2 pc hw v h1 h2 hpc = (v, hpc, (h1, (h2, tt)))
  exec-Keeps w Opcode.pop ctx a1 a2 pc hw v h1 h2 hpc = (v, hpc, tt)
  exec-Keeps w Opcode.br ctx a1 a2 pc hw v h1 h2 hpc = branch-Keeps ctx _ pc v hpc
  exec-Keeps w Opcode.br_t ctx a1 a2 pc hw v h1 h2 hpc = branch-Keeps ctx _ pc v hpc
  exec-Keeps w Opcode.br_f ctx a1 a2 pc hw v h1 h2 hpc = branch-Keeps ctx _ pc v hpc
  exec-Keeps w Opcode.call ctx a1 a2 pc hw v h1 h2 hpc = op_call-Keeps t thunks w ctx pc v
  exec-Keeps w Opcode.ret ctx a1 a2 pc hw v h1 h2 hpc = op_ret-Keeps ctx v
  exec-Keeps w Opcode.icall ctx a1 a2 pc hw v h1 h2 hpc = op_icall-Keeps w ctx a1 pc v h1 hpc
  exec-Keeps w Opcode.ijmp ctx a1 a2 pc hw v h1 h2 hpc = (v, h1, tt)
  exec-Keeps w Opcode.ncall ctx a1 a2 pc hw v h1 h2 hpc = op_ncall-Keeps t thunks ctx pc native v

  dispatch-Keeps :
      (w : World) (op : Option Opcode) (ctx : Context) (a1 a2 pc : ℕ)
      → IsWorld w
      → IsValid ctx
      → IsWord a1
      → IsWord a2
      → IsWord pc
      → Returns Keeps (dispatch t thunks w op ctx a1 a2 pc)
  unfolding dispatch
  dispatch-Keeps w none ctx a1 a2 pc hw v h1 h2 hpc = tt
  dispatch-Keeps w (some op) ctx a1 a2 pc hw v h1 h2 hpc =
      exec-Keeps w op ctx a1 a2 pc hw v h1 h2 hpc

  pub vm_step-IsValid :
      (w : World) (ctx : Context)
      → IsWorld w
      → IsValid ctx
      → Returns IsValid (vm_step t thunks w ctx)
  unfolding vm_step
  vm_step-IsValid w ctx hw v =
      Returns-bind (λ b. b < 256) IsValid (load8 ctx.memory ctx.pc) _
        (load8-lt ctx.memory ctx.pc v.bytes)
        λ byte _.
          Returns-bind (PoppedHolds IsWord) IsValid (Stack.pop3 ctx.dstack (byte / 2 ^ 6)) _
            (pop3-Holds IsWord ctx.dstack (byte / 2 ^ 6) v.operands)
            λ p k.
              Returns-bind Keeps IsValid _ _
                (dispatch-Keeps w (get_elem? offtab (bit_and byte 0x3f))
                  (record ctx { dstack = p.1 }) (get_or p.0 0 (w.junk 0)) (get_or p.0 1 (w.junk 1))
                  (add32 ctx.pc 1) hw (with_operands ctx p.1 ctx.pc v k.1 v.pc_word)
                  (get_or-IsWord p.0 0 (w.junk 0) k.0 (hw 0))
                  (get_or-IsWord p.0 1 (w.junk 1) k.0 (hw 1)) (omega arith))
                λ d kd.
                  Returns-bind (Holds IsWord) IsValid (push_each d.ctx.dstack d.pushed) _
                    (push_each-Holds d.ctx.dstack d.pushed kd.0.operands kd.2)
                    λ final hf. with_operands d.ctx final d.pc kd.0 hf kd.1

  -- So does a run of any length.
  pub run-IsValid :
      (ws : List World) (ctx : Context)
      → All IsWorld ws
      → IsValid ctx
      → Returns IsValid (run t thunks ws ctx)
  unfolding run
  run-IsValid [] ctx hw v = v
  run-IsValid (w ∷ ws) ctx hw v =
      Returns-bind IsValid IsValid (vm_step t thunks w ctx) _ (vm_step-IsValid w ctx hw.0 v)
        λ ctx' v'. run-IsValid ws ctx' hw.1 v'
