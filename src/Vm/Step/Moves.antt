-- ===== src/Vm/Step/Moves.antt =====
-- The locals, branches, stores and calls of `vm_step` keep the invariant of `Valid`.
use mette.Base.{ℕ, zero, suc, ◌<◌, ◌^◌, arith, Bool, true, false}
use mette.Base.{Option, none, some, List, [], ◌∷◌, get_elem?, All, All-set, length-set}
use mette.Base.{Result, ok, panic, ◌>>=◌, access, Returns, Returns-bind}
use mette.Base.{if◌then◌else◌, add32, sext8, no_ncalls}
use mette.Vm.Memory.{Target, Memory, load8, fetch16_ua, fetch32_ua}
use mette.Vm.Memory.Laws.{IsBytes, load8-lt, fetch16_ua-lt, fetch32_ua-lt}
use mette.Vm.Alu.Laws.{AreWords}
use mette.Vm.Context.{Context, World}
use mette.Vm.Step.{op_ldloc, op_stloc, branch, save_frame, restore_frame, checked_locals, stored}
use mette.Vm.Step.{op_call, op_ret, op_icall, op_ncall}
use mette.Vm.Step.Valid.{IsWord, IsLocals, IsValid}
use mette.Vm.Step.Kept.{
  Keeps, KeepsPc, save_frame-IsValid, restore_frame-IsValid, with_locals, checked_locals-IsLocals,
}

get_elem?-All : (xs : List ℕ) (i : ℕ) → All IsWord xs → Returns IsWord (access (get_elem? xs i))
get_elem?-All [] i h = tt
get_elem?-All (x ∷ xs) zero h = h.0
get_elem?-All (x ∷ xs) (suc i) h = get_elem?-All xs i h.1

pub op_ldloc-Keeps :
    (ctx : Context) (pc : ℕ) → IsValid ctx → IsWord pc → Returns Keeps (op_ldloc ctx pc)
unfolding op_ldloc
op_ldloc-Keeps ctx pc v hpc =
    Returns-bind (λ n. n < 256) Keeps (load8 ctx.memory pc) _ (load8-lt ctx.memory pc v.bytes)
      λ index _.
        Returns-bind IsLocals Keeps (checked_locals ctx index) _
          (checked_locals-IsLocals ctx index v)
          λ l hl.
            Returns-bind IsWord Keeps (access (get_elem? l.cells index)) _
              (get_elem?-All l.cells index hl.words) λ r0 hr. (v, omega arith, (hr, tt))

pub op_stloc-Keeps :
    (ctx : Context) (arg1 pc : ℕ)
    → IsValid ctx
    → IsWord arg1
    → IsWord pc
    → Returns Keeps (op_stloc ctx arg1 pc)
unfolding op_stloc
op_stloc-Keeps ctx arg1 pc v h1 hpc =
    Returns-bind (λ n. n < 256) Keeps (load8 ctx.memory pc) _ (load8-lt ctx.memory pc v.bytes)
      λ index _.
        Returns-bind IsLocals Keeps (checked_locals ctx index) _
          (checked_locals-IsLocals ctx index v)
          λ l hl. (
            with_locals ctx _ v (record {
              counted = omega (arith, hl.counted, length-set l.cells index arg1);
              words = All-set IsWord l.cells index arg1 hl.words h1;
            }),
            omega arith,
            tt,
          )

pub branch-Keeps :
    (ctx : Context) (taken : Bool) (pc : ℕ)
    → IsValid ctx
    → IsWord pc
    → Returns Keeps (branch ctx taken pc)
unfolding branch
branch-Keeps ctx taken pc v hpc =
    Returns-bind (λ n. n < 256) Keeps (load8 ctx.memory pc) _ (load8-lt ctx.memory pc v.bytes)
      λ offset _. (v, target taken offset, tt)
  where
    target :
        (b : Bool) (offset : ℕ)
        → IsWord (if b then add32 (add32 pc 1) (sext8 offset) else add32 pc 1)
    target true offset = omega arith
    target false offset = omega arith

pub stored-Keeps :
    (ctx : Context) (pc : ℕ) (r : Result Memory)
    → IsValid ctx
    → IsWord pc
    → Returns IsBytes r
    → Returns Keeps (stored ctx pc r)
stored-Keeps ctx pc r v hpc h = Returns-bind IsBytes Keeps r _ h λ m hm. (
  record {
    operands = v.operands;
    frames = v.frames;
    pc_word = v.pc_word;
    locals_valid = v.locals_valid;
    bytes = hm;
  },
  hpc,
  tt,
)

-- A pair of results that is pushed, `r1` first.
pub push_pair :
    (ctx : Context) (pc : ℕ) (r : Result (ℕ × ℕ))
    → IsValid ctx
    → IsWord pc
    → Returns AreWords r
    → Returns Keeps (r >>= λ p. ok (record { ctx = ctx; pc = pc; pushed = p.1 ∷ p.0 ∷ [] }))
push_pair ctx pc r v hpc h =
    Returns-bind AreWords Keeps r _ h (λ p hp. (v, hpc, (hp.1, (hp.0, tt))))

pub op_ret-Keeps : (ctx : Context) → IsValid ctx → Returns Keeps (op_ret ctx)
unfolding op_ret
op_ret-Keeps ctx v =
    Returns-bind KeepsPc Keeps (restore_frame ctx) _ (restore_frame-IsValid ctx v)
      λ p k. (k.0, k.1, tt)

pub op_icall-Keeps :
    (w : World) (ctx : Context) (arg1 pc : ℕ)
    → IsValid ctx
    → IsWord arg1
    → IsWord pc
    → Returns Keeps (op_icall w ctx arg1 pc)
unfolding op_icall
op_icall-Keeps w ctx arg1 pc v h1 hpc =
    Returns-bind IsValid Keeps (save_frame w.granted ctx pc) _
      (save_frame-IsValid w.granted ctx pc v hpc) λ ctx' v'. (v', h1, tt)

module _ (t : Target) (thunks : ℕ → Context → Result Context) where
  pub op_call-Keeps :
      (w : World) (ctx : Context) (pc : ℕ) → IsValid ctx → Returns Keeps (op_call t thunks w ctx pc)
  unfolding op_call
  op_call-Keeps w ctx pc v =
      Returns-bind (λ x. x < 2 ^ 32) Keeps (fetch32_ua t ctx.memory pc) _
        (fetch32_ua-lt t ctx.memory pc v.bytes)
        λ offset _.
          Returns-bind IsValid Keeps (save_frame w.granted ctx (add32 pc 4)) _
            (save_frame-IsValid w.granted ctx (add32 pc 4) v (omega arith))
            λ ctx' v'. (v', omega arith, tt)

  pub op_ncall-Keeps :
      (ctx : Context) (pc : ℕ)
      → ((addr : ℕ) (c : Context) → IsValid c → Returns IsValid (thunks addr c))
      → IsValid ctx
      → Returns Keeps (op_ncall t thunks ctx pc)
  unfolding op_ncall
  op_ncall-Keeps ctx pc native v =
      Returns-bind (λ x. x < 2 ^ 16) Keeps (fetch16_ua t ctx.memory pc) _
        (fetch16_ua-lt t ctx.memory pc v.bytes) λ index _. called index ctx.loaded.ncalls_table
    where
      entered :
          (o : Option ℕ)
          → Returns Keeps (
              access o >>= λ thunk.
              thunks thunk ctx >>= λ ctx'. ok (record { ctx = ctx'; pc = add32 pc 2; pushed = [] }))
      entered none = tt
      entered (some thunk) =
          Returns-bind IsValid Keeps (thunks thunk ctx) _ (native thunk ctx v)
            λ ctx' v'. (v', omega arith, tt)

      called :
          (index : ℕ) (table : Option (List ℕ))
          → Returns Keeps (elim table [
            | none ↦ panic no_ncalls
            | some table ↦ access (get_elem? table index) >>= λ thunk. thunks thunk ctx >>= λ ctx'.
                ok (record { ctx = ctx'; pc = add32 pc 2; pushed = [] })
          ])
      called index none = tt
      called index (some table) = entered (get_elem? table index)
