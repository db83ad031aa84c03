-- ===== src/Vm/Step/Kept.antt =====
-- Every instruction of `vm_step` keeps the invariant of `Valid`.
use mette.Base.{ℕ, zero, suc, ◌<◌, ◌^◌, ◌≡◌, refl, ap, arith, Bool, true, false}
use mette.Base.{Option, none, some, [], ◌∷◌, length, All}
use mette.Base.{Result, ok, panic, fault, ◌>>=◌, access, bad_access, Returns, Returns-bind}
use mette.Base.{local_out_of_bounds, no_locals}
use mette.Base.{if◌then◌else◌, leb, add32}
use mette.Vm.Memory.{load8}
use mette.Vm.Memory.Laws.{load8-lt}
use mette.Vm.Stack
use mette.Vm.Stack.{Stack}
use mette.Vm.Stack.Items.{Holds, OneHolds, push-Holds, pop-Holds}
use mette.Vm.Context.{Context, Frame, Locals, World}
use mette.Vm.Step.{Done, save_frame, restore_frame, junk_from, op_locals}
use mette.Vm.Step.{checked_locals}
use mette.Vm.Step.Valid.{IsWord, IsLocals, AreLocals, IsFrame, IsValid, IsWorld}

abbrev pub Keeps : Done → Type 0
Keeps d = IsValid d.ctx × IsWord d.pc × All IsWord d.pushed

abbrev pub KeepsPc : Context × ℕ → Type 0
KeepsPc p = IsValid p.0 × IsWord p.1

-- A loaded value that is pushed, as `f` of it.
pub push_loaded :
    (ctx : Context) (pc : ℕ) (r : Result ℕ) (bound : ℕ) (f : ℕ → ℕ)
    → IsValid ctx
    → IsWord pc
    → Returns (λ v. v < bound) r
    → ((v : ℕ) → v < bound → f v < 2 ^ 32)
    → Returns Keeps (r >>= λ r0. ok (record { ctx = ctx; pc = pc; pushed = f r0 ∷ [] }))
push_loaded ctx pc r bound f v hpc h k =
    Returns-bind (λ v. v < bound) Keeps r _ h (λ r0 hr. (v, hpc, (k r0 hr, tt)))

pub save_frame-IsValid :
    (granted : Bool) (ctx : Context) (pc : ℕ)
    → IsValid ctx
    → IsWord pc
    → Returns IsValid (save_frame granted ctx pc)
unfolding save_frame
save_frame-IsValid true ctx pc v hpc =
    Returns-bind (Holds IsFrame) IsValid _ _
      (push-Holds IsFrame ctx.cstack _ v.frames (hpc, v.locals_valid))
      λ s h. record {
        operands = v.operands;
        frames = h;
        pc_word = v.pc_word;
        locals_valid = tt;
        bytes = v.bytes;
      }
save_frame-IsValid false ctx pc v hpc = tt

pub restore_frame-IsValid : (ctx : Context) → IsValid ctx → Returns KeepsPc (restore_frame ctx)
unfolding restore_frame
restore_frame-IsValid ctx v =
    Returns-bind (OneHolds IsFrame) KeepsPc (Stack.pop ctx.cstack) _
      (pop-Holds IsFrame ctx.cstack v.frames) λ p k. restored p.0 p.1 k.0 k.1
  where
    restored :
        (cell : Option Frame) (s : Stack (Option Frame))
        → IsFrame cell
        → Holds IsFrame s
        → Returns KeepsPc (
            access cell >>= λ frame.
            ok (record ctx { cstack = s; locals = frame.locals }, frame.return_pc))
    restored none s h k = tt
    restored (some f) s h k = (
      record {
        operands = v.operands;
        frames = k;
        pc_word = v.pc_word;
        locals_valid = h.1;
        bytes = v.bytes;
      },
      h.0,
    )

junk_from-IsLocals :
    (junk : ℕ → ℕ) (i n : ℕ)
    → ((j : ℕ) → IsWord (junk j))
    → (n ≡ length (junk_from junk i n)) × All IsWord (junk_from junk i n)
unfolding junk_from
junk_from-IsLocals junk i zero h = (refl, tt)
junk_from-IsLocals junk i (suc n) h =
    let (e, a) = junk_from-IsLocals junk (suc i) n h in (ap suc e, (h i, a))

pub with_locals :
    (ctx : Context) (l : Option Locals)
    → IsValid ctx
    → AreLocals l
    → IsValid (record ctx { locals = l })
with_locals ctx l v h = record {
  operands = v.operands;
  frames = v.frames;
  pc_word = v.pc_word;
  locals_valid = h;
  bytes = v.bytes;
}

pub op_locals-Keeps :
    (w : World) (ctx : Context) (pc : ℕ)
    → IsWorld w
    → IsValid ctx
    → IsWord pc
    → Returns Keeps (op_locals w ctx pc)
unfolding op_locals
op_locals-Keeps w ctx pc hw v hpc =
    Returns-bind (λ n. n < 256) Keeps (load8 ctx.memory pc) _ (load8-lt ctx.memory pc v.bytes)
      λ n hn. granted w.granted n
  where
    granted :
        (b : Bool) (n : ℕ)
        → Returns Keeps (
            if b
            then ok (record {
              ctx = record ctx {
                locals = some (record { count = n; cells = junk_from w.junk 0 n });
              };
              pc = add32 pc 1;
              pushed = [];
            })
            else fault bad_access)
    granted true n = (
      with_locals ctx _ v (record {
        counted = (junk_from-IsLocals w.junk 0 n hw).0;
        words = (junk_from-IsLocals w.junk 0 n hw).1;
      }),
      omega arith,
      tt,
    )
    granted false n = tt

pub checked_locals-IsLocals :
    (ctx : Context) (index : ℕ) → IsValid ctx → Returns IsLocals (checked_locals ctx index)
checked_locals-IsLocals ctx index v = go ctx.locals v.locals_valid
  where
    guarded :
        (b : Bool) (l : Locals)
        → IsLocals l
        → Returns IsLocals (if b then panic local_out_of_bounds else ok l)
    guarded true l h = tt
    guarded false l h = h

    go :
        (o : Option Locals)
        → AreLocals o
        → Returns IsLocals (elim o [
          | none ↦ panic no_locals
          | some l ↦ if leb l.count index then panic local_out_of_bounds else ok l
        ])
    go none h = tt
    go (some l) h = guarded (leb l.count index) l h
