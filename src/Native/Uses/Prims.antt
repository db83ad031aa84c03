-- ===== src/Native/Uses/Prims.antt =====
-- What the macros of src/vm/vm_thunks.h, a call, a load and a store do to the machine.
use mette.Base.{ℕ, ◌+◌, ◌≡◌, refl, arith, List, [], ◌∷◌, All}
use mette.Base.{Result, ok, panic, fault, Returns, Returns_mono}
use mette.Vm.Memory.{Memory}
use mette.Vm.Memory.Laws.{IsBytes}
use mette.Vm.Stack
use mette.Vm.Stack.{Stack}
use mette.Vm.Stack.Items.{Holds, PoppedHolds, push-Holds, pop3-Holds}
use mette.Vm.Stack.Refine.{depth, push3-IsValid, pop3-IsValid}
use mette.Vm.Context.{Context}
use mette.Vm.Step.Valid.{IsWord, IsValid}
use mette.Native.Act.{Host, Call, pure, args, give, call, load, store}
use mette.Native.Uses.{Left, Ends, Uses, Exactly, Quiet, Any}

-- An act with the machine's other parts as they were, its data stack or its memory changed.
abbrev with_dstack : Context → Stack ℕ → Context
with_dstack ctx s = record ctx { dstack = s }

abbrev with_memory : Context → Memory → Context
with_memory ctx m = record ctx { memory = m }

dstack-IsValid :
    (ctx : Context) (s : Stack ℕ) → IsValid ctx → Holds IsWord s → IsValid (with_dstack ctx s)
dstack-IsValid ctx s v h = record {
  operands = h;
  frames = v.frames;
  pc_word = v.pc_word;
  locals_valid = v.locals_valid;
  bytes = v.bytes;
}

memory-IsValid :
    (ctx : Context) (m : Memory) → IsValid ctx → IsBytes m → IsValid (with_memory ctx m)
memory-IsValid ctx m v h = record {
  operands = v.operands;
  frames = v.frames;
  pc_word = v.pc_word;
  locals_valid = v.locals_valid;
  bytes = h;
}

still : (ctx ctx' : Context) → IsValid ctx' → ctx'.dstack ≡ ctx.dstack → Left ctx 0 (Exactly 0) ctx'
still ctx ctx' v e = record { valid = v; count = 0; allowed = refl; balance = rw (e) refl }

abbrev Popped : Stack ℕ → ℕ → List ℕ × Stack ℕ → Type 0
Popped s n p = depth s ≡ depth p.1 + n

abbrev Pushed : Stack ℕ → Stack ℕ → Type 0
Pushed s s' = depth s' ≡ depth s + 1

pub args-Uses : (n : ℕ) → Uses n (Exactly 0) (All IsWord) (args n)
unfolding args
args-Uses n ctx v = taken (Stack.pop3 ctx.dstack n) (pop3-Holds IsWord ctx.dstack n v.operands) (
    Returns_mono _ (Popped ctx.dstack n) _ (λ p k. k.2)
      (pop3-IsValid ctx.dstack n v.operands.valid))
  where
    taken :
        (r : Result (List ℕ × Stack ℕ))
        → Returns (PoppedHolds IsWord) r
        → Returns (Popped ctx.dstack n) r
        → Returns (Ends ctx n (Exactly 0) (All IsWord)) (elim r [
          | ok p ↦ ok (p.0, record ctx { dstack = p.1 })
          | panic p ↦ panic p
          | fault e ↦ fault e
        ])
    taken (ok p) h k = (
      h.0,
      record {
        valid = dstack-IsValid ctx p.1 v h.1;
        count = 0;
        allowed = refl;
        balance = omega (arith, k);
      },
    )
    taken (panic _) h k = tt
    taken (fault _) h k = tt

pub give-Uses : (what : ℕ) → IsWord what → Uses 0 (Exactly 1) Any (give what)
unfolding give Stack.push
give-Uses what w ctx v =
    put (Stack.push ctx.dstack what) (push-Holds IsWord ctx.dstack what v.operands w) (
      Returns_mono _ (Pushed ctx.dstack) _ (λ s k. k.1)
        (push3-IsValid ctx.dstack (what ∷ []) v.operands.valid))
  where
    put :
        (r : Result (Stack ℕ))
        → Returns (Holds IsWord) r
        → Returns (Pushed ctx.dstack) r
        → Returns (Ends ctx 0 (Exactly 1) Any) (elim r [
          | ok s ↦ ok (tt, record ctx { dstack = s })
          | panic p ↦ panic p
          | fault e ↦ fault e
        ])
    put (ok s) h k = (
      tt,
      record {
        valid = dstack-IsValid ctx s v h;
        count = 1;
        allowed = refl;
        balance = omega (arith, k);
      },
    )
    put (panic _) h k = tt
    put (fault _) h k = tt

abbrev pub Answered : ℕ × Memory → Type 0
Answered r = IsWord r.0 × IsBytes r.1

-- The surroundings answer with a word, and leave bytes in the memory.
abbrev pub IsHost : Host → Type 0
IsHost host = (c : Call) (m : Memory) → IsBytes m → Returns Answered (host c m)

pub call-Quiet : (host : Host) (c : Call) → IsHost host → Quiet IsWord (call host c)
unfolding call
call-Quiet host c h ctx v = answered (host c ctx.memory) (h c ctx.memory v.bytes)
  where
    answered :
        (r : Result (ℕ × Memory))
        → Returns Answered r
        → Returns (Ends ctx 0 (Exactly 0) IsWord) (elim r [
          | ok a ↦ ok (a.0, record ctx { memory = a.1 })
          | panic p ↦ panic p
          | fault e ↦ fault e
        ])
    answered (ok a) k = (k.0, still ctx (with_memory ctx a.1) (memory-IsValid ctx a.1 v k.1) refl)
    answered (panic _) k = tt
    answered (fault _) k = tt

pub load-Quiet :
    {A : Type 0} (Q : A → Type 0) (get : Memory → Result A)
    → ((m : Memory) → IsBytes m → Returns Q (get m))
    → Quiet Q (load get)
unfolding load
load-Quiet {A} Q get h ctx v = read (get ctx.memory) (h ctx.memory v.bytes)
  where
    read :
        (r : Result A)
        → Returns Q r
        → Returns
            (Ends ctx 0 (Exactly 0) Q)
            (elim r [ ok a ↦ ok (a, ctx) | panic p ↦ panic p | fault e ↦ fault e ])
    read (ok a) k = (k, still ctx ctx v refl)
    read (panic _) k = tt
    read (fault _) k = tt

pub store-Quiet :
    (put : Memory → Result Memory)
    → ((m : Memory) → IsBytes m → Returns IsBytes (put m))
    → Quiet Any (store put)
unfolding store
store-Quiet put h ctx v = written (put ctx.memory) (h ctx.memory v.bytes)
  where
    written :
        (r : Result Memory)
        → Returns IsBytes r
        → Returns (Ends ctx 0 (Exactly 0) Any) (elim r [
          | ok m ↦ ok (tt, record ctx { memory = m })
          | panic p ↦ panic p
          | fault e ↦ fault e
        ])
    written (ok m) k = (tt, still ctx (with_memory ctx m) (memory-IsValid ctx m v k) refl)
    written (panic _) k = tt
    written (fault _) k = tt

pub pure-Quiet : {A : Type 0} (Q : A → Type 0) (a : A) → Q a → Quiet Q (pure a)
pure-Quiet Q a h ctx v = (h, still ctx ctx v refl)
