-- ===== src/Vm/Stack/RoundTrip.antt =====
-- Single pushes and pops of src/vm/vm_stack.c.
use mette.Base.{◌-◌, ◌<◌, ◌≡◌, refl, arith, set}
use mette.Base.{ok, get_elem?-set_self, drop-set}
use mette.Vm.Stack.{Stack, push, pop}
use mette.Vm.Stack.Refine.{IsValid, contents}

module _ {A : Type 0} where
  -- The stack after a push that has room.
  abbrev pub pushed : Stack A → A → Stack A
  pushed s v = record s { top = s.top - 1; mem = set s.mem (s.top - 1) v }

  pub push-pushed : (s : Stack A) (v : A) → IsValid s → 0 < s.top → push s v ≡ ok (pushed s v)
  unfolding push
  push-pushed s v h room = ground arith

  -- On a valid stack with room a push is undone by a pop, which gives back the operand and
  -- leaves the operands below as they were.
  pub push-pop :
      (s : Stack A) (v : A)
      → IsValid s
      → 0 < s.top
      → (s' s'' : Stack A) × (push s v ≡ ok s')
        × (pop s' ≡ ok (v, s''))
        × (contents s'' ≡ contents s)
        × (s''.top ≡ s.top)
        × (s''.bottom ≡ s.bottom)
  unfolding pop
  push-pop s v h room = (
    pushed s v,
    record (pushed s v) { top = s.top },
    push-pushed s v h room,
    ground (arith, get_elem?-set_self s.mem (s.top - 1) v),
    drop-set s.mem (s.top - 1) s.top v (omega arith),
    refl,
    refl,
  )
