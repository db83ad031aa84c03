-- ===== src/Vm/Stack/Items.antt =====
-- What holds of every operand on a stack is kept by pushes and pops.
use mette.Base.{ℕ, ◌+◌, List, [], ◌∷◌, ◌++◌, take, drop, length}
use mette.Base.{
  Result, ok, panic, fault, ◌>>=◌, Returns, Returns-bind, Returns_mono, All, All-append, All-drop,
  All-take,
}
use mette.Base.{
  ltb, if◌then◌else◌, Bool, true, false, get_elem?, access, stack_overflow, stack_underflow,
}
use mette.Vm.Stack.{Stack, push3, push, pop3, pop}
use mette.Vm.Stack.Spec
use mette.Vm.Stack.Refine.{
  IsValid, contents, view_popped, push3_refines, pop3_refines, push3-IsValid, pop3-IsValid,
}

module _ {A : Type 0} (P : A → Type 0) where
  pub record Holds (s : Stack A) : Type 0 where
    pub valid : IsValid s
    pub items : All P (contents s)

  abbrev BothAll : List A × List A → Type 0
  BothAll p = All P p.0 × All P p.1

  -- After a pop the operands and the stack hold what they held.
  abbrev pub PoppedHolds : List A × Stack A → Type 0
  PoppedHolds p = All P p.0 × Holds p.1

  abbrev pub OneHolds : A × Stack A → Type 0
  OneHolds p = P p.0 × Holds p.1

  abbrev PoppedValid : List A × Stack A → Type 0
  PoppedValid p = IsValid p.1

  -- From the value of the view of a result to the result.
  viewed :
      (r : Result (Stack A))
      → Returns IsValid r
      → Returns (All P) (r >>= λ s. ok (contents s))
      → Returns Holds r
  viewed (ok s) v h = record { valid = v; items = h }
  viewed (panic _) v h = tt
  viewed (fault _) v h = tt

  viewed_popped :
      (r : Result (List A × Stack A))
      → Returns PoppedValid r
      → Returns BothAll (view_popped r)
      → Returns PoppedHolds r
  viewed_popped (ok p) v h = (h.0, record { valid = v; items = h.1 })
  viewed_popped (panic _) v h = tt
  viewed_popped (fault _) v h = tt

  push_all-All :
      (cap : ℕ) (src s : List A) → All P src → All P s → Returns (All P) (Spec.push_all cap src s)
  unfolding Spec.push_all
  push_all-All cap src s h k = guarded (ltb cap (length s + length src)) (All-append P src s h k)
    where
      guarded :
          (b : Bool)
          → All P (src ++ s)
          → Returns (All P) (if b then panic stack_overflow else ok (src ++ s))
      guarded true h = tt
      guarded false h = h

  pop_all-All : (count : ℕ) (s : List A) → All P s → Returns BothAll (Spec.pop_all count s)
  unfolding Spec.pop_all
  pop_all-All count s h =
      guarded (ltb (length s) count) (All-take P count s h, All-drop P count s h)
    where
      guarded :
          (b : Bool)
          → All P (take count s) × All P (drop count s)
          → Returns BothAll (if b then panic stack_underflow else ok (take count s, drop count s))
      guarded true h = tt
      guarded false h = h

  pub push3-Holds : (s : Stack A) (src : List A) → Holds s → All P src → Returns Holds (push3 s src)
  push3-Holds s src h k =
      viewed (push3 s src)
        (Returns_mono _ IsValid (push3 s src) (λ t p. p.0) (push3-IsValid s src h.valid))
        (rw (push3_refines s src h.valid) (push_all-All s.bottom src (contents s) k h.items))

  pub push-Holds : (s : Stack A) (v : A) → Holds s → P v → Returns Holds (push s v)
  unfolding push
  push-Holds s v h k = push3-Holds s (v ∷ []) h (k, tt)

  pub pop3-Holds : (s : Stack A) (count : ℕ) → Holds s → Returns PoppedHolds (pop3 s count)
  pop3-Holds s count h =
      viewed_popped (pop3 s count)
        (Returns_mono _ PoppedValid (pop3 s count) (λ p q. q.1) (pop3-IsValid s count h.valid))
        (rw (pop3_refines s count h.valid) (pop_all-All count (contents s) h.items))

  pub pop-Holds : (s : Stack A) → Holds s → Returns OneHolds (pop s)
  unfolding pop
  pop-Holds s h =
      Returns-bind PoppedHolds OneHolds (pop3 s 1) _ (pop3-Holds s 1 h) λ p k. first p.0 p.1 k.0 k.1
    where
      first :
          (dst : List A) (s' : Stack A)
          → All P dst
          → Holds s'
          → Returns OneHolds (access (get_elem? dst 0) >>= λ v. ok (v, s'))
      first [] s' h k = tt
      first (v ∷ dst) s' h k = (h.0, k)
