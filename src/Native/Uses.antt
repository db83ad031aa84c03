-- ===== src/Native/Uses.antt =====
-- What a native procedure does to the machine, part by part: how many operands it takes and puts,
-- and that the machine's invariant holds.
pub mod Prims
use mette.Base.{ℕ, ◌+◌, ◌≡◌, refl, arith, List, [], ◌∷◌, All}
use mette.Base.{Result, ok, panic, fault, Returns, Returns_mono}
use mette.Vm.Memory.{Memory}
use mette.Vm.Memory.Laws.{IsBytes}
use mette.Vm.Stack
use mette.Vm.Stack.{Stack}
use mette.Vm.Stack.Items.{Holds, PoppedHolds, push-Holds, pop3-Holds}
use mette.Vm.Stack.Refine.{depth, push3-IsValid, pop3-IsValid}
use mette.Vm.Context.{Context}
use mette.Vm.Step.Valid.{IsWord, IsValid}
use mette.Native.Act.{Act, Host, Call, pure, ◌>>=◌, args, give, call, load, store}

-- The machine after an act on `ctx` that takes `n` operands and puts as many as `L` allows.
pub record Left (ctx : Context) (n : ℕ) (L : ℕ → Type 0) (ctx' : Context) : Type 0 where
  pub valid : IsValid ctx'
  pub count : ℕ
  pub allowed : L count
  pub balance : depth ctx'.dstack + n ≡ depth ctx.dstack + count

-- Such a machine, with a value that `Q` holds of.
abbrev pub Ends : Context → ℕ → (ℕ → Type 0) → {A : Type 0} → (A → Type 0) → A × Context → Type 0
Ends ctx n L Q r = Q r.0 × Left ctx n L r.1

abbrev pub Uses : ℕ → (ℕ → Type 0) → {A : Type 0} → (A → Type 0) → Act A → Type 0
Uses n L Q m = (ctx : Context) → IsValid ctx → Returns (Ends ctx n L Q) (m ctx)

abbrev pub Exactly : ℕ → ℕ → Type 0
Exactly l k = k ≡ l

-- An act that leaves the data stack alone.
abbrev pub Quiet : {A : Type 0} → (A → Type 0) → Act A → Type 0
Quiet Q m = Uses 0 (Exactly 0) Q m

abbrev pub Any : {A : Type 0} → A → Type 0
Any a = Unit

module _ {A B : Type 0} where
  pub bind-Uses :
      (n k N : ℕ) (K L M : ℕ → Type 0) (P : A → Type 0) (Q : B → Type 0) (m : Act A) (f : A → Act B)
      → n + k ≡ N
      → Uses n K P m
      → ((a : A) → P a → Uses k L Q (f a))
      → ((i j : ℕ) → K i → L j → M (i + j))
      → Uses N M Q (m >>= f)
  bind-Uses n k N K L M P Q m f e hm hf sum ctx v = after (m ctx) (hm ctx v)
    where
      then_left : (c c' : Context) → Left ctx n K c → Left c k L c' → Left ctx N M c'
      then_left c c' first second = record {
        valid = second.valid;
        count = first.count + second.count;
        allowed = sum first.count second.count first.allowed second.allowed;
        balance = omega (arith, e, first.balance, second.balance);
      }

      joined :
          (c : Context) (r : Result (B × Context))
          → Left ctx n K c
          → Returns (Ends c k L Q) r
          → Returns (Ends ctx N M Q) r
      joined c (ok p) first h = (h.0, then_left c p.1 first h.1)
      joined c (panic _) first h = tt
      joined c (fault _) first h = tt

      after :
          (r : Result (A × Context))
          → Returns (Ends ctx n K P) r
          → Returns
              (Ends ctx N M Q)
              (elim r [ ok p ↦ f p.0 p.1 | panic p ↦ panic p | fault x ↦ fault x ])
      after (ok p) h = joined p.1 (f p.0 p.1) h.1 (hf p.0 h.0 p.1 h.1.valid)
      after (panic _) h = tt
      after (fault _) h = tt

-- A weaker claim on the number of results.
pub wider :
    {A : Type 0} (n : ℕ) (L M : ℕ → Type 0) (Q : A → Type 0) (m : Act A)
    → Uses n L Q m
    → ((k : ℕ) → L k → M k)
    → Uses n M Q m
wider n L M Q m h f ctx v = Returns_mono (Ends ctx n L Q) (Ends ctx n M Q) (m ctx) weaken (h ctx v)
  where
    weaken : (r : _ × Context) → Ends ctx n L Q r → Ends ctx n M Q r
    weaken r e = (
      e.0,
      record {
        valid = e.1.valid;
        count = e.1.count;
        allowed = f e.1.count e.1.allowed;
        balance = e.1.balance;
      },
    )
