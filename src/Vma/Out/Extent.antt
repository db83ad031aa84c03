-- ===== src/Vma/Out/Extent.antt =====
-- The extent of a program that reserves no space within its code, in src/vma/vma_asm.c: the
-- addresses of pass 1 and the bytes that pass 2 writes between them.
use mathlib.Core.Path.{subst}
use mette.Base.{
  ℕ, ◌+◌, ◌-◌, ◌*◌, ◌^◌, ◌≤◌, ◌<◌, ◌≡◌, refl, arith, Bool, true, false, List, [], ◌∷◌, ◌++◌, length,
  All,
}
use mette.Base.{
  String, sub32, ltb, Bool-cases, inl, inr, length-append, ap, sym, le→ltb-false, ltb-false→le,
}
use mette.Vma.Syntax.{
  SymbolId, Insn, machine, defb, defh, defw, defs, resb, resh, resw, const_mark, subend, substart,
}
use mette.Vma.Eval.{done, Asm}
use mette.Vma.Eval.Errors.{Reaches, Reaches-bind, Reaches-done}
use mette.Vma.Pass1.{Placed, Layout, place_insn, place_insns}
use mette.Vma.Pass1.Align.{align-two, align-four}
use mette.Vma.Emit.{emit_insn}
use mette.Vma.Emit.Length.{Sized, fixed_size, room, emit_insn-Sized}
use mette.Vma.Out.{emit_insns}

-- No reserved space, and no list of words or half words without elements.
abbrev pub is_code : Insn → Bool
is_code (resb _) = false
is_code (resh _) = false
is_code (resw _) = false
is_code (defh []) = false
is_code (defw []) = false
is_code _ = true

abbrev pub IsCode : Insn → Type 0
IsCode insn = is_code insn ≡ true

-- A bound of the room that a program takes, with its padding.
abbrev pub bound : List Insn → ℕ
bound [] = 0
bound (insn ∷ insns) = 3 + fixed_size insn + bound insns

-- An instruction that is placed behind `next` with padding, if it needs any, in front.
abbrev Follows : ℕ → Placed → Type 0
Follows next p =
    (p.start_addr ≡ next + p.align_bytes)
    × (p.align_bytes ≤ 3 * fixed_size p.insn)
    × (p.align_bytes ≤ 3)
    × IsCode p.insn

abbrev Consecutive : ℕ → List Placed → ℕ → Type 0
Consecutive next [] end = next ≡ end
Consecutive next (p ∷ ps) end =
    Follows next p × Consecutive (p.start_addr + fixed_size p.insn) ps end

abbrev PlacedBehind : Insn → ℕ → Placed × Layout × Asm → Type 0
PlacedBehind insn next r =
    Follows next r.0
    × (r.0.insn ≡ insn)
    × (r.1.next_va ≡ r.0.start_addr + fixed_size insn)
    × (r.1.bss_va ≡ r.1.next_va)

Consecutive-le : (next : ℕ) (ps : List Placed) (end : ℕ) → Consecutive next ps end → next ≤ end
Consecutive-le next [] end h = omega arith
Consecutive-le next (p ∷ ps) end h =
    omega (arith, Consecutive-le (p.start_addr + fixed_size p.insn) ps end h.1, h.0.0)

room-code : (insn : Insn) (s : Asm) → IsCode insn → room insn s ≡ 0
room-code (resb _) s h = cc
room-code (resh _) s h = cc
room-code (resw _) s h = cc
room-code _ s h = refl

module _ (stale : SymbolId → String) (fuel : ℕ) where
  place_insn-Behind :
      (insn : Insn) (l : Layout) (s : Asm)
      → IsCode insn
      → l.bss_va ≡ l.next_va
      → l.next_va + 3 + fixed_size insn < 2 ^ 32
      → Reaches (PlacedBehind insn l.next_va) (place_insn stale fuel insn l s)
  unfolding place_insn
  place_insn-Behind (resb _) l s h e small = cc
  place_insn-Behind (resh _) l s h e small = cc
  place_insn-Behind (resw _) l s h e small = cc
  place_insn-Behind (defh []) l s h e small = cc
  place_insn-Behind (defw []) l s h e small = cc
  place_insn-Behind (defh (x ∷ xs)) l s h e small =
      let a = align-two l.next_va (omega arith) in
      ((omega arith, omega arith, omega arith, refl), refl, omega arith, refl)
  place_insn-Behind (defw (x ∷ xs)) l s h e small =
      let a = align-four l.next_va (omega arith) in
      ((omega arith, omega arith, omega arith, refl), refl, omega arith, refl)
  place_insn-Behind (machine op _) l s h e small =
      ((omega arith, omega arith, omega arith, refl), refl, omega arith, refl)
  place_insn-Behind (defs text) l s h e small =
      ((omega arith, omega arith, omega arith, refl), refl, omega arith, refl)
  place_insn-Behind (defb es) l s h e small =
      ((omega arith, omega arith, omega arith, refl), refl, omega arith, refl)
  place_insn-Behind const_mark l s h e small =
      ((omega arith, omega arith, omega arith, refl), refl, omega arith, omega arith)
  place_insn-Behind subend l s h e small =
      ((omega arith, omega arith, omega arith, refl), refl, omega arith, omega arith)
  place_insn-Behind (substart k) l s h e small =
      ((omega arith, omega arith, omega arith, refl), refl, omega arith, omega arith)

  abbrev pub Extended : Layout → List Insn → List Placed × Layout × Asm → Type 0
  Extended l code r =
      Consecutive l.next_va r.0 r.1.next_va
      × (r.1.bss_va ≡ r.1.next_va)
      × (r.1.next_va ≤ l.next_va + bound code)

  place_insns-Extended :
      (code : List Insn) (l : Layout) (s : Asm)
      → All IsCode code
      → l.bss_va ≡ l.next_va
      → l.next_va + bound code < 2 ^ 32
      → Reaches (Extended l code) (place_insns stale fuel code l s)
  unfolding place_insns
  place_insns-Extended [] l s h e small = (refl, e, omega arith)
  place_insns-Extended (insn ∷ code) l s h e small =
      Reaches-bind (PlacedBehind insn l.next_va) (Extended l (insn ∷ code))
        (place_insn stale fuel insn l s) _ (place_insn-Behind insn l s h.0 e (omega arith))
        (λ p b.
          let l1 : Layout = p.1 in
          let same : fixed_size p.0.insn ≡ fixed_size insn = ap fixed_size b.1 in
          let start : l1.next_va ≡ p.0.start_addr + fixed_size p.0.insn =
            omega (arith, b.2, same) in
          Reaches-bind (Extended l1 code) (Extended l (insn ∷ code))
            (place_insns stale fuel code l1 p.2) _
            (place_insns-Extended code l1 p.2 h.1 b.3 (omega (arith, b.0, b.2, same)))
            (λ r k. (
              (b.0, subst (λ n. Consecutive n r.0 r.1.next_va) start k.0),
              k.1,
              omega (arith, k.2, b.0, b.2, same),
            )))

  -- What is placed behind the code does not start within it.
  abbrev pub Behind : ℕ → List Placed → Type 0
  Behind bss [] = Unit
  Behind bss (p ∷ _) = bss ≤ p.start_addr

  none_emitted :
      (bss : ℕ) (rest : List Placed) (s : Asm)
      → Behind bss rest
      → emit_insns stale fuel bss rest s ≡ done ([], s)
  unfolding emit_insns
  none_emitted bss [] s h = refl
  none_emitted bss (p ∷ rest) s h = rw (le→ltb-false p.start_addr bss h) refl

  emit_insns-Sized :
      (ps rest : List Placed) (next bss : ℕ) (s : Asm)
      → Consecutive next ps bss
      → Behind bss rest
      → Reaches (Sized s (bss - next)) (emit_insns stale fuel bss (ps ++ rest) s)
  unfolding emit_insns
  emit_insns-Sized [] rest next bss s c b =
      rw (none_emitted bss rest s b) (omega arith, λ e. omega arith)
  emit_insns-Sized (p ∷ ps) rest next bss s c b =
      let later = Consecutive-le (p.start_addr + fixed_size p.insn) ps bss c.1 in
      let unreserved = room-code p.insn s c.0.3 in
      elim (Bool-cases (ltb p.start_addr bss)) [
        | inr past ↦
            let behind = ltb-false→le p.start_addr bss past in
            rw (past, emit_insns) (omega arith, λ e. omega (arith, c.0))
        | inl within ↦
            rw (within, emit_insns)
              (Reaches-bind (Sized s (p.align_bytes + fixed_size p.insn + room p.insn s))
                (Sized s (bss - next)) (emit_insn stale fuel p s) _ (emit_insn-Sized stale fuel p s)
                (λ r h.
                  Reaches-bind (Sized r.1 (bss - (p.start_addr + fixed_size p.insn)))
                    (Sized s (bss - next)) (emit_insns stale fuel bss (ps ++ rest) r.1) _
                    (emit_insns-Sized ps rest (p.start_addr + fixed_size p.insn) bss r.1 c.1 b)
                    (λ q k. (
                      omega (arith, h.0, k.0),
                      λ e. omega (
                        arith,
                        h.1 (omega (arith, h.0, k.0)),
                        k.1 (omega (arith, h.0, k.0)),
                        length-append r.0 q.0,
                        c.0,
                      ),
                    ))))
      ]

  -- Code that reserves no space, has no empty .DEFH or .DEFW and starts at `start_va`, as pass 1 places it, is written by pass 2
  -- in as many bytes as the file part of the layout has, if nothing behind it starts within it,
  -- the code stays within the address space, and nothing that is written is an error.
  pub emit_insns-extent :
      (code : List Insn) (placed rest : List Placed) (start_va : ℕ) (l : Layout) (s s' t t' : Asm)
      (body : List ℕ)
      → All IsCode code
      → start_va + bound code < 2 ^ 32
      → place_insns stale fuel code (record { next_va = start_va; bss_va = start_va }) s
        ≡ done (placed, l, s')
      → Behind l.bss_va rest
      → emit_insns stale fuel l.bss_va (placed ++ rest) t ≡ done (body, t')
      → t'.errors ≡ t.errors
      → length body ≡ sub32 l.bss_va start_va
  emit_insns-extent code placed rest start_va l s s' t t' body all small laid behind emitted quiet =
      let origin : Layout = record { next_va = start_va; bss_va = start_va } in
      let x =
        Reaches-done (Extended origin code) _ (placed, l, s')
          (place_insns-Extended code origin s all refl small) laid in
      let upto = Consecutive-le start_va placed l.next_va x.0 in
      let c = subst (λ n. Consecutive start_va placed n) (sym x.1) x.0 in
      let y =
        Reaches-done (Sized t (l.bss_va - start_va)) _ (body, t')
          (emit_insns-Sized placed rest start_va l.bss_va t c behind) emitted in
      omega (arith, y.1 quiet, x.1, x.2)
