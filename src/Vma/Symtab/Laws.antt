-- ===== src/Vma/Symtab/Laws.antt =====
-- What the symbol tables of src/vma/vma_asm.c promise.
use mette.Base.{ℕ, suc, String, ◌+◌, ◌≡◌, refl, ap, arith, false, ◌⊎◌, inl, inr, ◌∙◌}
use mette.Base.{Option, none, some, [], ◌∷◌, ◌++◌, length}
use text.Mathlib.Text.{◌==◌ as str_eq}
use text.Mathlib.TextPositions.{eq_refl}
use mette.Vma.Syntax.{Symbol, Meaning, ncall}
use mette.Vma.Symtab.{Symtab, lookup, define}

Option-cases {ℓ} : {A : Type ℓ} (o : Option A) → (o ≡ none) ⊎ ((a : A) × (o ≡ some a))
Option-cases none = inl refl
Option-cases (some a) = inr (a, refl)

lookup-append_new :
    (table : Symtab) (s : Symbol)
    → lookup table s.name ≡ none
    → lookup (table ++ (s ∷ [])) s.name ≡ some (length table)
unfolding lookup
lookup-append_new [] s h = rw (eq_refl s.name)
lookup-append_new (x ∷ rest) s h = ground (arith, lookup-append_new rest s)

lookup-append_ne :
    (table : Symtab) (s : Symbol) (other : String)
    → str_eq s.name other ≡ false
    → lookup (table ++ (s ∷ [])) other ≡ lookup table other
unfolding lookup
lookup-append_ne [] s other ne = rw ne
lookup-append_ne (x ∷ rest) s other ne = rw (lookup-append_ne rest s other ne)

-- After a definition the name is found at the place that the definition returned, whether the
-- name was new or known.
pub lookup-define :
    (table : Symtab) (name : String) (meaning : ℕ → Meaning) (line : ℕ)
    → lookup (define table name meaning line).0 name ≡ some (define table name meaning line).1
unfolding define
lookup-define table name meaning line = elim (Option-cases (lookup table name)) [
  | inl e ↦
      rw (e, define)
        (lookup-append_new table
          (record { name = name; meaning = meaning (length table); line = line }) e)
  | inr e ↦ rw (e.1, define) e.1
]

-- A definition leaves the search for every other name as it was.
pub lookup-define_ne :
    (table : Symtab) (name : String) (meaning : ℕ → Meaning) (line : ℕ) (other : String)
    → str_eq name other ≡ false
    → lookup (define table name meaning line).0 other ≡ lookup table other
unfolding define
lookup-define_ne table name meaning line other ne = elim (Option-cases (lookup table name)) [
  | inl e ↦
      rw (e, define)
        (lookup-append_ne table
          (record { name = name; meaning = meaning (length table); line = line }) other ne)
  | inr e ↦ rw (e.1, define) refl
]

-- Symbols of native calls carry the number of their place.
abbrev pub IsNumbered : ℕ → Symtab → Type 0
IsNumbered k [] = Unit
IsNumbered k (s ∷ rest) = (s.meaning ≡ ncall k) × IsNumbered (suc k) rest

IsNumbered-append :
    (k : ℕ) (table : Symtab) (s : Symbol)
    → IsNumbered k table
    → s.meaning ≡ ncall (k + length table)
    → IsNumbered k (table ++ (s ∷ []))
IsNumbered-append k [] s h e = let z : k + 0 ≡ k = omega arith in (e ∙ ap ncall z, tt)
IsNumbered-append k (x ∷ rest) s h e =
    let z : k + suc (length rest) ≡ suc k + length rest = omega arith in
    (h.0, IsNumbered-append (suc k) rest s h.1 (e ∙ ap ncall z))

-- If the symbols of a table of native calls are numbered by their places, from 0 on, they still
-- are after a definition.
pub define-IsNumbered :
    (table : Symtab) (name : String) (line : ℕ)
    → IsNumbered 0 table
    → IsNumbered 0 (define table name ncall line).0
unfolding define
define-IsNumbered table name line h = elim (Option-cases (lookup table name)) [
  | inl e ↦
      let z : length table ≡ 0 + length table = omega arith in
      rw (e, define) (IsNumbered-append 0 table _ h (ap ncall z))
  | inr e ↦ rw (e.1, define) h
]
