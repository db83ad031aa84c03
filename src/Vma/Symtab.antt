-- ===== src/Vma/Symtab.antt =====
-- The symbol tables of src/vma/vma_asm.c and `vma_symbol_define` of src/vma/vma_misc.c.
pub mod Laws
use mette.Base.{ℕ, zero, suc, String, ◌+◌, Bool, true, false, ◌&&◌, ltb, ◌==◌, if◌then◌else◌}
use mette.Base.{Option, none, some, List, [], ◌∷◌, ◌++◌, length, get_elem?, codes, ◌<◌}
use text.Mathlib.Text.{◌==◌ as str_eq}
use mette.Vma.Syntax.{Symbol, Meaning, SymbolId}

abbrev pub Symtab : Type 0
Symtab = List Symbol

-- `vma_symtab_lookup`: the place of the first symbol of that name.
unfoldable pub lookup : Symtab → String → Option ℕ
lookup [] name = none
lookup (sym ∷ rest) name =
    if str_eq sym.name name
    then some 0
    else elim (lookup rest name) [ none ↦ none | some i ↦ some (suc i) ]

-- `vma_symtab_define`: the table, the place of the symbol, and whether it was there before. A
-- native call gets the number of symbols before it as its number.
unfoldable pub define : Symtab → String → (ℕ → Meaning) → ℕ → Symtab × ℕ × Bool
unfolding lookup
define table name meaning line = elim (lookup table name) [
  | some i ↦ (table, i, true)
  | none ↦ (
    table ++ (record { name = name; meaning = meaning (length table); line = line } ∷ []),
    length table,
    false,
  )
]

-- The tables that `lookup_stack` leads to: that of the subroutine, if there is one, and the
-- global one behind it.
pub record Tables : Type 0 where
  pub globals : Symtab
  pub locals : List Symtab
  pub scope : Option ℕ

abbrev pub local_table : Tables → ℕ → Symtab
local_table ts k = elim (get_elem? ts.locals k) [ none ↦ [] | some t ↦ t ]

-- `vma_symtab_lookup_chain` from `lookup_stack` on.
unfoldable pub lookup_globals : Tables → String → Option SymbolId
unfolding lookup
lookup_globals ts name = elim (lookup ts.globals name) [
  | none ↦ none
  | some i ↦ some (record { table = none; place = i })
]

unfoldable pub lookup_chain : Tables → String → Option SymbolId
unfolding lookup lookup_globals
lookup_chain ts name = elim ts.scope [
  | none ↦ lookup_globals ts name
  | some k ↦ elim (lookup (local_table ts k) name) [
    | some i ↦ some (record { table = some k; place = i })
    | none ↦ lookup_globals ts name
  ]
]
