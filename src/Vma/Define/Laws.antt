-- ===== src/Vma/Define/Laws.antt =====
-- What a definition by `vma_symbol_define` of src/vma/vma_misc.c leaves behind.
use mette.Base.{ℕ, ◌+◌, ◌≡◌, Bool, none, some, String, ◌&&◌, not, if◌then◌else◌}
use mette.Vma.Syntax.{Meaning, SymbolId}
use mette.Vma.Symtab.{lookup, define}
use mette.Vma.Eval.{Asm}
use mette.Vma.Define.{is_ncall}

-- The state after an optional error: the same tables, and one error more if there was one.
abbrev Reported : Bool → Asm → Asm → Type 0
Reported b s s' = (s'.tables ≡ s.tables) × (s'.errors ≡ s.errors + (if b then 1 else 0))

-- The name is found where it was defined, and the errors are those before, and one more if the
-- name was known and no native call is defined.
abbrev pub Defined : Asm → String → (ℕ → Meaning) → ℕ → Asm × SymbolId → Type 0
Defined s name meaning line r =
    (r.1.table ≡ none)
    × (lookup r.0.tables.globals name ≡ some r.1.place)
    × (r.0.errors
        ≡ s.errors
          + (if (define s.tables.globals name meaning line).2 && not (is_ncall (meaning 0))
              then 1
              else 0))
