-- ===== src/Vma/Define.antt =====
-- `vma_symbol_define` and `vma_context_init` of src/vma/vma_misc.c.
pub mod Laws
use mette.Base.{
  ℕ, zero, suc, ◌+◌, Bool, true, false, ◌&&◌, ltb, ◌==◌, List, [], ◌∷◌, length, get_or, set, codes,
  if◌then◌else◌,
}
use mette.Base.{String, Option, none, some, not}
use mette.Vma.Syntax.{Meaning, SymbolId, ncall}
use mette.Vma.Symtab.{Symtab, Tables, define, local_table}
use mette.Vma.Eval.{Outcome, done, ◌>>=◌, Asm, error}

-- `strlen(name) > 2 && name[0] == '@' && name[1] == '@'`.
abbrev pub is_local : String → Bool
is_local name =
    ltb 2 (length (codes name))
    && get_or (codes name) 0 0 == b'@'
    && get_or (codes name) 1 0 == b'@'

abbrev pub is_ncall : Meaning → Bool
is_ncall (ncall _) = true
is_ncall _ = false

-- `vma_error` if the test holds.
unfoldable pub error_if : Bool → Asm → Outcome Asm
unfolding error
error_if true s = error s
error_if false s = done s

-- `vma_symtab_define` on the table that `lookup_stack` points to, and on the global one.
unfoldable pub define_global : Asm → String → (ℕ → Meaning) → ℕ → Asm × SymbolId × Bool
unfolding define
define_global s name meaning line =
    let (table, place, known) = define s.tables.globals name meaning line in
    (
      record s { tables = record (s.tables) { globals = table } },
      record { table = none; place = place },
      known,
    )

unfoldable pub define_scoped : Asm → String → (ℕ → Meaning) → ℕ → Asm × SymbolId × Bool
unfolding define define_global
define_scoped s name meaning line = elim s.tables.scope [
  | none ↦ define_global s name meaning line
  | some k ↦
      let (table, place, known) = define (local_table s.tables k) name meaning line in
      (
        record s { tables = record (s.tables) { locals = set s.tables.locals k table } },
        record { table = some k; place = place },
        known,
      )
]

-- `vma_symbol_define`: the state, and where the symbol stands. Defining a name again is an error,
-- except for a native call.
unfoldable pub symbol_define : Asm → String → (ℕ → Meaning) → ℕ → Outcome (Asm × SymbolId)
unfolding error_if define_scoped define_global
symbol_define s name meaning line =
    if is_local name
    then (do
      s1 ← error_if (is_ncall (meaning 0)) s
      s2 ← error_if (elim s.tables.scope [ none ↦ true | some _ ↦ false ]) s1
      let r = define_scoped s2 name meaning line
      s3 ← error_if (r.2 && not (is_ncall (meaning 0))) r.0
      done (s3, r.1))
    else (do
      let r = define_global s name meaning line
      s3 ← error_if (r.2 && not (is_ncall (meaning 0))) r.0
      done (s3, r.1))

-- `vma_context_init`: no symbol, no instruction, no error, and the global scope.
unfoldable pub context_init : Asm
context_init = record {
  tables = record { globals = []; locals = []; scope = none };
  exprs = [];
  addrs = [];
  errors = 0;
}
