-- ===== src/Vm/Tests.antt =====
-- The stack, the byte order, the thunk table and the loader of src/vm on small inputs.
use mette.Base.{
  ℕ, ◌⊎◌, ◌≡◌, ◌≢◌, ◌+◌, ◌-◌, refl, arith, true, min, none, some, List, [], ◌∷◌, ◌++◌, get_elem?,
  All,
}
use mette.Base.{ok, panic, take, drop, length, replicate, stack_overflow}
use mette.Vm.Memory.{mips, Memory, bswap32, fetch32_ua}
use mette.Vm.Memory.Laws.{fetch32_ua-le32}
use mette.Vm.Stack.{Stack, push3, pop3, push, pop}
use mette.Vm.Stack.Spec
use mette.Vm.Stack.Refine.{IsValid, contents, view, view_popped, push3_refines, pop3_refines}
use mette.Vm.Stack.RoundTrip.{push-pop}
use mette.Vm.Thunks.{ThunkRecord, lookup_thunk}
use mette.Vm.Thunks.Laws.{lookup_thunk_lem, Others}
use mette.Vm.Loader.{Files, load_fd, place}
use mette.Vm.Loader.Image.{Regular, image, loaded_table, load_fd-image}

abbrev three_cells : Stack ℕ
three_cells = record { bottom = 3; limit = 0; top = 2; mem = 0 ∷ 0 ∷ 9 ∷ [] }

three_cells-IsValid : IsValid three_cells
three_cells-IsValid = record { region = refl; base = refl; in_region = omega arith }

push3_refines_example :
    view (push3 three_cells (7 ∷ 8 ∷ [])) ≡ Spec.push_all 3 (7 ∷ 8 ∷ []) (9 ∷ [])
push3_refines_example = push3_refines three_cells (7 ∷ 8 ∷ []) three_cells-IsValid

pop3_refines_example : view_popped (pop3 three_cells 1) ≡ Spec.pop_all 1 (9 ∷ [])
pop3_refines_example = pop3_refines three_cells 1 three_cells-IsValid

-- There is room for two operands and not for three.
push3_limits :
    (view (push3 three_cells (7 ∷ 8 ∷ [])) ≡ ok (7 ∷ 8 ∷ 9 ∷ []))
    × (view (push3 three_cells (6 ∷ 7 ∷ 8 ∷ [])) ≡ panic stack_overflow)
unfolding push3
push3_limits = (refl, refl)

push-pop_example :
    (s' s'' : Stack ℕ) × (push three_cells 7 ≡ ok s')
    × (pop s' ≡ ok (7, s''))
    × (contents s'' ≡ 9 ∷ [])
    × (s''.top ≡ 2)
    × (s''.bottom ≡ 3)
push-pop_example = push-pop three_cells 7 three_cells-IsValid (omega arith)

abbrev word_memory : Memory
word_memory addr = get_elem? (4 ∷ 3 ∷ 2 ∷ 1 ∷ []) addr

fetch32_ua-le32_example : fetch32_ua mips word_memory 0 ≡ ok (bswap32 0x01020304)
fetch32_ua-le32_example =
    fetch32_ua-le32 mips word_memory 0 0x01020304 (omega arith)
      (record { at0 = refl; at1 = refl; at2 = refl; at3 = refl })

abbrev print_record : ThunkRecord
print_record = record { hash = 17; proc = 4096 }

abbrev exit_record : ThunkRecord
exit_record = record { hash = 18; proc = 8192 }

abbrev records : List ThunkRecord
records = print_record ∷ exit_record ∷ []

lookup_thunk_lem_example :
    ((lookup_thunk records 18 ≡ 0) × All (Others 18) records)
    ⊎ ((before : List ThunkRecord) × (r : ThunkRecord) × (after : List ThunkRecord) × (records
          ≡ before ++ (r ∷ after))
        × (r.hash ≡ 18)
        × All (Others 18) before
        × (lookup_thunk records 18 ≡ r.proc))
lookup_thunk_lem_example = lookup_thunk_lem records 18

-- A file system with one open file: a handle is a position.
abbrev pub one_file : List ℕ → Files
one_file file = record {
  Handle = ℕ;
  read = λ h count. (some (take count (drop h file)), h + min count (length file - h));
  lseek = λ h pos. pos;
}

pub one_file-Regular : (file : List ℕ) → Regular (one_file file) file
one_file-Regular file = record {
  At = λ h pos. h ≡ pos;
  seek_at = λ h pos. refl;
  read_bytes = λ h pos count at fits. rw at refl;
  read_at = λ h pos count at fits. omega arith;
}

abbrev pad : List ℕ
pad = replicate 14 0

abbrev body : List ℕ
body = 18 ∷ 182 ∷ []

abbrev module_file : List ℕ
module_file = image (one_file []) 8 2 1 pad body (17 ∷ [])

abbrev empty_memory : Memory
empty_memory addr = none

load_fd-image_example :
    load_fd
      (one_file module_file)
      mips
      (record { module_granted = true; image = some 0x1000; table_granted = true })
      (lookup_thunk (print_record ∷ []))
      0
      empty_memory
    ≡ ok (
      record {
        base = 0x1000;
        entry = 0x1001;
        ncalls_table = loaded_table (lookup_thunk (print_record ∷ [])) (17 ∷ []);
      },
      place empty_memory 0x1000 body,
    )
load_fd-image_example =
    load_fd-image (one_file module_file) 8 2 1 pad body (17 ∷ []) (one_file-Regular module_file)
      mips (lookup_thunk (print_record ∷ [])) 0 empty_memory 0x1000
      (omega arith, omega arith, omega arith, omega arith) refl refl (omega arith) (omega arith, tt)
      ((λ e. known e), tt)
  where
    known : lookup_thunk (print_record ∷ []) 17 ≢ 0
    known = unfold lookup_thunk in omega arith
