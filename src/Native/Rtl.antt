-- ===== src/Native/Rtl.antt =====
-- src/vm_thunks/vmt_rtl.c: the allocator, blocks and string buffers for bytecode.
use mette.Vm.Memory.{Target}
use mette.Native.Act.{
  Act, Host, pure, ◌>>=◌, args, arg, give, call, rtl_alloc, rtl_realloc, rtl_free,
}
use mette.Native.Strbuf.{
  memset, memcpy, get_buffer, get_length, get_size, set_length, alloc, free, resize,
}

module _ (t : Target) (host : Host) where
  unfoldable pub thunk_alloc : Act (Unit {0})
  thunk_alloc = do xs ← args 1; ptr ← call host (rtl_alloc (arg xs 0)); give ptr

  unfoldable pub thunk_realloc : Act (Unit {0})
  thunk_realloc = do xs ← args 2; ptr ← call host (rtl_realloc (arg xs 0) (arg xs 1)); give ptr

  unfoldable pub thunk_free : Act (Unit {0})
  thunk_free = do xs ← args 1; _ ← call host (rtl_free (arg xs 0)); pure tt

  unfoldable pub thunk_memset : Act (Unit {0})
  thunk_memset = do xs ← args 3; memset (arg xs 0) (arg xs 1) (arg xs 2)

  unfoldable pub thunk_memcpy : Act (Unit {0})
  thunk_memcpy = do xs ← args 3; memcpy (arg xs 0) (arg xs 1) (arg xs 2)

  unfoldable pub thunk_strbuf_alloc : Act (Unit {0})
  thunk_strbuf_alloc = do xs ← args 1; sb ← alloc t host (arg xs 0); give sb

  unfoldable pub thunk_strbuf_free : Act (Unit {0})
  thunk_strbuf_free = do xs ← args 1; free t host (arg xs 0)

  unfoldable pub thunk_strbuf_get_length : Act (Unit {0})
  thunk_strbuf_get_length = do xs ← args 1; length ← get_length t (arg xs 0); give length

  unfoldable pub thunk_strbuf_get_size : Act (Unit {0})
  thunk_strbuf_get_size = do xs ← args 1; size ← get_size t (arg xs 0); give size

  unfoldable pub thunk_strbuf_get_buffer : Act (Unit {0})
  thunk_strbuf_get_buffer = do xs ← args 1; give (get_buffer (arg xs 0))

  unfoldable pub thunk_strbuf_set_length : Act (Unit {0})
  thunk_strbuf_set_length = do xs ← args 2; set_length t (arg xs 0) (arg xs 1)

  unfoldable pub thunk_strbuf_resize : Act (Unit {0})
  thunk_strbuf_resize = do xs ← args 2; sb ← resize t host (arg xs 0) (arg xs 1); give sb
