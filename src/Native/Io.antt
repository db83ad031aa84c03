-- ===== src/Native/Io.antt =====
-- src/vm_thunks/vmt_io.c and src/vm_thunks/vmt_misc.c.
use mette.Base.{if◌then◌else◌}
use mette.Vm.Memory.{Target}
use mette.Native.Act.{Act, Host, pure, ◌>>=◌, ◌>>◌, args, arg, give, call, is_negative}
use mette.Native.Act.{sys_open, sys_read, sys_write, sys_close, sys_ioctl, sys_exit, sys_time}
use mette.Native.Strbuf.{get_buffer, get_length, get_size, set_length, to_asciiz, alloc, free}

module _ (t : Target) (host : Host) where
  unfoldable pub io_open : Act (Unit {0})
  io_open = do
    xs ← args 3
    path ← to_asciiz t (arg xs 0)
    fd ← call host (sys_open path (arg xs 1) (arg xs 2))
    give fd

  -- The failure branch of `io_read` frees the buffer and puts the null pointer, and goes on.
  unfoldable pub io_read : Act (Unit {0})
  io_read = do
    xs ← args 2
    sb ← alloc t host (arg xs 1)
    size ← get_size t sb
    rv ← call host (sys_read (arg xs 0) (get_buffer sb) size)
    if is_negative rv then (do free t host sb; give 0) else pure tt
    set_length t sb rv
    give sb

  unfoldable pub io_write : Act (Unit {0})
  io_write = do
    xs ← args 2
    length ← get_length t (arg xs 1)
    rv ← call host (sys_write (arg xs 0) (get_buffer (arg xs 1)) length)
    give rv

  unfoldable pub io_close : Act (Unit {0})
  io_close = do xs ← args 1; _ ← call host (sys_close (arg xs 0)); pure tt

  unfoldable pub io_ioctl : Act (Unit {0})
  io_ioctl = do xs ← args 3; rv ← call host (sys_ioctl (arg xs 0) (arg xs 1) (arg xs 2)); give rv

  -- `sys_exit` does not return; a host that does not either answers with a panic or a fault.
  unfoldable pub exit : Act (Unit {0})
  exit = do xs ← args 1; _ ← call host (sys_exit (arg xs 0)); pure tt

  unfoldable pub time : Act (Unit {0})
  time = do tv ← call host sys_time; give tv
