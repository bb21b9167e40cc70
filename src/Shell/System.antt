-- ===== src/Shell/System.antt =====
-- What the commands of kernel/shell.c work on.
use basedos.Prelude.{ℕ}
use basedos.Kernel.{Kernel}
use basedos.Fs.Driver.{memfs}
use basedos.Fs.Memfs.{Memfs}
use basedos.Fs.Vfs.{Vfs}
use basedos.Shell.{Shell}

-- How the branch of a command ends: at the end of the chain, by a `return`, or in a loop of `hlt`.
pub data Outcome (A : Type 0) : Type 0 where
  done : A → Outcome A
  returned : A → Outcome A
  halted : A → Outcome A

-- the fuel of memfs_finddir
module _ (n : ℕ) where
  -- The shell, the files, and the kernel, whose heap is the one in `vfs`.
  pub record System : Type 0 where
    pub shell : Shell
    pub vfs : Vfs (memfs n)
    pub kernel : Kernel

  abbrev pub on_shell : (Shell → Shell) → System → System
  on_shell f sys = record sys { shell = f sys.shell }

  abbrev pub with_state : Memfs → System → System
  with_state s sys = record sys { vfs = record sys.vfs { state = s } }
