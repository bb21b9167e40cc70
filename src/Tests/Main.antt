-- ===== src/Tests/Main.antt =====
-- kmain of kernel/kernel.c at concrete inputs.
use basedos.Prelude.{set, ℕ, ◌≡◌, ◌⊎◌, ◌+◌, refl, arith, List, [], ◌∷◌, some, false}
use basedos.Prelude.Text.{codes}
use mathlib.Core.Option
use basedos.Fs.{o_rdonly}
use basedos.Heap.{kmalloc}
use basedos.Prelude.Int.{pos, negsuc}
use basedos.Tests.Fs.{heap, fs, inodes, inode_a}
use basedos.Fs.Driver.{memfs}
use basedos.Fs.Memfs.{Inode, memfs_open, memfs_finddir, find_child, store_inode, node_of}
use basedos.Fs.Vfs.{
  Vfs, bare_root, vfs_open, open_path, component_length, skip_component, vfs_finddir,
}
use basedos.Fs.Vfs.Fd.{find_free, open_file, read_file, install, set_slot}
use basedos.Fs.Vfs.Fd.Laws.{HasTable}
use basedos.Interrupts.{init_enhanced_interrupts, IdtEntry}
use basedos.Main.{Machine, boot, kmain}
use basedos.Keyboard.{ascii_of}
use basedos.Keyboard.Queue.{Event, interrupt, getchar, keys}
use basedos.Main.Console.{Console, typed}
use basedos.Main.Console.Split.{Split, run_console-Split}
use basedos.Main.FsTest.{fs_test, read_back}
use basedos.Main.FsTest.Laws.{fs_test_lem, read_back_lem, Stops}
use basedos.Main.Run.{Ran, kmain_lem}
use basedos.Main.Start.{greeted, IsUp, boot_lem}
use basedos.Shell.{print_all}
use basedos.Shell.Session.{Session, begin_shell}
use basedos.Shell.Session.Faults.{Fault}
use basedos.Shell.System.{done, System}
use basedos.Shell.Valid.Returns.{IsStarted}
use basedos.Str.Text.{index_of, text_eq}
use basedos.Tests.Shell.{machine, fresh, fresh-IsValid, silent}
use basedos.Tests.Vfs.{vfs, unstarted}

abbrev no_entry : IdtEntry
no_entry = record { base_lo = 0; sel = 0; always0 = 0; flags = 0; base_hi = 0 }

-- the machine before kmain
abbrev switched_on : Machine 9
switched_on = record {
  system = record machine { vfs = unstarted };
  interrupts = record {
    idt = λ k. no_entry;
    idtp = record { limit = 0; base = 0 };
    out = [];
    loaded = record { limit = 0; base = 0 };
  };
  interrupt_flag = false;
}

-- "ls" and Enter
abbrev two_letters : List ℕ
two_letters = b'l' ∷ b's' ∷ 13 ∷ []

kmain_lem_example :
    (m' : Machine 9) × (r : Session 9) × (boot 9 0x1000 0x2000 0x3000 0x4000 0x5000 9 switched_on
      ≡ some m')
    × (begin_shell 9 m'.system ≡ some r)
    × (Ran 9 (kmain 9 0x1000 0x2000 0x3000 0x4000 0x5000 9 silent 0x100 two_letters switched_on)
        ⊎ Fault 9 silent 8 0x100 two_letters r)
kmain_lem_example =
    kmain_lem 9 0x1000 0x2000 0x3000 0x4000 0x5000 8 silent 0x100 two_letters switched_on
      (omega arith) (omega arith) fresh-IsValid

boot_lem_example :
    (m' : Machine 9) × (boot 9 0x1000 0x2000 0x3000 0x4000 0x5000 9 switched_on ≡ some m')
    × IsStarted 9 m'.system
    × IsUp m'.system.kernel
    × (m'.system.shell ≡ greeted fresh)
    × (m'.interrupts ≡ init_enhanced_interrupts 0x1000 0x2000 0x3000 switched_on.interrupts)
    × (m'.interrupt_flag ≡ false)
boot_lem_example =
    boot_lem 9 0x1000 0x2000 0x3000 0x4000 0x5000 9 switched_on (omega arith) (omega arith)

fs_test_lem_example :
    (v' : Vfs (memfs 9)) × (fs_test 9 9 0x4000 0x5000 (record machine { vfs = unstarted })
      ≡ some (record machine {
        shell =
            print_all
              (codes "=== Starting File System Test ===\n"
                ∷ codes "Mounted memory filesystem at /\n"
                ∷ codes "Creating test file...\n"
                ∷ codes "Failed to create test file\n"
                ∷ [])
              fresh;
        vfs = v';
      }))
    × (v'.fs_root ≡ some bare_root)
    × HasTable v'.descriptors
    × (v'.state.heap ≡ record unstarted.state.heap { pos = unstarted.state.heap.pos + 2544 })
fs_test_lem_example =
    fs_test_lem 9 9 0x4000 0x5000 (record machine { vfs = unstarted }) (omega arith) (omega arith)

-- the files mounted by hand at the root, where "a" is called "test.txt"
abbrev test_inode : Inode
test_inode = record inode_a { name = codes "test.txt" }

abbrev with_files : System 9
with_files = record machine {
  vfs = record vfs { state = record fs { inodes = store_inode inodes 0x901C test_inode } };
}

-- the files once the file was opened
abbrev reopened : Vfs (memfs 9)
reopened = record with_files.vfs {
  state = record with_files.vfs.state { heap = record heap { pos = 2360 } };
  descriptors =
      set with_files.vfs.descriptors 2
        (record { node = some (node_of 0x901C test_inode); pos = 0; flags = o_rdonly });
}

read_back_lem_example :
    ((pos 2 ≡ negsuc 0)
      × Stops 9
          (codes "Failed to open test file for reading\n")
          with_files
          (read_back 9 9 0x5000 with_files))
    ⊎ ((i : ℕ) × (pos 2 ≡ pos i)
        × (read_file (memfs 9) reopened (pos i) 0x5000 127 ≡ some (negsuc 0, reopened))
        × Stops 9
            (codes "Failed to read from test file\n")
            with_files
            (read_back 9 9 0x5000 with_files))
unfolding find_free vfs_open open_path component_length skip_component vfs_finddir memfs_finddir
    find_child index_of text_eq kmalloc Option.bind open_file install set_slot memfs_open
read_back_lem_example = read_back_lem 9 9 0x5000 with_files (pos 2) reopened refl refl

-- "l", a read, "s" and its break code, and two reads
abbrev events : List Event
events = interrupt 0x26 ∷ getchar ∷ interrupt 0x1F ∷ interrupt 0x9F ∷ getchar ∷ getchar ∷ []

abbrev console : Console 9
console = record {
  board = record { buffer = λ q. 0; pos = 0; out = [] };
  shell = done (record { system = machine; input = []; position = 0 });
}

run_console-Split_example : Split 9 silent 9 0x100 events console
unfolding typed keys ascii_of
run_console-Split_example = run_console-Split 9 silent 9 0x100 events console (omega arith)
