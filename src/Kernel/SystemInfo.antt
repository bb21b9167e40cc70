-- ===== src/Kernel/SystemInfo.antt =====
-- What show_system_info of kernel/kernel.c prints.
use basedos.Prelude.{ℕ, if◌then◌else◌, List, [], ◌∷◌}
use basedos.Prelude.Text.{codes}
use basedos.Kernel.{Kernel}
use basedos.Terminal.{Terminal, terminal_writestring}

-- the texts, one behind the other
unfoldable pub write_all : List (List ℕ) → Terminal → Terminal
write_all [] t = t
write_all (text ∷ texts) t = write_all texts (terminal_writestring t text)

-- the lines, for the digits of the three numbers
abbrev pub status_lines : Kernel → List ℕ → List ℕ → List ℕ → List (List ℕ)
status_lines k total free uptime =
    codes "BasedOS Enhanced Kernel\n"
    ∷ codes "=======================\n"
    ∷ codes "Memory: "
    ∷ codes "0x"
    ∷ total
    ∷ codes " bytes total, "
    ∷ codes "0x"
    ∷ free
    ∷ codes " bytes free\n"
    ∷ codes "Uptime: "
    ∷ uptime
    ∷ codes " seconds\n"
    ∷ codes "Interrupts: "
    ∷ (if k.interrupts_enabled then codes "Enabled" else codes "Disabled")
    ∷ codes "\nScheduler: "
    ∷ (if k.scheduler_active then codes "Active" else codes "Inactive")
    ∷ codes "\nMemory Manager: "
    ∷ (if k.memory_manager_ready then codes "Ready" else codes "Not Ready")
    ∷ codes "\n\n"
    ∷ []
