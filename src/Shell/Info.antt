-- ===== src/Shell/Info.antt =====
-- The commands of kernel/shell.c that show the state of the system, and the smaller ones.
use basedos.Prelude.{
  ℕ, ◌+◌, ◌-◌, ◌*◌, ◌/◌, ◌%◌, ◌^◌, ltb, ◌==◌, if◌then◌else◌, ◌&&◌, Bool, List, [], ◌∷◌, Option,
  none, some,
}
use basedos.Prelude.Text.{codes}
use mathlib.Core.Option
use basedos.Kernel.{Kernel}
use basedos.Kernel.Status.{get_uptime, get_memory_stats}
use basedos.Sound.{Ports, beep, nosound}
use basedos.Str.Num.Print.{numeral}
use basedos.Shell.{Shell, print, print_all, print_info, print_warning}

-- `on ? "ON" : "OFF"`
abbrev pub on_off : Bool → List ℕ
on_off on = if on then codes "ON" else codes "OFF"

unfoldable pub show_system_info : Kernel → Shell → Shell
show_system_info k s =
    let (total, free) = get_memory_stats k in
    print_all
      (codes "OS Version: BasedOS v0.1\n"
        ∷ codes "Architecture: x86 32-bit\n"
        ∷ codes "Uptime: "
        ∷ numeral 10 (get_uptime k)
        ∷ codes " seconds\n"
        ∷ codes "Memory: "
        ∷ numeral 10 (total / 1024)
        ∷ codes " KB total, "
        ∷ numeral 10 (free / 1024)
        ∷ codes " KB free\n"
        ∷ codes "Current directory: "
        ∷ s.current_directory
        ∷ codes "\n"
        ∷ codes "Debug mode: "
        ∷ on_off s.debug_mode
        ∷ codes "\n"
        ∷ codes "Color mode: "
        ∷ on_off s.color_enabled
        ∷ codes "\n"
        ∷ codes "Last exit code: "
        ∷ numeral 10 s.last_exit_code
        ∷ codes "\n"
        ∷ [])
      (print_info (codes "==========================\n")
        (print_info (codes "BasedOS System Information\n") s))

-- `((total_mem - free_mem) * 100) / total_mem`, on 32 bits; `none` is a division by zero
unfoldable pub usage_percent : ℕ → ℕ → Option ℕ
usage_percent total free =
    if total == 0 then none else some ((total + (2 ^ 32 - free)) % 2 ^ 32 * 100 % 2 ^ 32 / total)

-- what is shown of the memory in use: its size and its share
unfoldable pub show_usage : ℕ → ℕ → Shell → Shell
show_usage used percent s =
    let shown =
      print_all
        (codes "Used memory: "
          ∷ numeral 10 (used / 1024)
          ∷ codes " KB ("
          ∷ numeral 10 used
          ∷ codes " bytes)\n"
          ∷ codes "Memory usage: "
          ∷ numeral 10 percent
          ∷ codes "%\n"
          ∷ [])
        s in
    if ltb 80 percent && ltb percent (2 ^ 31)
    then print_warning (codes "Warning: High memory usage!\n") shown
    else shown

unfoldable pub show_memory_info : Kernel → Shell → Option Shell
unfolding show_usage
show_memory_info k s =
    let (total, free) = get_memory_stats k in
    let used = (total + (2 ^ 32 - free)) % 2 ^ 32 in
    let sizes =
      print_all
        (codes "Total memory: "
          ∷ numeral 10 (total / 1024)
          ∷ codes " KB ("
          ∷ numeral 10 total
          ∷ codes " bytes)\n"
          ∷ codes "Free memory: "
          ∷ numeral 10 (free / 1024)
          ∷ codes " KB ("
          ∷ numeral 10 free
          ∷ codes " bytes)\n"
          ∷ [])
        (print_info (codes "==================\n") (print_info (codes "Memory Information\n") s)) in
    Option.map (λ percent. show_usage used percent sizes) (usage_percent total free)

unfoldable pub display_banner : Shell → Shell
display_banner s = print (codes "\n") (
    print_info (codes " |____/ \\__,_|___/\\___|\\__,_|\\___/|____/\n") (
      print_info (codes " | |_) | (_| \\__ \\  __/ (_| | |_| |___) |\n") (
        print_info (codes " |  _ \\ / _` / __|/ _ \\/ _` | | | \\___ \\\n") (
          print_info (codes " | __ )  __ _ ___  ___  __| |/ _ \\/ ___|\n")
            (print_info (codes "  ____                   _  ___  ____\n") s)))))

-- the loop of play_startup_sound; a delay changes nothing
unfoldable pub play_notes : (Ports → ℕ → ℕ) → List ℕ → Ports → Ports
unfolding beep nosound
play_notes inb [] out = out
play_notes inb (note ∷ notes) out = play_notes inb notes (nosound inb (beep inb note out))

unfoldable pub play_startup_sound : (Ports → ℕ → ℕ) → Ports → Ports
unfolding play_notes
play_startup_sound inb out =
    play_notes inb (523 ∷ 587 ∷ 659 ∷ 698 ∷ 784 ∷ 880 ∷ 988 ∷ 1047 ∷ []) out

-- the loop of echo_test over the words behind the command's name
unfoldable pub echo_words : List (List ℕ) → Shell → Shell
echo_words [] s = s
echo_words (word ∷ []) s = print word s
echo_words (word ∷ next ∷ words) s = echo_words (next ∷ words) (print (codes " ") (print word s))

unfoldable pub echo_test : List (List ℕ) → Shell → Shell
unfolding echo_words
echo_test (name ∷ word ∷ words) s = print (codes "\n") (echo_words (word ∷ words) s)
echo_test _ s = print (codes "Usage: echo <text>\n") s
