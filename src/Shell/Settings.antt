-- ===== src/Shell/Settings.antt =====
-- The command `set` of kernel/shell.c.
use basedos.Prelude.{ℕ, if◌then◌else◌, Bool, List, [], ◌∷◌}
use basedos.Prelude.Text.{codes}
use basedos.Str.Text.{text_eq}
use basedos.Shell.{Shell, print, print_all, print_error, print_success}

-- `on ? "on" : "off"`
abbrev pub on_off : Bool → List ℕ
on_off on = if on then codes "on" else codes "off"

unfoldable pub show_settings : Shell → Shell
show_settings s =
    print_all
      (codes "Shell settings:\n"
        ∷ codes "  debug: "
        ∷ on_off s.debug_mode
        ∷ codes "\n"
        ∷ codes "  color: "
        ∷ on_off s.color_enabled
        ∷ codes "\n"
        ∷ codes "  echo: "
        ∷ on_off s.echo_enabled
        ∷ codes "\n"
        ∷ [])
      s

unfoldable pub change_setting : List ℕ → List ℕ → Shell → Shell
change_setting name state s =
    let on = text_eq state (codes "on") in
    if text_eq name (codes "debug")
    then print_success (codes "Debug mode updated\n") (record s { debug_mode = on })
    else if text_eq name (codes "color")
    then print_success (codes "Color mode updated\n") (record s { color_enabled = on })
    else if text_eq name (codes "echo")
    then print_success (codes "Echo mode updated\n") (record s { echo_enabled = on })
    else print_error (codes "Unknown setting\n") s

-- the branch of `set`, on the words of the command
unfoldable pub set : List (List ℕ) → Shell → Shell
unfolding show_settings change_setting
set (cmd ∷ []) s = show_settings s
set (cmd ∷ name ∷ state ∷ []) s = change_setting name state s
set args s = print (codes "Usage: set [setting] [on|off]\n") s
