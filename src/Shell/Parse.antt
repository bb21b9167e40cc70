-- ===== src/Shell/Parse.antt =====
-- parse_command of kernel/shell.c, in memory: strcpy into the buffer, and strtok until it returns NULL.
pub mod Plain
pub mod Words
pub mod Length
use basedos.Prelude.{ℕ, zero, suc, ◌==◌, if◌then◌else◌, List, [], ◌∷◌, Option, none, some}
use mathlib.Core.Option
use basedos.Memory.{Memory, null}
use basedos.Str.Build.{strcpy}
use basedos.Str.Token.{strtok}

-- the loop: the addresses stored in `args`, while there is room for `k` more, with the memory and the
-- static variable of strtok at the end
unfoldable pub parse_loop : ℕ → ℕ → Memory → ℕ → ℕ → ℕ → Option (List ℕ × Memory × ℕ)
unfolding Option.bind
parse_loop zero fuel m last token delim = some ([], m, last)
parse_loop (suc k) fuel m last token delim =
    let rest =
      Option.bind (strtok fuel m last null delim) (λ r. parse_loop k fuel r.1 r.2 r.0 delim) in
    if token == null then some ([], m, last) else Option.map (λ r. (token ∷ r.0, r.1, r.2)) rest

-- MAX_ARGS
abbrev pub max_args : ℕ
max_args = 16

-- from the first strtok on
unfoldable pub parse_from : ℕ → ℕ → Memory → ℕ → ℕ → ℕ → Option (List ℕ × Memory × ℕ)
unfolding Option.bind
parse_from k fuel m last str delim =
    Option.bind (strtok fuel m last str delim) (λ r. parse_loop k fuel r.1 r.2 r.0 delim)

-- parse_command: the arguments' addresses, whose number is argc. `buffer` and `delim` are the
-- addresses of its buffer and of " \t".
unfoldable pub parse_command : ℕ → Memory → ℕ → ℕ → ℕ → ℕ → Option (List ℕ × Memory × ℕ)
unfolding Option.bind
parse_command fuel m last buffer input delim =
    Option.bind (strcpy fuel m buffer input) (λ m'. parse_from 15 fuel m' last buffer delim)
