-- ===== src/Shell/Aliases/Laws.antt =====
-- What add_alias of kernel/shell.c does to resolve_alias.
use basedos.Prelude.{
  ℕ, ◌≤◌, ◌<◌, ◌≡◌, refl, ◌∙◌, ap, arith, leb, if◌then◌else◌, List, [], ◌∷◌, ◌++◌, none, some, true,
  false, length, Bool-cases, Option-cases, inl, inr,
}
use basedos.Prelude.Text.{codes}
use basedos.Str.Text.{text_eq, text_eq_iff}
use basedos.Shell.{
  Shell, Alias, max_input, max_aliases, fits, print_color, print_success, print_error,
}
use basedos.Shell.Aliases.{resolve, resolve_alias, update, add_alias}

resolve-update :
    (aliases : List Alias) (alias_name command key old : List ℕ)
    → resolve aliases alias_name ≡ some old
    → resolve (update aliases alias_name command) key
      ≡ (if text_eq alias_name key then some command else resolve aliases key)
unfolding resolve update
resolve-update [] alias_name command key old h = cc
resolve-update (a ∷ aliases) alias_name command key old h = ground (
  arith,
  text_eq_iff a.alias alias_name,
  text_eq_iff a.alias key,
  text_eq_iff alias_name key,
  resolve-update aliases alias_name command key old,
)

resolve-append :
    (aliases : List Alias) (alias_name command key : List ℕ)
    → resolve aliases alias_name ≡ none
    → resolve (aliases ++ record { alias = alias_name; command = command } ∷ []) key
      ≡ (if text_eq alias_name key then some command else resolve aliases key)
unfolding resolve
resolve-append [] alias_name command key h = refl
resolve-append (a ∷ aliases) alias_name command key h = ground (
  arith,
  text_eq_iff a.alias alias_name,
  text_eq_iff a.alias key,
  text_eq_iff alias_name key,
  resolve-append aliases alias_name command key,
)

pub length-update :
    (aliases : List Alias) (alias_name command : List ℕ)
    → length (update aliases alias_name command) ≡ length aliases
unfolding update
length-update [] alias_name command = refl
length-update (a ∷ aliases) alias_name command =
    ground (arith, length-update aliases alias_name command)

print_color-aliases :
    (color : ℕ) (text : List ℕ) (s : Shell) → (print_color color text s).aliases ≡ s.aliases
unfolding print_color
print_color-aliases color text s = ground arith

-- add_alias, while fewer than twenty aliases are in use and the texts fit their arrays, adds the alias
-- or gives it its new command: afterwards its name stands for the command, and every other name for
-- what it stood for. With twenty aliases in use it changes none, not even one of that name.
pub add_alias-resolve_alias :
    (s : Shell) (alias_name command : List ℕ)
    → length alias_name < 32
    → length command < max_input
    → (s' : Shell) × (add_alias s alias_name command ≡ some s')
      × ((key : List ℕ)
          → resolve_alias s' key ≡ (
              if leb max_aliases (length s.aliases)
              then resolve_alias s key
              else if text_eq alias_name key
              then some command
              else resolve_alias s key))
unfolding add_alias resolve_alias print_success print_error
add_alias-resolve_alias s alias_name command n c =
    let inside : fits max_input command ≡ true = ground arith in
    let named : fits 32 alias_name ≡ true = ground arith in
    elim (Bool-cases (leb max_aliases (length s.aliases))) [
      | inl full ↦ rw full (
        print_error (codes "Maximum aliases reached\n") s,
        refl,
        λ key.
            ap (λ l. resolve l key) (print_color-aliases 12 (codes "Maximum aliases reached\n") s),
      )
      | inr room ↦ elim (Option-cases (resolve s.aliases alias_name)) [
        | inl new ↦
            rw (room, new, named, inside)
              (
                print_success (codes "Alias added\n") (record s {
                  aliases = s.aliases ++ record { alias = alias_name; command = command } ∷ [];
                }),
                refl,
                λ key.
                    ap (λ l. resolve l key)
                      (print_color-aliases 10 (codes "Alias added\n") (record s {
                        aliases =
                            s.aliases ++ record { alias = alias_name; command = command } ∷ [];
                      }))
                    ∙ resolve-append s.aliases alias_name command key new,
              )
        | inr (old, there) ↦
            rw (room, there, inside)
              (
                print_success (codes "Alias updated\n")
                    (record s { aliases = update s.aliases alias_name command }),
                refl,
                λ key.
                    ap (λ l. resolve l key)
                      (print_color-aliases 10 (codes "Alias updated\n")
                        (record s { aliases = update s.aliases alias_name command }))
                    ∙ resolve-update s.aliases alias_name command key old there,
              )
      ]
    ]

-- An alias that is new, with a name of 32 bytes or more, is copied past the end of its array.
pub add_alias-overflow :
    (s : Shell) (alias_name command : List ℕ)
    → length s.aliases < max_aliases
    → resolve_alias s alias_name ≡ none
    → 32 ≤ length alias_name
    → add_alias s alias_name command ≡ none
unfolding add_alias resolve_alias
add_alias-overflow s alias_name command room other long =
    let below : leb max_aliases (length s.aliases) ≡ false = ground arith in
    let outside : fits 32 alias_name ≡ false = ground arith in rw (below, other, outside) refl
