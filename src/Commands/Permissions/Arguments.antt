-- ===== src/Commands/Permissions/Arguments.antt =====
-- What reaches a process as its arguments, of homelink/commands/permissions.py.
use homelink.Common.{
  ℕ, ◌≡◌, refl, sym, ◌∙◌, ◌≢◌, inl, inr, Bool, true, false, not, ◌&&◌, Option, none, some, List, [],
  ◌∷◌, ◌++◌, append-nil, arith, leb, if◌then◌else◌, Bool-cases, Option-cases, &&-parts, length,
}
use homelink.Common.Text.{Text, codes, text_eq, elem, any, all, chop_newline, text_eq_iff}
use homelink.Commands.Validators.{
  Platform, Validator, no_args, ls, systemctl_status, echo, journalctl, validate, matches,
  unit_char, metacharacters,
}
use homelink.Commands.Permissions.{Entry, registry, resolved, check_arguments, resolve_command}
use homelink.Commands.Permissions.Roles.{resolve_command-Resolution, all_entries, find_entry-all}

-- No shell metacharacter stands in the text.
abbrev pub clean : Text → Bool
clean t = not (any (λ c. elem c metacharacters) t)

abbrev pub all_clean : List Text → Bool
all_clean [] = true
all_clean (t ∷ ts) = clean t && all_clean ts

all_clean-append :
    (ss ts : List Text) → all_clean ss ≡ true → all_clean ts ≡ true → all_clean (ss ++ ts) ≡ true
all_clean-append [] ts h k = k
all_clean-append (s ∷ ss) ts h k =
    let (first, others) = &&-parts (clean s) (all_clean ss) h in
    rw (first, all_clean-append ss ts others k)

unit_char-clean : (c : ℕ) → unit_char c ≡ true → elem c metacharacters ≡ false
unit_char-clean c h = ground arith

chop_newline-clean :
    (class : ℕ → Bool) (s : Text)
    → ((c : ℕ) → class c ≡ true → elem c metacharacters ≡ false)
    → all class (chop_newline s) ≡ true
    → clean s ≡ true
chop_newline-clean class [] ok h = refl
chop_newline-clean class (c ∷ []) known h = ground (arith, known c)
chop_newline-clean class (c ∷ d ∷ s) known h =
    let (first, others) = &&-parts (class c) (all class (chop_newline (d ∷ s))) h in
    let rest = chop_newline-clean class (d ∷ s) known others in rw (known c first) rest

matches-clean :
    (class : ℕ → Bool) (most : ℕ) (s : Text)
    → ((c : ℕ) → class c ≡ true → elem c metacharacters ≡ false)
    → matches class most s ≡ true
    → clean s ≡ true
matches-clean class most s known h =
    let t = chop_newline s in
    let (_, bounded) = &&-parts (leb 1 (length t)) (leb (length t) most && all class t) h in
    let (_, classed) = &&-parts (leb (length t) most) (all class t) bounded in
    chop_newline-clean class s known classed

module _ (pf : Platform)
    (decimals : (c : ℕ) → pf.is_decimal c ≡ true → elem c metacharacters ≡ false) where
  validate-clean :
      (v : Validator) (args : List Text)
      → v ≢ ls
      → validate pf v args ≡ true
      → all_clean args ≡ true
  unfolding validate
  validate-clean no_args [] other h = refl
  validate-clean no_args (_ ∷ _) other h = ground arith
  validate-clean ls args other h = absurd (other refl)
  validate-clean systemctl_status [] other h = cc
  validate-clean systemctl_status (unit ∷ []) other h =
      rw (matches-clean unit_char 64 unit unit_char-clean h)
  validate-clean systemctl_status (unit ∷ _ ∷ _) other h = cc
  validate-clean echo [] other h = cc
  validate-clean echo (msg ∷ []) other h = ground arith
  validate-clean echo (msg ∷ _ ∷ _) other h = cc
  validate-clean journalctl [] other h = refl
  validate-clean journalctl (flag ∷ []) other h = cc
  validate-clean journalctl (flag ∷ n ∷ []) other h =
      let (is_n, number) = &&-parts (text_eq flag (codes "-n")) (matches pf.is_decimal 5 n) h in
      rw ((text_eq_iff flag (codes "-n")).0 is_n, matches-clean pf.is_decimal 5 n decimals number)
  validate-clean journalctl (flag ∷ n ∷ _ ∷ _) other h = cc

abbrev ls_exe : Text
ls_exe = codes "/usr/bin/ls"

abbrev runs_ls : Option Validator → Bool
runs_ls (some ls) = true
runs_ls _ = false

abbrev clean_entry : Entry → Bool
clean_entry e =
    all_clean e.fixed_args && (if runs_ls e.validator then text_eq e.exe ls_exe else true)

clean_entries : all_entries clean_entry registry ≡ true
unfolding registry
clean_entries = refl

runs_ls-eq : (v : Validator) → runs_ls (some v) ≡ false → v ≢ ls
runs_ls-eq v h e = cc (rw e at h)

module _ (pf : Platform)
    (decimals : (c : ℕ) → pf.is_decimal c ≡ true → elem c metacharacters ≡ false) (e : Entry)
    (known : clean_entry e ≡ true) where
  fixed_clean : all_clean e.fixed_args ≡ true
  fixed_clean = (&&-parts (all_clean e.fixed_args) _ known).0

  validated-clean :
      (v : Validator) (user_args : List Text)
      → e.validator ≡ some v
      → e.exe ≢ ls_exe
      → validate pf v user_args ≡ true
      → all_clean (e.fixed_args ++ user_args) ≡ true
  validated-clean v user_args ev other h =
      let (_, marked) = &&-parts (all_clean e.fixed_args) _ known in
      let unmarked : text_eq e.exe ls_exe ≡ false = ground (arith, text_eq_iff e.exe ls_exe) in
      let quiet : runs_ls (some v) ≡ false = marks v (rw ev at marked) unmarked in
      all_clean-append e.fixed_args user_args fixed_clean
        (validate-clean pf decimals v user_args (runs_ls-eq v quiet) h)
    where
      marks :
          (w : Validator)
          → (if runs_ls (some w) then text_eq e.exe ls_exe else true) ≡ true
          → text_eq e.exe ls_exe ≡ false
          → runs_ls (some w) ≡ false
      marks ls m n = cc
      marks _ m n = refl

  no_validator-clean :
      (user_args argv : List Text) (exe : Text)
      → e.validator ≡ none
      → check_arguments pf e user_args ≡ resolved exe argv
      → all_clean argv ≡ true
  unfolding check_arguments
  no_validator-clean [] argv exe without h =
      let same : resolved e.exe (e.fixed_args ++ []) ≡ resolved exe argv = rw without at h in
      let argv_same : e.fixed_args ++ [] ≡ argv = cc in rw (← argv_same, append-nil) fixed_clean
  no_validator-clean (_ ∷ _) argv exe without h = cc (rw without at h)

  check_arguments-clean :
      (user_args argv : List Text) (exe : Text)
      → check_arguments pf e user_args ≡ resolved exe argv
      → exe ≢ ls_exe
      → all_clean argv ≡ true
  unfolding check_arguments
  check_arguments-clean user_args argv exe h other = elim (Option-cases e.validator) [
    | inl without ↦ no_validator-clean user_args argv exe without h
    | inr (v, ev) ↦ elim (Bool-cases (validate pf v user_args)) [
      | inl valid ↦
          let same : resolved e.exe (e.fixed_args ++ user_args) ≡ resolved exe argv =
            rw (ev, valid) at h in
          let exe_same : e.exe ≡ exe = cc in
          let argv_same : e.fixed_args ++ user_args ≡ argv = cc in
          rw (← argv_same) (validated-clean v user_args ev (λ x. other (sym exe_same ∙ x)) valid)
      | inr invalid ↦ cc (rw (ev, invalid) at h)
    ]
  ]

-- If no decimal digit is one of the metacharacters, no argument of a command that is resolved
-- holds a shell metacharacter, unless the command is `ls`.
pub resolve_command-clean :
    (pf : Platform) (role command exe : Text) (argv : List Text)
    → ((c : ℕ) → pf.is_decimal c ≡ true → elem c metacharacters ≡ false)
    → resolve_command pf role command ≡ resolved exe argv
    → exe ≢ codes "/usr/bin/ls"
    → all_clean argv ≡ true
resolve_command-clean pf role command exe argv decimals h other =
    let r = resolve_command-Resolution pf role command exe argv h in
    let known = find_entry-all clean_entry _ r.found_entry registry clean_entries r.found in
    check_arguments-clean pf decimals r.found_entry known r.user_args argv exe r.runs other
