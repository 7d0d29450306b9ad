-- ===== src/Commands/Permissions/Roles.antt =====
-- What a role can run, of homelink/commands/permissions.py.
use homelink.Commands.Permissions.{
  validate, Validator, codes, Entry, registry, role_level, find_entry, resolved, check_arguments,
  resolve_parts, resolve_command, permanent_block,
}
use homelink.Common.{
  ℕ, ◌≤◌, ◌≡◌, refl, inl, inr, Bool, true, false, ◌&&◌, ◌||◌, Option, some, List, [], ◌∷◌,
  append-nil, arith, ltb, ◌==◌, if◌then◌else◌, ltb-false, le→ltb-false, Bool-cases, Option-cases,
  &&-parts,
}
use homelink.Common.Text.{Text, text_eq, text_elem}
use native.Mathlib.Nat.{le_trans}
use homelink.Common.Paths.{path_name}
use homelink.Common.Exc.{ok, Result-cases}
use homelink.Commands.Shlex.{split}
use homelink.Commands.Validators.{Platform, Validator, no_args, validate}

abbrev pub all_entries : (Entry → Bool) → List (Text × Entry) → Bool
all_entries p [] = true
all_entries p ((n, e) ∷ entries) = p e && all_entries p entries

-- What holds of every entry holds of the one that is found.
pub find_entry-all :
    (p : Entry → Bool) (name : Text) (e : Entry) (entries : List (Text × Entry))
    → all_entries p entries ≡ true
    → find_entry name entries ≡ some e
    → p e ≡ true
unfolding find_entry
find_entry-all p name e [] h found = cc
find_entry-all p name e ((n, x) ∷ entries) h found = elim (Bool-cases (text_eq n name)) [
  | inl here ↦
      let same : x ≡ e = cc in
      let (holds, _) : (p x ≡ true) × (all_entries p entries ≡ true) = ground arith in
      rw (← same) holds
  | inr further ↦ find_entry-all p name e entries (ground arith) (rw further at found)
]

-- How a command was resolved.
pub record Resolution (pf : Platform) (level : ℕ) (command : Text) (exe : Text) (argv : List Text)
    : Type 0 where
  pub name : Text
  pub user_args : List Text
  pub parts : split command ≡ ok (name ∷ user_args)
  pub allowed : text_elem (pf.lower (path_name name)) permanent_block ≡ false
  pub found_entry : Entry
  pub found : find_entry (pf.lower (path_name name)) registry ≡ some found_entry
  pub suffices : role_level 999 found_entry.min_role ≤ level
  pub runs : check_arguments pf found_entry user_args ≡ resolved exe argv

resolve_parts-Resolution :
    (pf : Platform) (level : ℕ) (command exe : Text) (argv parts : List Text)
    → split command ≡ ok parts
    → resolve_parts pf level parts ≡ resolved exe argv
    → Resolution pf level command exe argv
unfolding resolve_parts
resolve_parts-Resolution pf level command exe argv [] e h = cc
resolve_parts-Resolution pf level command exe argv (name ∷ args) e h =
    elim (Bool-cases (text_elem (pf.lower (path_name name)) permanent_block)) [
      | inl blocked ↦ cc (rw blocked at h)
      | inr free ↦ elim (Option-cases (find_entry (pf.lower (path_name name)) registry)) [
        | inl missing ↦ cc (rw (free, missing) at h)
        | inr (x, found) ↦ elim (Bool-cases (ltb level (role_level 999 x.min_role))) [
          | inl low ↦ cc (rw (free, found, low) at h)
          | inr enough ↦ record {
            name = name;
            user_args = args;
            parts = e;
            allowed = free;
            found_entry = x;
            found = found;
            suffices = ltb-false _ _ enough;
            runs = rw (free, found, enough) at h;
          }
        ]
      ]
    ]

pub resolve_command-Resolution :
    (pf : Platform) (role command exe : Text) (argv : List Text)
    → resolve_command pf role command ≡ resolved exe argv
    → Resolution pf (role_level 0 role) command exe argv
unfolding resolve_command
resolve_command-Resolution pf role command exe argv h = elim (Result-cases (split command)) [
  | inl (parts, e) ↦
      resolve_parts-Resolution pf (role_level 0 role) command exe argv parts e
        (rw (e, resolve_command) at h)
  | inr (x, e) ↦ cc (rw (e, resolve_command) at h)
]

-- Whatever a role may run, a role that stands no lower runs in the same way, with the same
-- executable and arguments.
pub resolve_command-monotone :
    (pf : Platform) (role role' command exe : Text) (argv : List Text)
    → role_level 0 role ≤ role_level 0 role'
    → resolve_command pf role command ≡ resolved exe argv
    → resolve_command pf role' command ≡ resolved exe argv
unfolding resolve_command resolve_parts
resolve_command-monotone pf role role' command exe argv le h =
    let r = resolve_command-Resolution pf role command exe argv h in
    let enough =
      le→ltb-false (role_level 0 role') (role_level 999 r.found_entry.min_role)
        (le_trans r.suffices le) in
    rw (r.parts, r.allowed, r.found, enough, resolve_command, resolve_parts) r.runs

-- The commands that a viewer may run: the whole command line.
abbrev pub viewer_commands : List (Text × List Text)
viewer_commands =
    (codes "/usr/bin/uptime", [])
    ∷ (codes "/usr/bin/df", codes "-h" ∷ [])
    ∷ (codes "/usr/bin/free", codes "-h" ∷ [])
    ∷ (codes "/usr/bin/hostname", [])
    ∷ (codes "/usr/bin/date", [])
    ∷ (codes "/usr/bin/uname", codes "-a" ∷ [])
    ∷ (codes "/usr/bin/id", [])
    ∷ (codes "/usr/bin/whoami", [])
    ∷ []

abbrev pub texts_eq : List Text → List Text → Bool
texts_eq [] [] = true
texts_eq [] (t ∷ ts) = false
texts_eq (s ∷ ss) [] = false
texts_eq (s ∷ ss) (t ∷ ts) = text_eq s t && texts_eq ss ts

abbrev pub listed : Text → List Text → List (Text × List Text) → Bool
listed exe argv [] = false
listed exe argv ((x, a) ∷ rest) = text_eq exe x && texts_eq argv a || listed exe argv rest

abbrev takes_nothing : Option Validator → Bool
takes_nothing (some no_args) = true
takes_nothing _ = false

abbrev viewer_entry : Entry → Bool
viewer_entry e =
    if role_level 999 e.min_role == 0
    then takes_nothing e.validator && listed e.exe e.fixed_args viewer_commands
    else true

viewer_entries : all_entries viewer_entry registry ≡ true
unfolding registry role_level
viewer_entries = refl

viewer_entry-parts :
    (e : Entry)
    → role_level 999 e.min_role ≡ 0
    → viewer_entry e ≡ true
    → (takes_nothing e.validator ≡ true) × (listed e.exe e.fixed_args viewer_commands ≡ true)
viewer_entry-parts e level h = &&-parts _ _ (rw level at h)

check_arguments-no_args :
    (pf : Platform) (e : Entry) (user_args argv : List Text) (exe : Text)
    → takes_nothing e.validator ≡ true
    → check_arguments pf e user_args ≡ resolved exe argv
    → (exe ≡ e.exe) × (argv ≡ e.fixed_args)
unfolding check_arguments validate
check_arguments-no_args pf e [] argv exe nothing h = ground (arith, append-nil e.fixed_args)
check_arguments-no_args pf e (_ ∷ _) argv exe nothing h = ground arith

listed_same :
    (exe x : Text) (argv a : List Text)
    → exe ≡ x
    → argv ≡ a
    → listed x a viewer_commands ≡ true
    → listed exe argv viewer_commands ≡ true
listed_same exe x argv a p q h = rw (p, q) h

-- A device whose role is viewer, or no role of the hierarchy, runs one of eight fixed command
-- lines: no text that it sent reaches the process.
pub resolve_command-viewer :
    (pf : Platform) (role command exe : Text) (argv : List Text)
    → role_level 0 role ≡ 0
    → resolve_command pf role command ≡ resolved exe argv
    → listed exe argv viewer_commands ≡ true
resolve_command-viewer pf role command exe argv zero_level h =
    let r = resolve_command-Resolution pf role command exe argv h in
    let e = r.found_entry in
    let known = find_entry-all viewer_entry _ e registry viewer_entries r.found in
    let level : role_level 999 e.min_role ≡ 0 = omega (arith, r.suffices) in
    let (nothing, here) = viewer_entry-parts e level known in
    let (exe_same, argv_same) = check_arguments-no_args pf e r.user_args argv exe nothing r.runs in
    listed_same exe e.exe argv e.fixed_args exe_same argv_same here
