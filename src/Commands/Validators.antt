-- ===== src/Commands/Validators.antt =====
-- homelink/commands/permissions.py, the argument validators. The file system behind
-- `Path(p).expanduser().resolve()` and the decimal digits of Unicode behind `\d` are parameters.
use homelink.Common.{
  ℕ, Bool, true, false, not, ◌&&◌, ◌||◌, List, [], ◌∷◌, ltb, leb, ◌==◌, if◌then◌else◌, length,
}
use homelink.Common.Text.{Text, codes, text_eq, starts_with, elem, any, all, between, chop_newline}
use homelink.Common.Exc.{Result, ok, raise}

-- What the validators take from the platform.
pub record Platform : Type 0 where
  -- `str(Path(p).expanduser().resolve())`, which may raise.
  pub resolve : Text → Result Text
  -- `str(Path.home())`
  pub home : Text
  -- Does `\d` match the character?
  pub is_decimal : ℕ → Bool
  -- `s.lower()`
  pub lower : Text → Text

pub data Validator : Type 0 where
  no_args ls systemctl_status echo journalctl : Validator

-- `str(p).startswith(str(root))`; an exception counts as no.
abbrev pub inside : Result Text → Result Text → Bool
inside (ok p) (ok root) = starts_with root p
inside (ok p) (raise e) = false
inside (raise e) root = false

unfoldable pub validate_ls : Platform → List Text → Text → Bool
validate_ls pf [] allowed_root = true
validate_ls pf (arg ∷ []) allowed_root = inside (pf.resolve arg) (pf.resolve allowed_root)
validate_ls pf (arg ∷ _ ∷ _) allowed_root = false

-- `[a-zA-Z0-9._@-]`
abbrev pub unit_char : ℕ → Bool
unit_char c =
    between b'a' b'z' c || (between b'A' b'Z' c || (between b'0' b'9' c || elem c (codes "._@-")))

-- A pattern `^[class]{1,most}$`: its `$` also matches before a last newline.
abbrev pub matches : (ℕ → Bool) → ℕ → Text → Bool
matches class most s =
    let t = chop_newline s in leb 1 (length t) && (leb (length t) most && all class t)

unfoldable pub validate_systemctl_status : List Text → Bool
validate_systemctl_status [] = false
validate_systemctl_status (unit ∷ []) = matches unit_char 64 unit
validate_systemctl_status (unit ∷ _ ∷ _) = false

abbrev pub metacharacters : Text
metacharacters = codes "$`\\;|&><(){}"

unfoldable pub validate_echo : List Text → Bool
validate_echo [] = false
validate_echo (msg ∷ []) =
    if ltb 200 (length msg) then false else not (any (λ c. elem c metacharacters) msg)
validate_echo (msg ∷ _ ∷ _) = false

unfoldable pub validate_journalctl : Platform → List Text → Bool
validate_journalctl pf [] = true
validate_journalctl pf (flag ∷ n ∷ []) = text_eq flag (codes "-n") && matches pf.is_decimal 5 n
validate_journalctl pf (flag ∷ []) = false
validate_journalctl pf (flag ∷ n ∷ _ ∷ _) = false

-- The call `validator(user_args)`.
unfoldable pub validate : Platform → Validator → List Text → Bool
unfolding validate_ls validate_systemctl_status validate_echo validate_journalctl
validate pf no_args args = length args == 0
validate pf ls args = validate_ls pf args pf.home
validate pf systemctl_status args = validate_systemctl_status args
validate pf echo args = validate_echo args
validate pf journalctl args = validate_journalctl pf args
