-- ===== src/Files/SafeDest.antt =====
-- `FileTransfer._safe_dest` of homelink/files/transfer.py.
pub mod Laws
use homelink.Common.{◌||◌, Option, none, some, ◌∷◌, ltb, if◌then◌else◌, length}
use homelink.Common.Text.{Text, codes, is_empty, text_eq, starts_with, elem, any}
use homelink.Common.Paths.{path_name, join_path, is_relative_to}

-- Why a name is refused.
pub data PathError : Type 0 where
  empty_name absolute illegal hidden forbidden too_long escape : PathError

pub data Dest : Type 0 where
  dest : Text → Dest
  refused : PathError → Dest

-- `_FORBIDDEN_CHARS`: NUL, CR, LF, TAB and the rest.
abbrev pub forbidden_chars : Text
forbidden_chars = 0 ∷ 13 ∷ 10 ∷ 9 ∷ codes "\\/:\"*?<>|"

-- The tests of the last component.
unfoldable pub check_name : Text → Option PathError
check_name safe =
    if is_empty safe || (text_eq safe (codes ".") || text_eq safe (codes ".."))
    then some illegal
    else if starts_with (codes ".") safe
    then some hidden
    else if any (λ c. elem c forbidden_chars) safe
    then some forbidden
    else if ltb 255 (length safe)
    then some too_long
    else none

-- `resolve` is `Path.resolve`, which follows symbolic links.
unfoldable pub safe_dest : (Text → Text) → Text → Text → Dest
unfolding check_name is_relative_to
safe_dest resolve downloads name =
    if is_empty name
    then refused empty_name
    else if starts_with (codes "/") name
    then refused absolute
    else elim (check_name (path_name name)) [
      | some e ↦ refused e
      | none ↦
          let target = resolve (join_path downloads (path_name name)) in
          if is_relative_to target (resolve downloads) then dest target else refused escape
    ]
