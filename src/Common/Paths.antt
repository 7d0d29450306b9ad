-- ===== src/Common/Paths.antt =====
-- What the code uses of Python's `pathlib`, on POSIX paths as texts.
use mathlib.Core.Bool.{Bool, ◌||◌}
use mathlib.Core.List.{[], ◌∷◌, ◌++◌}
use homelink.Common.Tests.{◌==◌, if◌then◌else◌}
use homelink.Common.Text.{Text, codes, is_empty, text_eq, starts_with}

-- `Path(p).name`: the last component that is neither empty nor a dot. `kept` is the last one so
-- far, `part` the one that is read.
abbrev keep_part : Text → Text → Text
keep_part kept part = if is_empty part || text_eq part (codes ".") then kept else part

unfoldable pub last_part : Text → Text → Text → Text
last_part kept part [] = keep_part kept part
last_part kept part (c ∷ s) =
    last_part (if c == b'/' then keep_part kept part else kept)
      (if c == b'/' then [] else part ++ c ∷ []) s

unfoldable pub path_name : Text → Text
unfolding last_part
path_name p = last_part [] [] p

-- `root / name`
abbrev pub join_path : Text → Text → Text
join_path root name = if text_eq root (codes "/") then root ++ name else root ++ b'/' ∷ name

-- Does `p.relative_to(root)` return? Both are resolved paths: `p` is `root`, or lies below it.
unfoldable pub is_relative_to : Text → Text → Bool
is_relative_to p root =
    text_eq root (codes "/") || (text_eq p root || starts_with (root ++ b'/' ∷ []) p)
