-- ===== src/Listing.antt =====
-- homelink/service/daemon.py: `_list_path` and `_build_tree`. What pathlib says of a path is an
-- argument; links to directories are followed, so the directories may go round in a loop.
pub mod Depth
use homelink.Common.{ℕ, zero, suc, String, Bool, true, false, List, [], ◌∷◌, map, if◌then◌else◌}
use homelink.Common.Exc.{
  Exc, Result, ok, raise, permission_denied, os_error, file_not_found, connection_error, ◌>>=◌,
}
use homelink.Common.Int.{ℤ, pos}
use homelink.Common.Json.{Value, num, str, arr, obj, entry, done, to_items}
use homelink.Common.Text.{Text}

-- `p.stat()`, with `oct(st.st_mode)[-3:]`
pub record Stat : Type 0 where
  pub size : ℕ
  pub mtime : ℤ
  pub mode : String

-- What is asked about a path: `p.name`, `p.is_dir()`, `p.is_file()`, `sorted(p.iterdir())`.
pub record Walk : Type 0 where
  pub name : Text → String
  pub is_dir : Text → Result Bool
  pub is_file : Text → Result Bool
  pub iterdir : Text → Result (List Text)
  pub stat : Text → Result Stat

-- `except (PermissionError, OSError)`
abbrev pub is_os_error : Exc → Bool
is_os_error permission_denied = true
is_os_error os_error = true
is_os_error file_not_found = true
is_os_error connection_error = true
is_os_error e = false

-- The loop over the entries of a directory: one that the system refuses is left out.
unfoldable pub collect : List (Result Value) → Result (List Value)
collect [] = ok []
collect (ok v ∷ results) = do rest ← collect results; ok (v ∷ rest)
collect (raise e ∷ results) = let rest = collect results in if is_os_error e then rest else raise e

-- The entries of a directory, none where it may not be read.
unfoldable pub each_of : (Text → Result Value) → Result (List Text) → Result (List Value)
unfolding collect
each_of f (ok paths) = collect (map f paths)
each_of f (raise permission_denied) = ok []
each_of f (raise e) = raise e

abbrev pub kind_of : Bool → Value
kind_of true = str "dir"
kind_of false = str "file"

abbrev pub size_of : Bool → ℕ → Value
size_of true size = num (pos size)
size_of false size = num (pos 0)

module _ (w : Walk) where
  unfoldable pub list_entry : Text → Result Value
  list_entry p = do
    st ← w.stat p
    is_dir ← w.is_dir p
    is_file ← w.is_file p
    ok (
        obj (
          entry "name" (str (w.name p)) (
            entry "type" (kind_of is_dir) (
              entry "size" (size_of is_file st.size)
                (entry "mtime" (num st.mtime) (entry "mode" (str st.mode) done))))))

  -- `_list_path`
  unfoldable pub list_path : Text → Result Value
  unfolding each_of list_entry
  list_path p = do entries ← each_of list_entry (w.iterdir p); ok (arr (to_items entries))

  -- A node without children.
  abbrev pub bare : Text → Bool → Value
  bare p is_dir = obj (entry "name" (str (w.name p)) (entry "type" (kind_of is_dir) done))

  abbrev pub with_children : Text → List Value → Value
  with_children p children = obj (
      entry "name" (str (w.name p))
        (entry "type" (kind_of true) (entry "children" (arr (to_items children)) done)))

  -- A directory gets its children, anything else has none.
  unfoldable pub grow : Text → Result (List Value) → Bool → Result Value
  grow p below true = do children ← below; ok (with_children p children)
  grow p below false = ok (bare p false)

  -- `_build_tree`, on the number of levels that `max_depth` leaves.
  unfoldable pub build_tree : ℕ → Text → Result Value
  unfolding each_of grow
  build_tree zero p = do is_dir ← w.is_dir p; ok (bare p is_dir)
  build_tree (suc n) p =
      let below = each_of (build_tree n) (w.iterdir p) in
      do is_dir ← w.is_dir p; grow p below is_dir
