-- ===== src/Files/Disk.antt =====
-- The file system under homelink/files/transfer.py, seen by path.
use homelink.Common.{
  ℕ, ◌+◌, ◌-◌, Bool, true, false, Option, none, some, List, [], ◌∷◌, ◌++◌, if◌then◌else◌, length,
  take, drop, replicate,
}
use homelink.Common.Text.{Text, text_eq}

-- What a path names. A link says whether its target exists; a directory has a size of its own.
pub data Node : Type 0 where
  absent : Node
  regular : List ℕ → Node
  link : Bool → Node
  directory : ℕ → Node

abbrev pub Disk : Type 0
Disk = Text → Node

abbrev pub write : Disk → Text → Node → Disk
write disk path node p = if text_eq path p then node else disk p

-- `path.exists()` follows links.
abbrev pub exists : Node → Bool
exists absent = false
exists (regular content) = true
exists (link target) = target
exists (directory size) = true

abbrev pub is_symlink : Node → Bool
is_symlink (link target) = true
is_symlink _ = false

-- `path.stat().st_size` of what is no link.
abbrev pub stat_size : Node → ℕ
stat_size (regular content) = length content
stat_size (directory size) = size
stat_size _ = 0

-- `path.write_bytes(b"")` where nothing exists. Through a dangling link it creates the target, of
-- which the node of the link tells only that it is there now.
abbrev pub create_empty : Node → Node
create_empty (link target) = link true
create_empty _ = regular []

-- `os.lseek(fd, offset, SEEK_SET); os.write(fd, bytes)`, which fills a gap with zeros. Writing
-- nothing changes nothing.
unfoldable pub write_at : ℕ → List ℕ → List ℕ → List ℕ
write_at offset [] content = content
write_at offset (b ∷ bs) content =
    take offset (content ++ replicate (offset - length content) 0)
    ++ ((b ∷ bs) ++ drop (offset + length (b ∷ bs)) content)

-- `os.open(path, O_WRONLY | O_CREAT | O_NOFOLLOW)` and the write: `none` is an `OSError`.
unfoldable pub write_node : Node → ℕ → List ℕ → Option Node
unfolding write_at
write_node absent offset bytes = some (regular (write_at offset bytes []))
write_node (regular content) offset bytes = some (regular (write_at offset bytes content))
write_node (link target) offset bytes = none
write_node (directory size) offset bytes = none
