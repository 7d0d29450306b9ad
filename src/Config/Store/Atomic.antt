-- ===== src/Config/Store/Atomic.antt =====
-- The atomic writes of homelink/config/manager.py, when they are interrupted.
use homelink.Common.{
  ℕ, zero, suc, String, ◌≡◌, refl, ◌∙◌, ◌⊎◌, inl, inr, Bool, true, false, not, ◌&&◌, Option, none,
  some, List, [], ◌∷◌, arith, str_eq, eq_refl, Option-cases, &&-parts,
}
use homelink.Common.Dict
use homelink.Config.Store.{
  File, Files, FileOp, write_text, chmod, replace, written, owner_only, run_op, run_ops, save_ops,
}

-- The files where a run of operations broke off: after some whole operations, and, if the next is a
-- write, after a part of its content.
unfoldable pub interrupted : ℕ → List ℕ → List FileOp → Files → Files
unfolding run_op
interrupted n cut_off [] files = files
interrupted zero cut_off (write_text path content ∷ ops) files =
    run_op (write_text path cut_off) files
interrupted zero cut_off (chmod path mode ∷ ops) files = files
interrupted zero cut_off (replace from to ∷ ops) files = files
interrupted (suc n) cut_off (op ∷ ops) files = interrupted n cut_off ops (run_op op files)

abbrev pub saved : List ℕ → File
saved content = record { content = content; mode = owner_only }

pub chmod-same :
    (path : String) (mode : ℕ) (files : Files) (file : File)
    → Dict.lookup path files ≡ some file
    → Dict.lookup path (run_op (chmod path mode) files) ≡ some (record file { mode = mode })
unfolding run_op
chmod-same path mode files file there = rw (there, run_op, Dict.lookup-insert, eq_refl path) refl

chmod-other :
    (path other : String) (mode : ℕ) (files : Files)
    → str_eq other path ≡ false
    → Dict.lookup path (run_op (chmod other mode) files) ≡ Dict.lookup path files
unfolding run_op
chmod-other path other mode files apart = elim (Option-cases (Dict.lookup other files)) [
  | inl missing ↦ rw (missing, run_op) refl
  | inr (file, there) ↦ rw (there, run_op, Dict.lookup-insert, apart) refl
]

replace-target :
    (from to : String) (files : Files) (file : File)
    → Dict.lookup from files ≡ some file
    → Dict.lookup to (run_op (replace from to) files) ≡ some file
unfolding run_op
replace-target from to files file there = rw (there, run_op, Dict.lookup-insert, eq_refl to) refl

replace-other :
    (path from to : String) (files : Files)
    → str_eq from path ≡ false
    → str_eq to path ≡ false
    → Dict.lookup path (run_op (replace from to) files) ≡ Dict.lookup path files
unfolding run_op
replace-other path from to files apart apart' = elim (Option-cases (Dict.lookup from files)) [
  | inl missing ↦ rw (missing, run_op) refl
  | inr (file, there) ↦
      rw (there, run_op, Dict.lookup-insert, apart', Dict.lookup-erase, apart) refl
]

write-other :
    (path other : String) (content : List ℕ) (files : Files)
    → str_eq other path ≡ false
    → Dict.lookup path (run_op (write_text other content) files) ≡ Dict.lookup path files
unfolding run_op
write-other path other content files apart = rw (Dict.lookup-insert, apart) refl

write-same :
    (path : String) (content : List ℕ) (files : Files) (old : Option File)
    → Dict.lookup path files ≡ old
    → Dict.lookup path (run_op (write_text path content) files) ≡ some (written content old)
unfolding run_op
write-same path content files old e = rw (Dict.lookup-insert, eq_refl path, e) refl

-- What is written, then closed to others.
pub write-chmod :
    (path : String) (content : List ℕ) (mode : ℕ) (files : Files)
    → Dict.lookup path (run_op (chmod path mode) (run_op (write_text path content) files))
      ≡ some (record { content = content; mode = mode })
write-chmod path content mode files = elim (Option-cases (Dict.lookup path files)) [
  | inl missing ↦
      chmod-same path mode _ (written content none) (write-same path content files none missing)
  | inr (file, there) ↦
      chmod-same path mode _ (written content (some file))
        (write-same path content files (some file) there)
]

-- Does an operation leave a path alone?
abbrev pub spares : String → FileOp → Bool
spares path (write_text other content) = not (str_eq other path)
spares path (chmod other mode) = not (str_eq other path)
spares path (replace from to) = not (str_eq from path) && not (str_eq to path)

abbrev pub spares_all : String → List FileOp → Bool
spares_all path [] = true
spares_all path (op ∷ ops) = spares path op && spares_all path ops

run_op-other :
    (path : String) (op : FileOp) (files : Files)
    → spares path op ≡ true
    → Dict.lookup path (run_op op files) ≡ Dict.lookup path files
run_op-other path (write_text other content) files h =
    write-other path other content files (ground arith)
run_op-other path (chmod other mode) files h = chmod-other path other mode files (ground arith)
run_op-other path (replace from to) files h =
    let (a, b) = &&-parts (not (str_eq from path)) (not (str_eq to path)) h in
    replace-other path from to files (ground arith) (ground arith)

pub run_ops-other :
    (path : String) (ops : List FileOp) (files : Files)
    → spares_all path ops ≡ true
    → Dict.lookup path (run_ops ops files) ≡ Dict.lookup path files
unfolding run_ops
run_ops-other path [] files h = refl
run_ops-other path (op ∷ ops) files h =
    let (here, later) = &&-parts (spares path op) (spares_all path ops) h in
    run_ops-other path ops (run_op op files) later ∙ run_op-other path op files here

module _ (target tmp : String) (content : List ℕ) (files : Files) where
  after_two : Files
  after_two = run_op (chmod tmp owner_only) (run_op (write_text tmp content) files)

  after_three-target :
      Dict.lookup target (run_op (replace tmp target) after_two) ≡ some (saved content)
  unfolding after_two
  after_three-target =
      replace-target tmp target after_two (saved content) (write-chmod tmp content owner_only files)

  pub run_ops-saved :
      Dict.lookup target (run_ops (save_ops target tmp content) files) ≡ some (saved content)
  unfolding run_ops after_two
  run_ops-saved =
      chmod-same target owner_only (run_op (replace tmp target) after_two) (saved content)
        after_three-target

  -- Wherever a save breaks off, also in the middle of its write, the file holds what it held
  -- before or the whole new content with access for the owner only, if the temporary file has
  -- another name.
  pub interrupted-whole :
      (n : ℕ) (cut_off : List ℕ)
      → str_eq tmp target ≡ false
      → let found =
          Dict.lookup target (interrupted n cut_off (save_ops target tmp content) files) in
        (found ≡ Dict.lookup target files) ⊎ (found ≡ some (saved content))
  unfolding interrupted run_ops after_two
  interrupted-whole zero cut_off apart = inl (write-other target tmp cut_off files apart)
  interrupted-whole (suc zero) cut_off apart = inl (write-other target tmp content files apart)
  interrupted-whole (suc (suc zero)) cut_off apart = inl (
      chmod-other target tmp owner_only (run_op (write_text tmp content) files) apart
      ∙ write-other target tmp content files apart)
  interrupted-whole (suc (suc (suc zero))) cut_off apart = inr after_three-target
  interrupted-whole (suc (suc (suc (suc n)))) cut_off apart = inr run_ops-saved
