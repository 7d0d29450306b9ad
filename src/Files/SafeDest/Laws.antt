-- ===== src/Files/SafeDest/Laws.antt =====
-- Where a file that a peer names can be written, of homelink/files/transfer.py.
use homelink.Common.{
  ◌≤◌, ◌≡◌, refl, sym, ◌⊎◌, inl, inr, true, false, ◌||◌, none, [], ◌∷◌, ◌++◌, arith, ltb, ltb-false,
  Bool-cases, Option-cases, length,
}
use homelink.Common.Text.{
  Text, codes, is_empty, text_eq, starts_with, elem, any, text_eq_iff, starts_with-split,
}
use homelink.Common.Paths.{path_name, join_path, is_relative_to}
use homelink.Files.SafeDest.{dest, forbidden_chars, check_name, safe_dest}

-- Below a directory, or the directory itself; everything is below the root directory.
abbrev pub Below : Text → Text → Type 0
Below root p =
    (root ≡ codes "/") ⊎ ((p ≡ root) ⊎ ((rest : Text) × (p ≡ (root ++ b'/' ∷ []) ++ rest)))

is_relative_to-Below : (p root : Text) → is_relative_to p root ≡ true → Below root p
unfolding is_relative_to
is_relative_to-Below p root h = elim (Bool-cases (text_eq root (codes "/"))) [
  | inl top ↦ inl ((text_eq_iff root (codes "/")).0 top)
  | inr other ↦ elim (Bool-cases (text_eq p root)) [
    | inl same ↦ inr (inl ((text_eq_iff p root).0 same))
    | inr differ ↦ inr (inr (starts_with-split (root ++ b'/' ∷ []) p (rw (other, differ) at h)))
  ]
]

-- A file name with no directory in it, that is not hidden, has no forbidden character and at
-- most 255 characters.
pub record Named (safe : Text) : Type 0 where
  pub not_empty : is_empty safe ≡ false
  pub not_hidden : starts_with (codes ".") safe ≡ false
  pub no_slash : elem b'/' safe ≡ false
  pub no_forbidden : any (λ c. elem c forbidden_chars) safe ≡ false
  pub short : length safe ≤ 255

no_forbidden-no_slash :
    (s : Text) → any (λ c. elem c forbidden_chars) s ≡ false → elem b'/' s ≡ false
no_forbidden-no_slash [] h = refl
no_forbidden-no_slash (c ∷ s) h = ground (arith, no_forbidden-no_slash s)

check_name-Named : (safe : Text) → check_name safe ≡ none → Named safe
unfolding check_name
check_name-Named safe h =
    elim (Bool-cases (is_empty safe || (text_eq safe (codes ".") || text_eq safe (codes "..")))) [
      | inl bad ↦ cc (rw bad at h)
      | inr shown ↦ elim (Bool-cases (starts_with (codes ".") safe)) [
        | inl bad ↦ cc (rw (shown, bad) at h)
        | inr plain ↦ elim (Bool-cases (any (λ c. elem c forbidden_chars) safe)) [
          | inl bad ↦ cc (rw (shown, plain, bad) at h)
          | inr free ↦ elim (Bool-cases (ltb 255 (length safe))) [
            | inl bad ↦ cc (rw (shown, plain, free, bad) at h)
            | inr fits ↦ record {
              not_empty = ground arith;
              not_hidden = plain;
              no_slash = no_forbidden-no_slash safe free;
              no_forbidden = free;
              short = ltb-false 255 (length safe) fits;
            }
          ]
        ]
      ]
    ]

-- A name that is accepted leads to its last component, resolved in the downloads directory: that
-- component is not empty, not hidden, at most 255 characters long and free of separators and
-- forbidden characters, and the resolved path is the downloads directory or below it.
pub safe_dest-Below :
    (resolve : Text → Text) (downloads name target : Text)
    → safe_dest resolve downloads name ≡ dest target
    → Named (path_name name)
      × (target ≡ resolve (join_path downloads (path_name name)))
      × Below (resolve downloads) target
unfolding safe_dest
safe_dest-Below resolve downloads name target h = elim (Bool-cases (is_empty name)) [
  | inl bad ↦ cc (rw bad at h)
  | inr some_name ↦ elim (Bool-cases (starts_with (codes "/") name)) [
    | inl bad ↦ cc (rw (some_name, bad) at h)
    | inr relative ↦ elim (Option-cases (check_name (path_name name))) [
      | inr (e, bad) ↦ cc (rw (some_name, relative, bad) at h)
      | inl good ↦
          let found = resolve (join_path downloads (path_name name)) in
          elim (Bool-cases (is_relative_to found (resolve downloads))) [
            | inr out ↦ cc (rw (some_name, relative, good, out) at h)
            | inl within ↦
                let same : dest found ≡ dest target = rw (some_name, relative, good, within) at h in
                let target_same : found ≡ target = cc in
                (
                  check_name-Named (path_name name) good,
                  sym target_same,
                  rw (← target_same) (is_relative_to-Below found (resolve downloads) within),
                )
          ]
    ]
  ]
]
