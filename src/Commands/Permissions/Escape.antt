-- ===== src/Commands/Permissions/Escape.antt =====
-- What the path test of `ls` lets through, of homelink/commands/permissions.py.
use homelink.Common.{
  ℕ, ◌≡◌, refl, sym, ◌∙◌, ◌≢◌, ◌↔◌, ◌⊎◌, inl, inr, true, [], ◌∷◌, ◌++◌, append-nil,
}
use homelink.Common.Text.{Text, starts_with-append, starts_with-split}
use homelink.Common.Exc.{ok}
use homelink.Commands.Validators.{Platform, validate_ls}

-- The path is the directory `root`, or lies below it.
abbrev pub Within : Text → Text → Type 0
Within root p = (p ≡ root) ⊎ ((rest : Text) × (p ≡ root ++ b'/' ∷ rest))

-- The path begins with the text of the root.
abbrev pub Begins : Text → Text → Type 0
Begins root p = (rest : Text) × (p ≡ root ++ rest)

append_cancel : (s t u : Text) → s ++ t ≡ s ++ u → t ≡ u
append_cancel [] t u e = e
append_cancel (c ∷ s) t u e = append_cancel s t u cc

append_self : (s t : Text) → s ++ t ≡ s → t ≡ []
append_self s t e = append_cancel s t [] (e ∙ sym (append-nil s))

-- A path argument of `ls` is accepted exactly when both it and the root can be resolved and
-- the resolved path begins with the text of the root.
pub validate_ls_iff :
    (pf : Platform) (arg allowed_root root p : Text)
    → pf.resolve allowed_root ≡ ok root
    → pf.resolve arg ≡ ok p
    → (validate_ls pf (arg ∷ []) allowed_root ≡ true) ↔ Begins root p
unfolding validate_ls
validate_ls_iff pf arg allowed_root root p er ep =
    rw (er, ep)
      ((λ h. starts_with-split root p h), (λ (rest, e). rw e (starts_with-append root rest)))

-- A path beside the allowed root whose name extends the name of the root passes the validator of
-- `ls`, though it does not lie within the root.
pub validate_ls-sibling :
    (pf : Platform) (arg allowed_root root rest : Text) (c : ℕ)
    → pf.resolve allowed_root ≡ ok root
    → pf.resolve arg ≡ ok (root ++ c ∷ rest)
    → c ≢ b'/'
    → (validate_ls pf (arg ∷ []) allowed_root ≡ true) × ¬ Within root (root ++ c ∷ rest)
validate_ls-sibling pf arg allowed_root root rest c er ep other = (
  (validate_ls_iff pf arg allowed_root root (root ++ c ∷ rest) er ep).1 (c ∷ rest, refl),
  λ within. elim within [
    | inl same ↦ cc (append_self root (c ∷ rest) same)
    | inr (below, e) ↦ absurd (other (cc (append_cancel root (c ∷ rest) (b'/' ∷ below) e)))
  ],
)
