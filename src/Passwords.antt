-- ===== src/Passwords.antt =====
-- homelink/crypto/kdf.py: which passwords are accepted, and how the session keys are cut from the
-- derived material. Argon2id and HKDF are parameters; so are lower case and `\d`.
use homelink.Common.{
  ℕ, ◌≤◌, ◌≡◌, refl, Bool, true, false, not, List, [], ◌∷◌, ◌++◌, map, arith, leb, length, take,
  drop,
}
use homelink.Common.Text.{Text, codes, text_elem, any, between}

pub data Issue : Type 0 where
  too_short no_uppercase no_lowercase no_digit too_common : Issue

abbrev pub min_password_length : ℕ
min_password_length = 12

-- `_COMMON_PASSWORDS`
abbrev pub common_passwords : List Text
common_passwords = map codes (
    "password" ∷ "password1" ∷ "homelink" ∷ "123456789012" ∷ "qwertyuiop" ∷ "letmein123"
    ∷ "admin123456" ∷ [])

abbrev pub unless : Bool → Issue → List Issue
unless true issue = []
unless false issue = issue ∷ []

module _ (lower : Text → Text) (is_decimal : ℕ → Bool) where
  unfoldable pub validate_password_strength : Text → List Issue
  validate_password_strength password =
      unless (leb min_password_length (length password)) too_short
      ++ (unless (any (λ c. between b'A' b'Z' c) password) no_uppercase
          ++ (unless (any (λ c. between b'a' b'z' c) password) no_lowercase
              ++ (unless (any is_decimal password) no_digit
                  ++ unless (not (text_elem (lower password) common_passwords)) too_common)))

  unless_nil :
      (b : Bool) (issue : Issue) (rest : List Issue)
      → unless b issue ++ rest ≡ []
      → (b ≡ true) × (rest ≡ [])
  unless_nil true issue rest h = (refl, h)
  unless_nil false issue rest h = cc

  unless_self : (b : Bool) (issue : Issue) → unless b issue ≡ [] → b ≡ true
  unless_self true issue h = refl
  unless_self false issue h = cc

  -- A password without an issue has at least twelve characters, an uppercase and a lowercase
  -- letter and a digit, and is not a common one in lower case.
  validate_password_strength-accepts :
      (password : Text)
      → validate_password_strength password ≡ []
      → (12 ≤ length password)
        × (any (λ c. between b'A' b'Z' c) password ≡ true)
        × (any (λ c. between b'a' b'z' c) password ≡ true)
        × (any is_decimal password ≡ true)
        × (text_elem (lower password) common_passwords ≡ false)
  unfolding validate_password_strength
  validate_password_strength-accepts password h =
      let (long, h1) = unless_nil (leb min_password_length (length password)) too_short _ h in
      let (upper, h2) = unless_nil (any (λ c. between b'A' b'Z' c) password) no_uppercase _ h1 in
      let (lowered, h3) = unless_nil (any (λ c. between b'a' b'z' c) password) no_lowercase _ h2 in
      let (digit, h4) = unless_nil (any is_decimal password) no_digit _ h3 in
      let rare = unless_self (not (text_elem (lower password) common_passwords)) too_common h4 in
      (ground (arith, long), upper, lowered, digit, ground (arith, rare))

-- `derive_session_keys`, from the salt that is used: both keys, and the salt.
unfoldable pub derive_session_keys :
    (List ℕ → List ℕ → List ℕ → List ℕ) → List ℕ → List ℕ → List ℕ → List ℕ × List ℕ × List ℕ
derive_session_keys hkdf shared_secret salt info =
    let material = hkdf salt info shared_secret in (take 32 material, drop 32 material, salt)
