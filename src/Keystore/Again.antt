-- ===== src/Keystore/Again.antt =====
-- Starts of the service one after another, of homelink/service/keystore.py.
use homelink.Keystore.{
  start_with, credential, accepted, Keyctl, Surroundings, Terminal, starts, store_password,
  load_password, load_password_from_cred, fall_back, get_password_for_service, main,
}
use homelink.Common.{
  ℕ, ◌≡◌, refl, ap, ◌∙◌, ◌⊎◌, inl, inr, Bool, true, false, Option, none, some, [], ◌∷◌, ◌++◌,
  if◌then◌else◌, Bool-cases,
}
use homelink.Common.Exc.{Result, ok, raise}
use homelink.Common.Int.{pos}
use homelink.Common.Text.{all, between, codes, Text, is_empty}
use homelink.Common.Blanks.{strip, strip-strip, strip-append}

-- Is every character one of printable ASCII?
abbrev pub is_printable : Text → Bool
is_printable = all (between 32 126)

-- What `keyctl print` makes of a payload, before its line break: the payload where it is
-- printable, and its bytes in hexadecimal digits otherwise.
abbrev pub shown : (Text → Text) → Text → Text
shown hex password = if is_printable password then password else codes ":hex:" ++ hex password

-- `keyctl` prints what it stored, with a line break, and where it could not store, what it printed
-- before.
abbrev pub Keeps : {Ring : Type 0} → Keyctl Ring → (Text → Text) → Type 0
Keeps {Ring} k hex =
    (password : Text) (ring : Ring)
    → let added = k.add password ring in
      ((accepted added.0 ≡ true) × (k.print added.1 ≡ ok (pos 0, shown hex password ++ 10 ∷ [])))
      ⊎ ((accepted added.0 ≡ false) × (k.print added.1 ≡ k.print ring))

is_empty-nil : (s : Text) → is_empty s ≡ true → s ≡ []
is_empty-nil [] empty = refl
is_empty-nil (c ∷ s) empty = cc

credential-stripped :
    (is_space : ℕ → Bool) (found : Option (Result Text))
    → strip is_space (credential is_space found) ≡ credential is_space found
credential-stripped is_space none = refl
credential-stripped is_space (some (ok text)) = strip-strip is_space text
credential-stripped is_space (some (raise e)) = refl

module _ {Ring : Type 0} (k : Keyctl Ring) (env : Surroundings) (newline : env.is_space 10 ≡ true)
    (hex : Text → Text) (keeps : Keeps k hex) where
  load_password-printed :
      (password : Text) (ring : Ring)
      → k.print ring ≡ ok (pos 0, password ++ 10 ∷ [])
      → load_password k env ring ≡ strip env.is_space password
  unfolding load_password
  load_password-printed password ring printed =
      rw (printed, load_password) (strip-append env.is_space password 10 newline)

  load_password-stored :
      (password : Text) (ring : Ring)
      → (store_password k password ring).0 ≡ true
      → load_password k env (store_password k password ring).1
        ≡ strip env.is_space (shown hex password)
  unfolding store_password
  load_password-stored password ring stored = elim (keeps password ring) [
    | inl (taken, printed) ↦
        load_password-printed (shown hex password) (k.add password ring).1 printed
    | inr (refused, same) ↦ cc
  ]

  load_password-same :
      (ring ring' : Ring)
      → k.print ring' ≡ k.print ring
      → load_password k env ring' ≡ load_password k env ring
  unfolding load_password
  load_password-same ring ring' same = rw (same, load_password) refl

  get_password_for_service-loaded :
      (password : Text) (ring : Ring)
      → load_password k env ring ≡ password
      → is_empty password ≡ false
      → get_password_for_service k env ring ≡ (password, ring)
  unfolding get_password_for_service
  get_password_for_service-loaded password ring loaded full =
      rw (loaded, get_password_for_service, full) refl

  get_password_for_service-store_password :
      (password : Text) (ring : Ring)
      → (store_password k password ring).0 ≡ true
      → is_empty (strip env.is_space (shown hex password)) ≡ false
      → get_password_for_service k env (store_password k password ring).1
        ≡ (strip env.is_space (shown hex password), (store_password k password ring).1)
  get_password_for_service-store_password password ring stored full =
      get_password_for_service-loaded (strip env.is_space (shown hex password))
        (store_password k password ring).1 (load_password-stored password ring stored) full

  cred-stripped : strip env.is_space (load_password_from_cred env) ≡ load_password_from_cred env
  unfolding load_password_from_cred
  cred-stripped = elim (Bool-cases (is_empty env.cred_dir)) [
    | inl unset ↦ rw (unset, load_password_from_cred) refl
    | inr set ↦
        rw (set, load_password_from_cred)
          (credential-stripped env.is_space (env.read_cred env.cred_dir))
  ]

  fall_back-empty :
      (password : Text) (ring : Ring)
      → is_empty password ≡ true
      → fall_back k password ring ≡ ([], ring)
  unfolding fall_back
  fall_back-empty password ring empty = rw (empty, fall_back) refl

  fall_back-full :
      (password : Text) (ring : Ring)
      → is_empty password ≡ false
      → fall_back k password ring ≡ (password, (k.add password ring).1)
  unfolding fall_back store_password
  fall_back-full password ring full = rw (full, fall_back, store_password) refl

  get_password_for_service-fallen :
      (ring : Ring)
      → load_password k env ring ≡ []
      → get_password_for_service k env ring ≡ fall_back k (load_password_from_cred env) ring
  unfolding get_password_for_service
  get_password_for_service-fallen ring nothing = rw (nothing, get_password_for_service) refl

  -- What the credential gave is found again, in the keyring or in the credential.
  fall_back-again :
      (ring : Ring)
      → is_printable (load_password_from_cred env) ≡ true
      → load_password k env ring ≡ []
      → let first = fall_back k (load_password_from_cred env) ring in
        (get_password_for_service k env first.1).0 ≡ first.0
  fall_back-again ring plain nothing =
      let cred = load_password_from_cred env in
      elim (Bool-cases (is_empty cred)) [
        | inl empty ↦ rw (fall_back-empty cred ring empty) (
            ap (λ r. r.0)
              (get_password_for_service-fallen ring nothing ∙ fall_back-empty cred ring empty))
        | inr full ↦ rw (fall_back-full cred ring full) (elim (keeps cred ring) [
          | inl (taken, printed) ↦
              let loaded =
                load_password-printed cred (k.add cred ring).1 (rw plain at printed)
                ∙ cred-stripped in
              ap (λ r. r.0) (get_password_for_service-loaded cred (k.add cred ring).1 loaded full)
          | inr (refused, same) ↦
              let ring' = (k.add cred ring).1 in
              let still = load_password-same ring ring' same ∙ nothing in
              ap (λ r. r.0)
                (get_password_for_service-fallen ring' still ∙ fall_back-full cred ring' full)
        ])
      ]

  -- A second start gets the same password as the first, wherever that came from, if the
  -- credential is printable.
  pub get_password_for_service-again :
      (ring : Ring)
      → is_printable (load_password_from_cred env) ≡ true
      → let first = get_password_for_service k env ring in
        (get_password_for_service k env first.1).0 ≡ first.0
  unfolding get_password_for_service
  get_password_for_service-again ring plain =
      elim (Bool-cases (is_empty (load_password k env ring))) [
        | inl empty ↦
            rw (empty, get_password_for_service)
              (fall_back-again ring plain (is_empty-nil (load_password k env ring) empty))
        | inr full ↦ rw (full, get_password_for_service) (rw (full, get_password_for_service) refl)
      ]

  -- A service that starts after a password was stored goes on with what keyctl shows of it,
  -- without the white space at its ends, if something is left of it: that is the password itself
  -- where it is printable ASCII, and a text of its hexadecimal digits otherwise, as keyctl is
  -- documented to print a payload; a line break is white space.
  pub main-store_password :
      (terminal : Terminal) (password : Text) (ring : Ring)
      → (store_password k password ring).0 ≡ true
      → is_empty (strip env.is_space (shown hex password)) ≡ false
      → let ring' = (store_password k password ring).1 in
        main k env terminal true ring' ≡ (starts (strip env.is_space (shown hex password)), ring')
  unfolding main start_with
  main-store_password terminal password ring stored full =
      rw (get_password_for_service-store_password password ring stored full, main, full, start_with)
        refl
