-- ===== src/Tests/Keystore.antt =====
-- Runs of homelink/service/keystore.py.
use homelink.Keystore.{
  start_with, load_password, get_password_for_service, Ran, Keyctl, Surroundings, Terminal, starts,
  store_password, main,
}
use homelink.Common.{◌≡◌, refl, inl, true, false, ◌||◌, none, some, [], ◌∷◌, ◌++◌, ◌==◌}
use homelink.Common.Exc.{ok}
use homelink.Common.Int.{pos}
use homelink.Common.Text.{Text, codes}
use homelink.Keystore.Again.{shown, main-store_password}

-- The bytes of the texts below in hexadecimal digits, as UTF-8.
abbrev digits : Text → Text
digits s = codes "c3a9"

-- A keyring with one key.
abbrev keyctl : Keyctl Ran
keyctl = record {
  add = λ password ring. (ok (pos 0, []), ok (pos 0, shown digits password ++ 10 ∷ []));
  print = λ ring. ring;
  purge = λ ring. ok (pos 1, []);
}

abbrev empty_ring : Ran
empty_ring = ok (pos 1, [])

abbrev env : Surroundings
env = record {
  is_space = λ c. (c == 32) || (c == 10);
  cred_dir = codes "/run";
  read_cred = λ dir. some (ok (codes "Correct1Horse"));
}

abbrev closed : Terminal
closed = record { is_tty = false; getpass = none }

main-store_password_example :
    let ring = (store_password keyctl (codes "Correct1Horse ") empty_ring).1 in
    main keyctl env closed true ring ≡ (starts (codes "Correct1Horse"), ring)
unfolding store_password
main-store_password_example =
    main-store_password keyctl env refl digits (λ password ring. inl (refl, refl)) closed
      (codes "Correct1Horse ") empty_ring refl refl

-- A password that is not printable ASCII becomes another one.
accented_run :
    let ring = (store_password keyctl (233 ∷ []) empty_ring).1 in
    (main keyctl env closed true ring).0 ≡ starts (codes ":hex:c3a9")
unfolding store_password main get_password_for_service load_password start_with
accented_run = refl
