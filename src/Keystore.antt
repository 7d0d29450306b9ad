-- ===== src/Keystore.antt =====
-- homelink/service/keystore.py: the password in the keyring of the kernel, and the start of
-- homelink/service/run.py, which asks for it.
pub mod Again
use homelink.Common.{ℕ, Bool, true, false, not, Option, none, some, [], if◌then◌else◌}
use homelink.Common.Exc.{Result, ok, raise}
use homelink.Common.Int.{ℤ, pos}
use homelink.Common.Text.{Text, is_empty}
use homelink.Common.Blanks.{strip}

-- A process that ended, with its exit status and its output; a start that failed raises.
abbrev pub Ran : Type 0
Ran = Result (ℤ × Text)

-- `keyctl`, on the keys of the user.
pub record Keyctl (Ring : Type 0) : Type 0 where
  pub add : Text → Ring → Ran × Ring
  pub print : Ring → Ran
  pub purge : Ring → Ring

-- What the service finds around it: white space, and the credentials of systemd.
pub record Surroundings : Type 0 where
  pub is_space : ℕ → Bool
  -- `os.environ.get("CREDENTIALS_DIRECTORY", "")`
  pub cred_dir : Text
  -- the text of the credential in a directory: none where there is no file
  pub read_cred : Text → Option (Result Text)

-- `r.returncode == 0`
abbrev pub succeeded : ℤ → Bool
succeeded (pos ℕ.zero) = true
succeeded _ = false

abbrev pub accepted : Ran → Bool
accepted (ok (status, out)) = succeeded status
accepted (raise e) = false

-- The text of a credential; one that is missing or cannot be read is empty.
abbrev pub credential : (ℕ → Bool) → Option (Result Text) → Text
credential is_space none = []
credential is_space (some (ok text)) = strip is_space text
credential is_space (some (raise e)) = []

unfoldable pub load_password_from_cred : Surroundings → Text
load_password_from_cred env =
    if is_empty env.cred_dir then [] else credential env.is_space (env.read_cred env.cred_dir)

module _ {Ring : Type 0} (k : Keyctl Ring) where
  unfoldable pub store_password : Text → Ring → Bool × Ring
  store_password password ring = let (ran, ring') = k.add password ring in (accepted ran, ring')

  unfoldable pub load_password : Surroundings → Ring → Text
  load_password env ring = elim (k.print ring) [
    | ok (status, out) ↦ if succeeded status then strip env.is_space out else []
    | raise e ↦ []
  ]

  unfoldable pub clear_password : Ring → Ring
  clear_password ring = k.purge ring

  -- The second place that is asked.
  unfoldable pub fall_back : Text → Ring → Text × Ring
  unfolding store_password
  fall_back password ring =
      if is_empty password then ([], ring) else (password, (store_password password ring).1)

  unfoldable pub get_password_for_service : Surroundings → Ring → Text × Ring
  unfolding load_password load_password_from_cred fall_back
  get_password_for_service env ring =
      let password = load_password env ring in
      if is_empty password then fall_back (load_password_from_cred env) ring else (password, ring)

-- How `main` of run.py goes on: with a password for the daemon, or out.
pub data Start : Type 0 where
  exits : Start
  starts : Text → Start

-- `sys.stdin.isatty()`, and what `getpass` returns: none where it is broken off.
pub record Terminal : Type 0 where
  pub is_tty : Bool
  pub getpass : Option Text

unfoldable pub start_with : Text → Start
start_with password = if is_empty password then exits else starts password

unfoldable pub ask : Terminal → Start
unfolding start_with
ask terminal =
    if terminal.is_tty
    then elim terminal.getpass [ none ↦ exits | some password ↦ start_with password ]
    else exits

-- `main` of run.py, up to the start of the daemon.
unfoldable pub main :
    {Ring : Type 0} → Keyctl Ring → Surroundings → Terminal → Bool → Ring → Start × Ring
unfolding get_password_for_service ask start_with
main k env terminal initialized ring =
    if not initialized
    then (exits, ring)
    else let (password, ring') = get_password_for_service k env ring in
      (if is_empty password then ask terminal else start_with password, ring')
