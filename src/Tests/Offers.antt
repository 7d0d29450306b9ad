-- ===== src/Tests/Offers.antt =====
-- Runs of the offer handler of homelink/service/daemon.py and of homelink/crypto/kdf.py.
use homelink.Common.{ℕ, String, ◌≡◌, refl, ◌⊎◌, Bool, true, false, none, some, [], ◌∷◌}
use homelink.Common.Text.{codes, between}
use homelink.Common.Int.{pos}
use homelink.Common.Exc.{ok}
use homelink.Common.Json.{str, Message, Python}
use homelink.RateLimiter
use homelink.Commands.Executor.{exited}
use homelink.Files.Transfer
use homelink.Files.Transfer.{FileTransfer, no_fault}
use homelink.Files.Disk.{absent}
use homelink.Tests.Service.{walk}
use homelink.Daemon.{Host, Daemon, from_device}
use homelink.Daemon.Guards.{Entitled}
use homelink.Daemon.Offers.{Untouched, handle_file_offer, handle_file_offer-guarded}
use homelink.Passwords.{validate_password_strength}

abbrev python : Python
python = record { repr = λ v. "?"; parse_int = λ s. none }

abbrev host : Host
host = record {
  py = python;
  paths = record {
    resolve = λ p. ok p;
    home = codes "/home/ada";
    is_decimal = λ c. false;
    lower = λ t. t;
  };
  system = record { run = λ exe argv limit. exited (some (pos 0)) [] []; decode = λ b. b };
  unlink = λ p. none;
  mkdir = λ p. none;
  exists = λ p. ok true;
  walk = walk;
  explain = λ e. "error";
}

abbrev daemon : Daemon
daemon = record {
  devices = record { device_id = "ME"; peers = []; stored = [] };
  max_exec_timeout = pos 60;
  exec_limiter = RateLimiter.new 10 60_000;
  actions = [];
}

abbrev engine : Transfer.Platform
engine = record {
  py = python;
  codec = record { sha256 = λ b. ""; b64encode = λ b. ""; b64decode = λ v. ok [] };
  resolve = λ p. p;
  explain = λ e name. "refused";
  os_text = λ node. "error";
}

abbrev receiver : FileTransfer
receiver = record {
  device_id = "ME";
  downloads = codes "/home/ada/Downloads";
  max_size = pos 1000;
  sessions = [];
  offers = RateLimiter.new 5 60_000;
  disk = λ p. absent;
  outbox = [];
}

abbrev offer_of_stranger : Message
offer_of_stranger = ("from_device", str "XY") ∷ ("transfer_id", str "t1") ∷ []

handle_file_offer-guarded_example :
    Untouched receiver
      (handle_file_offer host engine daemon receiver offer_of_stranger no_fault 5).2
    ⊎ ((device : String) × (from_device python offer_of_stranger ≡ ok device)
        × Entitled daemon.devices device 1)
handle_file_offer-guarded_example =
    handle_file_offer-guarded host engine daemon receiver offer_of_stranger no_fault 5

abbrev digit : ℕ → Bool
digit c = between b'0' b'9' c

accepted_run : validate_password_strength (λ t. t) digit (codes "Correct4Horse") ≡ []
unfolding validate_password_strength
accepted_run = refl
