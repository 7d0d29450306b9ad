-- ===== src/Tests/Keys.antt =====
-- Runs of homelink/crypto/keys.py.
use homelink.Common.{ℕ, ◌≡◌, refl, true, false, none, List, [], ◌∷◌, replicate}
use homelink.Common.Dict
use homelink.Common.Exc.{ok}
use homelink.Common.Json.{str, bool, obj, done, Message, to_fields}
use homelink.Devices.{Vault, from_public_dict}
use homelink.Keys.{
  KeyLib, DeviceIdentity, generate, from_seed, key_pair_of, dh_pair_of, public_info,
  identity-to_dict, identity-from_dict, fingerprint, dh_pair-to_dict,
}
use homelink.Keys.Sharing.{
  whole, as_peer, with_secrets, identity-from_dict-to_dict, from_public_dict-public_info,
}
use homelink.Tests.Messages.{python}

abbrev seed : List ℕ
seed = replicate 32 5

abbrev vault : Vault
vault = record {
  sha256 = λ b. b;
  mac = λ v key. "";
  py = python;
  from_hex = λ v. ok seed;
  verify_key = λ b. ok b;
  dh_key = λ b. ok b;
}

abbrev pub lib : KeyLib
lib = record {
  vault = vault;
  signing_key = λ b. ok b;
  verify_of = λ b. b;
  dh_private = λ b. ok b;
  dh_public_of = λ b. b;
  exchange = λ private public. ok public;
  sign = λ key m. m;
  verify = λ key m sig. true;
  hex = λ b. "05";
  upper = λ s. s;
}

abbrev ada : DeviceIdentity
ada = record {
  device_id = str "05";
  name = str "attic";
  signing = key_pair_of lib seed;
  dh = dh_pair_of lib seed;
  approved = bool false;
  role = str "viewer";
  metadata = obj done;
}

generate_run : generate lib "attic" seed seed ≡ ok ada
unfolding generate from_seed
generate_run = refl

abbrev entries : Message
entries =
    ("device_id", str "05")
    ∷ ("name", str "attic")
    ∷ ("signing", obj (to_fields (("public", str "05") ∷ ("private", str "05") ∷ [])))
    ∷ ("dh", obj (to_fields (("public", str "05") ∷ ("private", str "05") ∷ [])))
    ∷ ("approved", bool false)
    ∷ ("role", str "viewer")
    ∷ ("metadata", obj done)
    ∷ []

to_dict_run : identity-to_dict lib ada ≡ ok entries
unfolding identity-to_dict dh_pair-to_dict Dict.has_key Dict.lookup
to_dict_run = refl

identity-from_dict-to_dict_example : identity-from_dict lib entries ≡ ok (whole lib ada seed seed)
identity-from_dict-to_dict_example =
    identity-from_dict-to_dict lib ada seed seed entries refl refl refl refl to_dict_run

abbrev shared : Message
shared =
    ("device_id", str "05")
    ∷ ("name", str "attic")
    ∷ ("signing_public", str "05")
    ∷ ("dh_public", str "05")
    ∷ ("approved", bool false)
    ∷ ("role", str "viewer")
    ∷ ("fingerprint", str "05:05:05:05:05:05:05:05:05:05:05:05:05:05:05:05")
    ∷ ("metadata", obj done)
    ∷ []

public_info_run : public_info lib ada ≡ ok shared
unfolding public_info fingerprint
public_info_run = refl

from_public_dict-public_info_example :
    (public_info lib (with_secrets ada none none) ≡ ok shared)
    × (from_public_dict vault shared ≡ ok ("05", as_peer ada))
from_public_dict-public_info_example =
    from_public_dict-public_info lib ada seed "05" none none shared refl refl refl refl refl refl
      public_info_run
