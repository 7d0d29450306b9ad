-- ===== src/Keys.antt =====
-- homelink/crypto/keys.py: key pairs and device identities, and their JSON forms. The key
-- libraries, SHA-256 and `bytes.hex` are parameters; the random keys are arguments.
pub mod Sharing
use homelink.Common.{
  ℕ, String, ◌<>◌, Bool, false, not, Option, none, some, List, [], ◌∷◌, ◌==◌, if◌then◌else◌, length,
  take,
}
use homelink.Common.Dict
use homelink.Common.Exc.{
  Result, ok, raise, value_error, attribute_error, type_error, runtime_error, assertion_error,
  ◌>>=◌, ◌>>◌, raise_if,
}
use homelink.Common.Json.{Value, str, bool, obj, done, Message, get, item, to_dict, to_fields}
use homelink.Devices.{Vault}

pub record KeyLib : Type 0 where
  pub vault : Vault
  -- `SigningKey(b)`, and its verify key
  pub signing_key : List ℕ → Result (List ℕ)
  pub verify_of : List ℕ → List ℕ
  -- `X25519PrivateKey.from_private_bytes(b)`, and its public key
  pub dh_private : List ℕ → Result (List ℕ)
  pub dh_public_of : List ℕ → List ℕ
  -- `private.exchange(public)`
  pub exchange : List ℕ → List ℕ → Result (List ℕ)
  pub sign : List ℕ → List ℕ → List ℕ
  pub verify : List ℕ → List ℕ → List ℕ → Bool
  -- `b.hex()`, and `s.upper()`
  pub hex : List ℕ → String
  pub upper : String → String

-- `KeyPair`: the bytes of the keys.
pub record KeyPair : Type 0 where
  pub verify_key : List ℕ
  pub signing_key : Option (List ℕ)

-- A private key of the DH pair, with the library that made it: `cryptography`, which the class
-- uses, or PyNaCl, whose keys have other methods.
pub data DhKey : Type 0 where
  hazmat nacl : List ℕ → DhKey

-- `DHKeyPair`
pub record DhKeyPair : Type 0 where
  pub public_key : DhKey
  pub private_key : Option DhKey

-- `bytes.fromhex(d[key])`
unfoldable pub hex_item : Vault → Message → String → Result (List ℕ)
unfolding item
hex_item vault d key = do v ← item d key; vault.from_hex v

-- `public_key.public_bytes_raw()` and `private_key.private_bytes_raw()`, which keys of PyNaCl lack.
abbrev pub raw_bytes : DhKey → Result (List ℕ)
raw_bytes (hazmat b) = ok b
raw_bytes (nacl b) = raise attribute_error

-- A private key, which a peer-only pair has not.
abbrev pub or_runtime_error {ℓ} : {A : Type ℓ} → Option A → Result A
or_runtime_error none = raise runtime_error
or_runtime_error (some key) = ok key

-- `"private" in d`, of a pair with a private key
abbrev pub private_entry : Option String → Message
private_entry none = []
private_entry (some key) = ("private", str key) ∷ []

module _ (lib : KeyLib) where
  -- `KeyPair.from_seed`, which `generate` calls with a random seed of 32 bytes.
  unfoldable pub from_seed : List ℕ → Result KeyPair
  from_seed seed = do
    raise_if (not (length seed == 32)) value_error
    key ← lib.signing_key seed
    ok (record { verify_key = lib.verify_of key; signing_key = some key })

  -- `KeyPair.from_public_bytes`
  unfoldable pub from_public_bytes : List ℕ → Result KeyPair
  from_public_bytes b = do
    key ← lib.vault.verify_key b
    ok (record { verify_key = key; signing_key = none })

  -- `KeyPair.sign`
  unfoldable pub sign_with : KeyPair → List ℕ → Result (List ℕ)
  sign_with pair message = do key ← or_runtime_error pair.signing_key; ok (lib.sign key message)

  -- `KeyPair.verify`
  abbrev pub verify_with : KeyPair → List ℕ → List ℕ → Bool
  verify_with pair message signature = lib.verify pair.verify_key message signature

  abbrev hex_of : Option (List ℕ) → Option String
  hex_of none = none
  hex_of (some b) = some (lib.hex b)

  -- `KeyPair.to_dict`
  abbrev pub key_pair-to_dict : KeyPair → Message
  key_pair-to_dict pair =
      ("public", str (lib.hex pair.verify_key)) ∷ private_entry (hex_of pair.signing_key)

  abbrev pub key_pair_of : List ℕ → KeyPair
  key_pair_of key = record { verify_key = lib.verify_of key; signing_key = some key }

  -- `KeyPair.from_dict` with a private key
  unfoldable pub private_pair : Message → Result KeyPair
  unfolding hex_item
  private_pair d = do
    b ← hex_item lib.vault d "private"
    key ← lib.signing_key b
    ok (key_pair_of key)

  -- `KeyPair.from_dict` without one
  unfoldable pub public_pair : Message → Result KeyPair
  unfolding hex_item from_public_bytes
  public_pair d = do b ← hex_item lib.vault d "public"; from_public_bytes b

  -- `KeyPair.from_dict`
  unfoldable pub key_pair-from_dict : Message → Result KeyPair
  unfolding Dict.has_key private_pair public_pair
  key_pair-from_dict d = if Dict.has_key "private" d then private_pair d else public_pair d

  -- `DHKeyPair.from_public_bytes`
  unfoldable pub dh-from_public_bytes : List ℕ → Result DhKeyPair
  dh-from_public_bytes b = do
    key ← lib.vault.dh_key b
    ok (record { public_key = hazmat key; private_key = none })

  -- `self.private_key.exchange(their_pub)`
  abbrev pub exchange_by : DhKey → List ℕ → Result (List ℕ)
  exchange_by (hazmat key) their_pub = lib.exchange key their_pub
  exchange_by (nacl key) their_pub = raise attribute_error

  -- `DHKeyPair.exchange`
  unfoldable pub exchange : DhKeyPair → List ℕ → Result (List ℕ)
  exchange pair their_public_bytes = do
    key ← or_runtime_error pair.private_key
    their_pub ← lib.vault.dh_key their_public_bytes
    exchange_by key their_pub

  abbrev pub dh_pair_of : List ℕ → DhKeyPair
  dh_pair_of key = record {
    public_key = hazmat (lib.dh_public_of key);
    private_key = some (hazmat key);
  }

  abbrev private_hex : Option DhKey → Result (Option String)
  private_hex none = ok none
  private_hex (some key) = do b ← raw_bytes key; ok (some (lib.hex b))

  -- `DHKeyPair.to_dict`
  unfoldable pub dh_pair-to_dict : DhKeyPair → Result Message
  dh_pair-to_dict pair = do
    public ← raw_bytes pair.public_key
    private ← private_hex pair.private_key
    ok (("public", str (lib.hex public)) ∷ private_entry private)

  unfoldable pub private_dh_pair : Message → Result DhKeyPair
  unfolding hex_item
  private_dh_pair d = do
    b ← hex_item lib.vault d "private"
    key ← lib.dh_private b
    ok (dh_pair_of key)

  unfoldable pub public_dh_pair : Message → Result DhKeyPair
  unfolding hex_item dh-from_public_bytes
  public_dh_pair d = do b ← hex_item lib.vault d "public"; dh-from_public_bytes b

  -- `DHKeyPair.from_dict`
  unfoldable pub dh_pair-from_dict : Message → Result DhKeyPair
  unfolding Dict.has_key private_dh_pair public_dh_pair
  dh_pair-from_dict d = if Dict.has_key "private" d then private_dh_pair d else public_dh_pair d

pub record DeviceIdentity : Type 0 where
  pub device_id : Value
  pub name : Value
  pub signing : KeyPair
  pub dh : DhKeyPair
  pub approved : Value
  pub role : Value
  pub metadata : Value

-- The entries of a JSON object.
unfoldable pub object : Value → Result Message
object (obj fields) = ok (to_dict fields)
object v = raise type_error

module _ (lib : KeyLib) where
  -- `_derive_device_id`: sixteen digits are eight bytes.
  abbrev pub derive_device_id : List ℕ → String
  derive_device_id public_key = lib.upper (lib.hex (take 8 (lib.vault.sha256 public_key)))

  -- `DeviceIdentity.generate`, from the random private keys.
  unfoldable pub generate : String → List ℕ → List ℕ → Result DeviceIdentity
  unfolding from_seed
  generate name seed dh_seed = do
    signing ← from_seed lib seed
    dh_key ← lib.dh_private dh_seed
    ok (record {
      device_id = str (derive_device_id signing.verify_key);
      name = str name;
      signing = signing;
      dh = dh_pair_of lib dh_key;
      approved = bool false;
      role = str "viewer";
      metadata = obj done;
    })

  abbrev join_colons : List ℕ → String
  join_colons [] = ""
  join_colons (b ∷ []) = lib.hex (b ∷ [])
  join_colons (b ∷ c ∷ bytes) = lib.hex (b ∷ []) <> (":" <> join_colons (c ∷ bytes))

  -- `fingerprint`
  unfoldable pub fingerprint : DeviceIdentity → String
  fingerprint i = join_colons (take 16 (lib.vault.sha256 i.signing.verify_key))

  -- `public_info`
  unfoldable pub public_info : DeviceIdentity → Result Message
  unfolding fingerprint
  public_info i = do
    dh_public ← raw_bytes i.dh.public_key
    ok (
        ("device_id", i.device_id)
        ∷ ("name", i.name)
        ∷ ("signing_public", str (lib.hex i.signing.verify_key))
        ∷ ("dh_public", str (lib.hex dh_public))
        ∷ ("approved", i.approved)
        ∷ ("role", i.role)
        ∷ ("fingerprint", str (fingerprint i))
        ∷ ("metadata", i.metadata)
        ∷ [])

  -- `DeviceIdentity.to_dict`
  unfoldable pub identity-to_dict : DeviceIdentity → Result Message
  unfolding dh_pair-to_dict Dict.has_key
  identity-to_dict i = do
    dh ← dh_pair-to_dict lib i.dh
    raise_if (not (Dict.has_key "private" (key_pair-to_dict lib i.signing))) assertion_error
    ok (
        ("device_id", i.device_id)
        ∷ ("name", i.name)
        ∷ ("signing", obj (to_fields (key_pair-to_dict lib i.signing)))
        ∷ ("dh", obj (to_fields dh))
        ∷ ("approved", i.approved)
        ∷ ("role", i.role)
        ∷ ("metadata", i.metadata)
        ∷ [])

  -- `DeviceIdentity.from_dict`
  unfoldable pub identity-from_dict : Message → Result DeviceIdentity
  unfolding get item object key_pair-from_dict dh_pair-from_dict
  identity-from_dict d = do
    device_id ← item d "device_id"
    name ← item d "name"
    signing_value ← item d "signing"
    signing_entries ← object signing_value
    signing ← key_pair-from_dict lib signing_entries
    dh_value ← item d "dh"
    dh_entries ← object dh_value
    dh ← dh_pair-from_dict lib dh_entries
    ok (record {
      device_id = device_id;
      name = name;
      signing = signing;
      dh = dh;
      approved = get d "approved" (bool false);
      role = get d "role" (str "viewer");
      metadata = get d "metadata" (obj done);
    })
