-- ===== src/Keys/Sharing.antt =====
-- What homelink/crypto/keys.py writes of an identity, and what is read back.
use homelink.Common.Json.{to_str, str, Message, get, item, key_of}
use homelink.Common.{ℕ, String, ◌≡◌, refl, ap, subst, Option, List, []}
use homelink.Common.Dict
use homelink.Common.Exc.{ok, ok_or}
use homelink.Telegram.{Peer}
use homelink.Devices.{from_public_dict}
use homelink.Keys.{
  KeyLib, DeviceIdentity, hazmat, DhKey, fingerprint, public_info, identity-to_dict,
  identity-from_dict, key_pair-from_dict, dh_pair-from_dict, dh_pair-to_dict, private_pair,
  private_dh_pair, hex_item, key_pair_of, dh_pair_of, object,
}

-- An identity with both private keys.
abbrev pub whole : KeyLib → DeviceIdentity → List ℕ → List ℕ → DeviceIdentity
whole lib i key dh_key = record i { signing = key_pair_of lib key; dh = dh_pair_of lib dh_key }

-- What is kept of a device that shared its public identity.
abbrev pub as_peer : DeviceIdentity → Peer
as_peer i = record { verify_key = i.signing.verify_key; approved = i.approved; role = i.role }

-- The same identity with other private keys.
abbrev pub with_secrets : DeviceIdentity → Option (List ℕ) → Option DhKey → DeviceIdentity
with_secrets i key dh_key =
    let signing = i.signing in
    let dh = i.dh in
    record i {
      signing = record signing { signing_key = key };
      dh = record dh { private_key = dh_key };
    }

module _ (lib : KeyLib) where
  pub identity-from_dict-to_dict :
      (i : DeviceIdentity) (key dh_key : List ℕ) (d : Message)
      → lib.vault.from_hex (str (lib.hex key)) ≡ ok key
      → lib.vault.from_hex (str (lib.hex dh_key)) ≡ ok dh_key
      → lib.signing_key key ≡ ok key
      → lib.dh_private dh_key ≡ ok dh_key
      → identity-to_dict lib (whole lib i key dh_key) ≡ ok d
      → identity-from_dict lib d ≡ ok (whole lib i key dh_key)
  unfolding identity-from_dict identity-to_dict key_pair-from_dict dh_pair-from_dict dh_pair-to_dict
      private_pair private_dh_pair hex_item object get item Dict.lookup Dict.has_key
  identity-from_dict-to_dict i key dh_key d hex dh_hex key_ok dh_ok made =
      subst (λ x. identity-from_dict lib x ≡ ok (whole lib i key dh_key)) (ap (ok_or []) made)
        (rw (hex, key_ok, dh_hex, dh_ok) refl)

  -- What a device shares of itself is the same for any private keys, and another device reads
  -- from it a peer with its ID, verify key, approval and role, if the keys are valid and their
  -- digits are read as they were written.
  pub from_public_dict-public_info :
      (i : DeviceIdentity) (public : List ℕ) (id : String) (key : Option (List ℕ))
      (dh_key : Option DhKey) (d : Message)
      → i.dh.public_key ≡ hazmat public
      → i.device_id ≡ str id
      → lib.vault.from_hex (str (lib.hex i.signing.verify_key)) ≡ ok i.signing.verify_key
      → lib.vault.verify_key i.signing.verify_key ≡ ok i.signing.verify_key
      → lib.vault.from_hex (str (lib.hex public)) ≡ ok public
      → lib.vault.dh_key public ≡ ok public
      → public_info lib i ≡ ok d
      → (public_info lib (with_secrets i key dh_key) ≡ ok d)
        × (from_public_dict lib.vault d ≡ ok (id, as_peer i))
  unfolding public_info fingerprint from_public_dict get item key_of to_str Dict.lookup
  from_public_dict-public_info i public id key dh_key d dh named hex verify_ok dh_hex dh_ok made = (
    made,
    subst (λ x. from_public_dict lib.vault x ≡ ok (id, as_peer i)) (ap (ok_or []) (rw dh at made))
        (rw (hex, verify_ok, dh_hex, dh_ok, named) refl),
  )
