-- ===== src/Devices/Integrity.antt =====
-- The integrity tag of homelink/config/manager.py, and the approval of devices.
use homelink.Common.Dict.{Dict}
use homelink.Common.Dict
use homelink.Common.{
  ℕ, String, ◌≡◌, refl, ap, ◌∙◌, inl, inr, Bool, true, false, Option, none, some, List, str_eq,
  eq_iff, if◌then◌else◌, Bool-cases,
}
use homelink.Common.Exc.{ok, raise, permission_denied}
use homelink.Common.Json.{Value, str, bool, Message}
use homelink.Telegram.{Peer}
use homelink.Devices.{
  Vault, save_devices, load_devices, check_mac, Devices, approve_peer, approve_device,
  is_peer_approved, get_peer, mark_approved,
}

check_mac-own :
    (vault : Vault) (devices : Value) (key : List ℕ)
    → check_mac vault (some key) devices (str (vault.mac devices key)) ≡ ok devices
unfolding check_mac
check_mac-own vault devices key =
    let own : str_eq (vault.mac devices key) (vault.mac devices key) ≡ true =
      (eq_iff (vault.mac devices key) (vault.mac devices key)).1 refl in
    rw own refl

-- The devices that were saved are loaded again with the same integrity key, with and without the
-- check of the integrity tag.
pub load_devices-save_devices :
    (vault : Vault) (integrity_key : Option (List ℕ)) (verify_integrity : Bool) (devices : Value)
    → load_devices vault integrity_key verify_integrity (save_devices vault integrity_key devices)
      ≡ ok devices
unfolding load_devices save_devices Dict.lookup
load_devices-save_devices vault none true devices = refl
load_devices-save_devices vault (some key) true devices = check_mac-own vault devices key
load_devices-save_devices vault none false devices = refl
load_devices-save_devices vault (some key) false devices = refl

-- A document with a wrong integrity tag is refused when the check is on and there is a key.
load_devices-tampered :
    (vault : Vault) (key : List ℕ) (doc : Message) (devices : Value) (mac : String)
    → Dict.lookup "devices" doc ≡ some devices
    → Dict.lookup "mac" doc ≡ some (str mac)
    → str_eq (vault.mac devices key) mac ≡ false
    → load_devices vault (some key) true doc ≡ raise permission_denied
unfolding load_devices check_mac
load_devices-tampered vault key doc devices mac found tagged wrong =
    rw (found, tagged, wrong, load_devices, check_mac) refl

mark_approved-lookup :
    (peers : Dict Peer) (id other : String) (peer : Peer)
    → Dict.lookup id peers ≡ some peer
    → Dict.lookup other (mark_approved peers id) ≡ (
        if str_eq id other
        then some (record peer { approved = bool true })
        else Dict.lookup other peers)
mark_approved-lookup peers id other peer known =
    rw (known, mark_approved)
      (Dict.lookup-insert other id (record peer { approved = bool true }) peers)

approve_peer-peers :
    (d : Devices) (id : String) (info : Message)
    → Dict.lookup id d.stored ≡ some info
    → (approve_peer d id).1.peers ≡ mark_approved d.peers id
unfolding approve_peer approve_device
approve_peer-peers d id info stored = rw (stored, approve_peer, approve_device) refl

-- When a device that is both stored and a peer is approved, it is approved afterwards, and no
-- other device changes.
pub approve_peer-is_peer_approved :
    (d : Devices) (id other : String) (info : Message) (peer : Peer)
    → Dict.lookup id d.stored ≡ some info
    → get_peer d id ≡ some peer
    → is_peer_approved (approve_peer d id).1 other
      ≡ (if str_eq id other then true else is_peer_approved d other)
unfolding is_peer_approved
approve_peer-is_peer_approved d id other info peer stored known =
    let found : Dict.lookup other (approve_peer d id).1.peers ≡ (
        if str_eq id other
        then some (record peer { approved = bool true })
        else Dict.lookup other d.peers) =
      ap (Dict.lookup other) (approve_peer-peers d id info stored)
      ∙ mark_approved-lookup d.peers id other peer known in
    elim (Bool-cases (str_eq id other)) [
      | inl same ↦ rw (found, same, is_peer_approved) refl
      | inr differ ↦ rw (found, differ, is_peer_approved) refl
    ]
