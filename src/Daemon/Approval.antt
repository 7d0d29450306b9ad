-- ===== src/Daemon/Approval.antt =====
-- Who can approve a device, of homelink/service/daemon.py.
use homelink.Common.Dict.{Dict}
use homelink.Common.Dict
use homelink.Common.{
  String, ◌≡◌, refl, ◌∙◌, inl, inr, true, false, none, some, str_eq, eq_iff, if◌then◌else◌,
  Option-cases,
}
use homelink.Common.Json.{str, bool, Message, get, to_str, is_true, Python}
use homelink.Telegram.{Peer}
use homelink.Devices.{Devices, get_peer, is_peer_approved, remove_device}
use homelink.Devices.Integrity.{approve_peer-is_peer_approved}
use homelink.Daemon.{Daemon, handle_admin_approval}

self_true :
    (devices : Devices) (id : String)
    → (if str_eq id id then true else is_peer_approved devices id) ≡ true
self_true devices id = rw ((eq_iff id id).1 refl) refl

erased : (stored : Dict Message) (id : String) → Dict.lookup id (Dict.erase id stored) ≡ none
erased stored id =
    let gone : (if str_eq id id then none else Dict.lookup id stored) ≡ none =
      rw ((eq_iff id id).1 refl) refl in
    Dict.lookup-erase id id stored ∙ gone

removed : (stored : Dict Message) (id : String) → Dict.lookup id (remove_device stored id).1 ≡ none
unfolding remove_device Dict.has_key
removed stored id = elim (Option-cases (Dict.lookup id stored)) [
  | inl absent ↦ rw (absent, remove_device, Dict.has_key) absent
  | inr (info, there) ↦ rw (there, remove_device, Dict.has_key) (erased stored id)
]

-- A message of the type `admin_approval` approves the device that it names, if that is stored and
-- a peer, whoever the message is from.
pub handle_admin_approval-approves :
    (py : Python) (d : Daemon) (m info : Message) (id : String) (peer : Peer)
    → get m "device_id" (str "") ≡ str id
    → get m "approved" (bool false) ≡ bool true
    → Dict.lookup id d.devices.stored ≡ some info
    → get_peer d.devices id ≡ some peer
    → is_peer_approved (handle_admin_approval py d m).devices id ≡ true
unfolding handle_admin_approval to_str
handle_admin_approval-approves py d m info id peer named choice stored known =
    rw (named, choice, handle_admin_approval)
      (approve_peer-is_peer_approved d.devices id id info peer stored known
        ∙ self_true d.devices id)

-- A denial removes the device from the store, and leaves the approval of the peer in memory as it
-- was.
pub handle_admin_approval-denies :
    (py : Python) (d : Daemon) (m : Message) (id : String)
    → get m "device_id" (str "") ≡ str id
    → is_true (get m "approved" (bool false)) ≡ false
    → (Dict.lookup id (handle_admin_approval py d m).devices.stored ≡ none)
      × (is_peer_approved (handle_admin_approval py d m).devices id ≡ is_peer_approved d.devices id)
unfolding handle_admin_approval is_peer_approved to_str
handle_admin_approval-denies py d m id named choice =
    rw (named, choice, handle_admin_approval) (removed d.devices.stored id, refl)
