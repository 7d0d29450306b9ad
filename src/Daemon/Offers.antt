-- ===== src/Daemon/Offers.antt =====
-- `_handle_file_offer` of homelink/service/daemon.py: the daemon in front of the file receiver.
use homelink.Common.{
  ℕ, String, ◌≡◌, refl, ap, ◌∙◌, ◌⊎◌, inl, inr, Bool, true, false, [], ◌∷◌, if◌then◌else◌,
  Bool-cases,
}
use homelink.Common.Text.{codes}
use homelink.Common.Exc.{Result, ok, raise, Result-cases}
use homelink.Common.Json.{str, Message, get}
use homelink.RateLimiter
use homelink.RateLimiter.{RateLimiter}
use homelink.Files.Transfer
use homelink.Files.Transfer.{FileTransfer, Fault, handle_offer}
use homelink.Daemon.{Host, Daemon, sent, act, from_device, check_role}
use homelink.Daemon.Guards.{Entitled, check_role-Entitled}

abbrev pub Both : Type 0
Both = Result (Unit {0}) × Daemon × FileTransfer

abbrev refusal : Message → Message
refusal m =
    ("type", str "file_reject")
    ∷ ("transfer_id", get m "transfer_id" (str ""))
    ∷ ("reason", str "insufficient role (operator required for file transfer)")
    ∷ []

-- The offer of a sender whose role suffices, or does not.
unfoldable pub offer_from :
    Transfer.Platform → Daemon → FileTransfer → Message → String → Bool → Fault → ℕ → Both
offer_from pf d s m device false fault now = (ok tt, act d (sent device (refusal m)), s)
offer_from pf d s m device true fault now =
    let (result, s') = handle_offer pf s m fault now in (result, d, s')

-- The role is looked at once the limiter, which the receiver shares, has let the offer through.
unfoldable pub check_offer_role :
    Transfer.Platform → Daemon → FileTransfer → Message → String → Fault → ℕ → Both
unfolding offer_from
check_offer_role pf d s m device fault now = elim (check_role d.devices device (codes "operator")) [
  | raise e ↦ (raise e, d, s)
  | ok allowed ↦ offer_from pf d s m device allowed fault now
]

unfoldable pub handle_file_offer :
    Host → Transfer.Platform → Daemon → FileTransfer → Message → Fault → ℕ → Both
unfolding check_offer_role
handle_file_offer host pf d s m fault now = elim (from_device host.py m) [
  | raise e ↦ (raise e, d, s)
  | ok device ↦
      let (allowed, offers) = RateLimiter.is_allowed s.offers device now in
      let s' = record s { offers = offers } in
      if allowed then check_offer_role pf d s' m device fault now else (ok tt, d, s')
]

-- The receiver's files and sessions are as they were.
abbrev pub Untouched : FileTransfer → FileTransfer → Type 0
Untouched s s' = (s'.disk ≡ s.disk) × (s'.sessions ≡ s.sessions)

offer_from-guarded :
    (pf : Transfer.Platform) (d : Daemon) (s : FileTransfer) (m : Message) (device : String)
    (fault : Fault) (now : ℕ)
    → Untouched s (check_offer_role pf d s m device fault now).2 ⊎ Entitled d.devices device 1
unfolding check_offer_role offer_from
offer_from-guarded pf d s m device fault now =
    elim (Result-cases (check_role d.devices device (codes "operator"))) [
      | inr (e, q) ↦ rw (q, check_offer_role) (inl (refl, refl))
      | inl (allowed, q) ↦ elim (Bool-cases allowed) [
        | inr low ↦ rw (q, low, check_offer_role, offer_from) (inl (refl, refl))
        | inl enough ↦ inr (check_role-Entitled d.devices device (q ∙ ap ok enough))
      ]
    ]

-- An offer leaves the files and the sessions of the receiver as they were, or its sender is an
-- approved peer with the level of an operator at least.
pub handle_file_offer-guarded :
    (host : Host) (pf : Transfer.Platform) (d : Daemon) (s : FileTransfer) (m : Message)
    (fault : Fault) (now : ℕ)
    → Untouched s (handle_file_offer host pf d s m fault now).2
      ⊎ ((device : String) × (from_device host.py m ≡ ok device) × Entitled d.devices device 1)
unfolding handle_file_offer
handle_file_offer-guarded host pf d s m fault now = elim (Result-cases (from_device host.py m)) [
  | inr (e, q) ↦ rw (q, handle_file_offer) (inl (refl, refl))
  | inl (device, q) ↦
      let (_, offers) = RateLimiter.is_allowed s.offers device now in
      let s' = record s { offers = offers } in
      elim (Bool-cases (RateLimiter.is_allowed s.offers device now).0) [
        | inr limited ↦ rw (q, limited, handle_file_offer) (inl (refl, refl))
        | inl let_in ↦ elim (offer_from-guarded pf d s' m device fault now) [
          | inr entitled ↦ inr (device, q, entitled)
          | inl (disk_same, sessions_same) ↦
              rw (q, let_in, handle_file_offer) (inl (disk_same, sessions_same))
        ]
      ]
]
