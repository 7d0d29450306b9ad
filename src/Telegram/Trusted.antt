-- ===== src/Telegram/Trusted.antt =====
-- What homelink/transport/telegram/transport.py passes on to the receive callback.
use homelink.Telegram.{
  read_update, is_one, is_string, Reply, Peer, Platform, Effect, dispatched, replied, Telegram,
  perform, pass_on, is_device_id, lookup_peer, or_new, admin_approval, status_request, decide,
  check_pending, handle_approve, handle_command,
}
use homelink.Common.Dict.{Dict}
use homelink.Common.Dict
use homelink.Common.{
  ℕ, String, ◌≡◌, refl, ap, ◌∙◌, ◌⊎◌, inl, inr, Bool, true, false, ◌&&◌, Option, none, some, List,
  [], ◌∷◌, ◌++◌, str_eq, Bool-cases, Option-cases,
}
use homelink.Common.Text.{strip, second_part}
use homelink.Common.Exc.{ok}
use homelink.Common.Json.{Value, null, get, to_str, str, obj, Fields, Message, to_dict, is_true}
use homelink.NonceCache.{NonceCache}
use homelink.Signing.Authentic.{Accepted}

-- The messages that were passed on.
abbrev pub messages : List Effect → List Message
messages [] = []
messages (dispatched m ∷ effects) = m ∷ messages effects
messages (replied r ∷ effects) = messages effects

-- The text of an update of a chat is a wrapper for a device, with a sender and an envelope.
pub record Wrapped (pf : Platform) (chat_id device_id : String) (update : Value) (from_id : String)
    (envelope : Value) : Type 0 where
  pub text : String
  pub id : Value
  pub has_text : read_update pf update ≡ ok (str text, id)
  pub in_chat : str_eq (to_str pf.py id) chat_id ≡ true
  pub wrapper : Fields
  pub loaded : pf.loads text ≡ some (obj wrapper)
  pub versioned : is_one (get (to_dict wrapper) "hl" null) ≡ true
  pub addressed : is_string device_id (get (to_dict wrapper) "to" null) ≡ true
  pub sender : to_str pf.py (get (to_dict wrapper) "from" (str "")) ≡ from_id
  pub enveloped : get (to_dict wrapper) "envelope" null ≡ envelope

-- A message from an approved peer, in the envelope of the update, which was accepted for the key
-- of that peer.
pub record Signed (pf : Platform) (chat_id device_id : String) (device_mgr : Option (Dict Peer))
    (caches : Dict NonceCache) (update : Value) (now tick : ℕ) (m : Message) : Type 0 where
  pub from_id : String
  pub fields : Fields
  pub wrapped : Wrapped pf chat_id device_id update from_id (obj fields)
  pub peer : Peer
  pub known : lookup_peer device_mgr from_id ≡ some peer
  pub approved : is_true peer.approved ≡ true
  pub payload : List ℕ
  pub accepted :
      Accepted pf.py pf.crypto
        (to_dict fields)
        peer.verify_key
        (or_new (Dict.lookup from_id caches))
        now
        tick
        payload
  pub content : Fields
  pub parsed : pf.loads_bytes payload ≡ ok (some (obj content))
  pub message :
      m
      ≡ Dict.insert "transport"
          (str "telegram")
          (Dict.insert "from_device" (str from_id) (to_dict content))

-- A decision of the chat about a device other than this one.
pub record Decision (device_id : String) (m : Message) : Type 0 where
  pub id : String
  pub choice : Bool
  pub well_formed : is_device_id id ≡ true
  pub other : str_eq id device_id ≡ false
  pub message : m ≡ admin_approval id choice

abbrev pub Trusted : Platform → Telegram → Value → ℕ → ℕ → Message → Type 0
Trusted pf t update now tick m =
    (m ≡ status_request)
    ⊎ (Decision t.device_id m
        ⊎ Signed pf t.chat_id t.device_id t.device_mgr t.peer_nonce_caches update now tick m)

-- At most one message is passed on, and it is trusted.
abbrev pub Adds : Platform → Telegram → Value → ℕ → ℕ → List Effect → Type 0
Adds pf t update now tick effects =
    (messages effects ≡ messages t.effects)
    ⊎ ((m : Message) × (messages effects ≡ messages t.effects ++ m ∷ [])
        × Trusted pf t update now tick m)

messages-dispatched :
    (effects : List Effect) (m : Message)
    → messages (effects ++ dispatched m ∷ []) ≡ messages effects ++ m ∷ []
messages-dispatched [] m = refl
messages-dispatched (dispatched x ∷ effects) m = ap (λ l. x ∷ l) (messages-dispatched effects m)
messages-dispatched (replied r ∷ effects) m = messages-dispatched effects m

messages-replied :
    (effects : List Effect) (r : Reply) → messages (effects ++ replied r ∷ []) ≡ messages effects
messages-replied [] r = refl
messages-replied (dispatched x ∷ effects) r = ap (λ l. x ∷ l) (messages-replied effects r)
messages-replied (replied x ∷ effects) r = messages-replied effects r

module _ (pf : Platform) (t : Telegram) (update : Value) (now tick : ℕ) where
  pub pass_on-Adds :
      (s : Telegram) (m : Message)
      → s.effects ≡ t.effects
      → Trusted pf t update now tick m
      → Adds pf t update now tick (pass_on s m).effects
  pass_on-Adds s m same trusted = elim (Bool-cases s.receives) [
    | inl set ↦ rw (set, same) (inr (m, messages-dispatched t.effects m, trusted))
    | inr unset ↦ rw (unset, same) (inl refl)
  ]

  reply-Adds :
      (s : Telegram) (r : Reply)
      → Adds pf t update now tick s.effects
      → Adds pf t update now tick (perform s (replied r)).effects
  reply-Adds s r (inl e) = inl (messages-replied s.effects r ∙ e)
  reply-Adds s r (inr (m, e, trusted)) = inr (m, messages-replied s.effects r ∙ e, trusted)

  decide-Adds :
      (s : Telegram) (id : String) (approved : Bool)
      → s.effects ≡ t.effects
      → is_device_id id ≡ true
      → str_eq id t.device_id ≡ false
      → Adds pf t update now tick (decide s id approved).1.effects
  decide-Adds s id approved same form other =
      reply-Adds (pass_on s (admin_approval id approved)) _ (
        pass_on-Adds s (admin_approval id approved) same (
          inr (
            inl (record {
              id = id;
              choice = approved;
              well_formed = form;
              other = other;
              message = refl;
            }))))

  pub quiet : Adds pf t update now tick t.effects
  quiet = inl refl

  check_pending-Adds :
      (device_mgr : Option (Dict Peer)) (id : String) (approved : Bool)
      → is_device_id id ≡ true
      → str_eq id t.device_id ≡ false
      → Adds pf t update now tick (check_pending device_mgr t id approved).1.effects
  unfolding check_pending
  check_pending-Adds none id approved form other = decide-Adds t id approved refl form other
  check_pending-Adds (some peers) id approved form other =
      elim (Option-cases (Dict.lookup id peers)) [
        | inl missing ↦ rw (missing, check_pending) (reply-Adds t _ quiet)
        | inr (peer, found) ↦ elim (Bool-cases (is_true peer.approved && approved)) [
          | inl already ↦ rw (found, already, check_pending) (reply-Adds t _ quiet)
          | inr fresh ↦ rw (found, fresh, check_pending) (decide-Adds t id approved refl form other)
        ]
      ]

  handle_approve-Adds :
      (device_id : String) (approved : Bool)
      → Adds pf t update now tick (handle_approve pf t device_id approved).1.effects
  unfolding handle_approve
  handle_approve-Adds device_id approved =
      let id = pf.upper (strip pf.is_space device_id) in
      elim (Bool-cases (is_device_id id)) [
        | inr bad ↦ rw (bad, handle_approve) (reply-Adds t _ quiet)
        | inl form ↦ elim (Bool-cases (str_eq id t.device_id)) [
          | inl own ↦ rw (form, own, handle_approve) (reply-Adds t _ quiet)
          | inr other ↦
              rw (form, other, handle_approve)
                (check_pending-Adds t.device_mgr id approved form other)
        ]
      ]

  pub handle_command-Adds :
      (text : String) (approved : Bool)
      → Adds pf t update now tick (handle_command pf t text approved).1.effects
  unfolding handle_command
  handle_command-Adds text approved = elim (Option-cases (second_part pf.is_space text)) [
    | inl nothing ↦ rw (nothing, handle_command) quiet
    | inr (id, q) ↦ rw (q, handle_command) (handle_approve-Adds (strip pf.is_space id) approved)
  ]
