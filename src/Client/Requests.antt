-- ===== src/Client/Requests.antt =====
-- What becomes of the requests of homelink/cli/client.py.
use homelink.Common.{
  ℕ, String, ◌≡◌, refl, ap, inl, inr, true, false, not, ◌&&◌, ◌||◌, none, some, List, if◌then◌else◌,
  Bool-cases,
}
use homelink.Common.Text.{truthy}
use homelink.Common.Exc.{Result, ok, raise, transport_error, attribute_error, connection_error}
use homelink.Common.Dict
use homelink.Common.Json.{str, Message, is_true}
use homelink.Telegram.Sending
use homelink.Telegram.Sending.{Sender, Encoder}
use homelink.Config.{HomeLinkConfig, is_valid}
use homelink.Client.{
  no_transport, get_transport, request_over, send_request, request_with, download_with,
  download_file,
}

module _ (enc : Encoder) where
  send-keyless :
      (t : Sender) (target : String) (m : Message) (now : ℕ) (nonce : String)
      (posted : Result Message)
      → t.signing_key ≡ none
      → (Sending.send enc t target m now nonce posted).0 ≡ raise transport_error
  unfolding Sending.send
  send-keyless t target m now nonce posted keyless = elim (Bool-cases t.available) [
    | inl up ↦ rw (up, Sending.send, keyless) refl
    | inr down ↦ rw (down, Sending.send) refl
  ]

  start-signing_key :
      (t : Sender) (answer : Result Message) → (Sending.start t answer).signing_key ≡ t.signing_key
  unfolding Sending.start
  start-signing_key t answer = elim (Bool-cases (not (truthy t.token) || not (truthy t.chat_id))) [
    | inl blank ↦ rw (blank, Sending.start) refl
    | inr set ↦ rw (set, Sending.start) refl
  ]

  request_over-keyless :
      (t : Sender) (target : String) (m : Message) (now : ℕ) (nonce : String)
      (posted : Result Message) (arrivals : List Message)
      → t.signing_key ≡ none
      → request_over enc t target m now nonce posted arrivals ≡ raise transport_error
  unfolding request_over
  request_over-keyless t target m now nonce posted arrivals keyless =
      rw (send-keyless t target m now nonce posted keyless, request_over) refl

  get_transport-off :
      (cfg : HomeLinkConfig) (started : Result Message)
      → (is_true cfg.telegram.enabled && is_valid cfg.telegram) ≡ false
      → get_transport enc cfg started ≡ none
  unfolding get_transport
  get_transport-off cfg started off = rw (off, get_transport) refl

  get_transport-on :
      (cfg : HomeLinkConfig) (started : Result Message)
      → (is_true cfg.telegram.enabled && is_valid cfg.telegram) ≡ true
      → (t : Sender) × (get_transport enc cfg started ≡ some t) × (t.signing_key ≡ none)
  unfolding get_transport
  get_transport-on cfg started on = rw (on, get_transport) (_, refl, start-signing_key _ started)

  module _ (cfg : HomeLinkConfig) (target : String) (m : Message) (now : ℕ) (nonce : String)
      (started posted : Result Message) (arrivals : List Message) where
    unanswered-on :
        (is_true cfg.telegram.enabled && is_valid cfg.telegram) ≡ true
        → (send_request enc (ok cfg) target m now nonce started posted arrivals
            ≡ raise transport_error)
          × (download_file enc (ok cfg) started ≡ raise attribute_error)
    unfolding send_request request_with download_file download_with
    unanswered-on on =
        let (t, found, keyless) = get_transport-on cfg started on in
        (
          rw (found, request_with)
              (request_over-keyless t target (Dict.insert "from_device" (str cfg.device_id) m) now
                nonce posted arrivals keyless),
          ap (download_with enc) found,
        )

    unanswered-off :
        (is_true cfg.telegram.enabled && is_valid cfg.telegram) ≡ false
        → (send_request enc (ok cfg) target m now nonce started posted arrivals ≡ ok no_transport)
          × (download_file enc (ok cfg) started ≡ raise connection_error)
    unfolding send_request request_with download_file download_with
    unanswered-off off =
        let missing = get_transport-off cfg started off in
        (rw (missing, request_with) refl, ap (download_with enc) missing)

  -- No request is answered, and no file is downloaded, whatever the bot API and other devices
  -- say: where Telegram is configured, `send_request` raises TransportError, since the transport
  -- has no signing key, and `download_file` raises AttributeError; otherwise `send_request`
  -- reports that there is no transport and `download_file` raises ConnectionError.
  pub send_request-unanswered :
      (cfg : HomeLinkConfig) (target : String) (m : Message) (now : ℕ) (nonce : String)
      (started posted : Result Message) (arrivals : List Message)
      → let configured = is_true cfg.telegram.enabled && is_valid cfg.telegram in
        (send_request enc (ok cfg) target m now nonce started posted arrivals
          ≡ (if configured then raise transport_error else ok no_transport))
        × (download_file enc (ok cfg) started
            ≡ raise (if configured then attribute_error else connection_error))
  send_request-unanswered cfg target m now nonce started posted arrivals =
      elim (Bool-cases (is_true cfg.telegram.enabled && is_valid cfg.telegram)) [
        | inl on ↦ rw on (unanswered-on cfg target m now nonce started posted arrivals on)
        | inr off ↦ rw off (unanswered-off cfg target m now nonce started posted arrivals off)
      ]
