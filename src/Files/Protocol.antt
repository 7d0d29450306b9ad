-- ===== src/Files/Protocol.antt =====
-- homelink/files/protocol.py: chunks, sessions and messages. SHA-256 and Base64 are parameters.
pub mod RoundTrip
use homelink.Common.{ℕ, ◌+◌, ◌-◌, ◌*◌, ◌/◌, max, String, Bool, true, false, Option, List, [], ◌∷◌}
use homelink.Common.Text.{Text}
use homelink.Common.Int.{ℤ, pos}
use homelink.Common.Exc.{Result, ok, ◌>>=◌}
use homelink.Common.Json.{Value, num, str, Message, item}

abbrev pub chunk_size : ℕ
chunk_size = 256 * 1024

pub data TransferState : Type 0 where
  pending offered active paused complete failed aborted : TransferState

abbrev pub is_active : TransferState → Bool
is_active active = true
is_active _ = false

abbrev pub is_failed : TransferState → Bool
is_failed failed = true
is_failed _ = false

-- The libraries behind the protocol.
pub record Codec : Type 0 where
  -- `hashlib.sha256(b).hexdigest()`
  pub sha256 : List ℕ → String
  -- `base64.b64encode(b).decode()`
  pub b64encode : List ℕ → String
  -- `base64.b64decode(v)`, which raises for text that is no Base64 and for what is no text.
  pub b64decode : Value → Result (List ℕ)

pub record FileChunk : Type 0 where
  pub transfer_id : Value
  pub index : Value
  pub total : Value
  pub content : List ℕ
  pub chunk_sha256 : Value

-- `TransferSession`; the path is that of the file on this side.
pub record TransferSession : Type 0 where
  pub transfer_id : String
  pub state : TransferState
  pub path : Text
  pub remote_path : String
  pub size : ℤ
  pub sha256 : String
  pub total_chunks : ℤ
  pub sent_chunks : ℕ
  pub received_chunks : ℕ
  pub resume_offset : ℕ
  pub started_at : ℕ
  pub completed_at : Option ℕ

module _ (codec : Codec) where
  unfoldable pub chunk-to_dict : FileChunk → Message
  chunk-to_dict c =
      ("type", str "file_chunk")
      ∷ ("transfer_id", c.transfer_id)
      ∷ ("index", c.index)
      ∷ ("total", c.total)
      ∷ ("data", str (codec.b64encode c.content))
      ∷ ("chunk_sha256", c.chunk_sha256)
      ∷ []

  unfoldable pub chunk-from_dict : Message → Result FileChunk
  unfolding item
  chunk-from_dict d = do
    encoded ← item d "data"
    content ← codec.b64decode encoded
    transfer_id ← item d "transfer_id"
    index ← item d "index"
    total ← item d "total"
    chunk_sha256 ← item d "chunk_sha256"
    ok (record {
      transfer_id = transfer_id;
      index = index;
      total = total;
      content = content;
      chunk_sha256 = chunk_sha256;
    })

-- `_count_chunks`
unfoldable pub count_chunks : ℕ → ℕ
count_chunks size = max 1 ((size + chunk_size - 1) / chunk_size)

-- `TransferProtocol.offer`, from the name and the size of the file.
abbrev pub offer : String → ℕ → String → String → ℕ → Message
offer name size tid sha resume_from =
    ("type", str "file_offer")
    ∷ ("transfer_id", str tid)
    ∷ ("name", str name)
    ∷ ("size", num (pos size))
    ∷ ("sha256", str sha)
    ∷ ("total_chunks", num (pos (count_chunks size)))
    ∷ ("chunk_size", num (pos chunk_size))
    ∷ ("resume_from", num (pos resume_from))
    ∷ []

abbrev pub accept : String → ℕ → Message
accept tid resume_offset =
    ("type", str "file_accept")
    ∷ ("transfer_id", str tid)
    ∷ ("resume_offset", num (pos resume_offset))
    ∷ []

abbrev pub reject : String → String → Message
reject tid reason =
    ("type", str "file_reject") ∷ ("transfer_id", str tid) ∷ ("reason", str reason) ∷ []

abbrev pub ack : String → Value → Message
ack tid index = ("type", str "file_ack") ∷ ("transfer_id", str tid) ∷ ("index", index) ∷ []

abbrev pub complete_message : String → Message
complete_message tid = ("type", str "file_complete") ∷ ("transfer_id", str tid) ∷ []

abbrev pub verify_ok : String → Message
verify_ok tid = ("type", str "file_verify_ok") ∷ ("transfer_id", str tid) ∷ []

abbrev pub verify_fail : String → String → String → Message
verify_fail tid expected got =
    ("type", str "file_verify_fail")
    ∷ ("transfer_id", str tid)
    ∷ ("expected", str expected)
    ∷ ("got", str got)
    ∷ []

abbrev pub abort : String → String → Message
abort tid reason =
    ("type", str "file_abort") ∷ ("transfer_id", str tid) ∷ ("reason", str reason) ∷ []
