-- ===== src/Files/Send.antt =====
-- homelink/files/transfer.py, the sending side. The answers that `_wait_for_accept` sees while it
-- polls, and the identifier and time of a new session, are arguments.
pub mod Rebuild
use homelink.Common.{
  ℕ, zero, suc, ◌+◌, ◌-◌, ◌*◌, String, Bool, true, false, Option, none, some, List, [], ◌∷◌,
  if◌then◌else◌, length, take, drop,
}
use homelink.Common.Text.{Text}
use homelink.Common.Int.{pos, ltb_ℤ}
use homelink.Common.Exc.{Result, ok, raise, file_not_found, value_error}
use homelink.Common.Json.{num, str}
use homelink.Files.Protocol.{
  Codec, TransferSession, TransferState, offered, active, failed, FileChunk, chunk-to_dict,
  chunk_size, count_chunks, offer, complete_message,
}
use homelink.Files.Disk.{Node, regular}
use homelink.Files.Transfer.{FileTransfer, send, put_session}

-- The content of a file, if the path names one.
abbrev pub content_of : Node → Option (List ℕ)
content_of (regular content) = some content
content_of _ = none

-- `_wait_for_accept`: the state of the session at each poll before the deadline.
unfoldable pub wait_for_accept : List (Option TransferState) → Bool
wait_for_accept [] = false
wait_for_accept (some active ∷ polls) = true
wait_for_accept (some failed ∷ polls) = false
wait_for_accept (_ ∷ polls) = wait_for_accept polls

-- What `_stream_chunks` reads: the next pieces of the file, from an index on.
unfoldable pub pieces : ℕ → List ℕ → ℕ → ℕ → List (ℕ × List ℕ)
pieces size content index zero = []
pieces size content index (suc n) =
    (index, take size (drop (index * size) content)) ∷ pieces size content (index + 1) n

abbrev pub chunk_of : Codec → TransferSession → ℕ × List ℕ → FileChunk
chunk_of codec session (index, content) = record {
  transfer_id = str session.transfer_id;
  index = num (pos index);
  total = num session.total_chunks;
  content = content;
  chunk_sha256 = str (codec.sha256 content);
}

-- Each piece is sent, and counted.
unfoldable pub send_pieces :
    Codec → FileTransfer → TransferSession → List (ℕ × List ℕ) → FileTransfer
send_pieces codec s session [] = s
send_pieces codec s session (piece ∷ rest) =
    let session' = record session { sent_chunks = session.sent_chunks + 1 } in
    send_pieces codec
      (put_session (send s (chunk-to_dict codec (chunk_of codec session piece))) session.transfer_id
        session')
      session' rest

-- `_stream_chunks`
unfoldable pub stream_chunks : Codec → FileTransfer → TransferSession → List ℕ → ℕ → FileTransfer
unfolding pieces send_pieces
stream_chunks codec s session content total =
    let start = session.resume_offset in
    send (send_pieces codec s session (pieces chunk_size content start (total - start)))
      (complete_message session.transfer_id)

-- The session that `send_file` opens.
abbrev pub new_session : Codec → String → Text → String → List ℕ → ℕ → ℕ → TransferSession
new_session codec tid path remote_path content resume_from now = record {
  transfer_id = tid;
  state = offered;
  path = path;
  remote_path = remote_path;
  size = pos (length content);
  sha256 = codec.sha256 content;
  total_chunks = pos (count_chunks (length content));
  sent_chunks = 0;
  received_chunks = 0;
  resume_offset = resume_from;
  started_at = now;
  completed_at = none;
}

-- `send_file` of a path that is resolved; `name` is its last part.
unfoldable pub send_file :
    Codec
    → FileTransfer
    → Text
    → String
    → String
    → ℕ
    → String
    → ℕ
    → List (Option TransferState)
    → Result String × FileTransfer
unfolding wait_for_accept stream_chunks count_chunks
send_file codec s path name remote_path resume_from tid now polls =
    elim (content_of (s.disk path)) [
      | none ↦ (raise file_not_found, s)
      | some content ↦
          if ltb_ℤ s.max_size (pos (length content))
          then (raise value_error, s)
          else let session = new_session codec tid path remote_path content resume_from now in
            let s' =
              send (put_session s tid session)
                (offer name (length content) tid (codec.sha256 content) resume_from) in
            if wait_for_accept polls
            then (
              ok tid,
              stream_chunks codec (put_session s' tid (record session { state = active }))
                  (record session { state = active }) content (count_chunks (length content)),
            )
            else (ok tid, put_session s' tid (record session { state = failed }))
    ]
