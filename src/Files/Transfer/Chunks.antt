-- ===== src/Files/Transfer/Chunks.antt =====
-- Chunks and the completion of a transfer, of homelink/files/transfer.py.
use homelink.Common.Json.{as_number, Value, str, arr, obj, Message, get}
use homelink.Common.Dict.{Dict}
use homelink.Common.Dict
use homelink.Common.{
  ℕ, ◌+◌, ◌*◌, String, ◌<>◌, Bool, false, not, Option, none, some, List, str_eq, if◌then◌else◌,
}
use homelink.Common.Int.{pos, negsuc, ltb_ℤ}
use homelink.Common.Exc.{Result, ok, raise, type_error, file_not_found, os_error}
use homelink.Files.Protocol.{
  TransferSession, failed, complete, FileChunk, chunk-from_dict, chunk_size, ack, abort, verify_ok,
  verify_fail,
}
use homelink.Files.Disk.{Node, absent, regular, write, is_symlink, write_node}
use homelink.Files.Transfer.{FileTransfer, Platform, Outcome, send, put_session}

abbrev pub is_text : String → Value → Bool
is_text s (str t) = str_eq s t
is_text s v = false

module _ (pf : Platform) where
  -- An abort is sent, and the session has failed.
  unfoldable pub fail_session : FileTransfer → String → TransferSession → String → Outcome
  fail_session s tid session reason =
      (ok tt, put_session (send s (abort tid reason)) tid (record session { state = failed }))

  -- The write at the chunk's offset; an error of the operating system may stand in its way, and
  -- is taken to come before anything is changed. A write takes all the bytes.
  unfoldable pub try_write : Node → ℕ → List ℕ → Option String → Option Node
  try_write node offset content (some text) = none
  try_write node offset content none = write_node node offset content

  abbrev pub write_text : Node → Option String → String
  write_text node (some text) = text
  write_text node none = pf.os_text node

  -- The checks of a chunk whose session is known, in their order, and the write.
  unfoldable pub store_chunk :
      FileTransfer → String → TransferSession → FileChunk → ℕ → Option String → Outcome
  unfolding fail_session
  store_chunk s tid session c index io_error =
      let node = s.disk session.path in
      if not (is_text (pf.codec.sha256 c.content) c.chunk_sha256)
      then fail_session s tid session "chunk checksum failed"
      else if is_symlink node
      then fail_session s tid session "symlink at destination"
      else elim (try_write node (index * chunk_size) c.content io_error) [
        | none ↦ fail_session s tid session ("write error: " <> write_text node io_error)
        | some node' ↦
            let session' = record session { received_chunks = session.received_chunks + 1 } in
            (
              ok tt,
              send (put_session (record s { disk = write s.disk session.path node' }) tid session')
                  (ack tid c.index),
            )
      ]

  unfoldable pub take_chunk :
      FileTransfer → String → TransferSession → FileChunk → Option String → Outcome
  unfolding store_chunk
  take_chunk s tid session c io_error = elim (as_number c.index) [
    | raise e ↦ (raise e, s)
    | ok (negsuc n) ↦ fail_session s tid session "chunk index out of bounds"
    | ok (pos index) ↦
        if ltb_ℤ (pos index) session.total_chunks
        then store_chunk s tid session c index io_error
        else fail_session s tid session "chunk index out of bounds"
  ]

  -- `handle_chunk`, from the look up of the session on.
  unfoldable pub find_chunk : FileTransfer → Value → FileChunk → Option String → Outcome
  unfolding take_chunk
  find_chunk s (str tid) c io_error = elim (Dict.lookup tid s.sessions) [
    | none ↦ (ok tt, s)
    | some session ↦ take_chunk s tid session c io_error
  ]
  find_chunk s _ c io_error = (raise type_error, s)

  unfoldable pub handle_chunk : FileTransfer → Message → Option String → Outcome
  unfolding find_chunk
  handle_chunk s m io_error = elim (chunk-from_dict pf.codec m) [
    | raise e ↦ (raise e, s)
    | ok c ↦ find_chunk s c.transfer_id c io_error
  ]

  -- `sha256_file(dest)`
  unfoldable pub sha256_file : Node → Result String
  sha256_file (regular content) = ok (pf.codec.sha256 content)
  sha256_file absent = raise file_not_found
  sha256_file _ = raise os_error

  -- `handle_complete` of a known session.
  unfoldable pub finish : FileTransfer → String → TransferSession → ℕ → Outcome
  finish s tid session now =
      let node = s.disk session.path in
      if is_symlink node
      then (ok tt, put_session s tid (record session { state = failed }))
      else elim (sha256_file node) [
        | raise e ↦ (raise e, s)
        | ok sha ↦
            if str_eq sha session.sha256
            then (
              ok tt,
              send
                  (put_session s tid (record session { state = complete; completed_at = some now }))
                  (verify_ok tid),
            )
            else (
              ok tt,
              put_session
                  (send (record s { disk = write s.disk session.path absent })
                    (verify_fail tid session.sha256 sha))
                  tid (record session { state = failed }),
            )
      ]

  -- `handle_complete`, from the look up of the session on.
  unfoldable pub find_complete : FileTransfer → Value → ℕ → Outcome
  unfolding finish
  find_complete s (str tid) now = elim (Dict.lookup tid s.sessions) [
    | none ↦ (ok tt, s)
    | some session ↦ finish s tid session now
  ]
  find_complete s (arr parts) now = (raise type_error, s)
  find_complete s (obj pairs) now = (raise type_error, s)
  find_complete s _ now = (ok tt, s)

  unfoldable pub handle_complete : FileTransfer → Message → ℕ → Outcome
  unfolding find_complete
  handle_complete s m now = find_complete s (get m "transfer_id" (str "")) now
