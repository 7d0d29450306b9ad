-- ===== src/Files/Transfer/Concurrent.antt =====
-- The number of active sessions, of homelink/files/transfer.py.
use homelink.Files.Transfer.{FileTransfer, Platform, active_count, max_concurrent_recv}
use homelink.Files.Transfer.Chunks.{
  find_chunk, fail_session, store_chunk, take_chunk, handle_chunk, finish, handle_complete, is_text,
  try_write, sha256_file, find_complete,
}
use homelink.Files.Transfer.Receive.{Event, offered, chunk, completed, react, receive}
use homelink.Common.Dict
use homelink.Common.Dict.{Dict}
use homelink.Files.Protocol.{
  TransferSession, FileChunk, failed, complete, is_active, chunk-from_dict, chunk_size,
}
use homelink.Common.{
  ℕ, ◌+◌, ◌*◌, ◌≤◌, String, ◌≡◌, inl, inr, true, not, Option, some, List, [], ◌∷◌, arith, str_eq,
  Bool-cases, Option-cases,
}
use homelink.Common.Int.{pos, negsuc, ltb_ℤ}
use homelink.Common.Exc.{Result-cases}
use homelink.Common.Json.{Value, str, Message, get, as_number}
use homelink.Files.Disk.{is_symlink}
use homelink.Files.Transfer.Admitted.{handle_offer-le}

-- A session whose place another one takes that is active only if it was.
insert-known :
    (tid : String) (x session : TransferSession) (d : Dict TransferSession)
    → Dict.lookup tid d ≡ some session
    → (is_active x.state ≡ true → is_active session.state ≡ true)
    → active_count (Dict.insert tid x d) ≤ active_count d
unfolding Dict.insert Dict.lookup active_count
insert-known tid x session [] known h = cc
insert-known tid x session ((j, w) ∷ d) known h = elim (Bool-cases (str_eq j tid)) [
  | inl same ↦
      let here : some w ≡ some session = rw same at known in
      elim (Bool-cases (is_active x.state)) [
        | inl runs ↦
            let before : is_active w.state ≡ true = cc (h runs) in
            rw (same, runs, before) (omega arith)
        | inr idle ↦ rw (same, idle) (omega arith)
      ]
  | inr other ↦
      let later : Dict.lookup tid d ≡ some session = rw other at known in
      let rest = insert-known tid x session d later h in rw other (omega arith)
]

module _ (pf : Platform) where
  failed-le :
      (s : FileTransfer) (tid : String) (session : TransferSession)
      → Dict.lookup tid s.sessions ≡ some session
      → active_count (Dict.insert tid (record session { state = failed }) s.sessions)
        ≤ active_count s.sessions
  failed-le s tid session known =
      insert-known tid (record session { state = failed }) session s.sessions known (λ runs. cc)

  store_chunk-le :
      (s : FileTransfer) (tid : String) (session : TransferSession) (k : FileChunk) (index : ℕ)
      (io_error : Option String)
      → Dict.lookup tid s.sessions ≡ some session
      → active_count (store_chunk pf s tid session k index io_error).1.sessions
        ≤ active_count s.sessions
  unfolding store_chunk fail_session
  store_chunk-le s tid session k index io_error known =
      let node = s.disk session.path in
      elim (Bool-cases (not (is_text (pf.codec.sha256 k.content) k.chunk_sha256))) [
        | inl bad ↦ rw (bad, store_chunk) (failed-le s tid session known)
        | inr good ↦ elim (Bool-cases (is_symlink node)) [
          | inl linked ↦ rw (good, linked, store_chunk) (failed-le s tid session known)
          | inr plain ↦
              elim (Option-cases (try_write pf node (index * chunk_size) k.content io_error)) [
                | inl error ↦ rw (good, plain, error, store_chunk) (failed-le s tid session known)
                | inr (node', written) ↦
                    rw (good, plain, written, store_chunk)
                      (insert-known tid
                        (record session { received_chunks = session.received_chunks + 1 }) session
                        s.sessions known (λ runs. runs))
              ]
        ]
      ]

  take_chunk-le :
      (s : FileTransfer) (tid : String) (session : TransferSession) (k : FileChunk)
      (io_error : Option String)
      → Dict.lookup tid s.sessions ≡ some session
      → active_count (take_chunk pf s tid session k io_error).1.sessions ≤ active_count s.sessions
  unfolding take_chunk fail_session
  take_chunk-le s tid session k io_error known = elim (Result-cases (as_number k.index)) [
    | inr (e, q) ↦ rw (q, take_chunk) (omega arith)
    | inl (negsuc n, q) ↦ rw (q, take_chunk) (failed-le s tid session known)
    | inl (pos index, q) ↦ elim (Bool-cases (ltb_ℤ (pos index) session.total_chunks)) [
      | inl fits ↦ rw (q, fits, take_chunk) (store_chunk-le s tid session k index io_error known)
      | inr beyond ↦ rw (q, beyond, take_chunk) (failed-le s tid session known)
    ]
  ]

  finish-le :
      (s : FileTransfer) (tid : String) (session : TransferSession) (now : ℕ)
      → Dict.lookup tid s.sessions ≡ some session
      → active_count (finish pf s tid session now).1.sessions ≤ active_count s.sessions
  unfolding finish
  finish-le s tid session now known =
      let node = s.disk session.path in
      elim (Bool-cases (is_symlink node)) [
        | inl linked ↦ rw (linked, finish) (failed-le s tid session known)
        | inr plain ↦ elim (Result-cases (sha256_file pf node)) [
          | inr (e, q) ↦ rw (plain, q, finish) (omega arith)
          | inl (sha, q) ↦ elim (Bool-cases (str_eq sha session.sha256)) [
            | inl same ↦
                rw (plain, q, same, finish)
                  (insert-known tid (record session { state = complete; completed_at = some now })
                    session s.sessions known (λ runs. cc))
            | inr differ ↦ rw (plain, q, differ, finish) (failed-le s tid session known)
          ]
        ]
      ]

  find_chunk-le :
      (s : FileTransfer) (v : Value) (k : FileChunk) (io_error : Option String)
      → active_count (find_chunk pf s v k io_error).1.sessions ≤ active_count s.sessions
  unfolding find_chunk
  find_chunk-le s (str tid) k io_error = elim (Option-cases (Dict.lookup tid s.sessions)) [
    | inl unknown ↦ rw (unknown, find_chunk) (omega arith)
    | inr (session, known) ↦ rw (known, find_chunk) (take_chunk-le s tid session k io_error known)
  ]
  find_chunk-le s _ k io_error = omega arith

  handle_chunk-le :
      (s : FileTransfer) (m : Message) (io_error : Option String)
      → active_count (handle_chunk pf s m io_error).1.sessions ≤ active_count s.sessions
  unfolding handle_chunk
  handle_chunk-le s m io_error = elim (Result-cases (chunk-from_dict pf.codec m)) [
    | inr (e, q) ↦ rw (q, handle_chunk) (omega arith)
    | inl (k, q) ↦ rw (q, handle_chunk) (find_chunk-le s k.transfer_id k io_error)
  ]

  find_complete-le :
      (s : FileTransfer) (v : Value) (now : ℕ)
      → active_count (find_complete pf s v now).1.sessions ≤ active_count s.sessions
  unfolding find_complete
  find_complete-le s (str tid) now = elim (Option-cases (Dict.lookup tid s.sessions)) [
    | inl unknown ↦ rw (unknown, find_complete) (omega arith)
    | inr (session, known) ↦ rw (known, find_complete) (finish-le s tid session now known)
  ]
  find_complete-le s _ now = omega arith

  react-le :
      (s : FileTransfer) (event : Event)
      → active_count s.sessions ≤ max_concurrent_recv
      → active_count (react pf s event).1.sessions ≤ max_concurrent_recv
  unfolding handle_complete
  react-le s (offered m fault now) h = handle_offer-le pf s m fault now h
  react-le s (chunk m io_error) h = let fewer = handle_chunk-le s m io_error in omega arith
  react-le s (completed m now) h =
      let fewer = find_complete-le s (get m "transfer_id" (str "")) now in omega arith

-- A receiver with at most four active sessions has at most four active sessions after any offers,
-- chunks and completions, in whatever order and with whatever errors of the system.
pub receive-active_count-le :
    (pf : Platform) (s : FileTransfer) (events : List Event)
    → active_count s.sessions ≤ max_concurrent_recv
    → active_count (receive pf s events).sessions ≤ max_concurrent_recv
unfolding receive
receive-active_count-le pf s [] h = h
receive-active_count-le pf s (event ∷ events) h =
    receive-active_count-le pf (react pf s event).1 events (react-le pf s event h)
