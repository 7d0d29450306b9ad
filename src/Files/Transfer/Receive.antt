-- ===== src/Files/Transfer/Receive.antt =====
-- Any sequence of offers, chunks and completions, of homelink/files/transfer.py.
use homelink.Files.Transfer.{FileTransfer, Platform, Fault, Outcome, send, admit, handle_offer}
use homelink.Files.Transfer.Chunks.{
  find_chunk, fail_session, store_chunk, take_chunk, handle_chunk, finish, handle_complete, is_text,
  try_write, sha256_file, find_complete,
}
use homelink.Common.Dict
use homelink.Common.{
  ℕ, ◌*◌, String, ◌≡◌, refl, inl, inr, Bool, true, false, not, Option, some, List, [], ◌∷◌, str_eq,
  if◌then◌else◌, Bool-cases, Option-cases,
}
use homelink.Common.Text.{Text, truthy}
use homelink.Common.Int.{pos, negsuc, ltb_ℤ}
use homelink.Common.Exc.{ok, Result-cases}
use homelink.Common.Json.{Value, str, Message, get, to_str, key_of, as_number}
use homelink.RateLimiter
use homelink.Files.Protocol.{TransferSession, FileChunk, chunk-from_dict, chunk_size, reject}
use homelink.Files.Disk.{is_symlink}
use homelink.Files.SafeDest.Laws.{Below}
use homelink.Files.Transfer.Contained.{
  Contained, Safe, Safe-stay, insert-Contained, write-outside, admit-Safe,
}

-- A message that arrives, with the clock and the errors that its handling meets.
pub data Event : Type 0 where
  offered : Message → Fault → ℕ → Event
  chunk : Message → Option String → Event
  completed : Message → ℕ → Event

abbrev pub react : Platform → FileTransfer → Event → Outcome
react pf s (offered m fault now) = handle_offer pf s m fault now
react pf s (chunk m io_error) = handle_chunk pf s m io_error
react pf s (completed m now) = handle_complete pf s m now

-- An exception of a handler ends the handling of its message only.
unfoldable pub receive : Platform → FileTransfer → List Event → FileTransfer
receive pf s [] = s
receive pf s (e ∷ events) = receive pf (react pf s e).1 events

module _ (pf : Platform) (root : Text) where
  limited-Safe :
      (s : FileTransfer) (offers : RateLimiter.RateLimiter) (allowed : Bool) (tid : String)
      (m : Message) (fault : Fault) (now : ℕ)
      → Contained root s
      → root ≡ pf.resolve s.downloads
      → let s' = record s { offers = offers } in
        Safe root s
          (if not allowed
            then (ok tt, send s' (reject tid "rate limit exceeded"))
            else admit pf s' tid m fault now).1
  limited-Safe s offers false tid m fault now c same = record {
    contained = c;
    outside = λ p h. refl;
    downloads_same = refl;
  }
  limited-Safe s offers true tid m fault now c same =
      let s' = record s { offers = offers } in
      let safe = admit-Safe root pf s' tid m fault now c same in
      record {
        contained = safe.contained;
        outside = safe.outside;
        downloads_same = safe.downloads_same;
      }

  handle_offer-Safe :
      (s : FileTransfer) (m : Message) (fault : Fault) (now : ℕ)
      → Contained root s
      → root ≡ pf.resolve s.downloads
      → Safe root s (handle_offer pf s m fault now).1
  unfolding handle_offer
  handle_offer-Safe s m fault now c same =
      let tid = to_str pf.py (get m "transfer_id" (str "")) in
      elim (Bool-cases (not (truthy tid))) [
        | inl nameless ↦ rw (nameless, handle_offer) (Safe-stay root s c)
        | inr named ↦ elim (Result-cases (key_of pf.py (get m "from_device" (str "unknown")))) [
          | inr (e, q) ↦ rw (named, q, handle_offer) (Safe-stay root s c)
          | inl (device, q) ↦
              let (allowed, offers) = RateLimiter.is_allowed s.offers device now in
              rw (named, q, handle_offer) (limited-Safe s offers allowed tid m fault now c same)
        ]
      ]

  fail_session-Safe :
      (s : FileTransfer) (tid : String) (session : TransferSession) (reason : String)
      → Contained root s
      → Below root session.path
      → Safe root s (fail_session pf s tid session reason).1
  unfolding fail_session
  fail_session-Safe s tid session reason c below = record {
    contained = insert-Contained root s tid _ c below;
    outside = λ p h. refl;
    downloads_same = refl;
  }

  store_chunk-Safe :
      (s : FileTransfer) (tid : String) (session : TransferSession) (k : FileChunk) (index : ℕ)
      (io_error : Option String)
      → Contained root s
      → Below root session.path
      → Safe root s (store_chunk pf s tid session k index io_error).1
  unfolding store_chunk
  store_chunk-Safe s tid session k index io_error c below =
      let node = s.disk session.path in
      elim (Bool-cases (not (is_text (pf.codec.sha256 k.content) k.chunk_sha256))) [
        | inl bad ↦ rw (bad, store_chunk) (fail_session-Safe s tid session _ c below)
        | inr good ↦ elim (Bool-cases (is_symlink node)) [
          | inl linked ↦ rw (good, linked, store_chunk) (fail_session-Safe s tid session _ c below)
          | inr plain ↦
              elim (Option-cases (try_write pf node (index * chunk_size) k.content io_error)) [
                | inl error ↦
                    rw (good, plain, error, store_chunk) (fail_session-Safe s tid session _ c below)
                | inr (node', written) ↦
                    rw (good, plain, written, store_chunk)
                      (record {
                        contained = insert-Contained root s tid _ c below;
                        outside = λ p h. write-outside root s.disk session.path p node' below h;
                        downloads_same = refl;
                      })
              ]
        ]
      ]

  take_chunk-Safe :
      (s : FileTransfer) (tid : String) (session : TransferSession) (k : FileChunk)
      (io_error : Option String)
      → Contained root s
      → Below root session.path
      → Safe root s (take_chunk pf s tid session k io_error).1
  unfolding take_chunk
  take_chunk-Safe s tid session k io_error c below = elim (Result-cases (as_number k.index)) [
    | inr (e, q) ↦ rw (q, take_chunk) (Safe-stay root s c)
    | inl (negsuc n, q) ↦ rw (q, take_chunk) (fail_session-Safe s tid session _ c below)
    | inl (pos index, q) ↦ elim (Bool-cases (ltb_ℤ (pos index) session.total_chunks)) [
      | inl fits ↦
          rw (q, fits, take_chunk) (store_chunk-Safe s tid session k index io_error c below)
      | inr beyond ↦ rw (q, beyond, take_chunk) (fail_session-Safe s tid session _ c below)
    ]
  ]

  finish-Safe :
      (s : FileTransfer) (tid : String) (session : TransferSession) (now : ℕ)
      → Contained root s
      → Below root session.path
      → Safe root s (finish pf s tid session now).1
  unfolding finish
  finish-Safe s tid session now c below =
      let node = s.disk session.path in
      let kept =
        λ (x : TransferSession) (same : Below root x.path). insert-Contained root s tid x c same in
      elim (Bool-cases (is_symlink node)) [
        | inl linked ↦
            rw (linked, finish)
              (record { contained = kept _ below; outside = λ p h. refl; downloads_same = refl })
        | inr plain ↦ elim (Result-cases (sha256_file pf node)) [
          | inr (e, q) ↦ rw (plain, q, finish) (Safe-stay root s c)
          | inl (sha, q) ↦ elim (Bool-cases (str_eq sha session.sha256)) [
            | inl same ↦
                rw (plain, q, same, finish)
                  (record {
                    contained = kept _ below;
                    outside = λ p h. refl;
                    downloads_same = refl;
                  })
            | inr differ ↦
                rw (plain, q, differ, finish)
                  (record {
                    contained = kept _ below;
                    outside = λ p h. write-outside root s.disk session.path p _ below h;
                    downloads_same = refl;
                  })
          ]
        ]
      ]

  find_chunk-Safe :
      (s : FileTransfer) (v : Value) (k : FileChunk) (io_error : Option String)
      → Contained root s
      → Safe root s (find_chunk pf s v k io_error).1
  unfolding find_chunk
  find_chunk-Safe s (str tid) k io_error c = elim (Option-cases (Dict.lookup tid s.sessions)) [
    | inl unknown ↦ rw (unknown, find_chunk) (Safe-stay root s c)
    | inr (session, known) ↦
        rw (known, find_chunk) (take_chunk-Safe s tid session k io_error c (c tid session known))
  ]
  find_chunk-Safe s _ k io_error c = Safe-stay root s c

  handle_chunk-Safe :
      (s : FileTransfer) (m : Message) (io_error : Option String)
      → Contained root s
      → Safe root s (handle_chunk pf s m io_error).1
  unfolding handle_chunk
  handle_chunk-Safe s m io_error c = elim (Result-cases (chunk-from_dict pf.codec m)) [
    | inr (e, q) ↦ rw (q, handle_chunk) (Safe-stay root s c)
    | inl (k, q) ↦ rw (q, handle_chunk) (find_chunk-Safe s k.transfer_id k io_error c)
  ]

  find_complete-Safe :
      (s : FileTransfer) (v : Value) (now : ℕ)
      → Contained root s
      → Safe root s (find_complete pf s v now).1
  unfolding find_complete
  find_complete-Safe s (str tid) now c = elim (Option-cases (Dict.lookup tid s.sessions)) [
    | inl unknown ↦ rw (unknown, find_complete) (Safe-stay root s c)
    | inr (session, known) ↦
        rw (known, find_complete) (finish-Safe s tid session now c (c tid session known))
  ]
  find_complete-Safe s _ now c = Safe-stay root s c

  react-Safe :
      (s : FileTransfer) (event : Event)
      → Contained root s
      → root ≡ pf.resolve s.downloads
      → Safe root s (react pf s event).1
  unfolding handle_complete
  react-Safe s (offered m fault now) c same = handle_offer-Safe s m fault now c same
  react-Safe s (chunk m io_error) c same = handle_chunk-Safe s m io_error c
  react-Safe s (completed m now) c same = find_complete-Safe s (get m "transfer_id" (str "")) now c

  receive-Safe :
      (events : List Event) (s : FileTransfer)
      → Contained root s
      → root ≡ pf.resolve s.downloads
      → Safe root s (receive pf s events)
  unfolding receive
  receive-Safe [] s c same = Safe-stay root s c
  receive-Safe (event ∷ events) s c same =
      let s' = (react pf s event).1 in
      let step = react-Safe s event c same in
      let rest = receive-Safe events s' step.contained (rw step.downloads_same same) in
      record {
        contained = rest.contained;
        outside = λ p h. rw (rest.outside p h) (step.outside p h);
        downloads_same = rw rest.downloads_same step.downloads_same;
      }

-- A receiver that starts with no sessions, whatever offers, chunks and completions arrive in
-- whatever order and with whatever errors of the system, changes no file that is not in the
-- downloads directory.
pub receive-outside :
    (pf : Platform) (s : FileTransfer) (events : List Event) (p : Text)
    → s.sessions ≡ []
    → ¬ Below (pf.resolve s.downloads) p
    → (receive pf s events).disk p ≡ s.disk p
unfolding Dict.lookup
receive-outside pf s events p none_yet out =
    let c : Contained (pf.resolve s.downloads) s = λ tid session found.
      let nothing : Dict.lookup tid [] ≡ some session = rw none_yet at found in cc in
    (receive-Safe pf (pf.resolve s.downloads) events s c refl).outside p out
