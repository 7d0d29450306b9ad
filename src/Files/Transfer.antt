-- ===== src/Files/Transfer.antt =====
-- homelink/files/transfer.py, the receiving side. The times of the clock and the errors of the
-- operating system are arguments of each call; `await self._send(...)` adds to an outbox.
pub mod Admitted
pub mod Chunks
pub mod Concurrent
pub mod Contained
pub mod Receive
pub mod Verified
use homelink.Common.Json.{key_of, num, str, Message, Python, get, to_str, to_int}
use homelink.Common.Dict.{Dict}
use homelink.Common.Dict
use homelink.Common.{
  ℕ, ◌+◌, ◌*◌, ◌/◌, String, ◌<>◌, Bool, not, ◌&&◌, Option, none, some, List, [], ◌∷◌, ◌++◌, leb,
  ◌==◌, if◌then◌else◌, length,
}
use homelink.Common.Text.{Text, codes, truthy, all, elem}
use homelink.Common.Int.{ℤ, pos, negsuc, leb_ℤ}
use homelink.Common.Exc.{Result, ok, raise}
use homelink.RateLimiter
use homelink.RateLimiter.{RateLimiter}
use homelink.Files.Protocol.{Codec, TransferSession, active, is_active, chunk_size, accept, reject}
use homelink.Files.Disk.{Disk, Node, write, exists, is_symlink, stat_size, create_empty}
use homelink.Files.SafeDest.{PathError, dest, refused, safe_dest}

abbrev pub max_concurrent_recv : ℕ
max_concurrent_recv = 4

abbrev pub max_file_size_bytes : ℕ
max_file_size_bytes = 100 * 1024 * 1024 * 1024

abbrev pub max_chunk_index : ℕ
max_chunk_index = max_file_size_bytes / chunk_size + 2

pub record FileTransfer : Type 0 where
  pub device_id : String
  pub downloads : Text
  pub max_size : ℤ
  pub sessions : Dict TransferSession
  -- the shared `OFFER_LIMITER`
  pub offers : RateLimiter
  pub disk : Disk
  pub outbox : List (String × Message)

-- What the engine takes from the platform.
pub record Platform : Type 0 where
  pub py : Python
  pub codec : Codec
  -- `Path.resolve`
  pub resolve : Text → Text
  -- the text of the `ValueError` for a name
  pub explain : PathError → String → String
  -- the text of the `OSError` for what cannot be opened
  pub os_text : Node → String

-- An `OSError` while the file is made: before it exists, or when its mode is set.
pub data Fault : Type 0 where
  no_fault : Fault
  create_fault chmod_fault : String → Fault

abbrev pub Outcome : Type 0
Outcome = Result (Unit {0}) × FileTransfer

abbrev pub send : FileTransfer → Message → FileTransfer
send s m = record s { outbox = s.outbox ++ (s.device_id, m) ∷ [] }

abbrev pub put_session : FileTransfer → String → TransferSession → FileTransfer
put_session s tid session = record s { sessions = Dict.insert tid session s.sessions }

-- `sum(1 for s in self._sessions.values() if s.state == TransferState.ACTIVE)`
unfoldable pub active_count : Dict TransferSession → ℕ
active_count [] = 0
active_count ((tid, session) ∷ sessions) =
    (if is_active session.state then 1 else 0) + active_count sessions

unfoldable pub valid_sha256 : Text → Bool
valid_sha256 s = length s == 64 && all (λ c. elem c (codes "0123456789abcdef")) s

-- The file to be filled: made when nothing is there. `none` where that failed.
unfoldable pub made : Disk → Text → Fault → Option Disk
made disk target (create_fault text) = if exists (disk target) then some disk else none
made disk target fault =
    some (if exists (disk target) then disk else write disk target (create_empty (disk target)))

abbrev pub fault_text : Fault → String
fault_text no_fault = ""
fault_text (create_fault text) = text
fault_text (chmod_fault text) = text

-- Once the file is there, its mode is set, and the session is opened and accepted.
unfoldable pub accept_offer : FileTransfer → String → TransferSession → Fault → Outcome
accept_offer s tid session (chmod_fault text) =
    (ok tt, send s (reject tid ("cannot create file: " <> text)))
accept_offer s tid session _ =
    (ok tt, send (put_session s tid session) (accept tid session.resume_offset))

module _ (pf : Platform) where
  -- From the resume offset to the end of `handle_offer`.
  unfoldable pub open_session :
      FileTransfer → String → String → ℤ → String → ℤ → Text → Fault → ℕ → Outcome
  unfolding accept_offer
  open_session s tid name size sha total target fault now =
      let node = s.disk target in
      if exists node && is_symlink node
      then (ok tt, send s (reject tid "symlink at destination"))
      else let offset = if exists node then stat_size node / chunk_size else 0 in
        let session : TransferSession = record {
          transfer_id = tid;
          state = active;
          path = target;
          remote_path = name;
          size = size;
          sha256 = sha;
          total_chunks = total;
          sent_chunks = 0;
          received_chunks = 0;
          resume_offset = offset;
          started_at = now;
          completed_at = none;
        } in
        elim (made s.disk target fault) [
          | none ↦ (ok tt, send s (reject tid ("cannot create file: " <> fault_text fault)))
          | some disk ↦ accept_offer (record s { disk = disk }) tid session fault
        ]

  -- The checks of the hash and the name.
  unfoldable pub place_offer : FileTransfer → String → Message → ℤ → ℤ → Fault → ℕ → Outcome
  unfolding open_session
  place_offer s tid m size total fault now =
      let sha = to_str pf.py (get m "sha256" (str "")) in
      let name = to_str pf.py (get m "name" (str "")) in
      if not (valid_sha256 (codes sha))
      then (ok tt, send s (reject tid "invalid sha256"))
      else elim (safe_dest pf.resolve s.downloads (codes name)) [
        | refused e ↦ (ok tt, send s (reject tid ("invalid path: " <> pf.explain e name)))
        | dest target ↦ open_session s tid name size sha total target fault now
      ]

  -- The checks of the size and the number of chunks.
  unfoldable pub check_offer : FileTransfer → String → Message → Fault → ℕ → Outcome
  unfolding place_offer
  check_offer s tid m fault now = elim (to_int pf.py (get m "size" (num (negsuc 0)))) [
    | raise e ↦ (raise e, s)
    | ok size ↦
        if not (leb_ℤ (pos 0) size && leb_ℤ size s.max_size)
        then (ok tt, send s (reject tid ("invalid size: " <> pf.py.repr (num size))))
        else elim (to_int pf.py (get m "total_chunks" (num (pos 0)))) [
          | raise e ↦ (raise e, s)
          | ok total ↦
              if not (leb_ℤ (pos 1) total && leb_ℤ total (pos max_chunk_index))
              then (ok tt, send s (reject tid ("invalid chunk count: " <> pf.py.repr (num total))))
              else place_offer s tid m size total fault now
        ]
  ]

  -- `handle_offer`, from the concurrent transfer cap on.
  unfoldable pub admit : FileTransfer → String → Message → Fault → ℕ → Outcome
  unfolding check_offer
  admit s tid m fault now =
      if leb max_concurrent_recv (active_count s.sessions)
      then (ok tt, send s (reject tid "max concurrent transfers reached"))
      else check_offer s tid m fault now

  unfoldable pub handle_offer : FileTransfer → Message → Fault → ℕ → Outcome
  unfolding admit
  handle_offer s m fault now =
      let tid = to_str pf.py (get m "transfer_id" (str "")) in
      if not (truthy tid)
      then (ok tt, s)
      else elim (key_of pf.py (get m "from_device" (str "unknown"))) [
        | raise e ↦ (raise e, s)
        | ok device ↦
            let (allowed, offers) = RateLimiter.is_allowed s.offers device now in
            let s' = record s { offers = offers } in
            if not allowed
            then (ok tt, send s' (reject tid "rate limit exceeded"))
            else admit s' tid m fault now
      ]
