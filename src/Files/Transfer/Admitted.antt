-- ===== src/Files/Transfer/Admitted.antt =====
-- The active sessions that an offer leaves, of homelink/files/transfer.py.
use homelink.Files.Transfer.{
  send, FileTransfer, Platform, Fault, chmod_fault, accept_offer, active_count, open_session,
  place_offer, check_offer, admit, handle_offer, max_concurrent_recv, made, valid_sha256,
  max_chunk_index,
}
use homelink.Common.Dict
use homelink.Common.Dict.{Dict}
use homelink.Files.Protocol.{TransferSession, reject}
use homelink.Common.{
  ℕ, suc, ◌≤◌, String, inl, inr, Bool, true, false, not, ◌&&◌, [], ◌∷◌, arith, leb, if◌then◌else◌,
  leb-false, Bool-cases, Option-cases,
}
use homelink.Common.Text.{Text, codes, truthy}
use homelink.Common.Int.{ℤ, pos, negsuc, leb_ℤ}
use homelink.Common.Exc.{ok, Result-cases}
use homelink.Common.Json.{num, str, Message, get, to_str, to_int, key_of}
use homelink.RateLimiter
use homelink.Files.Disk.{exists, is_symlink}
use homelink.Files.SafeDest.{safe_dest}
use homelink.Files.Transfer.Contained.{Dest-cases}

insert-suc :
    (tid : String) (x : TransferSession) (d : Dict TransferSession)
    → active_count (Dict.insert tid x d) ≤ suc (active_count d)
unfolding Dict.insert active_count
insert-suc tid x [] = ground arith
insert-suc tid x ((j, w) ∷ d) = ground (arith, insert-suc tid x d)

module _ (pf : Platform) where
  accept_offer-suc :
      (s : FileTransfer) (tid : String) (session : TransferSession) (fault : Fault)
      → active_count (accept_offer s tid session fault).1.sessions ≤ suc (active_count s.sessions)
  unfolding accept_offer
  accept_offer-suc s tid session (chmod_fault text) = omega arith
  accept_offer-suc s tid session _ = insert-suc tid session s.sessions

  open_session-suc :
      (s : FileTransfer) (tid name sha : String) (size total : ℤ) (target : Text) (fault : Fault)
      (now : ℕ)
      → active_count (open_session pf s tid name size sha total target fault now).1.sessions
        ≤ suc (active_count s.sessions)
  unfolding open_session
  open_session-suc s tid name sha size total target fault now =
      elim (Bool-cases (exists (s.disk target) && is_symlink (s.disk target))) [
        | inl linked ↦ rw linked (omega arith)
        | inr plain ↦ elim (Option-cases (made s.disk target fault)) [
          | inl failed_made ↦ rw (plain, failed_made) (omega arith)
          | inr (disk, e) ↦ rw (plain, e) (accept_offer-suc (record s { disk = disk }) tid _ fault)
        ]
      ]

  place_offer-suc :
      (s : FileTransfer) (tid : String) (m : Message) (size total : ℤ) (fault : Fault) (now : ℕ)
      → active_count (place_offer pf s tid m size total fault now).1.sessions
        ≤ suc (active_count s.sessions)
  unfolding place_offer
  place_offer-suc s tid m size total fault now =
      let sha = to_str pf.py (get m "sha256" (str "")) in
      let name = to_str pf.py (get m "name" (str "")) in
      elim (Bool-cases (not (valid_sha256 (codes sha)))) [
        | inl bad ↦ rw (bad, place_offer) (omega arith)
        | inr good ↦ elim (Dest-cases (safe_dest pf.resolve s.downloads (codes name))) [
          | inr (e, q) ↦ rw (good, q, place_offer) (omega arith)
          | inl (target, q) ↦
              rw (good, q, place_offer)
                (open_session-suc s tid name sha size total target fault now)
        ]
      ]

  check_offer-suc :
      (s : FileTransfer) (tid : String) (m : Message) (fault : Fault) (now : ℕ)
      → active_count (check_offer pf s tid m fault now).1.sessions ≤ suc (active_count s.sessions)
  unfolding check_offer
  check_offer-suc s tid m fault now =
      elim (Result-cases (to_int pf.py (get m "size" (num (negsuc 0))))) [
        | inr (e, q) ↦ rw (q, check_offer) (omega arith)
        | inl (size, q) ↦ elim (Bool-cases (not (leb_ℤ (pos 0) size && leb_ℤ size s.max_size))) [
          | inl bad ↦ rw (q, bad, check_offer) (omega arith)
          | inr fits ↦ elim (Result-cases (to_int pf.py (get m "total_chunks" (num (pos 0))))) [
            | inr (e, r) ↦ rw (q, fits, r, check_offer) (omega arith)
            | inl (total, r) ↦
                elim (Bool-cases (not (leb_ℤ (pos 1) total && leb_ℤ total (pos max_chunk_index)))) [
                  | inl bad ↦ rw (q, fits, r, bad, check_offer) (omega arith)
                  | inr good ↦
                      rw (q, fits, r, good, check_offer)
                        (place_offer-suc s tid m size total fault now)
                ]
          ]
        ]
      ]

  admit-le :
      (s : FileTransfer) (tid : String) (m : Message) (fault : Fault) (now : ℕ)
      → active_count s.sessions ≤ max_concurrent_recv
      → active_count (admit pf s tid m fault now).1.sessions ≤ max_concurrent_recv
  unfolding admit
  admit-le s tid m fault now h =
      elim (Bool-cases (leb max_concurrent_recv (active_count s.sessions))) [
        | inl full ↦ rw full h
        | inr room ↦
            let below = leb-false max_concurrent_recv (active_count s.sessions) room in
            let most = check_offer-suc s tid m fault now in rw room (omega arith)
      ]

  limited-le :
      (s : FileTransfer) (allowed : Bool) (tid : String) (m : Message) (fault : Fault) (now : ℕ)
      → active_count s.sessions ≤ max_concurrent_recv
      → active_count
          (if not allowed
            then (ok tt, send s (reject tid "rate limit exceeded"))
            else admit pf s tid m fault now).1.sessions
        ≤ max_concurrent_recv
  limited-le s false tid m fault now h = h
  limited-le s true tid m fault now h = admit-le s tid m fault now h

  pub handle_offer-le :
      (s : FileTransfer) (m : Message) (fault : Fault) (now : ℕ)
      → active_count s.sessions ≤ max_concurrent_recv
      → active_count (handle_offer pf s m fault now).1.sessions ≤ max_concurrent_recv
  unfolding handle_offer
  handle_offer-le s m fault now h =
      let tid = to_str pf.py (get m "transfer_id" (str "")) in
      elim (Bool-cases (not (truthy tid))) [
        | inl nameless ↦ rw (nameless, handle_offer) h
        | inr named ↦ elim (Result-cases (key_of pf.py (get m "from_device" (str "unknown")))) [
          | inr (e, q) ↦ rw (named, q, handle_offer) h
          | inl (device, q) ↦
              let (allowed, offers) = RateLimiter.is_allowed s.offers device now in
              rw (named, q, handle_offer)
                (limited-le (record s { offers = offers }) allowed tid m fault now h)
        ]
      ]
