-- ===== src/Files/Transfer/Verified.antt =====
-- When `FileTransfer.handle_complete` of homelink/files/transfer.py calls a transfer complete.
use homelink.Common.Dict.{Dict}
use homelink.Common.Dict
use homelink.Common.{
  ℕ, String, ◌≡◌, refl, inl, inr, Bool, true, false, some, str_eq, eq_iff, Bool-cases,
}
use homelink.Common.Text.{Text}
use homelink.Common.Exc.{ok, Result-cases}
use homelink.Common.Json.{str, Message, get}
use homelink.Files.Protocol.{TransferState, complete, failed, Codec, TransferSession}
use homelink.Files.Disk.{Disk, Node, regular, is_symlink, absent, link, directory}
use homelink.Files.Transfer.{FileTransfer, Platform}
use homelink.Files.Transfer.Chunks.{sha256_file, finish, find_complete, handle_complete}

abbrev pub is_complete : TransferState → Bool
is_complete complete = true
is_complete _ = false

abbrev pub node_has_hash : Codec → String → Node → Bool
node_has_hash codec sha (regular content) = str_eq (codec.sha256 content) sha
node_has_hash codec sha _ = false

-- The file at a path has the hash.
abbrev pub has_hash : Codec → Disk → Text → String → Bool
has_hash codec disk path sha = node_has_hash codec sha (disk path)

module _ (pf : Platform) where
  sha256_file-has_hash :
      (node : Node) (sha wanted : String)
      → sha256_file pf node ≡ ok sha
      → str_eq sha wanted ≡ true
      → node_has_hash pf.codec wanted node ≡ true
  unfolding sha256_file
  sha256_file-has_hash (regular content) sha wanted e same =
      let it : pf.codec.sha256 content ≡ sha = cc in rw it same
  sha256_file-has_hash absent sha wanted e same = cc
  sha256_file-has_hash (link target) sha wanted e same = cc
  sha256_file-has_hash (directory size) sha wanted e same = cc

  inserted :
      (tid : String) (x y : TransferSession) (d : Dict TransferSession)
      → Dict.lookup tid (Dict.insert tid x d) ≡ some y
      → x ≡ y
  inserted tid x y d e =
      let here : str_eq tid tid ≡ true = (eq_iff tid tid).1 refl in
      let same : some x ≡ some y = rw (Dict.lookup-insert, here) at e in cc

  finish-has_hash :
      (s : FileTransfer) (tid : String) (session session' : TransferSession) (now : ℕ)
      → Dict.lookup tid s.sessions ≡ some session
      → is_complete session.state ≡ false
      → Dict.lookup tid (finish pf s tid session now).1.sessions ≡ some session'
      → is_complete session'.state ≡ true
      → has_hash pf.codec (finish pf s tid session now).1.disk session.path session.sha256 ≡ true
  unfolding finish
  finish-has_hash s tid session session' now found waiting found' done =
      let node = s.disk session.path in
      let failing : TransferSession = record session { state = failed } in
      elim (Bool-cases (is_symlink node)) [
        | inl linked ↦
            let e : Dict.lookup tid (Dict.insert tid failing s.sessions) ≡ some session' =
              rw (linked, finish) at found' in
            let it : failing ≡ session' = inserted tid failing session' s.sessions e in
            cc (rw (← it) at done)
        | inr plain ↦ elim (Result-cases (sha256_file pf node)) [
          | inr (e, q) ↦
              let kept : some session ≡ some session' = rw (plain, q, finish, found) at found' in
              let it : session ≡ session' = cc in cc (rw (← it) at done)
          | inl (sha, q) ↦ elim (Bool-cases (str_eq sha session.sha256)) [
            | inl same ↦
                rw (plain, q, same, finish) (sha256_file-has_hash node sha session.sha256 q same)
            | inr differ ↦
                let e : Dict.lookup tid (Dict.insert tid failing s.sessions) ≡ some session' =
                  rw (plain, q, differ, finish) at found' in
                let it : failing ≡ session' = inserted tid failing session' s.sessions e in
                cc (rw (← it) at done)
          ]
        ]
      ]

-- When the completion of a known transfer, which was not complete before, leaves it complete, the
-- file on disk has the hash that was offered.
pub handle_complete-has_hash :
    (pf : Platform) (s : FileTransfer) (m : Message) (tid : String)
    (session session' : TransferSession) (now : ℕ)
    → get m "transfer_id" (str "") ≡ str tid
    → Dict.lookup tid s.sessions ≡ some session
    → is_complete session.state ≡ false
    → Dict.lookup tid (handle_complete pf s m now).1.sessions ≡ some session'
    → is_complete session'.state ≡ true
    → has_hash pf.codec (handle_complete pf s m now).1.disk session.path session.sha256 ≡ true
unfolding handle_complete find_complete
handle_complete-has_hash pf s m tid session session' now asked found waiting found' done =
    let e : Dict.lookup tid (finish pf s tid session now).1.sessions ≡ some session' =
      rw (asked, found, find_complete) at found' in
    rw (asked, found, find_complete)
      (finish-has_hash pf s tid session session' now found waiting e done)
