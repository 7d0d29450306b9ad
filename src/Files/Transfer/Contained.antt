-- ===== src/Files/Transfer/Contained.antt =====
-- Where the receiving side of homelink/files/transfer.py writes, step by step.
use homelink.Common.Dict
use homelink.Common.{
  ℕ, String, ◌<>◌, ◌≡◌, refl, ◌⊎◌, inl, inr, not, ◌&&◌, some, str_eq, leb, if◌then◌else◌,
  Bool-cases, Option-cases,
}
use homelink.Common.Text.{Text, codes, text_eq, text_eq_iff}
use homelink.Common.Int.{ℤ, pos, negsuc, leb_ℤ}
use homelink.Common.Exc.{ok, Result-cases}
use homelink.Common.Json.{num, str, Message, get, to_str, to_int}
use homelink.Files.Protocol.{TransferSession, reject}
use homelink.Files.Disk.{Disk, Node, write, exists, is_symlink, create_empty}
use homelink.Files.SafeDest.{dest, refused, safe_dest, Dest, PathError}
use homelink.Files.SafeDest.Laws.{Below, safe_dest-Below}
use homelink.Files.Transfer.{
  FileTransfer, Platform, Fault, no_fault, create_fault, chmod_fault, send, put_session, made,
  accept_offer, open_session, place_offer, check_offer, admit, valid_sha256, max_chunk_index,
  max_concurrent_recv, active_count,
}

pub Dest-cases :
    (d : Dest) → ((target : Text) × (d ≡ dest target)) ⊎ ((e : PathError) × (d ≡ refused e))
Dest-cases (dest target) = inl (target, refl)
Dest-cases (refused e) = inr (e, refl)

abbrev pub Contained : Text → FileTransfer → Type 0
Contained root s =
    (tid : String) (session : TransferSession)
    → Dict.lookup tid s.sessions ≡ some session
    → Below root session.path

-- A step keeps the paths of the sessions below `root`, and the disk elsewhere as it is.
pub record Safe (root : Text) (s s' : FileTransfer) : Type 0 where
  pub contained : Contained root s'
  pub outside : (p : Text) → ¬ Below root p → s'.disk p ≡ s.disk p
  pub downloads_same : s'.downloads ≡ s.downloads

module _ (root : Text) where
  pub Safe-send : (s : FileTransfer) (m : Message) → Contained root s → Safe root s (send s m)
  Safe-send s m c = record { contained = c; outside = λ p h. refl; downloads_same = refl }

  pub Safe-stay : (s : FileTransfer) → Contained root s → Safe root s s
  Safe-stay s c = record { contained = c; outside = λ p h. refl; downloads_same = refl }

  pub insert-Contained :
      (s : FileTransfer) (tid : String) (session : TransferSession)
      → Contained root s
      → Below root session.path
      → Contained root (put_session s tid session)
  insert-Contained s tid session c below j found e = elim (Bool-cases (str_eq tid j)) [
    | inl same ↦
        let here : some session ≡ some found = rw (Dict.lookup-insert, same) at e in
        let it : session ≡ found = cc in rw (← it) below
    | inr other ↦ c j found (rw (Dict.lookup-insert, other) at e)
  ]

  pub write-outside :
      (disk : Disk) (path p : Text) (node : Node)
      → Below root path
      → ¬ Below root p
      → write disk path node p ≡ disk p
  write-outside disk path p node below out = elim (Bool-cases (text_eq path p)) [
    | inl same ↦ absurd (out (rw (← (text_eq_iff path p).0 same) below))
    | inr other ↦ rw other
  ]

  made-cases :
      (disk disk' : Disk) (target : Text) (fault : Fault)
      → made disk target fault ≡ some disk'
      → (disk' ≡ disk) ⊎ ((node : Node) × (disk' ≡ write disk target node))
  unfolding made
  made-cases disk disk' target no_fault e = elim (Bool-cases (exists (disk target))) [
    | inl there ↦ inl (cc (rw there at e))
    | inr missing ↦ inr (create_empty (disk target), cc (rw missing at e))
  ]
  made-cases disk disk' target (create_fault text) e = elim (Bool-cases (exists (disk target))) [
    | inl there ↦ inl (cc (rw there at e))
    | inr missing ↦ cc (rw missing at e)
  ]
  made-cases disk disk' target (chmod_fault text) e = elim (Bool-cases (exists (disk target))) [
    | inl there ↦ inl (cc (rw there at e))
    | inr missing ↦ inr (create_empty (disk target), cc (rw missing at e))
  ]

  made-outside :
      (disk disk' : Disk) (target p : Text) (fault : Fault)
      → made disk target fault ≡ some disk'
      → Below root target
      → ¬ Below root p
      → disk' p ≡ disk p
  made-outside disk disk' target p fault e below out = elim (made-cases disk disk' target fault e) [
    | inl same ↦ rw same
    | inr (node, written) ↦ rw written (write-outside disk target p node below out)
  ]

  accept_offer-Safe :
      (s : FileTransfer) (disk : Disk) (tid : String) (session : TransferSession) (fault : Fault)
      → Contained root s
      → Below root session.path
      → ((p : Text) → ¬ Below root p → disk p ≡ s.disk p)
      → Safe root s (accept_offer (record s { disk = disk }) tid session fault).1
  unfolding accept_offer
  accept_offer-Safe s disk tid session (chmod_fault text) c below out = record {
    contained = c;
    outside = out;
    downloads_same = refl;
  }
  accept_offer-Safe s disk tid session _ c below out = record {
    contained = insert-Contained s tid session c below;
    outside = out;
    downloads_same = refl;
  }

  module _ (pf : Platform) where
    open_session-Safe :
        (s : FileTransfer) (tid name sha : String) (size total : ℤ) (target : Text) (fault : Fault)
        (now : ℕ)
        → Contained root s
        → Below root target
        → Safe root s (open_session pf s tid name size sha total target fault now).1
    unfolding open_session
    open_session-Safe s tid name sha size total target fault now c below =
        elim (Bool-cases (exists (s.disk target) && is_symlink (s.disk target))) [
          | inl linked ↦ rw linked (Safe-send s _ c)
          | inr plain ↦ elim (Option-cases (made s.disk target fault)) [
            | inl failed_made ↦ rw (plain, failed_made) (Safe-send s _ c)
            | inr (disk, e) ↦
                rw (plain, e)
                  (accept_offer-Safe s disk tid _ fault c below
                    (λ p out. made-outside s.disk disk target p fault e below out))
          ]
        ]

    place_offer-Safe :
        (s : FileTransfer) (tid : String) (m : Message) (size total : ℤ) (fault : Fault) (now : ℕ)
        → Contained root s
        → root ≡ pf.resolve s.downloads
        → Safe root s (place_offer pf s tid m size total fault now).1
    unfolding place_offer
    place_offer-Safe s tid m size total fault now c same =
        let sha = to_str pf.py (get m "sha256" (str "")) in
        let name = to_str pf.py (get m "name" (str "")) in
        elim (Bool-cases (not (valid_sha256 (codes sha)))) [
          | inl bad ↦ rw (bad, place_offer) (Safe-send s _ c)
          | inr good ↦ elim (Dest-cases (safe_dest pf.resolve s.downloads (codes name))) [
            | inr (e, q) ↦ rw (good, q, place_offer) (Safe-send s _ c)
            | inl (target, q) ↦
                let (_, _, below) = safe_dest-Below pf.resolve s.downloads (codes name) target q in
                rw (good, q, place_offer)
                  (open_session-Safe s tid name sha size total target fault now c (rw same below))
          ]
        ]

    check_offer-Safe :
        (s : FileTransfer) (tid : String) (m : Message) (fault : Fault) (now : ℕ)
        → Contained root s
        → root ≡ pf.resolve s.downloads
        → Safe root s (check_offer pf s tid m fault now).1
    unfolding check_offer
    check_offer-Safe s tid m fault now c same =
        elim (Result-cases (to_int pf.py (get m "size" (num (negsuc 0))))) [
          | inr (e, q) ↦ rw (q, check_offer) (Safe-stay s c)
          | inl (size, q) ↦ elim (Bool-cases (not (leb_ℤ (pos 0) size && leb_ℤ size s.max_size))) [
            | inl bad ↦ rw (q, bad, check_offer) (Safe-send s _ c)
            | inr fits ↦ elim (Result-cases (to_int pf.py (get m "total_chunks" (num (pos 0))))) [
              | inr (e, r) ↦ rw (q, fits, r, check_offer) (Safe-stay s c)
              | inl (total, r) ↦ rw (q, fits, r, check_offer) (counted size total)
            ]
          ]
        ]
      where
        counted :
            (size total : ℤ)
            → Safe root s
                (if not (leb_ℤ (pos 1) total && leb_ℤ total (pos max_chunk_index))
                  then (
                    ok tt,
                    send s (reject tid ("invalid chunk count: " <> pf.py.repr (num total))),
                  )
                  else place_offer pf s tid m size total fault now).1
        counted size total =
            elim (Bool-cases (not (leb_ℤ (pos 1) total && leb_ℤ total (pos max_chunk_index)))) [
              | inl bad ↦ rw bad (Safe-send s _ c)
              | inr good ↦ rw good (place_offer-Safe s tid m size total fault now c same)
            ]

    pub admit-Safe :
        (s : FileTransfer) (tid : String) (m : Message) (fault : Fault) (now : ℕ)
        → Contained root s
        → root ≡ pf.resolve s.downloads
        → Safe root s (admit pf s tid m fault now).1
    unfolding admit
    admit-Safe s tid m fault now c same =
        elim (Bool-cases (leb max_concurrent_recv (active_count s.sessions))) [
          | inl full ↦ rw full (Safe-send s _ c)
          | inr room ↦ rw room (check_offer-Safe s tid m fault now c same)
        ]
