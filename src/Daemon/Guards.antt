-- ===== src/Daemon/Guards.antt =====
-- What the handlers of homelink/service/daemon.py let a peer do.
use homelink.Common.{
  ℕ, ◌≤◌, String, ◌≡◌, refl, ap, ◌∙◌, ◌≢◌, ◌⊎◌, inl, inr, true, false, not, none, some, List, [],
  ◌∷◌, ◌++◌, arith, ltb, Bool-cases, Option-cases,
}
use homelink.Common.Text.{Text, codes, starts_with}
use homelink.Common.Int.{ℤ, pos}
use homelink.Common.Exc.{ok, Result-cases}
use homelink.Common.Json.{num, str, Message, get, to_str, to_int, is_true}
use homelink.Commands.Permissions.{role_level}
use homelink.Commands.Permissions.Roles.{listed, viewer_commands, resolve_command-viewer}
use homelink.Commands.Executor.{ExecResult, Executor, Times, execute, not_denied, outcome}
use homelink.Commands.Executor.Runs.{execute-Accounted}
use homelink.Telegram.{Peer}
use homelink.Devices.{Devices, get_peer, is_peer_approved}
use homelink.Daemon.{
  Host, Action, sent, exec_reply, unlinked, made_dir, Daemon, from_device, get_peer_role, level_of,
  check_role, role_text, run_command, handle_exec, in_home, guarded, change_path, handle_rm,
  result_message,
}

-- The files that were deleted.
abbrev pub removals : List Action → List Text
removals [] = []
removals (unlinked p ∷ actions) = p ∷ removals actions
removals (sent to m ∷ actions) = removals actions
removals (exec_reply to r ∷ actions) = removals actions
removals (made_dir p ∷ actions) = removals actions

removals-sent :
    (actions : List Action) (to : String) (m : Message)
    → removals (actions ++ sent to m ∷ []) ≡ removals actions
removals-sent [] to m = refl
removals-sent (unlinked p ∷ actions) to m = ap (λ l. p ∷ l) (removals-sent actions to m)
removals-sent (sent x n ∷ actions) to m = removals-sent actions to m
removals-sent (exec_reply x r ∷ actions) to m = removals-sent actions to m
removals-sent (made_dir p ∷ actions) to m = removals-sent actions to m

removals-unlinked :
    (actions : List Action) (p : Text)
    → removals (actions ++ unlinked p ∷ []) ≡ removals actions ++ p ∷ []
removals-unlinked [] p = refl
removals-unlinked (unlinked q ∷ actions) p = ap (λ l. q ∷ l) (removals-unlinked actions p)
removals-unlinked (sent x n ∷ actions) p = removals-unlinked actions p
removals-unlinked (exec_reply x r ∷ actions) p = removals-unlinked actions p
removals-unlinked (made_dir q ∷ actions) p = removals-unlinked actions p

-- The sender is an approved peer whose role has at least a level.
pub record Entitled (devices : Devices) (device : String) (least : ℕ) : Type 0 where
  pub peer : Peer
  pub level : ℕ
  pub known : get_peer devices device ≡ some peer
  pub approved : is_true peer.approved ≡ true
  pub ranked : level_of peer.role ≡ ok level
  pub suffices : least ≤ level

enough_level : (level : ℕ) → not (ltb level (role_level 999 (codes "operator"))) ≡ true → 1 ≤ level
unfolding role_level
enough_level level h = ground arith

pub check_role-Entitled :
    (devices : Devices) (device : String)
    → check_role devices device (codes "operator") ≡ ok true
    → Entitled devices device 1
unfolding check_role get_peer_role level_of role_level
check_role-Entitled devices device h = elim (Option-cases (get_peer devices device)) [
  | inl stranger ↦ cc (rw (stranger, get_peer_role, check_role) at h)
  | inr (peer, known) ↦ elim (Bool-cases (is_true peer.approved)) [
    | inr pending ↦ cc (rw (known, pending, get_peer_role, check_role) at h)
    | inl approved ↦ elim (Result-cases (level_of peer.role)) [
      | inr (e, q) ↦ cc (rw (known, approved, q, get_peer_role, check_role) at h)
      | inl (level, q) ↦ record {
        peer = peer;
        level = level;
        known = known;
        approved = approved;
        ranked = q;
        suffices =
            enough_level level (cc (rw (known, approved, q, get_peer_role, check_role) at h));
      }
    ]
  ]
]

module _ (host : Host) (d : Daemon) where
  -- A deletion by a peer that is entitled to it, of a path that begins as the home directory does.
  pub record Deletion (m : Message) (p : Text) : Type 0 where
    pub device : String
    pub sender : from_device host.py m ≡ ok device
    pub entitled : Entitled d.devices device 1
    pub resolves : host.paths.resolve (codes (to_str host.py (get m "path" (str "")))) ≡ ok p
    pub at_home : starts_with host.paths.home p ≡ true
    pub succeeds : host.unlink p ≡ none

  -- Nothing is deleted, or one file is.
  abbrev pub Deletes : Message → List Action → Type 0
  Deletes m actions =
      (removals actions ≡ removals d.actions)
      ⊎ ((p : Text) × (removals actions ≡ removals d.actions ++ p ∷ []) × Deletion m p)

  change_path-Deletes :
      (m : Message) (device : String)
      → from_device host.py m ≡ ok device
      → Entitled d.devices device 1
      → let path = to_str host.py (get m "path" (str "")) in
        Deletes m
          (change_path host d device "rm_result"
            (in_home host (ok host.paths.home) path "Can only delete files within home directory")
            host.unlink
            unlinked).actions
  unfolding change_path in_home
  change_path-Deletes m device sender entitled =
      let path = to_str host.py (get m "path" (str "")) in
      elim (Result-cases (host.paths.resolve (codes path))) [
        | inr (e, q) ↦ rw (q, in_home, change_path) (inl (removals-sent d.actions device _))
        | inl (p, q) ↦ elim (Bool-cases (starts_with host.paths.home p)) [
          | inr out ↦ rw (q, out, in_home, change_path) (inl (removals-sent d.actions device _))
          | inl at_home ↦ elim (Option-cases (host.unlink p)) [
            | inr (text, bad) ↦
                rw (q, at_home, bad, in_home, change_path) (inl (removals-sent d.actions device _))
            | inl done_it ↦
                let gone : removals (
                      (d.actions ++ unlinked p ∷ [])
                      ++ sent device (result_message "rm_result" none) ∷ [])
                    ≡ removals d.actions ++ p ∷ [] =
                  removals-sent (d.actions ++ unlinked p ∷ []) device _
                  ∙ removals-unlinked d.actions p in
                let how : Deletion m p = record {
                  device = device;
                  sender = sender;
                  entitled = entitled;
                  resolves = q;
                  at_home = at_home;
                  succeeds = done_it;
                } in
                let both : Deletes m (
                    (d.actions ++ unlinked p ∷ [])
                    ++ sent device (result_message "rm_result" none) ∷ []) =
                  inr (p, gone, how) in
                rw (q, at_home, done_it, in_home, change_path) both
          ]
        ]
      ]

-- A request to delete a file deletes nothing, or one file, and then its sender is an approved
-- peer with the level of an operator at least, and the path resolves to one that begins as the
-- home directory does.
pub handle_rm-Deletes :
    (host : Host) (d : Daemon) (m : Message) → Deletes host d m (handle_rm host d m).1.actions
unfolding handle_rm guarded
handle_rm-Deletes host d m = elim (Result-cases (from_device host.py m)) [
  | inr (e, q) ↦ rw (q, handle_rm, guarded) (inl refl)
  | inl (device, q) ↦ elim (Result-cases (check_role d.devices device (codes "operator"))) [
    | inr (e, r) ↦ rw (q, r, handle_rm, guarded) (inl refl)
    | inl (allowed, r) ↦ elim (Bool-cases allowed) [
      | inr low ↦ rw (q, r, low, handle_rm, guarded) (inl (removals-sent d.actions device _))
      | inl enough ↦
          rw (q, r, enough, handle_rm, guarded)
            (change_path-Deletes host d m device q
              (check_role-Entitled d.devices device (r ∙ ap ok enough)))
    ]
  ]
]

-- A reply about a command that was refused, or that ran as one of the viewer's command lines.
pub record Harmless (host : Host) (r : ExecResult) : Type 0 where
  pub exe : Text
  pub argv : List Text
  pub limit : ℤ
  pub fixed : listed exe argv viewer_commands ≡ true
  pub ran :
      (r.returncode, r.stdout, r.stderr, r.timed_out)
      ≡ outcome host.paths host.system exe (host.system.run exe argv limit)

unapproved_role :
    (devices : Devices) (device : String)
    → is_peer_approved devices device ≡ false
    → get_peer_role devices device ≡ str "viewer"
unfolding is_peer_approved get_peer_role
unapproved_role devices device pending = elim (Option-cases (get_peer devices device)) [
  | inl stranger ↦ rw (stranger, get_peer_role) refl
  | inr (peer, known) ↦
      let not_approved : is_true peer.approved ≡ false = rw (known, is_peer_approved) at pending in
      rw (known, not_approved, get_peer_role) refl
]

run_command-viewer :
    (host : Host) (d : Daemon) (device command : String) (timeout : ℤ) (times : Times)
    → (result : ExecResult) × ((run_command host d device command timeout times
          (str "viewer")).1.actions
        ≡ d.actions ++ exec_reply device result ∷ [])
      × ((result.deny_reason ≢ not_denied) ⊎ Harmless host result)
unfolding run_command role_text role_level
run_command-viewer host d device command timeout times =
    let executor : Executor = record {
      role = codes "viewer";
      max_timeout = d.max_exec_timeout;
      history = [];
      started = [];
    } in
    let executed =
      execute host.paths host.system d.exec_limiter executor (codes command) (some timeout) device
        times in
    let accounted =
      execute-Accounted host.paths host.system d.exec_limiter executor (codes command)
        (some timeout) device times in
    (
      executed.0,
      refl,
      elim accounted [
        | inr (refused, _, _, _) ↦ inl refused
        | inl (_, ran) ↦ inr (record {
          exe = ran.exe;
          argv = ran.argv;
          limit = ran.timeout;
          fixed =
              resolve_command-viewer host.paths (codes "viewer") (codes command) ran.exe ran.argv
                refl ran.permitted;
          ran = ran.reported;
        })
      ],
    )

-- A command of a sender that is no approved peer is answered by one reply, and it was refused or
-- ran as one of the eight command lines of a viewer, if its time limit and its sender can be
-- read.
pub handle_exec-unapproved :
    (host : Host) (d : Daemon) (m : Message) (times : Times) (timeout : ℤ) (device : String)
    → to_int host.py (get m "timeout" (num (pos 60))) ≡ ok timeout
    → from_device host.py m ≡ ok device
    → is_peer_approved d.devices device ≡ false
    → (result : ExecResult) × ((handle_exec host d m times).1.actions
        ≡ d.actions ++ exec_reply device result ∷ [])
      × ((result.deny_reason ≢ not_denied) ⊎ Harmless host result)
unfolding handle_exec
handle_exec-unapproved host d m times timeout device limit sender pending =
    rw (limit, sender, unapproved_role d.devices device pending, handle_exec)
      (run_command-viewer host d device (to_str host.py (get m "command" (str ""))) timeout times)
