-- ===== src/Client/Waiting.antt =====
-- The replies of homelink/service/daemon.py, as homelink/cli/client.py takes them.
use homelink.Daemon.{
  listing, ls_result, tree_result, act, made_dir, unlinked, exec_reply, result_message, Host,
  Daemon, Action, Access, granted, failed, sent, from_device, check_role, guarded, in_home,
  change_path, list_entries, show_tree, handle_rm, handle_mkdir, handle_ls, handle_tree,
}
use homelink.Common.Json.{stop, done, Value, Message, str, get}
use homelink.Listing.{build_tree}
use homelink.Client.{arr, to_str, null, obj, captures, is_response_for, response_type}
use homelink.Common.Dict
use homelink.Common.{
  String, ◌≡◌, refl, ap, ◌∙◌, ◌⊎◌, inl, inr, true, Option, none, some, List, [], ◌∷◌, ◌++◌,
  Bool-cases, Option-cases,
}
use homelink.Common.Exc.{ok, Result-cases}
use homelink.Common.Text.{Text, codes}

-- The messages that were sent, with the devices they went to.
abbrev pub sent_to : List Action → List (String × Message)
sent_to [] = []
sent_to (sent device m ∷ actions) = (device, m) ∷ sent_to actions
sent_to (exec_reply device r ∷ actions) = sent_to actions
sent_to (unlinked p ∷ actions) = sent_to actions
sent_to (made_dir p ∷ actions) = sent_to actions

sent_to-sent :
    (actions : List Action) (device : String) (m : Message)
    → sent_to (actions ++ sent device m ∷ []) ≡ sent_to actions ++ (device, m) ∷ []
sent_to-sent [] device m = refl
sent_to-sent (sent x n ∷ actions) device m = ap (λ l. (x, n) ∷ l) (sent_to-sent actions device m)
sent_to-sent (exec_reply x r ∷ actions) device m = sent_to-sent actions device m
sent_to-sent (unlinked p ∷ actions) device m = sent_to-sent actions device m
sent_to-sent (made_dir p ∷ actions) device m = sent_to-sent actions device m

-- An action that sends nothing.
abbrev Silent : Action → Type 0
Silent a = (actions : List Action) → sent_to (actions ++ a ∷ []) ≡ sent_to actions

unlinked-Silent : (p : Text) → Silent (unlinked p)
unlinked-Silent p [] = refl
unlinked-Silent p (sent x n ∷ actions) = ap (λ l. (x, n) ∷ l) (unlinked-Silent p actions)
unlinked-Silent p (exec_reply x r ∷ actions) = unlinked-Silent p actions
unlinked-Silent p (unlinked q ∷ actions) = unlinked-Silent p actions
unlinked-Silent p (made_dir q ∷ actions) = unlinked-Silent p actions

made_dir-Silent : (p : Text) → Silent (made_dir p)
made_dir-Silent p [] = refl
made_dir-Silent p (sent x n ∷ actions) = ap (λ l. (x, n) ∷ l) (made_dir-Silent p actions)
made_dir-Silent p (exec_reply x r ∷ actions) = made_dir-Silent p actions
made_dir-Silent p (unlinked q ∷ actions) = made_dir-Silent p actions
made_dir-Silent p (made_dir q ∷ actions) = made_dir-Silent p actions

module _ (host : Host) (d : Daemon) (kind : String) (m : Message) where
  -- Nothing is sent, or one message to the sender of a request, which a request of the type takes
  -- for its response.
  abbrev pub Replies : Daemon → Type 0
  Replies d' =
      (sent_to d'.actions ≡ sent_to d.actions)
      ⊎ ((device : String) × (reply : Message) × (from_device host.py m ≡ ok device)
          × (sent_to d'.actions ≡ sent_to d.actions ++ (device, reply) ∷ [])
          × (captures (str kind) reply ≡ true))

  replied :
      (device : String) (reply : Message)
      → from_device host.py m ≡ ok device
      → captures (str kind) reply ≡ true
      → Replies (act d (sent device reply))
  replied device reply sender taken =
      inr (device, reply, sender, sent_to-sent d.actions device reply, taken)

  -- What a handler that asks for a role leaves behind.
  guarded-cases :
      (required : Text) (low enough : String → Daemon)
      → let d' = (guarded host d m required low enough).1 in
        (d' ≡ d)
        ⊎ ((device : String) × (from_device host.py m ≡ ok device)
            × ((d' ≡ low device) ⊎ (d' ≡ enough device)))
  unfolding guarded
  guarded-cases required low enough = elim (Result-cases (from_device host.py m)) [
    | inr (e, q) ↦ rw (q, guarded) (inl refl)
    | inl (device, q) ↦ elim (Result-cases (check_role d.devices device required)) [
      | inr (e, r) ↦ inl (rw (q, r, guarded) refl)
      | inl (allowed, r) ↦ elim (Bool-cases allowed) [
        | inr too_low ↦ inr (device, q, inl (rw (q, r, too_low, guarded) refl))
        | inl high ↦ inr (device, q, inr (rw (q, r, high, guarded) refl))
      ]
    ]
  ]

  guarded-Replies :
      (required : Text) (low enough : String → Daemon)
      → ((device : String) → from_device host.py m ≡ ok device → Replies (low device))
      → ((device : String) → from_device host.py m ≡ ok device → Replies (enough device))
      → Replies (guarded host d m required low enough).1
  guarded-Replies required low enough on_low on_enough = elim (guarded-cases required low enough) [
    | inl same ↦ inl (ap (λ d'. sent_to d'.actions) same)
    | inr (device, sender, inl is_low) ↦ rw is_low (on_low device sender)
    | inr (device, sender, inr is_enough) ↦ rw is_enough (on_enough device sender)
  ]

  change_path-Replies :
      (device kind' : String) (access : Access) (change : Text → Option String)
      (record_it : Text → Action)
      → from_device host.py m ≡ ok device
      → ((p : Text) → Silent (record_it p))
      → ((e : Option String) → captures (str kind) (result_message kind' e) ≡ true)
      → Replies (change_path host d device kind' access change record_it)
  unfolding change_path
  change_path-Replies device kind' (failed text) change record_it sender silent taken =
      replied device (result_message kind' (some text)) sender (taken (some text))
  change_path-Replies device kind' (granted p) change record_it sender silent taken =
      elim (Option-cases (change p)) [
        | inl fine ↦
            rw (fine, change_path)
              (inr (
                device,
                result_message kind' none,
                sender,
                sent_to-sent (d.actions ++ record_it p ∷ []) device _
                    ∙ ap (λ l. l ++ (device, result_message kind' none) ∷ []) (silent p d.actions),
                taken none,
              ))
        | inr (text, bad) ↦
            rw (bad, change_path)
              (replied device (result_message kind' (some text)) sender (taken (some text)))
      ]

result_message-captured :
    (e : Option String)
    → (captures (str "rm_request") (result_message "rm_result" e) ≡ true)
      × (captures (str "mkdir_request") (result_message "mkdir_result" e) ≡ true)
unfolding captures is_response_for response_type get Dict.lookup
result_message-captured e = (refl, refl)

ls_result-captured :
    (host : Host) (path : String) (entries error : Value)
    → captures (str "ls_request") (ls_result host path entries error) ≡ true
unfolding captures is_response_for response_type get Dict.lookup
ls_result-captured host path entries error = refl

list_entries-captured :
    (host : Host) (path : String) (access : Access)
    → captures (str "ls_request") (list_entries host path access) ≡ true
unfolding list_entries
list_entries-captured host path (failed text) = ls_result-captured host path (arr stop) (str text)
list_entries-captured host path (granted p) = elim (Result-cases (listing host p)) [
  | inr (e, q) ↦
      rw (q, list_entries) (ls_result-captured host path (arr stop) (str (host.explain e)))
  | inl (entries, q) ↦ rw (q, list_entries) (ls_result-captured host path entries null)
]

tree_result-captured :
    (host : Host) (tree error : Value)
    → captures (str "tree_request") (tree_result host tree error) ≡ true
unfolding captures is_response_for response_type get Dict.lookup
tree_result-captured host tree error = refl

show_tree-captured :
    (host : Host) (access : Access) → captures (str "tree_request") (show_tree host access) ≡ true
unfolding show_tree
show_tree-captured host (failed text) = tree_result-captured host (obj done) (str text)
show_tree-captured host (granted p) = elim (Result-cases (build_tree host.walk 3 p)) [
  | inr (e, q) ↦ rw (q, show_tree) (tree_result-captured host (obj done) (str (host.explain e)))
  | inl (tree, q) ↦ rw (q, show_tree) (tree_result-captured host tree null)
]

module _ (host : Host) (d : Daemon) (m : Message) where
  -- The path of a request that changes files, as it is looked at.
  abbrev changed : String → Access
  changed refusal =
      in_home host (ok host.paths.home) (to_str host.py (get m "path" (str ""))) refusal

  -- The path of a request that lists files.
  abbrev listed : Access
  listed =
      in_home host (host.paths.resolve host.paths.home) (to_str host.py (get m "path" (str "~")))
        "Access restricted to home directory"

  handle_rm-Replies : Replies host d "rm_request" m (handle_rm host d m).1
  unfolding handle_rm
  handle_rm-Replies =
      let too_low = result_message "rm_result" (some "operator role required") in
      let access = changed "Can only delete files within home directory" in
      guarded-Replies host d "rm_request" m (codes "operator")
        (λ device. act d (sent device too_low))
        (λ device. change_path host d device "rm_result" access host.unlink unlinked)
        (λ device sender.
          replied host d "rm_request" m device too_low sender
            (result_message-captured (some "operator role required")).0)
        (λ device sender.
          change_path-Replies host d "rm_request" m device "rm_result" access host.unlink unlinked
            sender unlinked-Silent (λ e. (result_message-captured e).0))

  handle_mkdir-Replies : Replies host d "mkdir_request" m (handle_mkdir host d m).1
  unfolding handle_mkdir
  handle_mkdir-Replies =
      let access = changed "Can only create directories within home directory" in
      guarded-Replies host d "mkdir_request" m (codes "operator") (λ device. d)
        (λ device. change_path host d device "mkdir_result" access host.mkdir made_dir)
        (λ device sender. inl refl)
        (λ device sender.
          change_path-Replies host d "mkdir_request" m device "mkdir_result" access host.mkdir
            made_dir sender made_dir-Silent (λ e. (result_message-captured e).1))

  handle_ls-Replies : Replies host d "ls_request" m (handle_ls host d m).1
  unfolding handle_ls
  handle_ls-Replies =
      let path = to_str host.py (get m "path" (str "~")) in
      guarded-Replies host d "ls_request" m (codes "viewer") (λ device. d)
        (λ device. act d (sent device (list_entries host path listed))) (λ device sender. inl refl)
        (λ device sender.
          replied host d "ls_request" m device (list_entries host path listed) sender
            (list_entries-captured host path listed))

  handle_tree-Replies : Replies host d "tree_request" m (handle_tree host d m).1
  unfolding handle_tree
  handle_tree-Replies =
      guarded-Replies host d "tree_request" m (codes "viewer") (λ device. d)
        (λ device. act d (sent device (show_tree host listed))) (λ device sender. inl refl)
        (λ device sender.
          replied host d "tree_request" m device (show_tree host listed) sender
            (show_tree-captured host listed))

-- The handlers of the requests about files send nothing, or one message to the sender of the
-- request, which the client takes for the response to a request of that type.
pub handlers-Replies :
    (host : Host) (d : Daemon) (m : Message)
    → Replies host d "rm_request" m (handle_rm host d m).1
      × Replies host d "mkdir_request" m (handle_mkdir host d m).1
      × Replies host d "ls_request" m (handle_ls host d m).1
      × Replies host d "tree_request" m (handle_tree host d m).1
handlers-Replies host d m = (
  handle_rm-Replies host d m,
  handle_mkdir-Replies host d m,
  handle_ls-Replies host d m,
  handle_tree-Replies host d m,
)
