-- ===== src/Tests/Files.antt =====
-- Runs of homelink/files/.
use homelink.Files.Send.{pieces}
use homelink.Files.Send.Rebuild.{assemble, assemble-pieces_whole}
use homelink.Files.Transfer.{no_fault, FileTransfer, Platform, active_count}
use homelink.Files.Transfer.Chunks.{finish, find_complete, handle_complete, sha256_file}
use homelink.Files.Protocol.{
  complete, Codec, FileChunk, chunk-to_dict, count_chunks, TransferSession, active,
}
use homelink.Common.Dict
use homelink.Common.{
  ℕ, ◌-◌, ◌≤◌, String, ◌≡◌, refl, inl, inr, true, none, some, List, [], ◌∷◌, arith, take, replicate,
}
use homelink.Common.Paths.{path_name, join_path}
use homelink.Common.Text.{Text, codes}
use homelink.Common.Int.{pos}
use homelink.Common.Exc.{ok}
use homelink.Common.Json.{num, str, Message, Python, get}
use homelink.RateLimiter
use homelink.Files.SafeDest.{safe_dest, dest}
use homelink.Files.SafeDest.Laws.{Below, Named, safe_dest-Below}
use homelink.Files.Disk.{absent, regular, write}
use homelink.Files.Transfer.Receive.{Event, offered, chunk, completed, receive, receive-outside}
use homelink.Files.Transfer.Concurrent.{receive-active_count-le}
use homelink.Files.Transfer.Verified.{handle_complete-has_hash, has_hash}

abbrev hash : String
hash = "e3b0c44298fc1c149afbf4c8996fb92427ae41e4649b934ca495991b7852b855"

abbrev codec : Codec
codec = record { sha256 = λ content. hash; b64encode = λ content. ""; b64decode = λ v. ok [] }

abbrev python : Python
python = record { repr = λ v. "?"; parse_int = λ s. none }

abbrev platform : Platform
platform = record {
  py = python;
  codec = codec;
  resolve = λ p. p;
  explain = λ e name. "refused";
  os_text = λ node. "error";
}

abbrev piece : FileChunk
piece = record {
  transfer_id = str "t1";
  index = num (pos 0);
  total = num (pos 1);
  content = [];
  chunk_sha256 = str hash;
}

abbrev downloads : Text
downloads = codes "/home/ada/Downloads"

safe_dest_run :
    safe_dest (λ p. p) downloads (codes "../../etc/x") ≡ dest (codes "/home/ada/Downloads/x")
unfolding safe_dest path_name
safe_dest_run = refl

safe_dest-Below_example :
    Named (path_name (codes "../../etc/x"))
    × (codes "/home/ada/Downloads/x" ≡ join_path downloads (path_name (codes "../../etc/x")))
    × Below downloads (codes "/home/ada/Downloads/x")
safe_dest-Below_example =
    safe_dest-Below (λ p. p) downloads (codes "../../etc/x") (codes "/home/ada/Downloads/x")
      safe_dest_run

abbrev idle : FileTransfer
idle = record {
  device_id = "peer";
  downloads = downloads;
  max_size = pos 1000;
  sessions = [];
  offers = RateLimiter.new 2 60;
  disk = λ p. absent;
  outbox = [];
}

abbrev offer_x : Message
offer_x =
    ("transfer_id", str "t1")
    ∷ ("name", str "../x")
    ∷ ("size", num (pos 0))
    ∷ ("total_chunks", num (pos 1))
    ∷ ("sha256", str hash)
    ∷ []

abbrev events : List Event
events =
    offered offer_x no_fault 5
    ∷ chunk (chunk-to_dict codec piece) none
    ∷ completed (("transfer_id", str "t1") ∷ []) 9
    ∷ []

receive-outside_example : (receive platform idle events).disk (codes "/etc/passwd") ≡ absent
receive-outside_example =
    receive-outside platform idle events (codes "/etc/passwd") refl
      (λ within. elim within [ inl top ↦ cc | inr (inl same) ↦ cc | inr (inr (rest, e)) ↦ cc ])

receive-active_count-le_example : active_count (receive platform idle events).sessions ≤ 4
receive-active_count-le_example =
    receive-active_count-le platform idle events (unfold active_count in omega arith)

abbrev receiving : TransferSession
receiving = record {
  transfer_id = "t1";
  state = active;
  path = codes "/home/ada/Downloads/x";
  remote_path = "../x";
  size = pos 0;
  sha256 = hash;
  total_chunks = pos 1;
  sent_chunks = 0;
  received_chunks = 1;
  resume_offset = 0;
  started_at = 5;
  completed_at = none;
}

abbrev finished : TransferSession
finished = record receiving { state = complete; completed_at = some 9 }

abbrev busy : FileTransfer
busy = record idle {
  sessions = ("t1", receiving) ∷ [];
  disk = write (λ p. absent) (codes "/home/ada/Downloads/x") (regular []);
}

abbrev complete_x : Message
complete_x = ("transfer_id", str "t1") ∷ []

complete_run :
    Dict.lookup "t1" (handle_complete platform busy complete_x 9).1.sessions ≡ some finished
unfolding handle_complete find_complete finish sha256_file get Dict.lookup Dict.insert
complete_run = refl

handle_complete-has_hash_example :
    has_hash codec
      (handle_complete platform busy complete_x 9).1.disk
      (codes "/home/ada/Downloads/x")
      hash
    ≡ true
unfolding get Dict.lookup
handle_complete-has_hash_example =
    handle_complete-has_hash platform busy complete_x "t1" receiving finished 9 refl refl refl
      complete_run refl

abbrev half : List ℕ
half = replicate 3 7

assemble-pieces_whole_example :
    assemble 262_144 (pieces 262_144 half 0 (count_chunks 3 - 0)) (take 2 half) ≡ half
unfolding count_chunks
assemble-pieces_whole_example =
    assemble-pieces_whole half 0 2 (omega arith) (omega arith) (omega arith)
