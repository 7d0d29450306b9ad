-- ===== src/Tests/Client.antt =====
-- Runs of homelink/cli/client.py.
use homelink.Common.Json.{done, obj, bool, Message, str}
use homelink.Common.{◌≡◌, refl, true, some, [], ◌∷◌}
use homelink.Common.Exc.{ok, raise, transport_error, attribute_error}
use homelink.Config.{HomeLinkConfig}
use homelink.Tests.Config.{config}
use homelink.Tests.Relay.{encoder}
use homelink.Tests.Service.{host, daemon, rm}
use homelink.Daemon.{handle_rm, handle_mkdir, handle_ls, handle_tree}
use homelink.Client.{send_request, download_file, await_response, captures}
use homelink.Client.Requests.{send_request-unanswered}
use homelink.Client.Waiting.{Replies, handlers-Replies}

abbrev here : HomeLinkConfig
here = record config { telegram = record (config.telegram) { bot_token = str "1:A" } }

abbrev request : Message
request = ("type", str "ls_request") ∷ []

abbrev reply : Message
reply = ("type", str "ls_result") ∷ []

abbrev accepted : Message
accepted = ("ok", bool true) ∷ ("result", obj done) ∷ []

-- The first response of the type is taken.
await_response_run : await_response (str "ls_request") (request ∷ reply ∷ []) ≡ some reply
unfolding await_response captures
await_response_run = refl

send_request-unanswered_example :
    (send_request encoder (ok here) "AB" request 0 "n" (ok accepted) (ok accepted) (reply ∷ [])
      ≡ raise transport_error)
    × (download_file encoder (ok here) (ok accepted) ≡ raise attribute_error)
send_request-unanswered_example =
    send_request-unanswered encoder here "AB" request 0 "n" (ok accepted) (ok accepted) (reply ∷ [])

handlers-Replies_example :
    Replies host daemon "rm_request" rm (handle_rm host daemon rm).1
    × Replies host daemon "mkdir_request" rm (handle_mkdir host daemon rm).1
    × Replies host daemon "ls_request" rm (handle_ls host daemon rm).1
    × Replies host daemon "tree_request" rm (handle_tree host daemon rm).1
handlers-Replies_example = handlers-Replies host daemon rm
