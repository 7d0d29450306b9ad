-- ===== src/Control/Silent.antt =====
-- Requests without a response, in the commands of homelink/cli/ctl.py.
use homelink.Common.Dict
use homelink.Common.{String, ◌<>◌, ◌≡◌, refl, [], ◌∷◌}
use homelink.Common.Exc.{ok}
use homelink.Common.Json.{Value, num, Python, get, to_str}
use homelink.Common.Int.{pos}
use homelink.Client.{no_transport, timeout, answer_message}
use homelink.Control.{out, err, returns, exits, exec, rm, mkdir, show_output, show_change}

-- `exec` shows neither that there is no transport nor that a response did not come in time, and
-- returns as after a success; `rm` and `mkdir` show that there is no transport, and leave with the
-- status 1.
pub exec-unanswered :
    (py : Python) (command path : String) (kind : Value)
    → let prompt = out ("[dim]$ " <> (command <> "[/dim]")) in
      let nowhere = ok (answer_message py no_transport) in
      let refused =
        err ("[red]" <> ("No transport available. Is the daemon running?" <> "[/red]")) ∷ [] in
      (exec py command nowhere ≡ (prompt ∷ [], returns))
      × (exec py command (ok (answer_message py (timeout kind))) ≡ (prompt ∷ [], returns))
      × (rm py path nowhere ≡ (refused, exits (num (pos 1))))
      × (mkdir py path nowhere ≡ (refused, exits (num (pos 1))))
unfolding exec rm mkdir show_output show_change get to_str Dict.lookup
exec-unanswered py command path kind = (refl, refl, refl, refl)
