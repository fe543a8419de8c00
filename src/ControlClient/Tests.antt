-- ===== src/ControlClient/Tests.antt =====
-- A client whose node is unknown, and a server that fails twice and then answers.
use appx_forge.Base.{ℕ, zero, suc, [], some, none, false}
use appx_forge.ControlClient.{
  Client, ClientOutside, Reply, no_reply, replied, send_heartbeat, send_ack, poll_commands,
  report_event,
}
use appx_forge.ControlClient.Registering.{IsWithin}
use appx_forge.ControlClient.Retrying.{requests-IsWithin}

abbrev server : ℕ → Reply
server zero = replied 404 none
server (suc zero) = replied 503 none
server (suc (suc zero)) = no_reply
server (suc (suc (suc n))) = replied 201 (some ("n2", "t2"))

abbrev outside : ClientOutside
outside = record { api_token = "k"; reply = server; ends = λ n. false; commands = λ n. none }

abbrev client : Client
client = record { node_id = "n1"; token = "t1"; requests = []; pauses = [] }

requests-IsWithin_example :
    IsWithin 7 client (send_heartbeat outside client).1
    × IsWithin 7 client (send_ack outside client).1
    × IsWithin 7 client (poll_commands outside client).1
    × IsWithin 8 client (report_event outside client).1
requests-IsWithin_example = requests-IsWithin outside client
