-- ===== src/Requests/Tests.antt =====
-- Entry points on a session with one other client, and their theorems at concrete inputs.
use beta.Base.{Bool, true, Option, none, some, List, [], ◌∷◌, ◌++◌, Text, nat_equal, ◌≡◌, refl}
use beta.Command.{Command}
use beta.Engine.{
  Engine, TsConnection, new_connection, new_session, new_engine, is_connected, own_client_id,
}
use beta.Requests.Queue.{queue_command}
use beta.Requests.Moderation.{ts_kick_client}
use beta.Requests.Calls.{call, kicks}
use beta.Requests.Admission.{Effect}
use beta.Requests.Admission.Calls.{call-Effect}

-- A channel that keeps what is sent.
abbrev push_to : List Command → Command → Option (List Command)
push_to sent c = some (sent ++ c ∷ [])

abbrev is_ip_addr : Text → Bool
is_ip_addr s = true

-- Client 3 is the own client of connection 1.
abbrev online : TsConnection
online = record new_connection { connected = true; own_client_id = 3 }

abbrev engine : Engine (List Command)
engine = record new_engine {
  sessions = (1, record (new_session 1 online 0) { command_tx = some [] }) ∷ [];
}

call-Effect_example : Effect push_to engine 1 (call push_to is_ip_addr engine 1 (kicks 5 1 none))
call-Effect_example = call-Effect push_to is_ip_addr engine 1 (kicks 5 1 none)

kick_sends : (ts_kick_client push_to engine 1 5 1 none).1 ≡ 1
unfolding ts_kick_client queue_command is_connected own_client_id
kick_sends = refl

kick_of_self : (ts_kick_client push_to engine 1 3 1 none).1 ≡ 0
unfolding ts_kick_client is_connected own_client_id
kick_of_self = refl
