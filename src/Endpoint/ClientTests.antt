-- ===== src/Endpoint/ClientTests.antt =====
-- Runs of the query, the relays and the client of common/endpoint.
use natbuster.Prelude.{ℕ, ◌≡◌, refl, true, false, Option, some, none, List, [], ◌∷◌, arith}
use natbuster.Proto.Keys.{User, add_user, find_by_fingerprint, UserGroup}
use natbuster.Proto.Sample.{number_keys}
use natbuster.Proto.Users.{no_users, added}
use natbuster.Endpoint.IpQuery
use natbuster.Endpoint.IpQuery.{IpClient, sent, closes, get_my_ip, get_my_port, on_packet-on_open}
use natbuster.Endpoint.Routes.{
  RouterTcpRoute, Effect, Event, pipe_open, pipe_packet, socket_packet, socket_close, pipe_close,
  run,
}
use natbuster.Endpoint.Relay.{Relayed, run-Relayed}
use natbuster.Endpoint.Client
use natbuster.Endpoint.Client.{open_data, on_pipe-open_data}

on_packet-on_open_example :
    (data_sent : List ℕ) × (c' : IpClient) × (IpQuery.on_open (49 ∷ 46 ∷ 50 ∷ []) 5987
      ≡ some (sent data_sent ∷ closes ∷ []))
    × (IpQuery.on_packet (record { success = false; my_ip = []; my_port = 0 }) data_sent
        ≡ some (c', closes ∷ []))
    × (get_my_ip c' ≡ some (49 ∷ 46 ∷ 50 ∷ []))
    × (get_my_port c' ≡ some 5987)
on_packet-on_open_example =
    on_packet-on_open (record { success = false; my_ip = []; my_port = 0 }) (49 ∷ 46 ∷ 50 ∷ []) 5987
      (omega arith) (omega arith)

abbrev client_route : RouterTcpRoute
client_route = record { is_client = true; registered = true }

abbrev both_close : List Event
both_close =
    pipe_open ∷ socket_packet (1 ∷ 2 ∷ []) ∷ pipe_packet (7 ∷ []) ∷ pipe_close ∷ socket_close ∷ []

run-Relayed_example :
    (r' : RouterTcpRoute) × (out : List Effect) × (run client_route both_close ≡ some (r', out))
    × Relayed client_route both_close r' out
run-Relayed_example = run-Relayed both_close client_route refl

abbrev ann : User number_keys
ann = record { name = 97 ∷ []; key = some 3; ports = [] }

on_pipe-open_data_example :
    Client.on_pipe number_keys (add_user number_keys [] ann).0 (open_data number_keys (4 ∷ []))
    ≡ (elim (find_by_fingerprint number_keys (add_user number_keys [] ann).0 (4 ∷ []))
        as (λ o. Option (UserGroup number_keys)) [ none ↦ none | some u ↦ some ((4 ∷ [], u) ∷ []) ])
on_pipe-open_data_example =
    on_pipe-open_data number_keys (add_user number_keys [] ann).0 (4 ∷ [])
      (added ann 3 (3 ∷ []) refl refl no_users)
