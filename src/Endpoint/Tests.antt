-- ===== src/Endpoint/Tests.antt =====
-- The theorems about common/endpoint, applied to a server with one connection and one router.
use natbuster.Prelude.{
  ℕ, ◌≡◌, ◌≢◌, ◌↔◌, refl, true, false, none, some, List, [], ◌∷◌, arith, replicate,
}
use natbuster.Prelude.Assoc.{lookup, assign, erase, assign_self}
use natbuster.Endpoint.Connections.{
  unset, at_key, C2Server, connect, enter, eject, on_open, on_close, on_pipe, opens_route, number,
  IsValid,
}
use natbuster.Endpoint.Table.{with_place}
use natbuster.Endpoint.Login.{
  Reach, starts, connects, opens, Reach-IsValid, on_close-Reach, on_open-on_pipe,
}
use natbuster.Endpoint.Router
use natbuster.Proto.Keys.{PortSettings}
use natbuster.Endpoint.Router.{request, Permitted, on_pipe-request}

abbrev empty_server : C2Server
empty_server = record { connection_lookup = []; endpoints = [] }

no_endpoint : lookup 0 empty_server.endpoints ≡ none
unfolding lookup
no_endpoint = refl

connected : Reach (connect empty_server 0)
connected = connects 0 starts no_endpoint

no_place : lookup 0 (connect empty_server 0).endpoints ≡ some (with_place unset)
unfolding connect
no_place = assign_self 0 (with_place unset) []

abbrev pipe_request : List ℕ
pipe_request = 1 ∷ replicate 32 7

on_open-on_pipe_example :
    on_pipe
      (on_open (connect empty_server 0) 0 (some (number (replicate 32 7)))).0
      (some 12)
      pipe_request
    ≡ opens_route 0 12 ∷ []
on_open-on_pipe_example =
    on_open-on_pipe (connect empty_server 0) 0 (number (replicate 32 7)) 12 pipe_request connected
      no_place refl refl refl

abbrev logged_in : C2Server
logged_in = (on_open (connect empty_server 0) 0 (some 77)).0

logged_in-Reach : Reach logged_in
logged_in-Reach = opens 0 (some 77) connected no_place

place_77 : lookup 0 logged_in.endpoints ≡ some (with_place (at_key 77))
unfolding on_open enter eject connect lookup assign erase
place_77 = refl

on_close-Reach_example :
    (s' : C2Server) × (on_close logged_in 0 ≡ some s')
    × (lookup 0 s'.endpoints ≡ none)
    × ((f : ℕ) → lookup f s'.connection_lookup ≢ some 0)
on_close-Reach_example =
    on_close-Reach logged_in 0 (with_place (at_key 77)) logged_in-Reach place_77 (λ h. cc)

Reach-IsValid_example : IsValid logged_in
Reach-IsValid_example = Reach-IsValid logged_in-Reach

-- Ports 8000 to 8010, to push.
abbrev web : List PortSettings
web =
    record {
      dir_pull = false;
      dir_push = true;
      proto_tcp = true;
      proto_udp = false;
      port_min = 8000;
      port_max = 8010;
    }
    ∷ []

on_pipe-request_example : (Router.on_pipe web (request 8005) ≡ some 8005) ↔ Permitted web 8005
on_pipe-request_example = on_pipe-request web 8005 (omega arith)
