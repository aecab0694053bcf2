-- ===== src/Endpoint/Forward.antt =====
-- What `C2ServerRoute` of common/endpoint/c2_server.cpp passes on.
use natbuster.Prelude.{ℕ, ◌+◌, ◌≡◌, refl, ap, List, [], ◌∷◌}
use natbuster.Endpoint.Routes.{
  Side, a, b, Relayed, starts, starts_client, sends, leaves, closes, Call, opened, packet, failed,
  closed, other, route_call, route_calls,
}

abbrev pub came_from : Side → List Call → List (List ℕ)
came_from s [] = []
came_from a (packet a view ∷ cs) = view ∷ came_from a cs
came_from b (packet b view ∷ cs) = view ∷ came_from b cs
came_from a (packet b view ∷ cs) = came_from a cs
came_from b (packet a view ∷ cs) = came_from b cs
came_from s (opened ∷ cs) = came_from s cs
came_from s (failed code ∷ cs) = came_from s cs
came_from s (closed side ∷ cs) = came_from s cs

abbrev pub went_to : Side → List Relayed → List (List ℕ)
went_to s [] = []
went_to a (sends a view ∷ cs) = view ∷ went_to a cs
went_to b (sends b view ∷ cs) = view ∷ went_to b cs
went_to a (sends b view ∷ cs) = went_to a cs
went_to b (sends a view ∷ cs) = went_to b cs
went_to s (starts side ∷ cs) = went_to s cs
went_to s (starts_client view ∷ cs) = went_to s cs
went_to s (leaves ∷ cs) = went_to s cs
went_to s (closes side ∷ cs) = went_to s cs

abbrev pub left : List Relayed → ℕ
left [] = 0
left (leaves ∷ cs) = 1 + left cs
left (starts side ∷ cs) = left cs
left (starts_client view ∷ cs) = left cs
left (sends side view ∷ cs) = left cs
left (closes side ∷ cs) = left cs

-- Each pipe of a route gets exactly the packets of the other, in order. But no callback takes the route
-- out of the server's list: it stays there, also when both pipes have closed.
pub route_calls_lem :
    (side : Side) (cs : List Call)
    → (went_to (other side) (route_calls cs) ≡ came_from side cs) × (left (route_calls cs) ≡ 0)
unfolding route_calls route_call
route_calls_lem a [] = (refl, refl)
route_calls_lem b [] = (refl, refl)
route_calls_lem a (opened ∷ cs) = route_calls_lem a cs
route_calls_lem b (opened ∷ cs) = route_calls_lem b cs
route_calls_lem a (failed code ∷ cs) = route_calls_lem a cs
route_calls_lem b (failed code ∷ cs) = route_calls_lem b cs
route_calls_lem a (closed s ∷ cs) = route_calls_lem a cs
route_calls_lem b (closed s ∷ cs) = route_calls_lem b cs
route_calls_lem a (packet a v ∷ cs) = let (p, q) = route_calls_lem a cs in (ap (λ l. v ∷ l) p, q)
route_calls_lem b (packet b v ∷ cs) = let (p, q) = route_calls_lem b cs in (ap (λ l. v ∷ l) p, q)
route_calls_lem a (packet b v ∷ cs) = route_calls_lem a cs
route_calls_lem b (packet a v ∷ cs) = route_calls_lem b cs
