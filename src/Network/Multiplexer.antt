-- ===== src/Network/Multiplexer.antt =====
-- `UDPMultiplexed` of common/network/network.cpp: one UDP socket for many remote addresses. The routes are
-- weak references, so the route objects are a store of their own, by number, with their remote addresses;
-- an address is a number, as only equality is asked of it. The callbacks that are called are events.
pub mod Heard
pub mod Delivery
mod Tests
use natbuster.Prelude.{
  ℕ, suc, ◌+◌, ◌≡◌, ◌≢◌, refl, ap, sym, ◌∙◌, inl, inr, Bool, true, false, Bool-cases, ◌||◌, Option,
  none, some, Option-cases, List, [], ◌∷◌, ◌++◌, append_assoc, append-nil, arith, ◌==◌, ==_iff,
  if◌then◌else◌,
}
use natbuster.Prelude.Assoc.{lookup, assign, assign_self, assign_other}

pub record Multiplexed : Type 0 where
  pub routes : List ℕ
  pub objects : List (ℕ × ℕ)

pub data Event : Type 0 where
  start_of : ℕ → Event
  error_of : ℕ → ℕ → Event
  close_of : ℕ → Event
  packet_of : ℕ → List ℕ → Event
  unfiltered_of : ℕ → List ℕ → ℕ → Event
  unknown_packet : List ℕ → ℕ → Event
  packet : List ℕ → Event
  unfiltered_packet : List ℕ → ℕ → Event
  start : Event
  error : ℕ → Event
  close : Event
  sent_to : List ℕ → ℕ → Event

-- The loop over the routes: what is called on each that is there; the others are erased.
unfoldable pub each_route : List (ℕ × ℕ) → (ℕ → ℕ → List Event) → List ℕ → List ℕ × List Event
each_route objects call [] = ([], [])
each_route objects call (r ∷ rs) =
    let rest = each_route objects call rs in
    elim (lookup r objects) [ none ↦ rest | some remote ↦ (r ∷ rest.0, call r remote ++ rest.1) ]

-- `found`: some route that is there has the address.
unfoldable pub found : List (ℕ × ℕ) → ℕ → List ℕ → Bool
found objects address [] = false
found objects address (r ∷ rs) =
    let rest = found objects address rs in
    elim (lookup r objects) [ none ↦ rest | some remote ↦ if remote == address then true else rest ]

unfoldable pub notify : (ℕ → ℕ → List Event) → List Event → Multiplexed → Multiplexed × List Event
notify call last m =
    let r = each_route m.objects call m.routes in (record m { routes = r.0 }, r.1 ++ last)

unfoldable pub on_start : Multiplexed → Multiplexed × List Event
on_start m = notify (λ r remote. start_of r ∷ []) (start ∷ []) m

unfoldable pub on_error : Multiplexed → ℕ → Multiplexed × List Event
on_error m code = notify (λ r remote. error_of r code ∷ []) (error code ∷ []) m

unfoldable pub on_close : Multiplexed → Multiplexed × List Event
on_close m = notify (λ r remote. close_of r ∷ []) (close ∷ []) m

unfoldable pub on_packet : Multiplexed → List ℕ → Multiplexed × List Event
on_packet m view = (m, packet view ∷ [])

abbrev pub to_route : List ℕ → ℕ → ℕ → ℕ → List Event
to_route view address r remote =
    if remote == address
    then packet_of r view ∷ unfiltered_of r view address ∷ []
    else unfiltered_of r view address ∷ []

unfoldable pub on_unfiltered_packet : Multiplexed → List ℕ → ℕ → Multiplexed × List Event
on_unfiltered_packet m view address =
    notify (to_route view address)
      ((if found m.objects address m.routes then [] else unknown_packet view address ∷ [])
        ++ (unfiltered_packet view address ∷ []))
      m

-- The new route is the object `r`.
unfoldable pub add_remote : Multiplexed → ℕ → ℕ → Multiplexed
add_remote m r remote = record {
  routes = m.routes ++ (r ∷ []);
  objects = assign r remote m.objects;
}

-- `UDPMultiplexedRoute::send`
unfoldable pub route_send : Multiplexed → ℕ → List ℕ → List Event
route_send m r view = elim (lookup r m.objects) [
  | none ↦ []
  | some remote ↦ sent_to view remote ∷ []
]
