-- ===== src/Network/Multiplexer/Tests.antt =====
-- Tests of Network/Multiplexer.
use natbuster.Prelude.{◌≡◌, [], ◌∷◌, if◌then◌else◌}
use natbuster.Network.Multiplexer.{
  Multiplexed, on_unfiltered_packet, unknown_packet, unfiltered_packet,
}
use natbuster.Network.Multiplexer.Heard.{heard, own, copies, due, times, there}
use natbuster.Network.Multiplexer.Delivery.{Known, on_unfiltered_packet_lem}

-- The route 1 is gone.
abbrev three_routes : Multiplexed
three_routes = record { routes = 0 ∷ 1 ∷ 2 ∷ []; objects = (0, 50) ∷ (2, 70) ∷ [] }

on_unfiltered_packet_lem_example :
    let out = on_unfiltered_packet three_routes (9 ∷ []) 70 in
    (heard 2 out.1 ≡ copies (times 2 three_routes.routes) (due three_routes.objects (9 ∷ []) 70 2))
    × (times 2 out.0.routes
        ≡ (if there three_routes.objects 2 then times 2 three_routes.routes else 0))
    × (Known three_routes 70 → own out.1 ≡ unfiltered_packet (9 ∷ []) 70 ∷ [])
    × (¬ Known three_routes 70
        → own out.1 ≡ unknown_packet (9 ∷ []) 70 ∷ unfiltered_packet (9 ∷ []) 70 ∷ [])
on_unfiltered_packet_lem_example = on_unfiltered_packet_lem three_routes (9 ∷ []) 70 2
