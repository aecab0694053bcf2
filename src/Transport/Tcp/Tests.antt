-- ===== src/Transport/Tcp/Tests.antt =====
-- The theorems about common/transport/opt_tcp.cpp, applied to two packets in three chunks.
use natbuster.Prelude.{ℕ, ◌≡◌, refl, some, List, [], ◌∷◌, map, arith, length, length-replicate}
use natbuster.Prelude.Bytes.{le32}
use natbuster.Transport.Tcp.{State, init, send, send_raw, wrap}
use natbuster.Blob.{alloc}
use natbuster.Transport.Tcp.Buffer.{stream, IsValid}
use natbuster.Transport.Tcp.Stream.{Call, send_call, send_raw_call, event_of, wire, AllFit}
use natbuster.Transport.Tcp.Delivery.{feed, feed-wire}

abbrev calls : List Call
calls = send_call (7 ∷ 8 ∷ []) ∷ send_raw_call (9 ∷ []) ∷ []

-- The thirteen bytes of the two packets, cut inside the first header and the second.
abbrev chunks : List (List ℕ)
chunks = (1 ∷ 2 ∷ 0 ∷ []) ∷ (0 ∷ 0 ∷ 7 ∷ 8 ∷ 2 ∷ 1 ∷ []) ∷ (0 ∷ 0 ∷ 0 ∷ 9 ∷ []) ∷ []

chunks-wire : stream chunks ≡ wire calls
unfolding send send_raw wrap le32
chunks-wire = refl

calls-AllFit : AllFit calls
calls-AllFit = (omega arith, (omega arith, tt))

thirteen_bytes : length (wire calls) ≡ 13
unfolding send send_raw wrap le32
thirteen_bytes = refl

feed-wire_example :
    (s : State) × (feed init chunks ≡ some (s, map event_of calls)) × (stream s.frags ≡ [])
feed-wire_example = feed-wire calls chunks calls-AllFit (omega (arith, thirteen_bytes)) chunks-wire

init-IsValid : IsValid init
init-IsValid = record { counted = refl; word = omega arith }

zeros_length : (n : ℕ) → length (alloc n) ≡ n
unfolding alloc
zeros_length n = length-replicate n 0
