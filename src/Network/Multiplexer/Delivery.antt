-- ===== src/Network/Multiplexer/Delivery.antt =====
-- Which route of common/network/network.cpp gets a packet.
use natbuster.Prelude.{
  ℕ, ◌≤◌, ◌≡◌, refl, ◌∙◌, inl, inr, Bool, true, false, Bool-cases, List, [], ◌∷◌, ◌++◌, append-nil,
  arith, if◌then◌else◌,
}
use natbuster.Network.Multiplexer.Heard.{
  times, heard, own, copies, heard-append, own-append, has_address, there, due, heard-events,
  own-events,
}
use natbuster.Network.Multiplexer.{
  Multiplexed, unknown_packet, unfiltered_packet, each_route, found, notify, to_route,
  on_unfiltered_packet,
}

-- Some route of the list is there and has the address.
abbrev pub Known : Multiplexed → ℕ → Type 0
Known m address = (q : ℕ) × (has_address m.objects address q ≡ true) × (1 ≤ times q m.routes)

module _ (objects : List (ℕ × ℕ)) (view : List ℕ) (address : ℕ) where
  kept :
      (r : ℕ) (rs : List ℕ)
      → times r (each_route objects (to_route view address) rs).0
        ≡ (if there objects r then times r rs else 0)
  unfolding each_route times
  kept r [] = ground arith
  kept r (s ∷ rs) = ground (arith, kept r rs)

  found-some :
      (rs : List ℕ)
      → found objects address rs ≡ true
      → (r : ℕ) × (has_address objects address r ≡ true) × (1 ≤ times r rs)
  unfolding found times
  found-some [] h = cc
  found-some (s ∷ rs) h = elim (Bool-cases (has_address objects address s)) [
    | inl a ↦ (s, a, ground arith)
    | inr a ↦ let (r, b, l) = found-some rs (ground (arith, a, h)) in (r, b, ground (arith, l))
  ]

  some-found :
      (rs : List ℕ) (r : ℕ)
      → has_address objects address r ≡ true
      → 1 ≤ times r rs
      → found objects address rs ≡ true
  unfolding found times
  some-found [] r a l = absurd (omega arith)
  some-found (s ∷ rs) r a l = ground (arith, a, l, some-found rs r)

heard_last :
    (view : List ℕ) (address r : ℕ) (b : Bool)
    → heard r (
        (if b then [] else unknown_packet view address ∷ [])
        ++ (unfiltered_packet view address ∷ []))
      ≡ []
unfolding heard
heard_last view address r true = refl
heard_last view address r false = refl

own_last :
    (view : List ℕ) (address : ℕ) (b : Bool)
    → own (
        (if b then [] else unknown_packet view address ∷ [])
        ++ (unfiltered_packet view address ∷ []))
      ≡ (if b then [] else unknown_packet view address ∷ [])
        ++ (unfiltered_packet view address ∷ [])
unfolding own
own_last view address true = refl
own_last view address false = refl

-- A packet from an address: each route that is there is told of these bytes and this address as a
-- filtered packet, if the address is its own, and then as an unfiltered one, once for each time it is
-- in the list, and of nothing else; a route that is gone is told nothing and leaves the list, and only
-- such a route. The owner of the socket is told of the bytes as an unfiltered packet, and before that
-- as an unknown one exactly if no route that is there has the address.
pub on_unfiltered_packet_lem :
    (m : Multiplexed) (view : List ℕ) (address r : ℕ)
    → let out = on_unfiltered_packet m view address in
      (heard r out.1 ≡ copies (times r m.routes) (due m.objects view address r))
      × (times r out.0.routes ≡ (if there m.objects r then times r m.routes else 0))
      × (Known m address → own out.1 ≡ unfiltered_packet view address ∷ [])
      × (¬ Known m address
          → own out.1 ≡ unknown_packet view address ∷ unfiltered_packet view address ∷ [])
unfolding on_unfiltered_packet notify
on_unfiltered_packet_lem m view address r =
    let b = found m.objects address m.routes in
    let es = (each_route m.objects (to_route view address) m.routes).1 in
    let last =
      (if b then [] else unknown_packet view address ∷ [])
      ++ (unfiltered_packet view address ∷ []) in
    let owned : own (es ++ last) ≡ last =
      own-append es last
      ∙ rw (own-events m.objects view address m.routes, own_last view address b) refl in
    (
      heard-append r es last
          ∙ rw (heard-events m.objects view address r m.routes, heard_last view address r b)
              (append-nil (copies (times r m.routes) (due m.objects view address r))),
      kept m.objects view address r m.routes,
      λ (q, a, l). owned ∙ rw (some-found m.objects view address m.routes q a l) refl,
      λ unknown. elim (Bool-cases b) [
        | inl h ↦ absurd (unknown (found-some m.objects view address m.routes h))
        | inr h ↦ owned ∙ rw h refl
      ],
    )
