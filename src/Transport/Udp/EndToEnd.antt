-- ===== src/Transport/Udp/EndToEnd.antt =====
-- Packets that `send` of common/transport/opt_udp.cpp cuts, over a network that loses, repeats and
-- reorders, to `on_receive` of the other side.
use natbuster.Prelude.{
  ℕ, ◌*◌, ◌<◌, ◌^◌, ◌≡◌, refl, ap, sym, ◌∙◌, Option, some, List, [], ◌∷◌, ◌++◌, length, map,
  u32_mod, ◌>>=◌, subst, some_inj,
}
use natbuster.Transport.Udp.{Effect, datagram, packet, Estimator, Settings, State, init}
use natbuster.Transport.Udp.Send.{send}
use natbuster.Transport.Udp.Frames.{in_order, in_order-append, Numbered, Numbered-append}
use natbuster.Transport.Udp.Sender.{IsValid, init-IsValid, Usable, send_lem}
use natbuster.Transport.Udp.Receive.{packets}
use natbuster.Transport.Udp.Delivery.{
  receive_all, Arrivals, arriving, AllBelow, Complete, receive_all_prefix, receive_all-Complete,
}
use mathlib.Core.List.{map-append}

-- Packets that are sent one after the other, each at its time.
unfoldable pub send_all :
    {E : Estimator} → Settings → State E → List (ℕ × List ℕ) → Option (State E × List Effect)
send_all c s [] = some (s, [])
send_all c s ((now, d) ∷ ds) =
    send c s now d >>= λ r. send_all c r.0 ds >>= λ t. some (t.0, r.1 ++ t.1)

-- Packets that are not empty, and whose size is a `uint32_t`.
abbrev pub AllData : List (ℕ × List ℕ) → Type 0
AllData [] = Unit {0}
AllData (d ∷ ds) = (0 < length d.1) × (length d.1 < u32_mod) × AllData ds

-- The datagrams among the effects, and the packets that were sent.
unfoldable pub datagrams : List Effect → List (List ℕ)
datagrams [] = []
datagrams (datagram p ∷ es) = p ∷ datagrams es
datagrams (_ ∷ es) = datagrams es

abbrev pub packets_of : List (ℕ × List ℕ) → List Effect
packets_of ds = map (λ d. packet d.1) ds

pub datagrams-map : (ps : List (List ℕ)) → datagrams (map datagram ps) ≡ ps
unfolding datagrams
datagrams-map [] = refl
datagrams-map (p ∷ ps) = ap (λ r. p ∷ r) (datagrams-map ps)

pub send_all_lem :
    {E : Estimator} (c : Settings) (s : State E) (ds : List (ℕ × List ℕ))
    → Usable c
    → IsValid s
    → AllData ds
    → (s' : State E) × (fs : List (List ℕ)) × (send_all c s ds ≡ some (s', map datagram fs))
      × Numbered s.tx_seq fs
      × (in_order [] fs ≡ some ([], packets_of ds))
unfolding send_all in_order
send_all_lem c s [] u v h = (s, [], refl, tt, refl)
send_all_lem c s ((now, d) ∷ ds) u v h =
    let (s1, ps, run, r) = send_lem c s now d u v h.0 h.1 in
    let (s', fs, runs, numbered, makes) = send_all_lem c s1 ds u r.valid h.2 in
    (
      s',
      ps ++ fs,
      rw (run, runs, map-append) refl,
      Numbered-append s.tx_seq ps fs v.word r.numbered (subst (λ n. Numbered n fs) r.next numbered),
      in_order-append [] ps fs ∙ rw (r.delivered, makes) refl,
    )

sent_frames :
    {E : Estimator} (c : Settings) (ping : E.Ping) (ds : List (ℕ × List ℕ)) (s : State E)
    (es : List Effect)
    → Usable c
    → AllData ds
    → send_all c (init E ping) ds ≡ some (s, es)
    → Numbered 0 (datagrams es) × (in_order [] (datagrams es) ≡ some ([], packets_of ds))
sent_frames {E} c ping ds s es u h run =
    let (s', fs, run', numbered, makes) = send_all_lem c (init E ping) ds u init-IsValid h in
    let same : map datagram fs ≡ es =
      ap (λ r. r.1) (some_inj (s', map datagram fs) (s, es) (sym run' ∙ run)) in
    let e : fs ≡ datagrams es = sym (datagrams-map fs) ∙ ap datagrams same in
    (subst (Numbered 0) e numbered, subst (λ f. in_order [] f ≡ some ([], packets_of ds)) e makes)

-- Packets that are not empty are sent in fewer than 2^25 frames, and a new receiver gets frames of
-- them in any order, some not at all and some more than once. No call fails, and the packets that the
-- receiver hands on are the first ones that were sent, in order.
pub delivered_prefix :
    {E : Estimator} (c c' : Settings) (ping ping' : E.Ping) (ds : List (ℕ × List ℕ)) (s : State E)
    (es : List Effect) (net : Arrivals)
    → Usable c
    → AllData ds
    → send_all c (init E ping) ds ≡ some (s, es)
    → 64 * length (datagrams es) < 2 ^ 31
    → AllBelow (length (datagrams es)) net
    → (s' : State E) × (es' : List Effect) × (todo : List Effect) × (receive_all c'
          (init E ping')
          (arriving (datagrams es) net)
        ≡ some (s', es'))
      × (packets es' ++ todo ≡ packets_of ds)
delivered_prefix c c' ping ping' ds s es net u h run small below =
    let (numbered, makes) = sent_frames c ping ds s es u h run in
    receive_all_prefix c' (datagrams es) ([], packets_of ds) makes small numbered ping' net below

-- If, besides, each frame comes at least once, the receiver hands on exactly the packets that were
-- sent, in order, each once.
pub delivered_all :
    {E : Estimator} (c c' : Settings) (ping ping' : E.Ping) (ds : List (ℕ × List ℕ)) (s : State E)
    (es : List Effect) (net : Arrivals)
    → Usable c
    → AllData ds
    → send_all c (init E ping) ds ≡ some (s, es)
    → 64 * length (datagrams es) < 2 ^ 31
    → AllBelow (length (datagrams es)) net
    → Complete (length (datagrams es)) net
    → (s' : State E) × (es' : List Effect) × (receive_all c'
          (init E ping')
          (arriving (datagrams es) net)
        ≡ some (s', es'))
      × (packets es' ≡ packets_of ds)
delivered_all c c' ping ping' ds s es net u h run small below came =
    let (numbered, makes) = sent_frames c ping ds s es u h run in
    receive_all-Complete c' (datagrams es) ([], packets_of ds) makes small numbered ping' net below
      came
