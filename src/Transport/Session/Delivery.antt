-- ===== src/Transport/Session/Delivery.antt =====
-- What a packet of one session is for the session at the other end.
use natbuster.Prelude.{
  ℕ, ◌≡◌, sym, ap, ◌∙◌, true, false, some, inl, inr, List, [], ◌∷◌, ◌++◌, arith, length, take, drop,
  Option-cases, some_inj, Bool, Bool-cases, ltb, ◌==◌, if◌then◌else◌, refl, ◌>>=◌,
}
use natbuster.Crypto.Cipher.{
  Gcm, GcmLaws, Cipher, encrypt, decrypt, set_packet, le64, tag_size, add64,
}
use natbuster.Crypto.Cipher.Stream.{InStep, decrypt-encrypt}
use natbuster.Transport.Link.{Link, send_internal, send_kex, packet_data}
use natbuster.Proto.Keys.{Keys}
use natbuster.Proto.Kex.{Random}
use natbuster.Proto.Kex.Client
use natbuster.Proto.Kex.Server
use natbuster.Transport.Session.{
  Session, Result, packet, handle, handle_bytes, kex_recv, after_kex, on_packet, send,
}

-- One end encrypts, the other decrypts, has finished its key exchange and is in step with the first:
-- a packet that the first sends is delivered whole by the other, and the two are in step again.
pub on_packet-send :
    {K : Keys} (g : Gcm) (s s' r : Session K) (rnd : Random K) (d : List ℕ)
    → GcmLaws g
    → InStep s.link.outbound r.link.inbound
    → s.link.enc_on_ob ≡ true
    → r.link.enc_on_ib ≡ true
    → r.link.first_kex_ok ≡ true
    → send g s d ≡ some s'
    → (p : List ℕ) × (r' : Session K) × (s'.link.sent ≡ s.link.sent ++ (p ∷ []))
      × (on_packet g r rnd p ≡ some (r', packet d ∷ []))
      × InStep s'.link.outbound r'.link.inbound
unfolding send send_internal on_packet handle_bytes handle
on_packet-send g s s' r rnd d laws step ob ib first e =
    elim (Option-cases (encrypt g s.link.outbound (packet_data ∷ d) [])) [
      | inl failed ↦ absurd (ground (arith, e, ob, failed))
      | inr ((p, c), sealed) ↦
          let (c', opened, step', l) =
            decrypt-encrypt g s.link.outbound c r.link.inbound (packet_data ∷ d) [] p laws step
              sealed in
          let next : some s'
              ≡ some (record s {
                link = record s.link { outbound = c; sent = s.link.sent ++ (p ∷ []) };
              }) =
            sym e ∙ ground (arith, ob, sealed) in
          let same =
            some_inj s'
              (record s { link = record s.link { outbound = c; sent = s.link.sent ++ (p ∷ []) } })
              next in
          (
            p,
            record r { link = record r.link { inbound = c' } },
            ap (λ q. q.link.sent) same,
            ground (arith, ib, first, opened),
            rw same step',
          )
    ]

if_same :
    {A : Type 0} (b : Bool) {x x' y y' : A}
    → x ≡ x'
    → y ≡ y'
    → (if b then x else y) ≡ (if b then x' else y')
if_same true e f = e
if_same false e f = f

-- The same cipher with another verdict on every tag.
abbrev pub judged : Gcm → (List ℕ → List ℕ → List ℕ → List ℕ → List ℕ → Bool) → Gcm
judged g verdict = record {
  seal = g.seal;
  unseal =
      λ key iv aad d tag. g.unseal key iv aad d tag >>= λ s. some (s.0, verdict key iv aad d tag);
}

module _ {K : Keys} (g : Gcm) (verdict : List ℕ → List ℕ → List ℕ → List ℕ → List ℕ → Bool) where
  kex_recv-judged :
      (s : Session K) (l : Link) (rnd : Random K) (d : List ℕ)
      → kex_recv (judged g verdict) s l rnd d ≡ kex_recv g s l rnd d
  unfolding kex_recv Client.recv Client.dispatch Client.on_version Client.on_hello
      Client.on_hello_key Client.on_newkeys Client.send_identity Server.recv Server.dispatch
      Server.on_version Server.on_hello Server.send_hello Server.on_newkeys Server.on_identity
      Server.check_proof send_kex send_internal encrypt
  kex_recv-judged s l rnd d = refl

  handle_bytes-judged :
      (s : Session K) (l : Link) (rnd : Random K) (d : List ℕ)
      → handle_bytes (judged g verdict) s l rnd d ≡ handle_bytes g s l rnd d
  unfolding handle_bytes handle after_kex
  handle_bytes-judged s l rnd [] = refl
  handle_bytes-judged s l rnd (type ∷ content) = rw (kex_recv-judged s l rnd content) refl

  -- What is done with the bytes and the cipher that a decryption leaves.
  decrypt-judged :
      (c : Cipher) (d : List ℕ) (k k' : Cipher → List ℕ → Result K)
      → ((c' : Cipher) (out : List ℕ) → k c' out ≡ k' c' out)
      → (decrypt (judged g verdict) c d [] >>= λ o. k o.cipher o.out)
        ≡ (decrypt g c d [] >>= λ o. k' o.cipher o.out)
  unfolding decrypt
  decrypt-judged c d k k' same =
      let c' = set_packet c (le64 c.sequential_packet_counter) in
      elim (Bool-cases (ltb (length d) tag_size)) [
        | inl h ↦ rw h (same c' [])
        | inr h ↦
            elim (Option-cases (g.unseal c'.key c'.iv [] (drop tag_size d) (take tag_size d))) [
              | inl e ↦ rw (h, e) refl
              | inr (s, e) ↦ elim (Bool-cases (length s.0 == length (drop tag_size d))) [
                | inl a ↦
                    rw (h, e, a)
                      (same
                        (record c' {
                          sequential_packet_counter = add64 c'.sequential_packet_counter 1;
                        })
                        s.0)
                | inr a ↦ rw (h, e, a) refl
              ]
            ]
      ]

  -- The verdict on the tags decides nothing: whatever the session and the packet, a call of
  -- `on_packet` leaves and reports the same whether the tags are found right or wrong.
  pub on_packet-judged :
      (s : Session K) (rnd : Random K) (p : List ℕ)
      → on_packet (judged g verdict) s rnd p ≡ on_packet g s rnd p
  unfolding on_packet
  on_packet-judged s rnd p =
      if_same s.link.enc_on_ib
        (decrypt-judged s.link.inbound p
          (λ c out. handle_bytes (judged g verdict) s (record s.link { inbound = c }) rnd out)
          (λ c out. handle_bytes g s (record s.link { inbound = c }) rnd out)
          (λ c out. handle_bytes-judged s (record s.link { inbound = c }) rnd out))
        (handle_bytes-judged s s.link rnd p)
