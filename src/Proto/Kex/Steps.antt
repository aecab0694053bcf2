-- ===== src/Proto/Kex/Steps.antt =====
-- `recv` of common/transport/kex_v1.cpp keeps to the order of the messages, on both sides.
use natbuster.Prelude.{
  ℕ, ◌≡◌, sym, subst, not, some, List, [], ◌∷◌, ◌==◌, length, All, All-if, All-some,
}
use natbuster.Blob.Packed.{Reader, reader}
use natbuster.Crypto.Cipher.{Gcm}
use natbuster.Transport.Link.{Link}
use natbuster.Proto.Keys.{Keys}
use natbuster.Proto.Kex.{
  State, s0_new, s1_m1, s2_m2, kf_done, kf_err, k1_c_hello, k2_s_hello, k3_s_enc, k4_c_enc,
  k5_c_identity, error_malformed, error_state, ok, ok_done, Kex, Random, Turn, kexc_version,
  kexs_version, kexc_hello, kexs_hello, kexs_newkeys, kexc_newkeys, kexc_identity,
}
use natbuster.Proto.Kex.Order.{
  malformed, bad_state, errors, ServerStep, ClientStep, Serves, Opens, passes, at_end, serve_fails,
  open_fails,
}
use natbuster.Proto.Kex.Runs.{runs, All-need_end}
use natbuster.Proto.Kex.Client
use natbuster.Proto.Kex.Server

module _ {K : Keys} (g : Gcm) where
  server_version :
      (x : Kex K) (l : Link) (t : ℕ) (d : List ℕ)
      → All (Serves s0_new (t ∷ d)) (Server.on_version g x l t d)
  unfolding Server.on_version
  server_version x l t d =
      All-if (Serves s0_new (t ∷ d)) (not (t == kexc_version)) _ _
        (λ _. serve_fails s0_new (t ∷ d) x l error_state bad_state)
        (λ h.
          All-if (Serves s0_new (t ∷ d)) (not (length d == 4)) _ _
            (λ _. serve_fails s0_new (t ∷ d) x l error_malformed malformed)
            (λ n.
              let made : ServerStep s0_new (t ∷ d) ok s2_m2 =
                subst (λ k. ServerStep s0_new (k ∷ d) ok s2_m2) (sym (passes t kexc_version h))
                  (ServerStep.version d (passes (length d) 4 n)) in
              search (runs, serve_fails s0_new (t ∷ d), errors, made) depth 30))

  server_newkeys :
      (x : Kex K) (l : Link) (t : ℕ) (d : List ℕ)
      → All (Serves k3_s_enc (t ∷ d)) (Server.on_newkeys g x l t (reader d))
  unfolding Server.on_newkeys
  server_newkeys x l t d =
      All-if (Serves k3_s_enc (t ∷ d)) (not (t == kexc_newkeys)) _ _
        (λ _. serve_fails k3_s_enc (t ∷ d) x l error_state bad_state)
        (λ h.
          All-need_end (Serves k3_s_enc (t ∷ d)) (reader d) _ _
            (serve_fails k3_s_enc (t ∷ d) x l error_malformed malformed)
            (λ n.
              let made : ServerStep k3_s_enc (t ∷ d) ok k4_c_enc =
                rw (passes t kexc_newkeys h, at_end d n) ServerStep.newkeys in
              search (runs, serve_fails k3_s_enc (t ∷ d), errors, made) depth 30))

  server_proof :
      (p : List ℕ)
      → ServerStep k4_c_enc p ok_done kf_done
      → (x : Kex K) (l : Link) (d : List ℕ) → All (Serves k4_c_enc p) (Server.check_proof g x l d)
  unfolding Server.check_proof
  server_proof p made x l d = search (runs, serve_fails k4_c_enc p, errors, made) depth 30

  server_identity :
      (x : Kex K) (l : Link) (t : ℕ) (d : List ℕ)
      → All (Serves k4_c_enc (t ∷ d)) (Server.on_identity g x l t (reader d))
  unfolding Server.on_identity
  server_identity x l t d =
      All-if (Serves k4_c_enc (t ∷ d)) (not (t == kexc_identity)) _ _
        (λ _. serve_fails k4_c_enc (t ∷ d) x l error_state bad_state)
        (λ h.
          let made : ServerStep k4_c_enc (t ∷ d) ok_done kf_done =
            rw (passes t kexc_identity h) (ServerStep.identity d) in
          search (runs, serve_fails k4_c_enc (t ∷ d), errors, server_proof (t ∷ d) made) depth 30)

  server_send :
      (s : State) (p : List ℕ)
      → ServerStep s p ok k3_s_enc
      → (x : Kex K) (l : Link) → All (Serves s p) (Server.send_hello g x l)
  unfolding Server.send_hello
  server_send s p made x l = search (runs, serve_fails s p, errors, made) depth 30

  server_hello :
      (s : State) (x : Kex K) (l : Link) (rnd : Random K) (t : ℕ) (d : List ℕ)
      → ServerStep s (kexc_hello ∷ d) ok k3_s_enc
      → All (Serves s (t ∷ d)) (Server.on_hello g x l rnd t (reader d))
  unfolding Server.on_hello
  server_hello s x l rnd t d made =
      All-if (Serves s (t ∷ d)) (not (t == kexc_hello)) _ _
        (λ _. serve_fails s (t ∷ d) x l error_state bad_state)
        (λ h.
          let made' : ServerStep s (t ∷ d) ok k3_s_enc = rw (passes t kexc_hello h) made in
          search (runs, serve_fails s (t ∷ d), errors, server_send s (t ∷ d) made') depth 30)

  client_version :
      (x : Kex K) (l : Link) (rnd : Random K) (t : ℕ) (d : List ℕ)
      → All (Opens s1_m1 (t ∷ d)) (Client.on_version g x l rnd t d)
  unfolding Client.on_version
  client_version x l rnd t d =
      All-if (Opens s1_m1 (t ∷ d)) (not (t == kexs_version)) _ _
        (λ _. open_fails s1_m1 (t ∷ d) x l error_state bad_state)
        (λ h.
          All-if (Opens s1_m1 (t ∷ d)) (not (length d == 4)) _ _
            (λ _. open_fails s1_m1 (t ∷ d) x l error_malformed malformed)
            (λ n.
              let made : ClientStep s1_m1 (t ∷ d) ok k1_c_hello =
                rw (passes t kexs_version h) (ClientStep.version d (passes (length d) 4 n)) in
              search (runs, open_fails s1_m1 (t ∷ d), errors, made) depth 30))

  client_hello_key :
      (p : List ℕ)
      → ClientStep k1_c_hello p ok k2_s_hello
      → (x : Kex K) (l : Link) (r : Reader) → All (Opens k1_c_hello p) (Client.on_hello_key g x l r)
  unfolding Client.on_hello_key
  client_hello_key p made x l r = search (runs, open_fails k1_c_hello p, errors, made) depth 30

  client_hello :
      (x : Kex K) (l : Link) (t : ℕ) (d : List ℕ)
      → All (Opens k1_c_hello (t ∷ d)) (Client.on_hello g x l t (reader d))
  unfolding Client.on_hello
  client_hello x l t d =
      All-if (Opens k1_c_hello (t ∷ d)) (not (t == kexs_hello)) _ _
        (λ _. open_fails k1_c_hello (t ∷ d) x l error_state bad_state)
        (λ h.
          let made : ClientStep k1_c_hello (t ∷ d) ok k2_s_hello =
            rw (passes t kexs_hello h) (ClientStep.hello d) in
          search (runs, open_fails k1_c_hello (t ∷ d), errors, client_hello_key (t ∷ d) made) depth
            30)

  client_identity :
      (p : List ℕ)
      → ClientStep k2_s_hello p ok_done kf_done
      → (x : Kex K) (l : Link) → All (Opens k2_s_hello p) (Client.send_identity g x l)
  unfolding Client.send_identity
  client_identity p made x l = search (runs, open_fails k2_s_hello p, errors, made) depth 30

  client_newkeys :
      (x : Kex K) (l : Link) (t : ℕ) (d : List ℕ)
      → All (Opens k2_s_hello (t ∷ d)) (Client.on_newkeys g x l t (reader d))
  unfolding Client.on_newkeys
  client_newkeys x l t d =
      All-if (Opens k2_s_hello (t ∷ d)) (not (t == kexs_newkeys)) _ _
        (λ _. open_fails k2_s_hello (t ∷ d) x l error_state bad_state)
        (λ h.
          All-need_end (Opens k2_s_hello (t ∷ d)) (reader d) _ _
            (open_fails k2_s_hello (t ∷ d) x l error_malformed malformed)
            (λ n.
              let made : ClientStep k2_s_hello (t ∷ d) ok_done kf_done =
                rw (passes t kexs_newkeys h, at_end d n) ClientStep.newkeys in
              search (runs, open_fails k2_s_hello (t ∷ d), errors, client_identity (t ∷ d) made)
                depth 30))

  server_dispatch :
      (s : State) (x : Kex K) (l : Link) (rnd : Random K) (t : ℕ) (d : List ℕ)
      → All (Serves s (t ∷ d)) (Server.dispatch g s x l rnd t d)
  unfolding Server.dispatch
  server_dispatch s0_new x l rnd t d = server_version x l t d
  server_dispatch s1_m1 x l rnd t d = serve_fails s1_m1 (t ∷ d) x l error_state bad_state
  server_dispatch s2_m2 x l rnd t d = server_hello s2_m2 x l rnd t d (ServerStep.hello d)
  server_dispatch kf_done x l rnd t d = server_hello kf_done x l rnd t d (ServerStep.rekey d)
  server_dispatch kf_err x l rnd t d = serve_fails kf_err (t ∷ d) x l error_state bad_state
  server_dispatch k1_c_hello x l rnd t d = serve_fails k1_c_hello (t ∷ d) x l error_state bad_state
  server_dispatch k2_s_hello x l rnd t d = serve_fails k2_s_hello (t ∷ d) x l error_state bad_state
  server_dispatch k3_s_enc x l rnd t d = server_newkeys x l t d
  server_dispatch k4_c_enc x l rnd t d = server_identity x l t d
  server_dispatch k5_c_identity x l rnd t d =
      serve_fails k5_c_identity (t ∷ d) x l error_state bad_state

  server_recv :
      (x : Kex K) (l : Link) (rnd : Random K) (p : List ℕ)
      → All (Serves x.state p) (Server.recv g x l rnd p)
  unfolding Server.recv
  server_recv x l rnd [] = serve_fails x.state [] x l error_malformed malformed
  server_recv x l rnd (t ∷ d) = server_dispatch x.state x l rnd t d

  client_dispatch :
      (s : State) (x : Kex K) (l : Link) (rnd : Random K) (t : ℕ) (d : List ℕ)
      → All (Opens s (t ∷ d)) (Client.dispatch g s x l rnd t d)
  unfolding Client.dispatch
  client_dispatch s0_new x l rnd t d = open_fails s0_new (t ∷ d) x l error_state bad_state
  client_dispatch s1_m1 x l rnd t d = client_version x l rnd t d
  client_dispatch s2_m2 x l rnd t d = open_fails s2_m2 (t ∷ d) x l error_state bad_state
  client_dispatch kf_done x l rnd t d = open_fails kf_done (t ∷ d) x l error_state bad_state
  client_dispatch kf_err x l rnd t d = open_fails kf_err (t ∷ d) x l error_state bad_state
  client_dispatch k1_c_hello x l rnd t d = client_hello x l t d
  client_dispatch k2_s_hello x l rnd t d = client_newkeys x l t d
  client_dispatch k3_s_enc x l rnd t d = open_fails k3_s_enc (t ∷ d) x l error_state bad_state
  client_dispatch k4_c_enc x l rnd t d = open_fails k4_c_enc (t ∷ d) x l error_state bad_state
  client_dispatch k5_c_identity x l rnd t d =
      open_fails k5_c_identity (t ∷ d) x l error_state bad_state

  client_recv :
      (x : Kex K) (l : Link) (rnd : Random K) (p : List ℕ)
      → All (Opens x.state p) (Client.recv g x l rnd p)
  unfolding Client.recv
  client_recv x l rnd [] = open_fails x.state [] x l error_malformed malformed
  client_recv x l rnd (t ∷ d) = client_dispatch x.state x l rnd t d

-- Whatever packet comes in whatever state, a call of the server's `recv`, if it returns, makes a step
-- of `ServerStep` with that packet. It is accepted only if it is of the type that the state waits for:
-- the version, of four bytes, then the hello, then the new keys, with nothing behind the type, then
-- the identity, which alone ends the exchange; a finished exchange waits for a hello. Every other
-- packet is an error and leads to a state in which all packets are errors.
pub server_recv-ServerStep :
    {K : Keys} (g : Gcm) (x : Kex K) (l : Link) (rnd : Random K) (p : List ℕ) (t : Turn K)
    → Server.recv g x l rnd p ≡ some t
    → ServerStep x.state p t.event t.kex.state
server_recv-ServerStep g x l rnd p t e =
    All-some (Serves x.state p) (Server.recv g x l rnd p) t (server_recv g x l rnd p) e

-- Whatever packet comes in whatever state, a call of the client's `recv`, if it returns, makes a step
-- of `ClientStep` with that packet: it is accepted only if it is the version, of four bytes, then the
-- hello, then the new keys, with nothing behind the type, which end the exchange. Every other packet
-- is an error and leads to a state in which all packets are errors.
pub client_recv-ClientStep :
    {K : Keys} (g : Gcm) (x : Kex K) (l : Link) (rnd : Random K) (p : List ℕ) (t : Turn K)
    → Client.recv g x l rnd p ≡ some t
    → ClientStep x.state p t.event t.kex.state
client_recv-ClientStep g x l rnd p t e =
    All-some (Opens x.state p) (Client.recv g x l rnd p) t (client_recv g x l rnd p) e
