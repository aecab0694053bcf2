-- ===== src/Proto/Kex/Order.antt =====
-- The order of the messages of common/transport/kex_v1.cpp: which packet each state waits for, and what
-- it leads to.
use natbuster.Prelude.{
  ℕ, ◌≡◌, refl, true, false, not, some, List, [], ◌∷◌, ◌==◌, length, arith, All,
}
use natbuster.Blob.Packed.{reader, eof}
use natbuster.Transport.Link.{Link}
use natbuster.Proto.Keys.{Keys}
use natbuster.Proto.Kex.{
  State, s0_new, s1_m1, s2_m2, kf_done, kf_err, k1_c_hello, k2_s_hello, k3_s_enc, k4_c_enc,
  KexEvent, error_malformed, error_notrust, error_crypto, error_state, error_generic, error_send,
  ok, ok_done, Kex, Turn, fail, kexc_version, kexs_version, kexc_hello, kexs_hello, kexs_newkeys,
  kexc_newkeys, kexc_identity,
}

pub data IsError : KexEvent → Type 0 where
  malformed : IsError error_malformed
  notrust : IsError error_notrust
  crypto : IsError error_crypto
  bad_state : IsError error_state
  generic : IsError error_generic
  not_sent : IsError error_send

pub ruleset errors = (malformed, notrust, crypto, bad_state)

-- The steps of the server, with the packet that comes in: the last one needs all before it, and nothing
-- follows an error.
pub data ServerStep : State → List ℕ → KexEvent → State → Type 0 where
  version : (d : List ℕ) → length d ≡ 4 → ServerStep s0_new (kexc_version ∷ d) ok s2_m2
  hello : (d : List ℕ) → ServerStep s2_m2 (kexc_hello ∷ d) ok k3_s_enc
  rekey : (d : List ℕ) → ServerStep kf_done (kexc_hello ∷ d) ok k3_s_enc
  newkeys : ServerStep k3_s_enc (kexc_newkeys ∷ []) ok k4_c_enc
  identity : (d : List ℕ) → ServerStep k4_c_enc (kexc_identity ∷ d) ok_done kf_done
  failed : (s : State) (p : List ℕ) (e : KexEvent) → IsError e → ServerStep s p e kf_err

pub data ClientStep : State → List ℕ → KexEvent → State → Type 0 where
  version : (d : List ℕ) → length d ≡ 4 → ClientStep s1_m1 (kexs_version ∷ d) ok k1_c_hello
  hello : (d : List ℕ) → ClientStep k1_c_hello (kexs_hello ∷ d) ok k2_s_hello
  newkeys : ClientStep k2_s_hello (kexs_newkeys ∷ []) ok_done kf_done
  failed : (s : State) (p : List ℕ) (e : KexEvent) → IsError e → ClientStep s p e kf_err

abbrev pub Serves : {K : Keys} → State → List ℕ → Turn K → Type 0
Serves s p t = ServerStep s p t.event t.kex.state

abbrev pub Opens : {K : Keys} → State → List ℕ → Turn K → Type 0
Opens s p t = ClientStep s p t.event t.kex.state

-- What a guard on the type or the size leaves.
pub passes : (a b : ℕ) → not (a == b) ≡ false → a ≡ b
passes a b h = ground (arith, h)

pub at_end : (d : List ℕ) → eof (reader d) ≡ some true → d ≡ []
unfolding eof reader
at_end [] h = refl
at_end (x ∷ xs) h = absurd (ground (arith, h))

module _ {K : Keys} (s : State) (p : List ℕ) where
  pub serve_fails :
      (x : Kex K) (l : Link) (e : KexEvent) → IsError e → All (Serves s p) (fail x l e)
  unfolding fail
  serve_fails x l e h = ServerStep.failed s p e h

  pub open_fails : (x : Kex K) (l : Link) (e : KexEvent) → IsError e → All (Opens s p) (fail x l e)
  unfolding fail
  open_fails x l e h = ClientStep.failed s p e h
