-- ===== src/Proto/Kex/Trust.antt =====
-- A side accepts the other only by a signature of a trusted key.
use natbuster.Prelude.{
  ℕ, ◌≡◌, refl, sym, ap, ◌∙◌, Bool, true, false, Option, none, some, inl, inr, List, [], ◌∷◌, All,
  All-some, some_inj, Bool-cases, arith,
}
use natbuster.Blob.Packed.{Reader, reader}
use natbuster.Crypto.Cipher.{Gcm}
use natbuster.Transport.Link.{Link}
use natbuster.Proto.Keys.{Keys, UserGroup, is_member, find_user}
use natbuster.Proto.Kex.{
  State, k4_c_enc, kf_done, k5_c_identity, KexEvent, error_malformed, error_notrust, error_crypto,
  error_state, error_generic, error_send, ok, ok_done, Kex, Random, Turn, finish, fail,
  check_remote, client_proof_hash,
}
use natbuster.Proto.Kex.Runs.{runs}
use natbuster.Proto.Kex.Order.{IsError, ServerStep, malformed, notrust, crypto, bad_state}
use natbuster.Proto.Kex.Steps.{server_recv-ServerStep}
use natbuster.Proto.Kex.Server

-- The key is the one known before, or one of the users' if there is a pool of them.
pub data Accepted {K : Keys} (x : Kex K) (key : K.PuKey) : Type 0 where
  known : x.lt_key_remote ≡ some key → Accepted x key
  member :
      (group : UserGroup K)
      → x.users_remote ≡ some group
      → is_member K group key ≡ true
      → Accepted x key
  anyone : x.users_remote ≡ none → Accepted x key

check_remote_lem :
    {K : Keys} (x x1 : Kex K) (new key : K.PuKey)
    → check_remote x new ≡ some x1
    → x1.lt_key_remote ≡ some key
    → Accepted x key
unfolding check_remote
check_remote_lem {K} x x1 new key e k = by_known x.lt_key_remote refl
  where
    accepted_as : UserGroup K → Kex K
    accepted_as group = record x { lt_key_remote = some new; user_remote = find_user K group new }

    by_group :
        (u : Option (UserGroup K)) → x.users_remote ≡ u → x.lt_key_remote ≡ none → Accepted x key
    by_group none u n = anyone u
    by_group (some group) u n = elim (Bool-cases (is_member K group new)) [
      | inl good ↦
          let run : check_remote x new ≡ some (accepted_as group) = ground (arith, n, u, good) in
          let same : some new ≡ some key =
            ap (λ y. y.lt_key_remote) (some_inj (accepted_as group) x1 (sym run ∙ e)) ∙ k in
          member group u (ap (λ q. is_member K group q) (sym (some_inj new key same)) ∙ good)
      | inr bad ↦ absurd (ground (arith, e, n, u, bad))
    ]

    by_known : (o : Option (K.PuKey)) → x.lt_key_remote ≡ o → Accepted x key
    by_known none o = by_group x.users_remote refl o
    by_known (some old) o = elim (Bool-cases (K.is_same old new)) [
      | inl good ↦
          let run : check_remote x new ≡ some x = ground (arith, o, good) in
          known (ap (λ y. y.lt_key_remote) (some_inj x x1 (sym run ∙ e)) ∙ k)
      | inr bad ↦ absurd (ground (arith, e, o, bad))
    ]

-- What an `ok_done` of the server rests on: the client signed, with the accepted key, the hash of
-- the shared secrets, of both version messages and of that key.
pub record Proven {K : Keys} (before : Kex K) (t : Turn K) : Type 0 where
  pub key : K.PuKey
  pub proof : List ℕ
  pub signature : List ℕ
  pub owner : t.kex.lt_key_remote ≡ some key
  pub accepted : Accepted before key
  pub hashed : client_proof_hash t.kex key ≡ some proof
  pub verified : K.verify key proof signature ≡ true

abbrev Proves : {K : Keys} → Kex K → Turn K → Type 0
Proves before t = t.event ≡ ok_done → Proven before t

is_done : KexEvent → Bool
is_done ok_done = true
is_done _ = false

not_done : {A : Type 0} (e : KexEvent) → is_done e ≡ false → e ≡ ok_done → A
unfolding is_done
not_done e n d = absurd (ground (arith, sym n ∙ ap is_done d))

error_not_done : {A : Type 0} (e : KexEvent) → IsError e → e ≡ ok_done → A
unfolding is_done
error_not_done error_malformed h = not_done error_malformed refl
error_not_done error_notrust h = not_done error_notrust refl
error_not_done error_crypto h = not_done error_crypto refl
error_not_done error_state h = not_done error_state refl
error_not_done error_generic h = not_done error_generic refl
error_not_done error_send h = not_done error_send refl
error_not_done ok h = elim h [ ]
error_not_done ok_done h = elim h [ ]

module _ {K : Keys} (g : Gcm) (before : Kex K) where
  proof_fails : (x : Kex K) (l : Link) (e : KexEvent) → IsError e → All (Proves before) (fail x l e)
  unfolding fail
  proof_fails x l e h = error_not_done e h

  proven_turn :
      (x : Kex K) (l : Link) (key : K.PuKey) (proof signature : List ℕ)
      → Accepted before key
      → x.lt_key_remote ≡ some key
      → client_proof_hash x key ≡ some proof
      → K.verify key proof signature ≡ true
      → All (Proves before) (finish (record x { state = kf_done }) l ok_done)
  unfolding client_proof_hash
  proven_turn x l key proof signature a o h v = λ _. record {
    key = key;
    proof = proof;
    signature = signature;
    owner = o;
    accepted = a;
    hashed = h;
    verified = v;
  }

  check_proof-Proves :
      (x : Kex K) (l : Link) (d : List ℕ)
      → ((key : K.PuKey) → x.lt_key_remote ≡ some key → Accepted before key)
      → All (Proves before) (Server.check_proof g x l d)
  unfolding Server.check_proof
  check_proof-Proves x l d a = search (runs, proof_fails, notrust, crypto, proven_turn, a) depth 20

module _ {K : Keys} (g : Gcm) where
  after_check :
      (x x1 : Kex K) (new : K.PuKey) (l : Link) (d : List ℕ)
      → check_remote x new ≡ some x1
      → All (Proves x) (Server.check_proof g (record x1 { state = k5_c_identity }) l d)
  after_check x x1 new l d e =
      check_proof-Proves g x (record x1 { state = k5_c_identity }) l d
        (λ key o. check_remote_lem x x1 new key e o)

  identity-Proves :
      (x : Kex K) (l : Link) (t : ℕ) (r : Reader) → All (Proves x) (Server.on_identity g x l t r)
  unfolding Server.on_identity
  identity-Proves x l t r =
      search (runs, proof_fails g, notrust, crypto, malformed, bad_state, after_check) depth 20

  at_identity :
      (x : Kex K) (l : Link) (rnd : Random K) (p : List ℕ) (t : Turn K)
      → Server.recv g x l rnd p ≡ some t
      → x.state ≡ k4_c_enc
      → Proves x t
  unfolding Server.recv Server.dispatch
  at_identity x l rnd [] t e s =
      All-some (Proves x) (fail x l error_malformed) t
        (proof_fails g x x l error_malformed malformed) e
  at_identity x l rnd (type ∷ d) t e s =
      All-some (Proves x) (Server.on_identity g x l type (reader d)) t
        (identity-Proves x l type (reader d))
        (sym (ap (λ q. Server.dispatch g q x l rnd type d) s) ∙ e)

-- If a call of the server's `recv` ends the key exchange, then the client has signed the hash of
-- the shared secrets, of both version messages and of its key with that key, which the server
-- holds now, and which was known before, or is one of the trusted users', or nobody is excluded.
pub recv-Proven :
    {K : Keys} (g : Gcm) (x : Kex K) (l : Link) (rnd : Random K) (p : List ℕ) (t : Turn K)
    → Server.recv g x l rnd p ≡ some t
    → t.event ≡ ok_done
    → Proven x t
unfolding is_done
recv-Proven {K} g x l rnd p t e done =
    by_step x.state p t.event t.kex.state refl done (server_recv-ServerStep g x l rnd p t e)
  where
    by_step :
        (s : State) (q : List ℕ) (e' : KexEvent) (s' : State)
        → x.state ≡ s
        → e' ≡ ok_done
        → ServerStep s q e' s'
        → Proven x t
    by_step s q e' s' a b (ServerStep.version d n) = not_done ok refl b
    by_step s q e' s' a b (ServerStep.hello d) = not_done ok refl b
    by_step s q e' s' a b (ServerStep.rekey d) = not_done ok refl b
    by_step s q e' s' a b ServerStep.newkeys = not_done ok refl b
    by_step s q e' s' a b (ServerStep.identity d) = at_identity g x l rnd p t e a done
    by_step s q e' s' a b (ServerStep.failed _ _ e'' h) = error_not_done e'' h b
