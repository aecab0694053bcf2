-- ===== src/Transport/Session/Tests.antt =====
-- The theorems about common/transport/opt_session.cpp, applied to sessions with toy keys.
use natbuster.Prelude.{
  ℕ, ◌+◌, ◌≡◌, refl, sym, ap, true, false, none, some, arith, List, [], ◌∷◌, ◌++◌, length,
  replicate, some_inj, ◌>>=◌, ◌<◌, ltb, if◌then◌else◌,
}
use natbuster.Prelude.Bytes.{le32}
use natbuster.Crypto.Cipher.{GcmLaws, encrypt, set_packet, le64}
use natbuster.Crypto.Cipher.Stream.{InStep}
use natbuster.Transport.Link.{send_internal}
use natbuster.Proto.Kex.{Turn}
use natbuster.Proto.Kex.Trust.{Proven}
use natbuster.Proto.Kex.Tests.{
  toy_keys, toy_gcm, link, rnd, new_side, waiting, identity, done_turn, identity_run,
}
use natbuster.Transport.Session.{
  Session, opened, packet, on_packet, send, handle, handle_bytes, kex_recv, after_kex,
}
use natbuster.Transport.Session.Delivery.{on_packet-send, judged, on_packet-judged}
use natbuster.Proto.Keys.{Keys, is_member}
use natbuster.Proto.Kex.Working.{Published, Signer, Agreement, Hashing}
use natbuster.Proto.Kex.Exchange.{Side, side_random, accepts}
use natbuster.Transport.Session.Connect.{
  Outcome, Connected, connect, client_session, server_session, connect-Connected,
}
use natbuster.Transport.Session.Gate.{opened-Proven}

abbrev ready : Session toy_keys
ready = record {
  is_client = false;
  link = record link { first_kex_ok = true; enc_on_ib = true; enc_on_ob = true };
  kex = new_side;
}

gcm_laws : GcmLaws toy_gcm
gcm_laws = record {
  seal_sizes = λ key iv aad d s e.
      let same = some_inj (d, replicate 16 1) s e in
      (ap (λ k. length k.0) (sym same), ap (λ k. length k.1) (sym same));
  unseal_seal =
      λ key iv aad d s n e h. ap (λ k. some (k.0, true)) (sym (some_inj (d, replicate 16 1) s e));
}

in_step : InStep ready.link.outbound ready.link.inbound
in_step = record {
  same_key = refl;
  same_common = refl;
  sender_iv = refl;
  receiver_iv = refl;
  same_count = refl;
}

abbrev sent_packet : List ℕ
sent_packet = replicate 16 1 ++ (0 ∷ 4 ∷ 5 ∷ [])

abbrev after_send : Session toy_keys
after_send = record ready {
  link = record ready.link {
    outbound = record ready.link.outbound { sequential_packet_counter = 1 };
    sent = sent_packet ∷ [];
  };
}

send_run : send toy_gcm ready (4 ∷ 5 ∷ []) ≡ some after_send
unfolding send send_internal encrypt set_packet le64 le32
send_run = refl

on_packet-send_example :
    (p : List ℕ) × (r' : Session toy_keys) × (after_send.link.sent ≡ [] ++ (p ∷ []))
    × (on_packet toy_gcm ready rnd p ≡ some (r', packet (4 ∷ 5 ∷ []) ∷ []))
    × InStep after_send.link.outbound r'.link.inbound
on_packet-send_example =
    on_packet-send toy_gcm ready after_send ready rnd (4 ∷ 5 ∷ []) gcm_laws in_step refl refl refl
      send_run

-- To a session that has finished its key exchange, with every tag found wrong.
on_packet-judged_example :
    on_packet (judged toy_gcm (λ key iv aad d tag. false)) ready rnd sent_packet
    ≡ on_packet toy_gcm ready rnd sent_packet
on_packet-judged_example =
    on_packet-judged toy_gcm (λ key iv aad d tag. false) ready rnd sent_packet

-- A server session that waits for the identity of the client.
abbrev server : Session toy_keys
server = record { is_client = false; link = link; kex = waiting }

abbrev opened_server : Session toy_keys
opened_server = record {
  is_client = false;
  link = record link { first_kex_ok = true };
  kex = done_turn.kex;
}

opened_run : on_packet toy_gcm server rnd (1 ∷ identity) ≡ some (opened_server, opened ∷ [])
unfolding on_packet handle_bytes handle kex_recv after_kex
opened_run = ap (λ r. r >>= λ t. some (after_kex toy_gcm t.event server t)) identity_run

opened-Proven_example : (t : Turn toy_keys) × (opened_server.kex ≡ t.kex) × Proven server.kex t
opened-Proven_example =
    opened-Proven toy_gcm server opened_server rnd (1 ∷ identity) refl opened_run

-- Keys of two kinds: those below 100 sign and cannot be exchanged, the others are exchanged and cannot
-- sign.
abbrev two_kinds : Keys
two_kinds = record toy_keys {
  ecdhe = λ a b. if ltb a 100 then none else (if ltb b 100 then none else some ((a + b) ∷ []));
  sign = λ a d. if ltb a 100 then some (a ∷ []) else none;
}

published : (k : ℕ) → Published two_kinds k
published k = record { exported = k ∷ []; exports = refl; export_short = omega arith; loads = refl }

signer : (a : ℕ) → a < 100 → Signer two_kinds a
signer a h = record {
  own = published a;
  signature = λ d. a ∷ [];
  signs = λ d. ground (arith, h);
  signature_short = λ d. omega arith;
  verifies = λ d. ground arith;
}

-- A client with the key 3 that knows the key 9, and a server with that key that knows nobody.
abbrev client_side : Side two_kinds
client_side = record {
  lt_key = 3;
  known_remotes = some ((9 ∷ [], record { name = []; key = some 9; ports = [] }) ∷ []);
  dh_key = 105;
  nonce = replicate 64 2;
}

abbrev server_side : Side two_kinds
server_side = record { lt_key = 9; known_remotes = none; dh_key = 107; nonce = replicate 64 4 }

agreed : Agreement two_kinds 105 107
agreed = record {
  first = published 105;
  second = published 107;
  secret = 212 ∷ [];
  first_agrees = refl;
  second_agrees = refl;
}

hashing : Hashing two_kinds
hashing = record { digest = λ d. replicate 64 7; hashes = λ d. refl; digest_long = λ d. refl }

server_known : accepts two_kinds client_side.known_remotes 9 ≡ true
unfolding accepts is_member
server_known = refl

client_known : accepts two_kinds server_side.known_remotes 3 ≡ true
unfolding accepts
client_known = refl

connect-Connected_example :
    (o : Outcome two_kinds) × (connect toy_gcm
        (client_session client_side link.inbound link.outbound)
        (server_session server_side link.inbound link.outbound)
        (side_random client_side)
        (side_random server_side)
      ≡ some o)
    × Connected client_side server_side o
connect-Connected_example =
    connect-Connected toy_gcm client_side server_side link.inbound link.outbound link.inbound
      link.outbound (signer 3 (omega arith)) (signer 9 (omega arith)) agreed hashing gcm_laws
      (λ key iv aad d. ((d, replicate 16 1), refl)) refl refl refl refl server_known client_known
