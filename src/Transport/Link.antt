-- ===== src/Transport/Link.antt =====
-- The part of `OPTSession` (common/transport/opt_session.h, opt_session.cpp) that the key exchange
-- works on: the two ciphers, the flags, and what has been sent.
use natbuster.Prelude.{ℕ, Bool, false, Option, some, List, [], ◌∷◌, ◌++◌, ◌>>=◌, if◌then◌else◌}
use natbuster.Crypto.Cipher.{Gcm, Cipher, encrypt}

pub record Link : Type 0 where
  pub inbound : Cipher
  pub outbound : Cipher
  pub first_kex_ok : Bool
  pub enc_on_ib : Bool
  pub enc_on_ob : Bool
  pub enc_off_enable : Bool
  pub enc_raw : Bool
  pub sent : List (List ℕ)

abbrev pub packet_data : ℕ
packet_data = 0

abbrev pub packet_kex : ℕ
packet_kex = 1

abbrev pub packet_enc_off : ℕ
packet_enc_off = 2

-- A new session, on ciphers that are not set yet.
abbrev pub new_link : Cipher → Cipher → Link
new_link inbound outbound = record {
  inbound = inbound;
  outbound = outbound;
  first_kex_ok = false;
  enc_on_ib = false;
  enc_on_ob = false;
  enc_off_enable = false;
  enc_raw = false;
  sent = [];
}

-- The result of `encrypt` is not looked at: what is sent when OpenSSL fails is not modelled.
unfoldable pub send_internal : Gcm → Link → ℕ → List ℕ → Option Link
send_internal g l type packet =
    if l.enc_on_ob
    then (encrypt g l.outbound (type ∷ packet) [] >>= λ e.
        some (record l { outbound = e.1; sent = l.sent ++ (e.0 ∷ []) }))
    else some (record l { sent = l.sent ++ ((type ∷ packet) ∷ []) })

unfoldable pub send_kex : Gcm → Link → List ℕ → Option Link
send_kex g l packet = send_internal g l packet_kex packet
