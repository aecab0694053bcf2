-- ===== src/Punch/Handshake.antt =====
-- Two honest sides of common/punch/punch.cpp.
use natbuster.Prelude.{
  ℕ, zero, suc, replicate, ◌≡◌, refl, sym, ◌∙◌, Bool, true, false, Option, none, some, List, [],
  ◌∷◌, ◌++◌, arith, length, get_or, take, drop, ◌>>=◌, length-append, drop-append_at,
  take-append_at, if◌then◌else◌,
}
use natbuster.Prelude.Bytes.{le16, le32, read16, read32}
use natbuster.Blob.Packed.{reader, next_record, eof, cslice, cslice_right}
use natbuster.Transport.Udp.{mgmt_hello}
use natbuster.Punch.{
  s0_new, s1_c_hello, s2_s_hello, s3_c_start, HolepunchSym, create, Puncher, Effect, sent, launched,
  localhost, describe, on_open_in, on_open, puncher_of, accepted, client_hello, server_hello,
  server_start, client_in, server_in, on_packet, punch_start,
}

abbrev pub new_puncher : Bool → List ℕ → Puncher
new_puncher is_client magic = record {
  is_client = is_client;
  state = s0_new;
  outbound_magic_content = magic;
  puncher = none;
}

-- What a side makes of the description of one with the magic `theirs`.
abbrev pub meets : List ℕ → List ℕ → HolepunchSym
meets own theirs = create localhost (mgmt_hello ∷ own) (mgmt_hello ∷ theirs) 1024 65535 25

abbrev host : List ℕ
host = le32 (length localhost) ++ localhost

length-describe : (m : List ℕ) → length m ≡ 64 → length (describe m) ≡ 85
unfolding describe le16 le32
length-describe m h = omega (arith, length-append m host)

describe_type : (m : List ℕ) → get_or (describe m) 0 0 ≡ 1
unfolding describe
describe_type m = refl

describe_nat :
    (m : List ℕ)
    → (read16 (drop 2 (describe m)) ≡ 1024)
      × (read16 (drop 4 (describe m)) ≡ 65535)
      × (read16 (drop 6 (describe m)) ≡ 25)
unfolding describe le16 read16
describe_nat m = (refl, refl, refl)

describe_magic : (m : List ℕ) → length m ≡ 64 → take 64 (drop 8 (describe m)) ≡ m
unfolding describe le16
describe_magic m h = take-append_at 64 m host (sym h)

describe-host : (m : List ℕ) → length m ≡ 64 → drop 72 (describe m) ≡ host
unfolding describe le16
describe-host m h = drop-append_at 64 m host (sym h)

cslice_magic : (m : List ℕ) → length m ≡ 64 → cslice (describe m) 8 64 ≡ some m
unfolding cslice
cslice_magic m h = rw (length-describe m h, describe_magic m h) refl

cslice_host : (m : List ℕ) → length m ≡ 64 → cslice_right (describe m) 72 ≡ some host
unfolding cslice_right cslice le32
cslice_host m h = rw (length-describe m h, describe-host m h) refl

host_record :
    next_record (reader host) ≡ some (record { read_cursor = 13; src = host }, some localhost)
unfolding next_record reader cslice le32 read32
host_record = refl

host-eof : eof (record { read_cursor = 13; src = host }) ≡ some true
unfolding eof le32
host-eof = refl

puncher_of-describe :
    (own m : List ℕ) → length m ≡ 64 → puncher_of own (describe m) ≡ some (some (meets own m))
unfolding puncher_of
puncher_of-describe own m h =
    let (low, high, rate) = describe_nat m in
    rw
      (
        describe_type m,
        length-describe m h,
        cslice_magic m h,
        cslice_host m h,
        host_record,
        host-eof,
        low,
        high,
        rate,
      )
      refl

on_packet-describe :
    (p : Puncher) (m : List ℕ)
    → on_packet p (describe m)
      ≡ (if p.is_client then client_in p.state p (describe m) else server_in p.state p (describe m))
unfolding on_packet describe
on_packet-describe p m = refl

start_comes :
    (p : Puncher) (sym : HolepunchSym)
    → p.is_client ≡ false
    → p.state ≡ s2_s_hello
    → p.puncher ≡ some sym
    → on_packet p (punch_start ∷ []) ≡ some (p, launched sym ∷ [])
unfolding on_packet server_in server_start
start_comes p sym i s e = ground (arith, i, s, e)

-- The start packet, so many times.
unfoldable pub starts : ℕ → Puncher → Option (Puncher × List Effect)
starts zero p = some (p, [])
starts (suc n) p =
    on_packet p (punch_start ∷ []) >>= λ r. starts n r.0 >>= λ t. some (t.0, r.1 ++ t.1)

-- A server that waits for the start keeps waiting when it has come: it calls `async_launch` once for each
-- start, however many come, and never leaves the state.
pub starts-launched :
    (n : ℕ) (p : Puncher) (s : HolepunchSym)
    → p.is_client ≡ false
    → p.state ≡ s2_s_hello
    → p.puncher ≡ some s
    → starts n p ≡ some (p, replicate n (launched s))
unfolding starts
starts-launched zero p s i h e = refl
starts-launched (suc n) p s i h e = rw (start_comes p s i h e, starts-launched n p s i h e) refl

-- Two sides with magic contents of 64 bytes, from the start: the client sends its description, the
-- server answers it with its own and waits, the client answers that with a start and punches, and the
-- server punches when the start comes. Each side then sends, as hello, exactly the bytes for which the
-- other listens, and has a range of ports from 1024 to 65535.
pub on_packet-Handshake :
    (c s : List ℕ)
    → length c ≡ 64
    → length s ≡ 64
    → let client = new_puncher true c in
      let server = new_puncher false s in
      (client1 : Puncher) × (server1 : Puncher) × (client2 : Puncher) × (at_client : HolepunchSym)
      × (at_server : HolepunchSym) × (on_open client ≡ (client1, sent (describe c) ∷ []))
      × (on_packet server (describe c) ≡ some (server1, sent (describe s) ∷ []))
      × (on_packet client1 (describe s)
          ≡ some (client2, sent (punch_start ∷ []) ∷ launched at_client ∷ []))
      × (on_packet server1 (punch_start ∷ []) ≡ some (server1, launched at_server ∷ []))
      × (at_client.magic_ob ≡ at_server.magic_ib)
      × (at_server.magic_ob ≡ at_client.magic_ib)
      × (at_client.port_min ≡ 1024)
      × (at_client.port_max ≡ 65535)
      × (at_server.port_min ≡ 1024)
      × (at_server.port_max ≡ 65535)
unfolding on_open on_open_in server_in client_in server_hello client_hello accepted server_start
    create
on_packet-Handshake c s hc hs =
    let client1 = record (new_puncher true c) { state = s1_c_hello } in
    let server1 = record (new_puncher false s) { state = s2_s_hello; puncher = some (meets s c) } in
    let client2 = record client1 { state = s3_c_start; puncher = some (meets c s) } in
    (
      client1,
      server1,
      client2,
      meets c s,
      meets s c,
      refl,
      on_packet-describe (new_puncher false s) c ∙ rw (puncher_of-describe s c hc) refl,
      on_packet-describe client1 s ∙ rw (puncher_of-describe c s hs) refl,
      start_comes server1 (meets s c) refl refl refl,
      refl,
      refl,
      refl,
      refl,
      refl,
      refl,
    )
