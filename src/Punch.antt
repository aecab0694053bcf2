-- ===== src/Punch.antt =====
-- common/punch/punch.h and punch.cpp: the two sides of a hole punching describe themselves to each other
-- over a pipe, and then punch. common/punch/sym_sym.cpp: the settings and the ports of the punching.
-- Blobs are modelled by the bytes that they show; what `close` and `send` ask of the pipe, and the calls
-- of `async_launch`, are effects. What a call does when the thread of an earlier one still runs is not in
-- the model.
pub mod Handshake
pub mod Ports
mod Tests
use natbuster.Prelude.{
  ℕ, ◌+◌, ◌*◌, min, max, ◌≡◌, Bool, true, false, not, Option, none, some, List, [], ◌∷◌, ◌++◌, ltb,
  ◌==◌, if◌then◌else◌, length, get_or, take, drop, ◌>>=◌, ◌>>◌,
}
use natbuster.Prelude.Bytes.{le16, le32, read16}
use natbuster.Blob.Packed.{reader, next_record, eof, cslice, cslice_right}
use natbuster.Transport.Udp.{mgmt_hello}

pub data State : Type 0 where
  s0_new : State
  s1_c_hello : State
  s2_s_hello : State
  s3_c_start : State
  sf_success : State
  sf_error : State

abbrev pub punch_describe : ℕ
punch_describe = 1

abbrev pub punch_start : ℕ
punch_start = 2

-- `HolepunchSym`, with the settings that the description sets; no port is given to start at.
pub record HolepunchSym : Type 0 where
  pub remote : List ℕ
  pub magic_ob : List ℕ
  pub magic_ib : List ℕ
  pub port_min : ℕ
  pub port_max : ℕ
  pub rate : ℕ

-- The constructor, which sets sensible limits. A rate comes from a `uint16_t`, so it is whole.
unfoldable pub create : List ℕ → List ℕ → List ℕ → ℕ → ℕ → ℕ → HolepunchSym
create remote magic_ob magic_ib port_min port_max rate = record {
  remote = remote;
  magic_ob = magic_ob;
  magic_ib = magic_ib;
  port_min = max 1024 port_min;
  port_max = max (max 1024 port_min) port_max;
  rate = min (max 1 rate) 100;
}

pub record Puncher : Type 0 where
  pub is_client : Bool
  pub state : State
  pub outbound_magic_content : List ℕ
  pub puncher : Option HolepunchSym

pub data Effect : Type 0 where
  sent : List ℕ → Effect
  launched : HolepunchSym → Effect
  closed : Effect

abbrev pub Result : Type 0
Result = Option (Puncher × List Effect)

abbrev pub localhost : List ℕ
localhost = b'l' ∷ b'o' ∷ b'c' ∷ b'a' ∷ b'l' ∷ b'h' ∷ b'o' ∷ b's' ∷ b't' ∷ []

-- The hello of either side: the type, a NAT descriptor (of no type), the magic and a packed record.
unfoldable pub describe : List ℕ → List ℕ
describe magic =
    (punch_describe ∷ 0 ∷ [])
    ++ (le16 1024 ++ (le16 65535 ++ (le16 25 ++ (magic ++ (le32 (length localhost) ++ localhost)))))

unfoldable pub on_open_in : State → Puncher → Puncher × List Effect
on_open_in s0_new p =
    (record p { state = s1_c_hello }, sent (describe p.outbound_magic_content) ∷ [])
on_open_in _ p = (p, [])

unfoldable pub on_open : Puncher → Puncher × List Effect
on_open p = if p.is_client then on_open_in p.state p else (p, [])

unfoldable pub fail : Puncher → Result
fail p = some (record p { state = sf_error }, closed ∷ [])

-- What both sides do with the description of the other: `none` inside is the failure of a check.
unfoldable pub puncher_of : List ℕ → List ℕ → Option (Option HolepunchSym)
puncher_of magic view =
    if get_or view 0 0 == punch_describe
    then (if ltb (length view) 72
        then some none
        else (cslice view 8 64 >>= λ ib. cslice_right view 72 >>= λ rest.
            next_record (reader rest) >>= λ r. elim r.1 [
              | none ↦ some none
              | some ip ↦ eof r.0 >>= λ at_end. some (
                  if at_end
                  then some (
                      create ip (mgmt_hello ∷ magic) (mgmt_hello ∷ ib) (read16 (drop 2 view))
                        (read16 (drop 4 view)) (read16 (drop 6 view)))
                  else none)
            ]))
    else some none

unfoldable pub accepted : Puncher → Option HolepunchSym → (HolepunchSym → Result) → Result
accepted p none go = fail p
accepted p (some sym) go = go sym

unfoldable pub client_hello : Puncher → List ℕ → Result
client_hello p view = puncher_of p.outbound_magic_content view >>= λ o. accepted p o (λ sym. some (
  record p { puncher = some sym; state = s3_c_start },
  sent (punch_start ∷ []) ∷ launched sym ∷ [],
))

unfoldable pub server_hello : Puncher → List ℕ → Result
server_hello p view = puncher_of p.outbound_magic_content view >>= λ o. accepted p o (λ sym. some (
  record p { puncher = some sym; state = s2_s_hello },
  sent (describe p.outbound_magic_content) ∷ [],
))

-- The state stays as it is. A server in this state has a puncher; without one, `none`.
unfoldable pub server_start : Puncher → List ℕ → Result
server_start p view =
    if get_or view 0 0 == punch_start
    then (if length view == 1
        then (p.puncher >>= λ sym. some (p, launched sym ∷ []))
        else some (p, closed ∷ []))
    else fail p

unfoldable pub client_in : State → Puncher → List ℕ → Result
client_in s1_c_hello p view = client_hello p view
client_in _ p view = some (p, [])

unfoldable pub server_in : State → Puncher → List ℕ → Result
server_in s0_new p view = server_hello p view
server_in s2_s_hello p view = server_start p view
server_in _ p view = some (p, [])

-- An empty packet closes the pipe, and then its type is read through a null pointer: `none`.
unfoldable pub on_packet : Puncher → List ℕ → Result
on_packet p [] = none
on_packet p (type ∷ rest) =
    if p.is_client then client_in p.state p (type ∷ rest) else server_in p.state p (type ∷ rest)
