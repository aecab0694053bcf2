-- ===== src/Transport/Session.antt =====
-- `OPTSession` of common/transport/opt_session.h and opt_session.cpp: the encrypted connection.
pub mod Delivery
pub mod Gate
pub mod Connect
mod Tests
use natbuster.Prelude.{
  ℕ, ◌≡◌, Bool, true, false, ◌&&◌, Option, none, some, List, [], ◌∷◌, ◌++◌, ◌==◌, if◌then◌else◌,
  ◌>>=◌,
}
use natbuster.Crypto.Cipher.{Gcm, decrypt, encrypt_standalone, decrypt_standalone}
use natbuster.Transport.Link.{Link, send_internal, packet_data, packet_kex, packet_enc_off}
use natbuster.Proto.Keys.{Keys}
use natbuster.Proto.Kex.{Kex, KexEvent, ok, ok_done, Random, Run, Turn}
use natbuster.Proto.Kex.Client
use natbuster.Proto.Kex.Server

pub record Session (K : Keys) : Type 0 where
  pub is_client : Bool
  pub link : Link
  pub kex : Kex K

-- What the session hands to the layer above, or asks of the one below.
pub data Event : Type 0 where
  opened : Event
  packet : List ℕ → Event
  raw : List ℕ → Event
  closed : Event

abbrev pub Result : Keys → Type 0
Result K = Option (Session K × List Event)

module _ {K : Keys} (g : Gcm) where
  -- `_kex->recv(content, this)`
  unfoldable pub kex_recv : Session K → Link → Random K → List ℕ → Run K
  kex_recv s l rnd content =
      if s.is_client then Client.recv g s.kex l rnd content else Server.recv g s.kex l rnd content

  unfoldable pub on_open : Session K → Result K
  on_open s =
      (if s.is_client then Client.init_kex g s.kex s.link else Server.init_kex g s.kex s.link)
      >>= λ t. some (record s { link = t.link; kex = t.kex }, [])

  -- The switch on the result of `recv`.
  unfoldable pub after_kex : KexEvent → Session K → Turn K → Session K × List Event
  after_kex ok s t = (record s { link = t.link; kex = t.kex }, [])
  after_kex ok_done s t = (
    record s { link = record t.link { first_kex_ok = true }; kex = t.kex },
    if t.link.first_kex_ok then [] else opened ∷ [],
  )
  after_kex _ s t = (record s { link = t.link; kex = t.kex }, closed ∷ [])

  -- The switch on the type of a packet.
  unfoldable pub handle : Session K → Link → Random K → ℕ → List ℕ → Result K
  handle s l rnd type content =
      let s' = record s { link = l } in
      if type == packet_data
      then (if l.first_kex_ok then some (s', packet content ∷ []) else some (s', closed ∷ []))
      else if type == packet_kex
      then (kex_recv s l rnd content >>= λ t. some (after_kex t.event s t))
      else if type == packet_enc_off
      then (if l.enc_off_enable
          then some (record s { link = record l { enc_on_ib = false } }, [])
          else some (s', closed ∷ []))
      else some (s', closed ∷ [])

  -- The type of an empty packet is read through a null pointer, hence `none`.
  unfoldable pub handle_bytes : Session K → Link → Random K → List ℕ → Result K
  handle_bytes s l rnd [] = none
  handle_bytes s l rnd (type ∷ content) = handle s l rnd type content

  -- Whether `decrypt` succeeded is not looked at.
  unfoldable pub on_packet : Session K → Random K → List ℕ → Result K
  on_packet s rnd data_in =
      if s.link.enc_on_ib
      then (decrypt g s.link.inbound data_in [] >>= λ o.
          handle_bytes s (record s.link { inbound = o.cipher }) rnd o.out)
      else handle_bytes s s.link rnd data_in

  unfoldable pub on_raw : Session K → List ℕ → Result K
  on_raw s data_in =
      if s.link.first_kex_ok
      then (if s.link.enc_on_ib && s.link.enc_raw
          then (decrypt_standalone g s.link.inbound data_in [] >>= λ o. some (
            record s { link = record s.link { inbound = o.cipher } },
            if o.ok then raw o.out ∷ [] else [],
          ))
          else some (s, raw data_in ∷ []))
      else some (s, [])

  unfoldable pub send : Session K → List ℕ → Option (Session K)
  send s data_out =
      send_internal g s.link packet_data data_out >>= λ l. some (record s { link = l })

  -- The bytes for `sendRaw` of the layer below, and the session after.
  unfoldable pub send_raw : Session K → List ℕ → Option (List ℕ × Session K)
  send_raw s data_out =
      if s.link.enc_on_ob && s.link.enc_raw
      then (encrypt_standalone g s.link.outbound data_out [] >>= λ e.
          some (e.0, record s { link = record s.link { outbound = e.1 } }))
      else some (if s.link.enc_on_ob then [] else data_out, s)
