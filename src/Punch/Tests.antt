-- ===== src/Punch/Tests.antt =====
-- The theorems about common/punch, applied to two sides with magic contents of zeros and ones.
use natbuster.Prelude.{ℕ, ◌≡◌, refl, true, false, some, List, [], ◌∷◌, replicate}
use natbuster.Punch.{
  s2_s_hello, HolepunchSym, Puncher, sent, launched, describe, on_open, on_packet, punch_start,
}
use natbuster.Punch.Handshake.{new_puncher, meets, on_packet-Handshake}
use natbuster.Punch.Ports.{port_at, port_range_len}

abbrev zeros : List ℕ
zeros = replicate 64 0

abbrev ones : List ℕ
ones = replicate 64 1

on_packet-Handshake_example :
    (client1 : Puncher) × (server1 : Puncher) × (client2 : Puncher) × (at_client : HolepunchSym)
    × (at_server : HolepunchSym) × (on_open (new_puncher true zeros)
        ≡ (client1, sent (describe zeros) ∷ []))
    × (on_packet (new_puncher false ones) (describe zeros)
        ≡ some (server1, sent (describe ones) ∷ []))
    × (on_packet client1 (describe ones)
        ≡ some (client2, sent (punch_start ∷ []) ∷ launched at_client ∷ []))
    × (on_packet server1 (punch_start ∷ []) ≡ some (server1, launched at_server ∷ []))
    × (at_client.magic_ob ≡ at_server.magic_ib)
    × (at_server.magic_ob ≡ at_client.magic_ib)
    × (at_client.port_min ≡ 1024)
    × (at_client.port_max ≡ 65535)
    × (at_server.port_min ≡ 1024)
    × (at_server.port_max ≡ 65535)
on_packet-Handshake_example = on_packet-Handshake zeros ones refl refl

abbrev waiting : Puncher
waiting = record (new_puncher false ones) { state = s2_s_hello; puncher = some (meets ones zeros) }

fifth : port_at 2000 2009 2007 5 ≡ 2002
unfolding port_at port_range_len
fifth = refl

ten_ports : port_range_len 2000 2009 ≡ 10
unfolding port_range_len
ten_ports = refl
