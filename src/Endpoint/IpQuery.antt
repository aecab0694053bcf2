-- ===== src/Endpoint/IpQuery.antt =====
-- The query for one's own address: common/endpoint/ip_server.cpp answers a session that opens with the
-- address of its socket, and ip_client.cpp takes the answer. Texts are their bytes.
use natbuster.Prelude.{
  ℕ, ◌+◌, ◌*◌, ◌<◌, ◌≡◌, refl, ap, sym, ◌∙◌, Bool, true, Option, none, some, List, [], ◌∷◌, ◌++◌,
  arith, ◌==◌, if◌then◌else◌, length, length-append, append-nil, ◌>>=◌, u32_mod, leb,
}
use natbuster.Prelude.Bytes.{le16, read16, read16-le16, le32, length-le32}
use natbuster.Blob.{bytes, empty}
use natbuster.Blob.Packed.{reader, next_record, eof, writer, add_record}
use natbuster.Blob.Packed.Read.{frame, pack, next_record-frame}
use natbuster.Blob.Packed.RoundTrip.{write_all, write_all_lem, empty-IsReady}

pub data Effect : Type 0 where
  sent : List ℕ → Effect
  closes : Effect

-- `IPServerEndpoint::on_open`, for the address of the socket.
unfoldable pub on_open : List ℕ → ℕ → Option (List Effect)
on_open ip port = do
  w1 ← add_record (writer empty) ip
  w2 ← add_record w1 (le16 port)
  some (sent (bytes w2.dst) ∷ closes ∷ [])

pub record IpClient : Type 0 where
  pub success : Bool
  pub my_ip : List ℕ
  pub my_port : ℕ

-- Both records, the second of two bytes and at the end, or nothing.
unfoldable pub read_answer : List ℕ → Option (Option (List ℕ × ℕ))
read_answer view = next_record (reader view) >>= λ first. elim first.1 [
  | none ↦ some none
  | some ip ↦ next_record first.0 >>= λ second. elim second.1 [
    | none ↦ some none
    | some port ↦ eof second.0 >>= λ at_end.
        some (if at_end then (if length port == 2 then some (ip, read16 port) else none) else none)
  ]
]

abbrev pub take_answer : IpClient → Option (List ℕ × ℕ) → IpClient
take_answer c none = c
take_answer c (some (ip, port)) = record { success = true; my_ip = ip; my_port = port }

unfoldable pub on_packet : IpClient → List ℕ → Option (IpClient × List Effect)
on_packet c view = read_answer view >>= λ answer. some (take_answer c answer, closes ∷ [])

unfoldable pub get_my_ip : IpClient → Option (List ℕ)
get_my_ip c = if c.success then some c.my_ip else none

unfoldable pub get_my_port : IpClient → Option ℕ
get_my_port c = if c.success then some c.my_port else none

length-le16 : (n : ℕ) → length (le16 n) ≡ 2
unfolding le16
length-le16 n = refl

module _ (ip : List ℕ) (port : ℕ) (small : 5 * (length ip + 10) + 4 < u32_mod) where
  abbrev wire : List ℕ
  wire = pack (ip ∷ le16 port ∷ [])

  length-wire : length wire ≡ length ip + 10
  unfolding le16 le32
  length-wire = omega (
    arith,
    length-append (le32 (length ip)) ip,
    length-append (frame ip) (frame (le16 port) ++ []),
    length-le32 (length ip),
    length-le32 2,
  )

  on_open_lem : on_open ip port ≡ some (sent wire ∷ closes ∷ [])
  unfolding on_open write_all writer
  on_open_lem =
      let (w, run, h) =
        write_all_lem (ip ∷ le16 port ∷ []) (writer empty)
          (empty-IsReady (0 + length wire) (omega (arith, length-wire))) in
      let shown : bytes w.dst ≡ wire = h.content in ground (arith, run, shown)

  read_answer_lem : port < 65536 → read_answer wire ≡ some (some (ip, port))
  unfolding read_answer reader eof
  read_answer_lem p =
      let first = next_record-frame [] ip (frame (le16 port) ++ []) (omega (arith, length-wire)) in
      let second = next_record-frame (frame ip) (le16 port) [] (omega (arith, length-wire)) in
      let at_second : 4 + length ip ≡ length (frame ip) =
        omega (arith, length-append (le32 (length ip)) ip, length-le32 (length ip)) in
      let at_end : leb (length (frame ip) + 4 + length (le16 port)) (length wire) ≡ true =
        ground (arith, length-wire, at_second, length-le16 port) in
      let no_more : leb (length wire) (length (frame ip) + 4 + length (le16 port)) ≡ true =
        ground (arith, length-wire, at_second, length-le16 port) in
      let word : read16 (le16 port) ≡ port =
        ap read16 (sym (append-nil (le16 port))) ∙ read16-le16 port [] p in
      rw (first, at_second, second, at_end, no_more) (ground (arith, length-le16 port, word))

-- The client learns the address that the server has for it: what the server sends when the session opens is
-- taken, and then asked for gives exactly the host and the port. Both sides close.
pub on_packet-on_open :
    (c : IpClient) (ip : List ℕ) (port : ℕ)
    → 5 * (length ip + 10) + 4 < u32_mod
    → port < 65536
    → (data_sent : List ℕ) × (c' : IpClient) × (on_open ip port
        ≡ some (sent data_sent ∷ closes ∷ []))
      × (on_packet c data_sent ≡ some (c', closes ∷ []))
      × (get_my_ip c' ≡ some ip)
      × (get_my_port c' ≡ some port)
unfolding on_packet get_my_ip get_my_port
on_packet-on_open c ip port small p = (
  wire ip port small,
  record { success = true; my_ip = ip; my_port = port },
  on_open_lem ip port small,
  rw (read_answer_lem ip port small p) refl,
  refl,
  refl,
)
