-- ===== src/Crypto/Cipher/Standalone.antt =====
-- Packets that carry their number, for a transport that loses and reorders them.
use natbuster.Prelude.{
  ℕ, ◌+◌, ◌-◌, ◌/◌, ◌%◌, ◌^◌, ◌<◌, ◌≡◌, refl, ap, sym, ◌∙◌, true, some, inl, inr, List, [], ◌∷◌,
  ◌++◌, arith, length, take, drop, replicate, length-append, length-take, take-append_at,
  drop-append_at, append_assoc, Option-cases, some_inj, u32_mod,
}
use natbuster.Prelude.Bytes.{le32}
use natbuster.Crypto.Cipher.{
  Gcm, GcmLaws, Cipher, encrypt_standalone, decrypt_standalone, set_packet, le64, add64,
}

-- The counter that a receiver reads is the sender's while that fits in 6 bytes.
counter-le64 : (n : ℕ) → n < 2 ^ 48 → take 6 (le64 n) ++ (0 ∷ 0 ∷ []) ≡ le64 n
unfolding le64 le32
counter-le64 n h =
    let a : ((n / u32_mod) / 65536) % 256 ≡ 0 = omega arith in
    let b : ((n / u32_mod) / 16777216) % 256 ≡ 0 = omega arith in rw (a, b) refl

length-counter : (n : ℕ) → length (take 6 (le64 n)) ≡ 6
unfolding le64 le32
length-counter n = refl

-- A packet encrypted by `encrypt_standalone` is decrypted by any receiver with the same key and
-- nonce prefix, whatever it has received before, while the sender has sent fewer than 2^48.
pub decrypt_standalone-encrypt_standalone :
    (g : Gcm) (s s' r : Cipher) (d aad p : List ℕ)
    → GcmLaws g
    → s.key ≡ r.key
    → take 4 s.iv ≡ take 4 r.iv
    → s.standalone_packet_counter < 2 ^ 48
    → encrypt_standalone g s d aad ≡ some (p, s')
    → (r' : Cipher) × (decrypt_standalone g r p aad
        ≡ some (record { ok = true; out = d; cipher = r' }))
      × (r'.standalone_packet_counter ≡ r.standalone_packet_counter)
      × (r'.sequential_packet_counter ≡ r.sequential_packet_counter)
unfolding encrypt_standalone decrypt_standalone set_packet
decrypt_standalone-encrypt_standalone g s s' r d aad p laws k c w e =
    let n : ℕ = s.standalone_packet_counter in
    let iv : List ℕ = take 4 s.iv ++ le64 n in
    elim (Option-cases (g.seal s.key iv aad d)) [
      | inl failed ↦ absurd (ground (arith, e, failed))
      | inr (t, sealed) ↦
          let (l, m) = laws.seal_sizes s.key iv aad d t sealed in
          let tag : List ℕ = take 10 t.1 in
          let number : List ℕ = take 6 (le64 n) in
          let lt : 10 ≡ length tag = omega (arith, length-take 10 t.1, m) in
          let ln = length-counter n in
          let packed : p ≡ tag ++ (number ++ t.0) =
            ap (λ o. o.0)
              (some_inj (p, s')
                (
                  tag ++ (number ++ t.0),
                  record s { iv = iv; standalone_packet_counter = add64 n 1 },
                )
                (sym e ∙ ground (arith, sealed, l))) in
          let front : take 10 p ≡ tag =
            ap (take 10) packed ∙ take-append_at 10 tag (number ++ t.0) lt in
          let middle : take 6 (drop 10 p) ≡ number =
            ap (λ q. take 6 (drop 10 q)) packed
            ∙ ap (take 6) (drop-append_at 10 tag (number ++ t.0) lt)
            ∙ take-append_at 6 number t.0 (sym ln) in
          let back : drop 16 p ≡ t.0 =
            ap (drop 16) (packed ∙ sym (append_assoc tag number t.0))
            ∙ drop-append_at 16 (tag ++ number) t.0
                (omega (arith, length-append tag number, lt, ln)) in
          let long : length p ≡ 16 + length d = omega (
            arith,
            ap length packed,
            length-append tag (number ++ t.0),
            length-append number t.0,
            lt,
            ln,
            l,
          ) in
          let nonce : take 4 r.iv
                ++ (take 6 (drop 10 p) ++ replicate (8 - length (take 6 (drop 10 p))) 0)
              ≡ iv =
            rw (middle, ln, sym c) (ap (λ q. take 4 s.iv ++ q) (counter-le64 n w)) in
          let opened : g.unseal r.key
                (take 4 r.iv
                  ++ (take 6 (drop 10 p) ++ replicate (8 - length (take 6 (drop 10 p))) 0))
                aad (drop 16 p) (take 10 p)
              ≡ some (d, true) =
            rw (nonce, back, front, sym k)
              (laws.unseal_seal s.key iv aad d t 10 sealed (omega arith)) in
          let content : length (drop 16 p) ≡ length d = omega (arith, ap length back, l) in
          (
            record r {
              iv =
                  take 4 r.iv
                  ++ (take 6 (drop 10 p) ++ replicate (8 - length (take 6 (drop 10 p))) 0);
            },
            ground (arith, long, opened, content),
            refl,
            refl,
          )
    ]
