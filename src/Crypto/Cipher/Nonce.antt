-- ===== src/Crypto/Cipher/Nonce.antt =====
-- Which nonces a cipher uses.
use natbuster.Prelude.{
  ℕ, ◌+◌, ◌*◌, ◌%◌, ◌<◌, ◌≡◌, refl, ap, sym, ◌∙◌, some, inl, inr, Option-cases, some_inj, ◌≢◌, List,
  [], ◌∷◌, ◌++◌, arith, length, take, drop, get_or, u32_mod, drop-append_at, length-take,
}
use natbuster.Prelude.Bytes.{le32}
use natbuster.Crypto.Cipher.{
  Gcm, GcmLaws, Cipher, encrypt, encrypt_standalone, set_packet, le64, u64_mod, add64,
}
use natbuster.Crypto.Cipher.Stream.{encrypt_all, encrypt_inv, counted_iv}

-- The number that eight bytes hold.
abbrev number : List ℕ → ℕ
number p =
    get_or p 0 0
    + get_or p 1 0 * 256
    + get_or p 2 0 * 65536
    + get_or p 3 0 * 16777216
    + (get_or p 4 0 + get_or p 5 0 * 256 + get_or p 6 0 * 65536 + get_or p 7 0 * 16777216) * u32_mod

number-le64 : (n : ℕ) → n < u64_mod → number (le64 n) ≡ n
unfolding le64 le32
number-le64 n h = omega arith

-- Two packets of one cipher have different nonces, if their numbers are different and below 2^64.
pub set_packet_inj :
    (c d : Cipher) (m n : ℕ)
    → length c.iv ≡ 12
    → length d.iv ≡ 12
    → m < u64_mod
    → n < u64_mod
    → (set_packet c (le64 m)).iv ≡ (set_packet d (le64 n)).iv
    → m ≡ n
unfolding set_packet
set_packet_inj c d m n k l a b e =
    sym (number-le64 m a)
    ∙ ap number (
        sym (drop-append_at 4 (take 4 c.iv) (le64 m) (omega (arith, length-take 4 c.iv)))
        ∙ ap (drop 4) e
        ∙ drop-append_at 4 (take 4 d.iv) (le64 n) (omega (arith, length-take 4 d.iv)))
    ∙ number-le64 n b

-- After a stream of packets the counter has moved by their number.
encrypt_all_count :
    (g : Gcm) (c c' : Cipher) (ds ps : List (List ℕ))
    → GcmLaws g
    → length c.iv ≡ 12
    → c.sequential_packet_counter < u64_mod
    → encrypt_all g c ds ≡ some (ps, c')
    → (c'.sequential_packet_counter ≡ (c.sequential_packet_counter + length ds) % u64_mod)
      × (length c'.iv ≡ 12)
unfolding encrypt_all
encrypt_all_count g c c' [] ps laws i w e =
    let same : c ≡ c' = ap (λ k. k.1) (some_inj ([], c) (ps, c') e) in
    (
      omega (arith, ap (λ k. k.sequential_packet_counter) same),
      omega (arith, ap (λ k. length k.iv) same, i),
    )
encrypt_all_count g c c' (d ∷ ds) ps laws i w e = elim (Option-cases (encrypt g c d [])) [
  | inl failed ↦ absurd (ground (arith, e, failed))
  | inr ((p, c1), sent) ↦ elim (Option-cases (encrypt_all g c1 ds)) [
    | inl failed ↦ absurd (ground (arith, e, sent, failed))
    | inr ((qs, c2), rest) ↦
        let (s, sealed, packed, next) = encrypt_inv g c c1 d [] p laws sent in
        let count : c1.sequential_packet_counter ≡ (c.sequential_packet_counter + 1) % u64_mod =
          ap (λ k. k.sequential_packet_counter) next in
        let i1 : length c1.iv ≡ 12 = ap (λ k. length k.iv) next ∙ counted_iv c i in
        let (n, i2) = encrypt_all_count g c1 c2 ds qs laws i1 (omega (arith, count)) rest in
        let run : some (p ∷ qs, c2) ≡ some (ps, c') = sym (rw (sent, rest) refl) ∙ e in
        let same : c2 ≡ c' = ap (λ k. k.1) (some_inj (p ∷ qs, c2) (ps, c') run) in
        (
          omega (arith, ap (λ k. k.sequential_packet_counter) same, n, count),
          omega (arith, ap (λ k. length k.iv) same, i2),
        )
  ]
]

-- No two packets that `encrypt` makes from one cipher share a nonce, whatever number of packets
-- below 2^64 - 1 is encrypted between them.
pub encrypt-fresh :
    (g : Gcm) (c c1 c2 c3 : Cipher) (d d' aad aad' p q : List ℕ) (ds ps : List (List ℕ))
    → GcmLaws g
    → length c.iv ≡ 12
    → c.sequential_packet_counter < u64_mod
    → length ds + 1 < u64_mod
    → encrypt g c d aad ≡ some (p, c1)
    → encrypt_all g c1 ds ≡ some (ps, c2)
    → encrypt g c2 d' aad' ≡ some (q, c3)
    → c1.iv ≢ c3.iv
encrypt-fresh g c c1 c2 c3 d d' aad aad' p q ds ps laws i w few first between last same =
    let (s, sealed, packed, next) = encrypt_inv g c c1 d aad p laws first in
    let count : c1.sequential_packet_counter ≡ (c.sequential_packet_counter + 1) % u64_mod =
      ap (λ k. k.sequential_packet_counter) next in
    let (n, i2) =
      encrypt_all_count g c1 c2 ds ps laws (ap (λ k. length k.iv) next ∙ counted_iv c i)
        (omega (arith, count)) between in
    let (s', sealed', packed', next') = encrypt_inv g c2 c3 d' aad' q laws last in
    let equal =
      set_packet_inj c c2 c.sequential_packet_counter c2.sequential_packet_counter i i2 w
        (omega (arith, n)) (sym (ap (λ k. k.iv) next) ∙ same ∙ ap (λ k. k.iv) next') in
    absurd (omega (arith, equal, n, count, few, w))

-- A cipher whose two counters are equal, as a new one's are, uses the same key and the same nonce
-- for its next packet of either kind.
pub encrypt-encrypt_standalone_nonce :
    (g : Gcm) (c c1 c2 : Cipher) (d d' aad aad' p q : List ℕ)
    → GcmLaws g
    → c.sequential_packet_counter ≡ c.standalone_packet_counter
    → encrypt g c d aad ≡ some (p, c1)
    → encrypt_standalone g c d' aad' ≡ some (q, c2)
    → (c1.key ≡ c2.key) × (c1.iv ≡ c2.iv)
unfolding set_packet encrypt_standalone
encrypt-encrypt_standalone_nonce g c c1 c2 d d' aad aad' p q laws same first second =
    let (s, sealed, packed, next) = encrypt_inv g c c1 d aad p laws first in
    let iv : List ℕ = take 4 c.iv ++ le64 c.standalone_packet_counter in
    elim (Option-cases (g.seal c.key iv aad' d')) [
      | inl failed ↦ absurd (ground (arith, second, failed))
      | inr (t, sealed') ↦
          let (l, m) = laws.seal_sizes c.key iv aad' d' t sealed' in
          let used : record c {
            iv = iv;
            standalone_packet_counter = add64 c.standalone_packet_counter 1;
          }
              ≡ c2 =
            ap (λ o. o.1)
              (some_inj
                (
                  take 10 t.1 ++ (take 6 (le64 c.standalone_packet_counter) ++ t.0),
                  record c {
                    iv = iv;
                    standalone_packet_counter = add64 c.standalone_packet_counter 1;
                  },
                )
                (q, c2) (sym (ground (arith, sealed', l)) ∙ second)) in
          (
            ap (λ k. k.key) next ∙ ap (λ k. k.key) used,
            ap (λ k. k.iv) next ∙ ap (λ k. take 4 c.iv ++ le64 k) same ∙ ap (λ k. k.iv) used,
          )
    ]
