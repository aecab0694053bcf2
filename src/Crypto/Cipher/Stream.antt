-- ===== src/Crypto/Cipher/Stream.antt =====
-- A stream of packets: what one end encrypts in order, the other decrypts in order.
use natbuster.Prelude.{
  ℕ, ◌+◌, ◌≤◌, ◌≡◌, refl, ap, subst, sym, ◌∙◌, true, Option, some, inl, inr, List, [], ◌∷◌, ◌++◌,
  arith, length, take, drop, length-append, length-take, take-append_at, drop-append_at, take_all,
  assert, ◌>>=◌, ◌>>◌, Option-cases, some_inj,
}
use natbuster.Prelude.Bytes.{le32}
use natbuster.Crypto.Cipher.{
  Gcm, GcmLaws, Cipher, encrypt, decrypt, set_packet, le64, tag_size, add64,
}

-- The two ends have the same key, the same fixed part of the nonce and count alike.
pub record InStep (sender receiver : Cipher) : Type 0 where
  pub same_key : sender.key ≡ receiver.key
  pub same_common : take 4 sender.iv ≡ take 4 receiver.iv
  pub sender_iv : length sender.iv ≡ 12
  pub receiver_iv : length receiver.iv ≡ 12
  pub same_count : sender.sequential_packet_counter ≡ receiver.sequential_packet_counter

-- The number of its packet stands in the nonce, whatever stood there before.
set_packet-eq :
    (a b : Cipher) (p : List ℕ)
    → take 4 a.iv ≡ take 4 b.iv
    → (set_packet a p).iv ≡ (set_packet b p).iv
unfolding set_packet
set_packet-eq a b p e = ap (λ k. k ++ p) e

pub take-set_packet :
    (c : Cipher) (p : List ℕ) → 4 ≤ length c.iv → take 4 (set_packet c p).iv ≡ take 4 c.iv
unfolding set_packet
take-set_packet c p h = take-append_at 4 (take 4 c.iv) p (omega (arith, length-take 4 c.iv))

-- What a successful `encrypt` returns.
pub encrypt_lem :
    (g : Gcm) (c : Cipher) (d aad : List ℕ) (s : List ℕ × List ℕ)
    → GcmLaws g
    → g.seal c.key (set_packet c (le64 c.sequential_packet_counter)).iv aad d ≡ some s
    → encrypt g c d aad
      ≡ some (
        s.1 ++ s.0,
        record (set_packet c (le64 c.sequential_packet_counter)) {
          sequential_packet_counter = add64 c.sequential_packet_counter 1;
        },
      )
unfolding encrypt set_packet
encrypt_lem g c d aad s laws e =
    let (n, t) =
      laws.seal_sizes c.key (set_packet c (le64 c.sequential_packet_counter)).iv aad d s e in
    let whole : take 16 s.1 ≡ s.1 = take_all 16 s.1 (omega (arith, t)) in
    ground (arith, e, n, whole)

abbrev pub counted : Cipher → Cipher
counted c = record (set_packet c (le64 c.sequential_packet_counter)) {
  sequential_packet_counter = add64 c.sequential_packet_counter 1;
}

length-le64 : (n : ℕ) → length (le64 n) ≡ 8
unfolding le64 le32
length-le64 n = refl

pub counted_iv : (c : Cipher) → length c.iv ≡ 12 → length (counted c).iv ≡ 12
unfolding set_packet
counted_iv c h = omega (
  arith,
  length-append (take 4 c.iv) (le64 c.sequential_packet_counter),
  length-take 4 c.iv,
  length-le64 c.sequential_packet_counter,
)

counted-InStep : (s r : Cipher) → InStep s r → InStep (counted s) (counted r)
unfolding set_packet
counted-InStep s r p = record {
  same_key = p.same_key;
  same_common =
      take-set_packet s (le64 s.sequential_packet_counter) (omega (arith, p))
      ∙ p.same_common
      ∙ sym (take-set_packet r (le64 r.sequential_packet_counter) (omega (arith, p)));
  sender_iv = counted_iv s p.sender_iv;
  receiver_iv = counted_iv r p.receiver_iv;
  same_count = ap (λ k. add64 k 1) p.same_count;
}

same_nonce :
    (s r : Cipher)
    → InStep s r
    → (set_packet s (le64 s.sequential_packet_counter)).iv
      ≡ (set_packet r (le64 r.sequential_packet_counter)).iv
unfolding set_packet
same_nonce s r p = rw (p.same_common, p.same_count) refl

-- The packet of a successful `encrypt`, and the ciphertext and tag that it is made of.
pub encrypt_inv :
    (g : Gcm) (c c' : Cipher) (d aad p : List ℕ)
    → GcmLaws g
    → encrypt g c d aad ≡ some (p, c')
    → (s : List ℕ × List ℕ) × (g.seal c.key
          (set_packet c (le64 c.sequential_packet_counter)).iv
          aad
          d
        ≡ some s)
      × (p ≡ s.1 ++ s.0)
      × (c' ≡ counted c)
unfolding encrypt set_packet
encrypt_inv g c c' d aad p laws e =
    let iv : List ℕ = (set_packet c (le64 c.sequential_packet_counter)).iv in
    elim (Option-cases (g.seal c.key iv aad d)) [
      | inl failed ↦ absurd (ground (arith, e, failed))
      | inr (s, sealed) ↦
          let run = sym e ∙ encrypt_lem g c d aad s laws sealed in
          let same = some_inj (p, c') (s.1 ++ s.0, counted c) run in
          (s, sealed, ap (λ k. k.0) same, ap (λ k. k.1) same)
    ]

-- What one end encrypts, the other decrypts, and they are in step again: the tag is right, the
-- plaintext comes back and the packet is `enc_size` long.
pub decrypt-encrypt :
    (g : Gcm) (s s' r : Cipher) (d aad p : List ℕ)
    → GcmLaws g
    → InStep s r
    → encrypt g s d aad ≡ some (p, s')
    → (r' : Cipher) × (decrypt g r p aad ≡ some (record { ok = true; out = d; cipher = r' }))
      × InStep s' r'
      × (length p ≡ length d + tag_size)
unfolding decrypt set_packet
decrypt-encrypt g s s' r d aad p laws step e =
    let (t, sealed, packed, next) = encrypt_inv g s s' d aad p laws e in
    let (n, m) =
      laws.seal_sizes s.key (set_packet s (le64 s.sequential_packet_counter)).iv aad d t sealed in
    let whole : take 16 t.1 ≡ t.1 = take_all 16 t.1 (omega (arith, m)) in
    let front : take 16 p ≡ t.1 = ap (take 16) packed ∙ take-append_at 16 t.1 t.0 (sym m) in
    let back : drop 16 p ≡ t.0 = ap (drop 16) packed ∙ drop-append_at 16 t.1 t.0 (sym m) in
    let long : length p ≡ length d + 16 =
      omega (arith, ap length packed, length-append t.1 t.0, n, m) in
    let nonce = same_nonce s r step in
    let opened : g.unseal r.key (set_packet r (le64 r.sequential_packet_counter)).iv aad (drop 16 p)
          (take 16 p)
        ≡ some (d, true) =
      rw (back, front, sym nonce, sym step.same_key)
        (ap (λ k. g.unseal s.key (set_packet s (le64 s.sequential_packet_counter)).iv aad t.0 k)
            (sym whole)
          ∙ laws.unseal_seal s.key (set_packet s (le64 s.sequential_packet_counter)).iv aad d t 16
              sealed (omega arith)) in
    let content : length (drop 16 p) ≡ length d = omega (arith, ap length back, n) in
    (
      counted r,
      ground (arith, long, opened, content),
      subst (λ k. InStep k (counted r)) (sym next) (counted-InStep s r step),
      long,
    )

-- The calls of one end on its packets, and of the other on what arrives.
unfoldable pub encrypt_all : Gcm → Cipher → List (List ℕ) → Option (List (List ℕ) × Cipher)
encrypt_all g s [] = some ([], s)
encrypt_all g s (d ∷ ds) = do
  sent ← encrypt g s d []
  rest ← encrypt_all g sent.1 ds
  some (sent.0 ∷ rest.0, rest.1)

unfoldable pub decrypt_all : Gcm → Cipher → List (List ℕ) → Option (List (List ℕ))
decrypt_all g r [] = some []
decrypt_all g r (p ∷ ps) = do
  opened ← decrypt g r p []
  assert opened.ok
  rest ← decrypt_all g opened.cipher ps
  some (opened.out ∷ rest)

-- Any number of packets that one end encrypts in order are decrypted in order by the other end, if
-- the two start with the same key, nonce prefix and counter.
pub decrypt_all-encrypt_all :
    (g : Gcm) (s s' r : Cipher) (ds ps : List (List ℕ))
    → GcmLaws g
    → InStep s r
    → encrypt_all g s ds ≡ some (ps, s')
    → decrypt_all g r ps ≡ some ds
unfolding encrypt_all decrypt_all
decrypt_all-encrypt_all g s s' r [] ps laws step e =
    ap (decrypt_all g r) (sym (ap (λ k. k.0) (some_inj ([], s) (ps, s') e)))
decrypt_all-encrypt_all g s s' r (d ∷ ds) ps laws step e = elim (Option-cases (encrypt g s d [])) [
  | inl failed ↦ absurd (ground (arith, e, failed))
  | inr ((p, s1), sent) ↦ elim (Option-cases (encrypt_all g s1 ds)) [
    | inl failed ↦ absurd (ground (arith, e, sent, failed))
    | inr ((qs, s2), rest) ↦
        let (r1, opened, step', l) = decrypt-encrypt g s s1 r d [] p laws step sent in
        let others = decrypt_all-encrypt_all g s1 s2 r1 ds qs laws step' rest in
        let run : some (p ∷ qs, s2) ≡ some (ps, s') = sym (rw (sent, rest) refl) ∙ e in
        let all : p ∷ qs ≡ ps = ap (λ k. k.0) (some_inj (p ∷ qs, s2) (ps, s') run) in
        subst (λ k. decrypt_all g r k ≡ some (d ∷ ds)) all (rw (opened, others) refl)
  ]
]
