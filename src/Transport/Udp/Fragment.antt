-- ===== src/Transport/Udp/Fragment.antt =====
-- The fragments that `send` of common/transport/opt_udp.cpp cuts.
use natbuster.Prelude.{
  ℕ, zero, suc, ◌+◌, ◌*◌, ◌-◌, ◌/◌, ◌%◌, ◌≤◌, ◌<◌, ◌≡◌, refl, ap, ◌∙◌, true, some, List, [], ◌∷◌,
  ◌++◌, arith, length, take, drop, u32_mod, add32, ◌>>=◌, append_assoc, take_all, drop_all,
  append-nil, length-append, length-take, length-drop, take-append-drop, lt→ltb,
}
use natbuster.Prelude.Bytes.{le32, length-le32, read32-le32}
use natbuster.Transport.Udp.{
  packet, append_packet, assembled, is_data, seq_rt_cnt, contents, ends_frame,
}
use natbuster.Transport.Udp.Send.{fragment, fragment_type, fragment_loop}
use natbuster.Transport.Udp.Frames.{IsFrame, Numbered, in_order, contents-append}
use native.Mathlib.Omega.{div_any, mod_fact}

share_max : (j q r mtu : ℕ) → suc j * q + r < suc j * mtu → q < mtu
share_max j q r mtu h = grind arith

share_rest : (j q mtu r : ℕ) → q < mtu → r ≤ j → j * q + r ≤ j * mtu
share_rest j q mtu r h l = grind arith

share_fill : (j q r : ℕ) → j ≤ suc j * q + r → j ≤ j * q + r
share_fill j zero r h = omega arith
share_fill j (suc q) r h = grind arith

-- The share of a fragment: the frames that are left hold what it leaves, and fill up.
share :
    (d j mtu : ℕ)
    → suc j ≤ d
    → d ≤ suc j * mtu
    → let n = (d - 1) / suc j + 1 in (n ≤ mtu) × (n ≤ d) × (j ≤ d - n) × (d - n ≤ j * mtu)
share d j mtu l m =
    let q = (d - 1) / suc j in
    let r = (d - 1) % suc j in
    let e : suc j * q + r ≡ d - 1 = div_any (d - 1) (suc j) in
    let low : r < suc j = mod_fact (d - 1) j in
    let s : suc j * q ≡ j * q + q = grind arith in
    let big : q < mtu = share_max j q r mtu (omega (arith, e)) in
    let rest : j * q + r ≤ j * mtu = share_rest j q mtu r big (omega arith) in
    let fill : j ≤ j * q + r = share_fill j q r (omega (arith, e)) in
    (omega arith, omega (arith, e, s), omega (arith, e, s, fill), omega (arith, e, s, rest))

abbrev pub AllShort : ℕ → List (List ℕ) → Type 0
AllShort mtu [] = Unit {0}
AllShort mtu (p ∷ ps) = (length p ≤ 5 + mtu) × AllShort mtu ps

-- Frames that carry on a list of earlier ones, and end it.
pub record Fragments (seq k mtu : ℕ) (list : List (List ℕ)) (rest : List ℕ) (ps : List (List ℕ))
    : Type 0 where
  pub count : length ps ≡ k
  pub numbered : Numbered seq ps
  pub short : AllShort mtu ps
  pub delivered : in_order list ps ≡ some ([], packet (contents list ++ rest) ∷ [])

fragment-IsFrame :
    (type seq : ℕ) (payload : List ℕ)
    → seq < u32_mod
    → is_data type ≡ true
    → IsFrame seq (fragment type seq payload)
unfolding le32
fragment-IsFrame type seq payload h e = record {
  sized = omega arith;
  numbered = read32-le32 seq payload h;
  typed = e;
}

contents-fragment :
    (list : List (List ℕ)) (type seq : ℕ) (payload : List ℕ)
    → contents (list ++ (fragment type seq payload ∷ [])) ≡ contents list ++ payload
unfolding contents le32
contents-fragment list type seq payload =
    contents-append list (fragment type seq payload ∷ [])
    ∙ ap (λ r. contents list ++ r) (append-nil payload)

fragment_type-is_data : (a b c : ℕ) → is_data (fragment_type a b c) ≡ true
unfolding fragment_type
fragment_type-is_data a b c = ground arith

append_ends :
    (list : List (List ℕ)) (p d : List ℕ)
    → ends_frame p ≡ true
    → contents (list ++ (p ∷ [])) ≡ d
    → length d < u32_mod
    → append_packet list p ≡ some ([], packet d ∷ [])
unfolding append_packet assembled
append_ends list p d e c h = rw (e, c, lt→ltb (length d) u32_mod h) refl

fragment_type-ends :
    (a n seq : ℕ) (payload : List ℕ)
    → ends_frame (fragment (fragment_type a n n) seq payload) ≡ true
unfolding fragment_type
fragment_type-ends a n seq payload = ground arith

append_last :
    (list : List (List ℕ)) (a n seq : ℕ) (payload : List ℕ)
    → length (contents list ++ payload) < u32_mod
    → append_packet list (fragment (fragment_type a n n) seq payload)
      ≡ some ([], packet (contents list ++ payload) ∷ [])
append_last list a n seq payload h =
    append_ends list (fragment (fragment_type a n n) seq payload) (contents list ++ payload)
      (fragment_type-ends a n seq payload)
      (contents-fragment list (fragment_type a n n) seq payload) h

append_more :
    (list : List (List ℕ)) (a n d seq : ℕ) (payload : List ℕ)
    → n < d
    → let p = fragment (fragment_type a n d) seq payload in
      append_packet list p ≡ some (list ++ (p ∷ []), [])
unfolding append_packet fragment_type
append_more list a n d seq payload h = ground arith

fragment_step :
    (fuel seq j progress : ℕ) (rest : List ℕ)
    → 0 < length rest
    → let n = (length rest - 1) / suc j + 1 in
      fragment_loop (suc fuel) seq (suc j) progress rest ≡ (
        fragment_loop fuel (add32 seq seq_rt_cnt) j (progress + n) (drop n rest) >>= λ ps.
        some (fragment (fragment_type progress n (length rest)) seq (take n rest) ∷ ps))
unfolding fragment_loop
fragment_step fuel seq j progress rest l =
    let z : suc j - 1 ≡ j = omega arith in rw z (ground arith)

regroup :
    (list : List (List ℕ)) (type seq n : ℕ) (rest : List ℕ)
    → contents (list ++ (fragment type seq (take n rest) ∷ [])) ++ drop n rest
      ≡ contents list ++ rest
regroup list type seq n rest =
    ap (λ r. r ++ drop n rest) (contents-fragment list type seq (take n rest))
    ∙ append_assoc (contents list) (take n rest) (drop n rest)
    ∙ ap (λ r. contents list ++ r) (take-append-drop n rest)

deliver_more :
    (list : List (List ℕ)) (p rest : List ℕ) (ps : List (List ℕ)) {out : List ℕ}
    → append_packet list p ≡ some (list ++ (p ∷ []), [])
    → contents (list ++ (p ∷ [])) ++ rest ≡ out
    → in_order (list ++ (p ∷ [])) ps ≡ some ([], packet (contents (list ++ (p ∷ [])) ++ rest) ∷ [])
    → in_order list (p ∷ ps) ≡ some ([], packet out ∷ [])
unfolding in_order
deliver_more list p rest ps a e r = rw (a, r, e) refl

deliver_last :
    (list : List (List ℕ)) (p out : List ℕ)
    → append_packet list p ≡ some ([], packet out ∷ [])
    → in_order list (p ∷ []) ≡ some ([], packet out ∷ [])
unfolding in_order
deliver_last list p out a = rw a refl

last_fragment :
    (fuel seq progress mtu : ℕ) (list : List (List ℕ)) (rest : List ℕ)
    → 0 < fuel
    → 0 < length rest
    → length rest ≤ mtu
    → seq < u32_mod
    → length (contents list ++ rest) < u32_mod
    → (ps : List (List ℕ)) × (fragment_loop (suc fuel) seq 1 progress rest ≡ some ps)
      × Fragments seq 1 mtu list rest ps
unfolding fragment_loop
last_fragment zero seq progress mtu list rest f h l w c = absurd (omega arith)
last_fragment (suc fuel) seq progress mtu list rest f h l w c =
    let d = length rest in
    let n = (d - 1) / 1 + 1 in
    let full : n ≡ d = omega arith in
    let p = fragment (fragment_type progress d d) seq rest in
    (
      p ∷ [],
      fragment_step (suc fuel) seq zero progress rest h
          ∙ rw (full, drop_all d rest (omega arith), take_all d rest (omega arith)) refl,
      record {
        count = refl;
        numbered = (fragment-IsFrame _ seq rest w (fragment_type-is_data progress d d), tt);
        short = (omega (arith, length-le32 seq, length-append (le32 seq) rest), tt);
        delivered =
            deliver_last list p (contents list ++ rest) (append_last list progress d seq rest c);
      },
    )

-- The loop cuts as many frames as it is told to.
pub fragment_loop_lem :
    (fuel seq k progress mtu : ℕ) (list : List (List ℕ)) (rest : List ℕ)
    → length rest < fuel
    → 0 < k
    → k ≤ length rest
    → length rest ≤ k * mtu
    → seq < u32_mod
    → length (contents list ++ rest) < u32_mod
    → (ps : List (List ℕ)) × (fragment_loop fuel seq k progress rest ≡ some ps)
      × Fragments seq k mtu list rest ps
fragment_loop_lem zero seq k progress mtu list rest f h l m w c = absurd (omega arith)
fragment_loop_lem (suc fuel) seq zero progress mtu list rest f h l m w c = absurd (omega arith)
fragment_loop_lem (suc fuel) seq (suc zero) progress mtu list rest f h l m w c =
    last_fragment fuel seq progress mtu list rest (omega arith) (omega arith) (omega arith) w c
fragment_loop_lem (suc fuel) seq (suc (suc j)) progress mtu list rest f h l m w c =
    let d = length rest in
    let n = (d - 1) / suc (suc j) + 1 in
    let sh = share d (suc j) mtu l m in
    let p = fragment (fragment_type progress n d) seq (take n rest) in
    let seq' = add32 seq seq_rt_cnt in
    let less = length-drop n rest in
    let e : length (contents (list ++ (p ∷ [])) ++ drop n rest) < u32_mod =
      rw (regroup list (fragment_type progress n d) seq n rest) c in
    let (ps, run, r) =
      fragment_loop_lem fuel seq' (suc j) (progress + n) mtu (list ++ (p ∷ [])) (drop n rest)
        (omega (arith, less)) (omega arith) (omega (arith, less, sh)) (omega (arith, less, sh))
        (omega arith) e in
    (
      p ∷ ps,
      fragment_step fuel seq (suc j) progress rest (omega arith) ∙ rw run refl,
      record {
        count = ap suc r.count;
        numbered = (
          fragment-IsFrame _ seq (take n rest) w (fragment_type-is_data progress n d),
          r.numbered,
        );
        short = (
          omega (
            arith,
            sh,
            length-take n rest,
            length-le32 seq,
            length-append (le32 seq) (take n rest),
          ),
          r.short,
        );
        delivered =
            deliver_more list p (drop n rest) ps
              (append_more list progress n d seq (take n rest) (omega (arith, sh)))
              (regroup list (fragment_type progress n d) seq n rest) r.delivered;
      },
    )
