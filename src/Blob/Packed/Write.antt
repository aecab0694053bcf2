-- ===== src/Blob/Packed/Write.antt =====
-- What `add_record` leaves in the blob that is written to.
use natbuster.Prelude.{
  ℕ, ◌+◌, ◌-◌, ◌*◌, ◌≤◌, ◌<◌, ◌≡◌, ap, sym, ◌∙◌, some, List, ◌++◌, arith, length, take, drop, max,
  min, u32_mod, append-nil, take_all, drop_all, take-take, drop-append_at, take-append_le,
  length-take,
}
use natbuster.Prelude.Bytes.{splice, le32, length-le32}
use natbuster.Blob.{Blob, IsValid, Holds, bytes, memcpy}
use natbuster.Blob.Grow.{length-bytes}
use natbuster.Blob.Edit.Resize.{resize_lem}
use natbuster.Blob.Edit.Copy.{overwrite, copy_from_inside, splice-Holds}
use natbuster.Blob.Packed.{Writer, store32, add_record}

store32_lem :
    (b : Blob) (at n : ℕ)
    → IsValid b
    → at + 4 ≤ b.size
    → store32 b at n ≡ some (record b { buffer = splice b.buffer (b.pre_gap + at) (le32 n) })
unfolding store32 memcpy le32
store32_lem b at n v h = ground (arith, v)

-- The header written before the content: what was there, the size and the content.
framed :
    (old view head : List ℕ) (c : ℕ) (r : List ℕ)
    → c ≡ length old
    → length r ≡ c + 4 + length view
    → take c r ≡ old
    → length head ≡ 4
    → overwrite (overwrite r (c + 4) view) c head ≡ old ++ (head ++ view)
framed old view head c r lo lr t lh =
    let start : List ℕ = take (c + 4) r in
    let body : List ℕ = view ++ drop (c + 4 + length view) r in
    let l : c + 4 ≡ length start = omega (arith, length-take (c + 4) r) in
    let left : take c (start ++ body) ≡ old =
      take-append_le c start body (omega (arith, l)) ∙ take-take c (c + 4) r (omega arith) ∙ t in
    let right : drop (c + length head) (start ++ body) ≡ view =
      drop-append_at (c + length head) start body (omega (arith, l))
      ∙ ap (λ k. view ++ k) (drop_all (c + 4 + length view) r (omega arith))
      ∙ append-nil view in
    ap (λ k. k ++ (head ++ drop (c + length head) (start ++ body))) left
    ∙ ap (λ k. old ++ (head ++ k)) right

module _ (w : Writer) (view : List ℕ) (v : IsValid w.dst) (at_end : w.write_cursor ≡ w.dst.size)
    (word : w.dst.capacity + 2 * (w.dst.size + 4 + length view) < u32_mod) where
  -- `add_record` succeeds while the sizes stay below 2^32.
  pub add_record_lem :
      (w' : Writer) × (add_record w view ≡ some w')
      × Holds w'.dst (bytes w.dst ++ (le32 (length view) ++ view))
      × (w'.write_cursor ≡ w'.dst.size)
      × (w'.dst.pre_gap ≤ w.dst.pre_gap)
      × (w'.dst.capacity ≤ max w.dst.capacity (w.dst.pre_gap + w.dst.size + 2 * (4 + length view)))
  unfolding add_record
  add_record_lem =
      let c : ℕ = w.dst.size in
      let n : ℕ = length view in
      let (r, e, p) = resize_lem w.dst (c + 4 + n) v (omega arith) in
      let h1 = splice-Holds r view (c + 4) p.valid (omega (arith, p.sized)) in
      let b1 : Blob = record r { buffer = splice r.buffer (r.pre_gap + (c + 4)) view } in
      let h2 = splice-Holds b1 (le32 n) c h1.valid (omega (arith, p.sized, length-le32 n)) in
      let b2 : Blob = record b1 { buffer = splice b1.buffer (b1.pre_gap + c) (le32 n) } in
      let one : min w.dst.size (c + 4 + n) - 0 ≡ c = omega arith in
      let old : take c (bytes r) ≡ bytes w.dst =
        ap (λ k. take k (bytes r)) (sym one)
        ∙ p.kept
        ∙ take_all (c + 4 + n) (bytes w.dst) (omega (arith, length-bytes w.dst v)) in
      let shown =
        framed (bytes w.dst) view (le32 n) c (bytes r) (sym (length-bytes w.dst v))
          (omega (arith, length-bytes r p.valid, p.sized)) old (length-le32 n) in
      (
        record { write_cursor = c + 4 + n; dst = b2 },
        ground (
          arith,
          e,
          at_end,
          copy_from_inside r view (c + 4) p.valid (omega (arith, p.sized)),
          store32_lem b1 c n h1.valid (omega (arith, p.sized)),
        ),
        record {
          valid = h2.valid;
          content = h2.content ∙ ap (λ k. overwrite k c (le32 n)) h1.content ∙ shown;
        },
        omega (arith, p.sized),
        omega (arith, p.pre_bound),
        omega (arith, p.bound),
      )
