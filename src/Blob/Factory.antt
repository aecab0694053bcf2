-- ===== src/Blob/Factory.antt =====
-- The factories of `Blob` in common/utils/blob.cpp, each with what the new blob shows.
use natbuster.Prelude.{
  ℕ, zero, suc, ◌+◌, ◌≤◌, ◌<◌, ◌≡◌, refl, ap, sym, ◌∙◌, some, Option, List, [], ◌∷◌, ◌++◌, arith,
  length, take, drop, replicate, u32_mod, add32, ltb, length-append, length-replicate, append_assoc,
  append-nil, assert, ◌>>=◌, ◌>>◌, take_all,
}
use natbuster.Prelude.Bytes.{splice, length-splice}
use natbuster.Blob.{Blob, Holds, alloc, bufcpy}
use natbuster.Blob.Grow.{bufcpy_fits}
use natbuster.Blob.Edit.Splices.{window-append}

unfoldable pub factory_empty : ℕ → ℕ → ℕ → Blob
factory_empty size pre_gap end_gap =
    let capacity = add32 (add32 size pre_gap) end_gap in
    record { buffer = alloc capacity; pre_gap = pre_gap; capacity = capacity; size = size }

unfoldable pub factory_consume : List ℕ → ℕ → Blob
factory_consume data_consume len = record {
  buffer = data_consume;
  pre_gap = 0;
  capacity = len;
  size = len;
}

unfoldable pub factory_copy : List ℕ → ℕ → ℕ → Option Blob
factory_copy view pre_gap end_gap = do
  let capacity = add32 (add32 pre_gap (length view)) end_gap
  buffer ← bufcpy (alloc capacity) capacity pre_gap view (length view) 0 (length view)
  some (record { buffer = buffer; pre_gap = pre_gap; capacity = capacity; size = length view })

-- `str.size()` is a `size_t`, so it is compared before it is narrowed.
unfoldable pub factory_string : List ℕ → Option Blob
factory_string str = do assert (ltb (length str) 4294967295); factory_copy str 0 0

unfoldable pub concat_size : List (List ℕ) → ℕ → ℕ
concat_size [] new_len = new_len
concat_size (it ∷ list) new_len = concat_size list (add32 new_len (length it))

unfoldable pub concat_copy : List (List ℕ) → List ℕ → ℕ → ℕ → Option (List ℕ)
concat_copy [] buffer new_room progress = some buffer
concat_copy (it ∷ list) buffer new_room progress = do
  buffer' ← bufcpy buffer new_room progress it (length it) 0 (length it)
  concat_copy list buffer' new_room (add32 progress (length it))

unfoldable pub factory_concat : List (List ℕ) → ℕ → ℕ → Option Blob
factory_concat list pre_gap end_gap = do
  let new_len = concat_size list 0
  let new_room = add32 (add32 pre_gap new_len) end_gap
  buffer ← concat_copy list (alloc new_room) new_room pre_gap
  some (record { buffer = buffer; pre_gap = pre_gap; capacity = new_room; size = new_len })

take-drop-replicate :
    (k m n : ℕ) → m + k ≤ n → take {A = ℕ} k (drop m (replicate n 0)) ≡ replicate k 0
take-drop-replicate zero zero n h = refl
take-drop-replicate (suc k) zero zero h = absurd (omega arith)
take-drop-replicate (suc k) zero (suc n) h =
    ap (λ r. 0 ∷ r) (take-drop-replicate k zero n (omega arith))
take-drop-replicate k (suc m) zero h = absurd (omega arith)
take-drop-replicate k (suc m) (suc n) h = take-drop-replicate k m n (omega arith)

-- `factory_empty` shows `size` zero bytes between the gaps, while the sizes stay below 2^32.
pub factory_empty_lem :
    (size pre_gap end_gap : ℕ)
    → size + pre_gap + end_gap < u32_mod
    → Holds (factory_empty size pre_gap end_gap) (replicate size 0)
unfolding factory_empty alloc
factory_empty_lem size pre_gap end_gap h = record {
  valid = record {
    allocated = length-replicate (add32 (add32 size pre_gap) end_gap) 0;
    within = omega arith;
    word = omega arith;
  };
  content = take-drop-replicate size pre_gap (add32 (add32 size pre_gap) end_gap) (omega arith);
}

length-alloc : (n : ℕ) → length (alloc n) ≡ n
unfolding alloc
length-alloc n = length-replicate n 0

-- The bytes of all the views, in order.
abbrev pub flat : List (List ℕ) → List ℕ
flat [] = []
flat (it ∷ list) = it ++ flat list

concat_size-eq :
    (list : List (List ℕ)) (n : ℕ)
    → n + length (flat list) < u32_mod
    → concat_size list n ≡ n + length (flat list)
unfolding concat_size
concat_size-eq [] n h = omega arith
concat_size-eq (it ∷ list) n h =
    let e : add32 n (length it) ≡ n + length it = omega (arith, length-append it (flat list)) in
    rw e (
      omega (
        arith,
        length-append it (flat list),
        concat_size-eq list (n + length it) (omega (arith, length-append it (flat list))),
      ))

-- The copying loop has written `done` behind the gap, and goes on with the rest of the list.
concat_copy_lem :
    (list : List (List ℕ)) (buffer : List ℕ) (room pre n : ℕ)
    → length buffer ≡ room
    → room < u32_mod
    → pre + n + length (flat list) ≤ room
    → (out : List ℕ) × (concat_copy list buffer room (pre + n) ≡ some out)
      × (length out ≡ room)
      × (take (n + length (flat list)) (drop pre out) ≡ take n (drop pre buffer) ++ flat list)
unfolding concat_copy
concat_copy_lem [] buffer room pre n l w h =
    let e : n + 0 ≡ n = omega arith in
    (buffer, refl, l, rw e (sym (append-nil (take n (drop pre buffer)))))
concat_copy_lem (it ∷ list) buffer room pre n l w h =
    let la = length-append it (flat list) in
    let b1 : List ℕ = splice buffer (pre + n) it in
    let e : add32 (pre + n) (length it) ≡ pre + (n + length it) = omega (arith, la) in
    let (out, run, lo, shows) =
      concat_copy_lem list b1 room pre (n + length it)
        (length-splice buffer (pre + n) it (omega (arith, la)) ∙ l) w (omega (arith, la)) in
    let e' : n + length (it ++ flat list) ≡ n + length it + length (flat list) =
      omega (arith, la) in
    let copied : bufcpy buffer room (pre + n) it (length it) 0 (length it) ≡ some b1 =
      bufcpy_fits buffer room (pre + n) it (length it) 0 (length it) (omega (arith, la)) (sym l) w
        (omega arith) refl (omega (arith, la))
      ∙ ap (λ k. some (splice buffer (pre + n) k)) (take_all (length it) it (omega arith)) in
    (
      out,
      ap (λ m. m >>= λ c. concat_copy list c room (add32 (pre + n) (length it))) copied
          ∙ ap (concat_copy list b1 room) e
          ∙ run,
      lo,
      ap (λ k. take k (drop pre out)) e'
          ∙ shows
          ∙ ap (λ k. k ++ flat list) (window-append buffer pre n it (omega (arith, la)))
          ∙ append_assoc (take n (drop pre buffer)) it (flat list),
    )

-- `factory_concat` succeeds while the sizes stay below 2^32, and shows the views one after another.
pub factory_concat_lem :
    (list : List (List ℕ)) (pre_gap end_gap : ℕ)
    → pre_gap + length (flat list) + end_gap < u32_mod
    → (b : Blob) × (factory_concat list pre_gap end_gap ≡ some b) × Holds b (flat list)
unfolding factory_concat
factory_concat_lem list pre end h =
    let s = concat_size-eq list 0 (omega arith) in
    let room : ℕ = add32 (add32 pre (concat_size list 0)) end in
    let z : pre ≡ pre + 0 = omega arith in
    let (out, run, lo, shows) =
      concat_copy_lem list (alloc room) room pre 0 (length-alloc room) (omega arith)
        (omega (arith, s)) in
    (
      record { buffer = out; pre_gap = pre; capacity = room; size = concat_size list 0 },
      ap
          (λ m. m >>= λ c.
            some (record { buffer = c; pre_gap = pre; capacity = room; size = concat_size list 0 }))
          (ap (concat_copy list (alloc room) room) z ∙ run),
      record {
        valid = record { allocated = lo; within = omega (arith, s); word = omega arith };
        content = ap (λ k. take k (drop pre out)) s ∙ shows;
      },
    )

-- Copying one view is concatenating it alone.
factory_copy-concat :
    (view : List ℕ) (pre_gap end_gap : ℕ)
    → length view < u32_mod
    → factory_copy view pre_gap end_gap ≡ factory_concat (view ∷ []) pre_gap end_gap
unfolding factory_copy factory_concat concat_size concat_copy
factory_copy-concat view pre end h =
    let e : add32 0 (length view) ≡ length view = omega arith in rw e (ground arith)

-- `factory_copy` succeeds while the sizes stay below 2^32, and shows the copied bytes.
pub factory_copy_lem :
    (view : List ℕ) (pre_gap end_gap : ℕ)
    → pre_gap + length view + end_gap < u32_mod
    → (b : Blob) × (factory_copy view pre_gap end_gap ≡ some b) × Holds b view
factory_copy_lem view pre end h =
    let one : length (view ++ []) ≡ length view = ap length (append-nil view) in
    let (b, e, p) = factory_concat_lem (view ∷ []) pre end (omega (arith, one)) in
    (
      b,
      factory_copy-concat view pre end (omega arith) ∙ e,
      record { valid = p.valid; content = p.content ∙ append-nil view },
    )
