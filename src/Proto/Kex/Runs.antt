-- ===== src/Proto/Kex/Runs.antt =====
-- How a property of all turns of a handler is proved: one lemma for each way of going on.
use natbuster.Prelude.{
  ℕ, ◌≡◌, refl, ap, sym, ◌∙◌, Bool, true, false, Option, none, some, inl, inr, List, Bool-cases,
  Option-cases, some_inj, subst, leb, assert, if◌then◌else◌, length, take, ◌>>=◌, ◌>>◌, All,
  All-bind, All-if,
}
use natbuster.Blob.Packed.{Reader, next_record, eof}
use natbuster.Crypto.Cipher.{Cipher, set_key, set_iv, key_size, iv_size}
use natbuster.Proto.Keys.{Keys}
use natbuster.Proto.Kex.{
  Kex, Turn, Run, need, need_record, need_eof, secret_hash_derive_bits, derive_cipher,
}

pub All-need :
    {A : Type 0} {K : Keys} (P : Turn K → Type 0) (o : Option A) (failed : Run K) (k : A → Run K)
    → All P failed
    → ((a : A) → o ≡ some a → All P (k a))
    → All P (need o failed k)
All-need P none failed k f h = f
All-need P (some a) failed k f h = h a refl

pub All-need_record :
    {K : Keys} (P : Turn K → Type 0) (r : Reader) (failed : Run K) (k : List ℕ → Reader → Run K)
    → All P failed
    → ((d : List ℕ) (r' : Reader) → next_record r ≡ some (r', some d) → All P (k d r'))
    → All P (need_record r failed k)
All-need_record P r failed k f h =
    All-bind P (next_record r) (λ step. need step.1 failed (λ d. k d step.0))
      (λ step e.
        All-need P step.1 failed (λ d. k d step.0) f (λ d e'. h d step.0 (e ∙ rw (sym e') refl)))

pub All-need_eof :
    {K : Keys} (P : Turn K → Type 0) (r : Reader) (failed s : Run K)
    → All P failed
    → All P s
    → All P (need_eof r failed s)
All-need_eof P r failed s f h =
    All-bind P (eof r) (λ at_end. if at_end then s else failed)
      (λ at_end e. All-if P at_end s failed (λ _. h) (λ _. f))

-- The same, for a way of going on that needs the end of the packet.
pub All-need_end :
    {K : Keys} (P : Turn K → Type 0) (r : Reader) (failed s : Run K)
    → All P failed
    → (eof r ≡ some true → All P s)
    → All P (need_eof r failed s)
All-need_end P r failed s f h =
    All-bind P (eof r) (λ at_end. if at_end then s else failed)
      (λ at_end e. All-if P at_end s failed (λ b. h (e ∙ ap some b)) (λ _. f))

pub All-derive_cipher :
    {K : Keys} (P : Turn K → Type 0) (x : Kex K) (a b : ℕ) (c : Cipher) (failed : Cipher → Run K)
    (k : Cipher → Run K)
    → ((c' : Cipher) → All P (failed c'))
    → ((c' : Cipher) → All P (k c'))
    → All P (derive_cipher x a b c failed k)
unfolding derive_cipher
All-derive_cipher P x a b c failed k f h =
    All-bind P (secret_hash_derive_bits x a key_size) _ (λ key_bits _.
      All-need P key_bits (failed c) _ (f c) (λ key_data _.
        All-bind P (assert (leb key_size (length key_data)) >> set_key c (take key_size key_data)) _
          (λ keyed _. All-bind P (secret_hash_derive_bits x b iv_size) _ (λ iv_bits _.
            All-need P iv_bits (failed keyed) _ (f keyed) (λ iv_data _.
              All-bind P
                (assert (leb iv_size (length iv_data)) >> set_iv keyed (take iv_size iv_data)) k
                (λ c' _. h c'))))))

pub ruleset runs = (All-if, All-bind, All-need, All-need_record, All-need_eof, All-derive_cipher)
