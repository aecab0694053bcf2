-- ===== src/Transport/Session/Gate.antt =====
-- Nothing reaches the layer above before the key exchange is done.
use natbuster.Prelude.{
  ℕ, ◌≡◌, refl, sym, ap, ◌∙◌, Bool, true, false, some, List, [], ◌∷◌, ◌==◌, if◌then◌else◌, ◌>>=◌,
  All, All-some, All-bind, All-if, arith,
}
use natbuster.Crypto.Cipher.{Gcm, decrypt}
use natbuster.Transport.Link.{Link, packet_data, packet_kex, packet_enc_off}
use natbuster.Proto.Keys.{Keys}
use natbuster.Proto.Kex.{
  Random, Turn, KexEvent, ok, ok_done, error_malformed, error_notrust, error_crypto, error_state,
  error_generic, error_send,
}
use natbuster.Proto.Kex.Trust.{Proven, recv-Proven}
use natbuster.Transport.Session.{
  Session, Event, opened, packet, raw, closed, kex_recv, after_kex, handle, handle_bytes, on_packet,
}

-- What a call of `on_packet` may tell the layer above.
pub data Allowed {K : Keys} (g : Gcm) (s : Session K) (rnd : Random K)
    : Session K × List Event → Type 0 where
  silent : (s' : Session K) → Allowed g s rnd (s', [])
  closes : (s' : Session K) → Allowed g s rnd (s', closed ∷ [])
  delivers :
      (s' : Session K) (d : List ℕ)
      → s.link.first_kex_ok ≡ true
      → Allowed g s rnd (s', packet d ∷ [])
  opens :
      (s' : Session K) (l : Link) (content : List ℕ) (t : Turn K)
      → kex_recv g s l rnd content ≡ some t
      → t.event ≡ ok_done
      → s'.kex ≡ t.kex
      → Allowed g s rnd (s', opened ∷ [])

module _ {K : Keys} (g : Gcm) (s : Session K) (rnd : Random K) where
  may_open :
      (b : Bool) (s' : Session K) (l : Link) (content : List ℕ) (t : Turn K)
      → kex_recv g s l rnd content ≡ some t
      → t.event ≡ ok_done
      → s'.kex ≡ t.kex
      → Allowed g s rnd (s', if b then [] else opened ∷ [])
  may_open true s' l content t run done same = silent s'
  may_open false s' l content t run done same = opens s' l content t run done same

  after_kex-Allowed :
      (l : Link) (content : List ℕ) (t : Turn K) (e : KexEvent)
      → t.event ≡ e
      → kex_recv g s l rnd content ≡ some t
      → Allowed g s rnd (after_kex g e s t)
  unfolding after_kex
  after_kex-Allowed l content t ok same run = silent (record s { link = t.link; kex = t.kex })
  after_kex-Allowed l content t ok_done same run =
      may_open t.link.first_kex_ok
        (record s { link = record t.link { first_kex_ok = true }; kex = t.kex }) l content t run
        same refl
  after_kex-Allowed l content t error_malformed same run =
      closes (record s { link = t.link; kex = t.kex })
  after_kex-Allowed l content t error_notrust same run =
      closes (record s { link = t.link; kex = t.kex })
  after_kex-Allowed l content t error_crypto same run =
      closes (record s { link = t.link; kex = t.kex })
  after_kex-Allowed l content t error_generic same run =
      closes (record s { link = t.link; kex = t.kex })
  after_kex-Allowed l content t error_send same run =
      closes (record s { link = t.link; kex = t.kex })
  after_kex-Allowed l content t error_state same run =
      closes (record s { link = t.link; kex = t.kex })

  handle-Allowed :
      (l : Link) (type : ℕ) (content : List ℕ)
      → l.first_kex_ok ≡ s.link.first_kex_ok
      → All (Allowed g s rnd) (handle g s l rnd type content)
  unfolding handle
  handle-Allowed l type content same =
      let P = Allowed g s rnd in
      let s' : Session K = record s { link = l } in
      All-if P (type == packet_data) _ _
        (λ _.
          All-if P l.first_kex_ok (some (s', packet content ∷ [])) (some (s', closed ∷ []))
            (λ first. delivers s' content (sym same ∙ first)) (λ _. closes s'))
        (λ _.
          All-if P (type == packet_kex) _ _
            (λ _.
              All-bind P (kex_recv g s l rnd content) (λ t. some (after_kex g t.event s t))
                (λ t run. after_kex-Allowed l content t t.event refl run))
            (λ _.
              All-if P (type == packet_enc_off) _ _
                (λ _.
                  All-if P l.enc_off_enable
                    (some (record s { link = record l { enc_on_ib = false } }, []))
                    (some (s', closed ∷ []))
                    (λ _. silent (record s { link = record l { enc_on_ib = false } }))
                    (λ _. closes s'))
                (λ _. closes s')))

  bytes-Allowed :
      (l : Link) (d : List ℕ)
      → l.first_kex_ok ≡ s.link.first_kex_ok
      → All (Allowed g s rnd) (handle_bytes g s l rnd d)
  unfolding handle_bytes
  bytes-Allowed l [] same = tt
  bytes-Allowed l (type ∷ content) same = handle-Allowed l type content same

-- Whatever packet arrives, `on_packet` delivers data only if the key exchange was done before, and
-- reports the connection as open only on an `ok_done` of the key exchange for this very packet.
pub on_packet-Allowed :
    {K : Keys} (g : Gcm) (s : Session K) (rnd : Random K) (d : List ℕ)
    (out : Session K × List Event)
    → on_packet g s rnd d ≡ some out
    → Allowed g s rnd out
unfolding on_packet
on_packet-Allowed g s rnd d out e =
    All-some (Allowed g s rnd) (on_packet g s rnd d) out
      (All-if (Allowed g s rnd) s.link.enc_on_ib
        (decrypt g s.link.inbound d [] >>= λ o.
          handle_bytes g s (record s.link { inbound = o.cipher }) rnd o.out)
        (handle_bytes g s s.link rnd d)
        (λ _.
          All-bind (Allowed g s rnd) (decrypt g s.link.inbound d [])
            (λ o. handle_bytes g s (record s.link { inbound = o.cipher }) rnd o.out)
            (λ o _. bytes-Allowed g s rnd (record s.link { inbound = o.cipher }) o.out refl))
        (λ _. bytes-Allowed g s rnd s.link d refl))
      e

-- A server session reports the connection as open only if the client has proven to hold the
-- long term key that the server then has for it, and that key was accepted.
pub opened-Proven :
    {K : Keys} (g : Gcm) (s s' : Session K) (rnd : Random K) (d : List ℕ)
    → s.is_client ≡ false
    → on_packet g s rnd d ≡ some (s', opened ∷ [])
    → (t : Turn K) × (s'.kex ≡ t.kex) × Proven s.kex t
unfolding kex_recv
opened-Proven {K} g s s' rnd d server e =
    by_events (opened ∷ []) refl (on_packet-Allowed g s rnd d (s', opened ∷ []) e)
  where
    is_open : List Event → Bool
    is_open (opened ∷ _) = true
    is_open _ = false

    by_events :
        (ev : List Event)
        → ev ≡ opened ∷ []
        → Allowed g s rnd (s', ev)
        → (t : Turn K) × (s'.kex ≡ t.kex) × Proven s.kex t
    by_events [] same (silent _) = absurd (ground (arith, ap is_open same))
    by_events (closed ∷ []) same (closes _) = absurd (ground (arith, ap is_open same))
    by_events (packet _ ∷ []) same (delivers _ _ _) = absurd (ground (arith, ap is_open same))
    by_events (opened ∷ (_ ∷ _)) same a = elim a [ ]
    by_events (packet _ ∷ (_ ∷ _)) same a = elim a [ ]
    by_events (raw _ ∷ _) same a = elim a [ ]
    by_events (closed ∷ (_ ∷ _)) same a = elim a [ ]
    by_events (opened ∷ []) same (opens _ l content t run done kept) =
        (t, kept, recv-Proven g s.kex l rnd content t (ground (arith, run, server)) done)
