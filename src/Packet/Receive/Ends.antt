-- ===== src/Packet/Receive/Ends.antt =====
-- The reads of core/src/packet.c end.
use rushkit.Base.{
  ℕ, zero, suc, ◌+◌, ◌-◌, ◌<◌, ◌≡◌, inl, inr, Bool, true, false, List, [], ◌∷◌, arith, Bytes,
  length, leb, ltb, ◌==◌, Bool-cases,
}
use rushkit.Base.Outcome.{
  Outcome, ok, fault, assert, split_at, Ensures, returned, aborted, faulted, Ensures-bind,
  Ensures-if,
}
use rushkit.Buffer.ReadBuffer.{
  ReadBuffer, rtmp_rb_get_space, rtmp_rb_read_e, read_bytes, rtmp_rb_read_byte_e,
  rtmp_rb_read_short_e, rtmp_rb_read_int_e, rtmp_rb_read_medium_int_e, medium_int,
}
use rushkit.Buffer.FixBuffer.{FixBuffer, rtmp_fwb_write, rtmp_fwb_get_space}
use rushkit.Session.{Channel, Proto, at, int_lt, rtmp_proto_get_channel}
use rushkit.Packet.Header.{read_timer, read_source, read_all}
use rushkit.Packet.Receive.{read_chunks, read_last}

-- A run that ends.
abbrev pub Ends {ℓ} : {A : Type ℓ} → Outcome A → Type ℓ
Ends r = Ensures (λ a. Unit {0}) r

pub assert-Ends : (t : Bool) → Ends (assert t)
assert-Ends true = returned tt
assert-Ends false = aborted

pub split_at-Ends : (n : ℕ) (src : Bytes) → Ends (split_at n src)
split_at-Ends n src = Ensures-if (leb n (length src)) (λ h. returned tt) (λ h. faulted)

-- A read of `n` bytes takes them from the space.
pub read_e-Ensures :
    (b : ReadBuffer) (n : ℕ)
    → Ensures (λ r. n + rtmp_rb_get_space r.1 ≡ rtmp_rb_get_space b) (rtmp_rb_read_e b n)
unfolding rtmp_rb_read_e rtmp_rb_get_space
read_e-Ensures b n = elim (Bool-cases (leb n (b.len - b.current))) [
  | inl there ↦ rw there (returned (ground arith))
  | inr missing ↦ rw missing aborted
]

pub read_bytes-Ensures :
    (b : ReadBuffer) (n : ℕ)
    → Ensures (λ r. n + rtmp_rb_get_space r.1 ≡ rtmp_rb_get_space b) (read_bytes b n)
unfolding read_bytes
read_bytes-Ensures b n =
    Ensures-bind (read_e-Ensures b n)
      (λ (src, b') h. Ensures-bind (split_at-Ends n src) (λ r _. returned h))

pub first-Ends :
    (src : Bytes) (b : ReadBuffer)
    → Ends {A = ℕ × ReadBuffer} (elim src [ [] ↦ fault | x ∷ _ ↦ ok (x, b) ])
first-Ends [] b = faulted
first-Ends (x ∷ src) b = returned tt

pub elim-Ensures {ℓ κ} :
    {A : Type ℓ} {P : A → Type κ} (t : Bool) {x y : Outcome A}
    → Ensures P x
    → Ensures P y
    → Ensures P (elim t [ false ↦ x | true ↦ y ])
elim-Ensures false hx hy = hx
elim-Ensures true hx hy = hy

pub read_byte-Ends : (b : ReadBuffer) → Ends (rtmp_rb_read_byte_e b)
unfolding rtmp_rb_read_byte_e
read_byte-Ends b = Ensures-bind (read_bytes-Ensures b 1) (λ (src, b') _. first-Ends src b')

pub read_short-Ends : (small : Bool) (b : ReadBuffer) → Ends (rtmp_rb_read_short_e small b)
unfolding rtmp_rb_read_short_e
read_short-Ends small b = Ensures-bind (read_bytes-Ensures b 2) (λ r _. returned tt)

pub read_int-Ends : (small : Bool) (b : ReadBuffer) → Ends (rtmp_rb_read_int_e small b)
unfolding rtmp_rb_read_int_e
read_int-Ends small b = Ensures-bind (read_bytes-Ensures b 4) (λ r _. returned tt)

pub medium_int-Ends : (src : Bytes) → Ends (medium_int src)
unfolding medium_int
medium_int-Ends [] = faulted
medium_int-Ends (a ∷ []) = faulted
medium_int-Ends (a ∷ b ∷ []) = faulted
medium_int-Ends (a ∷ b ∷ c ∷ src) = returned tt

pub read_medium_int-Ends : (b : ReadBuffer) → Ends (rtmp_rb_read_medium_int_e b)
unfolding rtmp_rb_read_medium_int_e
read_medium_int-Ends b =
    Ensures-bind (read_bytes-Ensures b 3)
      (λ (src, b') _. Ensures-bind (medium_int-Ends src) (λ e _. returned tt))

pub read_timer-Ends : (c : Channel) (b : ReadBuffer) → Ends (read_timer c b)
unfolding read_timer
read_timer-Ends c b = Ensures-bind (read_medium_int-Ends b) (λ r _. returned tt)

pub read_source-Ends : (c : Channel) (b : ReadBuffer) → Ends (read_source c b)
unfolding read_source
read_source-Ends c b = Ensures-bind (read_timer-Ends c b) (λ (c₁, b₁) _.
    Ensures-bind (read_medium_int-Ends b₁)
      (λ (size, b₂) _. Ensures-bind (read_byte-Ends b₂) (λ r _. returned tt)))

pub read_all-Ends : (small : Bool) (c : Channel) (b : ReadBuffer) → Ends (read_all small c b)
unfolding read_all
read_all-Ends small c b =
    Ensures-bind (read_source-Ends c b)
      (λ (c₁, b₁) _. Ensures-bind (read_int-Ends small b₁) (λ r _. returned tt))

pub write-Ends : (fwb : FixBuffer) (src : Bytes) → Ends (rtmp_fwb_write fwb src)
unfolding rtmp_fwb_write
write-Ends fwb src =
    Ensures-bind (assert-Ends (leb (length src) (rtmp_fwb_get_space fwb))) (λ u _. returned tt)

-- The chunks end: each round takes a header byte of the data.
pub read_chunks-Ends :
    (fuel chunk hb : ℕ) (fwb : FixBuffer) (b : ReadBuffer)
    → 0 < hb
    → rtmp_rb_get_space b < fuel
    → Ends (read_chunks fuel chunk hb fwb b)
unfolding read_chunks
read_chunks-Ends zero chunk hb fwb b h enough = absurd (omega arith)
read_chunks-Ends (suc fuel) chunk hb fwb b h enough =
    elim-Ensures (leb (chunk + hb) (rtmp_fwb_get_space fwb)) (returned tt) (
      Ensures-bind (read_bytes-Ensures b chunk) (λ (trunk, b₁) taken.
        Ensures-bind (write-Ends fwb trunk) (λ (n, fwb₁) _.
          Ensures-bind (read_e-Ensures b₁ hb)
            (λ (q, b₂) taken'. read_chunks-Ends fuel chunk hb fwb₁ b₂ h (omega arith)))))

pub read_last-Ends : (r : FixBuffer × ReadBuffer) → Ends (read_last r)
unfolding read_last
read_last-Ends (fwb, b) = elim-Ensures (ltb 0 (rtmp_fwb_get_space fwb)) (returned tt) (
    Ensures-bind (read_bytes-Ensures b (rtmp_fwb_get_space fwb))
      (λ (dv, b') _. Ensures-bind (write-Ends fwb dv) (λ r _. returned tt)))

pub get_elem-Ends : (cs : List Channel) (i : ℕ) → Ends (at cs i)
get_elem-Ends [] i = faulted
get_elem-Ends (c ∷ cs) zero = returned tt
get_elem-Ends (c ∷ cs) (suc i) = get_elem-Ends cs i

pub get_channel-Ends : (p : Proto) → Ends (rtmp_proto_get_channel p)
unfolding rtmp_proto_get_channel
get_channel-Ends p = Ensures-bind (assert-Ends (int_lt p.channel_id 64)) (λ u _.
    Ensures-bind (get_elem-Ends p.channels_in p.channel_id)
      (λ c _. Ensures-bind (assert-Ends (c.used == 1)) (λ u' _. returned tt)))
