-- ===== src/Packet/Receive/Moves.antt =====
-- What each step of `rtmp_packet_get_packet` does to its state.
use rushkit.Base.{
  ℕ, suc, ◌+◌, ◌*◌, ◌-◌, ◌≡◌, ◌⊎◌, inl, inr, refl, sym, Bool, true, false, Option, none, some,
  arith, Bytes, leb, ltb, ◌==◌, if◌then◌else◌,
}
use mathlib.Core.Path.{subst}
use rushkit.Base.Outcome.{
  Outcome, ok, abort, fault, out_of_fuel, ◌>>=◌, Ensures, returned, aborted, faulted, Ensures-bind,
  Ensures-if, Ensures-out_of_fuel,
}
use rushkit.Buffer.ReadBuffer.{ReadBuffer, rtmp_rb_get_space, rtmp_rb_assert_size}
use rushkit.Buffer.FixBuffer.{FixBuffer}
use rushkit.Session.{
  Channel, Packet, Proto, rtmp_proto_log, int_lt, rtmp_proto_get_channel, rtmp_packet_reset,
}
use rushkit.Packet.Header.{
  channel_new, channel_same_source, channel_timer_change, Step, next_state, start_receive, get_r1,
  with_bytes, one_byte_id, two_byte_id, get_r2, new_invalid_packet, get_r3, read_timer, read_source,
  read_all, too_large, check_size, read_header, get_r4,
}
use rushkit.Packet.Receive.{
  extended_timer, reset_data_buffer, get_r5, count_header_bytes, take_packet, read_chunks,
  read_last, finish, read_four, get_r6,
}
use rushkit.Packet.Receive.Ends.{
  Ends, assert-Ends, read_e-Ensures, read_bytes-Ensures, read_byte-Ends, read_short-Ends,
  read_int-Ends, read_timer-Ends, read_source-Ends, read_all-Ends, write-Ends, read_chunks-Ends,
  read_last-Ends, get_channel-Ends,
}

-- A step that yields no packet has gone on to the next state.
abbrev pub Advances : Proto → Option Packet × Proto × ReadBuffer → Type 0
Advances p (none, q, c) = q.state ≡ suc p.state
Advances p (some pac, q, c) = Unit

-- A step that waits: it leaves all as it is but what the read buffer notes, whatever that is.
abbrev pub Waits : (ReadBuffer → Step) → Proto → ReadBuffer → Type 0
Waits f p b =
    (k : ℕ)
    → (k' : ℕ) × (f (record b { need_more = k }) ≡ ok (none, p, record b { need_more = k' }))

abbrev pub Moves : (ReadBuffer → Step) → Proto → ReadBuffer → Type 0
Moves f p b = Ensures (Advances p) (f b) ⊎ Waits f p b

pub if-Moves :
    (t : Bool) (f g : ReadBuffer → Step) (p : Proto) (b : ReadBuffer)
    → Moves f p b
    → Moves g p b
    → Moves (λ c. if t then f c else g c) p b
if-Moves true f g p b hf hg = hf
if-Moves false f g p b hf hg = hg

pub bind-Moves :
    {A : Type 0} (m : Outcome A) (f : A → ReadBuffer → Step) (p : Proto) (b : ReadBuffer)
    → Ends m
    → ((a : A) → Moves (f a) p b)
    → Moves (λ c. m >>= (λ a. f a c)) p b
bind-Moves (ok a) f p b h k = k a
bind-Moves abort f p b h k = inl aborted
bind-Moves fault f p b h k = inl faulted
bind-Moves out_of_fuel f p b h k = absurd (Ensures-out_of_fuel h refl)

-- `n` bytes are asked for: they are there, or the step waits.
asked-Moves :
    (t : Bool) (p : Proto) (b : ReadBuffer) (n : ℕ) (go_on : ReadBuffer → Step)
    → ltb b.len (n + b.current) ≡ t
    → Ensures (Advances p) (go_on b)
    → Moves (λ c. with_bytes p c n go_on) p b
unfolding with_bytes rtmp_rb_assert_size
asked-Moves true p b n go_on short h = inr (λ k. (n + b.current - b.len, ground (arith, short)))
asked-Moves false p b n go_on enough h =
    let reads : with_bytes p b n go_on ≡ go_on b = ground (arith, enough) in
    inl (subst (Ensures (Advances p)) (sym reads) h)

pub with_bytes-Moves :
    (p : Proto) (b : ReadBuffer) (n : ℕ) (go_on : ReadBuffer → Step)
    → Ensures (Advances p) (go_on b)
    → Moves (λ c. with_bytes p c n go_on) p b
with_bytes-Moves p b n go_on h = asked-Moves (ltb b.len (n + b.current)) p b n go_on refl h

invalid-Ends : (p : Proto) (payload : Bytes) → Ends (new_invalid_packet p payload)
unfolding new_invalid_packet
invalid-Ends p payload = Ensures-bind (get_channel-Ends _) (λ c _. returned tt)

take_packet-Ends : (p : Proto) → Ends (take_packet p)
unfolding take_packet
take_packet-Ends p = Ensures-bind (get_channel-Ends _) (λ c _. returned tt)

finish-Ensures : (p : Proto) (r : FixBuffer × ReadBuffer) → Ensures (Advances p) (finish p r)
unfolding finish
finish-Ensures p (fwb, b) = Ensures-bind (take_packet-Ends _) (λ r _. returned tt)

check_size-Ensures : (p : Proto) (r : Channel × ReadBuffer) → Ensures (Advances p) (check_size p r)
unfolding check_size too_large
check_size-Ensures p (c, b) =
    Ensures-if (leb (32 * 1024) c.size)
      (λ h.
        Ensures-bind (read_e-Ensures b (rtmp_rb_get_space b))
          (λ r _. Ensures-bind (invalid-Ends _ _) (λ r' _. returned tt)))
      (λ h. returned (omega arith))

module _ (small : Bool) (p : Proto) (b : ReadBuffer) where
  pub start-Moves : p.state ≡ 0 → Moves (λ c. ok (none, start_receive p, c)) p b
  unfolding start_receive rtmp_packet_reset
  start-Moves h = inl (returned (omega arith))

  pub get_r1-Moves : Moves (get_r1 p) p b
  unfolding get_r1
  get_r1-Moves = inl (Ensures-bind (read_byte-Ends b) (λ r _. returned (omega arith)))

  pub get_r2-Moves : Moves (get_r2 small p) p b
  unfolding get_r2 one_byte_id two_byte_id
  get_r2-Moves =
      let short_form : ReadBuffer → Step = λ c. with_bytes p c 1 (one_byte_id p) in
      let long_form : ReadBuffer → Step = λ c. with_bytes p c 2 (two_byte_id small p) in
      if-Moves (p.channel_id == 0) short_form
        (λ c. if p.channel_id == 1 then long_form c else next_state p c) p b
        (with_bytes-Moves p b 1 (one_byte_id p)
          (Ensures-bind (read_byte-Ends b) (λ r _. returned (omega arith))))
        (if-Moves (p.channel_id == 1) long_form (next_state p) p b
          (with_bytes-Moves p b 2 (two_byte_id small p)
            (Ensures-bind (read_short-Ends small b) (λ r _. returned (omega arith))))
          (inl (returned (omega arith))))

  pub get_r3-Moves : Moves (get_r3 p) p b
  unfolding get_r3
  get_r3-Moves =
      inl (Ensures-bind (assert-Ends (int_lt p.channel_id 64)) (λ u _. returned (omega arith)))

  read_header-Moves : (c : Channel) → Moves (read_header small p c) p b
  unfolding read_header
  read_header-Moves c =
      let all : ReadBuffer → Step =
        λ d. with_bytes p d 11 (λ b'. read_all small c b' >>= check_size p) in
      let source : ReadBuffer → Step =
        λ d. with_bytes p d 7 (λ b'. read_source c b' >>= check_size p) in
      let timer : ReadBuffer → Step =
        λ d. with_bytes p d 3 (λ b'. read_timer c b' >>= check_size p) in
      let bare : ReadBuffer → Step = λ d. check_size p (c, d) in
      let changed : ReadBuffer → Step =
        λ d. if p.packet_mask == channel_timer_change then timer d else bare d in
      let known : ReadBuffer → Step =
        λ d. if p.packet_mask == channel_same_source then source d else changed d in
      if-Moves (p.packet_mask == channel_new) all known p b
        (with_bytes-Moves p b 11 (λ b'. read_all small c b' >>= check_size p)
          (Ensures-bind (read_all-Ends small c b) (λ r _. check_size-Ensures p r)))
        (if-Moves (p.packet_mask == channel_same_source) source changed p b
          (with_bytes-Moves p b 7 (λ b'. read_source c b' >>= check_size p)
            (Ensures-bind (read_source-Ends c b) (λ r _. check_size-Ensures p r)))
          (if-Moves (p.packet_mask == channel_timer_change) timer bare p b
            (with_bytes-Moves p b 3 (λ b'. read_timer c b' >>= check_size p)
              (Ensures-bind (read_timer-Ends c b) (λ r _. check_size-Ensures p r)))
            (inl (check_size-Ensures p (c, b)))))

  pub get_r4-Moves : Moves (get_r4 small p) p b
  unfolding get_r4
  get_r4-Moves =
      bind-Moves (rtmp_proto_get_channel p) (read_header small p) p b (get_channel-Ends p)
        read_header-Moves

  pub get_r5-Moves : Moves (get_r5 small p) p b
  unfolding get_r5 extended_timer reset_data_buffer rtmp_proto_log
  get_r5-Moves =
      let after_timer : Channel → ReadBuffer → Step =
        λ c d. with_bytes p d 4 (extended_timer small p c) in
      let plain_timer : Channel → ReadBuffer → Step =
        λ c d. next_state (reset_data_buffer p c.size) d in
      bind-Moves (rtmp_proto_get_channel p)
        (λ c d. if c.timer == 0xffffff then after_timer c d else plain_timer c d) p b
        (get_channel-Ends p)
        (λ c.
          if-Moves (c.timer == 0xffffff) (after_timer c) (plain_timer c) p b
            (with_bytes-Moves p b 4 (extended_timer small p c)
              (Ensures-bind (read_int-Ends small b) (λ r _. returned (omega arith))))
            (inl (returned (omega arith))))

  pub get_r6-Moves : Moves (get_r6 p) p b
  unfolding get_r6 read_four
  get_r6-Moves =
      let hb = 1 + count_header_bytes p.channel_id in
      let chunks : ReadBuffer → Step = λ d.
        (read_chunks (suc (rtmp_rb_get_space d)) p.read_chunk_size hb p.data_buffer d >>= read_last)
        >>= finish p in
      let four : ReadBuffer → Step = λ d. with_bytes p d 4 (read_four p) in
      bind-Moves (rtmp_proto_get_channel p) (λ c d. if ltb 0 c.data_type then chunks d else four d)
        p b (get_channel-Ends p)
        (λ c.
          if-Moves (ltb 0 c.data_type) chunks four p b
            (inl (
              Ensures-bind
                (Ensures-bind
                  (read_chunks-Ends (suc (rtmp_rb_get_space b)) p.read_chunk_size hb p.data_buffer b
                    (omega arith) (omega arith))
                  (λ r _. read_last-Ends r))
                (λ r _. finish-Ensures p r)))
            (with_bytes-Moves p b 4 (read_four p) (
              Ensures-bind (read_bytes-Ensures b 4) (λ (src, b') _.
                Ensures-bind (write-Ends p.data_buffer src)
                  (λ (n, fwb) _. finish-Ensures p (fwb, b'))))))
