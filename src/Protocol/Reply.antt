-- ===== src/Protocol/Reply.antt =====
-- core/src/protocol.c: a packet that a callback sends, from `rtmp_proto_send_packet` to the bytes for the host.
use rushkit.Base.{
  length-append, ℕ, ◌+◌, ◌-◌, ◌%◌, ◌^◌, ◌<◌, ◌≤◌, ◌≡◌, ◌≢◌, refl, ap, ◌∙◌, Bool, true, false, List,
  [], ◌∷◌, ◌++◌, none, arith, Bytes, length, lengths, ltb, lt→ltb,
}
use mathlib.Core.Bool.{◌||◌}
use rushkit.Base.Outcome.{ok, ◌>>=◌}
use rushkit.Amf.{Value, string, number, plain, amf_nil}
use rushkit.Word.{is_negative_int}
use rushkit.Amf.Encode.{amf_pack, pack_byte, pack_values}
use rushkit.Amf.Encode.Size.{amf_pack_arguments_lem}
use rushkit.Pool.Blocks
use rushkit.Pool.Blocks.{rt_pool_alloc-IsValid}
use rushkit.Buffer.WriteBuffer.{WriteBuffer, rtmp_wb_init, rtmp_wb_get_value}
use rushkit.Session.{Channel, Packet, Proto, wrote, at, set, rtmp_packet_get_last_timer}
use rushkit.Packet.Wire.{header_fields, join, Pieces, packet_on}
use rushkit.Packet.Send.{mask_for, rtmp_packet_write_packet}
use rushkit.Packet.Send.Headers.{Fits}
use rushkit.Packet.Send.NewPacket.{length-flatten-le, sized, IsSendable}
use rushkit.Packet.Send.Masks.{channel_kept, rtmp_packet_write_packet_used}
use rushkit.Protocol.{MethodTable, proto_write_data}
use rushkit.Protocol.Handshake.{recording}
use rushkit.Protocol.Send.{
  result_name, sent_channel, pac_invoke, rtmp_proto_send_packet, rtmp_proto_packet_return,
}

-- A connection that can send on the channel `cid`: a packet is being handled, the channel is in use, and the
-- pool is valid.
pub record CanSend (p : Proto) (cid : ℕ) : Type 0 where
  pub lo : 2 ≤ p.channel_id
  pub hi : p.channel_id < 64
  pub chunk : 0 < p.write_chunk_size
  pub last : Channel
  pub known : at p.channels_out cid ≡ ok last
  pub used : last.used ≢ 0
  pub pool_valid : Blocks.IsValid p.pool

-- The bytes of a packet, after `last`, under the connection's number.
abbrev pub packet_bytes : Proto → Channel → Packet → List Bytes → Bytes → Bytes
packet_bytes p last pac ps end =
    packet_on (mask_for last (sized pac)) p.channel_id pac.channel.timer (sized pac) ps end

pub wb_init-Fits :
    (p : Proto) (n : ℕ) → Blocks.IsValid p.pool → n < 2 ^ 29 → Fits (rtmp_wb_init p.pool 1024) n
unfolding rtmp_wb_init
wb_init-Fits p n v h = (
  record {
    some_room = omega arith;
    is_int = omega arith;
    held = refl;
    within = omega arith;
    pool_valid = rt_pool_alloc-IsValid 1024 v (omega arith);
  },
  omega arith,
)

payload_within :
    {chunk : ℕ} {payload : Bytes} {ps : List Bytes} {end : Bytes} (m id t : ℕ) (c : Channel)
    → Pieces chunk payload ps end
    → length payload ≤ length (packet_on m id t c ps end)
unfolding packet_on
payload_within {ps = ps} {end = end} m id t c s = omega (
  lengths,
  ap length s.whole,
  length-flatten-le (192 + id) ps end,
  length-append {0} (header_fields m t c) (join (192 + id) ps end),
)

packet_on_pos :
    (m id t : ℕ) (c : Channel) (ps : List Bytes) (end : Bytes)
    → 0 < length (packet_on m id t c ps end)
unfolding packet_on
packet_on_pos m id t c ps end = omega arith

module _ (table : MethodTable) where
  hand_over :
      (proto p₁ : Proto) (pac : Packet) (b' : WriteBuffer)
      → rtmp_packet_write_packet true proto (rtmp_wb_init proto.pool 1024) pac false
        ≡ ok (length b'.written, p₁, b')
      → 0 < length b'.written
      → rtmp_proto_send_packet true (recording table) proto none pac false
        ≡ ok (
          length b'.written,
          none,
          record p₁ {
            pool = b'.pool;
            num_down_bytes = (p₁.num_down_bytes + length b'.written) % 2 ^ 32;
            events = p₁.events ++ (wrote b'.written ∷ []);
          },
        )
  unfolding rtmp_proto_send_packet proto_write_data rtmp_wb_get_value
  hand_over proto p₁ pac b' e h = rw (e, lt→ltb 0 (length b'.written) h) refl

  send_packet_lem :
      (proto : Proto) (pac : Packet) (can : CanSend proto pac.channel_id) (ps : List Bytes)
      (end : Bytes)
      → IsSendable pac
      → Pieces proto.write_chunk_size pac.payload ps end
      → length (packet_bytes proto can.last pac ps end) < 2 ^ 29
      → (n : ℕ) × (p' : Proto) × (rtmp_proto_send_packet true (recording table) proto none pac false
          ≡ ok (n, none, p'))
        × (p'.events ≡ proto.events ++ (wrote (packet_bytes proto can.last pac ps end) ∷ []))
        × (p'.channels_out
            ≡ set proto.channels_out pac.channel_id
                (channel_kept (mask_for can.last (sized pac)) can.last (sized pac)))
  send_packet_lem proto pac can ps end s p fits =
      let bytes = packet_bytes proto can.last pac ps end in
      let (b', e, w) =
        rtmp_packet_write_packet_used proto (rtmp_wb_init proto.pool 1024) pac false can.last ps end
          can.lo can.hi can.chunk can.known can.used s p
          (wb_init-Fits proto (length bytes) can.pool_valid fits) in
      let whole : b'.written ≡ bytes = w.bytes ∙ (unfold rtmp_wb_init in refl) in
      (
        _,
        _,
        hand_over proto _ pac b' e (
            omega (
              arith,
              ap length whole,
              packet_on_pos (mask_for can.last (sized pac)) proto.channel_id pac.channel.timer
                  (sized pac) ps end,
            )),
        ap (λ r. proto.events ++ (wrote r ∷ [])) whole,
        refl,
      )

-- The values that answer the request `d` with `v`.
abbrev pub answer_values : ℕ → Value → List Value
answer_values d v = string result_name ∷ number d ∷ plain amf_nil ∷ v ∷ []

-- The packet with the answer, at the time `timer`.
abbrev pub answer_packet : ℕ → ℕ → ℕ → Value → Packet
answer_packet cid timer d v = record {
  channel_id = cid;
  channel = sent_channel timer 0 pac_invoke;
  payload = pack_values true (answer_values d v);
}

-- A connection that can answer on the channel `cid` at the time `now` the request `d` with `v`, in the
-- chunks `ps` and `end`.
pub record CanAnswer (p : Proto) (cid now d : ℕ) (v : Value) (ps : List Bytes) (end : Bytes)
    : Type 0 where
  pub can : CanSend p cid
  pub cid_fits : cid < 64
  pub timer : ℕ
  pub timed : at p.last_timers cid ≡ ok timer
  pub cut : Pieces p.write_chunk_size (pack_values true (answer_values d v)) ps end
  pub short :
      length
        (packet_bytes p can.last (answer_packet cid ((now + 2 ^ 32 - timer) % 2 ^ 32) d v) ps end)
      < 2 ^ 29

answer_pos : (d : ℕ) (v : Value) → 0 < length (pack_values true (answer_values d v))
unfolding pack_values amf_pack pack_byte
answer_pos d v = omega (arith, lengths)

or_true : (b c : Bool) → c ≡ true → (b || c) ≡ true
or_true true c e = refl
or_true false c e = e

later :
    (p : Proto) (cid now : ℕ)
    → CanSend p cid
    → CanSend (record p { last_timers = set p.last_timers cid now }) cid
later p cid now can = record {
  lo = can.lo;
  hi = can.hi;
  chunk = can.chunk;
  last = can.last;
  known = can.known;
  used = can.used;
  pool_valid = can.pool_valid;
}

module _ (table : MethodTable) (to_double : ℕ → ℕ) (now : ℕ) where
  return_of :
      (proto p' : Proto) (cid rid t n : ℕ) (v : Value)
      → cid < 64
      → length (pack_values true (answer_values (to_double rid) v)) < 2 ^ 31
      → at proto.last_timers cid ≡ ok t
      → rtmp_proto_send_packet true
          (recording table)
          (record proto { last_timers = set proto.last_timers cid now })
          none
          (answer_packet cid ((now + 2 ^ 32 - t) % 2 ^ 32) (to_double rid) v)
          false
        ≡ ok (n, none, p')
      → rtmp_proto_packet_return true (recording table) to_double now proto none cid rid v
        ≡ ok (none, p')
  unfolding rtmp_proto_packet_return rtmp_packet_get_last_timer
  return_of proto p' cid rid t n v h short timed e =
      rw
        (
          or_true (is_negative_int cid) (ltb cid 64) (lt→ltb cid 64 h),
          timed,
          amf_pack_arguments_lem true (answer_values (to_double rid) v) short,
          lt→ltb 0 (length (pack_values true (answer_values (to_double rid) v)))
              (answer_pos (to_double rid) v),
        )
        (ap (λ o. o >>= (λ r. ok (r.1, r.2))) e)

  -- With a callback that records what it is given, an answer on a channel that is in use sends one
  -- packet to the host: the packet of type 0x14 with "_result", the number of the request, a nil and
  -- the value, on that channel of the connection's current number, shortened against the last packet of
  -- the channel, and with the time since the channel's last timer. Time is counted modulo 2 ^ 32.
  pub rtmp_proto_packet_return-packet_on :
      (proto : Proto) (cid rid : ℕ) (v : Value) (ps : List Bytes) (end : Bytes)
      (a : CanAnswer proto cid now (to_double rid) v ps end)
      → (p' : Proto) × (rtmp_proto_packet_return true
            (recording table)
            to_double
            now
            proto
            none
            cid
            rid
            v
          ≡ ok (none, p'))
        × (p'.events
            ≡ proto.events
              ++ (wrote (
                    packet_bytes proto a.can.last
                      (answer_packet cid ((now + 2 ^ 32 - a.timer) % 2 ^ 32) (to_double rid) v)
                      ps
                      end)
                  ∷ []))
  unfolding later
  rtmp_proto_packet_return-packet_on proto cid rid v ps end a =
      let pac = answer_packet cid ((now + 2 ^ 32 - a.timer) % 2 ^ 32) (to_double rid) v in
      let (n, p', e, w, c) =
        send_packet_lem table (record proto { last_timers = set proto.last_timers cid now })
          (answer_packet cid ((now + 2 ^ 32 - a.timer) % 2 ^ 32) (to_double rid) v)
          (later proto cid now a.can) ps end
          (record { timer_fits = omega arith; type_fits = omega arith; stream_fits = omega arith })
          a.cut a.short in
      (
        p',
        return_of proto p' cid rid a.timer n v a.cid_fits
            (omega (
              arith,
              a.short,
              payload_within (mask_for a.can.last (sized pac)) proto.channel_id pac.channel.timer
                  (sized pac) a.cut,
            ))
            a.timed e,
        w,
      )
