-- ===== src/Packet/Receive/Masks.antt =====
-- `rtmp_packet_get_packet` on a packet whose header leaves out what the channel knows.
use rushkit.Base.{
  if-true, if-false, ℕ, zero, suc, ◌+◌, ◌*◌, ◌%◌, ◌^◌, ◌≤◌, ◌<◌, ◌≡◌, refl, sym, ap, ◌∙◌, Bool,
  List, [], ◌∷◌, ◌++◌, none, arith, Bytes, length, lengths, append_assoc, leb, ◌==◌,
}
use rushkit.Base.Outcome.{ok}
use rushkit.Word.{little_endian}
use rushkit.Buffer.ReadBuffer.{ReadBuffer, rtmp_rb_get_space}
use rushkit.Buffer.ReadBuffer.Laws.{advance, reads, length-remaining, rtmp_rb_assert_size_lem}
use rushkit.Session.{Channel, Proto, set, put_channel, rtmp_proto_get_channel, rtmp_packet_reset}
use rushkit.Packet.Wire.{medium, join, flatten, Pieces, header_fields, packet_on}
use rushkit.Packet.Header.{get_r4, read_header, check_size}
use rushkit.Packet.Receive.{rtmp_packet_get_packet}
use rushkit.Packet.Receive.Steps.{get_packet_loop-Rounds, at_header, to_header}
use rushkit.Packet.Receive.Fields.{
  Left, swap_bytes, read_timer_lem, read_source_lem, with_bytes-true, get_r4_new,
}
use rushkit.Packet.Receive.NewPacket.{Keeps, same_channel, from_size}

-- The channel behind a header with this mask, the time `t` and the other fields of `c`.
unfoldable pub channel_read : ℕ → Channel → ℕ → Channel → Channel
channel_read zero old t c = record old {
  timer = t;
  size = c.size;
  data_type = c.data_type;
  stream_id = swap_bytes c.stream_id;
}
channel_read (suc zero) old t c = record old { timer = t; size = c.size; data_type = c.data_type }
channel_read (suc (suc zero)) old t c = record old { timer = t }
channel_read (suc (suc (suc m))) old t c = old

module _ (small : Bool) (p : Proto) (old c : Channel) (b : ReadBuffer) (t : ℕ) (rest : Bytes)
    (known : rtmp_proto_get_channel p ≡ ok old) (ht : t < 2 ^ 24) where
  same_source :
      p.packet_mask ≡ 1
      → Left b (medium t ++ (medium c.size ++ (c.data_type ∷ rest)))
      → c.size < 32 * 1024
      → (b' : ReadBuffer) × (get_r4 small p b
          ≡ ok (none, record (put_channel p (channel_read 1 old t c)) { state = p.state + 1 }, b'))
        × Left b' rest
  unfolding get_r4 read_header check_size channel_read
  same_source mask l hs =
      let (b', e, l') = read_source_lem old b t c.size c.data_type rest l ht (omega arith) in
      let enough : 7 ≤ rtmp_rb_get_space b = omega (lengths, length-remaining l.0, ap length l.1) in
      let there = (rtmp_rb_assert_size_lem b 7 l.0).0 enough in
      (
        b',
        rw known (
            if-false (p.packet_mask == 0) _ _ (ground arith)
            ∙ if-true (p.packet_mask == 1) _ _ (ground arith)
            ∙ with_bytes-true p b 7 _ (ap (λ r. r.0) there)
            ∙ rw e (if-false (leb (32 * 1024) c.size) _ _ (ground arith))),
        l',
      )

  timer_change :
      p.packet_mask ≡ 2
      → Left b (medium t ++ rest)
      → old.size < 32 * 1024
      → (b' : ReadBuffer) × (get_r4 small p b
          ≡ ok (none, record (put_channel p (channel_read 2 old t c)) { state = p.state + 1 }, b'))
        × Left b' rest
  unfolding get_r4 read_header check_size channel_read
  timer_change mask l hs =
      let (b', e, l') = read_timer_lem old b t rest l ht in
      let enough : 3 ≤ rtmp_rb_get_space b = omega (lengths, length-remaining l.0, ap length l.1) in
      let there = (rtmp_rb_assert_size_lem b 3 l.0).0 enough in
      (
        b',
        rw known (
            if-false (p.packet_mask == 0) _ _ (ground arith)
            ∙ if-false (p.packet_mask == 1) _ _ (ground arith)
            ∙ if-true (p.packet_mask == 2) _ _ (ground arith)
            ∙ with_bytes-true p b 3 _ (ap (λ r. r.0) there)
            ∙ rw e (if-false (leb (32 * 1024) old.size) _ _ (ground arith))),
        l',
      )

  nothing_new :
      p.packet_mask ≡ 3
      → old.size < 32 * 1024
      → get_r4 small p b
        ≡ ok (none, record (put_channel p (channel_read 3 old t c)) { state = p.state + 1 }, b)
  unfolding get_r4 read_header check_size channel_read
  nothing_new mask hs = rw known (
      if-false (p.packet_mask == 0) _ _ (ground arith)
      ∙ if-false (p.packet_mask == 1) _ _ (ground arith)
      ∙ if-false (p.packet_mask == 2) _ _ (ground arith)
      ∙ if-false (leb (32 * 1024) old.size) _ _ (ground arith))

module _ (small : Bool) (p : Proto) (old c : Channel) (b : ReadBuffer) (t : ℕ) (rest : Bytes)
    (known : rtmp_proto_get_channel p ≡ ok old) (ht : t < 2 ^ 24) where
  pub get_r4_masked :
      (m : ℕ)
      → m < 4
      → p.packet_mask ≡ m
      → Left b (header_fields m t c ++ rest)
      → c.size < 32 * 1024
      → old.size < 32 * 1024
      → (b' : ReadBuffer) × (get_r4 small p b
          ≡ ok (none, record (put_channel p (channel_read m old t c)) { state = p.state + 1 }, b'))
        × Left b' rest
  unfolding header_fields channel_read little_endian
  get_r4_masked zero lt mask l hs ho =
      get_r4_new small p old b t c.size c.data_type c.stream_id rest mask known l ht hs
  get_r4_masked (suc zero) lt mask l hs ho = same_source small p old c b t rest known ht mask l hs
  get_r4_masked (suc (suc zero)) lt mask l hs ho =
      timer_change small p old c b t rest known ht mask l ho
  get_r4_masked (suc (suc (suc zero))) lt mask l hs ho =
      (b, nothing_new small p old c b t rest known ht mask ho, l)
  get_r4_masked (suc (suc (suc (suc m)))) lt mask l hs ho = absurd (omega arith)

pub channel_read-used :
    (m : ℕ) (old : Channel) (t : ℕ) (c : Channel) → (channel_read m old t c).used ≡ old.used
unfolding channel_read
channel_read-used zero old t c = refl
channel_read-used (suc zero) old t c = refl
channel_read-used (suc (suc zero)) old t c = refl
channel_read-used (suc (suc (suc m))) old t c = refl

module _ (small : Bool) (proto : Proto) (b : ReadBuffer) (m id t : ℕ) (c old : Channel)
    (ps : List Bytes) (last rest : Bytes) where
  -- From state 0, `rtmp_packet_get_packet` takes a packet whose header has a mask from 0 to 3 from the data: the fields
  -- that the mask leaves out are those of the channel, the others are read, the stream's number with its four bytes in the
  -- opposite order, and the packet and the incoming channel both have them. It returns within 7 rounds with the channel's
  -- number and the payload; the handshake's state, the size of the chunks and the events stay as they are, and what
  -- follows the packet is left. The channel's number is from 2 to 63, and it is in use; the time that results
  -- is below 0xffffff, the type is not 0, and the size, below 32 KiB before and after, is that of the payload, which is
  -- not empty and comes in chunks of the size that the connection reads.
  pub rtmp_packet_get_packet-packet_on :
      m < 4
      → proto.state ≡ 0
      → 2 ≤ id
      → id < 64
      → rtmp_proto_get_channel (at_header proto id) ≡ ok old
      → t < 2 ^ 24
      → c.size < 32 * 1024
      → old.size < 32 * 1024
      → (channel_read m old t c).timer < 0xffffff
      → 0 < (channel_read m old t c).data_type
      → (payload : Bytes) → (channel_read m old t c).size ≡ length payload
      → Pieces proto.read_chunk_size payload ps last
      → Left b (packet_on m id t c ps last ++ rest)
      → (p' : Proto) × (b' : ReadBuffer) × (rtmp_packet_get_packet small proto b
          ≡ ok (
            record { channel_id = id; channel = channel_read m old t c; payload = payload },
            p',
            b',
          ))
        × (p'.channels_in ≡ set proto.channels_in id (channel_read m old t c))
        × Keeps proto p'
        × Left b' rest
  unfolding rtmp_packet_get_packet packet_on rtmp_packet_reset
  rtmp_packet_get_packet-packet_on lt zero_state lo hi known ht hs ho timer typed payload size s
        (v, l, n) =
      let x = m * 2 ^ 6 + id in
      let p = at_header proto x in
      let read = channel_read m old t c in
      let whole : flatten ps last ≡ payload = sym s.whole in
      let number : x % 2 ^ 6 ≡ id = omega arith in
      let known' = same_channel (at_header proto id) p old known (omega arith) refl in
      let fields = header_fields m t c in
      let (_, v₁, l₁) = reads v (x ∷ []) _ l 1 refl in
      let l₂ = l₁ ∙ append_assoc fields (join (192 + id) ps last) rest in
      let (b₂, e₄, left) =
        get_r4_masked small p old c (advance b 1) t (join (192 + id) ps last ++ rest) known' ht m lt
          (omega arith) (v₁, l₂, n) hs ho in
      let (p', b', e, same, keeps, l') =
        from_size small p (advance b 1) b₂ (192 + id) read old ps last rest refl (omega arith)
          known' e₄ (channel_read-used m old t c) timer typed
          (record { whole = refl; full = s.full; some_last = s.some_last; last_fits = s.last_fits })
          (size ∙ sym (ap length whole)) left in
      let rounds =
        get_packet_loop-Rounds (to_header small proto b x _ zero_state v l (omega arith)) 3 7
          refl in
      (
        p',
        b',
        rounds
            ∙ e
            ∙ ap
                (λ i.
                  ok (record { channel_id = i; channel = read; payload = flatten ps last }, p', b'))
                number
            ∙ ap (λ r. ok (record { channel_id = id; channel = read; payload = r }, p', b')) whole,
        same ∙ ap (λ i. set proto.channels_in i read) number,
        keeps,
        l',
      )
