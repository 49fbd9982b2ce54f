-- ===== src/Packet/Receive/NewPacket.antt =====
-- `rtmp_packet_get_packet` on a packet that is laid out as new.
use mathlib.Core.Path.{subst}
use rushkit.Base.{
  length-append_bytes, lengths, if-true, ℕ, suc, ◌+◌, ◌*◌, ◌%◌, ◌^◌, ◌≤◌, ◌<◌, ◌≡◌, refl, sym, ap,
  ◌∙◌, Bool, List, [], ◌∷◌, ◌++◌, some, none, arith, Bytes, length, All, ltb, lt→ltb,
}
use rushkit.Base.Outcome.{ok}
use rushkit.Word.{little_endian}
use rushkit.Buffer.ReadBuffer.{ReadBuffer, rtmp_rb_get_space}
use rushkit.Buffer.ReadBuffer.Laws.{advance, reads, length-remaining}
use rushkit.Buffer.FixBuffer.{FixBuffer, rtmp_fwb_get_space, rtmp_fwb_get_value}
use rushkit.Pool.{rt_pool_alloc}
use rushkit.Session.{
  Channel, Packet, Proto, set, put_channel, rtmp_proto_get_channel, rtmp_packet_reset,
}
use rushkit.Packet.Wire.{medium, join, flatten, Pieces, new_packet}
use rushkit.Packet.Header.{get_r4, packet_size}
use rushkit.Packet.Receive.{
  reset_data_buffer, get_r5, count_header_bytes, take_packet, finish, get_r6, step, get_packet_loop,
  rtmp_packet_get_packet,
}
use rushkit.Packet.Receive.Steps.{loop_round, get_packet_loop-Rounds, at_header, to_header}
use rushkit.Packet.Receive.Fields.{Left, swap_bytes, get_channel_put, get_r4_new, reset_step}
use rushkit.Packet.Receive.Chunks.{filled, length-flatten, read_pieces}

-- A packet does not change how far the handshake is, the size of the chunks, and what the host was told.
abbrev pub Keeps : Proto → Proto → Type 0
Keeps p p' =
    (p'.pkg_st ≡ p.pkg_st) × (p'.read_chunk_size ≡ p.read_chunk_size) × (p'.events ≡ p.events)

-- Only the number and the incoming channels matter.
pub same_channel :
    (p q : Proto) (c : Channel)
    → rtmp_proto_get_channel p ≡ ok c
    → q.channel_id ≡ p.channel_id
    → q.channels_in ≡ p.channels_in
    → rtmp_proto_get_channel q ≡ ok c
unfolding rtmp_proto_get_channel
same_channel p q c e hi hs = rw (hi, hs) e

-- The packet that the last step hands out.
abbrev pub received : Proto → Channel → Bytes → Packet
received p c payload = record { channel_id = p.channel_id; channel = c; payload = payload }

finish_lem :
    (p : Proto) (c : Channel) (fwb : FixBuffer) (b : ReadBuffer)
    → rtmp_proto_get_channel p ≡ ok c
    → (p' : Proto) × (finish p (fwb, b) ≡ ok (some (received p c fwb.stored), p', b))
      × (p'.channels_in ≡ p.channels_in)
      × Keeps p p'
unfolding finish take_packet rtmp_fwb_get_value
finish_lem p c fwb b known =
    let p' = record p { data_buffer = fwb; pool = (rt_pool_alloc p.pool packet_size).1 } in
    (p', rw (same_channel p p' c known refl refl) refl, refl, (refl, refl, refl))

get_r6_pieces :
    (p : Proto) (c : Channel) (b : ReadBuffer) (ps : List Bytes) (last rest : Bytes)
    → p.channel_id < 64
    → rtmp_proto_get_channel p ≡ ok c
    → 0 < c.data_type
    → p.data_buffer.stored ≡ []
    → p.data_buffer.capacity ≡ length (flatten ps last)
    → All (λ q. length q ≡ p.read_chunk_size) ps
    → 0 < length last
    → length last ≤ p.read_chunk_size
    → (hd : ℕ) → Left b (join hd ps last ++ rest)
    → (p' : Proto) × (b' : ReadBuffer) × (get_r6 p b
        ≡ ok (some (received p c (flatten ps last)), p', b'))
      × (p'.channels_in ≡ p.channels_in)
      × Keeps p p'
      × Left b' rest
unfolding get_r6
get_r6_pieces p c b ps last rest hi known typed empty size full some_last fits hd l =
    let fwb = p.data_buffer in
    let none_yet : length fwb.stored ≡ 0 = ap length empty in
    let space : rtmp_fwb_get_space fwb ≡ length (flatten ps last) =
      unfold rtmp_fwb_get_space in omega arith in
    let (b', e, l') =
      read_pieces p.read_chunk_size hd ps last rest fwb b (suc (rtmp_rb_get_space b)) full some_last
        fits (omega arith)
        (omega (
          lengths,
          length-flatten hd ps last,
          length-append_bytes (join hd ps last) rest,
          length-remaining l.0,
          ap length l.1,
        ))
        l in
    let (p', f, same, keeps) = finish_lem p c (filled fwb (flatten ps last)) b' known in
    let one : count_header_bytes p.channel_id ≡ 0 = unfold count_header_bytes in ground arith in
    let first : fwb.stored ++ flatten ps last ≡ flatten ps last =
      ap (λ t. t ++ flatten ps last) empty in
    (
      p',
      b',
      rw (known, one)
          (if-true (ltb 0 c.data_type) _ _ (lt→ltb 0 c.data_type typed)
            ∙ (rw e f ∙ ap (λ t. ok (some (received p c t), p', b')) first)),
      same,
      keeps,
      l',
    )

loop_packet :
    (small : Bool) (p p' : Proto) (b b' : ReadBuffer) (pac : Packet) (fuel : ℕ)
    → step small p b ≡ ok (some pac, p', b')
    → get_packet_loop (suc fuel) small p b ≡ ok (pac, p', b')
unfolding get_packet_loop
loop_packet small p p' b b' pac fuel e = rw e refl

-- The step of each of the last three states.
step_four :
    (small : Bool) (p : Proto) (b : ReadBuffer) → p.state ≡ 4 → step small p b ≡ get_r4 small p b
unfolding step
step_four small p b h =
    subst (λ n. step small (record p { state = n }) b ≡ get_r4 small (record p { state = n }) b)
      (sym h) refl

step_five :
    (small : Bool) (p : Proto) (b : ReadBuffer) → p.state ≡ 5 → step small p b ≡ get_r5 small p b
unfolding step
step_five small p b h =
    subst (λ n. step small (record p { state = n }) b ≡ get_r5 small (record p { state = n }) b)
      (sym h) refl

step_six : (small : Bool) (p : Proto) (b : ReadBuffer) → p.state ≡ 6 → step small p b ≡ get_r6 p b
unfolding step
step_six small p b h =
    subst (λ n. step small (record p { state = n }) b ≡ get_r6 (record p { state = n }) b) (sym h)
      refl

-- The last three rounds, behind a header that has left the channel as `c`.
pub from_size :
    (small : Bool) (p : Proto) (b₁ b₂ : ReadBuffer) (hd : ℕ) (c old : Channel) (ps : List Bytes)
    (last rest : Bytes)
    → p.state ≡ 4
    → p.channel_id < 64
    → rtmp_proto_get_channel p ≡ ok old
    → get_r4 small p b₁ ≡ ok (none, record (put_channel p c) { state = p.state + 1 }, b₂)
    → c.used ≡ old.used
    → c.timer < 0xffffff
    → 0 < c.data_type
    → Pieces p.read_chunk_size (flatten ps last) ps last
    → c.size ≡ length (flatten ps last)
    → Left b₂ (join hd ps last ++ rest)
    → (p' : Proto) × (b' : ReadBuffer) × (get_packet_loop 3 small p b₁
        ≡ ok (received p c (flatten ps last), p', b'))
      × (p'.channels_in ≡ set p.channels_in p.channel_id c)
      × Keeps p p'
      × Left b' rest
unfolding reset_data_buffer
from_size small p b₁ b₂ hd c old ps last rest four hi known e₄ used ht typed s size l₂ =
    let p₅ = record (put_channel p c) { state = p.state + 1 } in
    let known₅ = get_channel_put p p₅ old c known used refl refl in
    let e₅ = reset_step small p₅ c b₂ known₅ (omega arith) in
    let p₆ = record (reset_data_buffer p₅ c.size) { state = p₅.state + 1 } in
    let known₆ = same_channel p₅ p₆ c known₅ refl refl in
    let (p', b', e₆, same, keeps, l') =
      get_r6_pieces p₆ c b₂ ps last rest hi known₆ typed refl size s.full s.some_last s.last_fits hd
        l₂ in
    (
      p',
      b',
      loop_round small p p₅ b₁ b₂ 2 (step_four small p b₁ four ∙ e₄)
          ∙ (loop_round small p₅ p₆ b₂ b₂ 1 (step_five small p₅ b₂ (omega arith) ∙ e₅)
              ∙ loop_packet small p₆ p' b₂ b' _ 0 (step_six small p₆ b₂ (omega arith) ∙ e₆)),
      same,
      keeps,
      l',
    )

module _ (small : Bool) (proto : Proto) (b : ReadBuffer) (id : ℕ) (c old : Channel)
    (ps : List Bytes) (last rest : Bytes) where
  abbrev pub as_read : Channel
  as_read = record old {
    timer = c.timer;
    size = c.size;
    data_type = c.data_type;
    stream_id = swap_bytes c.stream_id;
  }

  -- The last three rounds.
  from_header :
      (p : Proto) (b₁ : ReadBuffer)
      → p.state ≡ 4
      → p.packet_mask ≡ 0
      → p.channel_id < 64
      → rtmp_proto_get_channel p ≡ ok old
      → c.timer < 0xffffff
      → 0 < c.data_type
      → c.size < 32 * 1024
      → Pieces p.read_chunk_size (flatten ps last) ps last
      → c.size ≡ length (flatten ps last)
      → Left b₁ (
          medium c.timer
          ++ (medium c.size
              ++ (c.data_type
                  ∷ (little_endian 4 c.stream_id ++ (join (192 + id) ps last ++ rest)))))
      → (p' : Proto) × (b' : ReadBuffer) × (get_packet_loop 3 small p b₁
          ≡ ok (received p as_read (flatten ps last), p', b'))
        × (p'.channels_in ≡ set p.channels_in p.channel_id as_read)
        × Keeps p p'
        × Left b' rest
  from_header p b₁ four mask hi known ht typed hs s size l =
      let (b₂, e₄, l₂) =
        get_r4_new small p old b₁ c.timer c.size c.data_type c.stream_id _ mask known l
          (omega arith) hs in
      from_size small p b₁ b₂ (192 + id) as_read old ps last rest four hi known e₄ refl ht typed s
        size l₂

  -- From state 0, `rtmp_packet_get_packet` takes a packet that is laid out as new from the data, in
  -- whatever chunks its payload comes: it returns within 7 rounds, with the channel's number, the
  -- payload, and the time, size and type of the header; the stream's number has its four bytes in the
  -- opposite order. The incoming channel keeps the same fields, the handshake's state, the
  -- size of the chunks and the events stay as they are, and what follows the packet is left.
  -- The packet's number is from 2 to 63, its channel is in use, its time is below 0xffffff, its type
  -- is not 0, the header's size is that of the payload, which has from 1 to 32767 bytes and comes in
  -- chunks of the size that the
  -- connection reads.
  pub rtmp_packet_get_packet-new_packet :
      proto.state ≡ 0
      → 2 ≤ id
      → id < 64
      → rtmp_proto_get_channel (at_header proto id) ≡ ok old
      → c.timer < 0xffffff
      → 0 < c.data_type
      → c.size < 32 * 1024
      → (payload : Bytes) → c.size ≡ length payload
      → Pieces proto.read_chunk_size payload ps last
      → Left b (new_packet id c ps last ++ rest)
      → (p' : Proto) × (b' : ReadBuffer) × (rtmp_packet_get_packet small proto b
          ≡ ok (record { channel_id = id; channel = as_read; payload = payload }, p', b'))
        × (p'.channels_in ≡ set proto.channels_in id as_read)
        × Keeps proto p'
        × Left b' rest
  unfolding rtmp_packet_get_packet new_packet rtmp_packet_reset little_endian
  rtmp_packet_get_packet-new_packet zero_state lo hi known ht typed hs payload size s (v, l, n) =
      let p = at_header proto id in
      let whole : flatten ps last ≡ payload = sym s.whole in
      let number : id % 2 ^ 6 ≡ id = omega arith in
      let (_, v₁, l₁) = reads v (id ∷ []) _ l 1 refl in
      let (p', b', e, same, keeps, l') =
        from_header p (advance b 1) refl (omega arith) (omega arith) known ht typed hs
          (record { whole = refl; full = s.full; some_last = s.some_last; last_fits = s.last_fits })
          (size ∙ sym (ap length whole)) (v₁, l₁, n) in
      let rounds =
        get_packet_loop-Rounds (to_header small proto b id _ zero_state v l (omega arith)) 3 7
          refl in
      (
        p',
        b',
        rounds
            ∙ (e
                ∙ (ap
                      (λ n. ok (
                        record { channel_id = n; channel = as_read; payload = flatten ps last },
                        p',
                        b',
                      ))
                      number
                    ∙ ap
                        (λ t.
                          ok (record { channel_id = id; channel = as_read; payload = t }, p', b'))
                        whole)),
        same ∙ ap (λ n. set proto.channels_in n as_read) number,
        keeps,
        l',
      )
