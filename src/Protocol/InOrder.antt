-- ===== src/Protocol/InOrder.antt =====
-- Packets that are fed at once: the host gets each of them, in their order.
use mathlib.Core.List.{map}
use rushkit.Base.{
  ℕ, zero, suc, ◌+◌, ◌*◌, ◌%◌, ◌^◌, ◌≤◌, ◌<◌, ◌≡◌, refl, sym, ap, ◌∙◌, Bool, false, List, [], ◌∷◌,
  ◌++◌, append_assoc, append-nil, some, All, arith, Bytes, length, length-append, lengths, take,
  take-append_length, ltb,
}
use rushkit.Base.Outcome.{ok}
use rushkit.Pool.{rt_pool_reset}
use rushkit.Buffer.ReadBuffer.{ReadBuffer, rtmp_rb_init}
use rushkit.Buffer.ReadBuffer.Laws.{remaining, rtmp_rb_init_lem, length-remaining}
use rushkit.Session.{Channel, Proto, wrote, set, rtmp_packet_reset, rtmp_proto_get_channel}
use rushkit.Packet.Wire.{flatten, Pieces, new_packet}
use rushkit.Packet.Receive.Steps.{at_header}
use rushkit.Packet.Receive.Fields.{Left, get_channel_put}
use rushkit.Packet.Receive.NewPacket.{same_channel, as_read, rtmp_packet_get_packet-new_packet}
use rushkit.Protocol.{MethodTable, given}
use rushkit.Protocol.Feed.{hand_out, feed_packet, feed_round, feed_loop, rtmp_proto_feed}
use rushkit.Protocol.Greeting.{loop_step, loop_end}

-- A host that notes the payload of each packet.
abbrev pub noting : MethodTable → MethodTable
noting table = record table {
  on_packet =
      some (given (λ p pac. ok (record p { events = p.events ++ (wrote pac.payload ∷ []) })));
}

-- A packet, with its payload in pieces.
pub record Framed : Type 0 where
  pub channel : Channel
  pub pieces : List Bytes
  pub last : Bytes

abbrev pub payload_of : Framed → Bytes
payload_of i = flatten i.pieces i.last

-- Packets as they follow one another.
unfoldable pub stream_of : ℕ → List Framed → Bytes
stream_of id [] = []
stream_of id (i ∷ is) = new_packet id i.channel i.pieces i.last ++ stream_of id is

-- What a packet has to be to be read in chunks of this size.
pub record IsReadable (chunk : ℕ) (i : Framed) : Type 0 where
  pub timer_fits : i.channel.timer < 0xffffff
  pub typed : 0 < i.channel.data_type
  pub size_fits : i.channel.size < 32 * 1024
  pub size_right : i.channel.size ≡ length (payload_of i)
  pub pieces_right : Pieces chunk (payload_of i) i.pieces i.last

-- A connection after the handshake and between packets, whose channel `id` is in use.
pub record IsReady (chunk id : ℕ) (p : Proto) : Type 0 where
  pub shaken : p.pkg_st ≡ 3
  pub between : p.state ≡ 0
  pub chunks : p.read_chunk_size ≡ chunk
  pub old : Channel
  pub known : rtmp_proto_get_channel (at_header p id) ≡ ok old

module _ (small : Bool) (table : MethodTable) (now : ℕ) (to_double from_double : ℕ → ℕ)
    (alloc : ℕ → Bytes) (chunk id : ℕ) (lo : 2 ≤ id) (hi : id < 64) where
  packet_handed_out :
      (p : Proto) (b : ReadBuffer) (i : Framed) (rest : Bytes)
      → IsReady chunk id p
      → IsReadable chunk i
      → Left b (new_packet id i.channel i.pieces i.last ++ rest)
      → (p' : Proto) × (b' : ReadBuffer) × (feed_packet small
            (noting table)
            now
            to_double
            from_double
            alloc
            p
            b
          ≡ ok (p', b'))
        × IsReady chunk id p'
        × (p'.events ≡ p.events ++ (wrote (payload_of i) ∷ []))
        × Left b' rest
  unfolding feed_packet hand_out rtmp_packet_reset
  packet_handed_out p b i rest r s l =
      let fits : Pieces p.read_chunk_size (payload_of i) i.pieces i.last =
        rw r.chunks s.pieces_right in
      let (p₁, b', e, same, keeps, l') =
        rtmp_packet_get_packet-new_packet small p b id i.channel r.old i.pieces i.last rest
          r.between lo hi r.known s.timer_fits s.typed s.size_fits (payload_of i) s.size_right fits
          l in
      let c = as_read small p b id i.channel r.old i.pieces i.last rest in
      let p₂ = record p₁ { events = p₁.events ++ (wrote (payload_of i) ∷ []) } in
      let p' = record (rtmp_packet_reset p₂) { pool = rt_pool_reset p₂.pool } in
      let number : id ≡ id % 2 ^ 6 = omega arith in
      (
        p',
        b',
        rw e refl,
        record {
          shaken = keeps.0 ∙ r.shaken;
          between = refl;
          chunks = keeps.1 ∙ r.chunks;
          old = c;
          known =
              get_channel_put (at_header p id) (at_header p' id) r.old c r.known refl refl
                (same ∙ ap (λ n. set p.channels_in n c) number);
        },
        ap (λ es. es ++ (wrote (payload_of i) ∷ [])) keeps.2,
        l',
      )

  pub ready_round :
      (p : Proto) (b : ReadBuffer)
      → p.pkg_st ≡ 3
      → feed_round small (noting table) now to_double from_double alloc p b
        ≡ feed_packet small (noting table) now to_double from_double alloc p b
  unfolding feed_round
  ready_round p b h = rw h refl

  IsReady-counted :
      (p : Proto) (n : ℕ) → IsReady chunk id p → IsReady chunk id (record p { num_up_bytes = n })
  unfolding rtmp_packet_reset
  IsReady-counted p n r =
      let q = record p { num_up_bytes = n } in
      record {
        shaken = r.shaken;
        between = r.between;
        chunks = r.chunks;
        old = r.old;
        known = same_channel (at_header p id) (at_header q id) r.old r.known refl refl;
      }

  feed_them :
      (is : List Framed) (fuel : ℕ) (p : Proto) (b : ReadBuffer)
      → IsReady chunk id p
      → All (IsReadable chunk) is
      → length (stream_of id is) ≤ fuel
      → Left b (stream_of id is)
      → (p' : Proto) × (b' : ReadBuffer) × (feed_loop small
            (noting table)
            now
            to_double
            from_double
            alloc
            fuel
            p
            b
          ≡ ok (p', b'))
        × IsReady chunk id p'
        × (p'.events ≡ p.events ++ map (λ i. wrote (payload_of i)) is)
        × Left b' []
  unfolding stream_of new_packet
  feed_them [] fuel p b r s h l = (
    p,
    b,
    loop_end small (noting table) now to_double from_double alloc fuel p b
        (omega (arith, length-remaining l.0, ap length l.1)),
    r,
    sym (append-nil p.events),
    l,
  )
  feed_them (i ∷ is) zero p b r s h l = absurd (omega arith)
  feed_them (i ∷ is) (suc fuel) p b r (si, s) h l =
      let (p₁, b₁, e, r₁, told, l₁) = packet_handed_out p b i (stream_of id is) r si l in
      let (p', b', e', r', told', l') =
        feed_them is fuel p₁ b₁ r₁ s
          (omega (
            lengths,
            length-append {0} (new_packet id i.channel i.pieces i.last) (stream_of id is),
          ))
          l₁ in
      (
        p',
        b',
        loop_step small (noting table) now to_double from_double alloc fuel p p₁ b b₁
              (omega (arith, length-remaining l.0, ap length l.1)) l.2
              (ready_round p b r.shaken ∙ e)
            ∙ e',
        r',
        told'
            ∙ (ap (λ es. es ++ map (λ j. wrote (payload_of j)) is) told
                ∙ append_assoc p.events (wrote (payload_of i) ∷ [])
                    (map (λ j. wrote (payload_of j)) is)),
        l',
      )

  -- A connection after the handshake that is fed any number of packets at once returns, has handed
  -- each of them to its host, in their order and each with its payload, and is ready for more. The
  -- packets are laid out as new on a channel from 2 to 63 that is in use; each has a time below
  -- 0xffffff, a type other than 0, and from 1 to 32767 bytes, as its header says, in chunks of the size that the connection
  -- reads; the host notes the payloads that it gets.
  pub rtmp_proto_feed-stream_of :
      (proto : Proto) (is : List Framed) (memory : Bytes)
      → IsReady chunk id proto
      → All (IsReadable chunk) is
      → proto.read_buffer ≡ stream_of id is ++ memory
      → (p' : Proto) × (rtmp_proto_feed small
            (noting table)
            now
            to_double
            from_double
            alloc
            proto
            (length (stream_of id is))
          ≡ ok p')
        × (p'.events ≡ proto.events ++ map (λ i. wrote (payload_of i)) is)
        × IsReady chunk id p'
  unfolding rtmp_proto_feed
  rtmp_proto_feed-stream_of proto is memory r s e =
      let n = length (stream_of id is) in
      let p = record proto { num_up_bytes = (proto.num_up_bytes + n) % 2 ^ 32 } in
      let (v, left) = rtmp_rb_init_lem p.read_buffer n (omega (lengths, ap length e)) in
      let whole : remaining (rtmp_rb_init p.read_buffer n) ≡ stream_of id is =
        left ∙ (ap (take n) e ∙ take-append_length (stream_of id is) memory) in
      let quiet : (rtmp_rb_init p.read_buffer n).need_more ≡ 0 = unfold rtmp_rb_init in refl in
      let (p', b', run, r', told, l') =
        feed_them is n p (rtmp_rb_init p.read_buffer n) (IsReady-counted proto _ r) s (omega arith)
          (v, whole, quiet) in
      let none_missing : ltb 0 b'.need_more ≡ false = ground (arith, l'.2) in
      (p', rw run (rw none_missing refl), told, r')
