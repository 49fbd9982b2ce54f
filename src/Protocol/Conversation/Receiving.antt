-- ===== src/Protocol/Conversation/Receiving.antt =====
-- What a host hears that is fed several packets with shortened headers at once.
use mathlib.Core.List.{map}
use mathlib.Core.Path.{subst}
use rushkit.Base.{
  ℕ, zero, suc, ◌+◌, ◌*◌, ◌%◌, ◌^◌, ◌<◌, ◌≤◌, ◌≡◌, refl, sym, ap, ◌∙◌, Bool, false, List, [], ◌∷◌,
  ◌++◌, append_assoc, append-nil, arith, Bytes, length, lengths, length-append, take-append_length,
  ltb,
}
use rushkit.Base.Outcome.{ok}
use rushkit.Pool.{rt_pool_reset}
use rushkit.Buffer.ReadBuffer.{ReadBuffer, rtmp_rb_init}
use rushkit.Buffer.ReadBuffer.Laws.{remaining, rtmp_rb_init_lem, length-remaining}
use rushkit.Session.{Channel, Proto, wrote, set, rtmp_packet_reset, rtmp_proto_get_channel}
use rushkit.Packet.Wire.{Pieces, packet_on}
use rushkit.Packet.Send.{mask_for}
use rushkit.Packet.Send.NewPacket.{sized}
use rushkit.Packet.Send.Masks.{mask_for_bounded}
use rushkit.Packet.Receive.Steps.{at_header}
use rushkit.Packet.Receive.Fields.{Left, get_channel_put}
use rushkit.Packet.Receive.NewPacket.{same_channel}
use rushkit.Packet.Receive.Masks.{channel_read, channel_read-used, rtmp_packet_get_packet-packet_on}
use rushkit.Packet.InStep.{InStep, mask_for-Covers, channel_read-renewed}
use rushkit.Protocol.{MethodTable}
use rushkit.Protocol.Feed.{hand_out, feed_packet, feed_loop, rtmp_proto_feed}
use rushkit.Protocol.Greeting.{loop_step, loop_end}
use rushkit.Protocol.InOrder.{noting, ready_round}
use rushkit.Protocol.Conversation.{Cut, after, IsNext, Follow, stream_on}

-- A connection after the handshake and between packets, whose channel `id` is `old`.
pub record Hears (chunk id : ℕ) (old : Channel) (p : Proto) : Type 0 where
  pub shaken : p.pkg_st ≡ 3
  pub between : p.state ≡ 0
  pub chunks : p.read_chunk_size ≡ chunk
  pub known : rtmp_proto_get_channel (at_header p id) ≡ ok old

module _ (small : Bool) (table : MethodTable) (now : ℕ) (to_double from_double : ℕ → ℕ)
    (alloc : ℕ → Bytes) (chunk cid id : ℕ) (lo : 2 ≤ id) (hi : id < 64) where
  heard :
      (p : Proto) (b : ReadBuffer) (last old : Channel) (i : Cut) (rest : Bytes)
      → Hears chunk id old p
      → InStep last old
      → last.size < 32 * 1024
      → IsNext chunk cid last i
      → Left b (
          packet_on
            (mask_for last (sized i.packet))
            id
            i.packet.channel.timer
            (sized i.packet)
            i.pieces
            i.end
          ++ rest)
      → (p' : Proto) × (b' : ReadBuffer) × (old' : Channel) × (feed_packet small
            (noting table)
            now
            to_double
            from_double
            alloc
            p
            b
          ≡ ok (p', b'))
        × Hears chunk id old' p'
        × InStep (after last i) old'
        × (p'.events ≡ p.events ++ (wrote i.packet.payload ∷ []))
        × Left b' rest
  unfolding feed_packet hand_out rtmp_packet_reset
  heard p b last old i rest r step small_before s l =
      let c = sized i.packet in
      let m = mask_for last c in
      let read = channel_read-renewed last old c m step (mask_for-Covers last c s.stream) in
      let fits : Pieces p.read_chunk_size i.packet.payload i.pieces i.end = rw r.chunks s.cut in
      let (p₁, b', e, same, keeps, l') =
        rtmp_packet_get_packet-packet_on small p b m id c.timer c old i.pieces i.end rest
          (mask_for_bounded last c) r.between lo hi r.known (omega (arith, s.timer_fits))
          s.size_fits (omega (arith, step.same_size, small_before))
          (subst (λ d. d.timer < 0xffffff) (sym read) s.timer_fits)
          (subst (λ d. 0 < d.data_type) (sym read) s.typed) i.packet.payload (ap (λ d. d.size) read)
          fits l in
      let d = channel_read m old c.timer c in
      let p₂ = record p₁ { events = p₁.events ++ (wrote i.packet.payload ∷ []) } in
      let p' = record (rtmp_packet_reset p₂) { pool = rt_pool_reset p₂.pool } in
      (
        p',
        b',
        d,
        rw e refl,
        record {
          shaken = keeps.0 ∙ r.shaken;
          between = refl;
          chunks = keeps.1 ∙ r.chunks;
          known =
              get_channel_put (at_header p id) (at_header p' id) old d r.known
                (channel_read-used m old c.timer c) refl
                (same ∙ ap (λ n. set p.channels_in n d) number);
        },
        subst (λ x. InStep (after last i) x) (sym read)
            (record { same_timer = refl; same_size = refl; same_type = refl; same_stream = refl }),
        ap (λ es. es ++ (wrote i.packet.payload ∷ [])) keeps.2,
        l',
      )
    where
      number : id ≡ id % 2 ^ 6
      number = omega arith

  all_heard :
      (is : List Cut) (fuel : ℕ) (p : Proto) (b : ReadBuffer) (last old : Channel)
      → Hears chunk id old p
      → InStep last old
      → last.size < 32 * 1024
      → Follow chunk cid last is
      → length (stream_on id last is) ≤ fuel
      → Left b (stream_on id last is)
      → (p' : Proto) × (b' : ReadBuffer) × (feed_loop small
            (noting table)
            now
            to_double
            from_double
            alloc
            fuel
            p
            b
          ≡ ok (p', b'))
        × (p'.events ≡ p.events ++ map (λ i. wrote i.packet.payload) is)
        × Left b' []
  unfolding Follow stream_on packet_on
  all_heard [] fuel p b last old r step small_before f h l = (
    p,
    b,
    loop_end small (noting table) now to_double from_double alloc fuel p b
        (omega (arith, length-remaining l.0, ap length l.1)),
    sym (append-nil p.events),
    l,
  )
  all_heard (i ∷ is) zero p b last old r step small_before f h l = absurd (omega arith)
  all_heard (i ∷ is) (suc fuel) p b last old r step small_before (n, f) h l =
      let tail = stream_on id (after last i) is in
      let (p₁, b₁, old₁, e, r₁, step₁, told, l₁) =
        heard p b last old i tail r step small_before n l in
      let (p', b', e', told', l') =
        all_heard is fuel p₁ b₁ (after last i) old₁ r₁ step₁ n.size_fits f
          (omega (
            lengths,
            length-append {0}
                (packet_on (mask_for last (sized i.packet)) id i.packet.channel.timer
                  (sized i.packet) i.pieces i.end)
                tail,
          ))
          l₁ in
      (
        p',
        b',
        loop_step small (noting table) now to_double from_double alloc fuel p p₁ b b₁
              (omega (arith, length-remaining l.0, ap length l.1)) l.2
              (ready_round small table now to_double from_double alloc chunk id lo hi p b r.shaken
                ∙ e)
            ∙ e',
        told'
            ∙ (ap (λ es. es ++ map (λ j. wrote j.packet.payload) is) told
                ∙ append_assoc p.events (wrote i.packet.payload ∷ [])
                    (map (λ j. wrote j.packet.payload) is)),
        l',
      )

  pub fed_all :
      (is : List Cut) (p : Proto) (last old : Channel) (memory : Bytes)
      → Hears chunk id old p
      → InStep last old
      → last.size < 32 * 1024
      → Follow chunk cid last is
      → (p' : Proto) × (rtmp_proto_feed small
            (noting table)
            now
            to_double
            from_double
            alloc
            (record p { read_buffer = stream_on id last is ++ memory })
            (length (stream_on id last is))
          ≡ ok p')
        × (p'.events ≡ p.events ++ map (λ i. wrote i.packet.payload) is)
  unfolding rtmp_proto_feed rtmp_packet_reset
  fed_all is p last old memory r step small_before f =
      let bytes = stream_on id last is in
      let n = length bytes in
      let q = record p {
        read_buffer = bytes ++ memory;
        num_up_bytes = (p.num_up_bytes + n) % 2 ^ 32;
      } in
      let (v, left) = rtmp_rb_init_lem (bytes ++ memory) n (omega lengths) in
      let whole : remaining (rtmp_rb_init (bytes ++ memory) n) ≡ bytes =
        left ∙ take-append_length bytes memory in
      let quiet : (rtmp_rb_init (bytes ++ memory) n).need_more ≡ 0 = unfold rtmp_rb_init in refl in
      let (p', b', run, told, l') =
        all_heard is n q (rtmp_rb_init (bytes ++ memory) n) last old
          (record {
            shaken = r.shaken;
            between = r.between;
            chunks = r.chunks;
            known = same_channel (at_header p id) (at_header q id) old r.known refl refl;
          })
          step small_before f (omega arith) (v, whole, quiet) in
      let none_missing : ltb 0 b'.need_more ≡ false = ground (arith, l'.2) in
      (p', rw run (rw none_missing refl), told)
