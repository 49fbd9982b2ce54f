-- ===== src/Protocol/Opening.antt =====
-- A connection from `rtmp_proto_init` over the handshake to its first packets.
use mathlib.Core.List.{map}
use rushkit.Base.{
  ℕ, ◌+◌, ◌%◌, ◌^◌, ◌≤◌, ◌<◌, ◌≡◌, refl, sym, ap, ◌∙◌, Bool, true, List, [], ◌∷◌, ◌++◌, some, All,
  arith, Bytes, length,
}
use rushkit.Base.Outcome.{ok}
use rushkit.Pool.Blocks
use rushkit.Session.{
  int_lt, Proto, wrote, at, replicate, init_channel, rtmp_packet_reset, rtmp_proto_get_channel,
  get_elem?,
}
use rushkit.Packet.Receive.Steps.{at_header}
use rushkit.Protocol.{MethodTable, ack}
use rushkit.Protocol.Feed.{rtmp_proto_feed}
use rushkit.Protocol.Lifetime.{IsInitial, rtmp_proto_init, rtmp_proto_init-IsInitial}
use rushkit.Protocol.Handshake.{recording}
use rushkit.Protocol.Greeting.{at_start, rtmp_proto_feed-handshake}
use rushkit.Protocol.InOrder.{
  noting, Framed, payload_of, stream_of, IsReadable, IsReady, rtmp_proto_feed-stream_of,
}

-- A connection whose read buffer has been filled.
abbrev pub filled_with : Proto → Bytes → Proto
filled_with p memory = record p { read_buffer = memory }

IsInitial-at_start :
    (before p : Proto) (memory : Bytes)
    → IsInitial before p
    → at_start p memory ≡ filled_with p memory
IsInitial-at_start before p memory i = rw (i.before_connect, i.no_shake, i.to_skip) refl

found_channel :
    (q : Proto) (id : ℕ)
    → q.channel_id ≡ id
    → id < 4
    → get_elem? q.channels_in id ≡ some init_channel
    → rtmp_proto_get_channel q ≡ ok init_channel
unfolding rtmp_proto_get_channel init_channel
found_channel q id number lt e =
    let in_range : int_lt id 64 ≡ true = ground arith in rw (number, in_range, at, e) refl

used_channel :
    (q : Proto) (id : ℕ)
    → id < 4
    → get_elem? q.channels_in id ≡ some init_channel
    → rtmp_proto_get_channel (at_header q id) ≡ ok init_channel
unfolding rtmp_packet_reset
used_channel q id lt e = found_channel (at_header q id) id (omega arith) lt e

IsInitial-IsReady :
    (before p q : Proto) (id : ℕ)
    → IsInitial before p
    → id < 4
    → q.pkg_st ≡ 3
    → q.state ≡ p.state
    → q.read_chunk_size ≡ p.read_chunk_size
    → q.channels_in ≡ p.channels_in
    → IsReady 128 id q
IsInitial-IsReady before p q id i lt st state chunk channels = record {
  shaken = st;
  between = state ∙ i.between;
  chunks = chunk ∙ i.read_chunk;
  old = init_channel;
  known = used_channel q id lt (rw channels (i.used_in id lt));
}

-- A connection in its first moments: after `rtmp_proto_init`, whatever the memory holds, it can be fed a
-- whole handshake and then any number of packets on the channel 2 or 3, each in one call. It writes its
-- own block and the client's first one, and then its host gets each packet, in their order and each with
-- its payload. Behind the handshake it has counted 3073 bytes both ways, its pool is valid, no request
-- has been numbered and no channel has been timed. Each packet is laid out as new and readable in
-- chunks of 128 bytes; the host notes what it is to write and the payloads that it gets.
pub rtmp_proto_feed-rtmp_proto_init :
    (small : Bool) (table : MethodTable) (now : ℕ) (to_double from_double : ℕ → ℕ)
    (alloc : ℕ → Bytes) (proto : Proto) (block block' memory memory' : Bytes) (id : ℕ)
    (packets : List Framed)
    → length block ≡ 1536
    → length block' ≡ 1536
    → 2 ≤ id
    → id < 4
    → All (IsReadable 128) packets
    → (p p₁ p₂ : Proto) × (rtmp_proto_init alloc proto ≡ ok p)
      × (rtmp_proto_feed small
            (recording (noting table))
            now
            to_double
            from_double
            alloc
            (filled_with p (3 ∷ (block ++ (block' ++ memory))))
            3073
          ≡ ok p₁)
      × (rtmp_proto_feed small
            (recording (noting table))
            now
            to_double
            from_double
            alloc
            (filled_with p₁ (stream_of id packets ++ memory'))
            (length (stream_of id packets))
          ≡ ok p₂)
      × (p₂.events
          ≡ ((proto.events ++ (wrote (ack small) ∷ [])) ++ (wrote block ∷ []))
            ++ map (λ i. wrote (payload_of i)) packets)
      × (p₁.num_up_bytes ≡ 3073)
      × (p₁.num_down_bytes ≡ 3073)
      × (p₁.next_request_id ≡ 1)
      × (p₁.last_timers ≡ replicate 64 0)
      × Blocks.IsValid p₁.pool
rtmp_proto_feed-rtmp_proto_init small table now to_double from_double alloc proto block block'
      memory memory' id packets h h' lo hi readable =
    let (p, made, i) = rtmp_proto_init-IsInitial alloc proto in
    let input = 3 ∷ (block ++ (block' ++ memory)) in
    let shaken =
      rtmp_proto_feed-handshake small (noting table) now to_double from_double alloc p block block'
        memory h h' in
    let p₁ = record (at_start p input) {
      pkg_st = 3;
      num_up_bytes = (p.num_up_bytes + 3073) % 2 ^ 32;
      num_down_bytes = (p.num_down_bytes + 3073) % 2 ^ 32;
      events = (p.events ++ (wrote (ack small) ∷ [])) ++ (wrote block ∷ []);
    } in
    let (p₂, fed, told, _) =
      rtmp_proto_feed-stream_of small (recording table) now to_double from_double alloc 128 id lo
        (omega (arith, hi)) (filled_with p₁ (stream_of id packets ++ memory')) packets memory'
        (IsInitial-IsReady proto p (filled_with p₁ (stream_of id packets ++ memory')) id i hi refl
          refl refl refl)
        readable refl in
    (
      p,
      p₁,
      p₂,
      made,
      ap
            (λ q.
              rtmp_proto_feed small (recording (noting table)) now to_double from_double alloc q
                3073)
            (sym (IsInitial-at_start proto p input i))
          ∙ shaken,
      fed,
      told
          ∙ ap
              (λ es.
                ((es ++ (wrote (ack small) ∷ [])) ++ (wrote block ∷ []))
                ++ map (λ i. wrote (payload_of i)) packets)
              i.no_events,
      ap (λ n. (n + 3073) % 2 ^ 32) i.none_read,
      ap (λ n. (n + 3073) % 2 ^ 32) i.none_written,
      i.first_request,
      i.no_timers,
      i.pool_valid,
    )
