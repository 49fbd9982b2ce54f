-- ===== src/Examples/Openings.antt =====
-- core/src/protocol.c: the first moments of a concrete connection.
use mathlib.Core.List.{map}
use rushkit.Base.{ℕ, zero, suc, ap, ◌≡◌, refl, true, List, [], ◌∷◌, ◌++◌, All, arith, length, Bytes}
use rushkit.Base.Outcome.{ok}
use rushkit.Pool.Blocks
use rushkit.Session.{Proto, wrote, replicate}
use rushkit.Protocol.{rtmp_proto_method_table_init, ack}
use rushkit.Protocol.Feed.{rtmp_proto_feed}
use rushkit.Protocol.Lifetime.{rtmp_proto_init}
use rushkit.Protocol.Handshake.{recording}
use rushkit.Protocol.InOrder.{noting, Framed, payload_of, stream_of, IsReadable}
use rushkit.Protocol.Opening.{filled_with, rtmp_proto_feed-rtmp_proto_init}
use rushkit.Examples.Packets.{proto}

abbrev zeros : ℕ → Bytes
zeros n = replicate n 0

length-zeros : (n : ℕ) → length (zeros n) ≡ n
length-zeros zero = refl
length-zeros (suc n) = ap suc (length-zeros n)

-- Two packets of one chunk each.
abbrev packets : List Framed
packets =
    record {
      channel = record { used = 0; timer = 7; size = 3; data_type = 4; stream_id = 0 };
      pieces = [];
      last = 10 ∷ 20 ∷ 30 ∷ [];
    }
    ∷ record {
      channel = record { used = 0; timer = 9; size = 1; data_type = 8; stream_id = 1 };
      pieces = [];
      last = 40 ∷ [];
    }
    ∷ []

packets-IsReadable : All (IsReadable 128) packets
packets-IsReadable = (
  record {
    timer_fits = omega arith;
    typed = omega arith;
    size_fits = omega arith;
    size_right = refl;
    pieces_right = record {
      whole = refl;
      full = tt;
      some_last = omega arith;
      last_fits = omega arith;
    };
  },
  (
    record {
      timer_fits = omega arith;
      typed = omega arith;
      size_fits = omega arith;
      size_right = refl;
      pieces_right = record {
        whole = refl;
        full = tt;
        some_last = omega arith;
        last_fits = omega arith;
      };
    },
    tt,
  ),
)

rtmp_proto_feed-rtmp_proto_init_example :
    (p p₁ p₂ : Proto) × (rtmp_proto_init zeros proto ≡ ok p)
    × (rtmp_proto_feed true
          (recording (noting rtmp_proto_method_table_init))
          0
          (λ n. n)
          (λ n. n)
          zeros
          (filled_with p (3 ∷ (zeros 1536 ++ (zeros 1536 ++ []))))
          3073
        ≡ ok p₁)
    × (rtmp_proto_feed true
          (recording (noting rtmp_proto_method_table_init))
          0
          (λ n. n)
          (λ n. n)
          zeros
          (filled_with p₁ (stream_of 3 packets ++ []))
          (length (stream_of 3 packets))
        ≡ ok p₂)
    × (p₂.events
        ≡ ((proto.events ++ (wrote (ack true) ∷ [])) ++ (wrote (zeros 1536) ∷ []))
          ++ map (λ i. wrote (payload_of i)) packets)
    × (p₁.num_up_bytes ≡ 3073)
    × (p₁.num_down_bytes ≡ 3073)
    × (p₁.next_request_id ≡ 1)
    × (p₁.last_timers ≡ replicate 64 0)
    × Blocks.IsValid p₁.pool
rtmp_proto_feed-rtmp_proto_init_example =
    rtmp_proto_feed-rtmp_proto_init true rtmp_proto_method_table_init 0 (λ n. n) (λ n. n) zeros
      proto (zeros 1536) (zeros 1536) [] [] 3 packets (length-zeros 1536) (length-zeros 1536)
      (omega arith) (omega arith) packets-IsReadable
