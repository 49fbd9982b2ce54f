-- ===== src/Protocol/Gathering.antt =====
-- core/src/protocol.c: a handshake that comes in pieces, each fed by itself.
pub mod Rounds
pub mod Feeds
use mathlib.Core.Path.{subst}
use rushkit.Base.{
  ℕ, zero, suc, ◌+◌, ◌-◌, ◌%◌, ◌^◌, ◌<◌, ◌≤◌, ◌≡◌, refl, sym, ap, ◌∙◌, Bool, true, false, List, [],
  ◌∷◌, ◌++◌, append_assoc, append-nil, arith, Bytes, length, lengths, length-append, take, ltb, leb,
  Bool-cases, ◌==◌, inl, inr,
}
use rushkit.Base.Outcome.{Outcome, ok, ◌>>=◌}
use rushkit.Buffer.ReadBuffer.{ReadBuffer, rtmp_rb_read, rtmp_rb_get_space}
use rushkit.Buffer.ReadBuffer.Laws.{remaining, rtmp_rb_read_lem, length-remaining}
use rushkit.Buffer.FixBuffer.{FixBuffer}
use rushkit.Session.{Proto, Event, wrote}
use rushkit.Packet.Receive.Fields.{Left}
use rushkit.Protocol.{MethodTable, ack, shake_buffer, on_ack_back}
use rushkit.Protocol.Feed.{feed_round, feed_loop}
use rushkit.Protocol.Handshake.{
  recording, IsCollecting, kept, answered, read_whole, read_prefix, on_hand_shake_lem,
}
use rushkit.Protocol.Greeting.{
  on_connect_lem, on_ack_back_lem, loop_step, loop_end, connect_round, shake_round, ack_round,
}

module _ (small : Bool) (es : List Event) (block block' : Bytes) where
  -- A connection that has got all but `todo` of the handshake 3, `block` and `block'`.
  pub data Stage (p : Proto) (todo : Bytes) : Type 0 where
    at_hello :
        p.pkg_st ≡ 0
        → IsCollecting (shake_buffer p.tmp_buf)
        → (shake_buffer p.tmp_buf).stored ≡ []
        → p.ack_back_len ≡ 1536
        → p.events ≡ es
        → todo ≡ 3 ∷ (block ++ block')
        → Stage p todo
    at_block :
        (xs : Bytes)
        → p.pkg_st ≡ 1
        → IsCollecting (shake_buffer p.tmp_buf)
        → (shake_buffer p.tmp_buf).stored ++ xs ≡ block
        → p.ack_back_len ≡ 1536
        → p.events ≡ es
        → todo ≡ xs ++ block'
        → Stage p todo
    at_ack :
        p.pkg_st ≡ 2
        → p.ack_back_len ≡ length todo
        → 0 < length todo
        → length todo ≤ 1536
        → p.events ≡ (es ++ (wrote (ack small) ∷ [])) ++ (wrote block ∷ [])
        → Stage p todo
    at_end :
        p.pkg_st ≡ 3
        → p.ack_back_len ≡ 1536
        → p.events ≡ (es ++ (wrote (ack small) ∷ [])) ++ (wrote block ∷ [])
        → todo ≡ []
        → Stage p todo

  -- What a round leaves, when `later` is still to be fed.
  abbrev pub Advanced : ReadBuffer → Bytes → Proto → ReadBuffer → Type 0
  Advanced b later p' b' =
      Stage p' (remaining b' ++ later)
      × Left b' (remaining b')
      × (length (remaining b') < length (remaining b))

module _ (small : Bool) (table : MethodTable) (now : ℕ) (to_double from_double : ℕ → ℕ)
    (alloc : ℕ → Bytes) (es : List Event) (block block' : Bytes) where
  abbrev pub Round : Proto → ReadBuffer → Bytes → Type 0
  Round p b later =
      (p' : Proto) × (b' : ReadBuffer) × (feed_round small (recording table) now to_double
          from_double alloc p b
        ≡ ok (p', b'))
      × Advanced small es block block' b later p' b'
