-- ===== src/Protocol/Gathering/Feeds.antt =====
-- rtmp_proto_feed, piece by piece, until the handshake is done.
use mathlib.Core.Path.{subst}
use rushkit.Base.{
  ℕ, zero, suc, ◌+◌, ◌%◌, ◌^◌, ◌<◌, ◌≤◌, ◌≡◌, refl, ap, ◌∙◌, Bool, false, List, [], ◌∷◌, ◌++◌,
  append_assoc, arith, Bytes, length, lengths, length-append, ltb, Bool-cases, ◌==◌,
  take-append_length, if◌then◌else◌, inl, inr,
}
use rushkit.Base.Outcome.{Outcome, ok, ◌>>=◌}
use rushkit.Buffer.ReadBuffer.{ReadBuffer, rtmp_rb_init}
use rushkit.Buffer.ReadBuffer.Laws.{remaining, rtmp_rb_init_lem, length-remaining}
use rushkit.Session.{Proto, Event, wrote}
use rushkit.Packet.Receive.Fields.{Left}
use rushkit.Protocol.{MethodTable, ack, shake_buffer}
use rushkit.Protocol.Handshake.{recording}
use rushkit.Protocol.Greeting.{at_start, loop_step, loop_end}
use rushkit.Protocol.Gathering.{Stage, at_hello, at_block, at_ack, at_end}
use rushkit.Buffer.FixBuffer.{rtmp_fwb_init}
use rushkit.Protocol.Feed.{feed_loop, rtmp_proto_feed, overwrite}
use rushkit.Protocol.Gathering.Rounds.{empty_end, next-Round}

-- The state of a handshake that `n` bytes are missing of.
abbrev pub state_before : ℕ → ℕ
state_before n = if n == 3073 then 0 else if ltb 1536 n then 1 else if ltb 0 n then 2 else 3

-- What has been written by then.
abbrev pub told_before : Bool → List Event → Bytes → ℕ → List Event
told_before small es block n =
    if ltb 1536 n then es else (es ++ (wrote (ack small) ∷ [])) ++ (wrote block ∷ [])

-- The pieces one after the other.
unfoldable pub together : List Bytes → Bytes
together [] = []
together (piece ∷ pieces) = piece ++ together pieces

-- What a host does that puts each piece at the start of the read buffer, and feeds it.
unfoldable pub feed_pieces :
    Bool → MethodTable → ℕ → (ℕ → ℕ) → (ℕ → ℕ) → (ℕ → Bytes) → Proto → List Bytes → Outcome Proto
feed_pieces small table now to_double from_double alloc p [] = ok p
feed_pieces small table now to_double from_double alloc p (piece ∷ pieces) =
    rtmp_proto_feed small table now to_double from_double alloc
      (record p { read_buffer = overwrite p.read_buffer piece }) (length piece)
    >>= (λ p'. feed_pieces small table now to_double from_double alloc p' pieces)

module _ (small : Bool) (table : MethodTable) (now : ℕ) (to_double from_double : ℕ → ℕ)
    (alloc : ℕ → Bytes) (es : List Event) (block block' : Bytes) (size : length block ≡ 1536)
    (size' : length block' ≡ 1536) where
  abbrev Fed : ℕ → Proto → ReadBuffer → Bytes → Type 0
  Fed fuel p b later =
      (p' : Proto) × (b' : ReadBuffer) × (feed_loop small (recording table) now to_double
          from_double alloc fuel p b
        ≡ ok (p', b'))
      × (b'.need_more ≡ 0)
      × Stage small es block block' p' later

  no_round :
      (fuel : ℕ) (p : Proto) (b : ReadBuffer) (later : Bytes)
      → Stage small es block block' p (remaining b ++ later)
      → Left b (remaining b)
      → length (remaining b) ≡ 0
      → Fed fuel p b later
  no_round fuel p b later s l h = (
    p,
    b,
    loop_end small (recording table) now to_double from_double alloc fuel p b
        (omega (arith, h, length-remaining l.0)),
    l.2,
    subst (λ u. Stage small es block block' p (u ++ later)) (empty_end _ h) s,
  )

  all_rounds :
      (fuel : ℕ) (p : Proto) (b : ReadBuffer) (later : Bytes)
      → Stage small es block block' p (remaining b ++ later)
      → Left b (remaining b)
      → length (remaining b) ≤ fuel
      → Fed fuel p b later
  all_rounds zero p b later s l h = no_round zero p b later s l (omega (arith, h))
  all_rounds (suc fuel) p b later s l h = elim (Bool-cases (ltb 0 (length (remaining b)))) [
    | inr none_left ↦ no_round (suc fuel) p b later s l (ground arith)
    | inl some_left ↦
        let pos : 0 < length (remaining b) = ground arith in
        let (p₁, b₁, run, (s₁, l₁, less)) =
          next-Round small table now to_double from_double alloc es block block' size size' p b
            later _ s l refl pos in
        let (p', b', rest, n, s') = all_rounds fuel p₁ b₁ later s₁ l₁ (omega (arith, h, less)) in
        (
          p',
          b',
          loop_step small (recording table) now to_double from_double alloc fuel p p₁ b b₁
                (omega (arith, pos, length-remaining l.0)) l.2 run
              ∙ rest,
          n,
          s',
        )
  ]

  counted :
      (p : Proto) (memory todo : Bytes) (n : ℕ)
      → Stage small es block block' p todo
      → Stage small es block block' (record p { read_buffer = memory; num_up_bytes = n }) todo
  counted p memory todo n (at_hello st c stored a e t) = at_hello st c stored a e t
  counted p memory todo n (at_block xs st c stored a e t) = at_block xs st c stored a e t
  counted p memory todo n (at_ack st a some_left short e) = at_ack st a some_left short e
  counted p memory todo n (at_end st a e t) = at_end st a e t

  fed_piece :
      (p : Proto) (piece later : Bytes)
      → Stage small es block block' p (piece ++ later)
      → (p' : Proto) × (rtmp_proto_feed small
            (recording table)
            now
            to_double
            from_double
            alloc
            (record p { read_buffer = overwrite p.read_buffer piece })
            (length piece)
          ≡ ok p')
        × Stage small es block block' p' later
  unfolding rtmp_proto_feed
  fed_piece p piece later s =
      let memory = overwrite p.read_buffer piece in
      let n = length piece in
      let q = record p { read_buffer = memory; num_up_bytes = (p.num_up_bytes + n) % 2 ^ 32 } in
      let b = rtmp_rb_init memory n in
      let (v, r) = rtmp_rb_init_lem memory n (omega lengths) in
      let whole : remaining b ≡ piece = r ∙ take-append_length piece _ in
      let quiet : b.need_more ≡ 0 = unfold rtmp_rb_init in refl in
      let (p', b', run, none_missing, s') =
        all_rounds n q b later (rw whole (counted p memory (piece ++ later) _ s)) (v, refl, quiet)
          (omega (arith, ap length whole)) in
      let quiet' : ltb 0 b'.need_more ≡ false = ground arith in (p', rw run (rw quiet' refl), s')

  all_pieces :
      (ms : List Bytes) (p : Proto) (later : Bytes)
      → Stage small es block block' p (together ms ++ later)
      → (p' : Proto) × (feed_pieces small (recording table) now to_double from_double alloc p ms
          ≡ ok p')
        × Stage small es block block' p' later
  unfolding feed_pieces together
  all_pieces [] p later s = (p, refl, s)
  all_pieces (piece ∷ ms) p later s =
      let (p₁, e, s₁) =
        fed_piece p piece (together ms ++ later) (
          subst (λ u. Stage small es block block' p u) (append_assoc piece (together ms) later)
            s) in
      let (p', e', s') = all_pieces ms p₁ later s₁ in (p', rw e e', s')

  expected :
      (p : Proto) (later : Bytes)
      → Stage small es block block' p later
      → (p.pkg_st ≡ state_before (length later))
        × (p.events ≡ told_before small es block (length later))
  expected p later (at_hello st c stored a e t) =
      let n : length later ≡ 3073 = omega (lengths, size, size', ap length t) in rw n (st, e)
  expected p later (at_block xs st c stored a e t) =
      let lo : 1536 < length later = omega (
        lengths,
        c,
        size,
        size',
        ap length t,
        ap length stored,
        length-append {0} (shake_buffer p.tmp_buf).stored xs,
      ) in
      let hi : length later < 3073 = omega (
        lengths,
        size,
        size',
        ap length t,
        ap length stored,
        length-append {0} (shake_buffer p.tmp_buf).stored xs,
      ) in
      ground (arith, st, e, lo, hi)
  expected p later (at_ack st a some_left short e) = ground (arith, st, e, some_left, short)
  expected p later (at_end st a e t) = rw t (st, e)

-- Whatever pieces a client's handshake, the byte 3 and two blocks of 1536 bytes, comes in, and however
-- much of it has come: each piece is taken, an empty one too; while more than 1536 bytes are missing
-- nothing is written, and from then on the connection has written its own block and then the client's
-- first one, and nothing else; the state is 0 before the first byte, 1 in the first block, 2 in the
-- second and 3, in which packets are read, once nothing is missing. The connection is at its start, each
-- piece is put at the start of the read buffer, and the host is one that notes what it is to write.
pub rtmp_proto_feed_in_pieces :
    (small : Bool) (table : MethodTable) (now : ℕ) (to_double from_double : ℕ → ℕ)
    (alloc : ℕ → Bytes) (proto : Proto) (memory block block' later : Bytes) (pieces : List Bytes)
    → length block ≡ 1536
    → length block' ≡ 1536
    → together pieces ++ later ≡ 3 ∷ (block ++ block')
    → (p : Proto) × (feed_pieces small
          (recording table)
          now
          to_double
          from_double
          alloc
          (at_start proto memory)
          pieces
        ≡ ok p)
      × (p.pkg_st ≡ state_before (length later))
      × (p.events ≡ told_before small proto.events block (length later))
unfolding shake_buffer rtmp_fwb_init
rtmp_proto_feed_in_pieces small table now to_double from_double alloc proto memory block block'
      later pieces h h' e =
    let (p, run, s) =
      all_pieces small table now to_double from_double alloc proto.events block block' h h' pieces
        (at_start proto memory) later (at_hello refl (refl, omega arith, refl) refl refl refl e) in
    let (st, told) =
      expected small table now to_double from_double alloc proto.events block block' h h' p later
        s in
    (p, run, st, told)
