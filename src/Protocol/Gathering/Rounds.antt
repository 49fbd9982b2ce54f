-- ===== src/Protocol/Gathering/Rounds.antt =====
-- A round of rtmp_proto_feed during the handshake, in each state.
use rushkit.Base.{
  ℕ, ◌+◌, ◌-◌, ◌<◌, ◌≤◌, ◌≡◌, refl, sym, ap, ◌∙◌, Bool, false, List, [], ◌∷◌, ◌++◌, append_assoc,
  append-nil, arith, Bytes, length, lengths, length-append, leb, Bool-cases, ◌==◌, inl, inr,
}
use rushkit.Base.Outcome.{ok}
use rushkit.Buffer.ReadBuffer.{ReadBuffer, rtmp_rb_read}
use rushkit.Buffer.ReadBuffer.Laws.{remaining, rtmp_rb_read_lem, length-remaining}
use rushkit.Buffer.FixBuffer.{FixBuffer}
use rushkit.Session.{Proto, Event, wrote}
use rushkit.Packet.Receive.Fields.{Left}
use rushkit.Protocol.{MethodTable, ack, shake_buffer, on_ack_back}
use rushkit.Protocol.Handshake.{
  recording, IsCollecting, kept, answered, read_whole, on_hand_shake_lem,
}
use rushkit.Protocol.Greeting.{
  on_connect_lem, on_ack_back_lem, connect_round, shake_round, ack_round,
}
use rushkit.Protocol.Gathering.{Stage, at_hello, at_block, at_ack, at_end, Round}

-- Two ways to cut the same bytes.
same_cut :
    (a b c d : Bytes)
    → a ++ b ≡ c ++ d
    → length a ≤ length c
    → (k : Bytes) × (c ≡ a ++ k) × (b ≡ k ++ d)
same_cut [] b c d e h = (c, refl, e)
same_cut (x ∷ a) b [] d e h = absurd (omega arith)
same_cut (x ∷ a) b (y ∷ c) d e h =
    let (k, e₁, e₂) = same_cut a b c d (cc) (omega arith) in (k, cc, e₂)

pub empty_end : (xs : Bytes) → length xs ≡ 0 → xs ≡ []
empty_end [] h = refl
empty_end (x ∷ xs) h = absurd (omega (arith, h))

kept_buffer : (t : FixBuffer) → t.capacity ≡ 1536 → shake_buffer t ≡ t
unfolding shake_buffer
kept_buffer t h = rw h refl

-- What a part of the client's second block leaves.
on_ack_back_part :
    (proto : Proto) (b : ReadBuffer)
    → Left b (remaining b)
    → length (remaining b) < proto.ack_back_len
    → (b' : ReadBuffer) × (on_ack_back proto b
        ≡ (record proto { ack_back_len = proto.ack_back_len - length (remaining b) }, b'))
      × Left b' []
unfolding on_ack_back
on_ack_back_part proto b (v, _, n) h =
    let (_, l) = read_whole b proto.ack_back_len v (omega arith) in
    let (count, _, _, _) = rtmp_rb_read_lem b proto.ack_back_len v in
    let k : (rtmp_rb_read b proto.ack_back_len).1 ≡ length (remaining b) =
      omega (arith, count, length-remaining v) in
    let more : (proto.ack_back_len - length (remaining b) == 0) ≡ false = ground arith in
    ((rtmp_rb_read b proto.ack_back_len).2, rw k (rw more refl), (l.0.0, l.0.1, l.1 ∙ n))

module _ (small : Bool) (table : MethodTable) (now : ℕ) (to_double from_double : ℕ → ℕ)
    (alloc : ℕ → Bytes) (es : List Event) (block block' : Bytes) (size : length block ≡ 1536)
    (size' : length block' ≡ 1536) where
  hello-Round :
      (p : Proto) (b : ReadBuffer) (later : Bytes)
      → Left b (remaining b)
      → p.pkg_st ≡ 0
      → IsCollecting (shake_buffer p.tmp_buf)
      → (shake_buffer p.tmp_buf).stored ≡ []
      → p.ack_back_len ≡ 1536
      → p.events ≡ es
      → remaining b ++ later ≡ 3 ∷ (block ++ block')
      → 0 < length (remaining b)
      → Round small table now to_double from_double alloc es block block' p b later
  hello-Round p b later (v, _, n) st c stored a e t pos =
      let (k, e₁, e₂) =
        same_cut (3 ∷ []) (block ++ block') (remaining b) later (sym t) (omega arith) in
      let (b', run, ((v', r'), n')) = on_connect_lem p b k (v, e₁) in
      (
        record p { pkg_st = 1 },
        b',
        connect_round small (recording table) now to_double from_double alloc p b st ∙ run,
        (
          at_block block refl c (ap (λ xs. xs ++ block) stored) a e
              (ap (λ xs. xs ++ later) r' ∙ sym e₂),
          (v', refl, n' ∙ n),
          omega (lengths, ap length e₁, ap length r'),
        ),
      )

  full-Round :
      (p : Proto) (b : ReadBuffer) (later xs : Bytes)
      → Left b (remaining b)
      → p.pkg_st ≡ 1
      → IsCollecting (shake_buffer p.tmp_buf)
      → (shake_buffer p.tmp_buf).stored ++ xs ≡ block
      → p.ack_back_len ≡ 1536
      → p.events ≡ es
      → remaining b ++ later ≡ xs ++ block'
      → length xs ≤ length (remaining b)
      → Round small table now to_double from_double alloc es block block' p b later
  full-Round p b later xs (v, _, n) st c stored a e t le =
      let (k, e₁, e₂) = same_cut xs block' (remaining b) later (sym t) le in
      let sum : length (shake_buffer p.tmp_buf).stored + length xs ≡ 1536 =
        omega
          (arith, size, ap length stored, length-append {0} (shake_buffer p.tmp_buf).stored xs) in
      let (b', run, ((v', r'), n')) = (on_hand_shake_lem small table p b c v).1 xs k e₁ sum in
      (
        answered small p xs,
        b',
        shake_round small (recording table) now to_double from_double alloc p b st ∙ run,
        (
          at_ack (omega (arith, st)) (omega (lengths, a, size', ap length e₂, ap length r'))
              (omega (lengths, size', ap length e₂, ap length r'))
              (omega (lengths, size', ap length e₂, ap length r')) (rw e (rw stored refl)),
          (v', refl, n' ∙ n),
          omega (lengths, c, ap length e₁, ap length r'),
        ),
      )

  kept-Round :
      (p : Proto) (b : ReadBuffer) (later xs : Bytes)
      → Left b (remaining b)
      → p.pkg_st ≡ 1
      → IsCollecting (shake_buffer p.tmp_buf)
      → (shake_buffer p.tmp_buf).stored ++ xs ≡ block
      → p.ack_back_len ≡ 1536
      → p.events ≡ es
      → remaining b ++ later ≡ xs ++ block'
      → 0 < length (remaining b)
      → length (remaining b) < length xs
      → Round small table now to_double from_double alloc es block block' p b later
  kept-Round p b later xs (v, _, n) st c stored a e t pos lt =
      let (k, e₁, e₂) = same_cut (remaining b) later xs block' t (omega arith) in
      let few : length (shake_buffer p.tmp_buf).stored + length (remaining b) < 1536 =
        omega
          (arith, size, ap length stored, length-append {0} (shake_buffer p.tmp_buf).stored xs) in
      let (b', run, ((v', r'), n')) = (on_hand_shake_lem small table p b c v).0 few in
      let p' = kept p (remaining b) in
      let same : shake_buffer p'.tmp_buf ≡ p'.tmp_buf = kept_buffer p'.tmp_buf c.0 in
      (
        p',
        b',
        shake_round small (recording table) now to_double from_double alloc p b st ∙ run,
        (
          at_block k st (rw same (c.0, omega (lengths, few), c.2))
              (ap (λ u. u.stored ++ k) same
                ∙ (append_assoc (shake_buffer p.tmp_buf).stored (remaining b) k
                    ∙ (ap (λ u. (shake_buffer p.tmp_buf).stored ++ u) (sym e₁) ∙ stored)))
              a e (ap (λ u. u ++ later) r' ∙ e₂),
          (v', refl, n' ∙ n),
          omega (arith, pos, ap length r'),
        ),
      )

  part-Round :
      (p : Proto) (b : ReadBuffer) (later todo : Bytes)
      → Left b (remaining b)
      → p.pkg_st ≡ 2
      → p.ack_back_len ≡ length todo
      → length todo ≤ 1536
      → p.events ≡ (es ++ (wrote (ack small) ∷ [])) ++ (wrote block ∷ [])
      → remaining b ++ later ≡ todo
      → 0 < length (remaining b)
      → length (remaining b) < p.ack_back_len
      → Round small table now to_double from_double alloc es block block' p b later
  part-Round p b later todo l st a short e t pos lt =
      let (b', run, (v', r', n')) = on_ack_back_part p b l lt in
      (
        record p { ack_back_len = p.ack_back_len - length (remaining b) },
        b',
        ack_round small (recording table) now to_double from_double alloc p b st ∙ ap ok run,
        (
          at_ack st (omega (lengths, a, ap length t, ap length r'))
              (omega (lengths, a, lt, ap length t, ap length r'))
              (omega (lengths, short, ap length t, ap length r')) e,
          (v', refl, n'),
          omega (arith, pos, ap length r'),
        ),
      )

  last-Round :
      (p : Proto) (b : ReadBuffer) (later todo : Bytes)
      → Left b (remaining b)
      → p.pkg_st ≡ 2
      → p.ack_back_len ≡ length todo
      → p.events ≡ (es ++ (wrote (ack small) ∷ [])) ++ (wrote block ∷ [])
      → remaining b ++ later ≡ todo
      → 0 < length (remaining b)
      → p.ack_back_len ≤ length (remaining b)
      → Round small table now to_double from_double alloc es block block' p b later
  last-Round p b later todo (v, _, n) st a e t pos le =
      let none_later : later ≡ [] = empty_end later (omega (lengths, a, ap length t)) in
      let (b', run, ((v', r'), n')) =
        on_ack_back_lem p b (remaining b) [] (omega (lengths, a, ap length t))
          (v, sym (append-nil (remaining b))) in
      (
        record p { ack_back_len = 1536; pkg_st = p.pkg_st + 1 },
        b',
        ack_round small (recording table) now to_double from_double alloc p b st ∙ ap ok run,
        (
          at_end (omega (arith, st)) refl e (ap (λ u. u ++ later) r' ∙ none_later),
          (v', refl, n' ∙ n),
          omega (arith, pos, ap length r'),
        ),
      )

  pub next-Round :
      (p : Proto) (b : ReadBuffer) (later todo : Bytes)
      → Stage small es block block' p todo
      → Left b (remaining b)
      → remaining b ++ later ≡ todo
      → 0 < length (remaining b)
      → Round small table now to_double from_double alloc es block block' p b later
  next-Round p b later todo (at_hello st c stored a e t) l i pos =
      hello-Round p b later l st c stored a e (i ∙ t) pos
  next-Round p b later todo (at_block xs st c stored a e t) l i pos =
      elim (Bool-cases (leb (length xs) (length (remaining b)))) [
        | inl enough ↦ full-Round p b later xs l st c stored a e (i ∙ t) (ground arith)
        | inr few ↦ kept-Round p b later xs l st c stored a e (i ∙ t) pos (ground arith)
      ]
  next-Round p b later todo (at_ack st a some_left short e) l i pos =
      elim (Bool-cases (leb (p.ack_back_len) (length (remaining b)))) [
        | inl enough ↦ last-Round p b later todo l st a e i pos (ground arith)
        | inr few ↦ part-Round p b later todo l st a short e i pos (ground arith)
      ]
  next-Round p b later todo (at_end st a e t) l i pos =
      absurd (omega (lengths, pos, ap length (i ∙ t)))
