-- ===== src/Protocol/Refed.antt =====
-- What `rtmp_proto_feed_data` reads of its data.
use rushkit.Base.{
  ℕ, zero, suc, ◌-◌, ◌≤◌, ◌≡◌, refl, sym, ap, ◌∙◌, Bool, true, arith, Bytes, length, take,
  take-take_of_le, ltb, if◌then◌else◌, Bool-cases, inl, inr,
}
use rushkit.Base.Outcome.{Outcome, ok, abort, fault, out_of_fuel, ◌>>=◌}
use rushkit.Session.{Proto}
use rushkit.Protocol.{MethodTable}
use rushkit.Protocol.Feed.{
  buffer_sz, overwrite, put_last_data, rtmp_proto_prepare_buffer, rtmp_proto_feed, feed_data_round,
  feed_data_loop, rtmp_proto_feed_data,
}

bind_ext {ℓ κ} :
    {A : Type ℓ} {B : Type κ} (m : Outcome A) (f g : A → Outcome B)
    → ((a : A) → f a ≡ g a)
    → (m >>= f) ≡ (m >>= g)
bind_ext (ok a) f g h = h a
bind_ext abort f g h = refl
bind_ext fault f g h = refl
bind_ext out_of_fuel f g h = refl

module _ (small : Bool) (table : MethodTable) (now : ℕ) (to_double from_double : ℕ → ℕ)
    (alloc : ℕ → Bytes) (src src' : Bytes) (agree : take buffer_sz src ≡ take buffer_sz src') where
  take_agree : (n : ℕ) → n ≤ buffer_sz → take n src ≡ take n src'
  take_agree n h =
      sym (take-take_of_le n buffer_sz src h)
      ∙ (ap (take n) agree ∙ take-take_of_le n buffer_sz src' h)

  same_round :
      (proto : Proto) (len : ℕ)
      → feed_data_round small table now to_double from_double alloc proto src len
        ≡ feed_data_round small table now to_double from_double alloc proto src' len
  unfolding feed_data_round rtmp_proto_prepare_buffer
  same_round proto len =
      let room = buffer_sz - (put_last_data proto).0 in
      let p = (put_last_data proto).1 in
      let cap = if ltb len room then len else room in
      ap (λ t. (cap, record p { read_buffer = overwrite p.read_buffer t }))
        (take_agree cap (ground arith))

  loop_round :
      (fuel : ℕ) (proto : Proto) (data' : Bytes) (len : ℕ)
      → ltb 0 len ≡ true
      → feed_data_loop small table now to_double from_double alloc (suc fuel) proto data' len ≡ (
          let (cap, p) =
            feed_data_round small table now to_double from_double alloc proto data' len in
          rtmp_proto_feed small table now to_double from_double alloc p cap >>= (λ p'.
            feed_data_loop small table now to_double from_double alloc fuel p' data' (len - cap)))
  unfolding feed_data_loop
  loop_round fuel proto data' len e = ground arith

  same_loop :
      (fuel : ℕ) (proto : Proto) (len : ℕ)
      → feed_data_loop small table now to_double from_double alloc fuel proto src len
        ≡ feed_data_loop small table now to_double from_double alloc fuel proto src' len
  unfolding feed_data_loop
  same_loop zero proto len = refl
  same_loop (suc fuel) proto len = elim (Bool-cases (ltb 0 len)) [
    | inr none_left ↦ ground arith
    | inl some_left ↦
        loop_round fuel proto src len some_left
        ∙ (ap
              (λ (cap, p).
                rtmp_proto_feed small table now to_double from_double alloc p cap >>= (λ p'.
                  feed_data_loop small table now to_double from_double alloc fuel p' src
                    (len - cap)))
              (same_round proto len)
            ∙ (bind_ext _ _ _ (λ p'. same_loop fuel p' _)
                ∙ sym (loop_round fuel proto src' len some_left)))
  ]

  -- Of the data, `rtmp_proto_feed_data` reads the first 8192 bytes only: what it does, for any host, is
  -- the same for any other data of the same length that begins with the same 8192 bytes.
  pub rtmp_proto_feed_data_agrees :
      (proto : Proto)
      → length src ≡ length src'
      → rtmp_proto_feed_data small table now to_double from_double alloc proto src
        ≡ rtmp_proto_feed_data small table now to_double from_double alloc proto src'
  unfolding rtmp_proto_feed_data
  rtmp_proto_feed_data_agrees proto e = rw e (same_loop (length src') proto (length src'))
