-- ===== src/Packet/Receive/Rounds.antt =====
-- The rounds of `rtmp_packet_get_packet`: seven of them are enough, or no number is.
use rushkit.Base.{
  ℕ, zero, suc, ◌+◌, ◌≤◌, ◌≡◌, inl, inr, refl, sym, ◌∙◌, Bool, true, false, none, some, arith, ◌==◌,
  ==_iff, if◌then◌else◌,
}
use rushkit.Base.Outcome.{ok, out_of_fuel, Ensures, returned, aborted, faulted}
use rushkit.Buffer.ReadBuffer.{ReadBuffer}
use rushkit.Session.{Proto}
use rushkit.Packet.Header.{Step, missing, start_receive, get_r1, get_r2, get_r3, get_r4}
use rushkit.Packet.Receive.{get_r5, get_r6, step, get_packet_loop, rtmp_packet_get_packet}
use rushkit.Packet.Receive.Steps.{loop_zero, loop_round}
use rushkit.Packet.Receive.Moves.{
  Advances, Waits, Moves, start-Moves, if-Moves, get_r1-Moves, get_r2-Moves, get_r3-Moves,
  get_r4-Moves, get_r5-Moves, get_r6-Moves,
}

choose-Moves :
    (t : Bool) (f g : ReadBuffer → Step) (p : Proto) (b : ReadBuffer)
    → (t ≡ true → Moves f p b)
    → (t ≡ false → Moves g p b)
    → Moves (λ c. if t then f c else g c) p b
choose-Moves true f g p b hf hg = hf refl
choose-Moves false f g p b hf hg = hg refl

step-Moves : (small : Bool) (p : Proto) (b : ReadBuffer) → Moves (step small p) p b
unfolding step
step-Moves small p b =
    let six : ReadBuffer → Step = λ d. if p.state == 6 then get_r6 p d else missing p d in
    let five : ReadBuffer → Step = λ d. if p.state == 5 then get_r5 small p d else six d in
    let four : ReadBuffer → Step = λ d. if p.state == 4 then get_r4 small p d else five d in
    let three : ReadBuffer → Step = λ d. if p.state == 3 then get_r3 p d else four d in
    let two : ReadBuffer → Step = λ d. if p.state == 2 then get_r2 small p d else three d in
    let one : ReadBuffer → Step = λ d. if p.state == 1 then get_r1 p d else two d in
    choose-Moves (p.state == 0) (λ d. ok (none, start_receive p, d)) one p b
      (λ h. start-Moves small p b ((==_iff p.state 0).0 h))
      (λ _. if-Moves (p.state == 1) (get_r1 p) two p b (get_r1-Moves small p b) (
        if-Moves (p.state == 2) (get_r2 small p) three p b (get_r2-Moves small p b) (
          if-Moves (p.state == 3) (get_r3 p) four p b (get_r3-Moves small p b) (
            if-Moves (p.state == 4) (get_r4 small p) five p b (get_r4-Moves small p b) (
              if-Moves (p.state == 5) (get_r5 small p) six p b (get_r5-Moves small p b) (
                if-Moves (p.state == 6) (get_r6 p) (missing p) p b (get_r6-Moves small p b)
                  (inr (λ k. (k, refl)))))))))

module _ (small : Bool) (p : Proto) (b : ReadBuffer) where
  asked_again :
      Waits (step small p) p b
      → (fuel k : ℕ) → get_packet_loop fuel small p (record b { need_more = k }) ≡ out_of_fuel
  asked_again w zero k = loop_zero small p (record b { need_more = k })
  asked_again w (suc fuel) k =
      let (k', e) = w k in loop_round small p p _ _ fuel e ∙ asked_again w fuel k'

  past_the_last : 7 ≤ p.state → Waits (step small p) p b
  unfolding step
  past_the_last h k = (k, ground arith)

-- A round that ends the loop, whatever the fuel.
round_ended :
    (small : Bool) (p : Proto) (b : ReadBuffer) (r : Step) (n m : ℕ)
    → step small p b ≡ r
    → Ensures (Advances p) r
    → ((q : Proto) (c : ReadBuffer)
        → q.state ≡ suc p.state
        → get_packet_loop n small q c ≡ get_packet_loop m small q c)
    → get_packet_loop (suc n) small p b ≡ get_packet_loop (suc m) small p b
unfolding get_packet_loop
round_ended small p b _ n m e (returned {a = (some pac, q, c)} h) k = rw e refl
round_ended small p b _ n m e (returned {a = (none, q, c)} h) k = rw e (k q c h)
round_ended small p b _ n m e aborted k = rw e refl
round_ended small p b _ n m e faulted k = rw e refl

more_rounds :
    (small : Bool) (n m : ℕ) (p : Proto) (b : ReadBuffer)
    → 7 ≤ n + p.state
    → n ≤ m
    → get_packet_loop m small p b ≡ get_packet_loop n small p b
more_rounds small zero m p b h l =
    asked_again small p b (past_the_last small p b (omega arith)) m b.need_more
    ∙ sym (loop_zero small p b)
more_rounds small (suc n) zero p b h l = absurd (omega arith)
more_rounds small (suc n) (suc m) p b h l = elim (step-Moves small p b) [
  | inl moves ↦
      round_ended small p b (step small p b) m n refl moves
        (λ q c s. more_rounds small n m q c (omega arith) (omega arith))
  | inr waits ↦
      asked_again small p b waits (suc m) b.need_more
      ∙ sym (asked_again small p b waits (suc n) b.need_more)
]

-- Seven rounds are enough for `rtmp_packet_get_packet`, in any state and on any data: with any larger number of
-- rounds the loop does the same, so that it ends within seven rounds or never.
pub rtmp_packet_get_packet-get_packet_loop :
    (small : Bool) (proto : Proto) (b : ReadBuffer) (fuel : ℕ)
    → 7 ≤ fuel
    → get_packet_loop fuel small proto b ≡ rtmp_packet_get_packet small proto b
unfolding rtmp_packet_get_packet
rtmp_packet_get_packet-get_packet_loop small proto b fuel h =
    more_rounds small 7 fuel proto b (omega arith) h
