-- ===== src/Comm/Sending.antt =====
-- What `send_msg` puts on the socket, and that its loop ends.
use meshias.Base.{
  ℕ, zero, suc, ◌+◌, ◌-◌, ◌/◌, ◌≤◌, ◌<◌, ◌≡◌, sym, ap, ltb→lt, ◌∙◌, ltb, List, ◌∷◌, arith, inl, inr,
  Bool-cases,
}
use meshias.State.{MshData, Event, send, emit}
use meshias.Comm.{send_pieces, send_msg}
use meshias.Act.Branch.{when-true, when-false}
use meshias.Act.{◌>>=◌, pure, after}

-- The trace after so many pieces of 1024 bytes, from an offset on.
abbrev pub pieces_sent : List ℕ → ℕ → ℕ → List Event → List Event
pieces_sent buf zero offset trace = trace
pieces_sent buf (suc n) offset trace =
    pieces_sent buf n (offset + 1024) (send buf offset 1024 ∷ trace)

-- How many pieces are left.
abbrev pub rounds : ℕ → ℕ → ℕ
rounds sended size = (size - sended + 1023) / 1024

rounds-more :
    (sended size : ℕ) → sended < size → rounds sended size ≡ suc (rounds (sended + 1024) size)
rounds-more sended size h = omega (arith, h)

rounds-done : (sended size : ℕ) → size ≤ sended → rounds sended size ≡ 0
rounds-done sended size h = omega (arith, h)

pieces_lem :
    (fuel : ℕ) (buf : List ℕ) (sended size : ℕ) (s : MshData)
    → rounds sended size ≤ fuel
    → after (send_pieces fuel buf sended size) s
      ≡ record s { trace = pieces_sent buf (rounds sended size) sended s.trace }
unfolding send_pieces ◌>>=◌ emit pure
pieces_lem zero buf sended size s h =
    ap (λ n. record s { trace = pieces_sent buf n sended s.trace }) done
  where
    done : 0 ≡ rounds sended size
    done = omega (arith, h)
pieces_lem (suc fuel) buf sended size s h = elim (Bool-cases (ltb sended size)) [
  | inl more ↦
      let below = ltb→lt sended size more in
      ap (λ m. after m s) (when-true _ _ more)
      ∙ pieces_lem fuel buf (sended + 1024) size
          (record s { trace = send buf sended 1024 ∷ s.trace }) (omega (arith, h, below))
      ∙ ap (λ n. record s { trace = pieces_sent buf n sended s.trace })
          (sym (rounds-more sended size below))
  | inr done ↦
      ap (λ m. after m s) (when-false _ _ done)
      ∙ ap (λ n. record s { trace = pieces_sent buf n sended s.trace })
          (sym (rounds-done sended size (ground (arith, done))))
]

-- The loop of `send_msg` ends: on any fuel from the size of the text on it does the same, which is to
-- send the text in as many whole pieces of 1024 bytes as cover it, in their order, and nothing else.
pub send_pieces-enough :
    (fuel : ℕ) (buf : List ℕ) (size : ℕ) (s : MshData)
    → size ≤ fuel
    → after (send_pieces fuel buf 0 size) s
      ≡ record s { trace = pieces_sent buf ((size + 1023) / 1024) 0 s.trace }
send_pieces-enough fuel buf size s h =
    pieces_lem fuel buf 0 size s (omega (arith, h))
    ∙ ap (λ n. record s { trace = pieces_sent buf n 0 s.trace }) whole
  where
    whole : rounds 0 size ≡ (size + 1023) / 1024
    whole = omega arith

pub send_msg-pieces :
    (buf : List ℕ) (size : ℕ) (s : MshData)
    → after (send_msg buf size) s
      ≡ record s { trace = pieces_sent buf ((size + 1023) / 1024) 0 s.trace }
unfolding send_msg
send_msg-pieces buf size s = send_pieces-enough size buf size s (omega arith)
