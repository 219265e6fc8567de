-- ===== src/Rpc/Batches.antt =====
-- When `SendBufferedMessages` ends, and what it sends.
use hamang_server.Prelude.{
  Bool, List, Result, [], append-nil, append_assoc, arith, bind-ok, err, false, length,
  length-append, ltb, ltb→lt, ok, out_of_fuel, refl, suc, true, zero, ℕ, ◌++◌, ◌+◌, ◌<◌, ◌∷◌, ◌≡◌,
  ◌≤◌,
}
use hamang_server.Text.{Bytes}
use hamang_server.Values.{Rpc, batch_limit}
use hamang_server.Rpc.{gather, send_batches}

-- The queue's messages in one text.
abbrev pub joined : List Rpc → Bytes
joined [] = []
joined (r ∷ queue) = r.message ++ joined queue

-- Whether the messages fit one batch. A single message is never measured.
abbrev pub fits_batch : List Rpc → Bool
fits_batch [] = true
fits_batch (r ∷ []) = true
fits_batch (r ∷ r' ∷ queue) = ltb (length (joined (r ∷ r' ∷ queue))) batch_limit

-- A message that does not fit holds the inner loop for ever.
gather_stays :
    (f : ℕ) (message : Bytes) (r : Rpc) (queue : List Rpc)
    → ltb (length message + length r.message) batch_limit ≡ false
    → gather f message (r ∷ queue) ≡ err out_of_fuel
unfolding gather
gather_stays zero message r queue h = refl
gather_stays (suc f) message r queue h = rw h (gather_stays f message r queue h)

gather_fits :
    (f : ℕ) (message : Bytes) (queue : List Rpc)
    → length queue < f
    → length message + length (joined queue) < batch_limit
    → gather f message queue ≡ ok (message ++ joined queue, [])
unfolding gather
gather_fits zero message queue h k = elim h [ ]
gather_fits (suc f) message [] h k = rw append-nil
gather_fits (suc f) message (r ∷ queue) h k = ground (
  arith,
  gather_fits f (message ++ r.message) queue,
  length-append message r.message,
  length-append r.message (joined queue),
  append_assoc message r.message (joined queue),
)

gather_endless :
    (f : ℕ) (message : Bytes) (r : Rpc) (queue : List Rpc)
    → batch_limit ≤ length message + length (joined (r ∷ queue))
    → gather f message (r ∷ queue) ≡ err out_of_fuel
unfolding gather
gather_endless zero message r queue h = refl
gather_endless (suc f) message r [] h =
    ground (arith, gather_stays f message r [], append-nil r.message)
gather_endless (suc f) message r (r' ∷ queue) h = ground (
  arith,
  gather_stays f message r (r' ∷ queue),
  gather_endless f (message ++ r.message) r' queue,
  length-append message r.message,
  length-append r.message (joined (r' ∷ queue)),
)

module _ {S : Type 0} (send : Bytes → S → Result S) where
  -- What is to happen: nothing for an empty queue, and else one `send` of all messages in order.
  abbrev pub send_joined : List Rpc → S → Result S
  send_joined [] s = ok s
  send_joined (r ∷ queue) s = send (joined (r ∷ queue)) s

  send_one :
      (f : ℕ) (r : Rpc) (queue : List Rpc) (s : S) (message : Bytes)
      → gather (suc f) r.message queue ≡ ok (message, [])
      → send_batches send (suc (suc f)) (r ∷ queue) s ≡ send message s
  unfolding send_batches
  send_one f r queue s message e = rw e (bind-ok (send message s))

  -- If the queue is empty or holds one message, or if all its messages together are shorter than a
  -- batch may be, then with two rounds more than the queue is long the loops end: nothing is sent for
  -- an empty queue, and else all messages in order in one text.
  pub send_batches_lem :
      (f : ℕ) (queue : List Rpc) (s : S)
      → length queue + 1 < f
      → fits_batch queue ≡ true
      → send_batches send f queue s ≡ send_joined queue s
  unfolding send_batches
  send_batches_lem zero queue s h fits = absurd (omega arith)
  send_batches_lem (suc zero) queue s h fits = absurd (omega arith)
  send_batches_lem (suc (suc f)) [] s h fits = refl
  send_batches_lem (suc (suc f)) (r ∷ []) s h fits =
      rw append-nil (send_one f r [] s r.message refl)
  send_batches_lem (suc (suc f)) (r ∷ r' ∷ queue) s h fits =
      send_one f r (r' ∷ queue) s (joined (r ∷ r' ∷ queue)) (
        gather_fits (suc f) r.message (r' ∷ queue) (omega arith) (
          omega (
            arith,
            ltb→lt (length (joined (r ∷ r' ∷ queue))) batch_limit fits,
            length-append r.message (joined (r' ∷ queue)),
          )))

  -- If the queue holds two messages or more that together are as long as a batch may be, or longer,
  -- then the loops run for ever: no number of rounds ends them.
  pub send_batches_endless :
      (f : ℕ) (queue : List Rpc) (s : S)
      → fits_batch queue ≡ false
      → send_batches send f queue s ≡ err out_of_fuel
  unfolding send_batches
  send_batches_endless zero queue s h = refl
  send_batches_endless (suc f) [] s h = cc
  send_batches_endless (suc f) (r ∷ []) s h = cc
  send_batches_endless (suc f) (r ∷ r' ∷ queue) s h = rw (
      gather_endless f r.message r' queue
        (ground (arith, length-append r.message (joined (r' ∷ queue)))))
