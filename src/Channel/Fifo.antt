-- ===== src/Channel/Fifo.antt =====
-- The channel's calls refine the abstract queue, and through any history items leave it in the order
-- in which they came.
use shmem_util.Prelude.{◌≡◌, none, some, List, ◌++◌, Exec, done, >>=-eq-done, done-injective}
use mathlib.Core.List.{append-nil, append_assoc}
use mathlib.Core.Path.{subst, ◌∙◌, ap}
use shmem_util.External.{DequeOps}
use shmem_util.Channel.Inner.{Outcome}
use shmem_util.Channel.Calls.{
  Effect, nothing, puts, takes, QueueStep, put_by, got_by, of_option, of_receive, of_send, Call,
  receives, tries_receive_until, tries_receive_once, sends, tries_send_until, tries_send_once,
  Touched, event, perform, Finds, History, opened, next,
}
use shmem_util.Channel.Sound.{
  Fitted, Sound, receive-Sound, try_receive_until-Sound, try_receive_once-Sound, try_send-Sound,
  try_send_until-Sound, try_send_once-Sound,
}

module _ {T : Type 0} (D : DequeOps T) where
  found :
      (effect : Effect T) (q q' : D.Deque) (touched : Touched D)
      → Fitted D effect touched
      → Finds D q touched q'
      → QueueStep (D.items q) effect (D.items q')
  found nothing q q' none h f = ap D.items f
  found nothing q q' (some _) h f = elim h [ ]
  found (puts x) q q' none h f = elim h [ ]
  found (takes x) q q' none h f = elim h [ ]
  found (puts x) q q' (some (before, after)) h (same, left) = rw (left, ← same) h
  found (takes x) q q' (some (before, after)) h (same, left) = rw (left, ← same) h

  event-QueueStep :
      {R : Type 0} (effect_of : R → Effect T) (run : Exec (Outcome D R)) (effect : Effect T)
      (touched : Touched D) (q q' : D.Deque)
      → Sound D effect_of run
      → event D effect_of run ≡ done (effect, touched)
      → Finds D q touched q'
      → QueueStep (D.items q) effect (D.items q')
  event-QueueStep effect_of run effect touched q q' sound e f =
      let (o, ended, k) = >>=-eq-done run (λ o. done (effect_of o.answer, o.touched)) e in
      let same = done-injective k in
      found effect q q' touched
        (subst (λ (p : Effect T × Touched D). Fitted D p.0 p.1) same (sound o ended)) f

  -- A call that ends, whatever it sees on its way, is one step of the abstract queue from the
  -- queue that it finds under the lock: an item that it is answered was the first one, an item
  -- that it reports as sent is the last one, and otherwise the queue is as it was.
  pub perform-QueueStep :
      (c : Call D) (effect : Effect T) (touched : Touched D) (q q' : D.Deque)
      → perform D c ≡ done (effect, touched)
      → Finds D q touched q'
      → QueueStep (D.items q) effect (D.items q')
  unfolding perform
  perform-QueueStep (receives rounds s) effect touched q q' =
      event-QueueStep of_option _ effect touched q q' (receive-Sound D rounds s)
  perform-QueueStep (tries_receive_until t s) effect touched q q' =
      event-QueueStep of_receive _ effect touched q q' (try_receive_until-Sound D t s)
  perform-QueueStep (tries_receive_once s) effect touched q q' =
      event-QueueStep of_receive _ effect touched q q' (try_receive_once-Sound D s)
  perform-QueueStep (sends x rounds s) effect touched q q' =
      event-QueueStep (of_send x) _ effect touched q q' (try_send-Sound D x rounds s)
  perform-QueueStep (tries_send_until x t s) effect touched q q' =
      event-QueueStep (of_send x) _ effect touched q q' (try_send_until-Sound D x t s)
  perform-QueueStep (tries_send_once x s) effect touched q q' =
      event-QueueStep (of_send x) _ effect touched q q' (try_send_once-Sound D x s)

  step_order :
      (effect : Effect T) (xs ys got put start : List T)
      → QueueStep xs effect ys
      → start ++ put ≡ got ++ xs
      → start ++ (put ++ put_by effect) ≡ (got ++ got_by effect) ++ ys
  step_order nothing xs ys got put start h e = rw h (simp (append-nil, e))
  step_order (puts x) xs ys got put start h e = rw h (simp (← append_assoc, e, append-nil))
  step_order (takes x) xs ys got put start h e =
      simp (append-nil, append_assoc) (e ∙ ap (λ l. got ++ l) h)

  -- Through any history of calls that send and receive, by any senders and receivers, in the
  -- order in which they have the lock, the items that the queue had at the start, followed by
  -- those put in, are those that receivers got, in order, followed by those that are left:
  -- nothing is lost, repeated or overtaken.
  pub History-fifo :
      {start q : D.Deque} {got put : List T}
      → History D start q got put
      → D.items start ++ put ≡ got ++ D.items q
  History-fifo {start} opened = append-nil (D.items start)
  History-fifo {start} (next {q} {got} {put} h c effect touched q' run f) =
      step_order effect (D.items q) (D.items q') got put (D.items start)
        (perform-QueueStep c effect touched q q' run f) (History-fifo h)
