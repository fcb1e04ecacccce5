-- ===== src/Channel/PingPong/Laws.antt =====
-- The client is answered what it has sent, in order.
use shmem_util.Prelude.{◌≡◌, refl, Option, none, some, List, [], ◌∷◌, ◌++◌, done, Result, ok, err}
use mathlib.Core.List.{append-nil, append_assoc}
use mathlib.Core.Path.{◌∙◌, ap}
use shmem_util.External.{DequeOps}
use shmem_util.Channel.Inner.{Sight, Outcome, receive, try_send}
use shmem_util.Channel.Calls.{
  QueueStep, put_by, got_by, of_option, of_send, receives, sends, perform, Finds,
}
use shmem_util.Channel.Fifo.{perform-QueueStep}
use shmem_util.Channel.PingPong.{
  Server, receiving, sending, finished, broken, requested, responded, State, Rounds, Step, asks,
  takes_request, responds, takes_response, Run, started, next,
}

module _ {T : Type 0} (D : DequeOps T) where
  receive-QueueStep :
      (rounds : Rounds) (sight : Sight D) (o : Outcome D (Option T)) (q q' : D.Deque)
      → receive D rounds sight ≡ done o
      → Finds D q o.touched q'
      → QueueStep (D.items q) (of_option o.answer) (D.items q')
  unfolding perform
  receive-QueueStep rounds sight o q q' run found =
      perform-QueueStep D (receives rounds sight) (of_option o.answer) o.touched q q' (rw run refl)
        found

  send-QueueStep :
      (item : T) (rounds : Rounds) (sight : Sight D) (o : Outcome D (Result (Unit {0}) T))
      (q q' : D.Deque)
      → try_send D item rounds sight ≡ done o
      → Finds D q o.touched q'
      → QueueStep (D.items q) (of_send item o.answer) (D.items q')
  unfolding perform
  send-QueueStep item rounds sight o q q' run found =
      perform-QueueStep D (sends item rounds sight) (of_send item o.answer) o.touched q q'
        (rw run refl) found

module _ {T : Type 0} (R S : DequeOps T) where
  -- the item that the server has, or could not send
  abbrev pub carried : Server T → List T
  carried receiving = []
  carried (sending item) = item ∷ []
  carried finished = []
  carried (broken item) = item ∷ []

  -- What was sent is what was answered, what waits for the client, what the server has, and what
  -- waits for the server.
  abbrev pub InOrder : State R S → Type 0
  InOrder s =
      s.sent ≡ s.answered ++ (S.items s.responses ++ (carried s.server ++ R.items s.requests))

  asks-order :
      (item : T) (answer : Result (Unit {0}) T) (sent a r c q q' : List T)
      → QueueStep q (of_send item answer) q'
      → sent ≡ a ++ (r ++ (c ++ q))
      → sent ++ put_by (of_send item answer) ≡ a ++ (r ++ (c ++ q'))
  asks-order item (ok _) sent a r c q q' h e = rw (h, e) (simp append_assoc refl)
  asks-order item (err x) sent a r c q q' h e = rw (h, e) (append-nil (a ++ (r ++ (c ++ q))))

  takes_request-order :
      (answer : Option T) (sent a r q q' : List T)
      → QueueStep q (of_option answer) q'
      → sent ≡ a ++ (r ++ q)
      → sent ≡ a ++ (r ++ (carried (requested answer) ++ q'))
  takes_request-order none sent a r q q' h e = rw h e
  takes_request-order (some x) sent a r q q' h e = rw (← h) e

  responds-order :
      (item : T) (answer : Result (Unit {0}) T) (sent a r r' q : List T)
      → QueueStep r (of_send item answer) r'
      → sent ≡ a ++ (r ++ item ∷ q)
      → sent ≡ a ++ (r' ++ (carried (responded item answer) ++ q))
  responds-order item (ok _) sent a r r' q h e = rw h (simp append_assoc e)
  responds-order item (err x) sent a r r' q h e = rw h e

  takes_response-order :
      (answer : Option T) (sent a r r' c : List T)
      → QueueStep r (of_option answer) r'
      → sent ≡ a ++ (r ++ c)
      → sent ≡ (a ++ got_by (of_option answer)) ++ (r' ++ c)
  takes_response-order none sent a r r' c h e = rw h (simp append-nil e)
  takes_response-order (some x) sent a r r' c h e =
      simp append_assoc (e ∙ ap (λ l. a ++ (l ++ c)) h)

  step-InOrder : (s t : State R S) → Step R S s t → InOrder s → InOrder t
  step-InOrder s t (asks item rounds sight o queue run found) h =
      asks-order item o.answer s.sent s.answered _ _ _ _
        (send-QueueStep R item rounds sight o s.requests queue run found) h
  step-InOrder s t (takes_request rounds sight o queue at run found) h =
      takes_request-order o.answer s.sent s.answered _ _ _
        (receive-QueueStep R rounds sight o s.requests queue run found) (rw at at h)
  step-InOrder s t (responds item rounds sight o queue at run found) h =
      responds-order item o.answer s.sent s.answered _ _ _
        (send-QueueStep S item rounds sight o s.responses queue run found) (rw at at h)
  step-InOrder s t (takes_response rounds sight o queue run found) h =
      takes_response-order o.answer s.sent s.answered _ _ _
        (receive-QueueStep S rounds sight o s.responses queue run found) h

  -- Through any schedule of calls by a client that sends requests and takes responses and by
  -- the server that sends back what it receives, whatever the calls see: where what was sent is
  -- what was answered, followed by the responses that wait, the item that the server has or
  -- could not send, and the requests that wait, it is so afterwards. The client is answered
  -- what it has sent, in order.
  pub Run-InOrder : (s t : State R S) → InOrder s → Run R S s t → InOrder t
  Run-InOrder s t h started = h
  Run-InOrder s t h (next {s = u} run last) = step-InOrder u t last (Run-InOrder s u h run)
