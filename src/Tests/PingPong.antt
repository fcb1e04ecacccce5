-- ===== src/Tests/PingPong.antt =====
-- A request, its way through the server and its response, on channels with room for two numbers.
use shmem_util.Prelude.{ℕ, ◌≡◌, refl, some, List, [], ◌∷◌, done, ok}
use shmem_util.Condvar
use shmem_util.Channel.Inner.{acquire, push, pop, receive, try_send}
use shmem_util.Tests.Fifo.{D, holding, seen, at_once}
use shmem_util.Channel.PingPong.{
  Server, receiving, State, Run, started, next, asks, takes_request, responds, takes_response,
}
use shmem_util.Channel.PingPong.Laws.{InOrder, Run-InOrder}

abbrev between : List ℕ → ℕ → Server ℕ → List ℕ → ℕ → List ℕ → List ℕ → State D D
between requests room server responses space sent answered = record {
  requests = holding requests room;
  responses = holding responses space;
  server = server;
  sent = sent;
  answered = answered;
}

one_sent :
    try_send D 4 at_once (seen [] 2)
    ≡ done (record { answer = ok tt; touched = some (holding [] 2, holding (4 ∷ []) 1) })
unfolding try_send acquire Condvar.wait push
one_sent = refl

one_taken :
    receive D at_once (seen (4 ∷ []) 1)
    ≡ done (record { answer = some 4; touched = some (holding (4 ∷ []) 1, holding [] 2) })
unfolding receive acquire Condvar.wait pop
one_taken = refl

answered_once :
    Run D D (between [] 2 receiving [] 2 [] []) (between [] 2 receiving [] 2 (4 ∷ []) (4 ∷ []))
answered_once =
    next
      (next
        (next
          (next started (asks 4 at_once (seen [] 2) _ (holding (4 ∷ []) 1) one_sent (refl, refl)))
          (takes_request at_once (seen (4 ∷ []) 1) _ (holding [] 2) refl one_taken (refl, refl)))
        (responds 4 at_once (seen [] 2) _ (holding (4 ∷ []) 1) refl one_sent (refl, refl)))
      (takes_response at_once (seen (4 ∷ []) 1) _ (holding [] 2) one_taken (refl, refl))

Run-InOrder_example : InOrder D D (between [] 2 receiving [] 2 (4 ∷ []) (4 ∷ []))
Run-InOrder_example =
    Run-InOrder D D (between [] 2 receiving [] 2 [] [])
      (between [] 2 receiving [] 2 (4 ∷ []) (4 ∷ [])) refl answered_once
