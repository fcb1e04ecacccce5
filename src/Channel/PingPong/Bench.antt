-- ===== src/Channel/PingPong/Bench.antt =====
-- benches/queue.rs: the function `bench` for one request, in its main thread and that of its server, on
-- handles of one process. Of the server's ends the originals are dropped once it is spawned, and the
-- client's once the measuring is over; then the server is waited for.
pub mod Staged
pub mod Laws
use shmem_util.Prelude.{
  ℕ, Bool, true, false, Option, none, some, List, [], ◌∷◌, Exec, done, panic, ◌>>=◌,
}
use shmem_util.External.{DequeOps}
use shmem_util.Channel.Lifetime.{
  Use, makes_sender, makes_receiver, drops_sender, drops_receiver, drops_channel,
}
use shmem_util.Channel.Line.{Line, fresh, handle, sends, receives, receives_none}
use shmem_util.Threads.{World, start, waits}

abbrev pub pid : ℕ
pid = 1

-- The two channels, the item that the server has, what the client was answered, and whether the server has
-- ended.
pub record Shared (Q R X : Type 0) : Type 0 where
  pub requests : Line Q
  pub responses : Line R
  pub carried : Option X
  pub answered : Option X
  pub exited : Bool

abbrev pub with_handles : {Q : Type 0} → List Use → Line Q → Exec (Line Q)
with_handles [] l = done l
with_handles (u ∷ us) l = do l' ← handle 0 u l; with_handles us l'

module _ {Q R X : Type 0} where
  abbrev pub on_requests : (Line Q → Exec (Line Q)) → Shared Q R X → Exec (Shared Q R X)
  on_requests call s = do requests ← call s.requests; done (record s { requests = requests })

  abbrev pub on_responses : (Line R → Exec (Line R)) → Shared Q R X → Exec (Shared Q R X)
  on_responses call s = do responses ← call s.responses; done (record s { responses = responses })

  abbrev pub takes : (Line Q → Exec (X × Line Q)) → Shared Q R X → Exec (Shared Q R X)
  takes call s = do
    (x, requests) ← call s.requests
    done (record s { requests = requests; carried = some x })

  abbrev pub gets : (Line R → Exec (X × Line R)) → Shared Q R X → Exec (Shared Q R X)
  gets call s = do
    (x, responses) ← call s.responses
    done (record s { responses = responses; answered = some x })

  -- `responds.send(Response(item))`
  abbrev pub responds : (X → Line R → Exec (Line R)) → Shared Q R X → Exec (Shared Q R X)
  responds call s = elim s.carried [
    | none ↦ panic
    | some x ↦ do responses ← call x s.responses; done (record s { responses = responses })
  ]

  abbrev pub joins : Shared Q R X → Exec (Shared Q R X)
  joins = waits (λ s. s.exited)

  abbrev pub exits : Shared Q R X → Exec (Shared Q R X)
  exits s = done (record s { exited = true })

  -- both channels with their ends, and with those that are cloned for the server
  abbrev pub opened : Q → R → Exec (Shared Q R X)
  opened queue replies = do
    requests ←
        with_handles (makes_receiver ∷ makes_sender ∷ makes_receiver ∷ [])
          (record { handles = fresh pid; queue = queue })
    responses ←
        with_handles (makes_receiver ∷ makes_sender ∷ makes_sender ∷ [])
          (record { handles = fresh pid; queue = replies })
    done (record {
      requests = requests;
      responses = responses;
      carried = none;
      answered = none;
      exited = false;
    })

module _ {T : Type 0} (D R : DequeOps T) where
  unfoldable pub bench : T → D.Deque → R.Deque → Exec (World (Shared D.Deque R.Deque T))
  bench item queue replies = do
    shared ← opened queue replies
    done (
        start shared
          (on_requests (handle 0 drops_receiver)
            ∷ on_responses (handle 0 drops_sender)
            ∷ on_requests (sends D item)
            ∷ gets (receives R)
            ∷ on_requests (handle 0 drops_sender)
            ∷ on_responses (handle 0 drops_receiver)
            ∷ joins
            ∷ on_responses (handle 0 drops_channel)
            ∷ on_requests (handle 0 drops_channel)
            ∷ [])
          (takes (receives D)
            ∷ responds (sends R)
            ∷ on_requests (receives_none D)
            ∷ on_requests (handle 0 drops_receiver)
            ∷ on_responses (handle 0 drops_sender)
            ∷ exits
            ∷ []))
