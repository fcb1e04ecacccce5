-- ===== src/Channel/Calls.antt =====
-- The calls of src/channel.rs that touch the queue, under one type, and the abstract queue that they
-- are to implement: a list that items join at the back and leave at the front.
use shmem_util.Prelude.{
  ◌≡◌, Bool, Option, none, some, List, [], ◌∷◌, ◌++◌, Exec, done, ◌>>=◌, Result, ok, err,
}
use shmem_util.External.{DequeOps}
use shmem_util.Mutex.{MutexGuard}
use shmem_util.Channel.Inner.{
  TryReceiveError, Deadline, Sight, Outcome, receive, try_receive_until, try_receive_once, try_send,
  try_send_until, try_send_once,
}

-- what a call does to the abstract queue
pub data Effect (T : Type 0) : Type 0 where
  nothing : Effect T
  puts : T → Effect T
  takes : T → Effect T

module _ {T : Type 0} where
  -- One step of the abstract queue.
  abbrev pub QueueStep : List T → Effect T → List T → Type 0
  QueueStep xs nothing ys = ys ≡ xs
  QueueStep xs (puts x) ys = ys ≡ xs ++ x ∷ []
  QueueStep xs (takes x) ys = xs ≡ x ∷ ys

  -- the items that a call put in, and those that it got
  abbrev pub put_by : Effect T → List T
  put_by nothing = []
  put_by (puts x) = x ∷ []
  put_by (takes x) = []

  abbrev pub got_by : Effect T → List T
  got_by nothing = []
  got_by (puts x) = []
  got_by (takes x) = x ∷ []

  abbrev pub of_option : Option T → Effect T
  of_option none = nothing
  of_option (some x) = takes x

  abbrev pub of_receive : Result T TryReceiveError → Effect T
  of_receive (ok x) = takes x
  of_receive (err e) = nothing

  abbrev pub of_send {κ} : {E : Type κ} → T → Result (Unit {0}) E → Effect T
  of_send x (ok _) = puts x
  of_send x (err e) = nothing

module _ {T : Type 0} (D : DequeOps T) where
  -- A call with all that it sees.
  pub data Call : Type 0 where
    receives : List (Bool × Option MutexGuard) → Sight D → Call
    tries_receive_until : Deadline → Sight D → Call
    tries_receive_once : Sight D → Call
    sends : T → List (Bool × Option MutexGuard) → Sight D → Call
    tries_send_until : T → Deadline → Sight D → Call
    tries_send_once : T → Sight D → Call

  -- the queue under the lock, before and after, where the call changed it
  abbrev pub Touched : Type 0
  Touched = Option (D.Deque × D.Deque)

  abbrev pub event : {R : Type 0} → (R → Effect T) → Exec (Outcome D R) → Exec (Effect T × Touched)
  event effect run = do o ← run; done (effect o.answer, o.touched)

  -- What a caller is answered, as an effect.
  unfoldable pub perform : Call → Exec (Effect T × Touched)
  perform (receives rounds s) = event of_option (receive D rounds s)
  perform (tries_receive_until t s) = event of_receive (try_receive_until D t s)
  perform (tries_receive_once s) = event of_receive (try_receive_once D s)
  perform (sends x rounds s) = event (of_send x) (try_send D x rounds s)
  perform (tries_send_until x t s) = event (of_send x) (try_send_until D x t s)
  perform (tries_send_once x s) = event (of_send x) (try_send_once D x s)

  -- The call found the queue `q` under the lock, and left `q'`.
  abbrev pub Finds : D.Deque → Touched → D.Deque → Type 0
  Finds q none q' = q' ≡ q
  Finds q (some (before, after)) q' = (before ≡ q) × (q' ≡ after)

  -- Calls of any senders and receivers, in the order in which they had the lock, with the items got
  -- and put so far.
  pub data History (start : D.Deque) : D.Deque → List T → List T → Type 0 where
    opened : History start start [] []
    next :
        {q : D.Deque} {got put : List T}
        → History start q got put
        → (c : Call) (effect : Effect T) (touched : Touched) (q' : D.Deque)
        → perform c ≡ done (effect, touched)
        → Finds q touched q'
        → History start q' (got ++ got_by effect) (put ++ put_by effect)
