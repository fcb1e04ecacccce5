-- ===== src/Channel/PingPong.antt =====
-- benches/queue.rs: the server that sends back what it receives, and its client, over two channels. A call
-- is a step of its own, in the order in which the calls have the locks; the server is the one that
-- receives requests and sends responses. `Request` and `Response` only wrap their item.
pub mod Laws
pub mod Bench
use shmem_util.Prelude.{
  ◌≡◌, Bool, Option, none, some, List, [], ◌∷◌, ◌++◌, Exec, done, Result, ok, err,
}
use shmem_util.External.{DequeOps}
use shmem_util.Mutex.{MutexGuard}
use shmem_util.Channel.Inner.{Sight, Outcome, receive, try_send}
use shmem_util.Channel.Calls.{put_by, got_by, of_option, of_send, Finds}

-- where the server stands: in `receive`, with an item to send back, done as no sender is left, or out of
-- its loop with an item that could not be sent
pub data Server (T : Type 0) : Type 0 where
  receiving : Server T
  sending : T → Server T
  finished : Server T
  broken : T → Server T

-- the tries of a lock, with what `dropping` is before each
abbrev pub Rounds : Type 0
Rounds = List (Bool × Option MutexGuard)

module _ {T : Type 0} where
  -- `while let Some(Request(item))`
  abbrev pub requested : Option T → Server T
  requested none = finished
  requested (some item) = sending item

  -- `if ... .is_err() { break }`
  abbrev pub responded : T → Result (Unit {0}) T → Server T
  responded item (ok _) = receiving
  responded item (err returned) = broken item

module _ {T : Type 0} (R S : DequeOps T) where
  -- The queues of requests and of responses, what the client has sent, and what it was answered.
  pub record State : Type 0 where
    pub requests : R.Deque
    pub responses : S.Deque
    pub server : Server T
    pub sent : List T
    pub answered : List T

  -- A call with what it sees; it finds the queue as the calls before it have left it.
  pub data Step (s : State) : State → Type 0 where
    asks :
        (item : T) (rounds : Rounds) (sight : Sight R) (o : Outcome R (Result (Unit {0}) T))
        (queue : R.Deque)
        → try_send R item rounds sight ≡ done o
        → Finds R s.requests o.touched queue
        → Step s (record s { requests = queue; sent = s.sent ++ put_by (of_send item o.answer) })
    takes_request :
        (rounds : Rounds) (sight : Sight R) (o : Outcome R (Option T)) (queue : R.Deque)
        → s.server ≡ receiving
        → receive R rounds sight ≡ done o
        → Finds R s.requests o.touched queue
        → Step s (record s { requests = queue; server = requested o.answer })
    responds :
        (item : T) (rounds : Rounds) (sight : Sight S) (o : Outcome S (Result (Unit {0}) T))
        (queue : S.Deque)
        → s.server ≡ sending item
        → try_send S item rounds sight ≡ done o
        → Finds S s.responses o.touched queue
        → Step s (record s { responses = queue; server = responded item o.answer })
    takes_response :
        (rounds : Rounds) (sight : Sight S) (o : Outcome S (Option T)) (queue : S.Deque)
        → receive S rounds sight ≡ done o
        → Finds S s.responses o.touched queue
        → Step s
            (record s { responses = queue; answered = s.answered ++ got_by (of_option o.answer) })

  pub data Run (start : State) : State → Type 0 where
    started : Run start start
    next : {s t : State} → Run start s → Step s t → Run start t
