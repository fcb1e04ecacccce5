-- ===== src/Channel/Handles.antt =====
-- src/channel.rs: the handles of a channel, `Channel`, `Sender` and `Receiver`, from `Channel::new` to
-- the destruction. A `Channel` here is what a process reaches through its handle: the `Inner` in shared
-- memory, with the queue inside its mutex, and the reference counter on the heap of the process.
use shmem_util.Prelude.{
  ℕ, Bool, true, false, Option, none, some, List, [], ◌∷◌, Exec, done, ◌>>=◌, ◌>>◌, ◌==◌, Result,
  ok, err, if◌then◌else◌, checked_sub, add_usize,
}
use shmem_util.External.{DequeOps}
use shmem_util.Mutex.{Mutex, MutexGuard}
use shmem_util.Mutex
use shmem_util.Condvar.{Condvar, broadcast}
use shmem_util.Condvar
use shmem_util.ProcessRc.{
  PerProcessReferences, you_are_the_last_one, move_along, increase, decrease,
}
use shmem_util.ProcessRc

-- The loop of compare and exchange on a counter that was loaded: the list has the values that the
-- failing exchanges report, and the next exchange succeeds. The result has the value returned and,
-- where there was one, the value written.
unfoldable pub atomic_checked_sub : ℕ → List ℕ → ℕ × Option ℕ
atomic_checked_sub counter [] = elim (checked_sub counter 1) [
  | none ↦ (0, none)
  | some new_value ↦ (new_value, some new_value)
]
atomic_checked_sub counter (new_counter ∷ rest) =
    let again = atomic_checked_sub new_counter rest in
    elim (checked_sub counter 1) [ none ↦ (0, none) | some new_value ↦ again ]

abbrev pub written : ℕ → Option ℕ → ℕ
written old none = old
written old (some value) = value

-- the broadcast of a drop, only for others that are alive
abbrev pub notify : ℕ → ℕ → Exec (Unit {0})
notify alive errno = if alive == 0 then done tt else broadcast errno

-- What the calls of a drop answer: the two broadcasts, the try to lock for 30 seconds, and the
-- destruction of the mutex and of the two condition variables.
pub record DropAnswers : Type 0 where
  pub item_errno : ℕ
  pub space_errno : ℕ
  pub lock : Exec (Option MutexGuard)
  pub mutex_destroy : ℕ
  pub item_destroy : ℕ
  pub space_destroy : ℕ

-- what the calls of `Channel::new` answer, `B` being the error of the box
pub record NewAnswers (B : Type 0) : Type 0 where
  pub pid : ℕ
  pub mutex : Mutex.InitErrno
  pub item : Condvar.InitErrno
  pub space : Condvar.InitErrno
  pub boxed : Result (Unit {0}) B

-- `raw_vec::Error`, with an `Allocation` that holds the error of the box
pub data NewError (E B : Type 0) : Type 0 where
  raw_vec : E → NewError E B
  allocation : (source : B) → NewError E B

-- the fields of `Inner` that have a drop of their own
pub record Parts (Q : Type 0) : Type 0 where
  pub mutex : Mutex Q
  pub item_maybe_available : Condvar
  pub space_maybe_available : Condvar

-- `destroyed` says that the memory of `Inner` and the references have been freed.
pub record Channel (Q : Type 0) : Type 0 where
  pub parts : Parts Q
  pub references : PerProcessReferences
  pub original_pid : ℕ
  pub senders : ℕ
  pub receivers : ℕ
  pub dropping : Bool
  pub destroyed : Bool

module _ {Q : Type 0} where
  -- a channel right after `new`
  abbrev pub opened : ℕ → Parts Q → Channel Q
  opened this_pid parts = record {
    parts = parts;
    references = ProcessRc.new this_pid;
    original_pid = this_pid;
    senders = 0;
    receivers = 0;
    dropping = false;
    destroyed = false;
  }

  unfoldable pub clone : Channel Q → ℕ → Exec (Channel Q)
  clone c this_pid = do
    references ← increase c.references this_pid
    done (record c { references = references })

  unfoldable pub make_sender : Channel Q → ℕ → Exec (Channel Q)
  make_sender c this_pid = do
    c' ← clone c this_pid
    done (record c' { senders = add_usize c'.senders 1 })

  unfoldable pub make_receiver : Channel Q → ℕ → Exec (Channel Q)
  make_receiver c this_pid = do
    c' ← clone c this_pid
    done (record c' { receivers = add_usize c'.receivers 1 })

  -- `drop(inner)`: the fields are dropped in their order.
  unfoldable pub drop_parts : Parts Q → ℕ → DropAnswers → Parts Q
  drop_parts p this_pid answers = record {
    mutex = Mutex.drop p.mutex this_pid answers.mutex_destroy;
    item_maybe_available = Condvar.drop p.item_maybe_available this_pid answers.item_destroy;
    space_maybe_available = Condvar.drop p.space_maybe_available this_pid answers.space_destroy;
  }

  -- the destruction by the last reference
  unfoldable pub destroy_inner : Channel Q → ℕ → DropAnswers → Exec (Channel Q)
  destroy_inner c this_pid answers = do
    notify c.receivers answers.item_errno
    notify c.senders answers.space_errno
    _ ← answers.lock
    done (record c {
      parts = drop_parts c.parts this_pid answers;
      senders = 0;
      receivers = 0;
      dropping = true;
      destroyed = true;
    })

  unfoldable pub drop_channel : Channel Q → ℕ → DropAnswers → Exec (Channel Q)
  drop_channel c current_pid answers =
      if c.original_pid == current_pid
      then (elim ((decrease c.references current_pid).1) [
        | move_along ↦ done (record c { references = (decrease c.references current_pid).0 })
        | you_are_the_last_one ↦
            destroy_inner (record c { references = (decrease c.references current_pid).0 })
              current_pid answers
      ])
      else done c

  -- `Channel::destroy`, from any process
  unfoldable pub destroy : Channel Q → ℕ → DropAnswers → Exec (Channel Q)
  destroy c this_pid answers = drop_channel (record c { original_pid = this_pid }) this_pid answers

  -- `Sender::drop`, and then the drop of its channel; the list is for `atomic_checked_sub`.
  unfoldable pub drop_sender : Channel Q → ℕ → List ℕ → DropAnswers → Exec (Channel Q)
  drop_sender c current_pid seen answers = do
    if (atomic_checked_sub c.senders seen).0 == 0 then broadcast answers.item_errno else done tt
    drop_channel (record c { senders = written c.senders (atomic_checked_sub c.senders seen).1 })
        current_pid answers

  unfoldable pub drop_receiver : Channel Q → ℕ → List ℕ → DropAnswers → Exec (Channel Q)
  drop_receiver c current_pid seen answers = do
    if (atomic_checked_sub c.receivers seen).0 == 0 then broadcast answers.space_errno else done tt
    drop_channel
        (record c { receivers = written c.receivers (atomic_checked_sub c.receivers seen).1 })
        current_pid answers

module _ {T : Type 0} (D : DequeOps T) where
  -- `Channel::new`; the queue goes into the mutex, and the box may fail.
  unfoldable pub new :
      {B : Type 0} → ℕ → NewAnswers B → Exec (Result (Channel D.Deque) (NewError D.Error B))
  new capacity sys = elim (D.with_capacity_in capacity) [
    | err e ↦ done (err (raw_vec e))
    | ok queue ↦ do
      mutex ← Mutex.new queue sys.pid sys.mutex
      item ← Condvar.new sys.pid sys.item
      space ← Condvar.new sys.pid sys.space
      elim sys.boxed [
        | err e ↦ done (err (allocation e))
        | ok _ ↦ done (
            ok (
              opened sys.pid (record {
                mutex = mutex;
                item_maybe_available = item;
                space_maybe_available = space;
              })))
      ]
  ]
