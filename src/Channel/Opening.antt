-- ===== src/Channel/Opening.antt =====
-- The two ends of a channel of src/channel.rs: `Channel::new`, and `Channel::destroy` by a process that
-- did not make the channel.
use shmem_util.Prelude.{ℕ, ◌≤◌, ◌≡◌, ◌≢◌, refl, true, false, [], done, Ends, Result, ok, err, arith}
use shmem_util.External.{DequeOps}
use shmem_util.Mutex
use shmem_util.Condvar
use shmem_util.Condvar.Laws.{all_errno}
use shmem_util.Allocator.Start.{NoErrno}
use shmem_util.ProcessRc.Laws.{same_pid}
use shmem_util.ProcessRc.{decrease, you_are_the_last_one}
use shmem_util.Channel.Handles.{
  Channel, Parts, DropAnswers, NewAnswers, NewError, raw_vec, allocation, opened, new, destroy,
  drop_channel, destroy_inner, drop_parts,
}
use shmem_util.Channel.Lifetime.{MadeBy, Fine, notify_fine}

module _ {T : Type 0} (D : DequeOps T) where
  -- an empty queue behind a mutex and two condition variables that processes share
  pub record Fresh (capacity pid : ℕ) (queue : D.Deque) (parts : Parts D.Deque) : Type 0 where
    pub made : MadeBy pid parts
    pub contents : parts.mutex.contents ≡ queue
    pub empty : D.items queue ≡ []
    pub room : capacity ≤ D.capacity queue
    pub mutex_shared : parts.mutex.pshared ≡ true
    pub item_attr : parts.item_maybe_available.attr ≡ record { pshared = true; monotonic = true }
    pub space_attr : parts.space_maybe_available.attr ≡ record { pshared = true; monotonic = true }

  -- The first failure, of the queue or else of the box, or else a channel without handles but one.
  abbrev pub Made :
      {B : Type 0}
      → ℕ
      → NewAnswers B
      → Result D.Deque D.Error
      → Result (Unit {0}) B
      → Result (Channel D.Deque) (NewError D.Error B)
      → Type 0
  Made capacity sys (err e) boxed r = r ≡ err (raw_vec e)
  Made capacity sys (ok queue) (err e) r = r ≡ err (allocation e)
  Made capacity sys (ok queue) (ok _) r =
      (parts : Parts D.Deque) × (r ≡ ok (opened sys.pid parts)) × Fresh capacity sys.pid queue parts

  abbrev pub AllFine : {B : Type 0} → NewAnswers B → Type 0
  AllFine sys = NoErrno sys.mutex × (all_errno sys.item ≡ 0) × (all_errno sys.space ≡ 0)

  abbrev parts_of : ℕ → D.Deque → Parts D.Deque
  parts_of pid queue = record {
    mutex = record {
      pshared = true;
      contents = queue;
      creator_pid = pid;
      destroyed = false;
      dropped = false;
    };
    item_maybe_available = record {
      attr = record { pshared = true; monotonic = true };
      creator_pid = pid;
      destroyed = false;
    };
    space_maybe_available = record {
      attr = record { pshared = true; monotonic = true };
      creator_pid = pid;
      destroyed = false;
    };
  }

  mutex_lem :
      (q : D.Deque) (pid : ℕ) (e : Mutex.InitErrno)
      → NoErrno e
      → Mutex.new q pid e ≡ done ((parts_of pid q).mutex)
  unfolding Mutex.new
  mutex_lem q pid e fine = ground arith

  condvar_lem :
      (q : D.Deque) (pid : ℕ) (e : Condvar.InitErrno)
      → all_errno e ≡ 0
      → Condvar.new pid e ≡ done ((parts_of pid q).item_maybe_available)
  unfolding Condvar.new
  condvar_lem q pid e fine = ground arith

  -- Where no pthread call fails, `Channel::new` ends without a panic: with the error of the
  -- queue, else with that of the box, else with a channel that has an empty queue of at least
  -- the capacity in a mutex that processes share, two condition variables that are shared and
  -- measure time on the monotonic clock, and one reference of the calling process.
  pub new-Made :
      {B : Type 0} (capacity : ℕ) (sys : NewAnswers B) (made : Result D.Deque D.Error)
      (boxed : Result (Unit {0}) B)
      → AllFine sys
      → D.with_capacity_in capacity ≡ made
      → sys.boxed ≡ boxed
      → Ends (new D capacity sys) (Made capacity sys made boxed)
  unfolding new
  new-Made capacity sys (err e) boxed fine em eb = (err (raw_vec e), rw (em, new) refl, refl)
  new-Made capacity sys (ok q) (err b) (mutex, item, space) em eb = (
    err (allocation b),
    rw
        (
          em,
          new,
          mutex_lem q sys.pid sys.mutex mutex,
          condvar_lem q sys.pid sys.item item,
          condvar_lem q sys.pid sys.space space,
          eb,
        )
        refl,
    refl,
  )
  new-Made capacity sys (ok q) (ok _) (mutex, item, space) em eb =
      let (empty, room) = D.with_capacity_in_ok capacity q em in
      (
        ok (opened sys.pid (parts_of sys.pid q)),
        rw
            (
              em,
              new,
              mutex_lem q sys.pid sys.mutex mutex,
              condvar_lem q sys.pid sys.item item,
              condvar_lem q sys.pid sys.space space,
              eb,
            )
            refl,
        (
          parts_of sys.pid q,
          refl,
          record {
            made = record { mutex = refl; item = refl; space = refl };
            contents = refl;
            empty = empty;
            room = room;
            mutex_shared = refl;
            item_attr = refl;
            space_attr = refl;
          },
        ),
      )

module _ {Q : Type 0} where
  kept :
      (parts : Parts Q) (maker this_pid : ℕ) (a : DropAnswers)
      → MadeBy maker parts
      → maker ≢ this_pid
      → drop_parts parts this_pid a ≡ parts
  unfolding drop_parts Mutex.drop Condvar.drop
  kept parts maker this_pid a made other = ground arith

  -- `Channel::destroy` of the last reference, in another process than the one that made the
  -- mutex and the condition variables, ends without a panic, where the calls of its drop do not
  -- fail: the memory is freed, and the mutex, its queue and the condition variables are neither
  -- destroyed nor dropped.
  pub destroy_leaks :
      (c : Channel Q) (maker this_pid : ℕ) (a : DropAnswers)
      → MadeBy maker c.parts
      → maker ≢ this_pid
      → (decrease c.references this_pid).1 ≡ you_are_the_last_one
      → Fine a
      → Ends (destroy c this_pid a) (λ c'. (c'.destroyed ≡ true) × (c'.parts ≡ c.parts))
  unfolding destroy drop_channel destroy_inner
  destroy_leaks c maker this_pid a made other last fine =
      let (g, locked) = fine.ends in
      (
        record {
          parts = drop_parts c.parts this_pid a;
          references = (decrease c.references this_pid).0;
          original_pid = this_pid;
          senders = 0;
          receivers = 0;
          dropping = true;
          destroyed = true;
        },
        simp
            (
              same_pid this_pid,
              last,
              notify_fine c.receivers a.item_errno fine.item,
              notify_fine c.senders a.space_errno fine.space,
              locked,
            )
            refl,
        (refl, kept c.parts maker this_pid a made other),
      )
