-- ===== src/Tests/Handles.antt =====
-- The handles of a channel: in one process, among several, and the counter of senders among others.
use shmem_util.Prelude.{
  ℕ, zero, suc, ◌≡◌, refl, true, false, some, List, [], ◌∷◌, done, ok, Ends, get_elem?, arith,
}
use shmem_util.External.{DequeOps}
use shmem_util.External.Instances.{list_deque}
use shmem_util.Mutex.{guard}
use shmem_util.ProcessRc.{decrease, you_are_the_last_one}
use shmem_util.Channel.Handles.{Channel, Parts, DropAnswers, NewAnswers, opened, destroy}
use shmem_util.Channel.Lifetime.{
  Live, Use, makes_sender, makes_receiver, drops_channel, drops_sender, drops_receiver, Fine,
  MadeBy, counted, run, run-opened,
}
use shmem_util.Channel.Opening.{destroy_leaks}
use shmem_util.Channel.Processes
use shmem_util.Channel.Processes.{Proc, System, Step, uses, forks, advance}
use shmem_util.Channel.Processes.Counted.{Counted}
use shmem_util.Channel.Processes.Counts.{Followed, run-Counted}
use shmem_util.Channel.Processes.Destroyed.{destroyed_in_use}
use shmem_util.Channel.Processes.Moved.{moved, moved_sender_leaks}

abbrev quiet : DropAnswers
quiet = record {
  item_errno = 0;
  space_errno = 0;
  lock = done (some guard);
  mutex_destroy = 0;
  item_destroy = 0;
  space_destroy = 0;
}

quiet-Fine : Fine quiet
quiet-Fine = record {
  item = refl;
  space = refl;
  ends = (some guard, refl);
  mutex_gone = refl;
  item_gone = refl;
  space_gone = refl;
}

abbrev D : DequeOps ℕ
D = list_deque ℕ

abbrev parts : Parts D.Deque
parts = record {
  mutex = record {
    pshared = true;
    contents = record { items = []; spare = 2 };
    creator_pid = 7;
    destroyed = false;
    dropped = false;
  };
  item_maybe_available = record {
    attr = record { pshared = true; monotonic = true };
    creator_pid = 7;
    destroyed = false;
  };
  space_maybe_available = record {
    attr = record { pshared = true; monotonic = true };
    creator_pid = 7;
    destroyed = false;
  };
}

made : MadeBy 7 parts
made = record { mutex = refl; item = refl; space = refl }

abbrev history : List (Use × DropAnswers)
history =
    (makes_sender, quiet)
    ∷ (makes_receiver, quiet)
    ∷ (drops_channel, quiet)
    ∷ (drops_sender, quiet)
    ∷ (drops_receiver, quiet)
    ∷ []

abbrev none_left : Live
none_left = record { channels = 0; senders = 0; receivers = 0 }

run-opened_example : run 7 (opened 7 parts) history ≡ done (counted 7 parts made none_left)
run-opened_example =
    run-opened 7 parts made none_left history
      (quiet-Fine, (quiet-Fine, (quiet-Fine, (quiet-Fine, (quiet-Fine, tt))))) (omega arith) refl

-- an opening at which nothing fails
abbrev opening : NewAnswers (Unit {0})
opening = record {
  pid = 7;
  mutex = record { attr_init = 0; setpshared = 0; mutex_init = 0 };
  item = record { attr_init = 0; setpshared = 0; setclock = 0; cond_init = 0 };
  space = record { attr_init = 0; setpshared = 0; setclock = 0; cond_init = 0 };
  boxed = ok tt;
}

-- process 8 has the last reference of its own
abbrev last_handle : Channel D.Deque
last_handle = record (opened 7 parts) { references = record { counter = 1; pid = 8 } }

is_last : (decrease last_handle.references 8).1 ≡ you_are_the_last_one
unfolding decrease
is_last = refl

destroy_leaks_example :
    Ends (destroy last_handle 8 quiet) (λ c. (c.destroyed ≡ true) × (c.parts ≡ parts))
destroy_leaks_example = destroy_leaks last_handle 7 8 quiet made (omega arith) is_last quiet-Fine

-- the owner, and process 8, which has a channel and two senders
abbrev parent : Proc
parent = record {
  pid = 7;
  references = record { counter = 1; pid = 7 };
  live = record { channels = 1; senders = 0; receivers = 0 };
}

abbrev child : Proc
child = record {
  pid = 8;
  references = record { counter = 3; pid = 8 };
  live = record { channels = 1; senders = 2; receivers = 0 };
}

abbrev pair : System D.Deque
pair = record {
  parts = parts;
  owner = 7;
  senders = 2;
  receivers = 0;
  dropping = false;
  destroyed = false;
  procs = parent ∷ child ∷ [];
}

pair-Counted : Counted 0 3 pair
pair-Counted = record {
  senders = refl;
  receivers = refl;
  up = refl;
  stands = refl;
  each = (
    ((omega arith, omega arith), λ e. refl),
    (((omega arith, omega arith), λ e. absurd (omega arith)), tt),
  );
  senders_small = omega arith;
  receivers_small = omega arith;
}

abbrev steps : List Step
steps = forks 0 9 ∷ uses 1 makes_receiver quiet ∷ uses 2 drops_sender quiet ∷ []

run-Counted_example : Followed 0 pair steps
run-Counted_example =
    run-Counted 0 pair steps pair-Counted
      (λ e. absurd (omega arith), (quiet-Fine, (quiet-Fine, tt)))

destroyed_in_use_example :
    Ends
      (advance pair (uses 0 drops_channel quiet))
      (λ s. (s.destroyed ≡ true) × (get_elem? s.procs 1 ≡ some child))
destroyed_in_use_example =
    destroyed_in_use 2 pair 0 1 parent child quiet pair-Counted quiet-Fine refl refl refl
      (omega arith) refl (omega arith)

-- the owner, with a channel and a sender that it gives away
abbrev giver : Proc
giver = record {
  pid = 7;
  references = record { counter = 2; pid = 7 };
  live = record { channels = 1; senders = 1; receivers = 0 };
}

abbrev before : System D.Deque
before = record pair { senders = 3; procs = giver ∷ child ∷ [] }

before-Counted : Counted 0 2 before
before-Counted = record {
  senders = refl;
  receivers = refl;
  up = refl;
  stands = refl;
  each = (
    ((omega arith, omega arith), λ e. refl),
    (((omega arith, omega arith), λ e. absurd (omega arith)), tt),
  );
  senders_small = omega arith;
  receivers_small = omega arith;
}

only_owner : (m : ℕ) (p : Proc) → get_elem? before.procs m ≡ some p → p.pid ≡ 7 → m ≡ 0
only_owner zero p e mine = refl
only_owner (suc zero) p e mine = ground arith
only_owner (suc (suc m)) p e mine = absurd (ground arith)

-- both drop what they have: the owner its channel, and the other process a sender
abbrev drops : List Step
drops = uses 0 drops_channel quiet ∷ uses 1 drops_sender quiet ∷ []

moved_sender_leaks_example :
    Ends (Processes.run (moved before 0 1 giver child) drops) (λ s. s.destroyed ≡ false)
moved_sender_leaks_example =
    moved_sender_leaks 0 before 0 1 giver child drops before-Counted refl refl (omega arith) refl
      only_owner (omega arith) (quiet-Fine, (quiet-Fine, tt))
