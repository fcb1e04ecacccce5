-- ===== src/Tests/Fifo.antt =====
-- A history of a channel with room for two numbers: two calls that send and one that receives.
use shmem_util.Prelude.{ℕ, ◌≡◌, refl, Bool, false, Option, some, List, [], ◌∷◌, ◌++◌, done}
use shmem_util.External.{DequeOps}
use shmem_util.External.Instances.{list_deque}
use shmem_util.Mutex.{MutexGuard, guard}
use shmem_util.Condvar
use shmem_util.Channel.Inner.{Sight, acquire, push, pop, receive, try_send, try_send_once}
use shmem_util.Channel.Calls.{
  puts, takes, Call, receives, sends, tries_send_once, perform, History, opened, next,
}
use shmem_util.Channel.Fifo.{History-fifo}

abbrev pub D : DequeOps ℕ
D = list_deque ℕ

abbrev pub holding : List ℕ → ℕ → D.Deque
holding items spare = record { items = items; spare = spare }

-- a look at that queue, with one peer
abbrev pub seen : List ℕ → ℕ → Sight D
seen items spare = record {
  dropping = false;
  lock = some guard;
  first = record { queue = holding items spare; peers = 1; dropping = false };
  wakes = [];
  peers = 1;
  leaving = false;
  signal_errno = record { item = 0; space = 0 };
}

abbrev pub at_once : List (Bool × Option MutexGuard)
at_once = (false, some guard) ∷ []

abbrev sends_four : Call D
sends_four = sends 4 at_once (seen [] 2)

abbrev sends_five : Call D
sends_five = tries_send_once 5 (seen (4 ∷ []) 1)

abbrev takes_four : Call D
takes_four = receives at_once (seen (4 ∷ 5 ∷ []) 0)

sent_four : perform D sends_four ≡ done (puts 4, some (holding [] 2, holding (4 ∷ []) 1))
unfolding perform try_send acquire Condvar.wait push
sent_four = refl

sent_five : perform D sends_five ≡ done (puts 5, some (holding (4 ∷ []) 1, holding (4 ∷ 5 ∷ []) 0))
unfolding perform try_send_once push
sent_five = refl

took_four : perform D takes_four ≡ done (takes 4, some (holding (4 ∷ 5 ∷ []) 0, holding (5 ∷ []) 1))
unfolding perform receive acquire Condvar.wait pop
took_four = refl

one_sent : History D (holding [] 2) (holding (4 ∷ []) 1) [] (4 ∷ [])
one_sent =
    next opened sends_four (puts 4) (some (holding [] 2, holding (4 ∷ []) 1)) (holding (4 ∷ []) 1)
      sent_four (refl, refl)

two_sent : History D (holding [] 2) (holding (4 ∷ 5 ∷ []) 0) [] (4 ∷ 5 ∷ [])
two_sent =
    next one_sent sends_five (puts 5) (some (holding (4 ∷ []) 1, holding (4 ∷ 5 ∷ []) 0))
      (holding (4 ∷ 5 ∷ []) 0) sent_five (refl, refl)

one_taken : History D (holding [] 2) (holding (5 ∷ []) 1) (4 ∷ []) (4 ∷ 5 ∷ [])
one_taken =
    next two_sent takes_four (takes 4) (some (holding (4 ∷ 5 ∷ []) 0, holding (5 ∷ []) 1))
      (holding (5 ∷ []) 1) took_four (refl, refl)

abbrev four_five : List ℕ
four_five = 4 ∷ 5 ∷ []

abbrev got_four : List ℕ
got_four = 4 ∷ []

abbrev left_five : List ℕ
left_five = 5 ∷ []

History-fifo_example : [] ++ four_five ≡ got_four ++ left_five
History-fifo_example = History-fifo D one_taken
