-- ===== src/Channel/Lifetime.antt =====
-- Who is counted, and who destroys: the handles of src/channel.rs through any history of one process.
use shmem_util.Prelude.{
  ℕ, zero, suc, ◌+◌, ◌-◌, ◌≤◌, ◌<◌, ◌≡◌, ◌⊎◌, inl, inr, refl, false, true, Option, none, some, List,
  [], ◌∷◌, All, length, Exec, done, ◌>>=◌, ◌==◌, if◌then◌else◌, usize_mod, Bool-cases, Option-cases,
  arith,
}
use mathlib.Core.Path.{subst, sym}
use shmem_util.Mutex.{MutexGuard}
use shmem_util.ProcessRc.{
  PerProcessReferences, you_are_the_last_one, move_along, increase, decrease,
}
use shmem_util.Mutex
use shmem_util.Condvar
use shmem_util.ProcessRc
use shmem_util.ProcessRc.Laws.{same_pid, decrease_last, increase_same}
use shmem_util.Channel.Handles.{
  opened, Channel, Parts, drop_parts, DropAnswers, clone, make_sender, make_receiver,
  atomic_checked_sub, notify, destroy_inner, drop_channel, drop_sender, drop_receiver,
}

-- `v` is the value that was loaded or one of those reported.
abbrev pub OneOf : ℕ → ℕ → List ℕ → Type 0
OneOf v counter [] = v ≡ counter
OneOf v counter (x ∷ xs) = (v ≡ counter) ⊎ OneOf v x xs

-- `atomic_checked_sub`, when all the exchanges fail that report the values of a list and the
-- next succeeds, ends at one of the values that it was told: at zero it writes nothing and
-- answers zero, and at another value it writes and answers one less.
pub atomic_checked_sub_lem :
    (counter : ℕ) (seen : List ℕ)
    → (v : ℕ) × OneOf v counter seen
      × ((v ≡ 0) × (atomic_checked_sub counter seen ≡ (0, none))
          ⊎ (0 < v) × (atomic_checked_sub counter seen ≡ (v - 1, some (v - 1))))
unfolding atomic_checked_sub
atomic_checked_sub_lem zero [] = (0, refl, inl (refl, refl))
atomic_checked_sub_lem (suc n) [] = (suc n, refl, inr (omega arith, ground arith))
atomic_checked_sub_lem zero (x ∷ xs) = (0, inl refl, inl (refl, refl))
atomic_checked_sub_lem (suc n) (x ∷ xs) =
    let (v, among, result) = atomic_checked_sub_lem x xs in (v, inr among, ground arith)

-- the handles of the process that are alive
pub record Live : Type 0 where
  pub channels : ℕ
  pub senders : ℕ
  pub receivers : ℕ

abbrev pub tally : Live → ℕ
tally l = l.channels + (l.senders + l.receivers)

pub data Use : Type 0 where
  clones makes_sender makes_receiver drops_channel drops_sender drops_receiver : Use

abbrev pub one_less : ℕ → Option ℕ
one_less zero = none
one_less (suc n) = some n

-- what a use makes of the live handles: a new one needs one that is alive
abbrev pub used : Live → Use → Option Live
used l clones = if tally l == 0 then none else some (record l { channels = suc l.channels })
used l makes_sender = if tally l == 0 then none else some (record l { senders = suc l.senders })
used l makes_receiver =
    if tally l == 0 then none else some (record l { receivers = suc l.receivers })
used l drops_channel = elim (one_less l.channels) [
  | none ↦ none
  | some n ↦ some (record l { channels = n })
]
used l drops_sender = elim (one_less l.senders) [
  | none ↦ none
  | some n ↦ some (record l { senders = n })
]
used l drops_receiver = elim (one_less l.receivers) [
  | none ↦ none
  | some n ↦ some (record l { receivers = n })
]

-- the calls of a drop that do not fail
pub record Fine (a : DropAnswers) : Type 0 where
  pub item : a.item_errno ≡ 0
  pub space : a.space_errno ≡ 0
  pub ends : (g : Option MutexGuard) × (a.lock ≡ done g)
  pub mutex_gone : a.mutex_destroy ≡ 0
  pub item_gone : a.item_destroy ≡ 0
  pub space_gone : a.space_destroy ≡ 0

pub notify_fine : (alive errno : ℕ) → errno ≡ 0 → notify alive errno ≡ done tt
notify_fine alive errno e = ground arith

abbrev pub used_all : Live → List (Use × DropAnswers) → Option Live
used_all l [] = some l
used_all l ((u, a) ∷ us) = elim (used l u) [ none ↦ none | some l' ↦ used_all l' us ]

tally-used : (l l' : Live) (u : Use) → used l u ≡ some l' → tally l' ≤ tally l + 1
tally-used l l' clones e = ground arith
tally-used l l' makes_sender e = ground arith
tally-used l l' makes_receiver e = ground arith
tally-used l l' drops_channel e = ground arith
tally-used l l' drops_sender e = ground arith
tally-used l l' drops_receiver e = ground arith

pub decrease_many :
    (p t : ℕ)
    → 0 < t
    → suc t < usize_mod
    → decrease (record { counter = suc t; pid = p }) p
      ≡ (record { counter = t; pid = p }, move_along)
unfolding decrease
decrease_many p t some_left small = ground arith

abbrev nobody : Live
nobody = record { channels = 0; senders = 0; receivers = 0 }

module _ {Q : Type 0} where
  unfoldable pub serve : ℕ → Channel Q → Use → DropAnswers → Exec (Channel Q)
  serve p c clones a = clone c p
  serve p c makes_sender a = make_sender c p
  serve p c makes_receiver a = make_receiver c p
  serve p c drops_channel a = drop_channel c p a
  serve p c drops_sender a = drop_sender c p [] a
  serve p c drops_receiver a = drop_receiver c p [] a

  unfoldable pub run : ℕ → Channel Q → List (Use × DropAnswers) → Exec (Channel Q)
  run p c [] = done c
  run p c ((u, a) ∷ us) = do c' ← serve p c u a; run p c' us

  -- the fields of `Inner` after the process that made them has dropped them
  abbrev pub gone : Parts Q → Parts Q
  gone parts = record {
    mutex = record parts.mutex { destroyed = true; dropped = true };
    item_maybe_available = record parts.item_maybe_available { destroyed = true };
    space_maybe_available = record parts.space_maybe_available { destroyed = true };
  }

  pub record MadeBy (p : ℕ) (parts : Parts Q) : Type 0 where
    pub mutex : parts.mutex.creator_pid ≡ p
    pub item : parts.item_maybe_available.creator_pid ≡ p
    pub space : parts.space_maybe_available.creator_pid ≡ p

  pub drop_parts-gone :
      (p : ℕ) (parts : Parts Q) (a : DropAnswers)
      → MadeBy p parts
      → Fine a
      → drop_parts parts p a ≡ gone parts
  unfolding drop_parts Mutex.drop Condvar.drop
  drop_parts-gone p parts a made fine = ground arith

  module _ (p : ℕ) (parts : Parts Q) (made : MadeBy p parts) where
    -- The channel that fits the live handles: counted while there are any, and destroyed after.
    abbrev pub counted : Live → Channel Q
    counted l = record {
      parts = if tally l == 0 then gone parts else parts;
      references = record { counter = tally l; pid = p };
      original_pid = p;
      senders = l.senders;
      receivers = l.receivers;
      dropping = tally l == 0;
      destroyed = tally l == 0;
    }

    -- the channel of a process that has one handle more than `l` tells
    abbrev one_more : Live → Channel Q
    one_more l = record {
      parts = parts;
      references = record { counter = suc (tally l); pid = p };
      original_pid = p;
      senders = l.senders;
      receivers = l.receivers;
      dropping = false;
      destroyed = false;
    }

    drop_last :
        (a : DropAnswers) → Fine a → drop_channel (one_more nobody) p a ≡ done (counted nobody)
    unfolding drop_channel destroy_inner decrease
    drop_last a fine =
        let (g, locked) = fine.ends in
        rw (same_pid p, decrease_last p, drop_parts-gone p parts a made fine, locked) refl

    drop_one :
        (l : Live) (a : DropAnswers)
        → Fine a
        → suc (tally l) < usize_mod
        → drop_channel (one_more l) p a ≡ done (counted l)
    unfolding drop_channel destroy_inner
    drop_one l a fine small = elim (Bool-cases (tally l == 0)) [
      | inl empty ↦
          let t : tally l ≡ 0 = ground arith in
          let same : l ≡ nobody = ground arith in
          subst (λ l. drop_channel (one_more l) p a ≡ done (counted l)) (sym same)
            (drop_last a fine)
      | inr left ↦
          let step = decrease_many p (tally l) (ground arith) small in
          rw (same_pid p, step, step, left) refl
    ]

    -- A use of the handles, from a channel that fits them.
    serve-counted :
        (l l' : Live) (u : Use) (a : DropAnswers)
        → Fine a
        → tally l + 1 < usize_mod
        → used l u ≡ some l'
        → serve p (counted l) u a ≡ done (counted l')
    unfolding serve clone make_sender make_receiver drop_sender drop_receiver atomic_checked_sub
    serve-counted l l' clones a fine small e = ground (arith, increase_same p (tally l) small)
    serve-counted l l' makes_sender a fine small e = ground (arith, increase_same p (tally l) small)
    serve-counted l l' makes_receiver a fine small e =
        ground (arith, increase_same p (tally l) small)
    serve-counted l l' drops_channel a fine small e =
        let same : counted l ≡ one_more l' = ground arith in
        rw same (drop_one l' a fine (ground arith))
    serve-counted l l' drops_sender a fine small e =
        ground (arith, drop_one l' a fine (ground arith))
    serve-counted l l' drops_receiver a fine small e =
        ground (arith, drop_one l' a fine (ground arith))

    run-counted :
        (l l' : Live) (us : List (Use × DropAnswers))
        → All (λ u. Fine u.1) us
        → tally l + length us < usize_mod
        → used_all l us ≡ some l'
        → run p (counted l) us ≡ done (counted l')
    unfolding run
    run-counted l l' [] fine small e = let same : l ≡ l' = ground arith in rw same refl
    run-counted l l' ((u, a) ∷ us) fine small e = elim (Option-cases (used l u)) [
      | inl stop ↦ absurd (ground arith)
      | inr (next, step) ↦
          rw (serve-counted l next u a fine.0 (omega arith) step)
            (run-counted next l' us fine.1 (omega (arith, tally-used l next u step)) (ground arith))
    ]

-- the handles of a channel that was just opened
abbrev pub just_one : Live
just_one = record { channels = 1; senders = 0; receivers = 0 }

module _ {Q : Type 0} (p : ℕ) (parts : Parts Q) (made : MadeBy p parts) where
  -- In the process that opened a channel, through any history of clones, new senders, new
  -- receivers and drops, each made from or of a handle that is alive, with drops whose pthread
  -- calls do not fail, no exchange that fails, no other process that changes the counts, and
  -- fewer uses than 2^64 - 1: nothing panics, the counts of senders and receivers and of
  -- references are those of the handles that are alive, and the channel is dropping and
  -- destroyed exactly if none is.
  pub run-opened :
      (l : Live) (us : List (Use × DropAnswers))
      → All (λ u. Fine u.1) us
      → length us + 1 < usize_mod
      → used_all just_one us ≡ some l
      → run p (opened p parts) us ≡ done (counted p parts made l)
  unfolding ProcessRc.new
  run-opened l us fine small e = run-counted p parts made just_one l us fine (omega arith) e
