-- ===== src/Channel/Processes/Counted.antt =====
-- Several processes with one channel of src/channel.rs: what it means that the shared counts are those of
-- the live handles of all, and how a use by one process keeps it.
use shmem_util.Prelude.{
  ℕ, suc, ◌+◌, ◌-◌, ◌<◌, ◌≡◌, ◌≢◌, ◌⊎◌, inl, inr, refl, Bool, true, false, some, List,
  if◌then◌else◌, All, All-set, All-mono, All-get_elem?, get_elem?, sum_of, sum_of-set, sum_of-ge,
  get_elem?-set_self, usize_mod, arith,
}
use shmem_util.Channel.Handles.{Channel}
use shmem_util.Channel.Lifetime.{Live, tally, Fine}
use shmem_util.Channel.Processes.{Proc, System, Step, uses, forks, view, store}
use shmem_util.Channel.Processes.Local.{Roomy, At, After}

abbrev pub senders_of : Proc → ℕ
senders_of q = q.live.senders

abbrev pub receivers_of : Proc → ℕ
receivers_of q = q.live.receivers

-- the references of a process, with room for `k` more clones, and `lost` too many in the owner
abbrev pub WellCounted : ℕ → ℕ → ℕ → Proc → Type 0
WellCounted owner lost k q =
    Roomy k q.references
    × (q.pid ≡ owner → q.references ≡ record { counter = tally q.live + lost; pid = owner })

-- the drops do not fail, and a child has a pid that is not the owner's
abbrev pub Allowed : ℕ → Step → Type 0
Allowed owner (uses i u a) = Fine a
Allowed owner (forks i child) = child ≢ owner

pub if_false : {A : Type 0} {b : Bool} (x y : A) → b ≡ false → (if b then x else y) ≡ y
if_false x y e = rw e refl

pub fewer :
    (owner lost k : ℕ) (xs : List Proc)
    → All (WellCounted owner lost (suc k)) xs
    → All (WellCounted owner lost k) xs
fewer owner lost k xs h =
    All-mono _ _ xs (λ q (room, own). ((room.0, omega (arith, room.1)), own)) h

module _ {Q : Type 0} where
  -- The counts are those of the live handles, the owner has `lost` references more than handles, and
  -- there is room for `k` more steps.
  pub record Counted (lost k : ℕ) (s : System Q) : Type 0 where
    pub senders : s.senders ≡ sum_of senders_of s.procs
    pub receivers : s.receivers ≡ sum_of receivers_of s.procs
    pub up : s.dropping ≡ false
    pub stands : s.destroyed ≡ false
    pub each : All (WellCounted s.owner lost k) s.procs
    pub senders_small : s.senders + k < usize_mod
    pub receivers_small : s.receivers + k < usize_mod

  -- Freed, and the owner has no handle left.
  abbrev pub Freed : ℕ → System Q → Type 0
  Freed lost s =
      (s.destroyed ≡ true)
      × ((i : ℕ) × (q : Proc) × (get_elem? s.procs i ≡ some q)
          × (q.pid ≡ s.owner)
          × (tally q.live + lost ≡ 0))

  pub view-At :
      (lost k : ℕ) (s : System Q) (i : ℕ) (q : Proc)
      → Counted lost k s
      → get_elem? s.procs i ≡ some q
      → At s.owner lost k
          (sum_of senders_of s.procs - q.live.senders)
          (sum_of receivers_of s.procs - q.live.receivers)
          q.pid
          (view s q)
          q.live
  view-At lost k s i q h e =
      let (room, own) = All-get_elem? _ s.procs i e h.each in
      record {
        senders = omega (arith, h.senders, sum_of-ge senders_of s.procs i {x = q} e);
        receivers = omega (arith, h.receivers, sum_of-ge receivers_of s.procs i {x = q} e);
        up = h.up;
        stands = h.stands;
        original = refl;
        references = room;
        own = own;
        senders_small = h.senders_small;
        receivers_small = h.receivers_small;
      }

  store-Counted :
      (lost k : ℕ) (s : System Q) (i : ℕ) (q : Proc) (c : Channel Q) (l : Live)
      → Counted lost (suc k) s
      → get_elem? s.procs i ≡ some q
      → At s.owner lost k
          (sum_of senders_of s.procs - q.live.senders)
          (sum_of receivers_of s.procs - q.live.receivers)
          q.pid
          c
          l
      → Counted lost k (store s i q c l)
  store-Counted lost k s i q c l h e at =
      let q' = record q { references = c.references; live = l } in
      record {
        senders = omega (
          arith,
          at.senders,
          sum_of-set senders_of s.procs i q' {x = q} e,
          sum_of-ge senders_of s.procs i {x = q} e,
        );
        receivers = omega (
          arith,
          at.receivers,
          sum_of-set receivers_of s.procs i q' {x = q} e,
          sum_of-ge receivers_of s.procs i {x = q} e,
        );
        up = at.up;
        stands = at.stands;
        each = All-set _ s.procs i q' (at.references, at.own) (fewer s.owner lost k s.procs h.each);
        senders_small = at.senders_small;
        receivers_small = at.receivers_small;
      }

  pub less : (lost k : ℕ) (s : System Q) → Counted lost (suc k) s → Counted lost k s
  less lost k s h = record {
    senders = h.senders;
    receivers = h.receivers;
    up = h.up;
    stands = h.stands;
    each = fewer s.owner lost k s.procs h.each;
    senders_small = omega (arith, h.senders_small);
    receivers_small = omega (arith, h.receivers_small);
  }

  pub stored :
      (lost k : ℕ) (s : System Q) (i : ℕ) (q : Proc) (c : Channel Q) (l : Live)
      → Counted lost (suc k) s
      → get_elem? s.procs i ≡ some q
      → After s.owner lost k
          (sum_of senders_of s.procs - q.live.senders)
          (sum_of receivers_of s.procs - q.live.receivers)
          q.pid
          c
          l
      → Freed lost (store s i q c l) ⊎ Counted lost k (store s i q c l)
  stored lost k s i q c l h e (inl (gone, is_owner, none_left)) = inl (
    gone,
    (
      i,
      record q { references = c.references; live = l },
      get_elem?-set_self s.procs i (record q { references = c.references; live = l }) {x = q} e,
      is_owner,
      none_left,
    ),
  )
  stored lost k s i q c l h e (inr at) = inr (store-Counted lost k s i q c l h e at)
