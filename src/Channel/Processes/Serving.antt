-- ===== src/Channel/Processes/Serving.antt =====
-- One process of several: what a use of its handles does to the shared counts and to its references.
use shmem_util.Prelude.{
  ℕ, suc, ◌+◌, ◌-◌, ◌≤◌, ◌<◌, ◌≡◌, inl, inr, refl, some, [], done, ◌==◌, Ends, if◌then◌else◌,
  add_usize, Bool-cases, arith,
}
use shmem_util.ProcessRc.{PerProcessReferences, increase}
use shmem_util.Condvar.{broadcast}
use shmem_util.Channel.Handles.{
  Channel, DropAnswers, clone, make_sender, make_receiver, atomic_checked_sub, drop_sender,
  drop_receiver,
}
use shmem_util.Channel.Lifetime.{
  Live, tally, Use, clones, makes_sender, makes_receiver, drops_channel, drops_sender,
  drops_receiver, used, Fine, serve,
}
use shmem_util.Channel.Processes.Local.{Roomy, At, After}
use shmem_util.Channel.Processes.Dropping.{Leaving, drop_channel-After}

increase-Roomy :
    (r : PerProcessReferences) (pid k : ℕ)
    → Roomy (suc k) r
    → Ends
        (increase r pid)
        (λ r'. Roomy k r' × (r.pid ≡ pid → r' ≡ record { counter = suc r.counter; pid = pid }))
unfolding increase
increase-Roomy r pid k room = elim (Bool-cases (r.pid == pid)) [
  | inl same ↦
      (record { counter = suc r.counter; pid = pid }, ground arith, (ground arith, λ e. refl))
  | inr other ↦
      (record { counter = 1; pid = pid }, ground arith, (ground arith, λ e. absurd (ground arith)))
]

last_seen : (n : ℕ) → 0 < n → atomic_checked_sub n [] ≡ (n - 1, some (n - 1))
unfolding atomic_checked_sub
last_seen n some_left = ground arith

hush : (left errno : ℕ) → errno ≡ 0 → (if left == 0 then broadcast errno else done tt) ≡ done tt
hush left errno fine = ground arith

module _ {Q : Type 0} (owner lost k es er pid : ℕ) where
  clone-At :
      (c : Channel Q) (l : Live)
      → At owner lost (suc k) es er pid c l
      → (r : PerProcessReferences) × (clone c pid ≡ done (record c { references = r }))
        × Roomy k r
        × (pid ≡ owner → r ≡ record { counter = suc (tally l + lost); pid = owner })
  unfolding clone
  clone-At c l h =
      let (r, run, (room, counts)) = increase-Roomy c.references pid k h.references in
      (r, rw run refl, room, λ e. let o = h.own e in let d = counts (ground arith) in ground arith)

  -- the state after the counts and the references have been changed
  abbrev changed : Channel Q → ℕ → ℕ → PerProcessReferences → Channel Q
  changed c senders receivers r = record c {
    senders = senders;
    receivers = receivers;
    references = r;
  }

  cloned-At :
      (c : Channel Q) (l l' : Live) (senders receivers : ℕ) (r : PerProcessReferences)
      → At owner lost (suc k) es er pid c l
      → senders ≡ l'.senders + es
      → receivers ≡ l'.receivers + er
      → senders ≤ c.senders + 1
      → receivers ≤ c.receivers + 1
      → tally l' ≡ suc (tally l)
      → Roomy k r
      → (pid ≡ owner → r ≡ record { counter = suc (tally l + lost); pid = owner })
      → At owner lost k es er pid (changed c senders receivers r) l'
  cloned-At c l l' senders receivers r h s t few_s few_r more room own =
      let small_s = h.senders_small in
      let small_r = h.receivers_small in
      record {
        senders = s;
        receivers = t;
        up = h.up;
        stands = h.stands;
        original = h.original;
        references = room;
        own = λ e. let o = own e in ground arith;
        senders_small = omega arith;
        receivers_small = omega arith;
      }

  leave :
      (c : Channel Q) (l l' : Live) (senders receivers : ℕ)
      → At owner lost (suc k) es er pid c l
      → senders ≡ l'.senders + es
      → receivers ≡ l'.receivers + er
      → senders ≤ c.senders
      → receivers ≤ c.receivers
      → tally l ≡ suc (tally l')
      → Leaving owner lost k es er pid (changed c senders receivers c.references) l'
  leave c l l' senders receivers h s t few_s few_r more =
      let small_s = h.senders_small in
      let small_r = h.receivers_small in
      let room = h.references in
      record {
        senders = s;
        receivers = t;
        up = h.up;
        stands = h.stands;
        original = h.original;
        references = (room.0, omega arith);
        own = λ e. let o = h.own e in ground arith;
        senders_small = omega arith;
        receivers_small = omega arith;
      }

  -- A use of a handle, in the process that has it.
  pub serve-After :
      (c : Channel Q) (l l' : Live) (u : Use) (a : DropAnswers)
      → Fine a
      → At owner lost (suc k) es er pid c l
      → used l u ≡ some l'
      → Ends (serve pid c u a) (λ c'. After owner lost k es er pid c' l')
  unfolding serve make_sender make_receiver drop_sender drop_receiver
  serve-After c l l' clones a fine h e =
      let (r, run, room, own) = clone-At c l h in
      let s = h.senders in
      let t = h.receivers in
      (
        changed c c.senders c.receivers r,
        run,
        inr (
            cloned-At c l l' c.senders c.receivers r h (ground arith) (ground arith) (omega arith)
              (omega arith) (ground arith) room own),
      )
  serve-After c l l' makes_sender a fine h e =
      let (r, run, room, own) = clone-At c l h in
      let s = h.senders in
      let t = h.receivers in
      let small_s = h.senders_small in
      let counted : add_usize c.senders 1 ≡ c.senders + 1 = ground arith in
      (
        changed c (c.senders + 1) c.receivers r,
        rw run (simp counted refl),
        inr (
            cloned-At c l l' (c.senders + 1) c.receivers r h (ground arith) (ground arith)
              (omega arith) (omega arith) (ground arith) room own),
      )
  serve-After c l l' makes_receiver a fine h e =
      let (r, run, room, own) = clone-At c l h in
      let s = h.senders in
      let t = h.receivers in
      let small_r = h.receivers_small in
      let counted : add_usize c.receivers 1 ≡ c.receivers + 1 = ground arith in
      (
        changed c c.senders (c.receivers + 1) r,
        rw run (simp counted refl),
        inr (
            cloned-At c l l' c.senders (c.receivers + 1) r h (ground arith) (ground arith)
              (omega arith) (omega arith) (ground arith) room own),
      )
  serve-After c l l' drops_channel a fine h e =
      let s = h.senders in
      let t = h.receivers in
      drop_channel-After owner lost k es er pid c l' a fine (
        leave c l l' c.senders c.receivers h (ground arith) (ground arith) (omega arith)
          (omega arith) (ground arith))
  serve-After c l l' drops_sender a fine h e =
      let s = h.senders in
      let t = h.receivers in
      let some_left : 0 < c.senders = ground arith in
      simp (last_seen c.senders some_left, hush (c.senders - 1) a.item_errno fine.item)
        (drop_channel-After owner lost k es er pid
          (changed c (c.senders - 1) c.receivers c.references) l' a fine
          (leave c l l' (c.senders - 1) c.receivers h (ground arith) (ground arith) (omega arith)
            (omega arith) (ground arith)))
  serve-After c l l' drops_receiver a fine h e =
      let s = h.senders in
      let t = h.receivers in
      let some_left : 0 < c.receivers = ground arith in
      simp (last_seen c.receivers some_left, hush (c.receivers - 1) a.space_errno fine.space)
        (drop_channel-After owner lost k es er pid
          (changed c c.senders (c.receivers - 1) c.references) l' a fine
          (leave c l l' c.senders (c.receivers - 1) h (ground arith) (ground arith) (omega arith)
            (omega arith) (ground arith)))
