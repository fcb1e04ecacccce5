-- ===== src/Channel/Processes/Dropping.antt =====
-- One process of several: a handle is gone, and its channel of src/channel.rs is dropped.
use shmem_util.Prelude.{
  ℕ, suc, ◌+◌, ◌<◌, ◌≡◌, ◌≢◌, inl, inr, refl, true, false, ◌==◌, Ends, usize_mod, arith,
}
use native.Mathlib.Decide.{ℕ_discrete}
use shmem_util.ProcessRc.{you_are_the_last_one, move_along, decrease}
use shmem_util.ProcessRc.Laws.{decrease_last}
use shmem_util.Channel.Handles.{Channel, DropAnswers, destroy_inner, drop_parts, drop_channel}
use shmem_util.Channel.Lifetime.{Live, tally, Fine, decrease_many}
use shmem_util.Channel.Lifetime.{notify_fine}
use shmem_util.Channel.Processes.Local.{Roomy, After}

destroy_inner-destroyed :
    {Q : Type 0} (c : Channel Q) (pid : ℕ) (a : DropAnswers)
    → Fine a
    → Ends (destroy_inner c pid a) (λ c'. c'.destroyed ≡ true)
unfolding destroy_inner
destroy_inner-destroyed c pid a fine =
    let (g, locked) = fine.ends in
    (
      record c {
        parts = drop_parts c.parts pid a;
        senders = 0;
        receivers = 0;
        dropping = true;
        destroyed = true;
      },
      simp
          (
            notify_fine c.receivers a.item_errno fine.item,
            notify_fine c.senders a.space_errno fine.space,
            locked,
          )
          refl,
      refl,
    )

module _ {Q : Type 0} (owner lost k es er pid : ℕ) where
  -- What holds when a handle has been taken off the live ones, before its channel is dropped.
  pub record Leaving (c : Channel Q) (l : Live) : Type 0 where
    pub senders : c.senders ≡ l.senders + es
    pub receivers : c.receivers ≡ l.receivers + er
    pub up : c.dropping ≡ false
    pub stands : c.destroyed ≡ false
    pub original : c.original_pid ≡ owner
    pub references : Roomy k c.references
    pub own : pid ≡ owner → c.references ≡ record { counter = suc (tally l + lost); pid = owner }
    pub senders_small : c.senders + k < usize_mod
    pub receivers_small : c.receivers + k < usize_mod

  other_drop :
      (c : Channel Q) (l : Live) (a : DropAnswers)
      → pid ≢ owner
      → Leaving c l
      → Ends (drop_channel c pid a) (λ c'. After owner lost k es er pid c' l)
  unfolding drop_channel
  other_drop c l a other h =
      let test : (c.original_pid == pid) ≡ false = let o = h.original in ground arith in
      (
        c,
        simp test refl,
        inr (record {
          senders = h.senders;
          receivers = h.receivers;
          up = h.up;
          stands = h.stands;
          original = h.original;
          references = h.references;
          own = λ e. absurd (other e);
          senders_small = h.senders_small;
          receivers_small = h.receivers_small;
        }),
      )

  owner_drop_last :
      (c : Channel Q) (l : Live) (a : DropAnswers)
      → pid ≡ owner
      → Fine a
      → tally l + lost ≡ 0
      → Leaving c l
      → Ends (drop_channel c pid a) (λ c'. After owner lost k es er pid c' l)
  unfolding drop_channel
  owner_drop_last c l a is_owner fine none_left h =
      let test : (c.original_pid == pid) ≡ true = let o = h.original in ground arith in
      let refs : c.references ≡ record { counter = 1; pid = pid } =
        let o = h.own is_owner in ground arith in
      let last : decrease c.references pid
          ≡ (record { counter = 0; pid = pid }, you_are_the_last_one) =
        rw refs (decrease_last pid) in
      let (c', run, gone) =
        destroy_inner-destroyed (record c { references = record { counter = 0; pid = pid } }) pid a
          fine in
      (c', simp (test, last) run, inl (gone, is_owner, none_left))

  owner_drop_more :
      (c : Channel Q) (l : Live) (a : DropAnswers)
      → pid ≡ owner
      → 0 < tally l + lost
      → Leaving c l
      → Ends (drop_channel c pid a) (λ c'. After owner lost k es er pid c' l)
  unfolding drop_channel
  owner_drop_more c l a is_owner some_left h =
      let test : (c.original_pid == pid) ≡ true = let o = h.original in ground arith in
      let o = h.own is_owner in
      let room = h.references in
      let refs : c.references ≡ record { counter = suc (tally l + lost); pid = pid } =
        ground arith in
      let step : decrease c.references pid
          ≡ (record { counter = tally l + lost; pid = pid }, move_along) =
        rw refs (decrease_many pid (tally l + lost) some_left (ground arith)) in
      (
        record c { references = record { counter = tally l + lost; pid = pid } },
        simp (test, step) refl,
        inr (record {
          senders = h.senders;
          receivers = h.receivers;
          up = h.up;
          stands = h.stands;
          original = h.original;
          references = (some_left, ground arith);
          own = λ e. ground arith;
          senders_small = h.senders_small;
          receivers_small = h.receivers_small;
        }),
      )

  pub drop_channel-After :
      (c : Channel Q) (l : Live) (a : DropAnswers)
      → Fine a
      → Leaving c l
      → Ends (drop_channel c pid a) (λ c'. After owner lost k es er pid c' l)
  drop_channel-After c l a fine h = elim (ℕ_discrete pid owner) [
    | yes is_owner ↦ elim (ℕ_discrete (tally l + lost) 0) [
      | yes none_left ↦ owner_drop_last c l a is_owner fine none_left h
      | no some_left ↦ owner_drop_more c l a is_owner (omega arith) h
    ]
    | no other ↦ other_drop c l a other h
  ]
