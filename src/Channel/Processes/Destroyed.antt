-- ===== src/Channel/Processes/Destroyed.antt =====
-- The owner of a channel of src/channel.rs drops its last handle while another process has senders.
use shmem_util.Prelude.{
  ℕ, suc, ◌-◌, ◌<◌, ◌≡◌, ◌∙◌, ap, ◌≢◌, inl, inr, refl, true, false, some, done, Ends, get_elem?,
  sum_of, get_elem?-set_ne, arith,
}
use shmem_util.Channel.Handles.{Channel, DropAnswers}
use shmem_util.Channel.Lifetime.{Live, tally, Use, drops_channel, used, Fine, serve}
use shmem_util.Channel.Processes.{Proc, System, uses, view, store, use_by, step_by, advance, run}
use shmem_util.Channel.Processes.Local.{After}
use shmem_util.Channel.Processes.Serving.{serve-After}
use shmem_util.Channel.Processes.Counted.{senders_of, receivers_of, Counted, view-At, if_false}

module _ {Q : Type 0} where
  -- what a process that has the handle makes of the channel
  pub acted :
      (s : System Q) (i : ℕ) (q : Proc) (c : Channel Q) (l : Live) (u : Use) (a : DropAnswers)
      → s.destroyed ≡ false
      → get_elem? s.procs i ≡ some q
      → used q.live u ≡ some l
      → serve q.pid (view s q) u a ≡ done c
      → advance s (uses i u a) ≡ done (store s i q c l)
  unfolding advance
  acted s i q c l u a stands here left run =
      if_false _ _ stands
      ∙ (ap (step_by s (uses i u a)) here ∙ (ap (use_by s i q u a) left ∙ rw run refl))

  -- the owner's last handle
  last_gone :
      (s : System Q) (i j : ℕ) (q r : Proc) (c : Channel Q) (l : Live)
      → q.pid ≡ s.owner
      → tally l ≡ 0
      → i ≢ j
      → get_elem? s.procs j ≡ some r
      → {k es er : ℕ} → After s.owner 0 k es er q.pid c l
      → (c.destroyed ≡ true) × (get_elem? (store s i q c l).procs j ≡ some r)
  last_gone s i j q r c l mine none_left other there (inl (gone, is_owner, none_left')) = (
    gone,
    get_elem?-set_ne s.procs i j (record q { references = c.references; live = l }) other ∙ there,
  )
  last_gone s i j q r c l mine none_left other there (inr at) =
      let o = at.own mine in let room = at.references in absurd (ground arith)

  -- Where the counts are those of the live handles, and the owner drops its last handle while
  -- another process has a sender, the channel is destroyed, and the other process still has its
  -- handles.
  pub destroyed_in_use :
      (k : ℕ) (s : System Q) (i j : ℕ) (q r : Proc) (a : DropAnswers)
      → Counted 0 (suc k) s
      → Fine a
      → get_elem? s.procs i ≡ some q
      → q.pid ≡ s.owner
      → q.live ≡ record { channels = 1; senders = 0; receivers = 0 }
      → i ≢ j
      → get_elem? s.procs j ≡ some r
      → 0 < r.live.senders
      → Ends
          (advance s (uses i drops_channel a))
          (λ s'. (s'.destroyed ≡ true) × (get_elem? s'.procs j ≡ some r))
  unfolding advance
  destroyed_in_use k s i j q r a h fine here mine one other there sends =
      let l : Live = record { channels = 0; senders = 0; receivers = 0 } in
      let left : used q.live drops_channel ≡ some l = rw one refl in
      let (c, run, after) =
        serve-After s.owner 0 k (sum_of senders_of s.procs - q.live.senders)
          (sum_of receivers_of s.procs - q.live.receivers) q.pid (view s q) q.live l drops_channel a
          fine (view-At 0 (suc k) s i q h here) left in
      (
        store s i q c l,
        acted s i q c l drops_channel a h.stands here left run,
        last_gone s i j q r c l mine refl other there after,
      )
