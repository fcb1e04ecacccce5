-- ===== src/Channel/Line/Inherited.antt =====
-- A child that a fork gives the receiver of its parent, which was counted once, drops it at its end.
use shmem_util.Prelude.{
  ℕ, ◌≡◌, ◌≢◌, refl, Bool, true, false, Option, some, List, [], ◌∷◌, done, err, get_elem?, set, ap,
  Ends, arith,
}
use shmem_util.External.{DequeOps}
use shmem_util.Mutex.{MutexGuard}
use shmem_util.Condvar.Laws.{wait-at_once}
use shmem_util.Channel.Handles.{
  Channel, DropAnswers, atomic_checked_sub, drop_channel, drop_receiver,
}
use shmem_util.Channel.Lifetime.{Live, drops_receiver, Fine, serve}
use shmem_util.Channel.Processes.{Proc, System, view, store, uses, advance}
use shmem_util.Channel.Processes.Destroyed.{acted}
use shmem_util.Channel.Inner.{Sight, can_send, untouched, acquire, try_send}
use shmem_util.Channel.Line.{fork_with_handles}

module _ {Q : Type 0} where
  -- The drop of the only receiver that is counted, in a process other than the one that made the
  -- channel.
  dropped_elsewhere :
      (c : Channel Q) (pid : ℕ) (a : DropAnswers)
      → c.receivers ≡ 1
      → c.original_pid ≢ pid
      → Fine a
      → drop_receiver c pid [] a ≡ done (record c { receivers = 0 })
  unfolding drop_receiver atomic_checked_sub drop_channel
  dropped_elsewhere c pid a one elsewhere fine = rw (one, fine.space) (ground arith)

module _ {T : Type 0} (D : DequeOps T) where
  -- A sender that sees no receivers.
  unseen :
      (item : T) (rounds : List (Bool × Option MutexGuard)) (s : Sight D) (locked : Bool)
      → acquire rounds ≡ done locked
      → s.first.peers ≡ 0
      → s.peers ≡ 0
      → Ends (try_send D item rounds s) (λ o. o.answer ≡ err item)
  unfolding try_send
  unseen item rounds s false ended first peers = (untouched D (err item), rw ended refl, refl)
  unseen item rounds s true ended first peers =
      let ready : can_send D s.first ≡ true = ground (arith, first) in
      (
        untouched D (err item),
        rw (ended, wait-at_once (can_send D) s.first s.wakes ready, peers) refl,
        refl,
      )

  -- Where the only receiver that is counted is one of a process that forks, and the child,
  -- which is not the process that made the channel, drops the receiver that it has inherited,
  -- with calls that do not fail: no receiver is counted any more, although the channel stands
  -- and the parent still has its receiver. And a sender whose tries to lock end, and whose
  -- loads of the count of receivers in its first look and after its wait give zero, is answered
  -- with its item.
  pub inherited_receiver_closes :
      (s : System D.Deque) (parent : Proc) (others : List Proc) (child : ℕ) (a : DropAnswers)
      (item : T) (rounds : List (Bool × Option MutexGuard)) (see : Sight D) (locked : Bool)
      → s.destroyed ≡ false
      → s.procs ≡ parent ∷ others
      → parent.live.receivers ≡ 1
      → s.receivers ≡ 1
      → s.owner ≢ child
      → Fine a
      → acquire rounds ≡ done locked
      → see.first.peers ≡ 0
      → see.peers ≡ 0
      → Ends
          (advance (fork_with_handles s child) (uses 0 drops_receiver a))
          (λ s'. (s'.receivers ≡ 0) × (s'.destroyed ≡ false) × (get_elem? s'.procs 1 ≡ some parent))
        × Ends (try_send D item rounds see) (λ o. o.answer ≡ err item)
  unfolding advance serve
  inherited_receiver_closes s parent others child a item rounds see locked up procs has one
        elsewhere fine ended first peers =
      let q : Proc = record parent { pid = child } in
      let l : Live = record parent.live { receivers = 0 } in
      let forked = fork_with_handles s child in
      let here : forked.procs ≡ q ∷ parent ∷ others = rw procs refl in
      let c = record (view forked q) { receivers = 0 } in
      (
        (
          store forked 0 q c l,
          acted forked 0 q c l drops_receiver a up (ap (λ xs. get_elem? xs 0) here) (rw has refl)
              (dropped_elsewhere (view forked q) child a one elsewhere fine),
          (refl, up, ap (λ xs. get_elem? (set xs 0 (record q { live = l })) 1) here),
        ),
        unseen item rounds see locked ended first peers,
      )
