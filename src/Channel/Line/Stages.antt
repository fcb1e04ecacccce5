-- ===== src/Channel/Line/Stages.antt =====
-- A queue that one item goes through.
use shmem_util.Prelude.{
  ℕ, ◌≡◌, ◌∙◌, ap, ◌++◌, length, inl, inr, refl, Bool, true, false, ◌||◌, some, [], ◌∷◌, Exec, done,
  panic, hang, ◌>>=◌, ok, ◌==◌, if◌then◌else◌, ◌<◌, Bool-cases, arith,
}
use shmem_util.External.{DequeOps}
use shmem_util.Time.{billion, from, add}
use shmem_util.Condvar
use shmem_util.Condvar.{wait_until_internal}
use shmem_util.Channel.Inner.{acquire, push, pop, receive, try_send, wait_for_message_until}
use shmem_util.Channel.Endpoints.{deadline_in, wait_for_message_timeout}
use shmem_util.Channel.Lifetime.{Use}
use shmem_util.Channel.Processes.{System, uses, advance}
use shmem_util.Channel.Line.{Line, quiet, handle, sends, receives, receives_none, waits_for_message}
use shmem_util.Threads.Simulate.{detailed, Same}

pub data Stage : Type 0 where
  fresh filled taken : Stage

abbrev stage : Line Stage → Stage → Line Stage
stage l x = record l { queue = x }

abbrev pub stage_sends : Line Stage → Exec (Line Stage)
stage_sends l =
    if l.handles.destroyed || (l.handles.dropping || l.handles.receivers == 0)
    then panic
    else elim l.queue [
      | fresh ↦ done (record l { queue = filled })
      | filled ↦ panic
      | taken ↦ panic
    ]

module _ {T : Type 0} (item : T) where
  abbrev pub stage_receives : Line Stage → Exec (T × Line Stage)
  stage_receives l = if l.handles.destroyed || l.handles.dropping then panic else elim l.queue [
    | fresh ↦ if l.handles.senders == 0 then panic else hang
    | filled ↦ done (item, record l { queue = taken })
    | taken ↦ if l.handles.senders == 0 then panic else hang
  ]

abbrev pub stage_receives_none : Line Stage → Exec (Line Stage)
stage_receives_none l = if l.handles.destroyed || l.handles.dropping then panic else elim l.queue [
  | fresh ↦ if l.handles.senders == 0 then done l else hang
  | filled ↦ panic
  | taken ↦ if l.handles.senders == 0 then done l else hang
]

abbrev pub stage_waits : Line Stage → Exec (Line Stage)
stage_waits l =
    if l.handles.destroyed || l.handles.dropping
    then panic
    else elim l.queue [ fresh ↦ hang | filled ↦ done l | taken ↦ hang ]

module _ {T : Type 0} (D : DequeOps T) where
  -- With nothing in the queue and no sender, `receive` answers none, and the `unwrap` panics.
  pub receives-panic :
      (l : Line D.Deque) → D.items l.queue ≡ [] → l.handles.senders ≡ 0 → receives D l ≡ panic
  unfolding receives receive acquire Condvar.wait pop
  receives-panic l empty none_send = elim (Bool-cases l.handles.destroyed) [
    | inl e ↦ rw e refl
    | inr e ↦ elim (Bool-cases l.handles.dropping) [
      | inl k ↦ rw (e, k) refl
      | inr k ↦ rw (e, k, empty, none_send, pop, D.pop_front_none l.queue empty) refl
    ]
  ]

  -- The queues with the item and after it.
  pub record Stages (item : T) (before : D.Deque) : Type 0 where
    pub full : D.Deque
    pub emptied : D.Deque
    pub before_empty : D.items before ≡ []
    pub before_room : 0 < D.remaining_capacity before
    pub pushes : D.push_back before item ≡ ok full
    pub has : D.items full ≡ item ∷ []
    pub pops : D.pop_front full ≡ some (item, emptied)
    pub none_more : D.items emptied ≡ []

  pub new-Stages :
      (item : T) (capacity : ℕ) (d : D.Deque)
      → 0 < capacity
      → D.with_capacity_in capacity ≡ ok d
      → Stages item d
  new-Stages item capacity d some_room made =
      let (empty, room) = D.with_capacity_in_ok capacity d made in
      let none_yet : length (D.items d) ≡ 0 = rw empty refl in
      let (e, pushes, has, _) = D.push_back_ok d item (omega arith) in
      let one : D.items e ≡ item ∷ [] = has ∙ ap (λ l. l ++ item ∷ []) empty in
      let (f, pops, none_more, _) = D.pop_front_some e item [] one in
      record {
        full = e;
        emptied = f;
        before_empty = empty;
        before_room = omega (arith, D.remaining_capacity_lem d);
        pushes = pushes;
        has = one;
        pops = pops;
        none_more = none_more;
      }

  module _ {item : T} {before : D.Deque} (q : Stages item before) where
    abbrev pub queue_at : Stage → D.Deque
    queue_at fresh = before
    queue_at filled = q.full
    queue_at taken = q.emptied

    abbrev pub at : Line Stage → Line D.Deque
    at l = record { handles = l.handles; queue = queue_at l.queue }

    abbrev pub at_item : T × Line Stage → T × Line D.Deque
    at_item (x, l) = (x, at l)

    advance-Same :
        (l : Line Stage) (r : Exec (System (Unit {0})))
        → (r >>= λ handles. done (record (at l) { handles = handles }))
          ≡ detailed at (r >>= λ handles. done (record l { handles = handles }))
    advance-Same l (done handles) = refl
    advance-Same l panic = refl
    advance-Same l hang = refl

    unless-Same :
        (destroyed : Bool) (r : Exec (Line Stage)) (r' : Exec (Line D.Deque))
        → r' ≡ detailed at r
        → (if destroyed then panic else r') ≡ detailed at (if destroyed then panic else r)
    unless-Same true r r' e = refl
    unless-Same false r r' e = e

    -- The handles are the same at every stage.
    pub handle-Same :
        (i : ℕ) (u : Use) (l : Line Stage) → Same at (handle i u l) (handle i u (at l))
    handle-Same i u l =
        inr (
          unless-Same l.handles.destroyed _ _ (advance-Same l (advance l.handles (uses i u quiet))))

    pub sends-Same : (l : Line Stage) → Same at (stage_sends l) (sends D item (at l))
    unfolding sends try_send acquire Condvar.wait push
    sends-Same l = elim (Bool-cases l.handles.destroyed) [
      | inl e ↦ inl (rw e refl)
      | inr e ↦ elim (Bool-cases l.handles.dropping) [
        | inl k ↦ inl (rw (e, k) refl)
        | inr k ↦ elim (Bool-cases (l.handles.receivers == 0)) [
          | inl z ↦ inl (rw (e, k, z) refl)
          | inr z ↦ rw (e, k, z) (ground (arith, q.pushes, q.before_room))
        ]
      ]
    ]

    pub receives-Same : (l : Line Stage) → Same at_item (stage_receives item l) (receives D (at l))
    unfolding receives receive acquire Condvar.wait pop
    receives-Same l = elim (Bool-cases l.handles.destroyed) [
      | inl e ↦ inl (rw e refl)
      | inr e ↦ elim (Bool-cases l.handles.dropping) [
        | inl k ↦ inl (rw (e, k) refl)
        | inr k ↦ elim (Bool-cases (l.handles.senders == 0)) [
          | inl z ↦ rw (e, k, z) (ground (arith, q.before_empty, q.has, q.pops, q.none_more))
          | inr z ↦ rw (e, k, z) (ground (arith, q.before_empty, q.has, q.pops, q.none_more))
        ]
      ]
    ]

    pub receives_none-Same :
        (l : Line Stage) → Same at (stage_receives_none l) (receives_none D (at l))
    unfolding receives_none receive acquire Condvar.wait pop
    receives_none-Same l = elim (Bool-cases l.handles.destroyed) [
      | inl e ↦ inl (rw e refl)
      | inr e ↦ elim (Bool-cases l.handles.dropping) [
        | inl k ↦ inl (rw (e, k) refl)
        | inr k ↦ elim (Bool-cases (l.handles.senders == 0)) [
          | inl z ↦
              rw (e, k, z)
                (ground (
                  arith,
                  q.before_empty,
                  q.none_more,
                  D.pop_front_none before q.before_empty,
                  D.pop_front_none q.emptied q.none_more,
                ))
          | inr z ↦ rw (e, k, z) (ground (arith, q.before_empty, q.none_more))
        ]
      ]
    ]

    pub waits_for_message-Same :
        (l : Line Stage) → Same at (stage_waits l) (waits_for_message D billion (at l))
    unfolding waits_for_message wait_for_message_timeout deadline_in wait_for_message_until
        Condvar.wait_until wait_until_internal from add
    waits_for_message-Same l = elim (Bool-cases l.handles.destroyed) [
      | inl e ↦ inl (rw e refl)
      | inr e ↦ elim (Bool-cases l.handles.dropping) [
        | inl k ↦ inl (rw (e, k) refl)
        | inr k ↦ rw (e, k) (ground (arith, q.before_empty, q.has, q.none_more))
      ]
    ]
