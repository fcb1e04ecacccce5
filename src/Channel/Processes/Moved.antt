-- ===== src/Channel/Processes/Moved.antt =====
-- A `Sender` of src/channel.rs is sent to another process, as the test of the module does: its bytes
-- move, and the references of its maker stay as they are.
use shmem_util.Prelude.{
  ℕ, suc, ◌+◌, ◌-◌, ◌<◌, ◌≡◌, ◌∙◌, ◌≢◌, inl, inr, refl, sym, ap, false, some, List, All,
  All-from_get_elem?, All-get_elem?, get_elem?, set, get_elem?-set_ne, get_elem?-set_self, sum_of,
  sum_of-set, sum_of-ge, length, Ends, arith,
}
use native.Mathlib.Decide.{ℕ_discrete}
use mathlib.Core.Path.{subst}
use mathlib.Core.List.{append-nil}
use mathlib.Core.Option.{some-injective}
use shmem_util.Channel.Processes.{Proc, System, Step, run}
use shmem_util.Channel.Processes.Counted.{
  senders_of, receivers_of, WellCounted, Allowed, Counted, Freed,
}
use shmem_util.Channel.Processes.Counts.{Followed, run-Counted}

abbrev pub gives : Proc → Proc
gives q = record q { live = record q.live { senders = q.live.senders - 1 } }

abbrev pub gets : Proc → Proc
gets r = record r { live = record r.live { senders = suc r.live.senders } }

module _ {Q : Type 0} where
  -- the process `q` at `i` gives a sender to the process `r` at `j`
  abbrev pub moved : System Q → ℕ → ℕ → Proc → Proc → System Q
  moved s i j q r = record s { procs = set (set s.procs i (gives q)) j (gets r) }

  module _ (lost k : ℕ) (s : System Q) (i j : ℕ) (q r : Proc) (counted : Counted lost k s)
      (giver : get_elem? s.procs i ≡ some q) (getter : get_elem? s.procs j ≡ some r) (apart : i ≢ j)
      (maker : q.pid ≡ s.owner)
      (alone : (m : ℕ) (p : Proc) → get_elem? s.procs m ≡ some p → p.pid ≡ s.owner → m ≡ i)
      (sends : 0 < q.live.senders) where
    getter_still : get_elem? (set s.procs i (gives q)) j ≡ some r
    getter_still = get_elem?-set_ne s.procs i j (gives q) apart ∙ getter

    same_sum :
        (f : Proc → ℕ)
        → f (gives q) + f (gets r) ≡ f q + f r
        → sum_of f (set (set s.procs i (gives q)) j (gets r)) ≡ sum_of f s.procs
    same_sum f same = omega (
      arith,
      same,
      sum_of-set f (set s.procs i (gives q)) j (gets r) {x = r} getter_still,
      sum_of-set f s.procs i (gives q) {x = q} giver,
      sum_of-ge f s.procs i {x = q} giver,
      sum_of-ge f (set s.procs i (gives q)) j {x = r} getter_still,
    )

    gives-WellCounted : WellCounted s.owner (suc lost) k (gives q)
    gives-WellCounted =
        let (room, own) = All-get_elem? _ s.procs i giver counted.each in
        (room, λ e. let same = own maker in ground arith)

    gets-WellCounted : WellCounted s.owner (suc lost) k (gets r)
    gets-WellCounted =
        let (room, own) = All-get_elem? _ s.procs j getter counted.each in
        (room, λ e. absurd (apart (sym (alone j r getter e))))

    other-WellCounted :
        (m : ℕ) (p : Proc)
        → m ≢ i
        → get_elem? s.procs m ≡ some p
        → WellCounted s.owner (suc lost) k p
    other-WellCounted m p other there =
        let (room, own) = All-get_elem? _ s.procs m there counted.each in
        (room, λ e. absurd (other (alone m p there e)))

    found :
        (m : ℕ) (p v : Proc) (xs : List Proc)
        → get_elem? xs m ≡ some p
        → get_elem? xs m ≡ some v
        → WellCounted s.owner (suc lost) k v
        → WellCounted s.owner (suc lost) k p
    found m p v xs e e' h =
        let same : v ≡ p = some-injective v p (sym e' ∙ e) in
        subst (WellCounted s.owner (suc lost) k) same h

    each_one :
        (m : ℕ) (p : Proc)
        → get_elem? (set (set s.procs i (gives q)) j (gets r)) m ≡ some p
        → WellCounted s.owner (suc lost) k p
    each_one m p e = elim (ℕ_discrete j m) [
      | yes at_j ↦
          found j p (gets r) _ (ap (get_elem? _) at_j ∙ e)
            (get_elem?-set_self (set s.procs i (gives q)) j (gets r) {x = r} getter_still)
            gets-WellCounted
      | no not_j ↦
          let here = sym (get_elem?-set_ne (set s.procs i (gives q)) j m (gets r) not_j) ∙ e in
          elim (ℕ_discrete i m) [
            | yes at_i ↦
                found i p (gives q) _ (ap (get_elem? _) at_i ∙ here)
                  (get_elem?-set_self s.procs i (gives q) {x = q} giver) gives-WellCounted
            | no not_i ↦
                other-WellCounted m p (λ e. not_i (sym e))
                  (sym (get_elem?-set_ne s.procs i m (gives q) not_i) ∙ here)
          ]
    ]

    move-Counted : Counted (suc lost) k (moved s i j q r)
    move-Counted = record {
      senders = omega (arith, counted.senders, same_sum senders_of (omega (arith, sends)));
      receivers = omega (arith, counted.receivers, same_sum receivers_of refl);
      up = counted.up;
      stands = counted.stands;
      each = All-from_get_elem? _ _ each_one;
      senders_small = counted.senders_small;
      receivers_small = counted.receivers_small;
    }

  not-Freed : (lost : ℕ) (s : System Q) → ¬ Freed (suc lost) s
  not-Freed lost s (gone, (i, q, item, mine, none_left)) = absurd (omega arith)

  still_stands :
      (lost : ℕ) (s : System Q) (xs : List Step)
      → Followed (suc lost) s xs
      → Ends (run s xs) (λ s'. s'.destroyed ≡ false)
  still_stands lost s xs (ys, zs, split, (s', ended, inl freed)) = absurd (not-Freed lost s' freed)
  still_stands lost s xs (ys, zs, split, (s', ended, inr (counted, all_followed))) =
      let same : xs ≡ ys = split ∙ rw all_followed (append-nil ys) in
      (s', ap (run s) same ∙ ended, counted.stands)

  -- Where the counts are those of the live handles, and the only process with the owner's pid
  -- gives a sender to another process, no further steps destroy the channel, whatever the
  -- processes drop: drops whose pthread calls do not fail, children with pids other than the
  -- owner's, and room in the counters for as many steps.
  pub moved_sender_leaks :
      (lost : ℕ) (s : System Q) (i j : ℕ) (q r : Proc) (xs : List Step)
      → Counted lost (length xs) s
      → get_elem? s.procs i ≡ some q
      → get_elem? s.procs j ≡ some r
      → i ≢ j
      → q.pid ≡ s.owner
      → ((m : ℕ) (p : Proc) → get_elem? s.procs m ≡ some p → p.pid ≡ s.owner → m ≡ i)
      → 0 < q.live.senders
      → All (Allowed s.owner) xs
      → Ends (run (moved s i j q r) xs) (λ s'. s'.destroyed ≡ false)
  moved_sender_leaks lost s i j q r xs counted giver getter apart maker alone sends allowed =
      let start =
        move-Counted lost (length xs) s i j q r counted giver getter apart maker alone sends in
      still_stands lost (moved s i j q r) xs
        (run-Counted (suc lost) (moved s i j q r) xs start allowed)
