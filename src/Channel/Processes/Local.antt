-- ===== src/Channel/Processes/Local.antt =====
-- One process of several: what it sees of the shared counts, and its own references.
use shmem_util.Prelude.{ℕ, ◌+◌, ◌<◌, ◌≡◌, ◌⊎◌, true, false, usize_mod}
use shmem_util.ProcessRc.{PerProcessReferences}
use shmem_util.Channel.Handles.{Channel}
use shmem_util.Channel.Lifetime.{Live, tally}

-- A reference counter with room for `k` more clones.
abbrev pub Roomy : ℕ → PerProcessReferences → Type 0
Roomy k r = (0 < r.counter) × (r.counter + k < usize_mod)

module _ {Q : Type 0} (owner lost k es er pid : ℕ) where
  -- What the process sees with the handles `l`, where the others have `es` senders and `er` receivers:
  -- with room for `k` more uses.
  pub record At (c : Channel Q) (l : Live) : Type 0 where
    pub senders : c.senders ≡ l.senders + es
    pub receivers : c.receivers ≡ l.receivers + er
    pub up : c.dropping ≡ false
    pub stands : c.destroyed ≡ false
    pub original : c.original_pid ≡ owner
    pub references : Roomy k c.references
    pub own : pid ≡ owner → c.references ≡ record { counter = tally l + lost; pid = owner }
    pub senders_small : c.senders + k < usize_mod
    pub receivers_small : c.receivers + k < usize_mod

  -- destroyed, by the owner that has no handle left, or again so
  abbrev pub After : Channel Q → Live → Type 0
  After c l = (c.destroyed ≡ true) × (pid ≡ owner) × (tally l + lost ≡ 0) ⊎ At c l
