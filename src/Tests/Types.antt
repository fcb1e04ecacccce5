-- ===== src/Tests/Types.antt =====
-- A type that processes may share.
use shmem_util.Prelude.{◌≡◌, refl, true}
use shmem_util.ShmemSafe.{
  Ty, last, more, unsigned, w8, w64, vec, custom_box, mutex, tuple, array, sender, shmem_alloc,
  accepts, allocators, is_shmem_safe,
}
use shmem_util.ShmemSafe.Laws.{AllShared, is_shmem_safe-AllShared}

-- a boxed mutex of a pair: a vector of bytes, and an array of senders
abbrev shared_type : Ty
shared_type =
    custom_box
      (mutex (
        tuple (more (vec (unsigned w8) shmem_alloc) (more (array (sender (unsigned w64)) 4) last))))
      shmem_alloc

accepted : is_shmem_safe shared_type ≡ true
unfolding accepts
accepted = refl

is_shmem_safe-AllShared_example : AllShared (allocators shared_type)
is_shmem_safe-AllShared_example = is_shmem_safe-AllShared shared_type accepted
