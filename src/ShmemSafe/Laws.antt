-- ===== src/ShmemSafe/Laws.antt =====
-- What a type that may be shared owns is in shared memory, whatever it is made of.
use shmem_util.Prelude.{◌≡◌, refl, Bool, true, ◌&&◌, List, ◌∷◌, All, All-append, arith}
use shmem_util.ShmemSafe.{
  Ty, Tys, unsigned, signed, atomic_unsigned, atomic_signed, char, bool, atomic_bool, mut_pointer,
  const_pointer, atomic_pointer, vec_deque, vec, index_map, custom_box, array, tuple, shmem_alloc,
  memmap_alloc, sender, receiver, channel, mutex, condvar, other, last, more, is_alloc, accepts,
  all_accepted, is_shmem_safe, allocators, all_allocators,
}

abbrev pub AllShared : List Ty → Type 0
AllShared owned = All (λ a. a ≡ shmem_alloc) owned

-- The one allocator of the crate that may be shared.
only_alloc : (a : Ty) → is_alloc a ≡ true → (accepts a).0 ≡ true → a ≡ shmem_alloc
unfolding accepts
only_alloc shmem_alloc h k = refl
only_alloc memmap_alloc h k = absurd (ground arith)
only_alloc _ h k = absurd (ground arith)

both_true : (x y : Bool) → (x && y) ≡ true → (x ≡ true) × (y ≡ true)
both_true x y h = ground arith

owns :
    (a : Ty) (x : Bool) (owned : List Ty)
    → (x && (is_alloc a && (accepts a).0)) ≡ true
    → (x ≡ true → AllShared owned)
    → AllShared (a ∷ owned)
owns a x owned h rest =
    let (first, second) = both_true x _ h in
    let (third, fourth) = both_true (is_alloc a) _ second in (only_alloc a third fourth, rest first)

mutual
  unfolding accepts all_accepted allocators all_allocators

  alone : (t : Ty) → (accepts t).0 ≡ true → AllShared (allocators t)
  alone (unsigned w) h = tt
  alone (signed w) h = tt
  alone (atomic_unsigned w) h = tt
  alone (atomic_signed w) h = tt
  alone char h = tt
  alone bool h = tt
  alone atomic_bool h = tt
  alone (mut_pointer t) h = alone t h
  alone (const_pointer t) h = alone t h
  alone (atomic_pointer t) h = alone t h
  alone (vec_deque t a) h = owns a _ _ h (alone t)
  alone (vec t a) h = owns a _ _ h (alone t)
  alone (index_map t a) h = owns a _ _ h (alone t)
  alone (custom_box t a) h = owns a _ _ h (boxed t)
  alone (array t n) h = alone t (both_true _ _ h).0
  alone (tuple ts) h = all_alone ts (both_true _ _ h).0
  alone shmem_alloc h = tt
  alone memmap_alloc h = tt
  alone (sender t) h = alone t h
  alone (receiver t) h = alone t h
  alone (channel t) h = absurd (ground arith)
  alone (mutex t) h = absurd (ground arith)
  alone condvar h = tt
  alone other h = tt

  boxed : (t : Ty) → (accepts t).1 ≡ true → AllShared (allocators t)
  boxed (unsigned w) h = tt
  boxed (signed w) h = tt
  boxed (atomic_unsigned w) h = tt
  boxed (atomic_signed w) h = tt
  boxed char h = tt
  boxed bool h = tt
  boxed atomic_bool h = tt
  boxed (mut_pointer t) h = alone t h
  boxed (const_pointer t) h = alone t h
  boxed (atomic_pointer t) h = alone t h
  boxed (vec_deque t a) h = owns a _ _ h (alone t)
  boxed (vec t a) h = owns a _ _ h (alone t)
  boxed (index_map t a) h = owns a _ _ h (alone t)
  boxed (custom_box t a) h = owns a _ _ h (boxed t)
  boxed (array t n) h = alone t (both_true _ _ h).0
  boxed (tuple ts) h = all_alone ts (both_true _ _ h).0
  boxed shmem_alloc h = tt
  boxed memmap_alloc h = tt
  boxed (sender t) h = alone t h
  boxed (receiver t) h = alone t h
  boxed (channel t) h = absurd (ground arith)
  boxed (mutex t) h = alone t h
  boxed condvar h = tt
  boxed other h = tt

  all_alone : (ts : Tys) → all_accepted ts ≡ true → AllShared (all_allocators ts)
  all_alone last h = tt
  all_alone (more t ts) h =
      let (first, rest) = both_true _ _ h in
      All-append _ (allocators t) (all_allocators ts) (alone t first) (all_alone ts rest)

-- In a type that is accepted as `ShmemSafe`, every collection, box and hash map at any depth
-- has `ShmemAlloc` as its allocator.
pub is_shmem_safe-AllShared : (t : Ty) → is_shmem_safe t ≡ true → AllShared (allocators t)
is_shmem_safe-AllShared t h = alone t h
