-- ===== src/ShmemSafe.antt =====
-- src/shmem_safe.rs, with the impls of the trait beside the types of the other files: which types a
-- bound `T: ShmemSafe` accepts. A mutex and a condition variable are accepted in a box only.
pub mod Laws
use shmem_util.Prelude.{ℕ, zero, suc, Bool, true, false, ◌&&◌, leb, List, [], ◌∷◌, ◌++◌}

pub data Width : Type 0 where
  w8 w16 w32 w64 w128 wsize : Width

-- The types that the impls speak of, and `other` for one without an impl. The second argument of a
-- collection is its allocator.
mutual
  pub data Ty : Type 0 where
    unsigned signed atomic_unsigned atomic_signed : Width → Ty
    char bool atomic_bool : Ty
    mut_pointer const_pointer atomic_pointer : Ty → Ty
    vec_deque vec index_map custom_box : Ty → Ty → Ty
    array : Ty → ℕ → Ty
    tuple : Tys → Ty
    shmem_alloc memmap_alloc : Ty
    sender receiver channel mutex : Ty → Ty
    condvar : Ty
    other : Ty

  pub data Tys : Type 0 where
    last : Tys
    more : Ty → Tys → Tys

-- There is no atomic type of 128 bits.
abbrev pub has_atomic : Width → Bool
has_atomic w8 = true
has_atomic w16 = true
has_atomic w32 = true
has_atomic w64 = true
has_atomic w128 = false
has_atomic wsize = true

-- the impls of `Alloc` in the crate
abbrev pub is_alloc : Ty → Bool
is_alloc shmem_alloc = true
is_alloc memmap_alloc = true
is_alloc _ = false

-- the sizes that `impl_array` and `impl_tuple` are called with
abbrev pub array_size : ℕ → Bool
array_size n = leb n 32

abbrev pub tuple_size : ℕ → Bool
tuple_size n = leb 2 n && leb n 32

abbrev pub number : Tys → ℕ
number last = 0
number (more t ts) = suc (number ts)

-- what is accepted on its own, and what in a box
abbrev pub both : Bool → Bool × Bool
both b = (b, b)

unfoldable mutual
  pub accepts : Ty → Bool × Bool
  accepts (unsigned w) = both true
  accepts (signed w) = both true
  accepts (atomic_unsigned w) = both (has_atomic w)
  accepts (atomic_signed w) = both (has_atomic w)
  accepts char = both true
  accepts bool = both true
  accepts atomic_bool = both true
  accepts (mut_pointer t) = both (accepts t).0
  accepts (const_pointer t) = both (accepts t).0
  accepts (atomic_pointer t) = both (accepts t).0
  accepts (vec_deque t a) = both ((accepts t).0 && (is_alloc a && (accepts a).0))
  accepts (vec t a) = both ((accepts t).0 && (is_alloc a && (accepts a).0))
  accepts (index_map t a) = both ((accepts t).0 && (is_alloc a && (accepts a).0))
  accepts (custom_box t a) = both ((accepts t).1 && (is_alloc a && (accepts a).0))
  accepts (array t n) = both ((accepts t).0 && array_size n)
  accepts (tuple ts) = both (all_accepted ts && tuple_size (number ts))
  accepts shmem_alloc = both true
  accepts memmap_alloc = both false
  accepts (sender t) = both (accepts t).0
  accepts (receiver t) = both (accepts t).0
  accepts (channel t) = both false
  accepts (mutex t) = (false, (accepts t).0)
  accepts condvar = (false, true)
  accepts other = both false

  pub all_accepted : Tys → Bool
  all_accepted last = true
  all_accepted (more t ts) = (accepts t).0 && all_accepted ts

-- `T: ShmemSafe`
abbrev pub is_shmem_safe : Ty → Bool
is_shmem_safe t = (accepts t).0

-- Every allocator of a collection inside a type.
unfoldable mutual
  pub allocators : Ty → List Ty
  allocators (unsigned w) = []
  allocators (signed w) = []
  allocators (atomic_unsigned w) = []
  allocators (atomic_signed w) = []
  allocators char = []
  allocators bool = []
  allocators atomic_bool = []
  allocators (mut_pointer t) = allocators t
  allocators (const_pointer t) = allocators t
  allocators (atomic_pointer t) = allocators t
  allocators (vec_deque t a) = a ∷ allocators t
  allocators (vec t a) = a ∷ allocators t
  allocators (index_map t a) = a ∷ allocators t
  allocators (custom_box t a) = a ∷ allocators t
  allocators (array t n) = allocators t
  allocators (tuple ts) = all_allocators ts
  allocators shmem_alloc = []
  allocators memmap_alloc = []
  allocators (sender t) = allocators t
  allocators (receiver t) = allocators t
  allocators (channel t) = allocators t
  allocators (mutex t) = allocators t
  allocators condvar = []
  allocators other = []

  pub all_allocators : Tys → List Ty
  all_allocators last = []
  all_allocators (more t ts) = allocators t ++ all_allocators ts
