-- ===== src/Autoclean.antt =====
-- src/autoclean.rs: a block that is given back when it is dropped. The file is no part of the build: its
-- module is commented out in src/lib.rs.
pub mod Laws
use shmem_util.Prelude.{ℕ, Exec, done, ◌>>=◌, Result, ok, err}
use shmem_util.Memmap.{Layout, AllocError}

-- The trait `Alloc` of `alloc_collections`, for allocators whose calls may panic. `A` is what a call
-- changes: the allocator with the memory behind it.
pub record Alloc (A : Type 0) : Type 0 where
  pub alloc : A → Layout → Exec (Result ℕ AllocError × A)
  pub dealloc : A → ℕ → Layout → Exec A

pub record Scoped (A : Type 0) : Type 0 where
  pub ptr : ℕ
  pub layout : Layout
  pub allocator : A

module _ {A : Type 0} (M : Alloc A) where
  -- `?` on the answer of `alloc`; after an error the allocator is dropped, and what is behind it is left.
  abbrev pub scoped : Layout → Result ℕ AllocError × A → Result (Scoped A) (AllocError × A)
  scoped layout (ok ptr, a) = ok (record { ptr = ptr; layout = layout; allocator = a })
  scoped layout (err e, a) = err (e, a)

  unfoldable pub new : A → Layout → Exec (Result (Scoped A) (AllocError × A))
  new allocator layout = do answer ← M.alloc allocator layout; done (scoped layout answer)

  unfoldable pub as_ptr : Scoped A → ℕ
  as_ptr s = s.ptr

  unfoldable pub into_raw : Scoped A → ℕ × A
  into_raw s = (s.ptr, s.allocator)

  unfoldable pub drop : Scoped A → Exec A
  drop s = M.dealloc s.allocator s.ptr s.layout
