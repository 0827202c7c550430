-- ===== src/Slob/Front.antt =====
-- The front end of hw3/slob.c: `kmalloc`, `kfree` and `ksize`, and the caches of objects.
use uth_operating_systems.Base.{
  ℕ, ◌+◌, ◌-◌, ◌*◌, ◌/◌, ◌^◌, Bool, not, Option, none, some, List, [], ◌∷◌, Run, ok, bug, ◌>>=◌,
  ◌==◌, ltb, if◌then◌else◌, update, ℤ, pos, negsuc,
}
use uth_operating_systems.Links.{Ptr, null}
use uth_operating_systems.Slob.{
  Slob, slobidx, slob_units_of, virt_to_page, zero_size_ptr, zero_or_null,
}
use uth_operating_systems.Slob.Free.{slob_free, slob_free_pages}
use uth_operating_systems.Slob.Alloc.{slob_alloc, slob_new_pages}

-- `PAGE_SIZE`
abbrev pub page_size : ℕ
page_size = 4096

-- `*m = size` on an unsigned int: the low half is stored first.
unfoldable pub write_size : Ptr → (size : ℕ) → Slob → Slob
write_size m size st = record st {
  memory = update (update st.memory m (slobidx (pos size))) (m + 1) (slobidx (pos (size / 2 ^ 16)));
}

abbrev pub unsigned16 : ℤ → ℕ
unsigned16 (pos n) = n
unsigned16 (negsuc n) = 2 ^ 16 - 1 - n

-- `*m`
unfoldable pub read_size : Ptr → Slob → ℕ
read_size m st = unsigned16 (st.memory m) + 2 ^ 16 * unsigned16 (st.memory (m + 1))

-- The two counters that the system calls report.
unfoldable pub get_free_mem : Slob → ℕ
get_free_mem st = st.total_free_mem

unfoldable pub get_alloc_mem : Slob → ℕ
get_alloc_mem st = st.total_alloc_mem

-- `half` is `align`, the larger of ARCH_KMALLOC_MINALIGN and ARCH_SLAB_MINALIGN, in units.
module _ (half : ℕ) where
  abbrev pub align : ℕ
  align = 2 * half

  -- `__do_kmalloc_node`; `page` is what the page allocator gives if it is asked. Tracing and leak
  -- checking are left out.
  unfoldable pub kmalloc : ℕ → (size : ℕ) → (page : Ptr) → Slob → Run (Ptr × Slob)
  unfolding write_size
  kmalloc fuel size page st =
      let small = slob_alloc fuel (size + align) half page st >>= λ r.
      ok (if r.0 == null then (null, r.1) else (r.0 + half, write_size r.0 size r.1)) in
      if ltb size (page_size - align)
      then if size == 0 then ok (zero_size_ptr, st) else small
      else ok (page, slob_new_pages page st)

  -- `__free_pages` of a block that is not a slab's is outside these sources.
  unfoldable pub kfree : ℕ → (block : Ptr) → Slob → Run Slob
  unfolding read_size
  kfree fuel block st =
      let m = block - half in
      if zero_or_null block
      then ok st
      else if st.page_slab (virt_to_page block)
      then slob_free fuel m (read_size m st + align) st
      else ok st

  -- `compound_order` of the block's page is a parameter.
  unfoldable pub ksize : (compound_order : Ptr → ℕ) → (block : Ptr) → Slob → Run ℕ
  unfolding read_size
  ksize compound_order block st =
      let sp = virt_to_page block in
      if block == null
      then bug
      else if block == zero_size_ptr
      then ok 0
      else if not (st.page_slab sp)
      then ok (page_size * 2 ^ compound_order sp)
      else ok (slob_units_of (read_size (block - half) st) * 2)

-- `struct kmem_cache`: `destroy_by_rcu` is the flag SLAB_DESTROY_BY_RCU, `ctor` the constructor.
pub record KmemCache : Type 0 where
  pub size : ℕ
  pub align_units : ℕ
  pub destroy_by_rcu : Bool
  pub ctor : Option (Ptr → Slob → Slob)

-- `struct slob_rcu` of a block whose freeing waits: its address in bytes and its `size`.
pub record SlobRcu : Type 0 where
  pub footer : ℕ
  pub size : ℕ

-- The allocator, and the callbacks that `call_rcu` has taken, the newest first.
pub record Deferring : Type 0 where
  pub slob : Slob
  pub waiting : List SlobRcu

-- `slob_alloc_node`, which `kmem_cache_alloc` calls.
unfoldable pub kmem_cache_alloc : ℕ → KmemCache → (page : Ptr) → Slob → Run (Ptr × Slob)
kmem_cache_alloc fuel c page st =
    (if ltb c.size page_size
      then slob_alloc fuel c.size c.align_units page st
      else ok (page, slob_new_pages page st))
    >>= λ r. ok (r.0, elim c.ctor [ some f ↦ if r.0 == null then r.1 else f r.0 r.1 | none ↦ r.1 ])

-- `__kmem_cache_free`
unfoldable pub free_object : ℕ → (b : Ptr) → (size : ℕ) → Slob → Run Slob
free_object fuel b size st =
    if ltb size page_size then slob_free fuel b size st else ok (slob_free_pages st)

-- `rcu_bytes` is `sizeof(struct slob_rcu)`.
module _ (rcu_bytes : ℕ) where
  -- `__kmem_cache_create`
  unfoldable pub kmem_cache_create : (destroy_by_rcu : Bool) → KmemCache → KmemCache
  kmem_cache_create destroy_by_rcu c = record c {
    size = if destroy_by_rcu then c.size + rcu_bytes else c.size;
    destroy_by_rcu = destroy_by_rcu;
  }

  unfoldable pub kmem_cache_free : ℕ → KmemCache → (b : Ptr) → Deferring → Run Deferring
  unfolding free_object
  kmem_cache_free fuel c b d =
      let footer : SlobRcu = record { footer = 2 * b + (c.size - rcu_bytes); size = c.size } in
      if c.destroy_by_rcu
      then ok (record d { waiting = footer ∷ d.waiting })
      else (free_object fuel b c.size d.slob >>= λ st. ok (record d { slob = st }))

  -- `kmem_rcu_free`, the callback.
  unfoldable pub kmem_rcu_free : ℕ → SlobRcu → Slob → Run Slob
  unfolding free_object
  kmem_rcu_free fuel r st =
      let b = (r.footer - (r.size - rcu_bytes)) / 2 in free_object fuel b r.size st

  -- The callbacks run, the oldest first.
  unfoldable pub run_callbacks : ℕ → List SlobRcu → Slob → Run Slob
  unfolding kmem_rcu_free
  run_callbacks fuel [] st = ok st
  run_callbacks fuel (r ∷ rs) st = run_callbacks fuel rs st >>= λ st'. kmem_rcu_free fuel r st'
