-- ===== src/Slob/Sizes.antt =====
-- What `kmalloc` and the caches of hw3/slob.c remember of a block's size.
use uth_operating_systems.Base.{
  ℕ, ◌+◌, ◌-◌, ◌*◌, ◌/◌, ◌%◌, ◌^◌, ◌<◌, ◌≡◌, ◌≢◌, refl, true, false, arith, ok, ◌>>=◌, Returns,
  ◌==◌, ==-ne, ==-refl, ltb, pos,
}
use uth_operating_systems.Links.{Ptr, null}
use uth_operating_systems.Slob.{
  Slob, slobidx, slob_units_of, virt_to_page, zero_size_ptr, zero_or_null,
}
use uth_operating_systems.Slob.Free.{slob_free}
use uth_operating_systems.Slob.Alloc.{slob_alloc}
use uth_operating_systems.Slob.Front.{
  page_size, write_size, read_size, unsigned16, align, kmalloc, kfree, ksize, KmemCache, Deferring,
  free_object, kmem_cache_free, run_callbacks,
}

unsigned16-slobidx : (n : ℕ) → unsigned16 (slobidx (pos n)) ≡ n % 2 ^ 16
unsigned16-slobidx n = ground arith

write_size-memory :
    (m size : ℕ) (st : Slob)
    → ((write_size m size st).memory m ≡ slobidx (pos size))
      × ((write_size m size st).memory (m + 1) ≡ slobidx (pos (size / 2 ^ 16)))
unfolding write_size
write_size-memory m size st =
    let apart : (m == m + 1) ≡ false = ground arith in
    (rw (apart, ==-refl m) refl, rw (==-refl (m + 1)) refl)

-- The size that is stored in front of a block is read back.
read_size-write_size :
    (m size : ℕ) (st : Slob) → size < 2 ^ 32 → read_size m (write_size m size st) ≡ size
unfolding read_size
read_size-write_size m size st h =
    let (low, high) = write_size-memory m size st in
    rw (low, high) (omega (arith, unsigned16-slobidx size, unsigned16-slobidx (size / 2 ^ 16)))

write_size-slab :
    (m size : ℕ) (st : Slob) (sp : Ptr) → (write_size m size st).page_slab sp ≡ st.page_slab sp
unfolding write_size
write_size-slab m size st sp = refl

module _ (half : ℕ) where
  kmalloc-small :
      (fuel size page m : ℕ) (st st1 : Slob)
      → 0 < size
      → size < page_size - align half
      → slob_alloc fuel (size + align half) half page st ≡ ok (m, st1)
      → m ≢ null
      → kmalloc half fuel size page st ≡ ok (m + half, write_size m size st1)
  unfolding kmalloc
  kmalloc-small fuel size page m st st1 low high run given =
      let fits : ltb size (page_size - align half) ≡ true = ground arith in
      let some_size : (size == 0) ≡ false = ground arith in
      rw (fits, some_size, run, ==-ne m null given) refl

  module _ (m size : ℕ) (st : Slob) (low : zero_size_ptr < m) (bound : size < 2 ^ 32)
      (slab : st.page_slab (virt_to_page (m + half)) ≡ true) where
    back_at : m + half - half ≡ m
    back_at = omega arith

    ksize-write_size :
        (compound_order : Ptr → ℕ)
        → ksize half compound_order (m + half) (write_size m size st) ≡ ok (slob_units_of size * 2)
    unfolding ksize
    ksize-write_size compound_order =
        let there : (m + half == null) ≡ false = ground arith in
        let other : (m + half == zero_size_ptr) ≡ false = ground arith in
        rw
          (
            there,
            other,
            write_size-slab m size st (virt_to_page (m + half)),
            slab,
            back_at,
            read_size-write_size m size st bound,
          )
          refl

    kfree-write_size :
        (fuel : ℕ)
        → kfree half fuel (m + half) (write_size m size st)
          ≡ slob_free fuel m (size + align half) (write_size m size st)
    unfolding kfree
    kfree-write_size fuel =
        let there : zero_or_null (m + half) ≡ false = ground arith in
        rw
          (
            there,
            write_size-slab m size st (virt_to_page (m + half)),
            slab,
            back_at,
            read_size-write_size m size st bound,
          )
          refl

  -- If a request is not empty and fits in a page with the header, and `slob_alloc` gives a block
  -- for both behind the address of ZERO_SIZE_PTR, on a page that is marked as a slab's, then
  -- `kmalloc` returns; `ksize` of the address that it returns is the size rounded up to units; and
  -- `kfree` of it is `slob_free` of that block with the bytes that were asked of `slob_alloc`.
  pub kmalloc-kfree :
      (fuel size page m : ℕ) (st st1 : Slob) (compound_order : Ptr → ℕ) (fuel' : ℕ)
      → 0 < size
      → size < page_size - align half
      → slob_alloc fuel (size + align half) half page st ≡ ok (m, st1)
      → zero_size_ptr < m
      → st1.page_slab (virt_to_page (m + half)) ≡ true
      → Returns
          (λ r.
            (ksize half compound_order r.0 r.1 ≡ ok (slob_units_of size * 2))
            × (kfree half fuel' r.0 r.1 ≡ slob_free fuel' m (size + align half) r.1))
          (kmalloc half fuel size page st)
  kmalloc-kfree fuel size page m st st1 compound_order fuel' low high run far slab =
      let bound : size < 2 ^ 32 = omega (arith, high) in
      (
        (m + half, write_size m size st1),
        kmalloc-small fuel size page m st st1 low high run (λ z. omega arith),
        (
          ksize-write_size m size st1 far bound slab compound_order,
          kfree-write_size m size st1 far bound slab fuel',
        ),
      )

module _ (rcu_bytes : ℕ) where
  footer_back : (b n : ℕ) → (2 * b + n - n) / 2 ≡ b
  footer_back b n = omega arith

  -- For a cache whose objects are freed by RCU, `kmem_cache_free` returns with the allocator as it
  -- was, and running the callbacks that wait then is running those that waited before and freeing
  -- the object with the cache's size.
  pub kmem_cache_free-deferred :
      (fuel : ℕ) (c : KmemCache) (b : Ptr) (d : Deferring)
      → c.destroy_by_rcu ≡ true
      → Returns
          (λ d'.
            (d'.slob ≡ d.slob)
            × (run_callbacks rcu_bytes fuel d'.waiting d'.slob ≡ (
                run_callbacks rcu_bytes fuel d.waiting d.slob >>= λ st.
                free_object fuel b c.size st)))
          (kmem_cache_free rcu_bytes fuel c b d)
  unfolding kmem_cache_free run_callbacks
  kmem_cache_free-deferred fuel c b d h =
      rw h (_, refl, (refl, rw (footer_back b (c.size - rcu_bytes)) refl))
