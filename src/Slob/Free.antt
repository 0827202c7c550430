-- ===== src/Slob/Free.antt =====
-- `slob_free` of hw3/slob.c, and the pages' way back to the page allocator.
use uth_operating_systems.Base.{
  ℕ, zero, suc, ◌+◌, ◌-◌, ◌%◌, ◌^◌, not, ◌&&◌, Run, ok, bug, out_of_fuel, ◌>>=◌, ◌==◌, ltb,
  if◌then◌else◌, update, false, ℤ,
}
use uth_operating_systems.Links.{Ptr}
use uth_operating_systems.Slob.{
  Slob, SlobList, free_slob_small, free_slob_medium, free_slob_large, page_units, page_base,
  virt_to_page, set_slob, slob_units, slob_next, slob_last, slob_units_of, set_slob_page_free,
  clear_slob_page_free, set_page, zero_or_null,
}

-- The list for requests of `size` bytes, by SLOB_BREAK1 and SLOB_BREAK2.
abbrev pub list_for : ℕ → SlobList
list_for size =
    if ltb size 256
    then free_slob_small
    else if ltb size 1024
    then free_slob_medium
    else free_slob_large

-- `slob_free_pages`, whose counter goes down by the size of a pointer.
unfoldable pub slob_free_pages : Slob → Slob
slob_free_pages st = record st { total_alloc_mem = (st.total_alloc_mem + 2 ^ 64 - 8) % 2 ^ 64 }

-- A block in front of the free list, which it may touch.
unfoldable pub free_front : (Ptr → ℤ) → (b : Ptr) → (units : ℕ) → (freelist : Ptr) → Ptr → ℤ
unfolding set_slob slob_units slob_next
free_front m b units freelist =
    let touches = b + units == freelist in
    set_slob b (if touches then units + slob_units m freelist else units)
      (if touches then slob_next m freelist else freelist) m

-- `while (b > next)`: the blocks between which `b` lies.
unfoldable pub free_loop : ℕ → (Ptr → ℤ) → (b prev next : Ptr) → Run (Ptr × Ptr)
unfolding slob_next
free_loop zero m b prev next = out_of_fuel
free_loop (suc fuel) m b prev next =
    let rest = free_loop fuel m b next (slob_next m next) in
    if ltb next b then rest else ok (prev, next)

-- A block between `prev` and `next`, either of which it may touch.
unfoldable pub free_between : (Ptr → ℤ) → (b : Ptr) → (units : ℕ) → (prev next : Ptr) → Ptr → ℤ
unfolding set_slob slob_units slob_next slob_last
free_between m b units prev next =
    let joins = not (slob_last m prev) && (b + units == next) in
    let m1 =
      set_slob b (if joins then units + slob_units m next else units)
        (if joins then slob_next m next else next) m in
    if prev + slob_units m1 prev == b
    then set_slob prev (slob_units m1 b + slob_units m1 prev) (slob_next m1 b) m1
    else set_slob prev (slob_units m1 prev) b m1

-- The first free block of a page that was full.
unfoldable pub free_first : Ptr → (b : Ptr) → (units size : ℕ) → Slob → Slob
unfolding set_slob set_slob_page_free
free_first sp b units size st = set_slob_page_free sp (list_for size) (
    set_page sp (record { units = units; freelist = b })
      (record st { memory = set_slob b units (page_base (b + page_units)) st.memory }))

-- A block of a page that has free ones.
unfoldable pub free_more : ℕ → Ptr → (b : Ptr) → (units : ℕ) → Slob → Run Slob
unfolding free_front free_loop free_between
free_more fuel sp b units st =
    let p = st.page sp in
    let more = p.units + units in
    if ltb b p.freelist
    then ok (
        set_page sp (record { units = more; freelist = b })
          (record st { memory = free_front st.memory b units p.freelist }))
    else (do
      place ← free_loop fuel st.memory b p.freelist (slob_next st.memory p.freelist)
      ok (
          set_page sp (record p { units = more })
            (record st { memory = free_between st.memory b units place.0 place.1 })))

unfoldable pub slob_free : ℕ → (block : Ptr) → (size : ℕ) → Slob → Run Slob
unfolding clear_slob_page_free slob_free_pages free_first free_more
slob_free fuel block size st =
    let sp = virt_to_page block in
    let units = slob_units_of size in
    let cleared = if st.page_free sp then clear_slob_page_free sp st else st in
    if zero_or_null block
    then ok st
    else if size == 0
    then bug
    else if (st.page sp).units + units == page_units
    then ok (slob_free_pages (record cleared { page_slab = update cleared.page_slab sp false }))
    else if not (st.page_free sp)
    then ok (free_first sp block units size st)
    else free_more fuel sp block units st
