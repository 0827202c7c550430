-- ===== src/Slob.antt =====
-- The SLOB allocator of hw3/slob.c: the state of its pages, and the encoding of free blocks
-- (`set_slob`, `slob_units`, `slob_next`, `slob_last`). Addresses count units, `sizeof(slob_t)`, two
-- bytes; a page is 4096 bytes, 2048 units, so that `slobidx_t` is a signed 16-bit integer.
pub mod FirstFit
pub mod Free
pub mod Alloc
pub mod Encoding
pub mod Blocks
pub mod Take
pub mod Choice
pub mod Insert
pub mod Coalesce
pub mod Release
pub mod Count
pub mod Invariant
pub mod Restore
pub mod Frame
pub mod Others
pub mod Freed
pub mod Heap
pub mod System
pub mod Allocation
pub mod Scan
pub mod Pages
pub mod Grow
pub mod Front
pub mod Sizes
use uth_operating_systems.Base.{
  ℕ, ◌+◌, ◌-◌, ◌*◌, ◌/◌, ◌%◌, ◌^◌, Bool, true, false, List, ◌∷◌, ◌==◌, ltb, leb, if◌then◌else◌,
  update, remove, ℤ, pos, negsuc, is_positive, is_negative,
}
use uth_operating_systems.Links.{Ptr}

-- `SLOB_UNITS(PAGE_SIZE)`
abbrev pub page_units : ℕ
page_units = 2048

-- `SLOB_UNITS`: bytes to units, rounded up.
abbrev pub slob_units_of : ℕ → ℕ
slob_units_of size = (size + 1) / 2

-- The lists of pages with free blocks.
pub data SlobList : Type 0 where
  free_slob_small free_slob_medium free_slob_large : SlobList

-- The fields of `struct page`: `units` is the number of free units.
pub record Page : Type 0 where
  pub units : ℕ
  pub freelist : Ptr

-- `memory` holds the `units` field of each block, `page` the pages by their number, `pages` the
-- three lists, `page_free` the flag `PageSlobFree`, `page_slab` the flag `PageSlab`.
pub record Slob : Type 0 where
  pub memory : Ptr → ℤ
  pub page : Ptr → Page
  pub pages : SlobList → List Ptr
  pub page_free : Ptr → Bool
  pub page_slab : Ptr → Bool
  pub total_free_mem : ℕ
  pub total_alloc_mem : ℕ

-- A number of 16 bits read as a signed one, and the conversion to `slobidx_t`.
abbrev signed16 : ℕ → ℤ
signed16 r = if ltb r (2 ^ 15) then pos r else negsuc (2 ^ 16 - 1 - r)

abbrev pub slobidx : ℤ → ℤ
slobidx (pos n) = signed16 (n % 2 ^ 16)
slobidx (negsuc n) = signed16 (2 ^ 16 - 1 - n % 2 ^ 16)

-- `p - q` on pointers, and `- z`.
abbrev pub ptr_diff : Ptr → Ptr → ℤ
ptr_diff p q = if leb q p then pos (p - q) else negsuc (q - p - 1)

abbrev pub negated : ℤ → ℤ
negated (pos n) = if n == 0 then pos 0 else negsuc (n - 1)
negated (negsuc n) = pos (n + 1)

-- `p + z`; no block lies below 0.
abbrev pub ptr_plus : Ptr → ℤ → Ptr
ptr_plus p (pos n) = p + n
ptr_plus p (negsuc n) = p - (n + 1)

abbrev above_one : ℤ → Bool
above_one (pos n) = ltb 1 n
above_one (negsuc n) = false

-- `(unsigned long)s & PAGE_MASK`
abbrev pub page_base : Ptr → Ptr
page_base s = s / page_units * page_units

-- `virt_to_page`, by its number.
abbrev pub virt_to_page : Ptr → Ptr
virt_to_page s = s / page_units

-- `ZERO_SIZE_PTR`, at 16 bytes, and `ZERO_OR_NULL_PTR`.
abbrev pub zero_size_ptr : Ptr
zero_size_ptr = 8

abbrev pub zero_or_null : Ptr → Bool
zero_or_null p = leb p zero_size_ptr

unfoldable pub set_slob : Ptr → ℕ → Ptr → (Ptr → ℤ) → Ptr → ℤ
set_slob s size next m =
    let offset = slobidx (ptr_diff next (page_base s)) in
    let units = slobidx (pos size) in
    if above_one units
    then update (update m s units) (s + 1) offset
    else update m s (slobidx (negated offset))

-- What a positive `units` field says, and 1 for the others.
abbrev units_of : ℤ → ℕ
units_of (pos n) = if n == 0 then 1 else n
units_of (negsuc n) = 1

unfoldable pub slob_units : (Ptr → ℤ) → Ptr → ℕ
slob_units m s = units_of (m s)

unfoldable pub slob_next : (Ptr → ℤ) → Ptr → Ptr
slob_next m s =
    ptr_plus (page_base s) (if is_negative (m s) then slobidx (negated (m s)) else m (s + 1))

unfoldable pub slob_last : (Ptr → ℤ) → Ptr → Bool
unfolding slob_next
slob_last m s = slob_next m s % page_units == 0

abbrev pub same_list : SlobList → SlobList → Bool
same_list free_slob_small free_slob_small = true
same_list free_slob_medium free_slob_medium = true
same_list free_slob_large free_slob_large = true
same_list _ _ = false

unfoldable pub set_slob_page_free : Ptr → SlobList → Slob → Slob
set_slob_page_free sp l st = record st {
  pages = λ k. if same_list k l then sp ∷ st.pages k else st.pages k;
  page_free = update st.page_free sp true;
}

-- A page with free blocks is on one of the lists.
unfoldable pub clear_slob_page_free : Ptr → Slob → Slob
clear_slob_page_free sp st = record st {
  pages = λ k. remove sp (st.pages k);
  page_free = update st.page_free sp false;
}

abbrev pub set_page : Ptr → Page → Slob → Slob
set_page sp p st = record st { page = update st.page sp p }
