-- ===== src/Slob/FirstFit.antt =====
-- `slob_page_alloc` of hw3/slob.c, in the form that is compiled: FIRSTFIT is defined and BESTFIT is not.
use uth_operating_systems.Base.{
  ℕ, zero, suc, ◌+◌, ◌-◌, ◌*◌, ◌/◌, Option, none, some, Run, ok, out_of_fuel, ◌>>=◌, ◌==◌, leb,
  if◌then◌else◌, ℤ,
}
use uth_operating_systems.Links.{Ptr, null}
use uth_operating_systems.Slob.{
  Slob, set_slob, slob_units, slob_next, slob_last, slob_units_of, clear_slob_page_free, set_page,
}

-- `ALIGN` to `align` units, and the units that it skips; 0 is no alignment.
abbrev pub align_up : ℕ → Ptr → Ptr
align_up align p = (p + (align - 1)) / align * align

abbrev pub delta_of : ℕ → Ptr → ℕ
delta_of align p = if align == 0 then 0 else align_up align p - p

-- The loop: the first block with room enough, and the block before it.
unfoldable pub first_fit :
    ℕ → (Ptr → ℤ) → (units align : ℕ) → (prev cur : Ptr) → Run (Option (Ptr × Ptr))
unfolding slob_units slob_next slob_last
first_fit zero m units align prev cur = out_of_fuel
first_fit (suc fuel) m units align prev cur =
    let rest = first_fit fuel m units align cur (slob_next m cur) in
    if leb (units + delta_of align cur) (slob_units m cur)
    then ok (some (prev, cur))
    else if slob_last m cur
    then ok none
    else rest

-- The head of a block that starts too early for the alignment is a block of its own.
unfoldable pub split_head : (Ptr → ℤ) → (delta : ℕ) → Ptr → Ptr → ℤ
unfolding set_slob slob_units slob_next
split_head m delta cur =
    let aligned = cur + delta in
    let m1 = set_slob aligned (slob_units m cur - delta) (slob_next m cur) m in
    if delta == 0 then m else set_slob cur delta aligned m1

-- What follows once the block is found: the memory and the head of the free list.
unfoldable pub unlink : (Ptr → ℤ) → (units : ℕ) → (prev cur freelist : Ptr) → (Ptr → ℤ) × Ptr
unfolding set_slob slob_units slob_next
unlink m units prev cur freelist =
    let avail = slob_units m cur in
    let next = slob_next m cur in
    let rest = cur + units in
    let exact = avail == units in
    let after = if exact then next else rest in
    let m1 = if prev == null then m else set_slob prev (slob_units m prev) after m in
    (
      if exact then m1 else set_slob rest (avail - units) next m1,
      if prev == null then after else freelist,
    )

-- A page with no free units left leaves its list.
unfoldable pub clear_if_full : (left : ℕ) → Ptr → Slob → Slob
unfolding clear_slob_page_free
clear_if_full left sp st = if left == 0 then clear_slob_page_free sp st else st

unfoldable pub take_block : Ptr → (units align : ℕ) → (prev cur : Ptr) → Slob → Ptr × Slob
unfolding split_head unlink clear_if_full
take_block sp units align prev cur st =
    let delta = delta_of align cur in
    let m = split_head st.memory delta cur in
    let r = unlink m units (if delta == 0 then prev else cur) (cur + delta) (st.page sp).freelist in
    let left = (st.page sp).units - units in
    let st1 = set_page sp (record { units = left; freelist = r.1 }) (record st { memory = r.0 }) in
    (cur + delta, clear_if_full left sp st1)

-- The block that was found is taken; `NULL` if there was none.
unfoldable pub take_found : Ptr → (units align : ℕ) → Option (Ptr × Ptr) → Slob → Ptr × Slob
unfolding take_block
take_found sp units align none st = (null, st)
take_found sp units align (some found) st = take_block sp units align found.0 found.1 st

unfoldable pub slob_page_alloc : ℕ → Ptr → (size align : ℕ) → Slob → Run (Ptr × Slob)
unfolding first_fit take_found
slob_page_alloc fuel sp size align st = do
  let units = slob_units_of size
  found ← first_fit fuel st.memory units align null (st.page sp).freelist
  ok (take_found sp units align found st)
