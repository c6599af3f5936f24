-- ===== src/Memory/PageAllocator.antt =====
-- kernel/src/memory_management/physical_page_allocator.rs: `PhysicalPageAllocator`, a free list that
-- is threaded through the free pages themselves. The pages are a memory from addresses to contents.
pub mod FreeList
pub mod Calls
pub mod InitRange
mod Examples
use emerald.Prelude.{
  ℕ, zero, suc, ◌+◌, ◌-◌, ◌*◌, ◌/◌, Bool, true, false, ◌&&◌, ◌||◌, not, Option, none, some, List,
  [], ◌∷◌, Outcome, ok, panic, undefined, ◌>>=◌, ◌>>◌, ensure, ltb, leb, ◌==◌, if◌then◌else◌,
}
use emerald.Memory.Layout.{
  page_4k, kernel_base, kernel_link, kernel_end, extended_offset, align_up, align_down, is_aligned,
  virtual2physical, physical2virtual,
}

-- What a page holds: 4096 copies of a byte, or a `FreePage` header with the next free page, over
-- copies of the byte 2.
pub data Page : Type 0 where
  filled : ℕ → Page
  free_page : Option ℕ → Page

abbrev pub write : (ℕ → Page) → ℕ → Page → ℕ → Page
write mem page content at = if page == at then content else mem at

pub record Allocator : Type 0 where
  pub head : Option ℕ
  pub high_mem_start : ℕ
  pub start : ℕ
  pub limit : ℕ  -- the field `end`
  pub free_count : ℕ
  pub used_count : ℕ
  pub mem : ℕ → Page

-- Reading `next` of a page that holds no `FreePage` is undefined.
unfoldable pub alloc : Allocator → Outcome (ℕ × Allocator)
alloc s = elim (s.head) [
  | none ↦ panic
  | some page ↦ elim (s.mem page) [
    | filled _ ↦ undefined
    | free_page next ↦ ok (
      page,
      record s { head = next; used_count = s.used_count + 1; mem = write s.mem page (filled 1) },
    )
  ]
]

-- The public `alloc_zeroed`.
unfoldable pub alloc_zeroed : Allocator → Outcome (ℕ × Allocator)
alloc_zeroed s = do
  (page, s') ← alloc s
  ok (page, record s' { mem = write s'.mem page (filled 0) })

-- `false` is the reply `None`.
unfoldable pub free : Allocator → ℕ → Outcome (Bool × Allocator)
free s page =
    if page == 0 || not (is_aligned page page_4k) || leb s.limit page || ltb page s.start
    then ok (false, s)
    else do
      ensure (s.high_mem_start == 0 || ltb page s.high_mem_start)
      ok (
        true,
        record s {
          head = some page;
          free_count = s.free_count + 1;
          mem = write s.mem page (free_page s.head);
        },
      )

-- The public `free`, which panics on `None`.
pub free_or_panic : Allocator → ℕ → Outcome Allocator
unfolding free
free_or_panic s page = do (valid, s') ← free s page; ensure valid; ok s'

-- `while page < end` of `init_range`, with the number of pages left.
unfoldable pub free_pages : ℕ → Allocator → ℕ → Outcome Allocator
free_pages zero s page = ok s
free_pages (suc n) s page = do
  (valid, s') ← free s page
  ensure valid
  free_pages n s' (page + page_4k)

-- The rounded end is below the start plus as many pages as the loop makes rounds.
unfoldable pub init_range : Allocator → ℕ → ℕ → Outcome Allocator
init_range s first stop = do
  let first_page = align_up first page_4k
  let stop_page = align_down stop page_4k
  ensure (ltb first_page stop_page)
  free_pages ((stop_page - first_page + page_4k - 1) / page_4k) s first_page

-- `stats`
pub stats : Allocator → ℕ × ℕ
stats s = (s.free_count, s.used_count)

-- An entry of the boot loader's memory map, with whether its type is `Available`.
pub record MemoryMap : Type 0 where
  pub base_addr : ℕ
  pub bytes : ℕ
  pub available : Bool

-- The start, in physical memory, of what the kernel does not use. The arguments are the physical
-- end of the kernel's image, rounded up, and the rounded end of the boot loader's information.
pub physical_start : ℕ → ℕ → Outcome ℕ
physical_start kernel_elf_end multiboot_end =
    if ltb kernel_elf_end multiboot_end
    then (do ensure (ltb (multiboot_end - kernel_elf_end) (page_4k * 5)); ok multiboot_end)
    else ok kernel_elf_end

-- The range of one entry of the map that is not skipped, with `start` set where the kernel is in it.
pub usable : ℕ → Allocator → MemoryMap → Outcome (Allocator × ℕ × ℕ)
usable kernel_stop s m =
    if leb m.base_addr (kernel_link - kernel_base) && leb kernel_stop (m.base_addr + m.bytes)
    then (do
      first ← physical2virtual kernel_stop
      ok (record s { start = first }, kernel_stop, align_down (m.base_addr + m.bytes) page_4k))
    else do
      ensure (leb kernel_stop m.base_addr)
      ok (s, align_up m.base_addr page_4k, align_down (m.base_addr + m.bytes) page_4k)

-- The loop over the memory map; an entry that reaches the end of the mapped memory is the last one
-- that is read.
unfoldable pub add_maps : ℕ → Allocator → List MemoryMap → Outcome Allocator
unfolding usable
add_maps kernel_stop s [] = ok s
add_maps kernel_stop s (m ∷ ms) =
    if ltb (m.base_addr + m.bytes) extended_offset || not m.available
    then add_maps kernel_stop s ms
    else do
      (s', first, stop) ← usable kernel_stop s m
      stop_virtual ←
          if leb (kernel_end - kernel_base) stop then ok kernel_end else physical2virtual stop
      first_virtual ← physical2virtual first
      if ltb first_virtual stop_virtual
          then (do
            s'' ← init_range (record s' { limit = stop_virtual }) first_virtual stop_virtual
            if leb (kernel_end - kernel_base) stop
                then ok (record s'' { high_mem_start = kernel_end })
                else add_maps kernel_stop s'' ms)
          else add_maps kernel_stop s' ms

-- `PhysicalPageAllocator::new`, over the memory as it is at boot.
unfoldable pub new : (ℕ → Page) → ℕ → ℕ → List MemoryMap → Outcome Allocator
unfolding physical_start
new mem kernel_elf_end multiboot_end maps = do
  kernel_stop ← physical_start kernel_elf_end multiboot_end
  add_maps kernel_stop
      (record {
        head = none;
        high_mem_start = 0;
        start = 0;
        limit = 0;
        free_count = 0;
        used_count = 0;
        mem = mem;
      })
      maps
