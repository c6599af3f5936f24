-- ===== src/Heap.antt =====
-- libraries/increasing_heap_allocator: the heap that every allocation of the kernel and of the
-- user programs goes to. The doubly linked free list is the list of its blocks in the order of the
-- links; the header in front of an allocation is kept by the address it is written to.
mod Place
mod Count
mod Release
mod Examples
mod History
mod User
mod Kernel
mod Free
mod Calls
mod Alloc
mod Carve
mod Grow
mod Search
mod Invariant
mod Offset
mod Sizes
mod Fit
mod Scan
mod Relink
mod Walk
use emerald.Prelude.{
  ℕ, zero, suc, ◌+◌, ◌-◌, ◌*◌, ◌/◌, ◌%◌, ◌≡◌, Bool, true, false, ◌&&◌, ◌||◌, Option, none, some,
  List, [], ◌∷◌, arith, Outcome, ok, panic, undefined, ◌>>◌, ◌>>=◌, ensure, leb, ltb, ◌==◌,
  if◌then◌else◌, max,
}
use emerald.Prelude.Words.{u64_mod}

abbrev pub heap_magic : ℕ
heap_magic = 0xF0B0_CAFE

abbrev pub block_info_size : ℕ
block_info_size = 32

abbrev pub block_info_align : ℕ
block_info_align = 16

-- `mem::size_of::<HeapFreeBlock>()`: two pointers and the size.
abbrev pub free_block_header_size : ℕ
free_block_header_size = 24

-- `PAGE_SIZE`, as the kernel and the user library instantiate it.
abbrev pub page_size : ℕ
page_size = 4096

pub record AllocatedHeapBlockInfo : Type 0 where
  pub magic : ℕ
  pub size : ℕ
  pub pre_padding : ℕ

-- A block with the address it stands at; `size` includes its own header.
pub record HeapFreeBlock : Type 0 where
  pub addr : ℕ
  pub size : ℕ

pub record HeapStats : Type 0 where
  pub allocated : ℕ
  pub free_size : ℕ
  pub heap_size : ℕ

-- Where the pages come from; `none` when there are no more.
pub record PageAllocatorProvider (P : Type 0) : Type 0 where
  pub allocate_pages : P → ℕ → Outcome (Option (ℕ × P))

pub record HeapAllocator (P : Type 0) : Type 0 where
  pub heap_start : ℕ
  pub total_heap_size : ℕ
  pub free_list : List HeapFreeBlock
  pub free_size : ℕ
  pub used_size : ℕ
  pub page_allocator : P
  pub infos : ℕ → AllocatedHeapBlockInfo

abbrev pub block_end : HeapFreeBlock → ℕ
block_end b = b.addr + b.size

-- The sum wraps, and the mask clears the low bits, as every caller's alignment is a power of two.
unfoldable pub align_up : ℕ → ℕ → ℕ
align_up addr alignment =
    let sum = (addr + alignment + u64_mod - 1) % u64_mod in sum - sum % alignment

unfoldable pub is_aligned : ℕ → ℕ → Bool
is_aligned addr alignment = addr % alignment == 0

-- The two chunks of free memory that touch the block being freed, and the last one before it.
pub record Around : Type 0 where
  pub prev : Option HeapFreeBlock
  pub next : Option HeapFreeBlock
  pub closest_prev : Option HeapFreeBlock

abbrev pub nothing_around : Around
nothing_around = record { prev = none; next = none; closest_prev = none }

unfoldable pub is_closer : HeapFreeBlock → Option HeapFreeBlock → Bool
is_closer block none = true
is_closer block (some best) = ltb best.addr block.addr

-- The body of the loop of `free_block`.
unfoldable pub look : ℕ → ℕ → Around → HeapFreeBlock → Outcome Around
unfolding is_closer
look start end a block =
    if block.addr == start
    then panic
    else (ensure (leb end block.addr || leb (block_end block) start)
        >> ok (record {
          prev = if block_end block == start then some block else a.prev;
          next =
              if block_end block == start
              then a.next
              else if end == block.addr
              then some block
              else a.next;
          closest_prev =
              if ltb block.addr start && is_closer block a.closest_prev
              then some block
              else a.closest_prev;
        }))

unfoldable pub look_all : ℕ → ℕ → Around → List HeapFreeBlock → Outcome Around
unfolding look
look_all start end a [] = ok a
look_all start end a (b ∷ bs) = look start end a b >>= λ a'. look_all start end a' bs

-- What the writes through `prev` and `next` come to. No two blocks have the same address.
unfoldable pub grow_at : ℕ → ℕ → List HeapFreeBlock → List HeapFreeBlock
grow_at addr size [] = []
grow_at addr size (b ∷ bs) =
    let rest = grow_at addr size bs in
    if b.addr == addr then (record b { size = b.size + size } ∷ bs) else (b ∷ rest)

unfoldable pub remove_at : ℕ → List HeapFreeBlock → List HeapFreeBlock
remove_at addr [] = []
remove_at addr (b ∷ bs) = let rest = remove_at addr bs in if b.addr == addr then bs else (b ∷ rest)

unfoldable pub replace_at : ℕ → HeapFreeBlock → List HeapFreeBlock → List HeapFreeBlock
replace_at addr new [] = []
replace_at addr new (b ∷ bs) =
    let rest = replace_at addr new bs in if b.addr == addr then (new ∷ bs) else (b ∷ rest)

unfoldable pub insert_after : ℕ → HeapFreeBlock → List HeapFreeBlock → List HeapFreeBlock
insert_after addr new [] = []
insert_after addr new (b ∷ bs) =
    let rest = insert_after addr new bs in if b.addr == addr then (b ∷ new ∷ bs) else (b ∷ rest)

-- The merges of `free_block`.
unfoldable pub relink : ℕ → ℕ → Around → List HeapFreeBlock → List HeapFreeBlock
unfolding grow_at remove_at replace_at insert_after
relink start size a bs = elim a.prev [
  | some p ↦ elim a.next [
    | some n ↦ grow_at p.addr (size + n.size) (remove_at n.addr bs)
    | none ↦ grow_at p.addr size bs
  ]
  | none ↦ elim a.next [
    | some n ↦ replace_at n.addr (record { addr = start; size = n.size + size }) bs
    | none ↦ elim a.closest_prev [
      | some c ↦ insert_after c.addr (record { addr = start; size = size }) bs
      | none ↦ record { addr = start; size = size } ∷ bs
    ]
  ]
]

-- `free_block`, on the end of the heap and the free list.
unfoldable pub free_block : ℕ → ℕ → ℕ → List HeapFreeBlock → Outcome (List HeapFreeBlock)
unfolding look_all relink
free_block heap_end start size bs = do
  ensure (leb start heap_end)
  ensure (leb (start + size) heap_end)
  a ← look_all start (start + size) nothing_around bs
  ok (relink start size a bs)

-- The search for the best block.
unfoldable pub is_better : ℕ → HeapFreeBlock → Option HeapFreeBlock → Bool
is_better size b none = leb size b.size
is_better size b (some best) = leb size b.size && ltb b.size best.size

unfoldable pub best_fit : ℕ → Option HeapFreeBlock → List HeapFreeBlock → Option HeapFreeBlock
unfolding is_better
best_fit size best [] = best
best_fit size best (b ∷ bs) = best_fit size (if is_better size b best then some b else best) bs

abbrev is_null : List HeapFreeBlock → Bool
is_null [] = true
is_null (b ∷ bs) = false

-- `core::alloc::Layout`: `align_to`, `extend` and `pad_to_align` compute without overflow, or are
-- an error, on which the caller panics.
pub record Layout : Type 0 where
  pub size : ℕ
  pub align : ℕ

abbrev isize_max : ℕ
isize_max = 0x7FFF_FFFF_FFFF_FFFF

unfoldable pub round_up : ℕ → ℕ → ℕ
round_up size align = (size + align - 1) / align * align

-- The offset of the allocation behind its header, and the size of both, padded.
unfoldable pub whole_layout : Layout → Outcome (ℕ × ℕ)
unfolding round_up
whole_layout layout = do
  let align = max layout.align block_info_align
  ensure (leb (round_up layout.size align) isize_max)
  let offset = round_up block_info_size align
  ensure (leb (round_up (offset + layout.size) align) isize_max)
  ok (offset, round_up (offset + layout.size) align)

-- How far behind the start of a block the allocation is put.
unfoldable pub offset_in_block : ℕ → ℕ → ℕ
unfolding align_up
offset_in_block base align =
    let possible = align_up base align - base in
    if ltb possible block_info_size then possible + max block_info_size align else possible

-- The size a block gives to an allocation: all of it, where the rest could not hold a header.
unfoldable pub taken_size : ℕ → ℕ → ℕ
taken_size block_size allocation_size =
    if ltb (allocation_size + free_block_header_size) block_size
    then allocation_size
    else block_size

module _ {P : Type 0} where
  -- The memory holds anything.
  unfoldable pub new : P → (ℕ → AllocatedHeapBlockInfo) → HeapAllocator P
  new page_allocator infos = record {
    heap_start = 0;
    total_heap_size = 0;
    free_list = [];
    free_size = 0;
    used_size = 0;
    page_allocator = page_allocator;
    infos = infos;
  }

  unfoldable pub stats : HeapAllocator P → HeapStats
  stats h = record {
    allocated = h.used_size;
    free_size = h.free_size;
    heap_size = h.total_heap_size;
  }

  -- The new pages, put into the free list.
  unfoldable pub add_pages : HeapAllocator P → ℕ → ℕ → P → Outcome (HeapAllocator P)
  unfolding free_block
  add_pages h pages start provider = do
    let heap_start = if h.total_heap_size == 0 then start else h.heap_start
    let total_heap_size = h.total_heap_size + pages * page_size
    free_list ←
        if is_null h.free_list
        then ok (record { addr = start; size = pages * page_size } ∷ [])
        else free_block (heap_start + total_heap_size) start (pages * page_size) h.free_list
    ok (record h {
      heap_start = heap_start;
      total_heap_size = total_heap_size;
      free_list = free_list;
      free_size = h.free_size + pages * page_size;
      page_allocator = provider;
    })

  module _ (provider : PageAllocatorProvider P) where
    unfoldable pub allocate_more_pages : HeapAllocator P → ℕ → Outcome (HeapAllocator P)
    unfolding add_pages
    allocate_more_pages h pages = do
      ensure (ltb 0 pages)
      granted ← provider.allocate_pages h.page_allocator pages
      elim granted [ none ↦ panic | some (start, p) ↦ add_pages h pages start p ]

    -- `get_free_block`, on fuel for its recursion: it calls itself once at most.
    unfoldable pub get_free_block :
        ℕ → HeapAllocator P → ℕ → Outcome (HeapFreeBlock × HeapAllocator P)
    unfolding allocate_more_pages best_fit align_up
    get_free_block zero h size = undefined
    get_free_block (suc n) h size =
        let found = if h.total_heap_size == 0 then none else best_fit size none h.free_list in
        let again = λ (h' : HeapAllocator P). get_free_block n h' (align_up size page_size) in
        elim found [
          | some b ↦ ok (b, h)
          | none ↦ allocate_more_pages h (align_up size page_size / page_size) >>= again
        ]

  -- What `alloc` does to the block it has found.
  unfoldable pub take_block :
      HeapAllocator P → HeapFreeBlock → ℕ → ℕ → ℕ → Outcome (ℕ × HeapAllocator P)
  unfolding taken_size offset_in_block is_aligned remove_at replace_at
  take_block h block align block_offset layout_size = do
    let base = block.addr
    ensure (is_aligned base block_info_align)
    let offset = offset_in_block base align
    ensure (leb block_info_size offset)
    let allocation_size = layout_size + (offset - block_offset)
    ensure (leb allocation_size block.size)
    let taken = taken_size block.size allocation_size
    let rest : HeapFreeBlock = record {
      addr = base + allocation_size;
      size = block.size - allocation_size;
    }
    let ptr = base + offset
    ensure (is_aligned ptr align)
    let info : AllocatedHeapBlockInfo = record {
      magic = heap_magic;
      size = taken;
      pre_padding = offset;
    }
    ok (
      ptr,
      record h {
        free_list =
            if ltb (allocation_size + free_block_header_size) block.size
            then replace_at base rest h.free_list
            else remove_at base h.free_list;
        free_size = h.free_size - taken;
        used_size = h.used_size + taken;
        infos = λ a. if a == ptr - block_info_size then info else h.infos a;
      },
    )

  unfoldable pub alloc :
      PageAllocatorProvider P → HeapAllocator P → Layout → Outcome (ℕ × HeapAllocator P)
  unfolding whole_layout get_free_block take_block
  alloc provider h layout = do
    (block_offset, size) ← whole_layout layout
    (block, h') ← get_free_block provider 2 h size
    take_block h' block layout.align block_offset size

  -- What `dealloc` does with the header it has read.
  unfoldable pub release :
      HeapAllocator P → ℕ → ℕ → AllocatedHeapBlockInfo → Outcome (HeapAllocator P)
  unfolding free_block
  release h ptr size info = do
    ensure (info.magic == heap_magic)
    ensure (leb size info.size)
    ensure (leb block_info_size info.pre_padding)
    free_list ←
        free_block (h.heap_start + h.total_heap_size) (ptr - info.pre_padding) info.size h.free_list
    ok (record h {
      free_list = free_list;
      used_size = h.used_size - info.size;
      free_size = h.free_size + info.size;
    })

  unfoldable pub dealloc : HeapAllocator P → ℕ → Layout → Outcome (HeapAllocator P)
  unfolding whole_layout release
  dealloc h ptr layout = do
    ensure (ltb 0 ptr)
    (block_offset, size) ← whole_layout layout
    release h ptr size (h.infos (ptr - block_info_size))
