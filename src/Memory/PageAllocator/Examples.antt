-- ===== src/Memory/PageAllocator/Examples.antt =====
-- Runs of kernel/src/memory_management/physical_page_allocator.rs over a few pages, and the theorems
-- about it at those.
use emerald.Prelude.{
  ℕ, ◌≡◌, refl, inl, true, none, some, [], ◌∷◌, arith, Outcome, ok, undefined, ◌>>=◌,
}
use emerald.Memory.Layout.{align_up, align_down, is_aligned, physical2virtual}
use emerald.Memory.PageAllocator.{
  filled, free_page, write, Allocator, alloc, free, free_pages, init_range, add_maps, new,
}
use emerald.Memory.PageAllocator.FreeList.{IsValid, InBounds}
use emerald.Memory.PageAllocator.Calls.{
  System, Step, allocated, freed, IsSafe, here, next, Reach-IsSafe,
}
use emerald.Memory.PageAllocator.InitRange.{init_range-IsValid}

abbrev boot : Allocator
boot = record {
  head = none;
  high_mem_start = 0;
  start = 0x10000;
  limit = 0x13000;
  free_count = 0;
  used_count = 0;
  mem = λ _. filled 0;
}

-- The first two pages are free, the second one first.
abbrev two_free : Allocator
two_free = record boot {
  head = some 0x11000;
  free_count = 2;
  mem = write (write boot.mem 0x10000 (free_page none)) 0x11000 (free_page (some 0x10000));
}

abbrev one_given : Allocator
one_given = record two_free {
  head = some 0x10000;
  used_count = 1;
  mem = write two_free.mem 0x11000 (filled 1);
}

abbrev one_back : Allocator
one_back = record one_given {
  head = some 0x11000;
  free_count = 3;
  mem = write one_given.mem 0x11000 (free_page (some 0x10000));
}

two_free_run : free_pages 2 boot 0x10000 ≡ ok two_free
unfolding free_pages free is_aligned
two_free_run = refl

page_10 : InBounds 0x10000 0x13000 0 0x10000
page_10 = record {
  not_null = λ e. omega arith;
  aligned = refl;
  above = omega arith;
  below = omega arith;
  low = inl refl;
}

page_11 : InBounds 0x10000 0x13000 0 0x11000
page_11 = record {
  not_null = λ e. omega arith;
  aligned = refl;
  above = omega arith;
  below = omega arith;
  low = inl refl;
}

boot-IsValid : IsValid boot []
boot-IsValid = record { chain = refl; distinct = tt; in_range = tt; counted = refl }

two_free-IsValid : IsValid two_free (0x11000 ∷ 0x10000 ∷ [])
two_free-IsValid = record {
  chain = (refl, (some 0x10000, refl, (refl, (none, refl, refl))));
  distinct = ((λ e. omega arith, tt), (tt, tt));
  in_range = (page_11, (page_10, tt));
  counted = refl;
}

abbrev freed_twice : Outcome (ℕ × ℕ)
freed_twice = do
  (a, s) ← alloc two_free
  (b, t) ← free s a
  (c, u) ← free t a
  (d, v) ← alloc u
  (e, w) ← alloc v
  ok (d, e)

-- After a page was freed twice, the second `alloc` reads a page that it filled with ones.
double_free : freed_twice ≡ undefined
unfolding alloc free is_aligned
double_free = refl

-- The kernel ends at 2 MB of 3 MB; the memory below 1 MB is skipped.
abbrev first_page : Outcome (ℕ × ℕ)
first_page = do
  s ←
      new (λ _. filled 0) 0x200000 0
        (record { base_addr = 0; bytes = 0x80000; available = true }
          ∷ record { base_addr = 0x100000; bytes = 0x103000; available = true }
          ∷ [])
  (page, t) ← alloc s
  ok (page, s.free_count)

first_page_run : first_page ≡ ok (0xFFFF_FFFF_8020_2000, 3)
unfolding new add_maps init_range free_pages free alloc is_aligned align_up align_down
    physical2virtual
first_page_run = refl

-- Neither bound is at a page.
init_range-IsValid_example :
    (s' : Allocator) × (init_range boot 0xF123 0x12FFF ≡ ok s')
    × IsValid s' (0x11000 ∷ 0x10000 ∷ [])
init_range-IsValid_example =
    init_range-IsValid boot [] 0xF123 0x12FFF boot-IsValid (omega arith) (omega arith) (omega arith)
      tt (omega arith) (omega arith) refl

abbrev idle : System
idle = record { allocator = two_free; held = [] }

given_step : Step idle (record { allocator = one_given; held = 0x11000 ∷ [] })
unfolding alloc
given_step = allocated refl

back_step :
    Step
      (record { allocator = one_given; held = 0x11000 ∷ [] })
      (record { allocator = one_back; held = [] })
unfolding free is_aligned
back_step = freed [] [] 0x11000 refl refl

Reach-IsSafe_example : IsSafe (record { allocator = one_back; held = [] })
Reach-IsSafe_example = Reach-IsSafe (next (next here given_step) back_step) (record {
  free_pages = 0x11000 ∷ 0x10000 ∷ [];
  valid = two_free-IsValid;
  apart = two_free-IsValid.distinct;
})
