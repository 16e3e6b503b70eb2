-- ===== src/Buddy/Tests.antt =====
-- A buddy allocator of src/tree_store/page_store/buddy_allocator.rs on a small input.
use redbx.Prelude.{◌≡◌, arith, ok}
use redbx.Buddy.{BuddyAllocator, new}
use redbx.Buddy.Built.{IsAllocator, new-IsAllocator}

new-IsAllocator_example : (a : BuddyAllocator) × (new 5 8 ≡ ok a) × IsAllocator 5 a
new-IsAllocator_example =
    new-IsAllocator 5 8 (omega arith) (omega arith) (omega arith) (omega arith)
