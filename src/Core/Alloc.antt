-- ===== src/Core/Alloc.antt =====
-- core/alloc.c: block allocators whose free lists lie in the free blocks.
pub mod Blocks
pub mod FreeList
pub mod Operations
pub mod Freeing
pub mod Calloc
pub mod Init
pub mod Ready
pub mod Adjacent
pub mod Example
mod Tests
use switch_os.Base.{
  ℕ, zero, suc, ◌+◌, ◌-◌, ◌*◌, ◌/◌, ◌%◌, ◌^◌, Bool, true, false, not, ltb, leb, ◌==◌, ◌&&◌, ◌||◌,
  if◌then◌else◌, Option, none, some,
}
use switch_os.Base.Action.{⊤, Action, Result, ok, hang, pure, fail, modify, ◌>>=◌, ◌>>◌}
use switch_os.Base.Bytes.{Bytes, load64, in_range, store}

-- The allocators of `g_allocators`, by their place in it.
abbrev pub allocators : ℕ
allocators = 5

abbrev pub block_size : ℕ → ℕ
block_size i =
    if i == 0
    then 32
    else if i == 1
    then 64
    else if i == 2
    then 128
    else if i == 3
    then 256
    else 8192

abbrev pub buf_size : ℕ → ℕ
buf_size i =
    if i == 0
    then 32 * 4096
    else if i == 1
    then 64 * 1024
    else if i == 2
    then 128 * 1024
    else if i == 3
    then 256 * 1024
    else 8192 * 32

-- Memory and the allocators' heads. 0 is `NULL`.
pub record Heap : Type 0 where
  pub mem : Bytes
  pub head : ℕ → ℕ

-- `g_allocators[i]->head = a`
abbrev pub set_head : Heap → ℕ → ℕ → Heap
set_head h i a = record h { head = λ j. if j == i then a else h.head j }

-- `block->next = next`
abbrev pub set_next : Heap → ℕ → ℕ → Heap
set_next h block next = record h { mem = store 8 h.mem block next }

-- The loop of `find_allocator_for_size` over the `k` allocators from `i` on.
unfoldable pub size_loop : ℕ → ℕ → ℕ → Option ℕ
size_loop zero i size = none
size_loop (suc k) i size = if leb size (block_size i) then some i else size_loop k (suc i) size

unfoldable pub find_allocator_for_size : ℕ → Option ℕ
find_allocator_for_size size = size_loop allocators 0 size

unfoldable pub malloc_from : Option ℕ → Heap → ℕ × Heap
malloc_from none h = (0, h)
malloc_from (some i) h =
    if h.head i == 0 then (0, h) else (h.head i, set_head h i (load64 h.mem (h.head i)))

unfoldable pub core_malloc : ℕ → Heap → ℕ × Heap
core_malloc size h = malloc_from (find_allocator_for_size size) h

-- `memset(ptr, 0, n)`
abbrev pub clear : Bytes → ℕ → ℕ → Bytes
clear m a n x = if in_range a n x then 0 else m x

-- The product of the counts wraps around.
unfoldable pub core_calloc : ℕ → ℕ → Heap → ℕ × Heap
core_calloc count size h =
    let total_size = count * size % 2 ^ 64 in
    let (ptr, h') = core_malloc total_size h in
    if ptr == 0 then (0, h') else (ptr, record h' { mem = clear h'.mem ptr total_size })

-- `buffer i` is the address of the buffer of allocator `i`.
module _ (buffer : ℕ → ℕ) where
  -- The loop of `find_allocator_for_allocation`, which accepts the end of a buffer.
  unfoldable pub allocation_loop : ℕ → ℕ → ℕ → Option ℕ
  allocation_loop zero i addr = none
  allocation_loop (suc k) i addr =
      if leb (buffer i) addr && leb addr (buffer i + buf_size i)
      then some i
      else allocation_loop k (suc i) addr

  unfoldable pub find_allocator_for_allocation : ℕ → Option ℕ
  find_allocator_for_allocation addr = allocation_loop allocators 0 addr

  unfoldable pub free_to : Option ℕ → ℕ → Heap → Heap
  free_to none ptr h = h
  free_to (some i) ptr h = set_head (set_next h ptr (h.head i)) i ptr

  unfoldable pub core_free : ℕ → Heap → Heap
  core_free ptr h = free_to (find_allocator_for_allocation ptr) ptr h

  -- The loop that chains the blocks of allocator `i` from `addr` on.
  unfoldable pub chain_loop : ℕ → ℕ → ℕ → Action Heap ⊤
  chain_loop zero i addr = fail hang
  chain_loop (suc fuel) i addr =
      let rest = chain_loop fuel i (addr + block_size i) in
      if ltb addr (buffer i + buf_size i)
      then modify (λ h. set_next (set_head h i addr) addr (h.head i)) >> rest
      else pure tt

  unfoldable pub init_loop : ℕ → ℕ → Action Heap ⊤
  init_loop zero i = pure tt
  init_loop (suc k) i = do
    modify (λ h. set_head h i 0)
    chain_loop (buf_size i / block_size i + 1) i (buffer i)
    init_loop k (suc i)

  unfoldable pub core_init_allocators : Action Heap ⊤
  core_init_allocators = init_loop allocators 0
