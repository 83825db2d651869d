-- ===== src/Pool.antt =====
-- memory_pool.hh: the allocator of the shared memory. Blocks that are given back wait in one linked
-- list per size; the links lie in the free blocks. Pointers are addresses.
pub mod Sizes
pub mod Stacks
pub mod Blocks
pub mod Clients
pub mod Start
pub mod Reuse
pub mod Histories
use umpi.Base.{
  ℕ, ◌+◌, ◌-◌, ◌*◌, ◌/◌, ◌^◌, Bool, not, ◌&&◌, max, u64, add64, sub64, mul64, ltb, ◌==◌,
  if◌then◌else◌, update,
}

-- alignof(std::max_align_t) and sizeof(pointer_pointer), on x86-64.
abbrev pub align_size : ℕ
align_size = 16

abbrev pub pointer_size : ℕ
pointer_size = 8

-- `align`: a mask of the low bits.
unfoldable pub align : ℕ → ℕ
align v = add64 v (align_size - 1) / align_size * align_size

-- `list`
unfoldable pub list : ℕ → ℕ
list v = sub64 v 1 / align_size

-- The template's `list_size`, by its parameter `max_dealloc_size`.
unfoldable pub list_size : ℕ → ℕ
list_size max_dealloc = (max_dealloc + align_size - 1) / align_size

-- `first_` and `count_` by size class, and the words in the shared memory that hold links.
pub record Pool : Type 0 where
  pub first : ℕ → ℕ
  pub count : ℕ → ℕ
  pub space : ℕ
  pub begin : ℕ
  pub memory : ℕ → ℕ

-- `std::align` for `size` bytes at `start`, of `space`: the aligned place and the space from there, or
-- null (0) and the same space where the bytes do not fit.
unfoldable pub std_align : ℕ → ℕ → ℕ → ℕ × ℕ
unfolding align
std_align size start space =
    let gap = sub64 (align start) start in
    if ltb space (size + gap) then (0, space) else (align start, space - gap)

-- The constructor.
unfoldable pub new_pool : ℕ → ℕ → (ℕ → ℕ) → Pool
unfolding std_align
new_pool start end memory =
    let (begin, space) = std_align (align pointer_size) start (sub64 end start) in
    record { first = λ i. 0; count = λ i. 0; space = space; begin = begin; memory = memory }

unfoldable pub push : ℕ → ℕ → Pool → Pool
push i a p = record p {
  count = update p.count i (add64 (p.count i) 1);
  memory = update p.memory a (p.first i);
  first = update p.first i a;
}

-- `pop`, without the pointer `first_[i]` that it returns.
unfoldable pub pop : ℕ → Pool → Pool
pop i p = record p {
  count = update p.count i (sub64 (p.count i) 1);
  first = update p.first i (p.memory (p.first i));
}

-- `alloc` returns null, a block, or it ends the process.
pub data Allocation : Type 0 where
  null : Allocation
  block : ℕ → Pool → Allocation
  no_memory : Allocation

-- The aligned length of a request.
unfoldable pub aligned : ℕ → ℕ
aligned len = align (max pointer_size len)

unfoldable pub alloc : ℕ → ℕ → Pool → Allocation
alloc max_dealloc len p =
    let n = aligned len in
    let i = list n in
    if len == 0
    then null
    else (if ltb i (list_size max_dealloc) && not (p.count i == 0)
        then block (p.first i) (pop i p)
        else (if ltb p.space n
            then no_memory
            else block p.begin (record p { begin = p.begin + n; space = sub64 p.space n })))

-- `dealloc` returns, or it ends the process.
pub data Deallocation : Type 0 where
  done : Pool → Deallocation
  not_allowed : Deallocation

unfoldable pub dealloc : ℕ → ℕ → ℕ → Pool → Deallocation
dealloc max_dealloc a len p =
    let i = list (aligned len) in
    if len == 0
    then done p
    else (if ltb i (list_size max_dealloc) then done (push i a p) else not_allowed)

-- `pool_allocator::allocate` and `pool_allocator::deallocate` of pool_allocator.hh, for `n` values of
-- `size` bytes.
unfoldable pub allocate : ℕ → ℕ → ℕ → Pool → Allocation
unfolding alloc
allocate max_dealloc size n p = alloc max_dealloc (mul64 n size) p

unfoldable pub deallocate : ℕ → ℕ → ℕ → ℕ → Pool → Deallocation
unfolding dealloc
deallocate max_dealloc size a n p = dealloc max_dealloc a (mul64 n size) p
