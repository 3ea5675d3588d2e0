-- ===== src/Memory.antt =====
-- kernel/usb/memory.cpp and memory.hpp: the bump allocator of the USB drivers. The pool's address is
-- the linker's choice, so it is a field; `uintptr_t` is 64 bits wide, and 0 is nullptr.
pub mod Ceil
pub mod Alloc
pub mod Serve
use mikanos_aarch.Prelude.{
  ℕ, ◌+◌, ◌-◌, ◌*◌, ◌%◌, ◌^◌, ◌≡◌, List, [], ◌∷◌, bit_and, ltb, if◌then◌else◌,
}

abbrev pub memory_pool_size : ℕ
memory_pool_size = 4096 * 32

abbrev pub nullptr : ℕ
nullptr = 0

-- Addition and complement of `uintptr_t`.
abbrev pub add64 : ℕ → ℕ → ℕ
add64 a b = (a + b) % 2 ^ 64

abbrev pub sub64 : ℕ → ℕ → ℕ
sub64 a b = (a + 2 ^ 64 - b) % 2 ^ 64

abbrev pub not64 : ℕ → ℕ
not64 a = 2 ^ 64 - 1 - a

-- The globals `memory_pool` (its address) and `alloc_ptr`.
pub record Allocator : Type 0 where
  pub memory_pool : ℕ
  pub alloc_ptr : ℕ

-- `Ceil<uintptr_t>`; `alignment - 1` is an `unsigned int`.
unfoldable pub ceil : ℕ → ℕ → ℕ
ceil value alignment =
    bit_and (sub64 (add64 value alignment) 1) (not64 ((alignment + 2 ^ 32 - 1) % 2 ^ 32))

-- The two adjustments of `alloc_ptr`, in the order of the code.
unfoldable pub align : ℕ → ℕ → ℕ
align ptr alignment = if ltb 0 alignment then ceil ptr alignment else ptr

unfoldable pub bound : ℕ → ℕ → ℕ → ℕ
bound ptr size boundary =
    if ltb 0 boundary
    then (if ltb (ceil ptr boundary) (add64 ptr size) then ceil ptr boundary else ptr)
    else ptr

-- `AllocMem`. A request that does not fit leaves `alloc_ptr` adjusted.
unfoldable pub alloc_mem : Allocator → ℕ → ℕ → ℕ → Allocator × ℕ
alloc_mem a size alignment boundary =
    let ptr = bound (align a.alloc_ptr alignment) size boundary in
    if ltb (add64 a.memory_pool memory_pool_size) (add64 ptr size)
    then (record a { alloc_ptr = ptr }, nullptr)
    else (record a { alloc_ptr = add64 ptr size }, ptr)

-- `AllocArray<T>`, with `sizeof(T)` for the type.
abbrev pub alloc_array : Allocator → ℕ → ℕ → ℕ → ℕ → Allocator × ℕ
alloc_array a size_of num_obj alignment boundary =
    alloc_mem a ((size_of * num_obj) % 2 ^ 64) alignment boundary

-- `FreeMem` has an empty body.
abbrev pub free_mem : Allocator → ℕ → Allocator
free_mem a p = a

-- A sequence of requests, as the drivers make them one after the other.
pub record Request : Type 0 where
  pub size : ℕ
  pub alignment : ℕ
  pub boundary : ℕ

-- The blocks that were handed out: address and size, in the order of the requests.
unfoldable pub serve : Allocator → List Request → List (ℕ × ℕ)
serve a [] = []
serve a (q ∷ qs) =
    let (a', p) = alloc_mem a q.size q.alignment q.boundary in
    let rest = serve a' qs in if ltb 0 p then (p, q.size) ∷ rest else rest
