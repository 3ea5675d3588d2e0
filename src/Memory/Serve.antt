-- ===== src/Memory/Serve.antt =====
-- A sequence of requests to `AllocMem` of kernel/usb/memory.cpp.
use mikanos_aarch.Prelude.{
  ℕ, ◌+◌, ◌^◌, ◌≤◌, ◌≡◌, subst, ltb, List, [], ◌∷◌, inl, inr, Bool-cases, if◌then◌else◌, arith,
}
use mikanos_aarch.Memory.{Allocator, Request, memory_pool_size, alloc_mem, serve}
use mikanos_aarch.Memory.Alloc.{IsAlignment, IsValid, pool_end, Returned, alloc_mem-Returned}

-- Blocks in ascending order from `lo`, apart from each other, all of them below `hi`.
abbrev pub Apart : ℕ → ℕ → List (ℕ × ℕ) → Type 0
Apart lo hi [] = Unit {0}
Apart lo hi ((p, n) ∷ bs) = (lo ≤ p) × (p + n ≤ hi) × Apart (p + n) hi bs

Apart-mono : (lo lo' hi : ℕ) (bs : List (ℕ × ℕ)) → lo ≤ lo' → Apart lo' hi bs → Apart lo hi bs
Apart-mono lo lo' hi [] h b = tt
Apart-mono lo lo' hi ((p, n) ∷ bs) h (x, y, z) = (omega arith, y, z)

Apart-cons :
    (a : Allocator) (n : ℕ) (r : Allocator × ℕ) (bs : List (ℕ × ℕ))
    → Returned a n r
    → a.alloc_ptr ≤ r.0.alloc_ptr
    → Apart r.0.alloc_ptr (pool_end a) bs
    → Apart a.alloc_ptr (pool_end a) (if ltb 0 r.1 then (r.1, n) ∷ bs else bs)
Apart-cons a n (a', p) bs got grows b = elim (Bool-cases (ltb 0 p)) [
  | inl e ↦ rw e (block (ground arith))
  | inr e ↦ rw e (Apart-mono a.alloc_ptr a'.alloc_ptr (pool_end a) bs grows b)
]
  where
    block :
        (a.alloc_ptr ≤ p) × (a'.alloc_ptr ≡ p + n) × (p + n ≤ pool_end a)
        → Apart a.alloc_ptr (pool_end a) ((p, n) ∷ bs)
    block (x, y, z) = (x, z, subst (λ (t : ℕ). Apart t (pool_end a) bs) y b)

abbrev pub AllFit : List Request → Type 0
AllFit [] = Unit {0}
AllFit (q ∷ qs) = (q.size ≤ 2 ^ 32) × IsAlignment q.alignment × IsAlignment q.boundary × AllFit qs

-- A sequence of requests to a valid allocator: the pool is at an address other than 0 and ends at
-- 2 ^ 62 at most, and `alloc_ptr` is between its start and its end rounded up to 64 KiB. Each request
-- is for at most 2 ^ 32 bytes, and its alignment and its boundary are each 0 or a power of two up to
-- 64 KiB. Then the blocks that the requests are given lie inside the pool, behind all earlier ones,
-- and no two of them overlap.
pub serve-Apart :
    (qs : List Request) (a : Allocator)
    → IsValid a
    → AllFit qs
    → Apart a.alloc_ptr (pool_end a) (serve a qs)
unfolding serve
serve-Apart [] a v f = tt
serve-Apart (q ∷ qs) a v (hs, hal, hb, f) =
    let (v', same, grows, got) = alloc_mem-Returned a q.size q.alignment q.boundary v hs hal hb in
    let a' = (alloc_mem a q.size q.alignment q.boundary).0 in
    Apart-cons a q.size (alloc_mem a q.size q.alignment q.boundary) (serve a' qs) got grows (
      subst (λ (t : ℕ). Apart a'.alloc_ptr (t + memory_pool_size) (serve a' qs)) same
        (serve-Apart qs a' v' f))
