-- ===== src/Memory/Alloc.antt =====
-- One request to `AllocMem` of kernel/usb/memory.cpp: whether it is met, and where the block lies.
use native.Mathlib.Nat.{mul-mod_left, mul_assoc, div-add-mod, pow-suc}
use mikanos_aarch.Prelude.{
  ℕ, zero, suc, ◌+◌, ◌-◌, ◌*◌, ◌/◌, ◌%◌, ◌^◌, ◌≤◌, ◌<◌, ◌≡◌, ◌≢◌, ◌⊎◌, inl, inr, refl, ap, ◌∙◌,
  arith, pow_pos,
}
use mikanos_aarch.Memory.{Allocator, memory_pool_size, nullptr, ceil, align, bound, alloc_mem}
use mikanos_aarch.Memory.Ceil.{
  ceil_lem, round_up, le-round_up, round_up-lt, round_up-mod, round_up-le, pow_small,
}

-- No constraint, or a power of two up to 64 KiB, the largest that the drivers ask for.
abbrev pub IsAlignment : ℕ → Type 0
IsAlignment a = (a ≡ 0) ⊎ ((k : ℕ) × (k ≤ 16) × (a ≡ 2 ^ k))

-- The end of the pool, and the largest value that `alloc_ptr` can take.
abbrev pub pool_end : Allocator → ℕ
pool_end a = a.memory_pool + memory_pool_size

abbrev pub limit : Allocator → ℕ
limit a = round_up (pool_end a) (2 ^ 16)

pub record IsValid (a : Allocator) : Type 0 where
  pub mapped : 0 < a.memory_pool
  pub below : pool_end a ≤ 2 ^ 62
  pub started : a.memory_pool ≤ a.alloc_ptr
  pub ended : a.alloc_ptr ≤ limit a

pow_add : (k d : ℕ) → 2 ^ (k + d) ≡ 2 ^ d * 2 ^ k
pow_add zero d = rw (e) (omega arith)
  where
    e : zero + d ≡ d
    e = omega arith
pow_add (suc k) d = rw e (
    omega
      (arith, pow-suc 2 (k + d), pow-suc 2 k, pow_add k d, ap (λ (t : ℕ). 2 ^ d * t) (pow-suc 2 k)))
  where
    e : suc k + d ≡ suc (k + d)
    e = omega arith

-- A multiple of a larger power of two is a multiple of a smaller one.
multiple_split : (c k j : ℕ) → k ≤ j → c * 2 ^ j ≡ c * 2 ^ (j - k) * 2 ^ k
multiple_split c k j h = ap (λ (t : ℕ). c * 2 ^ t) e ∙ rw (pow_add k (j - k), mul_assoc)
  where
    e : j ≡ k + (j - k)
    e = omega arith

-- `Ceil` below the limit.
ceil_bounds :
    (k v m : ℕ)
    → k ≤ 16
    → v ≤ m * 2 ^ 16
    → m * 2 ^ 16 ≤ 2 ^ 63
    → (ceil v (2 ^ k) ≡ round_up v (2 ^ k)) × (v ≤ ceil v (2 ^ k)) × (ceil v (2 ^ k) ≤ m * 2 ^ 16)
ceil_bounds k v m hk hv hm = rw is_round_up (
  refl,
  le-round_up v (2 ^ k) (pow_pos k),
  rw (multiple_split m k 16 hk)
      (round_up-le v (2 ^ k) (m * 2 ^ (16 - k)) (pow_pos k) (rw (← multiple_split m k 16 hk) hv)),
)
  where
    is_round_up : ceil v (2 ^ k) ≡ round_up v (2 ^ k)
    is_round_up = ceil_lem k v (omega arith) (omega (arith, pow_small k (omega arith)))

-- One adjustment keeps `alloc_ptr` below the limit, and meets its constraint.
align_lem :
    (v al m : ℕ)
    → IsAlignment al
    → v ≤ m * 2 ^ 16
    → m * 2 ^ 16 ≤ 2 ^ 63
    → (v ≤ align v al) × (align v al ≤ m * 2 ^ 16) × ((al ≡ 0) ⊎ (align v al % al ≡ 0))
unfolding align
align_lem v al m (inl e) hv hm = ground arith
align_lem v al m (inr (k, hk, e)) hv hm =
    rw e (ground (arith, pow_pos k, ceil_bounds k v m hk hv hm, round_up-mod v (2 ^ k)))

-- What the boundary step does to a pointer that is a multiple of `2 ^ k`.
bound_lem :
    (v size b m : ℕ)
    → IsAlignment b
    → v ≤ m * 2 ^ 16
    → m * 2 ^ 16 ≤ 2 ^ 63
    → (v ≤ bound v size b) × (bound v size b ≤ m * 2 ^ 16)
unfolding bound
bound_lem v size b m (inl e) hv hm = ground arith
bound_lem v size b m (inr (k, hk, e)) hv hm = rw e (ground (arith, ceil_bounds k v m hk hv hm))

bound-within :
    (v size k m : ℕ)
    → k ≤ 16
    → v ≤ m * 2 ^ 16
    → m * 2 ^ 16 ≤ 2 ^ 63
    → size ≤ 2 ^ k
    → bound v size (2 ^ k) % 2 ^ k + size ≤ 2 ^ k
unfolding bound
bound-within v size k m hk hv hm hs = ground (
  arith,
  pow_pos k,
  pow_small k,
  ceil_bounds k v m hk hv hm,
  round_up-mod v (2 ^ k),
  round_up-le v (2 ^ k) (v / 2 ^ k + 1) (pow_pos k),
  div-add-mod v (2 ^ k),
)

-- `alloc_ptr` after the two adjustments.
abbrev pub adjusted : Allocator → ℕ → ℕ → ℕ → ℕ
adjusted a size al b = bound (align a.alloc_ptr al) size b

abbrev limit_blocks : Allocator → ℕ
limit_blocks a = (pool_end a + 2 ^ 16 - 1) / 2 ^ 16

adjusted_bounds :
    (a : Allocator) (size al b : ℕ)
    → IsValid a
    → IsAlignment al
    → IsAlignment b
    → (a.alloc_ptr ≤ adjusted a size al b) × (adjusted a size al b ≤ limit a)
adjusted_bounds a size al b v hal hb = omega (
  arith,
  align_lem a.alloc_ptr al (limit_blocks a) hal v.ended small,
  bound_lem (align a.alloc_ptr al) size b (limit_blocks a) hb
      (align_lem a.alloc_ptr al (limit_blocks a) hal v.ended small).1 small,
)
  where
    small : limit_blocks a * 2 ^ 16 ≤ 2 ^ 63
    small = omega (arith, v.below)

-- What a request returns: a null pointer, or the block from `p` to the new `alloc_ptr`, after all
-- that was handed out before.
abbrev pub Returned : Allocator → ℕ → Allocator × ℕ → Type 0
Returned a size (a', p) =
    (p ≡ nullptr) ⊎ ((a.alloc_ptr ≤ p) × (a'.alloc_ptr ≡ p + size) × (p + size ≤ pool_end a))

-- A request to a valid allocator: the pool is at an address other than 0 and ends at 2 ^ 62 at most,
-- and `alloc_ptr` is between its start and its end rounded up to 64 KiB. If the request is for at most
-- 2 ^ 32 bytes, and its alignment and its boundary are each 0 or a power of two up to 64 KiB, then it
-- keeps the allocator valid, does not move the pool or lower `alloc_ptr`, and returns a null pointer
-- or a block inside the pool behind every earlier block.
pub alloc_mem-Returned :
    (a : Allocator) (size al b : ℕ)
    → IsValid a
    → size ≤ 2 ^ 32
    → IsAlignment al
    → IsAlignment b
    → IsValid (alloc_mem a size al b).0
      × ((alloc_mem a size al b).0.memory_pool ≡ a.memory_pool)
      × (a.alloc_ptr ≤ (alloc_mem a size al b).0.alloc_ptr)
      × Returned a size (alloc_mem a size al b)
unfolding alloc_mem
alloc_mem-Returned a size al b v hs hal hb =
    ground (arith, adjusted_bounds a size al b v hal hb, v.mapped, v.below, v.started)

bound-aligned :
    (v size k j m : ℕ)
    → k ≤ j
    → j ≤ 16
    → v ≤ m * 2 ^ 16
    → m * 2 ^ 16 ≤ 2 ^ 63
    → v % 2 ^ k ≡ 0
    → bound v size (2 ^ j) % 2 ^ k ≡ 0
unfolding bound
bound-aligned v size k j m h hj hv hm e = ground (arith, ceil_bounds j v m hj hv hm, rounded)
  where
    rounded : round_up v (2 ^ j) % 2 ^ k ≡ 0
    rounded =
        ap (λ (t : ℕ). t % 2 ^ k) (multiple_split ((v + 2 ^ j - 1) / 2 ^ j) k j h)
        ∙ mul-mod_left ((v + 2 ^ j - 1) / 2 ^ j * 2 ^ (j - k)) (2 ^ k)

-- With an alignment of `2 ^ k` and a boundary of `2 ^ j`, `k ≤ j ≤ 16`, the address returned is a
-- multiple of the alignment, and a block of at most `2 ^ j` bytes does not straddle a multiple of
-- the boundary.
pub alloc_mem-placed :
    (a : Allocator) (size k j : ℕ)
    → IsValid a
    → k ≤ j
    → j ≤ 16
    → size ≤ 2 ^ j
    → ((alloc_mem a size (2 ^ k) (2 ^ j)).1 % 2 ^ k ≡ 0)
      × ((alloc_mem a size (2 ^ k) (2 ^ j)).1 % 2 ^ j + size ≤ 2 ^ j)
unfolding alloc_mem
alloc_mem-placed a size k j v h hj hs = ground (
  arith,
  pow_pos k,
  pow_pos j,
  bound-aligned ptr size k j (limit_blocks a) h hj first.1 small first_aligned,
  bound-within ptr size j (limit_blocks a) hj first.1 small hs,
)
  where
    ptr : ℕ
    ptr = align a.alloc_ptr (2 ^ k)

    small : limit_blocks a * 2 ^ 16 ≤ 2 ^ 63
    small = omega (arith, v.below)

    first :
        (a.alloc_ptr ≤ ptr) × (ptr ≤ limit_blocks a * 2 ^ 16) × ((2 ^ k ≡ 0) ⊎ (ptr % 2 ^ k ≡ 0))
    first =
        align_lem a.alloc_ptr (2 ^ k) (limit_blocks a) (inr (k, omega arith, refl)) v.ended small

    first_aligned : ptr % 2 ^ k ≡ 0
    first_aligned = ground (arith, pow_pos k, first)

align-lt :
    (v al m : ℕ) → IsAlignment al → v ≤ m * 2 ^ 16 → m * 2 ^ 16 ≤ 2 ^ 63 → align v al ≤ v + al
unfolding align
align-lt v al m (inl e) hv hm = ground arith
align-lt v al m (inr (k, hk, e)) hv hm =
    rw e (ground (arith, pow_pos k, ceil_bounds k v m hk hv hm, round_up-lt v (2 ^ k)))

bound-lt :
    (v size b m : ℕ) → IsAlignment b → v ≤ m * 2 ^ 16 → m * 2 ^ 16 ≤ 2 ^ 63 → bound v size b ≤ v + b
unfolding bound
bound-lt v size b m (inl e) hv hm = ground arith
bound-lt v size b m (inr (k, hk, e)) hv hm =
    rw e (ground (arith, pow_pos k, ceil_bounds k v m hk hv hm, round_up-lt v (2 ^ k)))

-- A request is met whenever the pool has room for the block and both roundings.
pub alloc_mem-enough :
    (a : Allocator) (size al b : ℕ)
    → IsValid a
    → IsAlignment al
    → IsAlignment b
    → a.alloc_ptr + al + b + size ≤ pool_end a
    → (alloc_mem a size al b).1 ≢ nullptr
unfolding alloc_mem
alloc_mem-enough a size al b v hal hb room = ground (
  arith,
  adjusted_bounds a size al b v hal hb,
  v.mapped,
  v.below,
  v.started,
  align-lt a.alloc_ptr al (limit_blocks a) hal v.ended small,
  bound-lt (align a.alloc_ptr al) size b (limit_blocks a) hb
      (align_lem a.alloc_ptr al (limit_blocks a) hal v.ended small).1 small,
)
  where
    small : limit_blocks a * 2 ^ 16 ≤ 2 ^ 63
    small = omega (arith, v.below)
