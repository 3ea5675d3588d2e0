-- ===== src/Descriptor/Reader.antt =====
-- `ConfigurationDescriptorReader` and `MakeEPConfig` of kernel/usb/device.cpp.
use mikanos_aarch.Prelude.{
  ℕ, zero, suc, ◌+◌, ◌<◌, ◌≤◌, ◌≡◌, ◌≢◌, ◌⊎◌, inl, inr, refl, Option, none, some, ltb, ◌==◌, ==_iff,
  if◌then◌else◌, arith, dec_lt, Bool-cases, true, false,
}
use mikanos_aarch.Endpoint.{
  EndpointType, EndpointConfig, endpoint_id, control, isochronous, bulk, interrupt,
}
use mikanos_aarch.Descriptor.{Bytes, byte, descriptor_dynamic_cast}
use mikanos_aarch.Descriptor.EndpointDescriptor

-- `Next` without a type: the reader's place `p_` afterwards, and what it returns; none is nullptr.
unfoldable pub next : Bytes → ℕ → ℕ → ℕ × Option ℕ
next b len p = let q = p + byte b p in (q, if ltb q len then some q else none)

-- `Next<T>`, with `T::kType` as a number and the rounds that the loop may make; an outer none means
-- that they were used up.
unfoldable pub next_as : ℕ → ℕ → Bytes → ℕ → ℕ → Option (ℕ × Option ℕ)
unfolding next
next_as zero type b len p = none
next_as (suc rounds) type b len p =
    let (q, n) = next b len p in
    let rest = next_as rounds type b len q in
    elim n [
      | none ↦ some (q, none)
      | some d ↦ elim (descriptor_dynamic_cast type b d) [ none ↦ rest | some e ↦ some (q, some e) ]
    ]

-- `static_cast<EndpointType>` of a field of two bits.
abbrev pub endpoint_type : ℕ → EndpointType
endpoint_type t =
    if t == 0
    then control
    else (if t == 1 then isochronous else (if t == 2 then bulk else interrupt))

-- `MakeEPConfig`.
unfoldable pub make_ep_config : Bytes → ℕ → EndpointConfig
make_ep_config b p = record {
  ep_id = endpoint_id (EndpointDescriptor.number b p) (EndpointDescriptor.dir_in b p == 1);
  ep_type = endpoint_type (EndpointDescriptor.transfer_type b p);
  max_packet_size = EndpointDescriptor.max_packet_size b p;
  interval = EndpointDescriptor.interval b p;
}

-- The place after `k` descriptors.
unfoldable pub steps : Bytes → ℕ → ℕ → ℕ
steps b p zero = p
steps b p (suc k) = steps b (p + byte b p) k

-- The reader has passed `k` descriptors behind the one at `p`, all of which start inside the buffer and
-- none of which has the wanted type, and has come to the end of the buffer or to a descriptor of that
-- type that starts inside it.
abbrev pub Found : ℕ → Bytes → ℕ → ℕ → Option (ℕ × Option ℕ) → Type 0
Found type b len p r =
    (k : ℕ) × ((j : ℕ)
      → j < k
      → (steps b p (suc j) < len) × (byte b (steps b p (suc j) + 1) ≢ type))
    × (((r ≡ some (steps b p (suc k), none)) × (len ≤ steps b p (suc k)))
        ⊎ ((r ≡ some (steps b p (suc k), some (steps b p (suc k))))
            × (steps b p (suc k) < len)
            × (byte b (steps b p (suc k) + 1) ≡ type)))

pub le-steps : (b : Bytes) (p k : ℕ) → p ≤ steps b p k
unfolding steps
le-steps b p zero = omega arith
le-steps b p (suc k) = omega (arith, le-steps b (p + byte b p) k)

-- From a descriptor that starts inside the buffer, where no descriptor that the reader comes to has
-- length 0, `Next<T>` returns: as many rounds as there are bytes left are enough. It returns the first
-- descriptor of type `T` behind the one at which it stood, where one starts inside the buffer, and
-- otherwise nullptr with the reader past the end. Only the first byte of a descriptor is known to lie
-- inside the buffer.
pub next_as-Found :
    (rounds type : ℕ) (b : Bytes) (len p : ℕ)
    → ((k : ℕ) → steps b p k < len → 0 < byte b (steps b p k))
    → p < len
    → len ≤ p + rounds
    → Found type b len p (next_as rounds type b len p)
unfolding next_as next descriptor_dynamic_cast steps
next_as-Found zero type b len p long inside enough = absurd (omega (arith, inside, enough))
next_as-Found (suc rounds) type b len p long inside enough = elim (dec_lt (p + byte b p) len) [
  | no past ↦ (0, (λ j h. absurd (omega arith)), inl (ground (arith, past), omega arith))
  | yes more ↦ elim (Bool-cases (byte b (p + byte b p + 1) == type)) [
    | inl wanted ↦
        rw (in_buffer more, wanted, next_as, next)
          (0, (λ j h. absurd (omega arith)), inr (refl, more, (==_iff _ type).0 wanted))
    | inr other ↦
        rw (in_buffer more, other, next_as, next)
          (behind (next_as rounds type b len (p + byte b p)) more other (
            next_as-Found rounds type b len (p + byte b p) (λ k h. long (suc k) h) more
              (omega (arith, long 0 inside, enough))))
  ]
]
  where
    in_buffer : p + byte b p < len → ltb (p + byte b p) len ≡ true
    in_buffer more = ground (arith, more)

    behind :
        (r : Option (ℕ × Option ℕ))
        → p + byte b p < len
        → (byte b (p + byte b p + 1) == type) ≡ false
        → Found type b len (p + byte b p) r
        → Found type b len p r
    behind r more other (k, passed, o) = (suc k, all, o)
      where
        all :
            (j : ℕ)
            → j < suc k
            → (steps b p (suc j) < len) × (byte b (steps b p (suc j) + 1) ≢ type)
        all zero h = (more, λ e. cc (other, (==_iff _ type).1 e))
        all (suc j) h = passed j (omega arith)
