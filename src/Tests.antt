-- ===== src/Tests.antt =====
-- Runs of the definitions at concrete inputs, and the theorems applied there.
mod Usb
mod Screen
use Prim.Native.String.{String}
use mikanos_aarch.Prelude.{
  ℕ, ◌+◌, ◌*◌, ◌-◌, ◌/◌, ◌%◌, ◌^◌, ◌≤◌, ◌<◌, ◌≡◌, ◌≢◌, ◌==◌, inl, inr, refl, true, false, Bool,
  none, some, List, [], ◌∷◌, arith, replicate, get_or, zero, suc, ==_iff, if◌then◌else◌, get_elem?,
}
use mikanos_aarch.Error.{success}
use mikanos_aarch.Memory
use mikanos_aarch.Memory.{Allocator, Request, alloc_mem, nullptr, serve}
use mikanos_aarch.Memory.Alloc
use mikanos_aarch.Memory.Serve
use mikanos_aarch.ArrayMap
use mikanos_aarch.ArrayMap.{ArrayMap, empty_map, get, put, delete}
use mikanos_aarch.ArrayMap.Laws
use mikanos_aarch.Trb.{Trb, IsTrb, zero_trb, trb_type, pointer60, set_pointer60, slot_id}
use mikanos_aarch.Trb.NormalTrb
use mikanos_aarch.Trb.AddressDeviceCommandTrb
use mikanos_aarch.Trb.RoundTrip
use mikanos_aarch.Ring.{Ring, fresh, push, copy_words, initialize}
use mikanos_aarch.Ring.Consumer.{Consumer, fetch}
use mikanos_aarch.Ring.Slots.{IsValid, payload}
use mikanos_aarch.Ring.Invariant
use mikanos_aarch.Ring.Refine
use mikanos_aarch.Ring.Fetch
use mikanos_aarch.Ring.Run
use mikanos_aarch.Ring.Run.{
  Act, pushes, fetches, run, run_queue, start, run_refines, fresh-Represents,
}
use mikanos_aarch.Ring.Torn
use mikanos_aarch.EventRing.{EventRing, read_dequeue_pointer}
use mikanos_aarch.EventRing.Laps.{pops, pops_lem, lap_state}
use mikanos_aarch.EventRing.Laps
use mikanos_aarch.Pci.{Window, ecam_base_address, make_ecam_address}
use mikanos_aarch.Pci.Scan.{scan_all_bus}
use mikanos_aarch.Pci.Bounds
use mikanos_aarch.Pci.Address
use mikanos_aarch.SetupData.{SetupData, read_setup_data, make_setup_stage_trb}
use mikanos_aarch.SetupData
use mikanos_aarch.Trb.SetupStageTrb
use mikanos_aarch.Trb.TransferEventTrb
use mikanos_aarch.Trb.Names.{trb_type_to_name, trb_completion_code_to_name}
use mikanos_aarch.Trb.Names
use mikanos_aarch.Registers.Crcr
use mikanos_aarch.Registers.Dcbaap
use mikanos_aarch.Registers.Erstba
use mikanos_aarch.Registers.Erdp
use mikanos_aarch.Registers.Portsc
use mikanos_aarch.Registers.Pointers
use mikanos_aarch.Port.{reset_word, clear_connect_status_changed, AcknowledgesNothingElse}
use mikanos_aarch.Port
use mikanos_aarch.Descriptor.{Bytes}
use mikanos_aarch.Descriptor.Reader
use mikanos_aarch.Endpoint.{endpoint_id, number, is_in}
use mikanos_aarch.Endpoint
use mikanos_aarch.Context.{device_context_index}

abbrev pool : Allocator
pool = record { memory_pool = 0x100000; alloc_ptr = 0x100008 }

pool-IsValid : Alloc.IsValid pool
pool-IsValid = record {
  mapped = omega arith;
  below = omega arith;
  started = omega arith;
  ended = omega arith;
}

-- Sixteen TRBs for a ring, an event ring segment table, and a request that no pool can meet.
abbrev requests : List Request
requests =
    record { size = 256; alignment = 64; boundary = 65536 }
    ∷ record { size = 16; alignment = 64; boundary = 65536 }
    ∷ record { size = 0x100000; alignment = 0; boundary = 0 }
    ∷ []

serve_three : serve pool requests ≡ (0x100040, 256) ∷ (0x100140, 16) ∷ []
unfolding serve alloc_mem Memory.bound Memory.ceil Memory.align
serve_three = refl

serve-Apart_example : Serve.Apart pool.alloc_ptr (Alloc.pool_end pool) (serve pool requests)
serve-Apart_example = Serve.serve-Apart requests pool pool-IsValid (
  omega arith,
  inr (6, omega arith, refl),
  inr (16, omega arith, refl),
  (
    omega arith,
    inr (6, omega arith, refl),
    inr (16, omega arith, refl),
    (omega arith, inl refl, inl refl, tt),
  ),
)

alloc_mem-Returned_example :
    Alloc.IsValid (alloc_mem pool 256 64 65536).0
    × ((alloc_mem pool 256 64 65536).0.memory_pool ≡ pool.memory_pool)
    × (pool.alloc_ptr ≤ (alloc_mem pool 256 64 65536).0.alloc_ptr)
    × Alloc.Returned pool 256 (alloc_mem pool 256 64 65536)
alloc_mem-Returned_example =
    Alloc.alloc_mem-Returned pool 256 64 65536 pool-IsValid (omega arith)
      (inr (6, omega arith, refl)) (inr (16, omega arith, refl))

-- A map from numbers with two keys and a free slot.
abbrev two_keys : ArrayMap ℕ ℕ
two_keys = (some 7, 70) ∷ (none, 0) ∷ (some 8, 80) ∷ []

abbrev same : ℕ → ℕ → Bool
same a b = a == b

two_keys-IsUnique : Laws.IsUnique same ==_iff two_keys
unfolding get
two_keys-IsUnique = (refl, (refl, tt))

get-put_example :
    get same (put two_keys 9 90) 7 ≡ (if same 9 7 then some 90 else get same two_keys 7)
unfolding get ArrayMap.has_free
get-put_example = Laws.get-put same ==_iff two_keys 9 90 7 refl refl

get-delete_example :
    get same (delete same two_keys 7) 8 ≡ (if same 7 8 then none else get same two_keys 8)
get-delete_example = Laws.get-delete same ==_iff two_keys 7 8 two_keys-IsUnique

-- A ring of four TRBs, as `Initialize` leaves it.
abbrev ring : Ring
ring = fresh 0x40000 4 (replicate 4 zero_trb)

ring-IsValid : IsValid ring
ring-IsValid =
    Invariant.fresh-IsValid 0x40000 4 (omega arith) (omega arith) (omega arith) (omega arith)

ring-Represents : Refine.Represents ring start []
ring-Represents = fresh-Represents 0x40000 4

abbrev normal : Trb
normal = NormalTrb.new

normal-ne-link : trb_type normal ≢ 6
normal-ne-link = omega arith

pushed-IsValid : IsValid (push ring normal).0
pushed-IsValid = Invariant.push-IsValid ring normal ring-IsValid normal-ne-link

pushed-Represents : Refine.Represents (push ring normal).0 start (payload normal ∷ [])
pushed-Represents =
    Refine.push-Represents ring start [] normal ring-IsValid (omega arith) (omega arith)
      ring-Represents

push-IsValid_example : IsValid (push ring normal).0
push-IsValid_example = Invariant.push-IsValid ring normal ring-IsValid normal-ne-link

push-Represents_example : Refine.Represents (push ring normal).0 start (payload normal ∷ [])
push-Represents_example =
    Refine.push-Represents ring start [] normal ring-IsValid (omega arith) (omega arith)
      ring-Represents

fetch-Represents_example :
    (t : Trb) × (c' : Consumer) × (fetch (push ring normal).0 start ≡ some (t, c'))
    × (payload t ≡ payload normal)
    × Refine.Represents (push ring normal).0 c' []
fetch-Represents_example =
    Fetch.fetch-Represents (push ring normal).0 pushed-IsValid start (payload normal) []
      pushed-Represents

copy_words-Represents_example :
    IsValid (copy_words 2 ring normal) × Refine.Represents (copy_words 2 ring normal) start []
copy_words-Represents_example =
    Torn.copy_words-Represents 2 ring normal start [] ring-IsValid (omega arith) ring-Represents

initialize-IsValid_example :
    ((initialize ring 32 pool).2 ≡ success)
    × ((initialize ring 32 pool).0
        ≡ fresh (alloc_mem pool (16 * 32 % 2 ^ 64) 64 (64 * 1024)).1 32 (replicate 32 zero_trb))
    × IsValid (initialize ring 32 pool).0
    × Alloc.IsValid (initialize ring 32 pool).1
initialize-IsValid_example =
    Invariant.initialize-IsValid 32 pool pool-IsValid (omega arith) (omega arith) ring (omega arith)

-- Five pushes and fetches on the ring of four, past the link and into the next lap.
abbrev acts : List Act
acts =
    pushes normal
    ∷ fetches
    ∷ fetches
    ∷ pushes normal
    ∷ fetches
    ∷ pushes normal
    ∷ pushes normal
    ∷ fetches
    ∷ fetches
    ∷ []

run_refines_example : run ring start acts ≡ run_queue [] acts
run_refines_example = run_refines acts ring start [] ring-IsValid ring-Represents admissible
  where
    admissible : Run.Admissible 4 [] acts
    admissible = (
      omega arith,
      normal-ne-link,
      omega arith,
      (
        omega arith,
        normal-ne-link,
        omega arith,
        (omega arith, normal-ne-link, omega arith, (omega arith, normal-ne-link, omega arith, tt)),
      ),
    )

-- An event ring of two TRBs, as `Initialize` leaves it.
abbrev events : EventRing
events = record {
  buf_ = 0x40000;
  trbs = replicate 2 zero_trb;
  buf_size = 2;
  state = true;
  erst_ = 0x50000;
  erst = record { ring_segment_base_address = 0x40000; ring_segment_size = 2 };
  interrupter = record { erstsz = 1; erstba = 0x50000; erdp = 0x40000 };
}

events-IsValid : Laps.IsValid events
events-IsValid = record {
  aligned = omega arith;
  mapped = omega arith;
  long = omega arith;
  base = refl;
  size = refl;
}

pops_lem_example :
    (read_dequeue_pointer (pops 5 events) ≡ events.buf_ + 16 * (5 % events.buf_size))
    × ((pops 5 events).state ≡ lap_state (5 / events.buf_size))
pops_lem_example = pops_lem events 5 events-IsValid refl refl

-- Every function answers as a multi-function bridge whose secondary bus is bus 0.
abbrev bridges : Window
bridges address = 0x06040000

scan_all_bus-Ends_example : Bounds.Ends [] (scan_all_bus bridges 33)
scan_all_bus-Ends_example = Bounds.scan_all_bus-Ends bridges 33 (omega arith)

make_ecam_address_fields_example :
    let a = make_ecam_address ecam_base_address 2 31 7 0x18 - ecam_base_address in
    (a < 2 ^ 28)
    × (a / 2 ^ 20 ≡ 2)
    × (a / 2 ^ 15 % 2 ^ 5 ≡ 31)
    × (a / 2 ^ 12 % 2 ^ 3 ≡ 7)
    × (a % 2 ^ 12 ≡ 0x18)
make_ecam_address_fields_example =
    Address.make_ecam_address_fields 2 31 7 0x18 (omega arith) (omega arith) (omega arith)
      (omega arith)

-- GET_DESCRIPTOR of the device descriptor.
abbrev get_descriptor : SetupData
get_descriptor = record { request_type = 0x80; request = 6; value = 0x100; index = 0; length = 18 }

address_device_command_lem_example :
    (AddressDeviceCommandTrb.pointer (AddressDeviceCommandTrb.new 0x60040 3) ≡ 0x60040)
    × (trb_type (AddressDeviceCommandTrb.new 0x60040 3) ≡ AddressDeviceCommandTrb.type)
    × (slot_id (AddressDeviceCommandTrb.new 0x60040 3) ≡ 3)
    × (AddressDeviceCommandTrb.block_set_address_request (AddressDeviceCommandTrb.new 0x60040 3)
        ≡ 0)
address_device_command_lem_example =
    RoundTrip.address_device_command_lem 0x60040 3 (omega arith) (omega arith) (omega arith)

zero_trb-IsTrb : IsTrb zero_trb
zero_trb-IsTrb = record {
  word0 = omega arith;
  word1 = omega arith;
  word2 = omega arith;
  word3 = omega arith;
}

names_lem_example :
    ((name : String) × (get_elem? trb_type_to_name (trb_type normal) ≡ some name))
    × ((TransferEventTrb.completion_code normal < 37)
        → (name : String) × (get_elem? trb_completion_code_to_name
              (TransferEventTrb.completion_code normal)
            ≡ some name))
    × (37 ≤ TransferEventTrb.completion_code normal
        → get_elem? trb_completion_code_to_name (TransferEventTrb.completion_code normal) ≡ none)
names_lem_example = Names.names_lem normal

dcbaap_set_pointer_lem_example : Dcbaap.set_pointer 0 0x100000040 ≡ 0x100000040 % 2 ^ 32
dcbaap_set_pointer_lem_example =
    Pointers.dcbaap_set_pointer_lem 0x100000040 (omega arith) (omega arith)

-- A port that is powered, enabled and connected, with a connection change and a reset change.
abbrev portsc : ℕ
portsc = 0x00220e03

reset_word_lem_example :
    (Portsc.port_reset (reset_word portsc) ≡ 1)
    × (Portsc.connect_status_change (reset_word portsc) ≡ 1)
    × (Portsc.port_power (reset_word portsc) ≡ Portsc.port_power portsc)
    × (Portsc.wake_on_connect_enable (reset_word portsc) ≡ Portsc.wake_on_connect_enable portsc)
    × (Portsc.wake_on_disconnect_enable (reset_word portsc)
        ≡ Portsc.wake_on_disconnect_enable portsc)
    × (Portsc.wake_on_over_current_enable (reset_word portsc)
        ≡ Portsc.wake_on_over_current_enable portsc)
    × (Portsc.port_enabled_disabled (reset_word portsc) ≡ 0)
    × AcknowledgesNothingElse (reset_word portsc)
reset_word_lem_example = Port.reset_word_lem portsc

endpoint_id_lem_example :
    (number (endpoint_id 2 false) ≡ 2)
    × (is_in (endpoint_id 2 false) ≡ false)
    × (device_context_index 2 false ≡ endpoint_id 2 false)
    × (1 ≤ endpoint_id 2 false)
    × (endpoint_id 2 false ≤ 31)
endpoint_id_lem_example = Endpoint.endpoint_id_lem 2 false (omega arith) (inl (omega arith))

-- A configuration, an interface and an endpoint descriptor, each cut to three bytes; type 5 is the endpoint's.
abbrev configuration : Bytes
configuration = 3 ∷ 2 ∷ 9 ∷ 3 ∷ 4 ∷ 9 ∷ 3 ∷ 5 ∷ 9 ∷ []

configuration_long :
    (k : ℕ)
    → Reader.steps configuration 0 k < 9
    → 0 < get_or configuration (Reader.steps configuration 0 k) 0
unfolding Reader.steps
configuration_long zero h = omega arith
configuration_long (suc zero) h = omega arith
configuration_long (suc (suc zero)) h = omega arith
configuration_long (suc (suc (suc k))) h =
    absurd (omega (arith, Reader.le-steps configuration 9 k, h))

next_as-Found_example : Reader.Found 5 configuration 9 0 (Reader.next_as 9 5 configuration 9 0)
next_as-Found_example =
    Reader.next_as-Found 9 5 configuration 9 0 configuration_long (omega arith) (omega arith)
