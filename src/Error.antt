-- ===== src/Error.antt =====
-- kernel/error.hpp: the error codes. `Error` carries the file and line of its origin for the log,
-- which no decision reads, so an `Error` is its code, and `MAKE_ERROR(c)` is `c`.
use Prim.Native.String.{String}
use mikanos_aarch.Prelude.{ℕ, Bool, true, false, Option, List, [], ◌∷◌, get_elem?}

-- `Error::Code`.
pub data Error : Type 0 where
  success full empty no_enough_memory index_out_of_range : Error
  host_controller_not_halted invalid_slot_id port_not_connected invalid_endpoint_number : Error
  transfer_ring_not_set already_allocated not_implemented invalid_descriptor : Error
  buffer_too_small unknown_device no_corresponding_setup_stage transfer_failed : Error
  invalid_phase unknown_xhci_speed_id no_waiter : Error

-- `operator bool`: an error is true unless it is kSuccess.
abbrev pub is_error : Error → Bool
is_error success = false
is_error _ = true

-- `code_`, the enumerator's number.
abbrev pub code : Error → ℕ
code success = 0
code full = 1
code empty = 2
code no_enough_memory = 3
code index_out_of_range = 4
code host_controller_not_halted = 5
code invalid_slot_id = 6
code port_not_connected = 7
code invalid_endpoint_number = 8
code transfer_ring_not_set = 9
code already_allocated = 10
code not_implemented = 11
code invalid_descriptor = 12
code buffer_too_small = 13
code unknown_device = 14
code no_corresponding_setup_stage = 15
code transfer_failed = 16
code invalid_phase = 17
code unknown_xhci_speed_id = 18
code no_waiter = 19

abbrev pub code_names : List String
code_names =
    "kSuccess" ∷ "kFull" ∷ "kEmpty" ∷ "kNoEnoughMemory" ∷ "kIndexOutOfRange"
    ∷ "kHostControllerNotHalted" ∷ "kInvalidSlotID" ∷ "kPortNotConnected" ∷ "kInvalidEndpointNumber"
    ∷ "kTransferRingNotSet" ∷ "kAlreadyAllocated" ∷ "kNotImplemented" ∷ "kInvalidDescriptor"
    ∷ "kBufferTooSmall" ∷ "kUnknownDevice" ∷ "kNoCorrespondingSetupStage" ∷ "kTransferFailed"
    ∷ "kInvalidPhase" ∷ "kUnknownXHCISpeedID" ∷ "kNoWaiter" ∷ []

-- `Name`; none is a read past the table.
abbrev pub name : Error → Option String
name e = get_elem? code_names (code e)
