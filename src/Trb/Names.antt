-- ===== src/Trb/Names.antt =====
-- The name tables of kernel/usb/xhci/trb.cpp, which the log messages index without a check.
use Prim.Native.String.{String}
use mikanos_aarch.Prelude.{
  ℕ, ◌<◌, ◌≤◌, ◌≡◌, zero, suc, some, none, refl, arith, List, [], ◌∷◌, length, get_elem?,
}
use mikanos_aarch.Trb.{Trb, trb_type}
use mikanos_aarch.Trb.TransferEventTrb

abbrev pub trb_completion_code_to_name : List String
trb_completion_code_to_name =
    "Invalid" ∷ "Success" ∷ "Data Buffer Error" ∷ "Babble Detected Error" ∷ "USB Transaction Error"
    ∷ "TRB Error" ∷ "Stall Error" ∷ "Resource Error" ∷ "Bandwidth Error"
    ∷ "No Slots Available Error" ∷ "Invalid Stream Type Error" ∷ "Slot Not Enabled Error"
    ∷ "Endpoint Not Enabled Error" ∷ "Short Packet" ∷ "Ring Underrun" ∷ "Ring Overrun"
    ∷ "VF Event Ring Full Error" ∷ "Parameter Error" ∷ "Bandwidth Overrun Error"
    ∷ "Context State Error" ∷ "No ping Response Error" ∷ "Event Ring Full Error"
    ∷ "Incompatible Device Error" ∷ "Missed Service Error" ∷ "Command Ring Stopped"
    ∷ "Command Aborted" ∷ "Stopped" ∷ "Stopped - Length Invalid" ∷ "Stopped - Short Packet"
    ∷ "Max Exit Latency Too Large Error" ∷ "Reserved" ∷ "Isoch Buffer Overrun" ∷ "Event Lost Error"
    ∷ "Undefined Error" ∷ "Invalid Stream ID Error" ∷ "Secondary Bandwidth Error"
    ∷ "Split Transaction Error" ∷ []

abbrev pub trb_type_to_name : List String
trb_type_to_name =
    "Reserved" ∷ "Normal" ∷ "Setup Stage" ∷ "Data Stage" ∷ "Status Stage" ∷ "Isoch" ∷ "Link"
    ∷ "EventData" ∷ "No-Op" ∷ "Enable Slot Command" ∷ "Disable Slot Command"
    ∷ "Address Device Command" ∷ "Configure Endpoint Command" ∷ "Evaluate Context Command"
    ∷ "Reset Endpoint Command" ∷ "Stop Endpoint Command" ∷ "Set TR Dequeue Pointer Command"
    ∷ "Reset Device Command" ∷ "Force Event Command" ∷ "Negotiate Bandwidth Command"
    ∷ "Set Latency Tolerance Value Command" ∷ "Get Port Bandwidth Command" ∷ "Force Header Command"
    ∷ "No Op Command" ∷ "Reserved" ∷ "Reserved" ∷ "Reserved" ∷ "Reserved" ∷ "Reserved" ∷ "Reserved"
    ∷ "Reserved" ∷ "Reserved" ∷ "Transfer Event" ∷ "Command Completion Event"
    ∷ "Port Status Change Event" ∷ "Bandwidth Request Event" ∷ "Doorbell Event"
    ∷ "Host Controller Event" ∷ "Device Notification Event" ∷ "MFINDEX Wrap Event" ∷ "Reserved"
    ∷ "Reserved" ∷ "Reserved" ∷ "Reserved" ∷ "Reserved" ∷ "Reserved" ∷ "Reserved" ∷ "Reserved"
    ∷ "Vendor Defined" ∷ "Vendor Defined" ∷ "Vendor Defined" ∷ "Vendor Defined" ∷ "Vendor Defined"
    ∷ "Vendor Defined" ∷ "Vendor Defined" ∷ "Vendor Defined" ∷ "Vendor Defined" ∷ "Vendor Defined"
    ∷ "Vendor Defined" ∷ "Vendor Defined" ∷ "Vendor Defined" ∷ "Vendor Defined" ∷ "Vendor Defined"
    ∷ "Vendor Defined" ∷ []

-- A TRB's type has a name in its table, whatever the TRB. The completion code of a transfer event
-- has one when it is below 37, and is past the end of its table from 37 on.
pub names_lem :
    (t : Trb)
    → ((name : String) × (get_elem? trb_type_to_name (trb_type t) ≡ some name))
      × ((TransferEventTrb.completion_code t < 37)
          → (name : String) × (get_elem? trb_completion_code_to_name
                (TransferEventTrb.completion_code t)
              ≡ some name))
      × (37 ≤ TransferEventTrb.completion_code t
          → get_elem? trb_completion_code_to_name (TransferEventTrb.completion_code t) ≡ none)
names_lem t = (
  within trb_type_to_name (trb_type t) (omega arith),
  λ h. within trb_completion_code_to_name (TransferEventTrb.completion_code t) h,
  λ h. beyond trb_completion_code_to_name (TransferEventTrb.completion_code t) h,
)
  where
    within : (xs : List String) (i : ℕ) → i < length xs → (s : String) × (get_elem? xs i ≡ some s)
    within [] i h = absurd (omega arith)
    within (x ∷ xs) zero h = (x, refl)
    within (x ∷ xs) (suc i) h = within xs i (omega (arith, h))

    beyond : (xs : List String) (i : ℕ) → length xs ≤ i → get_elem? xs i ≡ none
    beyond [] i h = refl
    beyond (x ∷ xs) zero h = absurd (omega (arith, h))
    beyond (x ∷ xs) (suc i) h = beyond xs i (omega (arith, h))
