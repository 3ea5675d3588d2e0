-- ===== src/Lib.antt =====
-- A verification library for the kernel's USB host controller driver, its PCI enumeration and its
-- screen: the rings by which driver and xHC exchange work, the memory they are allocated from, the
-- words that both read, the search for the controller on the PCI bus, and the console, mouse cursor and
-- desktop with the pixels that they write.
--
-- How the parts interact. The scan (Pci) finds the controller. The driver allocates the rings from
-- the pool (Memory). It pushes transfer request blocks (Trb, SetupData) onto the command and transfer
-- rings (Ring), where the controller fetches them, and takes events from the event ring (EventRing)
-- by the interrupter's registers (Registers). A map (ArrayMap) leads from the TRB that completed to
-- its setup stage. Ports and contexts are words that driver and controller share (Port, Context).
-- The controller's driver (Xhci) takes a port from its reset to a configured device, one port at a
-- time; it keeps the devices by slot (DeviceManager), and a device (Device) reads its descriptors
-- (Descriptor), makes its class drivers (Hid) and passes completed transfers on to them. KernelMain
-- (Main) draws the desktop, chooses the controller among the devices that the scan listed and starts
-- the ports. Console, cursor (MouseCursor) and desktop draw through one writer (Graphics, Font): a
-- drawing is the list of the writer's calls, which a pixel format turns into bytes (FrameBuffer). A
-- report of the mouse driver moves the cursor.
--
-- Which file models what, with the source's paths:
-- - Prelude: the shared names, Boolean tests, lists over native numbers, laws of the bit operations.
-- - Error: kernel/error.hpp. An Error is its code; Error::Code's enumerators are the constructors.
-- - Memory: kernel/usb/memory.cpp, memory.hpp. alloc_mem is AllocMem over a record of the globals
--   memory_pool (its address) and alloc_ptr; Ceil wraps at 64 bits. Memory/Ceil, Memory/Alloc and
--   Memory/Serve hold the proofs: rounding, one request, a sequence of requests.
-- - ArrayMap: kernel/usb/arraymap.hpp. get, put and delete are Get, Put and Delete.
-- - Bitfield: bit-fields of words. Trb, with a file for each union: kernel/usb/xhci/trb.hpp;
--   Trb/Names: the tables of kernel/usb/xhci/trb.cpp. Registers, with a file for each union:
--   kernel/usb/xhci/registers.hpp. Context: kernel/usb/xhci/context.hpp.
-- - Ring: class Ring of kernel/usb/xhci/ring.cpp, ring.hpp. initialize, copy_to_last and push are
--   Initialize, CopyToLast and Push; copy_words is the state of memory part of the way through
--   CopyToLast. Ring/Consumer is the controller's side by section 4.9.2 of the xHCI specification;
--   Ring/Slots, Invariant, Refine, Fetch, Run and Torn hold the proofs.
-- - EventRing: class EventRing of the same files.
-- - Pci: kernel/arch/aarch64-linux-gnu/pci.cpp, pci.hpp. Pci/Scan is ScanAllBus and what it calls,
--   Pci/Bar is ReadBar.
-- - SetupData: kernel/usb/setupdata.hpp, and the setup stage in kernel/usb/xhci/device.cpp.
-- - Port: kernel/usb/xhci/port.cpp, port.hpp. Endpoint: kernel/usb/endpoint.hpp.
-- - Descriptor, with a file for each structure: kernel/usb/descriptor.hpp; Descriptor/Reader:
--   ConfigurationDescriptorReader and MakeEPConfig of kernel/usb/device.cpp.
-- - Elf: kernel/elf.hpp. FrameBuffer: kernel/frame_buffer_config.hpp. Speed:
--   kernel/usb/xhci/speed.hpp. Types and constants.
-- - Hid: the class drivers of kernel/usb/classdriver, keyboard and mouse as one record with a kind.
--   Hid/Keys holds proofs.
-- - Device: usb::xhci::Device of kernel/usb/xhci/device.cpp and its base usb::Device of
--   kernel/usb/device.cpp as one record. Device/Transfers: ControlIn, ControlOut, InterruptIn.
--   Device/Initialize: the phases of initialization. Device/Drivers: the part of the class drivers
--   that calls the device. Device/Events: OnTransferEventReceived and the completions.
--   Device/RoundTrip: proofs on what is read back of an issued transfer.
-- - DeviceManager: kernel/usb/xhci/devmgr.cpp. DeviceManager/Find, Invariant, Steps and Alloc:
--   proofs.
-- - Xhci: the port phases, command ring and events of kernel/usb/xhci/xhci.cpp. Xhci/Contexts: the
--   contexts it fills in. Xhci/Commands: AddressDevice, InitializeDevice, ConfigureEndpoints,
--   CompleteConfiguration. Xhci/Events: OnEvent and ProcessEvent. Xhci/Phases: the changes that one
--   call makes to the ports' phases, as a relation. Xhci/Protocol: the order that the comment above
--   port_config_phase asks for, as a relation, and the proof. Xhci/Ownership: RequestHCOwnership and
--   the extended registers of kernel/usb/xhci/registers.cpp, with a proof. Xhci/Effects, Follow,
--   Exclusive, Reach, Runs, Progress and Msb: proofs.
-- - Graphics: kernel/graphics.hpp, graphics.cpp. draw_rectangle and fill_rectangle are DrawRectangle
--   and FillRectangle, write is Write of the writer that KernelMain chose, and paint makes the calls
--   of a drawing on memory. Graphics/Shows and Layers: the colours that drawings show, one upon
--   another. Graphics/Rectangle, Memory and Frame: proofs on the rectangles, on the bytes, and on
--   drawings that stay within the frame.
-- - Font: kernel/font.cpp. get_font, write_ascii and write_string are GetFont, WriteAscii and
--   WriteString. Font/Glyphs: proofs.
-- - Console: kernel/console.cpp, console.hpp. put_string and newline are PutString and Newline.
--   Console/Terminal: the terminal that it stands for, and the refinement. Console/Branches,
--   Invariant, Rows and Screen: proofs.
-- - MouseCursor: kernel/mouse.cpp, mouse.hpp, and MouseObserver of kernel/main.cpp.
--   MouseCursor/Trail: proofs.
-- - Main: kernel/main.cpp and logger.cpp. desktop, find_xhc and probe_ports are parts of KernelMain,
--   switch_ehci_to_xhci is SwitchEhci2Xhci, log is Log. Main/Desktop, FindXhc and Probe: proofs.
-- - Tests: runs and the theorems at concrete inputs.
--
-- Numbers are natural numbers; where the source's type wraps, the wrap is written as a remainder.
-- Pointers are their 64-bit addresses, and 0 is nullptr. The ring theorems hold for rings of every
-- size from two slots on; the pool's theorems for alignments and boundaries up to 64 KiB, the
-- largest that the drivers ask for, and a pool that ends below 2 ^ 62.
--
-- The PCI scan calls itself behind every bridge, so its model counts the nested calls that are left.
-- More than 32 are enough: every nested call has one more device in a table of 32.
--
-- The loop of the reader's Next<T> is counted too: as many rounds as there are bytes left are enough,
-- where no descriptor on its way has length 0. Where a device runs it, the rounds are a parameter, and
-- the outcome is none when they are used up.
--
-- The configuration registers that io_read32 reads are a parameter (Window), any function from
-- addresses to words. They do not change during a scan, in the model.
--
-- An event handler takes what the memory and the ports' PORTSC registers read as while it runs as
-- arguments; between two events the controller may change both, and the contexts it shares with the
-- driver. A handler is none where the source's behaviour is undefined, such as a read through nullptr,
-- and where a wait does not end. A function of a class driver that an observer stands for is a number;
-- calls of observers are listed. Sizes of objects, which the compiler chooses, are a parameter (Layout).
--
-- The coordinates of the screen are integers; they are small enough for the source's int not to
-- overflow. The offset of a pixel is computed in 32 bits, as in the source. The font is a file that the
-- build links in, so its bytes are a parameter, and the text of a log line is what vsprintf gives.
--
-- The search of the extended registers is counted as well: the list goes up, so a round for each
-- four bytes below a limit that it keeps to is enough.
--
-- Not modelled: Controller::Initialize and Run, which are sequences of reads and writes of registers
-- around the operations that are modelled, the order of KernelMain's start-up and its event loop, the x86_64
-- variant of the PCI code, and the boot loader. The file and line in an Error are left out, since only the log reads them.
pub mod Prelude
pub mod Error
pub mod Memory
pub mod ArrayMap
pub mod Bitfield
pub mod Trb
pub mod Registers
pub mod Ring
pub mod EventRing
pub mod Pci
pub mod SetupData
pub mod Port
pub mod Context
pub mod Endpoint
pub mod Descriptor
pub mod Elf
pub mod FrameBuffer
pub mod Speed
pub mod Hid
pub mod Device
pub mod DeviceManager
pub mod Xhci
pub mod Graphics
pub mod Font
pub mod Console
pub mod MouseCursor
pub mod Main
pub mod Tests
