-- ===== src/Registers.antt =====
-- kernel/usb/xhci/registers.hpp: the xHCI registers as bit-fields of their values, one module for
-- each `_Bitmap` union.
pub mod HcsParams1
pub mod HcsParams2
pub mod HcsParams3
pub mod HccParams1
pub mod Dboff
pub mod Rtsoff
pub mod HccParams2
pub mod UsbCmd
pub mod UsbSts
pub mod Crcr
pub mod Dcbaap
pub mod Config
pub mod Portsc
pub mod Portpmsc
pub mod Portli
pub mod Porthlpmc
pub mod Iman
pub mod Imod
pub mod Erstsz
pub mod Erstba
pub mod Erdp
pub mod Doorbell
pub mod ExtendedRegister
pub mod UsbLegSup
pub mod Pointers
pub mod Blocks
