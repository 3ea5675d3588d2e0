-- ===== src/Registers/Blocks.antt =====
-- The register blocks of kernel/usb/xhci/registers.hpp: the values of their registers.
use mikanos_aarch.Prelude.{ℕ}

-- `CapabilityRegisters`.
pub record CapabilityRegisters : Type 0 where
  pub caplength : ℕ
  pub hciversion : ℕ
  pub hcsparams1 : ℕ
  pub hcsparams2 : ℕ
  pub hcsparams3 : ℕ
  pub hccparams1 : ℕ
  pub dboff : ℕ
  pub rtsoff : ℕ
  pub hccparams2 : ℕ

-- `OperationalRegisters`.
pub record OperationalRegisters : Type 0 where
  pub usbcmd : ℕ
  pub usbsts : ℕ
  pub pagesize : ℕ
  pub dnctrl : ℕ
  pub crcr : ℕ
  pub dcbaap : ℕ
  pub config : ℕ

-- `PortRegisterSet`.
pub record PortRegisterSet : Type 0 where
  pub portsc : ℕ
  pub portpmsc : ℕ
  pub portli : ℕ
  pub porthlpmc : ℕ
