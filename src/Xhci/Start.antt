-- ===== src/Xhci/Start.antt =====
-- xhci.cpp, xhci.hpp: `Controller::Initialize`, and how many elements the register arrays have.
use seccamp_os.Base.{
  ℕ, ◌+◌, ◌*◌, ◌/◌, ◌<◌, ◌≤◌, ◌≡◌, ◌⊎◌, ◌∙◌, arith, Memory, read8, read32, read32-lt,
  read32-write32, read8-write32_away, bit_or-one, bit_and-low,
}
use seccamp_os.Register.{read_32, write_32}
use seccamp_os.Xhci.{
  Controller, initialize, port_reg_sets, interrupter_reg_sets, device_context_addresses, max_ports,
  max_slots_enabled, usbcmd,
}

-- `Controller::Initialize` sets bit 0 of USBCMD, and leaves its other bits and every byte outside
-- the register as they were.
pub initialize_lem :
    (c : Controller) (m : Memory)
    → (read_32 (initialize c m) (c.op + usbcmd) ≡ read_32 m (c.op + usbcmd) / 2 * 2 + 1)
      × ((b : ℕ)
          → (b < c.op + usbcmd) ⊎ (c.op + usbcmd + 4 ≤ b)
          → read8 (initialize c m) b ≡ read8 m b)
unfolding initialize read_32 write_32
initialize_lem c m = (
  read32-write32 m (c.op + 0) _
      ∙ rw (bit_or-one (read32 m (c.op + 0))) (omega (arith, read32-lt m (c.op + 0))),
  λ b away. read8-write32_away m (c.op + 0) _ b away,
)

-- The ports and the interrupters are as many as `MaxPorts` says, and the device contexts as many
-- as `MaxSlotsEnabled` says.
pub arrays-sizes :
    (c : Controller) (m : Memory)
    → ((port_reg_sets c m).size ≡ max_ports c m)
      × ((interrupter_reg_sets c m).size ≡ max_ports c m)
      × ((device_context_addresses c m).size ≡ max_slots_enabled c m)
unfolding port_reg_sets interrupter_reg_sets device_context_addresses max_ports max_slots_enabled
    read_32
arrays-sizes c m = (
  omega (arith, read32-lt m (c.cap + 4)),
  omega (arith, read32-lt m (c.cap + 4)),
  omega (arith, bit_and-low 8 (read32 m (c.op + 56))),
)
