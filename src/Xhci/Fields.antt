-- ===== src/Xhci/Fields.antt =====
-- xhci_trb.hpp: fields that have been assigned read back, and the layouts of the transfer request
-- blocks agree.
use seccamp_os.Base.{◌*◌, ◌^◌, ◌<◌, ◌≡◌, arith}
use seccamp_os.Xhci.Contexts.{
  trb, configure_endpoint_command, ConfigureEndpointCommandTrb, command_dwords,
}

-- Each field has the width that the union gives it.
pub record FitsCommand (c : ConfigureEndpointCommandTrb) : Type 0 where
  pub input_context_pointer : c.input_context_pointer < 2 ^ 60
  pub cycle_bit : c.cycle_bit < 2
  pub deconfigure : c.deconfigure < 2
  pub trb_type : c.trb_type < 2 ^ 6
  pub slot_id : c.slot_id < 2 ^ 8

-- Fields that fit their widths read back from the dwords of a command that they have been
-- assigned to, and cycle bit, type and parameter are where the general transfer request block has
-- them.
pub command_round_trip :
    (c : ConfigureEndpointCommandTrb)
    → FitsCommand c
    → (configure_endpoint_command (command_dwords c) ≡ c)
      × ((trb (command_dwords c)).cycle_bit ≡ c.cycle_bit)
      × ((trb (command_dwords c)).trb_type ≡ c.trb_type)
      × ((trb (command_dwords c)).parameter ≡ c.input_context_pointer * 2 ^ 4)
unfolding configure_endpoint_command command_dwords trb
command_round_trip c h =
    let d = configure_endpoint_command (command_dwords c) in
    let input_context_pointer_e : d.input_context_pointer ≡ c.input_context_pointer =
      omega (arith, h.input_context_pointer) in
    let cycle_bit_e : d.cycle_bit ≡ c.cycle_bit = omega (arith, h.cycle_bit) in
    let deconfigure_e : d.deconfigure ≡ c.deconfigure = omega (arith, h.deconfigure) in
    let trb_type_e : d.trb_type ≡ c.trb_type = omega (arith, h.trb_type) in
    let slot_id_e : d.slot_id ≡ c.slot_id = omega (arith, h.slot_id) in
    (
      λ i. record {
        input_context_pointer = input_context_pointer_e i;
        cycle_bit = cycle_bit_e i;
        deconfigure = deconfigure_e i;
        trb_type = trb_type_e i;
        slot_id = slot_id_e i;
      },
      cycle_bit_e,
      trb_type_e,
      omega (arith, h.input_context_pointer),
    )
