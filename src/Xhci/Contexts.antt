-- ===== src/Xhci/Contexts.antt =====
-- xhci.hpp, xhci_trb.hpp: the bit fields of the contexts and of the transfer request blocks. A
-- union is given by its dwords, lowest first; fields are laid out from bit 0 on, as the ABI of the
-- target has it.
use seccamp_os.Base.{ℕ, zero, suc, ◌+◌, ◌*◌, ◌/◌, ◌%◌, ◌^◌}

-- The dwords of a union by their index.
abbrev pub Dwords : Type 0
Dwords = ℕ → ℕ

-- `width` bits from bit `from` on.
abbrev pub field : ℕ → ℕ → ℕ → ℕ
field value from width = value / 2 ^ from % 2 ^ width

-- The 64 bits of two dwords.
abbrev pub qword : Dwords → ℕ → ℕ
qword d i = d i + d (i + 1) * 2 ^ 32

pub record SlotContext : Type 0 where
  pub route_string : ℕ
  pub speed : ℕ
  pub mtt : ℕ
  pub hub : ℕ
  pub context_entries : ℕ
  pub max_exit_latency : ℕ
  pub root_hub_port_num : ℕ
  pub num_ports : ℕ
  pub tt_hub_slot_id : ℕ
  pub tt_port_num : ℕ
  pub ttt : ℕ
  pub interrupter_target : ℕ
  pub usb_device_address : ℕ
  pub slot_state : ℕ

unfoldable pub slot_context : Dwords → SlotContext
slot_context d = record {
  route_string = field (d 0) 0 20;
  speed = field (d 0) 20 4;
  mtt = field (d 0) 25 1;
  hub = field (d 0) 26 1;
  context_entries = field (d 0) 27 5;
  max_exit_latency = field (d 1) 0 16;
  root_hub_port_num = field (d 1) 16 8;
  num_ports = field (d 1) 24 8;
  tt_hub_slot_id = field (d 2) 0 8;
  tt_port_num = field (d 2) 8 8;
  ttt = field (d 2) 16 2;
  interrupter_target = field (d 2) 22 10;
  usb_device_address = field (d 3) 0 8;
  slot_state = field (d 3) 27 5;
}

pub record EndpointContext : Type 0 where
  pub ep_state : ℕ
  pub mult : ℕ
  pub max_primary_streams : ℕ
  pub linear_stream_array : ℕ
  pub interval : ℕ
  pub max_esit_paylod_hi : ℕ
  pub error_count : ℕ
  pub ep_type : ℕ
  pub host_initiate_disable : ℕ
  pub max_burst_size : ℕ
  pub max_packet_size : ℕ
  pub dequeue_cycle_state : ℕ
  pub tr_dequeue_pointer_lo : ℕ
  pub average_trb_length : ℕ
  pub max_esit_payload_lo : ℕ

unfoldable pub endpoint_context : Dwords → EndpointContext
endpoint_context d = record {
  ep_state = field (d 0) 0 3;
  mult = field (d 0) 8 2;
  max_primary_streams = field (d 0) 10 5;
  linear_stream_array = field (d 0) 15 1;
  interval = field (d 0) 16 8;
  max_esit_paylod_hi = field (d 0) 24 8;
  error_count = field (d 1) 1 2;
  ep_type = field (d 1) 3 3;
  host_initiate_disable = field (d 1) 7 1;
  max_burst_size = field (d 1) 8 8;
  max_packet_size = field (d 1) 16 16;
  dequeue_cycle_state = field (d 2) 0 1;
  tr_dequeue_pointer_lo = field (qword d 2) 4 60;
  average_trb_length = field (d 4) 0 16;
  max_esit_payload_lo = field (d 4) 16 16;
}

pub record Trb : Type 0 where
  pub parameter : ℕ
  pub status : ℕ
  pub cycle_bit : ℕ
  pub evaluate_next_trb : ℕ
  pub trb_type : ℕ

unfoldable pub trb : Dwords → Trb
trb d = record {
  parameter = qword d 0;
  status = d 2;
  cycle_bit = field (d 3) 0 1;
  evaluate_next_trb = field (d 3) 1 1;
  trb_type = field (d 3) 10 6;
}

pub record ConfigureEndpointCommandTrb : Type 0 where
  pub input_context_pointer : ℕ
  pub cycle_bit : ℕ
  pub deconfigure : ℕ
  pub trb_type : ℕ
  pub slot_id : ℕ

unfoldable pub configure_endpoint_command : Dwords → ConfigureEndpointCommandTrb
configure_endpoint_command d = record {
  input_context_pointer = field (qword d 0) 4 60;
  cycle_bit = field (d 3) 0 1;
  deconfigure = field (d 3) 9 1;
  trb_type = field (d 3) 10 6;
  slot_id = field (d 3) 24 8;
}

-- The dwords of a command whose reserved bits are 0; what does not fit into a field is cut off.
unfoldable pub command_dwords : ConfigureEndpointCommandTrb → Dwords
command_dwords c zero = c.input_context_pointer % 2 ^ 28 * 2 ^ 4
command_dwords c (suc zero) = c.input_context_pointer % 2 ^ 60 / 2 ^ 28
command_dwords c (suc (suc zero)) = 0
command_dwords c (suc (suc (suc i))) =
    c.cycle_bit % 2
    + c.deconfigure % 2 * 2 ^ 9
    + c.trb_type % 2 ^ 6 * 2 ^ 10
    + c.slot_id % 2 ^ 8 * 2 ^ 24

pub record CommandCompletionEventTrb : Type 0 where
  pub command_trb_pointer : ℕ
  pub command_completion_parameter : ℕ
  pub completion_code : ℕ
  pub cycle_bit : ℕ
  pub trb_type : ℕ
  pub vf_id : ℕ
  pub slot_id : ℕ

unfoldable pub command_completion_event : Dwords → CommandCompletionEventTrb
command_completion_event d = record {
  command_trb_pointer = field (qword d 0) 4 60;
  command_completion_parameter = field (d 2) 0 24;
  completion_code = field (d 2) 24 8;
  cycle_bit = field (d 3) 0 1;
  trb_type = field (d 3) 10 6;
  vf_id = field (d 3) 16 8;
  slot_id = field (d 3) 24 8;
}
