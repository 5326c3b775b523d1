-- ===== src/Api/Tests.antt =====
-- A WOW64 process with two adapters, and a driver that answers every request: the machine that the
-- tests of CNdisApi run on.
mod Packets
mod Requests
use ndisapi.Base.{
  ℕ, ◌+◌, ◌-◌, ◌*◌, ◌^◌, ◌≤◌, ◌<◌, ◌≡◌, ◌≢◌, refl, Bool, true, false, Option, none, some, List, [],
  ◌∷◌, replicate, arith, length, length-replicate, get_or, take, if◌then◌else◌, ◌==◌,
}
use ndisapi.Driver.{
  StaticFilter, FilterTable, get_packet_filters, Ioctl, In, Out, AdapterList, IntermediateBuffer,
  EthRequest, EthMRequest, OidData, StaticFilter, get_tcpip_interfaces, read_packet, read_packets,
  send_packet_to_mstcp, send_packet_to_adapter, ndis_get_request,
}
use ndisapi.Driver.Sizes.{
  max_ether_frame, sizeof_eth_request_wow64, sizeof_adapter_list_wow64, oid_size_wow64,
  request_size_wow64, sizeof_intermediate_buffer_wow64,
}
use ndisapi.Handles.{HandleTable, contains, from_32_to_64}
use ndisapi.Handles.Keeps.{IsValid}
use ndisapi.Handles.Tests.{
  adapter1, adapter2, two_adapters, two_handles, two_table, two_table-IsValid,
  two_handles-IsAdapterList, two_table-first, two_table-unused,
}
use ndisapi.Exec.{Env, World, pure, ◌>>=◌}
use ndisapi.Api.{Api, thunks, device_io_control}
use ndisapi.Api.Packets.{copy_packet, send_to_mstcp, send_to_adapter, read_one}
use ndisapi.Api.Packets.Thunks.{SamePacket, Fits, ReadBack, sends-SamePacket, read_one-Received}
use ndisapi.Api.Batches.{copy_out, send_batch_to_mstcp, send_batch_to_adapter}
use ndisapi.Api.Batches.Copies.{Carries, copy_out-Carries}
use ndisapi.Api.Batches.Blocks.{send_batches-Balanced}

abbrev pub junk : IntermediateBuffer
junk = record {
  link = 3;
  device_flags = 3;
  packet_length = 3;
  flags = 3;
  vlan = 3;
  filter_id = 3;
  reserved = [];
  ibuffer = replicate max_ether_frame 7;
}

-- A packet of 60 bytes.
abbrev pub packet : IntermediateBuffer
packet = record {
  link = 0;
  device_flags = 1;
  packet_length = 60;
  flags = 2;
  vlan = 0;
  filter_id = 0;
  reserved = replicate 4 0;
  ibuffer = replicate max_ether_frame 65;
}

pub packet-Fits : Fits packet
packet-Fits = record { array = length-replicate {A = ℕ} max_ether_frame 65; within = omega arith }

abbrev pub two_list : AdapterList
two_list = record {
  count = 2;
  names = [];
  handles = two_handles;
  mediums = [];
  addresses = [];
  mtus = [];
}

-- A filter for the first adapter as the caller has it, and as the driver has it.
abbrev pub one_filter : StaticFilter
one_filter = record { adapter = 1; rest = 7 ∷ [] }

abbrev pub held_filter : StaticFilter
held_filter = record { adapter = adapter1; rest = 7 ∷ [] }

abbrev pub held_table : FilterTable
held_table = record { table_size = 1; filters = held_filter ∷ [] }

-- The driver: the list of adapters, a packet for a read, and else the buffer as it is.
abbrev pub answer : (c : Ioctl) → Out c → Out c
answer get_tcpip_interfaces o = two_list
answer get_packet_filters o = held_table
answer read_packet o = record o { buffer = packet }
answer read_packets o = record o { packets_success = 1; packets = packet ∷ [] }
answer ndis_get_request o = record o { contents = 1 ∷ 2 ∷ 3 ∷ 4 ∷ [] }
answer _ o = o

abbrev pub machine : Env ℕ
machine = record {
  ioctl = λ s wow64 c i n o m. record { ok = true; out = answer c o; returned = m; next = s + 1 };
  io_pending = λ s. false;
  wait = λ s c o. (o, s);
  malloc = λ s n. (true, s);
  stack_buffer = λ s. junk;
  block_bytes = λ s n. replicate n 9;
  create_event = λ s. (true, s);
  reset_event = λ s. (true, s);
  create_file = λ s. (true, s);
  load_library = λ s. (true, s);
  has_open_vxd_handle = λ s. true;
  open_vxd_handle = λ s e. (e + 1000, s);
  has_kernel32 = λ s. true;
  has_is_wow64_process = λ s. true;
  is_wow64_process = λ s. true;
  is_windows_xp_or_greater = true;
  is_windows_vista_or_greater = true;
  is_windows_nt_platform = true;
}

-- Windows 9x, and a library without OpenVxDHandle.
abbrev pub old_machine : Env ℕ
old_machine = record machine { is_windows_nt_platform = false }

abbrev pub bare_machine : Env ℕ
bare_machine = record old_machine { has_open_vxd_handle = λ s. false }

abbrev pub client : Api
client = record {
  win64 = false;
  file_open = true;
  has_event = true;
  is_load_successfully = true;
  is_wow64_process = true;
}

abbrev pub start : World ℕ
start = record {
  sys = 0;
  table = two_table;
  bytes_returned = 0;
  blocks = 0;
  open_handles = 2;
  libraries = 0;
}

abbrev pub one_packet : EthRequest
one_packet = record { adapter = 1; buffer = packet }

pub stack-size : length (machine.stack_buffer 0).ibuffer ≡ max_ether_frame
stack-size = length-replicate {A = ℕ} max_ether_frame 7
