-- ===== src/Driver.antt =====
-- The interface of include/Common.h between the library and the ndisrd driver: the structures that
-- they exchange, the I/O control codes, and the sizes of the buffers.
-- A pointer to a buffer is modelled by the buffer; a HANDLE and a ULARGE_INTEGER are numbers.
pub mod Sizes
use ndisapi.Base.{ℕ, ◌+◌, Bool, List}

-- INTERMEDIATE_BUFFER and INTERMEDIATE_BUFFER_WOW64; `link` is the union of m_hAdapter and m_qLink.
pub record IntermediateBuffer : Type 0 where
  pub link : ℕ
  pub device_flags : ℕ
  pub packet_length : ℕ
  pub flags : ℕ
  pub vlan : ℕ
  pub filter_id : ℕ
  pub reserved : List ℕ
  pub ibuffer : List ℕ

-- ETH_REQUEST and ETH_REQUEST_WOW64
pub record EthRequest : Type 0 where
  pub adapter : ℕ
  pub buffer : IntermediateBuffer

-- ETH_M_REQUEST and ETH_M_REQUEST_WOW64
pub record EthMRequest : Type 0 where
  pub adapter : ℕ
  pub packets_number : ℕ
  pub packets_success : ℕ
  pub packets : List IntermediateBuffer

-- TCP_AdapterList and TCP_AdapterList_WOW64
pub record AdapterList : Type 0 where
  pub count : ℕ
  pub names : List (List ℕ)
  pub handles : List ℕ
  pub mediums : List ℕ
  pub addresses : List (List ℕ)
  pub mtus : List ℕ

-- ADAPTER_MODE and ADAPTER_MODE_WOW64
pub record AdapterMode : Type 0 where
  pub adapter : ℕ
  pub flags : ℕ

-- ADAPTER_EVENT and ADAPTER_EVENT_WOW64
pub record AdapterEvent : Type 0 where
  pub adapter : ℕ
  pub event : ℕ

-- PACKET_OID_DATA and PACKET_OID_DATA_WOW64
pub record OidData : Type 0 where
  pub adapter : ℕ
  pub oid : ℕ
  pub data_length : ℕ
  pub contents : List ℕ

-- STATIC_FILTER: the adapter, and the other members, which the library only passes on.
pub record StaticFilter : Type 0 where
  pub adapter : ℕ
  pub rest : List ℕ

-- STATIC_FILTER_TABLE
pub record FilterTable : Type 0 where
  pub table_size : ℕ
  pub filters : List StaticFilter

-- INITIALIZE_FAST_IO_PARAMS; the section is named by its address.
pub record FastIoParams : Type 0 where
  pub header : ℕ
  pub data_size : ℕ

-- UNSORTED_READ_SEND_REQUEST
pub record UnsortedRequest : Type 0 where
  pub packets : List IntermediateBuffer
  pub packets_num : ℕ

-- The codes IOCTL_NDISRD_…, in the order of their numbers.
pub data Ioctl : Type 0 where
  get_version get_tcpip_interfaces send_packet_to_adapter send_packet_to_mstcp : Ioctl
  read_packet set_adapter_mode flush_adapter_queue set_event : Ioctl
  ndis_set_request ndis_get_request set_wan_event set_adapter_event : Ioctl
  adapter_queue_size get_adapter_mode set_packet_filters reset_packet_filters : Ioctl
  get_packet_filters_tablesize get_packet_filters get_packet_filters_reset_stats : Ioctl
  get_ras_links send_packets_to_adapter send_packets_to_mstcp read_packets : Ioctl
  set_adapter_hwfilter_event initialize_fast_io read_packets_unsorted : Ioctl
  send_packet_to_adapter_unsorted send_packet_to_mstcp_unsorted : Ioctl
  add_second_fast_io_section query_ib_pool_size : Ioctl

-- The number that a code adds to NDISRD_IOCTL_INDEX.
pub index : Ioctl → ℕ
index get_version = 0
index get_tcpip_interfaces = 1
index send_packet_to_adapter = 2
index send_packet_to_mstcp = 3
index read_packet = 4
index set_adapter_mode = 5
index flush_adapter_queue = 6
index set_event = 7
index ndis_set_request = 8
index ndis_get_request = 9
index set_wan_event = 10
index set_adapter_event = 11
index adapter_queue_size = 12
index get_adapter_mode = 13
index set_packet_filters = 14
index reset_packet_filters = 15
index get_packet_filters_tablesize = 16
index get_packet_filters = 17
index get_packet_filters_reset_stats = 18
index get_ras_links = 19
index send_packets_to_adapter = 20
index send_packets_to_mstcp = 21
index read_packets = 22
index set_adapter_hwfilter_event = 23
index initialize_fast_io = 24
index read_packets_unsorted = 25
index send_packet_to_adapter_unsorted = 26
index send_packet_to_mstcp_unsorted = 27
index add_second_fast_io_section = 28
index query_ib_pool_size = 29

-- What the input buffer of a request holds.
abbrev pub In : Ioctl → Type 0
In get_version = ℕ
In get_tcpip_interfaces = AdapterList
In send_packet_to_adapter = EthRequest
In send_packet_to_mstcp = EthRequest
In read_packet = EthRequest
In set_adapter_mode = AdapterMode
In flush_adapter_queue = ℕ
In set_event = AdapterEvent
In ndis_set_request = OidData
In ndis_get_request = OidData
In set_wan_event = ℕ
In set_adapter_event = ℕ
In adapter_queue_size = ℕ
In get_adapter_mode = AdapterMode
In set_packet_filters = FilterTable
In reset_packet_filters = Unit
In get_packet_filters_tablesize = Unit
In get_packet_filters = Unit
In get_packet_filters_reset_stats = Unit
In get_ras_links = ℕ
In send_packets_to_adapter = EthMRequest
In send_packets_to_mstcp = EthMRequest
In read_packets = EthMRequest
In set_adapter_hwfilter_event = AdapterEvent
In initialize_fast_io = FastIoParams
In read_packets_unsorted = UnsortedRequest
In send_packet_to_adapter_unsorted = UnsortedRequest
In send_packet_to_mstcp_unsorted = UnsortedRequest
In add_second_fast_io_section = FastIoParams
In query_ib_pool_size = ℕ

-- What the output buffer holds, before and after; `Unit` where the library passes NULL.
abbrev pub Out : Ioctl → Type 0
Out get_version = ℕ
Out get_tcpip_interfaces = AdapterList
Out read_packet = EthRequest
Out ndis_set_request = OidData
Out ndis_get_request = OidData
Out adapter_queue_size = ℕ
Out get_adapter_mode = AdapterMode
Out get_packet_filters_tablesize = ℕ
Out get_packet_filters = FilterTable
Out get_packet_filters_reset_stats = FilterTable
Out get_ras_links = List ℕ
Out read_packets = EthMRequest
Out read_packets_unsorted = UnsortedRequest
Out send_packet_to_adapter_unsorted = UnsortedRequest
Out send_packet_to_mstcp_unsorted = UnsortedRequest
Out query_ib_pool_size = ℕ
Out _ = Unit
