-- ===== src/Driver/Sizes.antt =====
-- The sizes of the structures of include/Common.h, which are packed to single bytes, for a pointer
-- of `p` bytes. The sums follow the members in order.
use ndisapi.Base.{ℕ, ◌+◌, ◌-◌, ◌*◌, ◌%◌, ◌^◌}

abbrev pub max_ether_frame : ℕ
max_ether_frame = 1514

pub sizeof_intermediate_buffer : ℕ → ℕ
sizeof_intermediate_buffer p = 2 * p + 4 + 4 + 4 + 4 + 4 + 4 * 4 + max_ether_frame

-- The union is two HANDLEs or two LIST_ENTRYs.
unfoldable pub sizeof_intermediate_buffer_wow64 : ℕ → ℕ
sizeof_intermediate_buffer_wow64 p = 2 * (2 * p) + 4 + 4 + 4 + 4 + 4 + 4 * 4 + max_ether_frame

pub sizeof_adapter_list : ℕ → ℕ
sizeof_adapter_list p = 4 + 32 * 256 + 32 * p + 32 * 4 + 32 * 6 + 32 * 2

pub sizeof_adapter_list_wow64 : ℕ
sizeof_adapter_list_wow64 = 4 + 32 * 256 + 32 * 8 + 32 * 4 + 32 * 6 + 32 * 2

pub sizeof_eth_request : ℕ → ℕ
sizeof_eth_request p = p + p

pub sizeof_eth_request_wow64 : ℕ
sizeof_eth_request_wow64 = 8 + 8

pub sizeof_eth_m_request : ℕ → ℕ
sizeof_eth_m_request p = p + 4 + 4 + p

unfoldable pub sizeof_eth_m_request_wow64 : ℕ
sizeof_eth_m_request_wow64 = 8 + 4 + 4 + 8

pub sizeof_adapter_mode : ℕ → ℕ
sizeof_adapter_mode p = p + 4

pub sizeof_adapter_mode_wow64 : ℕ
sizeof_adapter_mode_wow64 = 8 + 4

pub sizeof_adapter_event : ℕ → ℕ
sizeof_adapter_event p = p + p

pub sizeof_adapter_event_wow64 : ℕ
sizeof_adapter_event_wow64 = 8 + 8

pub sizeof_packet_oid_data : ℕ → ℕ
sizeof_packet_oid_data p = p + 4 + 4 + 1

pub sizeof_packet_oid_data_wow64 : ℕ
sizeof_packet_oid_data_wow64 = 8 + 4 + 4 + 1

-- RAS_LINK_INFO and RAS_LINKS
pub sizeof_ras_links : ℕ
sizeof_ras_links = 4 + 256 * (4 + 4 + 6 + 6 + 4 + 2048)

-- ETH_802_3_FILTER and DATA_LINK_LAYER_FILTER
sizeof_data_link_layer_filter : ℕ
sizeof_data_link_layer_filter = 4 + (4 + 6 + 6 + 2 + 2)

-- NETWORK_LAYER_FILTER, whose larger member is IP_V6_FILTER with its two IP_ADDRESS_V6
sizeof_network_layer_filter : ℕ
sizeof_network_layer_filter = 4 + (4 + (4 + (16 + 16)) + (4 + (16 + 16)) + 1 + 3)

-- TRANSPORT_LAYER_FILTER, whose larger member is TCPUDP_FILTER
sizeof_transport_layer_filter : ℕ
sizeof_transport_layer_filter = 4 + (4 + (2 + 2) + (2 + 2) + 1 + 3)

pub sizeof_static_filter : ℕ
unfolding sizeof_data_link_layer_filter sizeof_network_layer_filter sizeof_transport_layer_filter
sizeof_static_filter =
    8 + 4 + 4 + 4 + 4 + 8 + 8 + 8 + 8 + sizeof_data_link_layer_filter + sizeof_network_layer_filter
    + sizeof_transport_layer_filter

pub sizeof_static_filter_table : ℕ
unfolding sizeof_static_filter
sizeof_static_filter_table = 4 + 4 + sizeof_static_filter

-- FAST_IO_SECTION
pub sizeof_fast_io_section : ℕ → ℕ
unfolding sizeof_intermediate_buffer
sizeof_fast_io_section p = 4 + 4 + sizeof_intermediate_buffer p

pub sizeof_fast_io_params : ℕ → ℕ
sizeof_fast_io_params p = p + 4

pub sizeof_unsorted_request : ℕ → ℕ
sizeof_unsorted_request p = p + 4

-- n - 1 in an unsigned
abbrev pub less_one : ℕ → ℕ
less_one n = (n + 2 ^ 32 - 1) % 2 ^ 32

-- sizeof(ETH_M_REQUEST) + sizeof(NDISRD_ETH_Packet) * (n - 1), passed as an int
pub request_size : ℕ → ℕ → ℕ
unfolding sizeof_eth_m_request
request_size p n = (sizeof_eth_m_request p + p * less_one n) % 2 ^ 32

-- the same for the WOW64 structures
unfoldable pub request_size_wow64 : ℕ → ℕ
unfolding sizeof_eth_m_request_wow64
request_size_wow64 n = (sizeof_eth_m_request_wow64 + 8 * less_one n) % 2 ^ 32

-- sizeof(STATIC_FILTER_TABLE) + (n - ANY_SIZE) * sizeof(STATIC_FILTER)
pub filter_table_size : ℕ → ℕ
unfolding sizeof_static_filter_table
filter_table_size n = (sizeof_static_filter_table + less_one n * sizeof_static_filter) % 2 ^ 32

-- sizeof(PACKET_OID_DATA) - 1 + n, and the WOW64 one
pub oid_size : ℕ → ℕ → ℕ
unfolding sizeof_packet_oid_data
oid_size p n = (sizeof_packet_oid_data p - 1 + n) % 2 ^ 32

unfoldable pub oid_size_wow64 : ℕ → ℕ
unfolding sizeof_packet_oid_data_wow64
oid_size_wow64 n = (sizeof_packet_oid_data_wow64 - 1 + n) % 2 ^ 32
