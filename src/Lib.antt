-- ===== src/Lib.antt =====
-- The Windows Packet Filter library (ndisapi): the user-mode library that talks to the ndisrd
-- driver. A client opens a CNdisApi, asks for the adapters, sets modes, events and filters, and
-- reads and sends packets; each method is one or more requests of the driver (IOCTLs).
--
-- The parts, and the files that model them:
--
--   Base        the names that all modules share, Boolean tests, lists over the native numbers
--   Checksum    ndisapi/ndisapi.cpp, RecalculateIPChecksum, RecalculateICMPChecksum,
--               RecalculateTCPChecksum and RecalculateUDPChecksum, with ndisapi/iphlp.h: functions
--               of the bytes of m_IBuffer. Words, Carries, Header, Segment and Transport hold
--               the lemmas from the 16-bit words up to a whole message.
--   Handles     ndisapi/ndisapi.cpp, CNdisApi::CWow64Helper: the table m_Handle32to64 that gives
--               the driver's 64-bit handles numbers that fit 32 bits. From32to64Handle is
--               from_32_to_64, From64to32Handle is from_64_to_32, Update is update. Sets, Stale,
--               Lookup, Update and Keeps hold the lemmas.
--   Driver      include/Common.h: the structures, the IOCTL codes, and the sizes (Driver/Sizes).
--   Exec        how a method runs: World is the outside, the table, m_BytesReturned and counts of
--               what the process holds (blocks of malloc, handles, library references).
--   Api         ndisapi/ndisapi.cpp, CNdisApi: DeviceIoControl is device_io_control. Packets has
--               the methods for one packet, Batches those for many, Modes the requests on one
--               adapter and the plain queries, Events the four event methods, Oid NdisrdRequest
--               and the hardware filter, Filters the static filter table, FastIo the fast I/O
--               requests, Adapters GetTcpipBoundAdaptersInfo, constructor and destructor. The
--               theorems stand in the children; Modes and FastIo have definitions only.
--   Settings    ndisapi/ndisapi.cpp, SetMTUDecrement, GetMTUDecrement, SetAdaptersStartupMode,
--               GetAdaptersStartupMode, SetPoolSize and GetPoolSize: set_setting and get_setting,
--               over a registry that is a parameter (Registry). Steps has what they do on each
--               result of the registry's calls, Values what the values are.
--   Pipeline    examples/cpp/common/ndisapi/queued_packet_filter.h: the filter that the examples
--               build on the library. Pipeline.antt has the blocks of packets and what the threads
--               do with one (process_block, write_mstcp, write_adapter); Threads and System have
--               the four threads, their queues, start_filter and stop_filter as a step relation
--               (Step, Reach, Run). Loads, Rounds and Distribute are about one block, Dealt
--               says where the packets of a block are to go, Sound about
--               every place between two steps, Flow about the order of the packets, Progress and
--               Delivery about what the threads can still do, Stuck and Failed about stop_filter
--               and start_filter. Simple is the working thread of simple_packet_filter.h, which
--               handles a block of its own in the same way (turn, turns).
--   Redirect    examples/cpp/common/ndisapi/local_redirect.h, local_redirector: the table of
--               connections that are turned to a proxy on the same machine, and the rewriting of
--               packets in both directions. Connections is about the table over any sequence of
--               packets, Replies about the packets of one connection, Untouched about the others.
--   Ipv6        examples/cpp/common/net/ipv6_helper.h, find_transport_header: the walk over the
--               extension headers of an IPv6 packet. Chains is about the loop, Headers about what
--               stands at the end of a chain.
--   CApi        ndisapi/ndisapi.cpp, the exported functions that take a handle: `open_filter_driver`,
--               `close_filter_driver`, and `<name>_by_handle` for each of the others.
--
-- How the parts interact: a 32-bit process on 64-bit Windows (WOW64) cannot pass its structures to
-- the driver, so each method has a second path that copies them into the 64-bit layout and
-- translates the adapter's number with the table; the adapter list fills the table.
-- queued_packet_filter reads with ReadPackets and writes with SendPacketsToMstcp and
-- SendPacketsToAdapter; in Pipeline a read is any packets that the driver may give.
--
-- Conventions. The operating system and the driver are not part of the repository: they are the
-- record Exec.Env of functions on an abstract state, and theorems hold for all of them. A pointer
-- to a buffer is modelled by the buffer, a HANDLE by a number. `none` stands for behaviour that C
-- leaves undefined: an access outside an array or a block. The methods have the same text up
-- to the request code where they share a definition. A DWORD's arithmetic has its `% 2 ^ 32`
-- written out.
--
-- Bounds and fuel: the table has 32 entries behind its flag (ADAPTER_LIST_SIZE); m_IBuffer has
-- 1514 bytes (MAX_ETHER_FRAME without jumbo frames). Two loops run on fuel. The loop that folds the
-- carries of a checksum has 3: two rounds bring any 32-bit sum below 2^16 and the third sees it. The
-- loop over IPv6 headers has the size of the packet and one more: each round goes on by eight bytes.
-- A block of queued_packet_filter has 510 packets, and the filter ten blocks.
--
-- Not modelled: the locks of CWow64Helper (each method is atomic under them), the version tests of
-- CVersionInfo (answers of the outside), the names of adapters,
-- the .NET wrapper, and the example programs but for queued_packet_filter,
-- the rounds of simple_packet_filter, local_redirector and find_transport_header. Of
-- queued_packet_filter: get_interface_names_list, reconfigure and initialize_network_interfaces,
-- and calls of start_filter and stop_filter from two threads at once.
pub mod Base
pub mod Checksum
pub mod Handles
pub mod Driver
pub mod Exec
pub mod Api
pub mod Settings
pub mod Pipeline
pub mod Redirect
pub mod Ipv6
pub mod CApi
