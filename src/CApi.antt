-- ===== src/CApi.antt =====
-- The C interface at the end of ndisapi/ndisapi.cpp: a handle is null or the object that
-- OpenFilterDriver made, and each function is a method of the object.
use ndisapi.Base.{ℕ, Bool, false, Option, none, some, List}
use ndisapi.Driver.{
  AdapterList, EthRequest, EthMRequest, AdapterMode, OidData, FilterTable, IntermediateBuffer,
}
use ndisapi.Exec.{Env, Exec, pure, ◌>>=◌}
use ndisapi.Api.{Api}
use ndisapi.Api.Modes.{
  driver_version, set_mode, get_mode, flush_queue, queue_size, ras_links, is_driver_loaded,
  pool_size, bytes_returned,
}
use ndisapi.Api.Adapters.{adapters_info}
use ndisapi.Api.Packets.{send_to_mstcp, send_to_adapter, read_one}
use ndisapi.Api.Batches.{send_batch_to_mstcp, send_batch_to_adapter, read_batch}
use ndisapi.Api.Events.{
  set_packet_event, change_wan_event, set_adapter_list_change_event, set_hw_packet_filter_event,
}
use ndisapi.Api.Oid.{ndisrd_request, set_hw_packet_filter, get_hw_packet_filter}
use ndisapi.Api.Filters.{
  set_filter_table, reset_filter_table, filter_table_size_query, get_filter_table,
  get_filter_table_reset_stats,
}
use ndisapi.Api.FastIo.{
  initialize, add_secondary, read_unsorted, send_unsorted_to_adapters, send_unsorted_to_mstcp,
}
use ndisapi.Api.Adapters.{construct, destruct}
mod Lifetime

-- hOpen
abbrev Handle : Type 0
Handle = Option Api

-- `if (!hOpen) return ...;`, then the method of the object.
on_object : {S A : Type 0} → Handle → A → (Api → Exec S A) → Exec S A
unfolding pure
on_object none refused method = pure refused
on_object (some api) refused method = method api

module _ {S : Type 0} (env : Env S) where
  -- OpenFilterDriver, whose object is there also where the driver is not. `win64` is the build.
  open_filter_driver : Bool → Exec S Handle
  open_filter_driver win64 = construct env win64 >>= λ api. pure (some api)

  -- CloseFilterDriver: `delete` of a null pointer does nothing.
  close_filter_driver : Handle → Exec S Unit
  close_filter_driver none = pure tt
  close_filter_driver (some api) = destruct api

  unfoldable get_driver_version_by_handle : Handle → Exec S ℕ
  unfolding on_object
  get_driver_version_by_handle h = on_object h 0 (λ api. driver_version env api)

  unfoldable get_tcpip_bound_adapters_info_by_handle :
      Handle → AdapterList → Exec S (Bool × AdapterList)
  unfolding on_object
  get_tcpip_bound_adapters_info_by_handle h list =
      on_object h (false, list) (λ api. adapters_info env api list)

  unfoldable send_packet_to_mstcp_by_handle : Handle → EthRequest → Exec S Bool
  unfolding on_object
  send_packet_to_mstcp_by_handle h packet = on_object h false (λ api. send_to_mstcp env api packet)

  unfoldable send_packet_to_adapter_by_handle : Handle → EthRequest → Exec S Bool
  unfolding on_object
  send_packet_to_adapter_by_handle h packet =
      on_object h false (λ api. send_to_adapter env api packet)

  unfoldable read_packet_by_handle : Handle → EthRequest → Exec S (Bool × EthRequest)
  unfolding on_object
  read_packet_by_handle h packet = on_object h (false, packet) (λ api. read_one env api packet)

  unfoldable send_packets_to_mstcp_by_handle : Handle → EthMRequest → Exec S Bool
  unfolding on_object
  send_packets_to_mstcp_by_handle h packets =
      on_object h false (λ api. send_batch_to_mstcp env api packets)

  unfoldable send_packets_to_adapter_by_handle : Handle → EthMRequest → Exec S Bool
  unfolding on_object
  send_packets_to_adapter_by_handle h packets =
      on_object h false (λ api. send_batch_to_adapter env api packets)

  unfoldable read_packets_by_handle : Handle → EthMRequest → Exec S (Bool × EthMRequest)
  unfolding on_object
  read_packets_by_handle h packets =
      on_object h (false, packets) (λ api. read_batch env api packets)

  unfoldable set_adapter_mode_by_handle : Handle → AdapterMode → Exec S Bool
  unfolding on_object
  set_adapter_mode_by_handle h mode = on_object h false (λ api. set_mode env api mode)

  unfoldable get_adapter_mode_by_handle : Handle → ℕ → AdapterMode → Exec S (Bool × AdapterMode)
  unfolding on_object
  get_adapter_mode_by_handle h unset mode =
      on_object h (false, mode) (λ api. get_mode env api unset mode)

  unfoldable flush_adapter_packet_queue_by_handle : Handle → ℕ → Exec S Bool
  unfolding on_object
  flush_adapter_packet_queue_by_handle h adapter =
      on_object h false (λ api. flush_queue env api adapter)

  unfoldable get_adapter_packet_queue_size_by_handle : Handle → ℕ → ℕ → Exec S (Bool × ℕ)
  unfolding on_object
  get_adapter_packet_queue_size_by_handle h adapter size =
      on_object h (false, size) (λ api. queue_size env api adapter size)

  unfoldable set_packet_event_by_handle : Handle → ℕ → ℕ → Exec S Bool
  unfolding on_object
  set_packet_event_by_handle h adapter event =
      on_object h false (λ api. set_packet_event env api adapter event)

  unfoldable set_wan_event_by_handle : Handle → ℕ → Exec S Bool
  unfolding on_object
  set_wan_event_by_handle h event = on_object h false (λ api. change_wan_event env api event)

  unfoldable set_adapter_list_change_event_by_handle : Handle → ℕ → Exec S Bool
  unfolding on_object
  set_adapter_list_change_event_by_handle h event =
      on_object h false (λ api. set_adapter_list_change_event env api event)

  unfoldable ndisrd_request_by_handle : Handle → OidData → Bool → Exec S (Bool × OidData)
  unfolding on_object
  ndisrd_request_by_handle h oid is_set =
      on_object h (false, oid) (λ api. ndisrd_request env api oid is_set)

  unfoldable get_ras_links_by_handle : Handle → ℕ → List ℕ → Exec S (Bool × List ℕ)
  unfolding on_object
  get_ras_links_by_handle h adapter links =
      on_object h (false, links) (λ api. ras_links env api adapter links)

  unfoldable set_hw_packet_filter_by_handle : Handle → ℕ → ℕ → Exec S Bool
  unfolding on_object
  set_hw_packet_filter_by_handle h adapter filter =
      on_object h false (λ api. set_hw_packet_filter env api adapter filter)

  unfoldable get_hw_packet_filter_by_handle : Handle → ℕ → ℕ → Exec S (Bool × ℕ)
  unfolding on_object
  get_hw_packet_filter_by_handle h adapter filter =
      on_object h (false, filter) (λ api. get_hw_packet_filter env api adapter filter)

  unfoldable set_hw_packet_filter_event_by_handle : Handle → ℕ → ℕ → Exec S Bool
  unfolding on_object
  set_hw_packet_filter_event_by_handle h adapter event =
      on_object h false (λ api. set_hw_packet_filter_event env api adapter event)

  unfoldable set_packet_filter_table_by_handle : Handle → FilterTable → Exec S (Bool × FilterTable)
  unfolding on_object
  set_packet_filter_table_by_handle h table =
      on_object h (false, table) (λ api. set_filter_table env api table)

  unfoldable reset_packet_filter_table_by_handle : Handle → Exec S Bool
  unfolding on_object
  reset_packet_filter_table_by_handle h = on_object h false (λ api. reset_filter_table env api)

  unfoldable get_packet_filter_table_size_by_handle : Handle → ℕ → Exec S (Bool × ℕ)
  unfolding on_object
  get_packet_filter_table_size_by_handle h size =
      on_object h (false, size) (λ api. filter_table_size_query env api size)

  unfoldable get_packet_filter_table_by_handle : Handle → FilterTable → Exec S (Bool × FilterTable)
  unfolding on_object
  get_packet_filter_table_by_handle h table =
      on_object h (false, table) (λ api. get_filter_table env api table)

  unfoldable get_packet_filter_table_reset_stats_by_handle :
      Handle → FilterTable → Exec S (Bool × FilterTable)
  unfolding on_object
  get_packet_filter_table_reset_stats_by_handle h table =
      on_object h (false, table) (λ api. get_filter_table_reset_stats env api table)

  unfoldable is_driver_loaded_by_handle : Handle → Exec S Bool
  unfolding on_object
  is_driver_loaded_by_handle h = on_object h false (λ api. is_driver_loaded env api)

  unfoldable initialize_fast_io_by_handle : Handle → ℕ → ℕ → Exec S Bool
  unfolding on_object
  initialize_fast_io_by_handle h fast_io size =
      on_object h false (λ api. initialize env api fast_io size)

  unfoldable add_secondary_fast_io_by_handle : Handle → ℕ → ℕ → Exec S Bool
  unfolding on_object
  add_secondary_fast_io_by_handle h fast_io size =
      on_object h false (λ api. add_secondary env api fast_io size)

  unfoldable read_packets_unsorted_by_handle :
      Handle → List IntermediateBuffer → ℕ → ℕ → Exec S (Bool × List IntermediateBuffer × ℕ)
  unfolding on_object
  read_packets_unsorted_by_handle h packets number success =
      on_object h (false, packets, success) (λ api. read_unsorted env api packets number success)

  unfoldable send_packets_to_adapters_unsorted_by_handle :
      Handle → List IntermediateBuffer → ℕ → ℕ → Exec S (Bool × List IntermediateBuffer × ℕ)
  unfolding on_object
  send_packets_to_adapters_unsorted_by_handle h packets number success =
      on_object h (false, packets, success)
        (λ api. send_unsorted_to_adapters env api packets number success)

  unfoldable send_packets_to_mstcp_unsorted_by_handle :
      Handle → List IntermediateBuffer → ℕ → ℕ → Exec S (Bool × List IntermediateBuffer × ℕ)
  unfolding on_object
  send_packets_to_mstcp_unsorted_by_handle h packets number success =
      on_object h (false, packets, success)
        (λ api. send_unsorted_to_mstcp env api packets number success)

  unfoldable get_intermediate_buffer_pool_size_by_handle : Handle → ℕ → Exec S (Bool × ℕ)
  unfolding on_object
  get_intermediate_buffer_pool_size_by_handle h size =
      on_object h (false, size) (λ api. pool_size env api size)

  unfoldable get_bytes_returned_by_handle : Handle → Exec S ℕ
  unfolding on_object
  get_bytes_returned_by_handle h = on_object h 0 (λ api. bytes_returned env api)
