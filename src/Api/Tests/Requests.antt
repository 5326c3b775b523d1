-- ===== src/Api/Tests/Requests.antt =====
-- The theorems on the other requests, on the machine of the tests.
use ndisapi.Base.{
  ◌+◌, ℕ, ◌≤◌, ◌<◌, ◌≡◌, ◌≢◌, refl, Bool, true, false, none, some, List, [], ◌∷◌, arith, get_or,
  take, length,
}
use ndisapi.Driver.{FilterTable, AdapterList, OidData, StaticFilter}
use ndisapi.Driver.Sizes.{filter_table_size, sizeof_adapter_list_wow64}
use ndisapi.Handles.{from_32_to_64}
use ndisapi.Handles.Keeps.{IsValid}
use ndisapi.Handles.Tests.{
  adapter1, two_handles, two_table, two_table-IsValid, two_handles-IsAdapterList, two_table-first,
  two_table-unused,
}
use ndisapi.Exec.{World}
use ndisapi.Api.{Api, device_io_control}
use ndisapi.Api.Events.{
  set_packet_event, change_wan_event, set_adapter_list_change_event, set_hw_packet_filter_event,
}
use ndisapi.Api.Events.Libraries.{left_over, Keeps, events-libraries}
use ndisapi.Api.Oid.{ndisrd_request}
use ndisapi.Api.Oid.Requests.{ndisrd_request-Balanced, ndisrd_request-Untouched}
use ndisapi.Api.Filters.Tables.{get_filter_table-set_filter_table}
use ndisapi.Api.Filters.{
  set_filter_table, get_filter_table, filter_out, filter_in, filters_out, filters_in,
}
use ndisapi.Api.Filters.Translate.{
  filter_out-named, filters_out-step, filters_in-filters_out, filter_in-any_adapter,
}
use ndisapi.Api.Filters.Again.{set_filter_table-twice}
use ndisapi.Api.Adapters.{construct, destruct, adapters_info, zero_list}
use ndisapi.Api.Adapters.Balance.{owned, destruct-construct}
use ndisapi.Api.Adapters.Known.{adapters_info-numbers}
use ndisapi.Api.Tests.{
  one_filter, held_filter, held_table, machine, bare_machine, client, start, two_list,
}

-- A machine of Windows 9x whose kernel32.dll has no OpenVxDHandle.
events-libraries_example :
    Keeps (set_packet_event bare_machine client 1 5) start 1
    × Keeps (change_wan_event bare_machine client 5) start 1
    × Keeps (set_adapter_list_change_event bare_machine client 5) start 1
    × Keeps (set_hw_packet_filter_event bare_machine client 1 5) start 1
unfolding left_over
events-libraries_example = events-libraries bare_machine client start 1 adapter1 5 two_table-first

abbrev query : OidData
query = record { adapter = 2; oid = 0x0001010E; data_length = 4; contents = 0 ∷ 0 ∷ 0 ∷ 0 ∷ [] }

ndisrd_request-Balanced_example :
    (r : Bool × OidData) × (w' : World ℕ) × (ndisrd_request machine client
        (record query { adapter = 1 })
        true
        start
      ≡ some (r, w'))
    × (w'.blocks ≡ 0)
    × (w'.open_handles ≡ 2)
ndisrd_request-Balanced_example =
    ndisrd_request-Balanced machine client (record query { adapter = 1 }) start adapter1 refl
      (omega arith) (omega arith) two_table-first

-- The machine answers a query at once, with other bytes.
ndisrd_request-Untouched_example :
    (ok : Bool) × (w' : World ℕ) × (ndisrd_request machine client
        (record query { adapter = 1 })
        false
        start
      ≡ some ((ok, record query { adapter = 1 }), w'))
    × (w'.blocks ≡ 0)
    × (w'.open_handles ≡ 2)
ndisrd_request-Untouched_example =
    ndisrd_request-Untouched machine client (record query { adapter = 1 }) start adapter1 refl
      (omega arith) (λ s. refl) two_table-first

-- A filter for every adapter.
abbrev any_filter : StaticFilter
any_filter = record { adapter = 0; rest = 8 ∷ [] }

filters_in-filters_out_example :
    (gs : List StaticFilter) × (filters_out two_table 2 (one_filter ∷ one_filter ∷ []) ≡ some gs)
    × (filters_in two_table 2 gs ≡ some (one_filter ∷ one_filter ∷ []))
filters_in-filters_out_example =
    filters_in-filters_out two_table 2 (one_filter ∷ one_filter ∷ []) two_table-IsValid.distinct (
      omega arith,
      omega arith,
      (adapter1, two_table-first, omega arith),
      (omega arith, omega arith, (adapter1, two_table-first, omega arith), tt),
    )

filter_in-any_adapter_example :
    (filter_out two_table any_filter ≡ some any_filter)
    × (0 < (filter_in two_table any_filter).adapter)
    × ((filter_in two_table any_filter).adapter ≤ length two_table.slots)
    × (from_32_to_64 two_table (filter_in two_table any_filter).adapter ≡ some 0)
    × (filter_in two_table any_filter ≢ any_filter)
filter_in-any_adapter_example = filter_in-any_adapter two_table any_filter refl two_table-unused

set_filter_table-twice_example :
    (ok : Bool) × (list : FilterTable) × (w' : World ℕ) × (set_filter_table machine client
        (record { table_size = 1; filters = one_filter ∷ [] })
        start
      ≡ some ((ok, list), w'))
    × (list.filters ≡ record one_filter { adapter = adapter1 } ∷ [])
    × (set_filter_table machine client list w' ≡ none)
unfolding filters_out
set_filter_table-twice_example =
    set_filter_table-twice machine client start 0 adapter1 one_filter [] [] refl (omega arith)
      (omega arith) two_table-first refl (omega arith)

adapters_info-numbers_example :
    (out : AdapterList) × (w' : World ℕ) × (adapters_info machine client zero_list start
      ≡ some ((true, out), w'))
    × (out.count ≡ 2)
    × IsValid w'.table
    × ((k : ℕ)
        → k < 2
        → (0 < get_or out.handles k 0)
          × (from_32_to_64 w'.table (get_or out.handles k 0)
              ≡ some (get_or (take 2 two_handles) k 0)))
unfolding device_io_control
adapters_info-numbers_example =
    adapters_info-numbers machine client start
      (record start { sys = 1; bytes_returned = sizeof_adapter_list_wow64 }) zero_list two_list refl
      refl two_table-IsValid (omega arith) two_handles-IsAdapterList

destruct-construct_example :
    (api : Api) × (w1 : World ℕ) × (w2 : World ℕ) × (construct machine false start ≡ some (api, w1))
    × (w1.open_handles ≡ 2 + owned api.file_open api.has_event)
    × (destruct api w1 ≡ some (tt, w2))
    × (w2.open_handles ≡ 2)
destruct-construct_example =
    destruct-construct machine false start (λ s. (omega arith, omega arith))

abbrev table : FilterTable
table = record { table_size = 1; filters = one_filter ∷ [] }

held-out : filters_out two_table 1 (one_filter ∷ []) ≡ some (held_filter ∷ [])
unfolding filters_out
held-out =
    filters_out-step two_table 0 one_filter held_filter [] []
      (filter_out-named two_table one_filter adapter1 (omega arith) (omega arith) two_table-first)
      refl

get_filter_table-set_filter_table_example :
    (set_filter_table machine client table start
      ≡ some ((true, held_table), record start { sys = 1; bytes_returned = 0 }))
    × (get_filter_table machine client table start
        ≡ some ((true, table), record start { sys = 1; bytes_returned = filter_table_size 1 }))
unfolding device_io_control
get_filter_table-set_filter_table_example =
    get_filter_table-set_filter_table machine client table (held_filter ∷ []) start
      (record start { sys = 1; bytes_returned = 0 }) start
      (record start { sys = 1; bytes_returned = filter_table_size 1 }) table refl
      two_table-IsValid.distinct
      (omega arith, omega arith, (adapter1, two_table-first, omega arith), tt) held-out refl refl
      refl refl
