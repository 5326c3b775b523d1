-- ===== src/Api/Filters.antt =====
-- The static filter table of CNdisApi: SetPacketFilterTable, ResetPacketFilterTable,
-- GetPacketFilterTableSize, GetPacketFilterTable and GetPacketFilterTableResetStats. On the WOW64
-- path the adapter handles of the caller's table are rewritten in place.
pub mod Translate
pub mod Tables
pub mod Again
use ndisapi.Base.{
  ℕ, zero, suc, ◌%◌, ◌^◌, Bool, true, false, ◌&&◌, Option, none, some, List, [], ◌∷◌, if◌then◌else◌,
  ◌==◌,
}
use ndisapi.Driver.{
  StaticFilter, FilterTable, set_packet_filters, reset_packet_filters, get_packet_filters_tablesize,
  get_packet_filters, get_packet_filters_reset_stats,
}
use ndisapi.Driver.Sizes.{filter_table_size}
use ndisapi.Handles.{HandleTable, from_32_to_64, from_64_to_32}
use ndisapi.Exec.{Env, Exec, pure, lift, get_table, ◌>>=◌}
use ndisapi.Api.{Api, thunks, device_io_control}

-- One filter on its way to the driver: a handle that is not 0 is translated.
pub filter_out : HandleTable → StaticFilter → Option StaticFilter
filter_out t f = if f.adapter == 0 then some f else elim (from_32_to_64 t (f.adapter % 2 ^ 32)) [
  | none ↦ none
  | some h ↦ some (record f { adapter = h })
]

-- The loop over m_TableSize filters; `none` past the end of the array.
unfoldable pub filters_out : HandleTable → ℕ → List StaticFilter → Option (List StaticFilter)
unfolding filter_out
filters_out t zero fs = some fs
filters_out t (suc n) [] = none
filters_out t (suc n) (f ∷ fs) = elim (filter_out t f) [
  | none ↦ none
  | some g ↦ elim (filters_out t n fs) [ none ↦ none | some gs ↦ some (g ∷ gs) ]
]

-- One filter on its way back.
pub filter_in : HandleTable → StaticFilter → StaticFilter
filter_in t f = record f { adapter = from_64_to_32 t f.adapter }

pub filters_in : HandleTable → ℕ → List StaticFilter → Option (List StaticFilter)
unfolding filter_in
filters_in t zero fs = some fs
filters_in t (suc n) [] = none
filters_in t (suc n) (f ∷ fs) = elim (filters_in t n fs) [
  | none ↦ none
  | some gs ↦ some (filter_in t f ∷ gs)
]

module _ {S : Type 0} (env : Env S) (api : Api) where
  -- The table that the request passes is the caller's, so the caller sees what was written to it.
  pub translated : FilterTable → Exec S FilterTable
  unfolding filters_out
  translated list =
      if thunks api
      then (do
        t ← get_table
        filters ← lift (filters_out t list.table_size list.filters)
        pure (record list { filters = filters }))
      else pure list

  pub set_filter_table : FilterTable → Exec S (Bool × FilterTable)
  unfolding translated device_io_control
  set_filter_table list = do
    list' ← translated list
    reply ←
        device_io_control env api false set_packet_filters list'
          (filter_table_size list'.table_size) tt 0
    pure (reply.0, list')

  pub reset_filter_table : Exec S Bool
  unfolding device_io_control
  reset_filter_table = do
    reply ← device_io_control env api false reset_packet_filters tt 0 tt 0
    pure reply.0

  pub filter_table_size_query : ℕ → Exec S (Bool × ℕ)
  unfolding device_io_control
  filter_table_size_query size =
      device_io_control env api false get_packet_filters_tablesize tt 0 size 4

  -- if (bIOResult && m_bIsWow64Process), for both methods that read the table
  pub table_back : Bool × FilterTable → Exec S (Bool × FilterTable)
  unfolding filters_in
  table_back (ok, list) =
      if thunks api && ok
      then (do
        t ← get_table
        filters ← lift (filters_in t list.table_size list.filters)
        pure (ok, record list { filters = filters }))
      else pure (ok, list)

  pub get_filter_table : FilterTable → Exec S (Bool × FilterTable)
  unfolding table_back device_io_control
  get_filter_table list = do
    reply ←
        device_io_control env api false get_packet_filters tt 0 list
          (filter_table_size list.table_size)
    table_back reply

  pub get_filter_table_reset_stats : FilterTable → Exec S (Bool × FilterTable)
  unfolding table_back device_io_control
  get_filter_table_reset_stats list = do
    reply ←
        device_io_control env api false get_packet_filters_reset_stats tt 0 list
          (filter_table_size list.table_size)
    table_back reply
