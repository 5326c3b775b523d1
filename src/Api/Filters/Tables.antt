-- ===== src/Api/Filters/Tables.antt =====
-- SetPacketFilterTable and GetPacketFilterTable as requests of a WOW64 process.
use ndisapi.Base.{ℕ, ◌≡◌, ◌∙◌, sym, ap, true, false, Option, none, some, List}
use ndisapi.Driver.{FilterTable, StaticFilter, set_packet_filters, get_packet_filters}
use ndisapi.Driver.Sizes.{filter_table_size}
use ndisapi.Handles.Sets.{DistinctUsed}
use ndisapi.Exec.{Env, World, bind_run, get_table_run, lift_run, pure_run}
use ndisapi.Api.{Api, thunks, device_io_control}
use ndisapi.Api.Filters.{
  filters_out, filters_in, translated, set_filter_table, table_back, get_filter_table,
}
use ndisapi.Api.Filters.Translate.{AllNamed, filters_in-filters_out}

abbrev from_some : List StaticFilter → Option (List StaticFilter) → List StaticFilter
from_some d none = d
from_some d (some x) = x

module _ {S : Type 0} (env : Env S) (api : Api) (list : FilterTable) (gs : List StaticFilter) where
  abbrev pub sent : FilterTable
  sent = record list { filters = gs }

  abbrev pub size : ℕ
  size = filter_table_size list.table_size

  -- In a WOW64 process whose handle table holds the adapters that the caller's filters name, let the
  -- driver accept a filter table and later, with the same handle table, report that table. Then
  -- SetPacketFilterTable succeeds and sends the filters with the driver's handles, and
  -- GetPacketFilterTable succeeds and gives back the filters as the caller named them.
  pub get_filter_table-set_filter_table :
      (w w1 w2 w3 : World S) (empty : FilterTable)
      → thunks api ≡ true
      → DistinctUsed w.table.slots
      → AllNamed w.table list.table_size list.filters
      → filters_out w.table list.table_size list.filters ≡ some gs
      → device_io_control env api false set_packet_filters sent size tt 0 w ≡ some ((true, tt), w1)
      → empty.table_size ≡ list.table_size
      → device_io_control env api false get_packet_filters tt 0 empty
          (filter_table_size empty.table_size)
          w2
        ≡ some ((true, sent), w3)
      → w3.table ≡ w.table
      → (set_filter_table env api list w ≡ some ((true, sent), w1))
        × (get_filter_table env api empty w2 ≡ some ((true, list), w3))
  unfolding set_filter_table get_filter_table table_back translated
  get_filter_table-set_filter_table w w1 w2 w3 empty th d named out accepted same reported kept =
      let (gs', out', back) = filters_in-filters_out w.table list.table_size list.filters d named in
      let equal : gs' ≡ gs = ap (from_some gs) (sym out' ∙ out) in
      let back' : filters_in w3.table list.table_size gs ≡ some list.filters =
        ap (λ t. filters_in t list.table_size gs) kept
        ∙ ap (filters_in w.table list.table_size) (sym equal)
        ∙ back in
      (
        rw th (
            bind_run _ _
              (bind_run _ _ (get_table_run w) (bind_run _ _ (lift_run w out) (pure_run sent w)))
              (bind_run _ _ accepted (pure_run _ w1))),
        rw th (
            bind_run _ _ reported
              (bind_run _ _ (get_table_run w3) (bind_run _ _ (lift_run w3 back') (pure_run _ w3)))),
      )
