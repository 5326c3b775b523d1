-- ===== src/Api/Filters/Again.antt =====
-- SetPacketFilterTable called twice with the caller's table.
use ndisapi.Base.{
  ℕ, suc, ◌%◌, ◌^◌, ◌<◌, ◌≡◌, ◌≢◌, refl, true, false, Bool, some, none, List, ◌∷◌, length,
}
use ndisapi.Driver.{FilterTable, StaticFilter, set_packet_filters}
use ndisapi.Driver.Sizes.{filter_table_size}
use ndisapi.Handles.{from_32_to_64}
use ndisapi.Exec.{Env, World, bind_run, bind_fault, get_table_run, lift_run, lift_fault, pure_run}
use ndisapi.Api.{Api, thunks, device_io_control_lem}
use ndisapi.Api.Filters.{filters_out, translated, set_filter_table}
use ndisapi.Api.Filters.Translate.{filter_out-named, filters_out-step, filters_out-past}

module _ {S : Type 0} (env : Env S) (api : Api) where
  -- In a WOW64 process, for a table whose first filter names an adapter by its number and whose other
  -- filters the loop translates: SetPacketFilterTable returns, and the caller's first filter then
  -- holds the driver's 64-bit handle. If the low half of that handle is a number past the handle
  -- table, calling the method again with the same table reads outside the handle table.
  pub set_filter_table-twice :
      (w : World S) (n h : ℕ) (f : StaticFilter) (fs gs : List StaticFilter)
      → thunks api ≡ true
      → f.adapter ≢ 0
      → f.adapter < 2 ^ 32
      → from_32_to_64 w.table f.adapter ≡ some h
      → filters_out w.table n fs ≡ some gs
      → length w.table.slots < h % 2 ^ 32
      → (ok : Bool) × (list : FilterTable) × (w' : World S) × (set_filter_table env api
            (record { table_size = suc n; filters = f ∷ fs })
            w
          ≡ some ((ok, list), w'))
        × (list.filters ≡ record f { adapter = h } ∷ gs)
        × (set_filter_table env api list w' ≡ none)
  unfolding set_filter_table translated
  set_filter_table-twice w n h f fs gs th nz lt e out past =
      let g : StaticFilter = record f { adapter = h } in
      let list : FilterTable = record { table_size = suc n; filters = g ∷ gs } in
      let one = filters_out-step w.table n f g fs gs (filter_out-named w.table f h nz lt e) out in
      let (ok, r, s, k, ran) =
        device_io_control_lem env api false set_packet_filters list (filter_table_size (suc n)) tt 0
          w in
      let w' : World S = record w { sys = s; bytes_returned = k } in
      let again : filters_out w'.table (suc n) (g ∷ gs) ≡ none =
        filters_out-past w.table n f gs h past in
      (
        ok,
        list,
        w',
        rw th (
            bind_run _ _
              (bind_run _ _ (get_table_run w) (bind_run _ _ (lift_run w one) (pure_run list w)))
              (bind_run _ _ ran (pure_run _ w'))),
        refl,
        rw th (
            bind_fault _ _
              (bind_run _ _ (get_table_run w') (bind_fault _ _ (lift_fault w' again)))),
      )
