-- ===== src/Api/Adapters/Known.antt =====
-- The adapter handles that GetTcpipBoundAdaptersInfo gives a WOW64 client.
use ndisapi.Base.{
  ℕ, zero, suc, ◌-◌, ◌≤◌, ◌<◌, ◌≡◌, refl, true, some, List, [], ◌∷◌, ◌++◌, map, arith, length, take,
  replicate, get_or, length-take,
}
use ndisapi.Driver.{AdapterList, get_tcpip_interfaces}
use ndisapi.Driver.Sizes.{sizeof_adapter_list_wow64}
use ndisapi.Handles.{from_32_to_64, from_64_to_32}
use ndisapi.Handles.Sets.{contains-get_or}
use ndisapi.Handles.Lookup.{from_32_to_64-from_64_to_32}
use ndisapi.Handles.Keeps.{IsValid, IsAdapterList, update-Updated}
use ndisapi.Exec.{Env, World, bind_run, get_table_run, lift_run, pure_run, put_table_run}
use ndisapi.Api.{Api, thunks, device_io_control}
use ndisapi.Api.Adapters.{zero_list, numbers, list_back, adapters_info}

get_or-map_append :
    (f : ℕ → ℕ) (k : ℕ) (xs ys : List ℕ)
    → k < length xs
    → get_or (map f xs ++ ys) k 0 ≡ f (get_or xs k 0)
get_or-map_append f k [] ys lt = absurd (omega arith)
get_or-map_append f zero (x ∷ xs) ys lt = refl
get_or-map_append f (suc k) (x ∷ xs) ys lt = get_or-map_append f k xs ys (omega arith)

module _ {S : Type 0} (env : Env S) (api : Api) (w w1 : World S) (list list64 : AdapterList) where
  -- On the WOW64 path, from a valid table, when the driver answers with a list of at most 32 different
  -- adapters, GetTcpipBoundAdaptersInfo succeeds, leaves the table valid, and gives each adapter of
  -- the list a number above 0 that the new table translates back to the driver's handle.
  pub adapters_info-numbers :
      thunks api ≡ true
      → device_io_control env api true get_tcpip_interfaces zero_list sizeof_adapter_list_wow64
          zero_list sizeof_adapter_list_wow64 w
        ≡ some ((true, list64), w1)
      → IsValid w1.table
      → list64.count ≤ length list64.handles
      → IsAdapterList (take list64.count list64.handles)
      → (out : AdapterList) × (w' : World S) × (adapters_info env api list w
          ≡ some ((true, out), w'))
        × (out.count ≡ list64.count)
        × IsValid w'.table
        × ((k : ℕ)
            → k < list64.count
            → (0 < get_or out.handles k 0)
              × (from_32_to_64 w'.table (get_or out.handles k 0)
                  ≡ some (get_or (take list64.count list64.handles) k 0)))
  unfolding adapters_info list_back numbers
  adapters_info-numbers th asked v le a =
      let (t', e, u) = update-Updated w1.table list64.count list64.handles v le a in
      let hs = take list64.count list64.handles in
      let size : length hs ≡ list64.count =
        omega (arith, length-take list64.count list64.handles) in
      (
        record list64 { handles = numbers t' list64 },
        record w1 { table = t' },
        rw th (
            bind_run _ _ asked (
              bind_run _ _ (get_table_run w1) (
                bind_run _ _ (lift_run w1 e) (bind_run _ _ (put_table_run t' w1) (pure_run _ _))))),
        refl,
        u.valid,
        λ k lt.
            let h = get_or hs k 0 in
            let found =
              from_32_to_64-from_64_to_32 t' h
                (u.present h (contains-get_or hs k (omega (arith, size)))) in
            let same =
              get_or-map_append (from_64_to_32 t') k hs (replicate (32 - list64.count) 0)
                (omega (arith, size)) in
            rw same (found.0, found.2),
      )
