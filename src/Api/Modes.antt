-- ===== src/Api/Modes.antt =====
-- The requests of CNdisApi that name one adapter: SetAdapterMode, GetAdapterMode,
-- FlushAdapterPacketQueue, GetAdapterPacketQueueSize, GetRasLinks; and those that name none:
-- GetVersion, GetIntermediateBufferPoolSize, GetBytesReturned, IsDriverLoaded.
use ndisapi.Base.{ℕ, ◌-◌, ◌^◌, Bool, true, false, some, List, if◌then◌else◌}
use ndisapi.Driver.{
  AdapterMode, get_version, set_adapter_mode, get_adapter_mode, flush_adapter_queue,
  adapter_queue_size, get_ras_links, query_ib_pool_size,
}
use ndisapi.Driver.Sizes.{sizeof_adapter_mode, sizeof_adapter_mode_wow64, sizeof_ras_links}
use ndisapi.Exec.{Env, Exec, pure, translate, ◌>>=◌}
use ndisapi.Api.{Api, thunks, pointer, device_io_control}

module _ {S : Type 0} (env : Env S) (api : Api) where
  pub driver_version : Exec S ℕ
  unfolding device_io_control
  driver_version = do
    reply ← device_io_control env api false get_version (2 ^ 32 - 1) 4 (2 ^ 32 - 1) 4
    pure reply.1

  pub set_mode : AdapterMode → Exec S Bool
  unfolding device_io_control
  set_mode mode =
      if thunks api
      then (do
        adapter ← translate mode.adapter
        reply ←
            device_io_control env api true set_adapter_mode (record mode { adapter = adapter })
              sizeof_adapter_mode_wow64 tt 0
        pure reply.0)
      else (do
        reply ←
            device_io_control env api false set_adapter_mode mode
              (sizeof_adapter_mode (pointer api)) tt 0
        pure reply.0)

  -- On the WOW64 path dwFlags of the local structure is not initialised; `unset` is what it holds.
  pub get_mode : ℕ → AdapterMode → Exec S (Bool × AdapterMode)
  unfolding device_io_control
  get_mode unset mode =
      if thunks api
      then (do
        adapter ← translate mode.adapter
        let request : AdapterMode = record { adapter = adapter; flags = unset }
        reply ←
            device_io_control env api true get_adapter_mode request sizeof_adapter_mode_wow64
              request sizeof_adapter_mode_wow64
        pure (reply.0, if reply.0 then record mode { flags = reply.1.flags } else mode))
      else device_io_control env api false get_adapter_mode mode (sizeof_adapter_mode (pointer api))
          mode (sizeof_adapter_mode (pointer api))

  pub flush_queue : ℕ → Exec S Bool
  unfolding device_io_control
  flush_queue adapter =
      if thunks api
      then (do
        handle ← translate adapter
        reply ← device_io_control env api true flush_adapter_queue handle 8 tt 0
        pure reply.0)
      else (do
        reply ← device_io_control env api false flush_adapter_queue adapter (pointer api) tt 0
        pure reply.0)

  pub queue_size : ℕ → ℕ → Exec S (Bool × ℕ)
  unfolding device_io_control
  queue_size adapter size =
      if thunks api
      then (do
        handle ← translate adapter
        device_io_control env api true adapter_queue_size handle 8 size 4)
      else device_io_control env api false adapter_queue_size adapter (pointer api) size 4

  pub ras_links : ℕ → List ℕ → Exec S (Bool × List ℕ)
  unfolding device_io_control
  ras_links adapter links =
      if thunks api
      then (do
        handle ← translate adapter
        device_io_control env api true get_ras_links handle 8 links sizeof_ras_links)
      else device_io_control env api false get_ras_links adapter (pointer api) links
          sizeof_ras_links

  pub pool_size : ℕ → Exec S (Bool × ℕ)
  unfolding device_io_control
  pool_size size = device_io_control env api false query_ib_pool_size size 4 size 4

  pub bytes_returned : Exec S ℕ
  bytes_returned w = some (w.bytes_returned, w)

  pub is_driver_loaded : Exec S Bool
  is_driver_loaded = pure api.is_load_successfully
