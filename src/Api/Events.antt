-- ===== src/Api/Events.antt =====
-- CNdisApi::SetPacketEvent, SetWANEvent, SetAdapterListChangeEvent and SetHwPacketFilterEvent.
mod Requests
pub mod Libraries
use ndisapi.Base.{ℕ, ◌%◌, ◌^◌, Bool, true, false, not, Option, none, some, if◌then◌else◌, ◌==◌}
use ndisapi.Driver.{
  AdapterEvent, set_event, set_wan_event, set_adapter_event, set_adapter_hwfilter_event,
}
use ndisapi.Driver.Sizes.{sizeof_adapter_event, sizeof_adapter_event_wow64}
use ndisapi.Exec.{Env, Exec, pure, translate, ask, call, load_library, free_library, ◌>>=◌, ◌>>◌}
use ndisapi.Api.{Api, thunks, pointer, device_io_control}

module _ {S : Type 0} (env : Env S) (api : Api) where
  -- pfOpenVxDHandle is called for an event that is not NULL; then the library is released.
  pub open_event : ℕ → Exec S (Option ℕ)
  open_event event = do
    ring0 ← (if event == 0 then pure 0 else call (λ s. env.open_vxd_handle s event))
    free_library
    pure (some ring0)

  -- The handle that the driver takes; `none` where the methods return FALSE.
  pub ring0_event : ℕ → Exec S (Option ℕ)
  unfolding open_event
  ring0_event event = if env.is_windows_nt_platform then pure (some event) else (do
    loaded ← load_library env
    if not loaded then pure none else (do
      found ← ask env.has_open_vxd_handle
      if found then open_event event else pure none))

  -- AdapterEvent64 and AdapterEvent; an event handle goes to the low half of 64 bits.
  pub request_event : AdapterEvent → Exec S Bool
  unfolding device_io_control
  request_event e =
      if thunks api
      then (do
        adapter ← translate e.adapter
        reply ←
            device_io_control env api true set_event
              (record { adapter = adapter; event = e.event % 2 ^ 32 }) sizeof_adapter_event_wow64 tt
              0
        pure reply.0)
      else (do
        reply ←
            device_io_control env api false set_event e (sizeof_adapter_event (pointer api)) tt 0
        pure reply.0)

  pub set_packet_event : ℕ → ℕ → Exec S Bool
  unfolding ring0_event request_event
  set_packet_event adapter event = do
    ring0 ← ring0_event event
    elim ring0 [
      | none ↦ pure false
      | some e ↦ request_event (record { adapter = adapter; event = e })
    ]

  pub request_wan_event : ℕ → Exec S Bool
  unfolding device_io_control
  request_wan_event e =
      if thunks api
      then (do
        reply ← device_io_control env api true set_wan_event (e % 2 ^ 32) 8 tt 0
        pure reply.0)
      else (do
        reply ← device_io_control env api false set_wan_event e (pointer api) tt 0
        pure reply.0)

  pub change_wan_event : ℕ → Exec S Bool
  unfolding ring0_event request_wan_event
  change_wan_event event = do
    ring0 ← ring0_event event
    elim ring0 [ none ↦ pure false | some e ↦ request_wan_event e ]

  pub request_list_event : ℕ → Exec S Bool
  unfolding device_io_control
  request_list_event e =
      if thunks api
      then (do
        reply ← device_io_control env api true set_adapter_event (e % 2 ^ 32) 8 tt 0
        pure reply.0)
      else (do
        reply ← device_io_control env api false set_adapter_event e (pointer api) tt 0
        pure reply.0)

  pub set_adapter_list_change_event : ℕ → Exec S Bool
  unfolding ring0_event request_list_event
  set_adapter_list_change_event event = do
    ring0 ← ring0_event event
    elim ring0 [ none ↦ pure false | some e ↦ request_list_event e ]

  pub request_hw_filter_event : AdapterEvent → Exec S Bool
  unfolding device_io_control
  request_hw_filter_event e =
      if thunks api
      then (do
        adapter ← translate e.adapter
        reply ←
            device_io_control env api true set_adapter_hwfilter_event
              (record { adapter = adapter; event = e.event % 2 ^ 32 }) sizeof_adapter_event_wow64 tt
              0
        pure reply.0)
      else (do
        reply ←
            device_io_control env api false set_adapter_hwfilter_event e
              (sizeof_adapter_event (pointer api)) tt 0
        pure reply.0)

  pub set_hw_packet_filter_event : ℕ → ℕ → Exec S Bool
  unfolding ring0_event request_hw_filter_event
  set_hw_packet_filter_event adapter event = do
    ring0 ← ring0_event event
    elim ring0 [
      | none ↦ pure false
      | some e ↦ request_hw_filter_event (record { adapter = adapter; event = e })
    ]
