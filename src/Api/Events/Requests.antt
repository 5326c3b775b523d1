-- ===== src/Api/Events/Requests.antt =====
-- The requests that the four event methods end with.
use ndisapi.Base.{ℕ, ◌%◌, ◌^◌, ◌≡◌, refl, Bool, true, false, Bool-cases, inl, inr, some}
use ndisapi.Driver.{set_event, set_wan_event, set_adapter_event, set_adapter_hwfilter_event}
use ndisapi.Driver.Sizes.{sizeof_adapter_event, sizeof_adapter_event_wow64}
use ndisapi.Handles.{from_32_to_64}
use ndisapi.Exec.{Env, Exec, World, bind_run, pure_run, translate_run, if_true_run, if_false_run}
use ndisapi.Api.{Api, thunks, pointer, device_io_control_lem}
use ndisapi.Api.Events.{
  request_event, request_wan_event, request_list_event, request_hw_filter_event,
}

-- A run that returns with as many references as before.
abbrev pub Same : {S : Type 0} → Exec S Bool → World S → Type 0
Same {S} m w = (ok : Bool) × (w' : World S) × (m w ≡ some (ok, w')) × (w'.libraries ≡ w.libraries)

module _ {S : Type 0} (env : Env S) (api : Api) where
  pub request_wan_event_lem : (e : ℕ) (w : World S) → Same (request_wan_event env api e) w
  unfolding request_wan_event
  request_wan_event_lem e w = elim (Bool-cases (thunks api)) [
    | inl th ↦
        let (ok, out, s, n, ran) =
          device_io_control_lem env api true set_wan_event (e % 2 ^ 32) 8 tt 0 w in
        (ok, _, if_true_run _ _ _ th (bind_run _ _ ran (pure_run _ _)), refl)
    | inr th ↦
        let (ok, out, s, n, ran) =
          device_io_control_lem env api false set_wan_event e (pointer api) tt 0 w in
        (ok, _, if_false_run _ _ _ th (bind_run _ _ ran (pure_run _ _)), refl)
  ]

  pub request_list_event_lem : (e : ℕ) (w : World S) → Same (request_list_event env api e) w
  unfolding request_list_event
  request_list_event_lem e w = elim (Bool-cases (thunks api)) [
    | inl th ↦
        let (ok, out, s, n, ran) =
          device_io_control_lem env api true set_adapter_event (e % 2 ^ 32) 8 tt 0 w in
        (ok, _, if_true_run _ _ _ th (bind_run _ _ ran (pure_run _ _)), refl)
    | inr th ↦
        let (ok, out, s, n, ran) =
          device_io_control_lem env api false set_adapter_event e (pointer api) tt 0 w in
        (ok, _, if_false_run _ _ _ th (bind_run _ _ ran (pure_run _ _)), refl)
  ]

  module _ (adapter handle : ℕ) where
    pub request_event_lem :
        (e : ℕ) (w : World S)
        → from_32_to_64 w.table adapter ≡ some handle
        → Same (request_event env api (record { adapter = adapter; event = e })) w
    unfolding request_event
    request_event_lem e w t = elim (Bool-cases (thunks api)) [
      | inl th ↦
          let (ok, out, s, n, ran) =
            device_io_control_lem env api true set_event
              (record { adapter = handle; event = e % 2 ^ 32 }) sizeof_adapter_event_wow64 tt 0 w in
          (
            ok,
            _,
            if_true_run _ _ _ th
                (bind_run _ _ (translate_run _ w t) (bind_run _ _ ran (pure_run _ _))),
            refl,
          )
      | inr th ↦
          let (ok, out, s, n, ran) =
            device_io_control_lem env api false set_event (record { adapter = adapter; event = e })
              (sizeof_adapter_event (pointer api)) tt 0 w in
          (ok, _, if_false_run _ _ _ th (bind_run _ _ ran (pure_run _ _)), refl)
    ]

    pub request_hw_filter_event_lem :
        (e : ℕ) (w : World S)
        → from_32_to_64 w.table adapter ≡ some handle
        → Same (request_hw_filter_event env api (record { adapter = adapter; event = e })) w
    unfolding request_hw_filter_event
    request_hw_filter_event_lem e w t = elim (Bool-cases (thunks api)) [
      | inl th ↦
          let (ok, out, s, n, ran) =
            device_io_control_lem env api true set_adapter_hwfilter_event
              (record { adapter = handle; event = e % 2 ^ 32 }) sizeof_adapter_event_wow64 tt 0 w in
          (
            ok,
            _,
            if_true_run _ _ _ th
                (bind_run _ _ (translate_run _ w t) (bind_run _ _ ran (pure_run _ _))),
            refl,
          )
      | inr th ↦
          let (ok, out, s, n, ran) =
            device_io_control_lem env api false set_adapter_hwfilter_event
              (record { adapter = adapter; event = e }) (sizeof_adapter_event (pointer api)) tt 0
              w in
          (ok, _, if_false_run _ _ _ th (bind_run _ _ ran (pure_run _ _)), refl)
    ]
