-- ===== src/Api/Adapters/Balance.antt =====
-- The handles that the constructor takes and the destructor gives back.
use ndisapi.Base.{
  ℕ, ◌+◌, ◌-◌, ◌≤◌, ◌≡◌, ◌∙◌, refl, Bool, true, false, Option, some, arith, length, Bool-cases, inl,
  inr, if◌then◌else◌,
}
use ndisapi.Driver.{AdapterList, get_tcpip_interfaces}
use ndisapi.Driver.Sizes.{sizeof_adapter_list, sizeof_adapter_list_wow64}
use ndisapi.Handles.{adapter_list_size}
use ndisapi.Handles.Keeps.{update_total}
use ndisapi.Exec.{
  Env, World, pure, close_handle, bind_run, ask_run, pure_run, get_table_run, put_table_run,
  lift_run, close_handle_run, create_event_run, create_file_run, ◌>>=◌,
}
use ndisapi.Api.{Api, thunks, pointer, device_io_control, device_io_control_lem}
use ndisapi.Api.Adapters.{
  zero_list, list_back, adapters_info, detect_wow64, open_driver, construct, destruct,
}

-- What an object owns.
abbrev pub owned : Bool → Bool → ℕ
owned file event = (if file then 1 else 0) + (if event then 1 else 0)

-- A run that returns, in a world with `n` open handles.
abbrev pub Leaves : {S A : Type 0} → Option (A × World S) → A → ℕ → Type 0
Leaves {S} o a n = (w' : World S) × (o ≡ some (a, w')) × (w'.open_handles ≡ n)

give_back :
    {S : Type 0} (held : Bool) (w : World S)
    → Leaves
        ((if held then close_handle else pure tt) w)
        tt
        (w.open_handles - (if held then 1 else 0))
give_back true w = (_, close_handle_run w, refl)
give_back false w = (w, pure_run tt w, omega arith)

destruct_lem :
    {S : Type 0} (api : Api) (w : World S)
    → Leaves (destruct api w) tt (w.open_handles - owned api.file_open api.has_event)
unfolding destruct
destruct_lem api w =
    let (w1, closed, n) = give_back api.file_open w in
    let (w2, closed', m) = give_back api.has_event w1 in
    (w2, bind_run _ _ closed closed', omega (arith, n, m))

module _ {S : Type 0} (env : Env S) where
  -- The list that the driver gives fits its arrays.
  abbrev pub InBounds : Type 0
  InBounds =
      (s : S)
      → let r =
          env.ioctl s true get_tcpip_interfaces zero_list sizeof_adapter_list_wow64 zero_list
            sizeof_adapter_list_wow64 in
        (r.out.count ≤ length r.out.handles) × (r.out.count ≤ adapter_list_size)

  -- The two handles of the constructor, on each of its branches.
  abbrev Opened : World S → Type 0
  Opened w =
      (file : Bool) × (event : Bool) × Leaves (open_driver env w) (file, event)
        (w.open_handles + owned file event)

  open_driver_lem : (w : World S) → Opened w
  unfolding open_driver
  open_driver_lem w = created _ _ refl
    where
      with_event :
          (s : S) (event : Bool) (s' : S)
          → env.create_file w.sys ≡ (true, s)
          → env.create_event s ≡ (event, s')
          → Opened w
      with_event s true s' e f = (
        true,
        true,
        (
          _,
          bind_run _ _ (create_file_run env w e)
              (bind_run _ _ (create_event_run env _ f) (pure_run _ _)),
          omega arith,
        ),
      )
      with_event s false s' e f = (
        true,
        false,
        (
          _,
          bind_run _ _ (create_file_run env w e)
              (bind_run _ _ (create_event_run env _ f) (pure_run _ _)),
          omega arith,
        ),
      )

      created : (file : Bool) (s : S) → env.create_file w.sys ≡ (file, s) → Opened w
      created true s e = with_event s _ _ e refl
      created false s e =
          (false, false, (_, bind_run _ _ (create_file_run env w e) (pure_run _ _), omega arith))

  detect_wow64_lem : (w : World S) → (wow64 : Bool) × (detect_wow64 env w ≡ some (wow64, w))
  unfolding detect_wow64
  detect_wow64_lem w = (
    _,
    bind_run _ _ (ask_run env.has_kernel32 w) (
        bind_run _ _ (ask_run env.has_is_wow64_process w)
          (bind_run _ _ (ask_run env.is_wow64_process w) (pure_run _ w))),
  )

  list_back_lem :
      (api : Api) (ok : Bool) (list64 : AdapterList) (w : World S)
      → list64.count ≤ length list64.handles
      → list64.count ≤ adapter_list_size
      → (r : Bool × AdapterList) × Leaves
          (list_back env api zero_list (ok, list64) w)
          r
          w.open_handles
  unfolding list_back
  list_back_lem api true list64 w le fits =
      let (t', e) = update_total w.table list64.count list64.handles le fits in
      (
        _,
        (
          _,
          bind_run _ _ (get_table_run w)
              (bind_run _ _ (lift_run w e) (bind_run _ _ (put_table_run t' w) (pure_run _ _))),
          refl,
        ),
      )
  list_back_lem api false list64 w le fits = (_, (w, pure_run _ w, refl))

  -- The reply to the WOW64 request for the list.
  asked_lem :
      (api : Api) (w : World S)
      → InBounds
      → (ok : Bool) × (list64 : AdapterList) × (list64.count ≤ length list64.handles)
        × (list64.count ≤ adapter_list_size)
        × Leaves
            (device_io_control env api true get_tcpip_interfaces zero_list sizeof_adapter_list_wow64
              zero_list sizeof_adapter_list_wow64 w)
            (ok, list64)
            w.open_handles
  unfolding device_io_control zero_list
  asked_lem api w fits = go api.file_open
    where
      go :
          (b : Bool)
          → let r =
              env.ioctl w.sys true get_tcpip_interfaces zero_list sizeof_adapter_list_wow64
                zero_list sizeof_adapter_list_wow64 in
            let made : Option ((Bool × AdapterList) × World S) =
              some ((r.ok, r.out), record w { sys = r.next; bytes_returned = r.returned }) in
            let skipped : Option ((Bool × AdapterList) × World S) = some ((false, zero_list), w) in
            (ok : Bool) × (list64 : AdapterList) × (list64.count ≤ length list64.handles)
            × (list64.count ≤ adapter_list_size)
            × Leaves (if b then made else skipped) (ok, list64) w.open_handles
      go true = (_, _, (fits w.sys).0, (fits w.sys).1, (_, refl, refl))
      go false = (false, zero_list, omega arith, omega arith, (_, refl, refl))

  adapters_info_lem :
      (api : Api) (w : World S)
      → InBounds
      → (r : Bool × AdapterList) × Leaves (adapters_info env api zero_list w) r w.open_handles
  unfolding adapters_info
  adapters_info_lem api w fits = elim (Bool-cases (thunks api)) [
    | inl th ↦
        let (ok, list64, le, small, (w1, asked, n)) = asked_lem api w fits in
        let (r, (w2, back, m)) = list_back_lem api ok list64 w1 le small in
        (r, (w2, rw th (bind_run _ _ asked back), m ∙ n))
    | inr th ↦
        let (ok, out, s, n, ran) =
          device_io_control_lem env api false get_tcpip_interfaces zero_list
            (sizeof_adapter_list (pointer api)) zero_list (sizeof_adapter_list (pointer api)) w in
        ((ok, out), (record w { sys = s; bytes_returned = n }, rw th ran, refl))
  ]

  -- When the driver's list fits its arrays, the constructor returns on every answer of the outside,
  -- holding the handles that its object owns, and the destructor of that object gives them back.
  pub destruct-construct :
      (win64 : Bool) (w : World S)
      → InBounds
      → (api : Api) × (w1 : World S) × (w2 : World S) × (construct env win64 w ≡ some (api, w1))
        × (w1.open_handles ≡ w.open_handles + owned api.file_open api.has_event)
        × (destruct api w1 ≡ some (tt, w2))
        × (w2.open_handles ≡ w.open_handles)
  unfolding construct
  destruct-construct win64 w fits =
      let (file, event, (w1, opened, n)) = open_driver_lem w in
      let (wow64, detected) = detect_wow64_lem w1 in
      let api : Api = record {
        win64 = win64;
        file_open = file;
        has_event = event;
        is_load_successfully = event;
        is_wow64_process = wow64;
      } in
      let (w2, built, m) = rest api wow64 w1 in
      let (w3, gone, k) = destruct_lem api w2 in
      (
        api,
        w2,
        w3,
        bind_run _ _ opened (bind_run _ _ detected built),
        m ∙ n,
        gone,
        omega (arith, m, n, k),
      )
    where
      rest :
          (api : Api) (wow64 : Bool) (w1 : World S)
          → Leaves
              ((if wow64 then (adapters_info env api zero_list >>= λ _. pure api) else pure api) w1)
              api
              w1.open_handles
      rest api true w1 =
          let (r, (w2, ran, m)) = adapters_info_lem api w1 fits in
          (w2, bind_run _ _ ran (pure_run _ _), m)
      rest api false w1 = (w1, pure_run api w1, refl)
