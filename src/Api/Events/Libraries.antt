-- ===== src/Api/Events/Libraries.antt =====
-- The reference to kernel32.dll that the event methods take on Windows 9x.
use ndisapi.Base.{
  ℕ, ◌+◌, ◌-◌, ◌≡◌, ◌∙◌, refl, ap, Bool, true, false, Bool-cases, inl, inr, Option, none, some,
  arith, ◌==◌, if◌then◌else◌,
}
use ndisapi.Handles.{from_32_to_64}
use ndisapi.Exec.{
  Env, Exec, World, pure, load_library, ask_run, bind_run, pure_run, call_run, free_library_run,
  if_true_run, if_false_run, ◌>>=◌,
}
use ndisapi.Api.{Api}
use ndisapi.Api.Events.Requests.{
  Same, request_event_lem, request_wan_event_lem, request_list_event_lem,
  request_hw_filter_event_lem,
}
use ndisapi.Api.Events.{
  open_event, ring0_event, request_event, request_wan_event, request_list_event,
  request_hw_filter_event, set_packet_event, change_wan_event, set_adapter_list_change_event,
  set_hw_packet_filter_event,
}

-- The references that are left over: one where the platform is not NT and kernel32.dll was loaded
-- but has no OpenVxDHandle.
unfoldable pub left_over : Bool → Bool → Bool → ℕ
left_over true loaded found = 0
left_over false false found = 0
left_over false true true = 0
left_over false true false = 1

-- A run that returns in a world with `n` references more, and FALSE where there is one.
abbrev pub Keeps : {S : Type 0} → Exec S Bool → World S → ℕ → Type 0
Keeps {S} m w n =
    (ok : Bool) × (w' : World S) × (m w ≡ some (ok, w'))
    × (w'.libraries ≡ w.libraries + n)
    × (n ≡ 1 → ok ≡ false)

module _ {S : Type 0} (env : Env S) (api : Api) where
  open_event_lem :
      (event : ℕ) (w : World S)
      → (o : Option ℕ) × (s : S) × (open_event env api event w
          ≡ some (o, record w { sys = s; libraries = w.libraries - 1 }))
  unfolding open_event
  open_event_lem event w = elim (Bool-cases (event == 0)) [
    | inl e ↦ (
      some 0,
      w.sys,
      rw e (bind_run _ _ (pure_run 0 _) (bind_run _ _ (free_library_run _) (pure_run _ _))),
    )
    | inr e ↦ (
      some (env.open_vxd_handle w.sys event).0,
      (env.open_vxd_handle w.sys event).1,
      rw e (
          bind_run _ _ (call_run (λ t. env.open_vxd_handle t event) _ refl)
            (bind_run _ _ (free_library_run _) (pure_run _ _))),
    )
  ]

module _ {S : Type 0} (env : Env S) (api : Api) (w : World S) where
  -- What the outside answers decides how many references stay.
  abbrev pub references : ℕ
  references =
      left_over env.is_windows_nt_platform (env.load_library w.sys).0
        (env.has_open_vxd_handle (env.load_library w.sys).1)

  -- ring0_event, which gives no handle where a reference stays.
  Taken : Option (Option ℕ × World S) → ℕ → Type 0
  Taken r n =
      (o : Option ℕ) × (w1 : World S) × (r ≡ some (o, w1))
      × (w1.table ≡ w.table)
      × (w1.libraries ≡ w.libraries + n)
      × (n ≡ 1 → o ≡ none)

  abbrev loaded_world : Bool → World S
  loaded_world loaded = record w {
    sys = (env.load_library w.sys).1;
    libraries = if loaded then w.libraries + 1 else w.libraries;
  }

  load_library_run :
      (loaded : Bool)
      → (env.load_library w.sys).0 ≡ loaded
      → load_library env w ≡ some (loaded, loaded_world loaded)
  unfolding load_library
  load_library_run loaded e = ap (λ b. some (b, loaded_world b)) e

  taken :
      (event : ℕ) (nt loaded found : Bool)
      → env.is_windows_nt_platform ≡ nt
      → (env.load_library w.sys).0 ≡ loaded
      → env.has_open_vxd_handle (env.load_library w.sys).1 ≡ found
      → Taken (ring0_event env api event w) (left_over nt loaded found)
  unfolding Taken ring0_event left_over
  taken event true loaded found nt ld fd = (
    some event,
    w,
    if_true_run _ _ _ nt (pure_run _ w),
    refl,
    omega arith,
    λ e. absurd (omega arith),
  )
  taken event false false found nt ld fd = (
    none,
    loaded_world false,
    if_false_run _ _ _ nt (bind_run _ _ (load_library_run false ld) (pure_run _ _)),
    refl,
    omega arith,
    λ e. refl,
  )
  taken event false true true nt ld fd =
      let (o, s, ran) = open_event_lem env api event (loaded_world true) in
      (
        o,
        record (loaded_world true) { sys = s; libraries = w.libraries + 1 - 1 },
        if_false_run _ _ _ nt (
            bind_run _ _ (load_library_run true ld)
              (bind_run _ _ (ask_run env.has_open_vxd_handle _) (if_true_run _ _ _ fd ran))),
        refl,
        omega arith,
        λ e. absurd (omega arith),
      )
  taken event false true false nt ld fd = (
    none,
    loaded_world true,
    if_false_run _ _ _ nt (
        bind_run _ _ (load_library_run true ld) (
          bind_run _ _ (ask_run env.has_open_vxd_handle _) (if_false_run _ _ _ fd (pure_run _ _)))),
    refl,
    refl,
    λ e. refl,
  )

  requested :
      (event : ℕ) (request : ℕ → Exec S Bool)
      → ((e : ℕ) (w1 : World S) → w1.table ≡ w.table → Same (request e) w1)
      → Keeps
          (ring0_event env api event >>= λ ring0. elim ring0 as (λ _. Exec S Bool) [
            | none ↦ pure false
            | some e ↦ request e
          ])
          w
          references
  unfolding Taken
  requested event request same =
      let (o, w1, ran, t, n, z) = taken event _ _ _ refl refl refl in go o w1 ran t n z
    where
      go :
          (o : Option ℕ) (w1 : World S)
          → ring0_event env api event w ≡ some (o, w1)
          → w1.table ≡ w.table
          → w1.libraries ≡ w.libraries + references
          → (references ≡ 1 → o ≡ none)
          → Keeps
              (ring0_event env api event >>= λ ring0. elim ring0 as (λ _. Exec S Bool) [
                | none ↦ pure false
                | some e ↦ request e
              ])
              w
              references
      go none w1 ran t n z = (false, w1, bind_run _ _ ran (pure_run _ _), n, λ e. refl)
      go (some e) w1 ran t n z =
          let (ok, w2, asked, m) = same e w1 t in
          (ok, w2, bind_run _ _ ran asked, m ∙ n, λ one. absurd (let bad = z one in cc))

  -- For an adapter number that the table translates, each of the four event methods returns, whatever
  -- the outside answers, and holds afterwards as many references to kernel32.dll as before, but in one
  -- case: where the platform is not NT, the library loads and has no OpenVxDHandle, one more reference
  -- stays and the method returns FALSE.
  pub events-libraries :
      (adapter handle event : ℕ)
      → from_32_to_64 w.table adapter ≡ some handle
      → Keeps (set_packet_event env api adapter event) w references
        × Keeps (change_wan_event env api event) w references
        × Keeps (set_adapter_list_change_event env api event) w references
        × Keeps (set_hw_packet_filter_event env api adapter event) w references
  unfolding set_packet_event change_wan_event set_adapter_list_change_event
      set_hw_packet_filter_event
  events-libraries adapter handle event known = (
    requested event (λ e. request_event env api (record { adapter = adapter; event = e }))
        (λ e w1 t.
          request_event_lem env api adapter handle e w1
            (ap (λ x. from_32_to_64 x adapter) t ∙ known)),
    requested event (request_wan_event env api) (λ e w1 t. request_wan_event_lem env api e w1),
    requested event (request_list_event env api) (λ e w1 t. request_list_event_lem env api e w1),
    requested event (λ e. request_hw_filter_event env api (record { adapter = adapter; event = e }))
        (λ e w1 t.
          request_hw_filter_event_lem env api adapter handle e w1
            (ap (λ x. from_32_to_64 x adapter) t ∙ known)),
  )
