-- ===== src/Api/Oid/Requests.antt =====
-- NdisrdRequest on the WOW64 path: what it holds afterwards, and what it gives back.
use ndisapi.Base.{
  ℕ, ◌+◌, ◌-◌, ◌^◌, ◌≤◌, ◌<◌, ◌≡◌, ◌∙◌, refl, ap, Bool, true, false, List, none, some, Option, leb,
  arith, length, ==_refl, take, if◌then◌else◌,
}
use ndisapi.Driver.{OidData, ndis_set_request, ndis_get_request}
use ndisapi.Driver.Sizes.{oid_size_wow64}
use ndisapi.Handles.{from_32_to_64}
use ndisapi.Exec.{
  Env, World, bind_run, pure_run, ask_run, call_run, lift_run, malloc_run, free_run,
  close_handle_run, create_event_run, translate_run,
}
use ndisapi.Api.{Api, thunks, device_io_control_lem}
use ndisapi.Api.Oid.{
  oid_request, oid_wait, oid_bytes, oid_back, oid_wow64_reply, oid_in_block, oid_wow64_block,
  oid_wow64, oid_end, ndisrd_request,
}

module _ {S : Type 0} (env : Env S) (api : Api) (d : OidData) (w : World S) (handle : ℕ) where
  -- The method ends with the caller's data as they were.
  end_lem :
      (v : World S)
      → oid_end env api d.data_length (true, d) v
        ≡ some ((true, d), record v { open_handles = v.open_handles - 1 })
  unfolding oid_end
  end_lem v = bind_run _ _ (close_handle_run v) (
      pure_run _ _
      ∙ ap (λ b. some ((b, d), record v { open_handles = v.open_handles - 1 }))
          (==_refl d.data_length))

  -- A run that returns and holds as many blocks and handles as there were in `w`.
  abbrev pub Balanced : Option ((Bool × OidData) × World S) → Type 0
  Balanced o =
      (r : Bool × OidData) × (w' : World S) × (o ≡ some (r, w'))
      × (w'.blocks ≡ w.blocks)
      × (w'.open_handles ≡ w.open_handles)

  -- Such a run that leaves the caller's data as they were.
  abbrev pub Untouched : Option ((Bool × OidData) × World S) → Type 0
  Untouched o =
      (ok : Bool) × (w' : World S) × (o ≡ some ((ok, d), w'))
      × (w'.blocks ≡ w.blocks)
      × (w'.open_handles ≡ w.open_handles)

  -- What the branch for WOW64 leaves: the data as they were; the event is closed where it fails.
  abbrev Left : World S → Option ((Bool × OidData) × World S) → Type 0
  Left v o =
      (ok : Bool) × (v' : World S) × (o ≡ some ((ok, d), v'))
      × (v'.blocks ≡ v.blocks)
      × (v'.open_handles + (if ok then 0 else 1) ≡ v.open_handles)

  reply_Left :
      (set ok : Bool) (out : OidData) (pending : Bool) (v v2 : World S)
      → (set ≡ false → pending ≡ false)
      → v2.blocks ≡ v.blocks + 1
      → v2.open_handles ≡ v.open_handles
      → 1 ≤ v.open_handles
      → Left v (oid_wow64_reply env api set d (ok, out) pending v2)
  unfolding oid_wow64_reply oid_wait oid_back
  reply_Left set true out pending v v2 quiet one opened open1 =
      (true, _, bind_run _ _ (free_run v2) (pure_run _ _), omega arith, omega arith)
  reply_Left true false out true v v2 quiet one opened open1 = (
    true,
    _,
    bind_run _ _ (call_run (λ s. env.wait s ndis_set_request out) v2 refl)
        (bind_run _ _ (pure_run d _) (bind_run _ _ (free_run _) (pure_run _ _))),
    omega arith,
    omega arith,
  )
  reply_Left false false out true v v2 quiet one opened open1 = absurd (let bad = quiet refl in cc)
  reply_Left set false out false v v2 quiet one opened open1 = (
    false,
    _,
    bind_run _ _ (close_handle_run v2) (bind_run _ _ (free_run _) (pure_run _ _)),
    omega arith,
    omega arith,
  )

  bytes_lem :
      (set : Bool) (v : World S)
      → (set ≡ true → d.data_length ≤ length d.contents)
      → (bytes : List ℕ) × (oid_bytes env api set d v ≡ some (bytes, v))
  unfolding oid_bytes
  bytes_lem true v fits =
      let le = fits refl in
      let bytes : (if leb d.data_length (length d.contents)
            then some (take d.data_length d.contents)
            else none)
          ≡ some (take d.data_length d.contents) =
        ground arith in
      (take d.data_length d.contents, lift_run v bytes)
  bytes_lem false v fits = (_, ask_run (λ s. env.block_bytes s d.data_length) v)

  request_lem :
      (set : Bool) (request : OidData) (size : ℕ) (v : World S)
      → (ok : Bool) × (out : OidData) × (s : S) × (n : ℕ) × (oid_request env api true set request
            size v
          ≡ some ((ok, out), record v { sys = s; bytes_returned = n }))
  unfolding oid_request
  request_lem true request size v =
      device_io_control_lem env api true ndis_set_request request size request size v
  request_lem false request size v =
      device_io_control_lem env api true ndis_get_request request size request size v

  -- What the outside has to keep to: no query is pending, and the data of a set hold their length.
  module _ (set : Bool) (quiet : set ≡ false → (s : S) → env.io_pending s ≡ false)
      (small : d.data_length + 16 < 2 ^ 32) (fits : set ≡ true → d.data_length ≤ length d.contents)
      (e : from_32_to_64 w.table d.adapter ≡ some handle) where
    block_Left :
        (v v1 : World S)
        → v1.table ≡ w.table
        → v1.blocks ≡ v.blocks + 1
        → v1.open_handles ≡ v.open_handles
        → 1 ≤ v.open_handles
        → Left v (oid_wow64_block env api set d v1)
    unfolding oid_wow64_block oid_in_block
    block_Left v v1 same one opened open1 =
        let whole : oid_in_block d.data_length ≡ some tt = ground arith in
        let (bytes, read) = bytes_lem set v1 fits in
        let (ok, out, s, n, ran) =
          request_lem set (record d { adapter = handle; contents = bytes })
            (oid_size_wow64 d.data_length) v1 in
        let v2 : World S = record v1 { sys = s; bytes_returned = n } in
        let (ok', v3, rest, blocks, handles) =
          reply_Left set ok out (env.io_pending s) v v2 (λ z. quiet z s) one opened open1 in
        (
          ok',
          v3,
          bind_run _ _ (translate_run _ v1 (ap (λ t. from_32_to_64 t d.adapter) same ∙ e)) (
              bind_run _ _ (lift_run v1 whole) (
                bind_run _ _ read
                  (bind_run _ _ ran (bind_run _ _ (ask_run env.io_pending v2) rest)))),
          blocks,
          handles,
        )

    wow64_Left :
        (v : World S) → v.table ≡ w.table → 1 ≤ v.open_handles → Left v (oid_wow64 env api set d v)
    unfolding oid_wow64
    wow64_Left v same open1 = go _ _ refl
      where
        go :
            (ok : Bool) (s : S)
            → env.malloc v.sys (oid_size_wow64 d.data_length) ≡ (ok, s)
            → Left v (oid_wow64 env api set d v)
        go true s p =
            let (ok, v', rest, blocks, handles) =
              block_Left v (record v { sys = s; blocks = v.blocks + 1 }) same refl refl open1 in
            (ok, v', bind_run _ _ (malloc_run env _ v p) rest, blocks, handles)
        go false s p = (
          true,
          record v { sys = s },
          bind_run _ _ (malloc_run env _ v p) (pure_run _ _),
          refl,
          omega arith,
        )

    opened_Untouched :
        (s s' : S) (reset : Bool)
        → thunks api ≡ true
        → env.create_event w.sys ≡ (true, s)
        → env.reset_event s ≡ (reset, s')
        → Untouched (ndisrd_request env api d set w)
    unfolding ndisrd_request oid_end
    opened_Untouched s s' true th created p =
        let v : World S = record w { sys = s'; open_handles = w.open_handles + 1 } in
        let (ok, v', ran, blocks, handles) = wow64_Left v refl (omega arith) in
        let (r, v'', ended, b, h) = close ok v' handles in
        (
          r,
          v'',
          bind_run _ _ (create_event_run env w created)
              (bind_run _ _ (call_run env.reset_event _ p) (rw th (bind_run _ _ ran ended))),
          b ∙ blocks,
          h,
        )
      where
        close :
            (ok : Bool) (v' : World S)
            → v'.open_handles + (if ok then 0 else 1) ≡ w.open_handles + 1
            → (r : Bool) × (v'' : World S) × (oid_end env api d.data_length (ok, d) v'
                ≡ some ((r, d), v''))
              × (v''.blocks ≡ v'.blocks)
              × (v''.open_handles ≡ w.open_handles)
        close true v' h = (_, _, end_lem v', refl, omega arith)
        close false v' h = (_, _, pure_run _ v', refl, omega arith)
    opened_Untouched s s' false th created p = (
      false,
      _,
      bind_run _ _ (create_event_run env w created) (
          bind_run _ _ (call_run env.reset_event _ p)
            (bind_run _ _ (close_handle_run _) (pure_run _ _))),
      refl,
      omega arith,
    )

    request_Untouched : thunks api ≡ true → Untouched (ndisrd_request env api d set w)
    unfolding ndisrd_request
    request_Untouched th = go _ _ refl
      where
        go :
            (ok : Bool) (s : S)
            → env.create_event w.sys ≡ (ok, s)
            → Untouched (ndisrd_request env api d set w)
        go true s p = opened_Untouched s _ _ th p refl
        go false s p =
            (false, _, bind_run _ _ (create_event_run env w p) (pure_run _ _), refl, refl)

  -- On the WOW64 path, for an adapter number that the table translates and data that hold their
  -- length, which leaves room for the header in 32 bits, NdisrdRequest with Set returns whatever the
  -- outside answers, and holds no block and no handle afterwards that it did not hold before.
  pub ndisrd_request-Balanced :
      thunks api ≡ true
      → d.data_length + 16 < 2 ^ 32
      → d.data_length ≤ length d.contents
      → from_32_to_64 w.table d.adapter ≡ some handle
      → Balanced (ndisrd_request env api d true w)
  ndisrd_request-Balanced th small fits e =
      let (ok, w', ran, blocks, handles) =
        request_Untouched true (λ z. absurd (cc)) small (λ _. fits) e th in
      ((ok, d), w', ran, blocks, handles)

  -- On the WOW64 path, for an adapter number that the table translates, a length that leaves room for
  -- the header in 32 bits and a driver whose requests are never pending: whatever the outside answers,
  -- a query of NdisrdRequest, one that returns TRUE too, leaves the caller's data and length as they
  -- were, and holds no block and no handle afterwards that it did not hold before.
  pub ndisrd_request-Untouched :
      thunks api ≡ true
      → d.data_length + 16 < 2 ^ 32
      → ((s : S) → env.io_pending s ≡ false)
      → from_32_to_64 w.table d.adapter ≡ some handle
      → Untouched (ndisrd_request env api d false w)
  ndisrd_request-Untouched th small never e =
      request_Untouched false (λ _. never) small (λ z. absurd (cc)) e th
