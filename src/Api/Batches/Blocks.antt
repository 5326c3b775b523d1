-- ===== src/Api/Batches/Blocks.antt =====
-- The send methods for many packets on the WOW64 path: the request and the two blocks of malloc.
use ndisapi.Base.{
  ℕ, ◌+◌, ◌-◌, ◌*◌, ◌^◌, ◌<◌, ◌≡◌, ◌∙◌, refl, ap, Bool, true, false, some, Option, List, arith,
}
use ndisapi.Driver.{EthMRequest, IntermediateBuffer, send_packets_to_mstcp, send_packets_to_adapter}
use ndisapi.Driver.Sizes.{request_size_wow64, sizeof_intermediate_buffer_wow64}
use ndisapi.Handles.{from_32_to_64}
use ndisapi.Exec.{
  Env, World, Exec, bind_run, pure_run, malloc_run, free_run, translate_run, lift_run,
}
use ndisapi.Api.{Api, thunks, device_io_control_lem}
use ndisapi.Api.Batches.{
  buffers_size, free_if, batch_request, send_blocks, send_batch_wow64, send_batch_to_mstcp,
  send_batch_to_adapter,
}
use ndisapi.Api.Batches.Copies.{AllFit, Carries, copy_out-Carries, in_block_lem}

module _ {S : Type 0} (env : Env S) (api : Api) (req : EthMRequest) (w : World S) (handle : ℕ) where
  batch_request_lem :
      (w1 : World S)
      → w1.table ≡ w.table
      → AllFit req.packets_number req.packets
      → req.packets_number * sizeof_intermediate_buffer_wow64 4 < 2 ^ 32
      → from_32_to_64 w.table req.adapter ≡ some handle
      → (bs : List IntermediateBuffer) × Carries req.packets_number req.packets bs
        × (batch_request env api req w1
            ≡ some (
              record {
                adapter = handle;
                packets_number = req.packets_number;
                packets_success = 0;
                packets = bs;
              },
              w1,
            ))
  unfolding batch_request
  batch_request_lem w1 same fits small e =
      let (bs, out, carries) = copy_out-Carries req.packets_number req.packets fits in
      (
        bs,
        carries,
        bind_run _ _ (translate_run _ w1 (ap (λ t. from_32_to_64 t req.adapter) same ∙ e)) (
            bind_run _ _ (lift_run w1 (in_block_lem req.packets_number small))
              (bind_run _ _ (lift_run w1 out) (pure_run _ w1))),
      )

  -- A run that returns and leaves as many blocks as there were in `w`.
  abbrev pub Balanced : Option (Bool × World S) → Type 0
  Balanced o = (ok : Bool) × (w' : World S) × (o ≡ some (ok, w')) × (w'.blocks ≡ w.blocks)

  -- A request of the driver that returns and leaves the blocks.
  abbrev pub Drives : (EthMRequest → Exec S Bool) → Type 0
  Drives driver =
      (r : EthMRequest) (v : World S)
      → (ok : Bool) × (v' : World S) × (driver r v ≡ some (ok, v')) × (v'.blocks ≡ v.blocks)

  send_blocks_lem :
      (driver : EthMRequest → Exec S Bool)
      → Drives driver
      → (w2 : World S) → w2.table ≡ w.table
      → w2.blocks ≡ w.blocks + 1 + 1
      → AllFit req.packets_number req.packets
      → req.packets_number * sizeof_intermediate_buffer_wow64 4 < 2 ^ 32
      → from_32_to_64 w.table req.adapter ≡ some handle
      → Balanced (send_blocks env api req driver w2)
  unfolding send_blocks
  send_blocks_lem driver drives w2 same two fits small e =
      let (bs, carries, built) = batch_request_lem w2 same fits small e in
      let (ok, w3, ran, kept) = drives _ w2 in
      (
        ok,
        record w3 { blocks = w3.blocks - 1 - 1 },
        bind_run _ _ built (
            bind_run _ _ ran
              (bind_run _ _ (free_run w3) (bind_run _ _ (free_run _) (pure_run _ _)))),
        omega (arith, two, kept),
      )

  send_batch_lem :
      (driver : EthMRequest → Exec S Bool)
      → Drives driver
      → AllFit req.packets_number req.packets
      → req.packets_number * sizeof_intermediate_buffer_wow64 4 < 2 ^ 32
      → from_32_to_64 w.table req.adapter ≡ some handle
      → Balanced (send_batch_wow64 env api req driver w)
  unfolding send_batch_wow64 free_if
  send_batch_lem driver drives fits small e =
      let first = env.malloc w.sys (request_size_wow64 req.packets_number) in
      let second = env.malloc first.1 (buffers_size req.packets_number) in
      go first.0 first.1 refl second.0 second.1 refl
    where
      go :
          (a : Bool) (s1 : S)
          → env.malloc w.sys (request_size_wow64 req.packets_number) ≡ (a, s1)
          → (b : Bool) (s2 : S) → env.malloc s1 (buffers_size req.packets_number) ≡ (b, s2)
          → Balanced (send_batch_wow64 env api req driver w)
      go true s1 p true s2 q =
          let (ok, w', ran, kept) =
            send_blocks_lem driver drives (record w { sys = s2; blocks = w.blocks + 1 + 1 }) refl
              refl fits small e in
          (
            ok,
            w',
            bind_run _ _ (malloc_run env _ w p) (bind_run _ _ (malloc_run env _ _ q) ran),
            kept,
          )
      go true s1 p false s2 q = (
        false,
        record w { sys = s2; blocks = w.blocks + 1 - 1 },
        bind_run _ _ (malloc_run env _ w p) (
            bind_run _ _ (malloc_run env _ _ q)
              (bind_run _ _ (pure_run _ _) (bind_run _ _ (free_run _) (pure_run _ _)))),
        omega arith,
      )
      go false s1 p true s2 q = (
        false,
        record w { sys = s2; blocks = w.blocks + 1 - 1 },
        bind_run _ _ (malloc_run env _ w p) (
            bind_run _ _ (malloc_run env _ _ q)
              (bind_run _ _ (free_run _) (bind_run _ _ (pure_run _ _) (pure_run _ _)))),
        omega arith,
      )
      go false s1 p false s2 q = (
        false,
        record w { sys = s2 },
        bind_run _ _ (malloc_run env _ w p) (
            bind_run _ _ (malloc_run env _ _ q)
              (bind_run _ _ (pure_run _ _) (bind_run _ _ (pure_run _ _) (pure_run _ _)))),
        refl,
      )

  -- On the WOW64 path, for an adapter number that the table translates and packets that fit their
  -- buffers and whose copies are of less than 2^32 bytes, SendPacketsToMstcp returns, whether the
  -- allocations and the request succeed or not, and holds no block of memory afterwards that it did
  -- not hold before.
  send_batch_to_mstcp-Balanced :
      thunks api ≡ true
      → AllFit req.packets_number req.packets
      → req.packets_number * sizeof_intermediate_buffer_wow64 4 < 2 ^ 32
      → from_32_to_64 w.table req.adapter ≡ some handle
      → Balanced (send_batch_to_mstcp env api req w)
  unfolding send_batch_to_mstcp
  send_batch_to_mstcp-Balanced th fits small e = rw th (
      send_batch_lem _
        (λ r v.
          let (ok, out, s, n, ran) =
            device_io_control_lem env api true send_packets_to_mstcp r _ tt 0 v in
          (ok, record v { sys = s; bytes_returned = n }, bind_run _ _ ran (pure_run _ _), refl))
        fits small e)

  -- On the WOW64 path, for an adapter number that the table translates and packets that fit their
  -- buffers and whose copies are of less than 2^32 bytes, SendPacketsToAdapter returns, whether the
  -- allocations and the request succeed or not, and holds no block of memory afterwards that it did
  -- not hold before.
  send_batch_to_adapter-Balanced :
      thunks api ≡ true
      → AllFit req.packets_number req.packets
      → req.packets_number * sizeof_intermediate_buffer_wow64 4 < 2 ^ 32
      → from_32_to_64 w.table req.adapter ≡ some handle
      → Balanced (send_batch_to_adapter env api req w)
  unfolding send_batch_to_adapter
  send_batch_to_adapter-Balanced th fits small e = rw th (
      send_batch_lem _
        (λ r v.
          let (ok, out, s, n, ran) =
            device_io_control_lem env api true send_packets_to_adapter r _ tt 0 v in
          (ok, record v { sys = s; bytes_returned = n }, bind_run _ _ ran (pure_run _ _), refl))
        fits small e)

  -- On the WOW64 path, for an adapter number that the table translates and packets that fit their
  -- buffers and whose copies are of less than 2^32 bytes, SendPacketsToMstcp and SendPacketsToAdapter
  -- return, whether the allocations and the request succeed or not, and hold no block of memory
  -- afterwards that they did not hold before.
  pub send_batches-Balanced :
      thunks api ≡ true
      → AllFit req.packets_number req.packets
      → req.packets_number * sizeof_intermediate_buffer_wow64 4 < 2 ^ 32
      → from_32_to_64 w.table req.adapter ≡ some handle
      → Balanced (send_batch_to_mstcp env api req w)
        × Balanced (send_batch_to_adapter env api req w)
  send_batches-Balanced th fits small e =
      (send_batch_to_mstcp-Balanced th fits small e, send_batch_to_adapter-Balanced th fits small e)
