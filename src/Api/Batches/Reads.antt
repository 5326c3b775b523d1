-- ===== src/Api/Batches/Reads.antt =====
-- ReadPackets on the WOW64 path: the packets that arrive, and the two blocks of malloc.
use ndisapi.Base.{
  ℕ, zero, suc, ◌+◌, ◌-◌, ◌*◌, ◌^◌, ◌<◌, ◌≡◌, ◌∙◌, refl, sym, ap, Bool, true, false, none, some,
  Option, List, [], ◌∷◌, arith, length, replicate, if◌then◌else◌,
}
use ndisapi.Driver.{EthMRequest, IntermediateBuffer, read_packets}
use ndisapi.Driver.Sizes.{max_ether_frame, request_size_wow64, sizeof_intermediate_buffer_wow64}
use ndisapi.Handles.{from_32_to_64}
use ndisapi.Exec.{Env, World, bind_run, pure_run, malloc_run, free_run, translate_run, lift_run}
use ndisapi.Api.{Api, thunks, device_io_control}
use ndisapi.Api.Packets.{copy_packet}
use ndisapi.Api.Packets.Thunks.{Received, copy_packet-Received}
use ndisapi.Api.Batches.{
  zero_buffer, copy_in, buffers_size, free_if, batch_back, read_batch_wow64, read_batch_blocks,
  read_batch,
}
use ndisapi.Api.Batches.Copies.{AllFit, in_block_lem}

-- The first `n` packets of the caller are there, with whole buffers.
abbrev pub Room : ℕ → List IntermediateBuffer → Type 0
Room zero ps = Unit
Room (suc n) [] = ⊥
Room (suc n) (p ∷ ps) = (length p.ibuffer ≡ max_ether_frame) × Room n ps

-- The first `n` packets are the driver's, in order, in the caller's buffers; the others are as before.
abbrev pub AllArrived :
    ℕ → List IntermediateBuffer → List IntermediateBuffer → List IntermediateBuffer → Type 0
AllArrived zero old src new = new ≡ old
AllArrived (suc n) (d ∷ old) (s ∷ src) (b ∷ new) = Received d s b × AllArrived n old src new
AllArrived (suc n) _ _ _ = ⊥

copy_in-step :
    (n : ℕ) (d s b : IntermediateBuffer) (dst src bs : List IntermediateBuffer)
    → copy_packet d s ≡ some b
    → copy_in n dst src ≡ some bs
    → copy_in (suc n) (d ∷ dst) (s ∷ src) ≡ some (b ∷ bs)
unfolding copy_in
copy_in-step n d s b dst src bs one rest =
    ap
      (λ o. elim o [
        | none ↦ none
        | some b' ↦ elim (copy_in n dst src) [ none ↦ none | some bs' ↦ some (b' ∷ bs') ]
      ])
      one
    ∙ ap (λ o. elim o [ none ↦ none | some bs' ↦ some (b ∷ bs') ]) rest

-- The loop of ReadPackets copies the first `n` packets of the driver, which fit, into the caller's
-- whole buffers, and leaves the caller's other packets.
pub copy_in-AllArrived :
    (n : ℕ) (dst src : List IntermediateBuffer)
    → Room n dst
    → AllFit n src
    → (bs : List IntermediateBuffer) × (copy_in n dst src ≡ some bs) × AllArrived n dst src bs
unfolding copy_in
copy_in-AllArrived zero dst src room fits = (dst, refl, refl)
copy_in-AllArrived (suc n) [] src room fits = absurd room
copy_in-AllArrived (suc n) (d ∷ dst) [] room fits = absurd fits
copy_in-AllArrived (suc n) (d ∷ dst) (s ∷ src) (size, room) (f, fits) =
    let (bs, rest, arrived) = copy_in-AllArrived n dst src room fits in
    let (b, one, r) =
      copy_packet-Received d s (omega (arith, f.array, f.within)) (omega (arith, f.within)) in
    (b ∷ bs, copy_in-step n d s b dst src bs one rest, (r, arrived))

module _ {S : Type 0} (env : Env S) (api : Api) (req : EthMRequest) (w : World S) (handle : ℕ) where
  -- What the driver gets: as many cleared buffers as the caller has packets.
  pub batch : EthMRequest
  batch = record {
    adapter = handle;
    packets_number = req.packets_number;
    packets_success = 0;
    packets = replicate req.packets_number zero_buffer;
  }

  -- The driver's answer, once both blocks are allocated.
  abbrev pub before : S
  before =
      (env.malloc (env.malloc w.sys (request_size_wow64 req.packets_number)).1
        (buffers_size req.packets_number)).1

  abbrev pub answer : EthMRequest
  answer =
      let size = request_size_wow64 req.packets_number in
      (env.ioctl before true read_packets batch size batch size).out

  -- The driver counts packets that fit their buffers, and no more than the caller has room for.
  abbrev pub AnswerFits : Type 0
  AnswerFits =
      Room answer.packets_success req.packets × AllFit answer.packets_success answer.packets

  -- What the caller has afterwards.
  abbrev pub Filled : Bool → EthMRequest → Type 0
  Filled true req' =
      (req'.packets_success ≡ answer.packets_success)
      × AllArrived answer.packets_success req.packets answer.packets req'.packets
  Filled false req' = req' ≡ req

  -- A run that returns and leaves as many blocks as there were in `w`.
  abbrev pub ReadBatch : Option ((Bool × EthMRequest) × World S) → Type 0
  ReadBatch o =
      (ok : Bool) × (req' : EthMRequest) × (w' : World S) × (o ≡ some ((ok, req'), w'))
      × (w'.blocks ≡ w.blocks)
      × Filled ok req'

  refused_lem : (v : World S) → batch_back env api req (false, batch) v ≡ some ((false, req), v)
  unfolding batch_back
  refused_lem v = pure_run _ v

  back_lem :
      (ok : Bool) (v : World S)
      → AnswerFits
      → (req' : EthMRequest) × (batch_back env api req (ok, answer) v ≡ some ((ok, req'), v))
        × Filled ok req'
  unfolding batch_back
  back_lem true v (room, fits) =
      let (bs, copied, arrived) =
        copy_in-AllArrived answer.packets_success req.packets answer.packets room fits in
      (
        record req { packets_success = answer.packets_success; packets = bs },
        bind_run _ _ (lift_run v copied) (pure_run _ v),
        (refl, arrived),
      )
  back_lem false v fits = (req, pure_run _ v, refl)

  -- The request and what is done with its reply, from a world with the outside of `before`.
  Replied : World S → Type 0
  Replied v =
      let size = request_size_wow64 req.packets_number in
      (ok : Bool) × (out : EthMRequest) × (req' : EthMRequest) × (v' : World S) × (device_io_control
          env api true read_packets batch size batch size v
        ≡ some ((ok, out), v'))
      × (batch_back env api req (ok, out) v' ≡ some ((ok, req'), v'))
      × (v'.blocks ≡ v.blocks)
      × Filled ok req'

  replied_lem : (v : World S) → AnswerFits → Replied (record v { sys = before })
  unfolding device_io_control Replied
  replied_lem v fits =
      let size = request_size_wow64 req.packets_number in
      let r = env.ioctl before true read_packets batch size batch size in
      let (req', back, filled) =
        back_lem r.ok (record v { sys = r.next; bytes_returned = r.returned }) fits in
      go api.file_open req' back filled
    where
      go :
          (b : Bool) (req' : EthMRequest)
          → let size = request_size_wow64 req.packets_number in
            let r = env.ioctl before true read_packets batch size batch size in
            let v1 : World S = record v { sys = r.next; bytes_returned = r.returned } in
            let made : Option ((Bool × EthMRequest) × World S) = some ((r.ok, r.out), v1) in
            let skipped : Option ((Bool × EthMRequest) × World S) =
              some ((false, batch), record v { sys = before }) in
            batch_back env api req (r.ok, answer) v1 ≡ some ((r.ok, req'), v1)
            → Filled r.ok req'
            → (ok : Bool) × (out : EthMRequest) × (req' : EthMRequest) × (v' : World S) × ((if b
                  then made
                  else skipped)
                ≡ some ((ok, out), v'))
              × (batch_back env api req (ok, out) v' ≡ some ((ok, req'), v'))
              × (v'.blocks ≡ v.blocks)
              × Filled ok req'
      go true req' back filled = (_, _, req', _, refl, back, refl, filled)
      go false req' back filled = (_, _, req, _, refl, refused_lem _, refl, refl)

  wow64_lem :
      (v : World S)
      → v.table ≡ w.table
      → v.blocks ≡ w.blocks + 1 + 1
      → AnswerFits
      → req.packets_number * sizeof_intermediate_buffer_wow64 4 < 2 ^ 32
      → from_32_to_64 w.table req.adapter ≡ some handle
      → ReadBatch (read_batch_wow64 env api req (record v { sys = before }))
  unfolding read_batch_wow64 batch Replied
  wow64_lem v same two fits small e =
      let (ok, out, req', v', asked, back, kept, filled) = replied_lem v fits in
      (
        ok,
        req',
        record v' { blocks = v'.blocks - 1 - 1 },
        bind_run _ _ (translate_run _ _ (ap (λ t. from_32_to_64 t req.adapter) same ∙ e)) (
            bind_run _ _ (lift_run _ (in_block_lem req.packets_number small)) (
              bind_run _ _ asked (
                bind_run _ _ back
                  (bind_run _ _ (free_run v') (bind_run _ _ (free_run _) (pure_run _ _)))))),
        omega (arith, two, kept),
        filled,
      )

  -- On the WOW64 path, for an adapter number that the table translates, a number of packets whose
  -- copies are of less than 2^32 bytes, and a driver that counts packets that fit their buffers and
  -- no more than the caller has room for, ReadPackets returns on every branch and holds no block
  -- afterwards that it did not hold before. Where it succeeds the packets counted are the driver's,
  -- in order, and the caller's other packets are as before; where it fails the request is.
  pub read_batch-Filled :
      thunks api ≡ true
      → AnswerFits
      → req.packets_number * sizeof_intermediate_buffer_wow64 4 < 2 ^ 32
      → from_32_to_64 w.table req.adapter ≡ some handle
      → ReadBatch (read_batch env api req w)
  unfolding read_batch read_batch_blocks free_if
  read_batch-Filled th fits small e = rw th (first _ _ refl)
    where
      second :
          (s1 : S) (b : Bool) (s2 : S)
          → env.malloc w.sys (request_size_wow64 req.packets_number) ≡ (true, s1)
          → env.malloc s1 (buffers_size req.packets_number) ≡ (b, s2)
          → s2 ≡ before
          → ReadBatch (read_batch_blocks env api req w)
      second s1 true s2 p q here =
          let v : World S = record w { blocks = w.blocks + 1 + 1 } in
          let (ok, req', w', ran, kept, filled) = wow64_lem v refl refl fits small e in
          (
            ok,
            req',
            w',
            bind_run _ _ (malloc_run env _ w p) (
                bind_run _ _ (malloc_run env _ _ q)
                  (ap (λ s. read_batch_wow64 env api req (record v { sys = s })) here ∙ ran)),
            kept,
            filled,
          )
      second s1 false s2 p q here = (
        false,
        req,
        record w { sys = s2; blocks = w.blocks + 1 - 1 },
        bind_run _ _ (malloc_run env _ w p)
            (bind_run _ _ (malloc_run env _ _ q) (bind_run _ _ (free_run _) (pure_run _ _))),
        omega arith,
        refl,
      )

      first :
          (b : Bool) (s1 : S)
          → env.malloc w.sys (request_size_wow64 req.packets_number) ≡ (b, s1)
          → ReadBatch (read_batch_blocks env api req w)
      first true s1 p =
          second s1 _ _ p refl
            (ap (λ x. (env.malloc x.1 (buffers_size req.packets_number)).1) (sym p))
      first false s1 p = (
        false,
        req,
        record w { sys = s1 },
        bind_run _ _ (malloc_run env _ w p) (pure_run _ _),
        refl,
        refl,
      )
