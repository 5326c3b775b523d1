-- ===== src/Api/Packets/Thunks.antt =====
-- The WOW64 path of the one-packet methods, and the packet that it carries over.
use ndisapi.Base.{
  ℕ, ◌≡◌, refl, Bool, true, false, ◌≤◌, some, arith, ◌++◌, length, take, drop, length-take,
  length-append, length-drop, take-overlay, drop-overlay,
}
use ndisapi.Driver.{
  IntermediateBuffer, EthRequest, send_packet_to_mstcp, send_packet_to_adapter, read_packet,
}
use ndisapi.Driver.Sizes.{max_ether_frame, sizeof_eth_request_wow64}
use ndisapi.Handles.{from_32_to_64}
use ndisapi.Exec.{Env, World, pure, ask_run, pure_run, translate_run, bind_run, lift_run, ◌>>=◌}
use ndisapi.Api.{Api, thunks, device_io_control}
use ndisapi.Api.Packets.{copy_packet, wow64_request, send_to_mstcp, send_to_adapter, read_one}

-- Two buffers carry the same packet: all members but the union, and m_Length bytes.
pub record SamePacket (a b : IntermediateBuffer) : Type 0 where
  pub device_flags : a.device_flags ≡ b.device_flags
  pub packet_length : a.packet_length ≡ b.packet_length
  pub flags : a.flags ≡ b.flags
  pub vlan : a.vlan ≡ b.vlan
  pub filter_id : a.filter_id ≡ b.filter_id
  pub reserved : a.reserved ≡ b.reserved
  pub bytes : take b.packet_length a.ibuffer ≡ take b.packet_length b.ibuffer

-- m_IBuffer has its size, and the packet fits it.
pub record Fits (b : IntermediateBuffer) : Type 0 where
  pub array : length b.ibuffer ≡ max_ether_frame
  pub within : b.packet_length ≤ max_ether_frame

-- `new` is `old` with the packet of `src` copied in.
pub record Received (old src new : IntermediateBuffer) : Type 0 where
  pub same : SamePacket new src
  pub link : new.link ≡ old.link
  pub array : length new.ibuffer ≡ length old.ibuffer
  pub tail : drop src.packet_length new.ibuffer ≡ drop src.packet_length old.ibuffer

-- The caller's buffer after a read: the driver's packet where it succeeded, and else as before.
abbrev pub ReadBack : Bool → IntermediateBuffer → IntermediateBuffer → IntermediateBuffer → Type 0
ReadBack true old src new = Received old src new
ReadBack false old src new = new ≡ old

-- The copy of a packet that fits both arrays succeeds.
pub copy_packet-Received :
    (dst src : IntermediateBuffer)
    → src.packet_length ≤ length src.ibuffer
    → src.packet_length ≤ length dst.ibuffer
    → (b : IntermediateBuffer) × (copy_packet dst src ≡ some b) × Received dst src b
unfolding copy_packet
copy_packet-Received dst src hs hd =
    let n = src.packet_length in
    let body = take n src.ibuffer ++ drop n dst.ibuffer in
    (
      record {
        link = dst.link;
        device_flags = src.device_flags;
        packet_length = src.packet_length;
        flags = src.flags;
        vlan = src.vlan;
        filter_id = src.filter_id;
        reserved = src.reserved;
        ibuffer = body;
      },
      ground arith,
      record {
        same = record {
          device_flags = refl;
          packet_length = refl;
          flags = refl;
          vlan = refl;
          filter_id = refl;
          reserved = refl;
          bytes = take-overlay n src.ibuffer (drop n dst.ibuffer) hs;
        };
        link = refl;
        array = omega (
          arith,
          length-append (take n src.ibuffer) (drop n dst.ibuffer),
          length-take n src.ibuffer,
          length-drop n dst.ibuffer,
        );
        tail = drop-overlay n src.ibuffer (drop n dst.ibuffer) hs;
      },
    )

module _ {S : Type 0} (env : Env S) (api : Api) (req : EthRequest) (w : World S) (handle : ℕ) where
  -- The request that goes to the driver.
  wow64_request_lem :
      Fits req.buffer
      → length (env.stack_buffer w.sys).ibuffer ≡ max_ether_frame
      → from_32_to_64 w.table req.adapter ≡ some handle
      → (b : IntermediateBuffer) × (wow64_request env api req w
          ≡ some (record { adapter = handle; buffer = b }, w))
        × SamePacket b req.buffer
  unfolding wow64_request
  wow64_request_lem f stack e =
      let (b, c, r) =
        copy_packet-Received (env.stack_buffer w.sys) req.buffer (omega (arith, f.array, f.within))
          (omega (arith, f.within)) in
      (
        b,
        bind_run _ _ (ask_run _ w)
            (bind_run _ _ (lift_run w c) (bind_run _ _ (translate_run _ w e) (pure_run _ w))),
        r.same,
      )

  -- On the WOW64 path SendPacketToMstcp of a packet that fits its buffer, for an adapter number that
  -- the table translates, makes one request of the driver: with the 64-bit handle and a buffer
  -- that carries the same packet. Its result is the method's.
  send_to_mstcp-SamePacket :
      thunks api ≡ true
      → Fits req.buffer
      → length (env.stack_buffer w.sys).ibuffer ≡ max_ether_frame
      → from_32_to_64 w.table req.adapter ≡ some handle
      → (b : IntermediateBuffer) × SamePacket b req.buffer
        × (send_to_mstcp env api req w
            ≡ (device_io_control env api true send_packet_to_mstcp
                    (record { adapter = handle; buffer = b })
                    sizeof_eth_request_wow64
                    tt
                    0
                  >>= λ reply. pure reply.0)
                w)
  unfolding send_to_mstcp
  send_to_mstcp-SamePacket th f stack e =
      let (b, r, same) = wow64_request_lem f stack e in (b, same, rw th (bind_run _ _ r refl))

  -- On the WOW64 path SendPacketToAdapter of a packet that fits its buffer, for an adapter number that
  -- the table translates, makes one request of the driver: with the 64-bit handle and a buffer
  -- that carries the same packet. Its result is the method's.
  send_to_adapter-SamePacket :
      thunks api ≡ true
      → Fits req.buffer
      → length (env.stack_buffer w.sys).ibuffer ≡ max_ether_frame
      → from_32_to_64 w.table req.adapter ≡ some handle
      → (b : IntermediateBuffer) × SamePacket b req.buffer
        × (send_to_adapter env api req w
            ≡ (device_io_control env api true send_packet_to_adapter
                    (record { adapter = handle; buffer = b })
                    sizeof_eth_request_wow64
                    tt
                    0
                  >>= λ reply. pure reply.0)
                w)
  unfolding send_to_adapter
  send_to_adapter-SamePacket th f stack e =
      let (b, r, same) = wow64_request_lem f stack e in (b, same, rw th (bind_run _ _ r refl))

  -- On the WOW64 path SendPacketToMstcp and SendPacketToAdapter of a packet that fits its buffer, for
  -- an adapter number that the table translates, make one request of the driver each: with the 64-bit
  -- handle and a buffer that carries the same packet. Its result is the method's.
  pub sends-SamePacket :
      thunks api ≡ true
      → Fits req.buffer
      → length (env.stack_buffer w.sys).ibuffer ≡ max_ether_frame
      → from_32_to_64 w.table req.adapter ≡ some handle
      → ((b : IntermediateBuffer) × SamePacket b req.buffer
          × (send_to_mstcp env api req w
              ≡ (device_io_control env api true send_packet_to_mstcp
                      (record { adapter = handle; buffer = b })
                      sizeof_eth_request_wow64
                      tt
                      0
                    >>= λ reply. pure reply.0)
                  w))
        × ((b : IntermediateBuffer) × SamePacket b req.buffer
            × (send_to_adapter env api req w
                ≡ (device_io_control env api true send_packet_to_adapter
                        (record { adapter = handle; buffer = b })
                        sizeof_eth_request_wow64
                        tt
                        0
                      >>= λ reply. pure reply.0)
                    w))
  sends-SamePacket th f stack e =
      (send_to_mstcp-SamePacket th f stack e, send_to_adapter-SamePacket th f stack e)

  -- On the WOW64 path, for an adapter number that the table translates and a whole buffer, ReadPacket
  -- asks the driver with the 64-bit handle. If the driver succeeds with a packet that fits, the
  -- caller's buffer receives it and keeps the bytes behind it; if it fails, the caller's buffer is
  -- unchanged. The result is the driver's.
  pub read_one-Received :
      thunks api ≡ true
      → length req.buffer.ibuffer ≡ max_ether_frame
      → from_32_to_64 w.table req.adapter ≡ some handle
      → (ok : Bool) (out : EthRequest) (w' : World S) → (ok ≡ true → Fits out.buffer)
      → let request : EthRequest = record { adapter = handle; buffer = env.stack_buffer w.sys } in
        device_io_control env api true read_packet request sizeof_eth_request_wow64 request
            sizeof_eth_request_wow64 w
          ≡ some ((ok, out), w')
        → (req' : EthRequest) × (read_one env api req w ≡ some ((ok, req'), w'))
          × (req'.adapter ≡ req.adapter)
          × ReadBack ok req.buffer out.buffer req'.buffer
  unfolding read_one
  read_one-Received th size e true out w' fits asked =
      let f = fits refl in
      let (b, c, r) =
        copy_packet-Received req.buffer out.buffer (omega (arith, f.array, f.within))
          (omega (arith, f.within)) in
      (
        record req { buffer = b },
        rw th (
            bind_run _ _ (ask_run _ w) (
              bind_run _ _ (translate_run _ w e)
                (bind_run _ _ asked (bind_run _ _ (lift_run w' c) (pure_run _ w'))))),
        refl,
        r,
      )
  read_one-Received th size e false out w' f asked = (
    req,
    rw th (
        bind_run _ _ (ask_run _ w)
          (bind_run _ _ (translate_run _ w e) (bind_run _ _ asked (pure_run _ w')))),
    refl,
    refl,
  )
