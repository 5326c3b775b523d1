-- ===== src/Ipv6.antt =====
-- find_transport_header of examples/cpp/common/net/ipv6_helper.h, which follows the headers of an
-- IPv6 packet to its transport header. The packet is the byte array from the IPv6 header on, and a
-- pointer into it is an offset; `none` is a read outside the array, which C leaves undefined.
mod Chains
mod Headers
mod Tests
use ndisapi.Base.{
  ℕ, zero, suc, ◌+◌, ◌*◌, ◌/◌, ◌%◌, Bool, ◌||◌, Option, none, some, ltb, ◌==◌, if◌then◌else◌,
}
use ndisapi.Checksum.{Bytes, load, ◌>>=◌}

abbrev ipproto_hopopts : ℕ
ipproto_hopopts = 0

abbrev ipproto_routing : ℕ
ipproto_routing = 43

abbrev pub ipproto_fragment : ℕ
ipproto_fragment = 44

abbrev ipproto_dstopts : ℕ
ipproto_dstopts = 60

-- sizeof(ipv6hdr), sizeof(ipv6ext) and sizeof(ipv6ext_frag)
abbrev ipv6hdr_size : ℕ
ipv6hdr_size = 40

abbrev ipv6ext_size : ℕ
ipv6ext_size = 4

abbrev ipv6ext_frag_size : ℕ
ipv6ext_frag_size = 8

-- The pair that the function returns; no header is nullptr.
pub record TransportHeader : Type 0 where
  pub header : Option ℕ
  pub next_proto : ℕ

-- The headers that the loop skips.
pub is_skipped : ℕ → Bool
is_skipped p = (p == ipproto_hopopts) || ((p == ipproto_routing) || (p == ipproto_dstopts))

-- A fragmentation header: `frag->ip6_offlg & 0xFC` are the upper six bits of the first byte of the
-- field, on a little-endian machine.
pub fragment : Bytes → ℕ → Option TransportHeader
unfolding load
fragment b next = do
  proto ← load b next
  offlg ← load b (next + 2)
  some (
      if offlg % 256 / 4 == 0
      then record { header = some (next + ipv6ext_frag_size); next_proto = proto % 256 }
      else record { header = none; next_proto = proto % 256 })

-- The loop, for the protocol and the offset of the current header; `none` with no fuel left, too.
pub walk : ℕ → Bytes → ℕ → ℕ → ℕ → Option TransportHeader
unfolding load fragment is_skipped
walk zero b size proto next = none
walk (suc fuel) b size proto next =
    if ltb size (next + ipv6ext_size)
    then some (record { header = none; next_proto = proto })
    else (if proto == ipproto_fragment
        then fragment b next
        else (if is_skipped proto
            then (do
              proto' ← load b next
              len ← load b (next + 1)
              walk fuel b size (proto' % 256) (next + 8 + len % 256 * 8))
            else some (record { header = some next; next_proto = proto })))

-- Each round goes on by eight bytes or more, so the size of the packet is fuel enough.
pub find_transport_header : Bytes → ℕ → Option TransportHeader
unfolding load walk
find_transport_header b packet_size = do
  version ← load b 0
  if version / 16 % 16 == 6
      then (do proto ← load b 6; walk (packet_size + 1) b packet_size (proto % 256) ipv6hdr_size)
      else some (record { header = none; next_proto = 0 })
