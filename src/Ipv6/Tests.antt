-- ===== src/Ipv6/Tests.antt =====
-- Packets of a few headers: a UDP datagram behind hop-by-hop options, and a later fragment.
use ndisapi.Base.{ℕ, arith, ◌∷◌, ◌++◌, replicate}
use ndisapi.Checksum.{Bytes}
use ndisapi.Ipv6.{find_transport_header}
use ndisapi.Ipv6.Chains.{Returns, find_transport_header-Returns}

-- The header of a packet whose first header has a protocol.
abbrev header_to : ℕ → Bytes
header_to p = 0x60 ∷ 0 ∷ 0 ∷ 0 ∷ 0 ∷ 16 ∷ p ∷ 64 ∷ replicate 32 1

-- Eight bytes of options, then UDP from 48 on.
abbrev with_options : Bytes
with_options = header_to 0 ++ (17 ∷ 0 ∷ replicate 14 2)

-- A fragment at the offset 1, of a UDP datagram.
abbrev second_fragment : Bytes
second_fragment = header_to 44 ++ (17 ∷ 0 ∷ 0 ∷ 9 ∷ replicate 12 3)

find_transport_header-Returns_example : Returns 56 (find_transport_header with_options 56)
find_transport_header-Returns_example =
    find_transport_header-Returns with_options 56 (omega arith) (omega arith)
