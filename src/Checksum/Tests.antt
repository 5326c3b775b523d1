-- ===== src/Checksum/Tests.antt =====
-- The checksum theorems on packets written out.
use ndisapi.Base.{ℕ, ◌+◌, ◌≡◌, refl, some, [], ◌∷◌, ◌++◌, replicate, arith}
use ndisapi.Checksum.{Bytes, ip_header, recalculate_ip_checksum, recalculate_udp_checksum}
use ndisapi.Checksum.Words.{word, words, put}
use ndisapi.Checksum.Header.{HeaderVerifies, SameBut, recalculate_ip_checksum-HeaderVerifies}
use ndisapi.Checksum.Segment.{message_start, message_sum}
use ndisapi.Checksum.Transport.{recalculate_udp_checksum-zero}

-- An IPv4 header of 20 bytes behind an Ethernet header: total length, protocol, the addresses
-- 192.168.1.2 and 10.0.0.1.
abbrev headers : ℕ → ℕ → Bytes
headers total proto =
    replicate 14 0
    ++ (69 ∷ 0 ∷ 0 ∷ total ∷ 18 ∷ 52 ∷ 64 ∷ 0 ∷ 128 ∷ proto ∷ 171 ∷ 205 ∷ [])
    ++ (192 ∷ 168 ∷ 1 ∷ 2 ∷ 10 ∷ 0 ∷ 0 ∷ 1 ∷ [])

-- A TCP segment with one byte of data, so of odd length, and a byte behind it.
abbrev tcp_packet : Bytes
tcp_packet =
    headers 41 6
    ++ (4 ∷ 210 ∷ 0 ∷ 80 ∷ 0 ∷ 0 ∷ 0 ∷ 1 ∷ 0 ∷ 0 ∷ 0 ∷ 2 ∷ 80 ∷ 24 ∷ 32 ∷ 0 ∷ [])
    ++ (222 ∷ 173 ∷ 0 ∷ 0 ∷ 65 ∷ 99 ∷ [])

abbrev udp_packet : Bytes
udp_packet = headers 31 17 ++ (0 ∷ 53 ∷ 16 ∷ 0 ∷ 0 ∷ 11 ∷ 1 ∷ 2 ∷ 97 ∷ 98 ∷ 99 ∷ 255 ∷ [])

abbrev icmp_packet : Bytes
icmp_packet = headers 28 1 ++ (8 ∷ 0 ∷ 9 ∷ 9 ∷ 0 ∷ 1 ∷ 0 ∷ 7 ∷ 0 ∷ [])

-- A datagram whose words and pseudo header add up to 0xFFFF.
abbrev full_packet : Bytes
full_packet =
    replicate 14 0
    ++ (69 ∷ 0 ∷ 0 ∷ 30 ∷ 0 ∷ 0 ∷ 0 ∷ 0 ∷ 128 ∷ 17 ∷ 0 ∷ 0 ∷ [])
    ++ replicate 8 0
    ++ (255 ∷ 218 ∷ 0 ∷ 0 ∷ 0 ∷ 10 ∷ 1 ∷ 2 ∷ 0 ∷ 0 ∷ 0 ∷ [])

recalculate_ip_checksum-HeaderVerifies_example :
    (b' : Bytes) × (recalculate_ip_checksum tcp_packet ≡ some b')
    × HeaderVerifies b'
    × SameBut (ip_header + 10) tcp_packet b'
recalculate_ip_checksum-HeaderVerifies_example =
    recalculate_ip_checksum-HeaderVerifies tcp_packet (omega arith) (omega arith)

recalculate_udp_checksum-zero_example :
    (b' : Bytes) × (recalculate_udp_checksum full_packet ≡ some b')
    × (word b' (message_start full_packet + 6) ≡ 0)
unfolding message_sum words put
recalculate_udp_checksum-zero_example =
    recalculate_udp_checksum-zero full_packet
      (record { header = omega arith; has_field = omega arith; inside = omega arith }) refl refl
