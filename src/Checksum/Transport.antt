-- ===== src/Checksum/Transport.antt =====
-- What the TCP, UDP and ICMP routines promise of a complete packet of their protocol.
use ndisapi.Base.{ℕ, ◌+◌, ◌≡◌, ◌∙◌, ap, some, arith}
use ndisapi.Checksum.{Bytes, ip_header, complement, recalculate_udp_checksum}
use ndisapi.Checksum.Words.{byte, word, load_lem}
use ndisapi.Checksum.Carries.{residue}
use ndisapi.Checksum.Segment.{
  IsComplete, pseudo_header, message_start, message_sum, result, recalculate_with_pseudo_lem,
  word-result_field,
}

abbrev pub protocol : Bytes → ℕ
protocol b = byte b (ip_header + 9)

-- For a complete UDP packet whose message (its field cleared, an odd one padded) and pseudo header
-- add up to a positive multiple of 65535, RecalculateUDPChecksum stores the checksum 0.
pub recalculate_udp_checksum-zero :
    (b : Bytes)
    → IsComplete 6 b
    → protocol b ≡ 17
    → residue (message_sum 6 b + pseudo_header 17 b) ≡ 65535
    → (b' : Bytes) × (recalculate_udp_checksum b ≡ some b') × (word b' (message_start b + 6) ≡ 0)
unfolding recalculate_udp_checksum complement
recalculate_udp_checksum-zero b c e full = (
  result 6 (pseudo_header 17 b) b,
  rw (load_lem b 23 (omega arith), e) (recalculate_with_pseudo_lem 3 b c 17 (omega arith)),
  word-result_field 3 (pseudo_header 17 b) b c ∙ ap complement full,
)
