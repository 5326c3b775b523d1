-- ===== src/Checksum.antt =====
-- The checksum routines of ndisapi/ndisapi.cpp (RecalculateIPChecksum, RecalculateICMPChecksum,
-- RecalculateTCPChecksum, RecalculateUDPChecksum), with the header layouts of ndisapi/iphlp.h.
-- A packet is the byte array m_IBuffer; `none` is an access outside it, which C leaves undefined.
-- The machine is little-endian, so `htons` before a store makes the stored bytes big-endian.
pub mod Words
pub mod Carries
pub mod Header
pub mod Segment
pub mod Transport
mod Tests
use ndisapi.Base.{
  ℕ, zero, suc, ◌+◌, ◌-◌, ◌*◌, ◌/◌, ◌%◌, ◌^◌, List, Option, none, some, length, get_elem?, set, ltb,
  ◌==◌, if◌then◌else◌,
}

infixl 5 ◌>>=◌
abbrev pub ◌>>=◌ {ℓ κ} : {A : Type ℓ} {B : Type κ} → Option A → (A → Option B) → Option B
none >>= f = none
some a >>= f = f a

abbrev pub Bytes : Type 0
Bytes = List ℕ

-- sizeof(ether_header), and the offset of the IP header in the frame
abbrev pub ip_header : ℕ
ip_header = 14

abbrev pub ip_proto_icmp : ℕ
ip_proto_icmp = 1

abbrev pub ip_proto_tcp : ℕ
ip_proto_tcp = 6

abbrev pub ip_proto_udp : ℕ
ip_proto_udp = 17

-- buff[i]
unfoldable pub load : Bytes → ℕ → Option ℕ
load b i = get_elem? b i

-- buff[i] = v
pub store : Bytes → ℕ → ℕ → Option Bytes
store b i v = if ltb i (length b) then some (set b i v) else none

-- ((buff[i] << 8) & 0xFF00) + (buff[i + 1] & 0xFF): the ntohs of the 16-bit field at `i` too
pub word16 : Bytes → ℕ → Option ℕ
unfolding load
word16 b i = do hi ← load b i; lo ← load b (i + 1); some (hi % 256 * 256 + lo % 256)

-- a 16-bit field receives htons(v)
pub store16 : Bytes → ℕ → ℕ → Option Bytes
unfolding store
store16 b i v = do b' ← store b i (v / 256 % 256); store b' (i + 1) (v % 256)

-- ip_hl, the low nibble of the first byte of the header
pub ip_hl : Bytes → Option ℕ
unfolding load
ip_hl b = do first ← load b ip_header; some (first % 16)

-- for (i = 0; i < 2 * n; i += 2) sum += word16, in an unsigned int, from byte `i` on
pub sum_words : Bytes → ℕ → ℕ → ℕ → Option ℕ
unfolding word16
sum_words b i zero sum = some sum
sum_words b i (suc n) sum = do w ← word16 b i; sum_words b (i + 2) n ((sum + w) % 2 ^ 32)

-- while (sum >> 16) sum = (sum & 0xFFFF) + (sum >> 16); `none` means that the fuel ran out
pub fold_carries : ℕ → ℕ → Option ℕ
fold_carries zero sum = none
fold_carries (suc fuel) sum =
    let next = fold_carries fuel (sum % 2 ^ 16 + sum / 2 ^ 16) in
    if sum / 2 ^ 16 == 0 then some sum else next

-- static_cast<unsigned short>(~sum)
pub complement : ℕ → ℕ
complement sum = (2 ^ 32 - 1 - sum) % 2 ^ 16

-- The end that the four routines share: fold, complement, and store at byte `at`.
pub finish : Bytes → ℕ → ℕ → Option Bytes
unfolding fold_carries complement store16
finish b at sum = do folded ← fold_carries 3 sum; store16 b at (complement folded)

pub recalculate_ip_checksum : Bytes → Option Bytes
unfolding ip_hl sum_words finish
recalculate_ip_checksum b = do
  b' ← store16 b (ip_header + 10) 0
  hl ← ip_hl b'
  sum ← sum_words b' ip_header (hl * 4 / 2) 0
  finish b' (ip_header + 10) sum

-- ntohs(ip_len) - ip_hl * 4, in a DWORD
pub payload_length : Bytes → ℕ → Option ℕ
unfolding word16
payload_length b hl = do
  ip_len ← word16 b (ip_header + 2)
  some ((ip_len + 2 ^ 32 - hl * 4) % 2 ^ 32)

-- An odd payload is followed by a zero byte; the number is `padd`.
pub pad : Bytes → ℕ → ℕ → Option (Bytes × ℕ)
unfolding store
pad b hl len =
    if len / 2 * 2 == len
    then some (b, 0)
    else (do b' ← store b ((len + hl * 4 + ip_header) % 2 ^ 32) 0; some (b', 1))

-- The words of the source and destination addresses, and the protocol and length.
pub add_pseudo_header : Bytes → ℕ → ℕ → ℕ → Option ℕ
unfolding word16
add_pseudo_header b proto len sum = do
  src1 ← word16 b (ip_header + 12)
  src2 ← word16 b (ip_header + 14)
  dst1 ← word16 b (ip_header + 16)
  dst2 ← word16 b (ip_header + 18)
  some (((sum + src1 + src2) % 2 ^ 32 + dst1 + dst2 + proto + len % 2 ^ 16) % 2 ^ 32)

-- What the ICMP routine does once the protocol is known; the field stands at byte 2 of its header.
pub recalculate_icmp_message : Bytes → Option Bytes
unfolding ip_hl payload_length pad store16 sum_words finish
recalculate_icmp_message b = do
  hl ← ip_hl b
  len ← payload_length b hl
  (b1, padd) ← pad b hl len
  b2 ← store16 b1 (ip_header + hl * 4 + 2) 0
  sum ← sum_words b2 (ip_header + hl * 4) ((len + padd) % 2 ^ 32 / 2) 0
  finish b2 (ip_header + hl * 4 + 2) sum

pub recalculate_icmp_checksum : Bytes → Option Bytes
unfolding recalculate_icmp_message
recalculate_icmp_checksum b = do
  p ← load b (ip_header + 9)
  if p == ip_proto_icmp then recalculate_icmp_message b else some b

-- The TCP and UDP routines differ in the protocol and in the place of the field.
pub recalculate_with_pseudo : ℕ → ℕ → Bytes → Option Bytes
unfolding ip_hl payload_length pad store16 sum_words add_pseudo_header finish
recalculate_with_pseudo proto field b = do
  hl ← ip_hl b
  len ← payload_length b hl
  (b1, padd) ← pad b hl len
  b2 ← store16 b1 (ip_header + hl * 4 + field) 0
  sum ← sum_words b2 (ip_header + hl * 4) ((len + padd) % 2 ^ 32 / 2) 0
  total ← add_pseudo_header b2 proto len sum
  finish b2 (ip_header + hl * 4 + field) total

pub recalculate_tcp_checksum : Bytes → Option Bytes
unfolding recalculate_with_pseudo
recalculate_tcp_checksum b = do
  p ← load b (ip_header + 9)
  if p == ip_proto_tcp then recalculate_with_pseudo ip_proto_tcp 16 b else some b

pub recalculate_udp_checksum : Bytes → Option Bytes
unfolding recalculate_with_pseudo
recalculate_udp_checksum b = do
  p ← load b (ip_header + 9)
  if p == ip_proto_udp then recalculate_with_pseudo ip_proto_udp 6 b else some b
