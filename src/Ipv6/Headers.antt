-- ===== src/Ipv6/Headers.antt =====
-- What find_transport_header returns at the end of a chain of extension headers.
use ndisapi.Base.{ℕ, ◌+◌, ◌*◌, ◌/◌, ◌%◌}
use ndisapi.Checksum.{Bytes}
use ndisapi.Checksum.Words.{byte}

-- The offset of a fragment, in units of eight bytes: the upper 13 bits of the field.
unfoldable pub fragment_offset : Bytes → ℕ → ℕ
fragment_offset b n = byte b (n + 2) % 256 * 32 + byte b (n + 3) % 256 / 8
