-- ===== src/Api/Oid/Dword.antt =====
-- The DWORD of the hardware packet filter in the bytes of OID data.
use ndisapi.Base.{ℕ, ◌^◌, ◌<◌, ◌≡◌, arith, length}
use ndisapi.Api.Oid.{dword_bytes, bytes_dword, hw_filter_request}

-- GetHwPacketFilter reads from the data bytes the filter that SetHwPacketFilter writes to them, for
-- every DWORD, and the length that the request gives is that of the bytes.
pub bytes_dword-dword_bytes :
    (adapter filter : ℕ)
    → filter < 2 ^ 32
    → let request = hw_filter_request adapter (dword_bytes filter) in
      (bytes_dword request.contents ≡ filter) × (length request.contents ≡ request.data_length)
unfolding bytes_dword dword_bytes hw_filter_request
bytes_dword-dword_bytes adapter filter h = (omega arith, omega arith)
