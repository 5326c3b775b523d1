-- ===== src/Redirect.antt =====
-- local_redirector of examples/cpp/common/ndisapi/local_redirect.h: TCP connections that are turned
-- to a proxy on the same machine. A packet is modelled by the header fields that the methods read
-- and write, in network byte order; with an IP header of at least five words they are fields of
-- their own, which nothing else of the packet overlaps.
mod Connections
mod Untouched
mod Replies
mod Tests
use ndisapi.Base.{
  ℕ, ◌/◌, ◌%◌, Bool, true, false, List, [], ◌∷◌, Option, none, some, ◌==◌, ◌&&◌, not, if◌then◌else◌,
}

abbrev eth_p_ip : ℕ
eth_p_ip = 0x800

abbrev ipproto_tcp : ℕ
ipproto_tcp = 6

-- The fields of ether_header, iphdr and tcphdr.
pub record Frame : Type 0 where
  pub h_dest : ℕ
  pub h_source : ℕ
  pub h_proto : ℕ
  pub ip_p : ℕ
  pub ip_src : ℕ
  pub ip_dst : ℕ
  pub th_sport : ℕ
  pub th_dport : ℕ
  pub th_flags : ℕ

pub record LocalRedirectKey : Type 0 where
  pub original_dest_ip : ℕ
  pub original_src_port : ℕ

pub same_key : LocalRedirectKey → LocalRedirectKey → Bool
same_key a b =
    (a.original_dest_ip == b.original_dest_ip) && (a.original_src_port == b.original_src_port)

-- An entry of redirected_connections_: the original destination port, under its key.
pub record Connection : Type 0 where
  pub key : LocalRedirectKey
  pub dest_port : ℕ

pub record LocalRedirector : Type 0 where
  pub redirected_connections : List Connection
  pub proxy_port : ℕ

-- unordered_map::find
pub find : LocalRedirectKey → List Connection → Option ℕ
unfolding same_key
find k [] = none
find k (c ∷ cs) = if same_key c.key k then some c.dest_port else find k cs

-- unordered_map::emplace: an entry that is there stays as it is.
pub emplace : LocalRedirectKey → ℕ → List Connection → Bool × List Connection
unfolding find
emplace k port cs = elim (find k cs) [
  | none ↦ (true, record { key = k; dest_port = port } ∷ cs)
  | some p ↦ (false, cs)
]

-- What a method returns, the object, and the packet that it was given.
pub record Outcome : Type 0 where
  pub redirected : Bool
  pub redirector : LocalRedirector
  pub frame : Frame

-- ntohs(h_proto) == ETH_P_IP and ip_p == IPPROTO_TCP
pub is_tcp : Frame → Bool
is_tcp p = (p.h_proto == eth_p_ip) && (p.ip_p == ipproto_tcp)

-- (th_flags & (TH_SYN | TH_ACK)) == TH_SYN: bit 1 is set and bit 4 is not
pub is_syn : Frame → Bool
is_syn p = (p.th_flags / 2 % 2 == 1) && (p.th_flags / 16 % 2 == 0)

-- The two swaps of process_client_to_server_packet.
pub swapped : Frame → Frame
swapped p = record p {
  h_dest = p.h_source;
  h_source = p.h_dest;
  ip_src = p.ip_dst;
  ip_dst = p.ip_src;
}

pub client_key : Frame → LocalRedirectKey
client_key p = record { original_dest_ip = p.ip_dst; original_src_port = p.th_sport }

pub server_key : Frame → LocalRedirectKey
server_key p = record { original_dest_ip = p.ip_dst; original_src_port = p.th_dport }

pub to_proxy : LocalRedirector → Frame → Frame
unfolding swapped
to_proxy r p = record (swapped p) { th_dport = r.proxy_port }

-- The branches of the client's packets: a SYN makes an entry, another packet needs one.
pub process_syn : LocalRedirector → Frame → Outcome
unfolding emplace client_key to_proxy
process_syn r p =
    let (fresh, cs) = emplace (client_key p) p.th_dport r.redirected_connections in
    if fresh
    then record {
      redirected = true;
      redirector = record r { redirected_connections = cs };
      frame = to_proxy r p;
    }
    else record {
      redirected = false;
      redirector = record r { redirected_connections = cs };
      frame = p;
    }

pub process_established : LocalRedirector → Frame → Outcome
unfolding find client_key to_proxy
process_established r p = elim (find (client_key p) r.redirected_connections) [
  | none ↦ record { redirected = false; redirector = r; frame = p }
  | some port ↦ record { redirected = true; redirector = r; frame = to_proxy r p }
]

pub process_client_to_server_packet : LocalRedirector → Frame → Outcome
unfolding is_tcp is_syn process_syn process_established
process_client_to_server_packet r p =
    if is_tcp p
    then if is_syn p then process_syn r p else process_established r p
    else record { redirected = false; redirector = r; frame = p }

-- The two swaps of process_server_to_client_packet.
pub swapped_back : Frame → Frame
swapped_back p = record p {
  h_dest = p.h_source;
  h_source = p.h_dest;
  ip_src = p.ip_dst;
  ip_dst = p.ip_src;
}

pub from_proxy : LocalRedirector → Frame → Outcome
unfolding find server_key swapped_back
from_proxy r p = elim (find (server_key p) r.redirected_connections) [
  | none ↦ record { redirected = false; redirector = r; frame = p }
  | some port ↦ record {
    redirected = true;
    redirector = r;
    frame = record (swapped_back p) { th_sport = port };
  }
]

pub process_server_to_client_packet : LocalRedirector → Frame → Outcome
unfolding is_tcp from_proxy
process_server_to_client_packet r p =
    if is_tcp p then from_proxy r p else record { redirected = false; redirector = r; frame = p }
