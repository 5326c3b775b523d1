-- ===== src/Redirect/Replies.antt =====
-- The packets of a redirected connection, in both directions.
use ndisapi.Base.{
  ℕ, ◌≡◌, refl, sym, ap, ◌∙◌, Bool, true, false, List, ◌∷◌, none, some, if◌then◌else◌,
}
use mathlib.Core.Path.{subst}
use ndisapi.Redirect.{
  Frame, LocalRedirectKey, Connection, LocalRedirector, find, Outcome, is_tcp, is_syn, client_key,
  server_key, swapped, swapped_back, to_proxy, process_syn, process_established,
  process_client_to_server_packet, from_proxy, process_server_to_client_packet,
}
use ndisapi.Redirect.Connections.{
  Event, after_events, Extends, same_key_refl, emplace_new, emplace_known, after_events-Extends,
}

-- A packet that the receiver of a packet sends back, with its own flags.
pub reply : ℕ → Frame → Frame
reply flags p = record {
  h_dest = p.h_source;
  h_source = p.h_dest;
  h_proto = p.h_proto;
  ip_p = p.ip_p;
  ip_src = p.ip_dst;
  ip_dst = p.ip_src;
  th_sport = p.th_dport;
  th_dport = p.th_sport;
  th_flags = flags;
}

-- What the proxy is to get for a packet: the packet with its Ethernet addresses changed about, and
-- its IP addresses too, and sent to the port of the proxy.
unfoldable pub forwarded : ℕ → Frame → Frame
forwarded port p = record {
  h_dest = p.h_source;
  h_source = p.h_dest;
  h_proto = p.h_proto;
  ip_p = p.ip_p;
  ip_src = p.ip_dst;
  ip_dst = p.ip_src;
  th_sport = p.th_sport;
  th_dport = port;
  th_flags = p.th_flags;
}

unfoldable pub with_flags : ℕ → Frame → Frame
with_flags flags p = record p { th_flags = flags }

find_self :
    (k : LocalRedirectKey) (port : ℕ) (cs : List Connection)
    → find k (record { key = k; dest_port = port } ∷ cs) ≡ some port
unfolding find
find_self k port cs = ap (λ (b : Bool). if b then some port else find k cs) (same_key_refl k)

client_syn :
    (r : LocalRedirector) (p : Frame)
    → is_tcp p ≡ true
    → is_syn p ≡ true
    → process_client_to_server_packet r p ≡ process_syn r p
unfolding process_client_to_server_packet
client_syn r p t s =
    ap
      (λ (b : Bool).
        if◌then◌else◌ {A = Outcome} b
          (if is_syn p then process_syn r p else process_established r p)
          (record { redirected = false; redirector = r; frame = p }))
      t
    ∙ ap (λ (b : Bool). if◌then◌else◌ {A = Outcome} b (process_syn r p) (process_established r p)) s

client_other :
    (r : LocalRedirector) (p : Frame)
    → is_tcp p ≡ true
    → is_syn p ≡ false
    → process_client_to_server_packet r p ≡ process_established r p
unfolding process_client_to_server_packet
client_other r p t s =
    ap
      (λ (b : Bool).
        if◌then◌else◌ {A = Outcome} b
          (if is_syn p then process_syn r p else process_established r p)
          (record { redirected = false; redirector = r; frame = p }))
      t
    ∙ ap (λ (b : Bool). if◌then◌else◌ {A = Outcome} b (process_syn r p) (process_established r p)) s

server_tcp :
    (r : LocalRedirector) (p : Frame)
    → is_tcp p ≡ true
    → process_server_to_client_packet r p ≡ from_proxy r p
unfolding process_server_to_client_packet
server_tcp r p t =
    ap
      (λ (b : Bool).
        if◌then◌else◌ {A = Outcome} b (from_proxy r p)
          (record { redirected = false; redirector = r; frame = p }))
      t

syn_new :
    (r : LocalRedirector) (p : Frame)
    → find (client_key p) r.redirected_connections ≡ none
    → process_syn r p ≡ record {
      redirected = true;
      redirector = record r {
        redirected_connections =
            record { key = client_key p; dest_port = p.th_dport } ∷ r.redirected_connections;
      };
      frame = to_proxy r p;
    }
unfolding process_syn
syn_new r p n =
    ap
      (λ x.
        if◌then◌else◌ {A = Outcome} x.0
          (record {
            redirected = true;
            redirector = record r { redirected_connections = x.1 };
            frame = to_proxy r p;
          })
          (record {
            redirected = false;
            redirector = record r { redirected_connections = x.1 };
            frame = p;
          }))
      (emplace_new (client_key p) p.th_dport r.redirected_connections n)

syn_known :
    (r : LocalRedirector) (p : Frame) (port : ℕ)
    → find (client_key p) r.redirected_connections ≡ some port
    → process_syn r p ≡ record { redirected = false; redirector = r; frame = p }
unfolding process_syn
syn_known r p port n =
    ap
      (λ x.
        if◌then◌else◌ {A = Outcome} x.0
          (record {
            redirected = true;
            redirector = record r { redirected_connections = x.1 };
            frame = to_proxy r p;
          })
          (record {
            redirected = false;
            redirector = record r { redirected_connections = x.1 };
            frame = p;
          }))
      (emplace_known (client_key p) p.th_dport port r.redirected_connections n)

established_known :
    (r : LocalRedirector) (p : Frame) (port : ℕ)
    → find (client_key p) r.redirected_connections ≡ some port
    → process_established r p ≡ record { redirected = true; redirector = r; frame = to_proxy r p }
unfolding process_established
established_known r p port e =
    ap
      (λ o. elim o as (λ _. Outcome) [
        | none ↦ record { redirected = false; redirector = r; frame = p }
        | some port ↦ record { redirected = true; redirector = r; frame = to_proxy r p }
      ])
      e

from_proxy_known :
    (r : LocalRedirector) (p : Frame) (port : ℕ)
    → find (server_key p) r.redirected_connections ≡ some port
    → from_proxy r p ≡ record {
      redirected = true;
      redirector = r;
      frame = record (swapped_back p) { th_sport = port };
    }
unfolding from_proxy
from_proxy_known r p port e =
    ap
      (λ o. elim o as (λ _. Outcome) [
        | none ↦ record { redirected = false; redirector = r; frame = p }
        | some port ↦ record {
          redirected = true;
          redirector = r;
          frame = record (swapped_back p) { th_sport = port };
        }
      ])
      e

-- What the proxy sends back is turned into what the server would send back.
answered :
    (r : LocalRedirector) (p : Frame) (proxy flags : ℕ)
    → is_tcp p ≡ true
    → find (client_key p) r.redirected_connections ≡ some p.th_dport
    → process_server_to_client_packet r (reply flags (record (swapped p) { th_dport = proxy }))
      ≡ record { redirected = true; redirector = r; frame = reply flags p }
unfolding reply swapped swapped_back client_key server_key is_tcp
answered r p proxy flags t e =
    server_tcp r (reply flags (record (swapped p) { th_dport = proxy })) t
    ∙ from_proxy_known r (reply flags (record (swapped p) { th_dport = proxy })) p.th_dport e

-- A connection whose first packet, a SYN, finds no entry: the packet is redirected, with its
-- Ethernet addresses swapped, its IP addresses swapped and the port of the proxy, and else unchanged;
-- and after any further packets of any connections, whatever the proxy sends back
-- to it reaches the client as the server's reply to the first packet, from the server's address and
-- port.
pub process_server_to_client-process_client_to_server :
    (r : LocalRedirector) (p : Frame) (flags : ℕ) (es : List Event)
    → is_tcp p ≡ true
    → is_syn p ≡ true
    → find (client_key p) r.redirected_connections ≡ none
    → (let o = process_client_to_server_packet r p in
        (o.redirected ≡ true)
        × (o.frame ≡ forwarded r.proxy_port p)
        × (process_server_to_client_packet (after_events o.redirector es) (reply flags o.frame)
            ≡ record {
              redirected = true;
              redirector = after_events o.redirector es;
              frame = reply flags p;
            }))
unfolding to_proxy swapped forwarded Extends
process_server_to_client-process_client_to_server r p flags es t s n =
    let r' : LocalRedirector = record r {
      redirected_connections =
          record { key = client_key p; dest_port = p.th_dport } ∷ r.redirected_connections;
    } in
    let o : process_client_to_server_packet r p
        ≡ record { redirected = true; redirector = r'; frame = to_proxy r p } =
      client_syn r p t s ∙ syn_new r p n in
    let (same, keeps) = after_events-Extends r' es in
    subst
      (λ o.
        (o.redirected ≡ true)
        × (o.frame ≡ forwarded r.proxy_port p)
        × (process_server_to_client_packet (after_events o.redirector es) (reply flags o.frame)
            ≡ record {
              redirected = true;
              redirector = after_events o.redirector es;
              frame = reply flags p;
            }))
      (sym o)
      (
        refl,
        refl,
        answered (after_events r' es) p r.proxy_port flags t (
            keeps (client_key p) p.th_dport
              (find_self (client_key p) p.th_dport r.redirected_connections)),
      )

-- Once an entry for a host and a source port is there, after any packets: a further SYN with that
-- host and port, a repeated one too, is not redirected, while the packets that are no SYN still are.
pub process_client_to_server-known :
    (r : LocalRedirector) (p : Frame) (port flags : ℕ) (es : List Event)
    → is_tcp p ≡ true
    → is_syn p ≡ true
    → is_syn (with_flags flags p) ≡ false
    → find (client_key p) r.redirected_connections ≡ some port
    → (let r' = after_events r es in
        (process_client_to_server_packet r' p
          ≡ record { redirected = false; redirector = r'; frame = p })
        × (process_client_to_server_packet r' (with_flags flags p) ≡ record {
          redirected = true;
          redirector = r';
          frame = to_proxy r (with_flags flags p);
        }))
unfolding to_proxy Extends with_flags is_tcp client_key
process_client_to_server-known r p port flags es t s n f =
    let r' = after_events r es in
    let (same, keeps) = after_events-Extends r es in
    let known = keeps (client_key p) port f in
    (
      client_syn r' p t s ∙ syn_known r' p port known,
      client_other r' (with_flags flags p) t n
          ∙ established_known r' (with_flags flags p) port known
          ∙ ap
              (λ x. record {
                redirected = true;
                redirector = r';
                frame = record (swapped (with_flags flags p)) { th_dport = x };
              })
              same,
    )
