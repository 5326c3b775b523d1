-- ===== src/Redirect/Untouched.antt =====
-- The packets that a local_redirector leaves alone.
use ndisapi.Base.{ℕ, ◌≡◌, refl, Bool, true, false, List, ◌∷◌, Option, none, some, if◌then◌else◌}
use ndisapi.Redirect.{
  Frame, Connection, LocalRedirector, find, emplace, Outcome, is_tcp, is_syn, client_key,
  server_key, swapped_back, to_proxy, process_syn, process_established,
  process_client_to_server_packet, from_proxy, process_server_to_client_packet,
}
use ndisapi.Redirect.Connections.{Event, from_client, from_server, handle}

pub frame_of : Event → Frame
frame_of (from_client p) = p
frame_of (from_server p) = p

-- The object and the packet are as they were, where a method returns false.
Untouched : LocalRedirector → Frame → Outcome → Type 0
Untouched r p o = o.redirected ≡ false → (o.frame ≡ p) × (o.redirector ≡ r)

process_syn-Untouched : (r : LocalRedirector) (p : Frame) → Untouched r p (process_syn r p)
unfolding process_syn Untouched emplace
process_syn-Untouched r p = go (find (client_key p) r.redirected_connections)
  where
    go :
        (o : Option ℕ)
        → (let x = elim o as (λ _. Bool × List Connection) [
          | none ↦ (
            true,
            record { key = client_key p; dest_port = p.th_dport } ∷ r.redirected_connections,
          )
          | some q ↦ (false, r.redirected_connections)
        ] in
            Untouched r p (
              if◌then◌else◌ {A = Outcome} x.0
                (record {
                  redirected = true;
                  redirector = record r { redirected_connections = x.1 };
                  frame = to_proxy r p;
                })
                (record {
                  redirected = false;
                  redirector = record r { redirected_connections = x.1 };
                  frame = p;
                })))
    go none = λ e. cc
    go (some q) = λ e. (refl, refl)

process_established-Untouched :
    (r : LocalRedirector) (p : Frame) → Untouched r p (process_established r p)
unfolding process_established Untouched
process_established-Untouched r p = go (find (client_key p) r.redirected_connections)
  where
    go :
        (o : Option ℕ)
        → Untouched r p (elim o as (λ _. Outcome) [
          | none ↦ record { redirected = false; redirector = r; frame = p }
          | some port ↦ record { redirected = true; redirector = r; frame = to_proxy r p }
        ])
    go none = λ e. (refl, refl)
    go (some x) = λ e. cc

from_proxy-Untouched : (r : LocalRedirector) (p : Frame) → Untouched r p (from_proxy r p)
unfolding from_proxy Untouched
from_proxy-Untouched r p = go (find (server_key p) r.redirected_connections)
  where
    go :
        (o : Option ℕ)
        → Untouched r p (elim o as (λ _. Outcome) [
          | none ↦ record { redirected = false; redirector = r; frame = p }
          | some port ↦ record {
            redirected = true;
            redirector = r;
            frame = record (swapped_back p) { th_sport = port };
          }
        ])
    go none = λ e. (refl, refl)
    go (some x) = λ e. cc

-- Where one of the two methods returns false, it has changed neither the packet nor the object.
pub handle_unredirected :
    (r : LocalRedirector) (e : Event)
    → (handle r e).redirected ≡ false
    → ((handle r e).frame ≡ frame_of e) × ((handle r e).redirector ≡ r)
unfolding handle frame_of process_client_to_server_packet process_server_to_client_packet Untouched
handle_unredirected r (from_client p) = go (is_tcp p) (is_syn p)
  where
    go :
        (t s : Bool)
        → Untouched r p (
            if◌then◌else◌ {A = Outcome} t
              (if s then process_syn r p else process_established r p)
              (record { redirected = false; redirector = r; frame = p }))
    go true true = process_syn-Untouched r p
    go true false = process_established-Untouched r p
    go false s = λ e. (refl, refl)
handle_unredirected r (from_server p) = go (is_tcp p)
  where
    go :
        (t : Bool)
        → Untouched r p (
            if◌then◌else◌ {A = Outcome} t
              (from_proxy r p)
              (record { redirected = false; redirector = r; frame = p }))
    go true = from_proxy-Untouched r p
    go false = λ e. (refl, refl)
