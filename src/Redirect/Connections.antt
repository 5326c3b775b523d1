-- ===== src/Redirect/Connections.antt =====
-- The connections that a local_redirector keeps, over any sequence of packets.
use ndisapi.Base.{
  ℕ, ◌≡◌, refl, sym, ap, ◌∙◌, inl, inr, Bool, true, false, List, [], ◌∷◌, Option, none, some, ◌==◌,
  ◌&&◌, ==_refl, ==_iff, Option-cases, if◌then◌else◌,
}
use mathlib.Core.Path.{subst}
use ndisapi.Redirect.{
  Frame, LocalRedirectKey, Connection, LocalRedirector, same_key, find, emplace, Outcome, is_tcp,
  is_syn, client_key, server_key, swapped_back, to_proxy, process_syn, process_established,
  process_client_to_server_packet, from_proxy, process_server_to_client_packet,
}

-- A packet that the filter gives to one of the two methods.
pub data Event : Type 0 where
  from_client from_server : Frame → Event

unfoldable pub handle : LocalRedirector → Event → Outcome
unfolding process_client_to_server_packet process_server_to_client_packet
handle r (from_client p) = process_client_to_server_packet r p
handle r (from_server p) = process_server_to_client_packet r p

pub after_events : LocalRedirector → List Event → LocalRedirector
unfolding handle
after_events r [] = r
after_events r (e ∷ es) = after_events (handle r e).redirector es

-- An object knows at least what another knows.
unfoldable pub Extends : LocalRedirector → LocalRedirector → Type 0
Extends r r' =
    (r'.proxy_port ≡ r.proxy_port)
    × ((k : LocalRedirectKey) (port : ℕ)
        → find k r.redirected_connections ≡ some port
        → find k r'.redirected_connections ≡ some port)

pub same_key_refl : (k : LocalRedirectKey) → same_key k k ≡ true
unfolding same_key
same_key_refl k = simp (==_refl)

&&_split : (a b : Bool) → (a && b) ≡ true → (a ≡ true) × (b ≡ true)
&&_split true b h = (refl, h)
&&_split false b h = cc

same_key-eq : (a b : LocalRedirectKey) → same_key a b ≡ true → a ≡ b
unfolding same_key
same_key-eq a b h =
    let (x, y) =
      &&_split (a.original_dest_ip == b.original_dest_ip)
        (a.original_src_port == b.original_src_port) h in
    let dest : a.original_dest_ip ≡ b.original_dest_ip =
      (==_iff a.original_dest_ip b.original_dest_ip).0 x in
    let port : a.original_src_port ≡ b.original_src_port =
      (==_iff a.original_src_port b.original_src_port).0 y in
    λ i. record { original_dest_ip = dest i; original_src_port = port i }

pub emplace_new :
    (k : LocalRedirectKey) (port : ℕ) (cs : List Connection)
    → find k cs ≡ none
    → emplace k port cs ≡ (true, record { key = k; dest_port = port } ∷ cs)
unfolding emplace
emplace_new k port cs e =
    ap
      (λ o. elim o as (λ _. Bool × List Connection) [
        | none ↦ (true, record { key = k; dest_port = port } ∷ cs)
        | some p ↦ (false, cs)
      ])
      e

pub emplace_known :
    (k : LocalRedirectKey) (port p : ℕ) (cs : List Connection)
    → find k cs ≡ some p
    → emplace k port cs ≡ (false, cs)
unfolding emplace
emplace_known k port p cs e =
    ap
      (λ o. elim o as (λ _. Bool × List Connection) [
        | none ↦ (true, record { key = k; dest_port = port } ∷ cs)
        | some p ↦ (false, cs)
      ])
      e

find_new :
    (k k' : LocalRedirectKey) (port port' : ℕ) (cs : List Connection)
    → find k cs ≡ some port
    → find k' cs ≡ none
    → find k (record { key = k'; dest_port = port' } ∷ cs) ≡ some port
unfolding find
find_new k k' port port' cs h n = go (same_key k' k) refl
  where
    go : (b : Bool) → same_key k' k ≡ b → (if b then some port' else find k cs) ≡ some port
    go true e =
        let z : none ≡ some port = sym n ∙ ap (λ x. find x cs) (same_key-eq k' k e) ∙ h in cc
    go false e = h

emplace-keeps :
    (k k' : LocalRedirectKey) (port port' : ℕ) (cs : List Connection)
    → find k cs ≡ some port
    → find k (emplace k' port' cs).1 ≡ some port
emplace-keeps k k' port port' cs h = elim (Option-cases (find k' cs)) [
  | inl n ↦ ap (λ x. find k x.1) (emplace_new k' port' cs n) ∙ find_new k k' port port' cs h n
  | inr s ↦ ap (λ x. find k x.1) (emplace_known k' port' s.0 cs s.1) ∙ h
]

-- What each method does to the object.
process_syn-redirector :
    (r : LocalRedirector) (p : Frame)
    → (process_syn r p).redirector ≡ record r {
      redirected_connections = (emplace (client_key p) p.th_dport r.redirected_connections).1;
    }
unfolding process_syn
process_syn-redirector r p = go (emplace (client_key p) p.th_dport r.redirected_connections)
  where
    go :
        (x : Bool × List Connection)
        → (if◌then◌else◌ {A = Outcome} x.0
            (record {
              redirected = true;
              redirector = record r { redirected_connections = x.1 };
              frame = to_proxy r p;
            })
            (record {
              redirected = false;
              redirector = record r { redirected_connections = x.1 };
              frame = p;
            })).redirector
          ≡ record r { redirected_connections = x.1 }
    go (true, cs) = refl
    go (false, cs) = refl

process_established-redirector :
    (r : LocalRedirector) (p : Frame) → (process_established r p).redirector ≡ r
unfolding process_established
process_established-redirector r p = go (find (client_key p) r.redirected_connections)
  where
    go :
        (o : Option ℕ)
        → (elim o as (λ _. Outcome) [
          | none ↦ record { redirected = false; redirector = r; frame = p }
          | some port ↦ record { redirected = true; redirector = r; frame = to_proxy r p }
        ]).redirector
          ≡ r
    go none = refl
    go (some x) = refl

from_proxy-redirector : (r : LocalRedirector) (p : Frame) → (from_proxy r p).redirector ≡ r
unfolding from_proxy
from_proxy-redirector r p = go (find (server_key p) r.redirected_connections)
  where
    go :
        (o : Option ℕ)
        → (elim o as (λ _. Outcome) [
          | none ↦ record { redirected = false; redirector = r; frame = p }
          | some port ↦ record {
            redirected = true;
            redirector = r;
            frame = record (swapped_back p) { th_sport = port };
          }
        ]).redirector
          ≡ r
    go none = refl
    go (some x) = refl

Extends-refl : (r : LocalRedirector) → Extends r r
unfolding Extends
Extends-refl r = (refl, λ k port h. h)

Extends-trans : (r r' r'' : LocalRedirector) → Extends r r' → Extends r' r'' → Extends r r''
unfolding Extends
Extends-trans r r' r'' (e, f) (e', f') = (e' ∙ e, λ k port h. f' k port (f k port h))

process_syn-Extends : (r : LocalRedirector) (p : Frame) → Extends r (process_syn r p).redirector
unfolding Extends
process_syn-Extends r p =
    subst (Extends r) (sym (process_syn-redirector r p))
      (refl, λ k port h. emplace-keeps k (client_key p) port p.th_dport r.redirected_connections h)

handle-Extends : (r : LocalRedirector) (e : Event) → Extends r (handle r e).redirector
unfolding handle process_client_to_server_packet process_server_to_client_packet
handle-Extends r (from_client p) = go (is_tcp p) (is_syn p)
  where
    go :
        (t s : Bool)
        → Extends r
            (if◌then◌else◌ {A = Outcome} t
              (if s then process_syn r p else process_established r p)
              (record { redirected = false; redirector = r; frame = p })).redirector
    go true true = process_syn-Extends r p
    go true false = subst (Extends r) (sym (process_established-redirector r p)) (Extends-refl r)
    go false s = Extends-refl r
handle-Extends r (from_server p) = go (is_tcp p)
  where
    go :
        (t : Bool)
        → Extends r
            (if◌then◌else◌ {A = Outcome} t
              (from_proxy r p)
              (record { redirected = false; redirector = r; frame = p })).redirector
    go true = subst (Extends r) (sym (from_proxy-redirector r p)) (Extends-refl r)
    go false = Extends-refl r

-- Whatever packets come, no connection is forgotten or changed.
pub after_events-Extends : (r : LocalRedirector) (es : List Event) → Extends r (after_events r es)
unfolding after_events
after_events-Extends r [] = Extends-refl r
after_events-Extends r (e ∷ es) =
    Extends-trans r (handle r e).redirector (after_events (handle r e).redirector es)
      (handle-Extends r e) (after_events-Extends (handle r e).redirector es)
