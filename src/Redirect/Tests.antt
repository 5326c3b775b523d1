-- ===== src/Redirect/Tests.antt =====
-- A connection that is turned to a proxy: its first packet, a packet between, and an answer.
use ndisapi.Base.{◌≡◌, refl, true, false, [], ◌∷◌}
use ndisapi.Redirect.{
  Frame, LocalRedirector, same_key, find, is_tcp, is_syn, client_key, to_proxy,
  process_client_to_server_packet, process_server_to_client_packet, emplace, process_syn,
}
use ndisapi.Redirect.Connections.{from_client, handle, after_events}
use ndisapi.Redirect.Untouched.{frame_of, handle_unredirected}
use ndisapi.Redirect.Replies.{
  reply, forwarded, with_flags, process_server_to_client-process_client_to_server,
  process_client_to_server-known,
}

abbrev idle : LocalRedirector
idle = record { redirected_connections = []; proxy_port = 8080 }

-- A SYN from port 5000 to port 80 of the host 7.
abbrev first_packet : Frame
first_packet = record {
  h_dest = 1;
  h_source = 2;
  h_proto = 0x800;
  ip_p = 6;
  ip_src = 3;
  ip_dst = 7;
  th_sport = 5000;
  th_dport = 80;
  th_flags = 2;
}

-- The same from port 5001.
abbrev another_packet : Frame
another_packet = record first_packet { th_sport = 5001 }

process_server_to_client-process_client_to_server_example :
    ((process_client_to_server_packet idle first_packet).redirected ≡ true)
    × ((process_client_to_server_packet idle first_packet).frame ≡ forwarded 8080 first_packet)
    × (process_server_to_client_packet
          (after_events
            (process_client_to_server_packet idle first_packet).redirector
            (from_client another_packet ∷ []))
          (reply 18 (process_client_to_server_packet idle first_packet).frame)
        ≡ record {
          redirected = true;
          redirector =
              after_events
                (process_client_to_server_packet idle first_packet).redirector
                (from_client another_packet ∷ []);
          frame = reply 18 first_packet;
        })
unfolding is_tcp is_syn find client_key
process_server_to_client-process_client_to_server_example =
    process_server_to_client-process_client_to_server idle first_packet 18
      (from_client another_packet ∷ []) refl refl refl

abbrev busy : LocalRedirector
busy = record idle {
  redirected_connections =
      record { key = record { original_dest_ip = 7; original_src_port = 5000 }; dest_port = 80 }
      ∷ [];
}

process_client_to_server-known_example :
    (process_client_to_server_packet
        (after_events busy (from_client another_packet ∷ []))
        first_packet
      ≡ record {
        redirected = false;
        redirector = after_events busy (from_client another_packet ∷ []);
        frame = first_packet;
      })
    × (process_client_to_server_packet
          (after_events busy (from_client another_packet ∷ []))
          (with_flags 16 first_packet)
        ≡ record {
          redirected = true;
          redirector = after_events busy (from_client another_packet ∷ []);
          frame = to_proxy busy (with_flags 16 first_packet);
        })
unfolding is_tcp is_syn find client_key same_key with_flags
process_client_to_server-known_example =
    process_client_to_server-known busy first_packet 80 16 (from_client another_packet ∷ []) refl
      refl refl refl

handle_unredirected_example :
    ((handle busy (from_client first_packet)).frame ≡ frame_of (from_client first_packet))
    × ((handle busy (from_client first_packet)).redirector ≡ busy)
unfolding handle process_client_to_server_packet is_tcp is_syn process_syn emplace find same_key
    client_key
handle_unredirected_example = handle_unredirected busy (from_client first_packet) refl
