-- ===== src/Lib.antt =====
-- The native code of tun2http: packets that Android's VPN service reads from a tun device are
-- answered in user space and forwarded over sockets, HTTP and TLS through a proxy.
--
-- All paths are under android_app/app/src/main/cpp. A thread (`handle_events`, session.c) keeps one
-- list of ICMP, UDP and TCP sessions. In each round it counts and monitors them, checks them for
-- timeouts, and waits; then it hands packets of the tun device to `handle_tcp` (tcp.c) and its
-- likes, and events of a session's socket to `check_tcp_socket` and its likes.
--
-- Os: the environment. A model takes a record of functions, each of which may answer by all the
--   calls made before, and returns the log of its calls. Closes counts the sockets that a log closes.
-- Session: the records of tun2http.h; the list of sessions is a list of `NgSession`. A socket of -1
--   is `none`. Fields of 16 and 32 bits are numbers whose wrap-around is written where the code
--   stores them; the 64-bit byte counts do not wrap.
-- Util: util.c. Util/Checksum, Util/Compare and Util/Hex prove what its functions compute.
-- Packet: the IP headers that tcp.c and udp.c build with the same lines.
-- Tcp: tcp.c. Write (`write_tcp` and its wrappers), Queue (`queue_tcp`), Window (timeout and
--   windows), Check (`check_tcp_session`, `monitor_tcp_session`), Socket (`check_tcp_socket`),
--   Header, Open and Handle (`handle_tcp`, from the bytes of a packet to the list of sessions;
--   Handle/Connect is about the ClientHello that makes it send CONNECT).
--   Stream is about the bytes that a session's socket is given, beside those the remote end sends.
--   Invariant holds the invariant of a session, Machine the life of a session as a relation whose
--   steps are whole handlers.
-- Tls: tls.c, `parse_tls_header`, which `handle_tcp` calls on data for port 443.
-- Http: http.c, `patch_http_url`, which changes what `check_tcp_socket` forwards to port 80. Tcp/Socket
--   takes it as a parameter, so that its theorems hold for any change; Http/Forward puts it there.
-- Dns: dns.c, `get_qname`, `get_dns_query` and `parse_dns_response`, which UDP sessions call.
-- Dhcp: dhcp.c, `check_dhcp`, which `handle_udp` calls.
-- Udp: udp.c. Write (`write_udp`), Check (`check_udp_session`, `check_udp_socket`), Handle
--   (`has_udp_session`, `block_udp`, `handle_udp`).
-- Icmp: icmp.c. `check_icmp_session`; Write (`write_icmp`, the identifier and checksum of echo
--   messages), Socket (`check_icmp_socket`), Handle (`handle_icmp`).
-- Ip: ip.c. `handle_ip` finds the payload of a packet from its bytes; Handle hands it to the handlers
--   over the one list of sessions, and holds `check_tun`. Extension, Check, Limit and Shape prove what
--   it does with extension headers, header checks, the limit on sessions and the list.
-- Sockets: `open_tcp_socket` and its likes of tcp.c, udp.c and icmp.c, and `protect_socket` of
--   tun2http.c, which they call.
-- Loop: session.c. The passes over all sessions, `check_allowed` and `clear`; Life is the life of the
--   list of sessions as a relation whose steps are the handlers of one event and the passes; Events is
--   `handle_events` itself, the rounds with their waits and the events that they bring.
-- Service: tun2http.c, the calls from Java that start and stop the thread; Life is the end of a thread
--   that is stopped.
-- Tests: the theorems at concrete inputs.
--
-- A handler takes a session and the log and returns both; what the code changes in place is the
-- session returned. Loops over lists are structural recursion, and parsers run over the bytes that are
-- left. The loop over the options of a SYN runs on fuel: an option takes at least one byte unless its
-- length byte is 0, so the count of option bytes is enough fuel for every run that ends. The loop over
-- IPv6 extension headers has the size of the buffer for fuel, which is always enough. The loop over the
-- labels of a DNS name need not end; its fuel is a parameter, of any size. A handler that is out of
-- fuel, or uses memory outside its buffers, is reported as `hung`. The numbers of `int` that may be
-- negative are integers. Where the code reads behind the data it is given, what stands there is a
-- parameter.
--
-- The loops of `handle_events` go on as long as the environment wants; `rounds` bounds them, and may
-- be any number. An event of a session's socket names the session by its place in the list, counted
-- from the end, where the code has a pointer: while events are handled, sessions are added in front and
-- none is removed. The thread has the list for itself, so that a call from Java that waits for the
-- thread is modelled by the thread's run as a whole.
--
-- Two places stop short of the code. A UDP packet whose IP header length points behind its end makes a
-- length wrap; the code gives that length to `sendto`, which refuses it, where the model reports
-- `hung`. A copy of a negative count in `patch_http_url` is `crashed`, which `patch_with` hands to
-- `check_tcp_socket` as no change.
--
-- Not modelled: logging; memory management; the lock, which only one thread takes; the limit on open
-- files; the helpers that call Java, and the Java application; `get_uid`, which reads files of the
-- system for log lines; `get_header` of http.c and `check_domain` of dns.c, which nothing calls.
-- `inet_ntoa` of the C library is a parameter.
pub mod Prelude
pub mod Os
pub mod Session
pub mod Util
pub mod Packet
pub mod Sockets
pub mod Tcp
pub mod Tls
pub mod Http
pub mod Dns
pub mod Dhcp
pub mod Ip
pub mod Udp
pub mod Icmp
pub mod Loop
pub mod Service
pub mod Tests
