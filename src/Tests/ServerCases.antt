-- ===== src/Tests/ServerCases.antt =====
-- The theorem on tcp_server.c at a packet of two buffers: a header, and the payload behind it.
use zephyr_io.Prelude.{
  ℕ, ◌+◌, ◌%◌, ◌^◌, ◌≡◌, refl, none, some, List, [], ◌∷◌, ◌++◌, true, false, pos, arith, length,
  ◌==◌, if◌then◌else◌,
}
use zephyr_io.Routing.Protocol.{BufData}
use zephyr_io.Routing.Commands.{increment}
use zephyr_io.Routing.Server.{done, would_block, Sockets, TcpState, server_start, tcp_sink_handler}
use zephyr_io.Routing.Stream.{Chain, ends, linked, TakesAll, tcp_sink_handler-streams}

-- The state of the peer is what it has received.
abbrev peer : Sockets (List ℕ)
peer = record {
  socket = λ s. (some 7, s);
  bind = λ sock s. (true, s);
  listen = λ sock s. (false, s);
  accept = λ sock s. (would_block, s);
  send = λ sock bs s. (done (length bs), s ++ bs);
  recv = λ sock room s. (done [], s);
  close = λ sock s. s ++ 0 ∷ [];
  sleep = λ n s. s;
}

-- Buffer 200 is chained before buffer 201.
abbrev two_bufs : BufData (TcpState (List ℕ))
two_bufs = record {
  bytes = λ b s. if b == 200 then 1 ∷ 2 ∷ [] else 161 ∷ 161 ∷ 161 ∷ [];
  add = λ b bs s. s;
  pull = λ b n s. s;
  frags = λ b s. if b == 200 then some 201 else none;
  frag_add = λ b c s. s;
  frags_len = λ b s. 5;
  ticks_to_cyc = λ n. n;
  cyc_to_ns = λ n. n;
  ns_to_ticks = λ n. n;
}

abbrev online : TcpState (List ℕ)
online = record {
  client_sock = pos 4;
  client_connected = true;
  packets_sent = 9;
  bytes_sent = 4294967293;
  packets_received = 0;
  rest = 77 ∷ [];
}

peer-TakesAll : TakesAll peer two_bufs (λ s. s)
peer-TakesAll = record {
  whole = λ sock bs s. refl;
  arrives = λ sock bs s. refl;
  same_bytes = λ sock bs st f. refl;
  same_frags = λ sock bs st f. refl;
}

-- A server that cannot listen closes its socket.
gives_up : server_start peer online ≡ (none, record online { rest = 77 ∷ 0 ∷ [] })
unfolding server_start
gives_up = refl

packet : Chain two_bufs online (some 200) (1 ∷ 2 ∷ 161 ∷ 161 ∷ 161 ∷ []) 2
packet = linked 200 (161 ∷ 161 ∷ 161 ∷ []) 1 (linked 201 [] 0 ends)

tcp_sink_handler-streams_example :
    (v : TcpState (List ℕ)) × (tcp_sink_handler peer two_bufs 2 200 online ≡ some v)
    × (v.rest ≡ 77 ∷ 1 ∷ 2 ∷ 161 ∷ 161 ∷ 161 ∷ [])
    × (v.packets_sent ≡ increment 9)
    × (v.bytes_sent ≡ (4294967293 + 5) % 2 ^ 32)
tcp_sink_handler-streams_example =
    tcp_sink_handler-streams peer-TakesAll 2 200 (1 ∷ 2 ∷ 161 ∷ 161 ∷ 161 ∷ []) 2 online refl refl
      packet (omega arith) (omega arith)
