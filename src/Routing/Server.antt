-- ===== src/Routing/Server.antt =====
-- tcp_server.c: packets go to the client of a socket, and what the client sends becomes packets.
use zephyr_io.Prelude.{
  ℕ, zero, suc, ◌+◌, ◌%◌, ◌^◌, Option, none, some, List, [], ◌∷◌, Bool, true, false, ◌||◌, ℤ, pos,
  negsuc, is_neg, not, ltb, if◌then◌else◌,
}
use zephyr_io.World.{Ptr, World}
use zephyr_io.Kernel.{no_wait, Kernel, Program}
use zephyr_io.Core.{weave_process_messages}
use zephyr_io.Packet.{NetBuf, PacketPool, weave_packet_alloc, weave_packet_send}
use zephyr_io.Routing.Protocol.{BufData}
use zephyr_io.Routing.Commands.{increment}

-- A socket call that returns a value; one that fails with EAGAIN or EWOULDBLOCK; one that fails with
-- another errno.
pub data Reply {ℓ} (A : Type ℓ) : Type ℓ where
  done : A → Reply A
  would_block : Reply A
  failed : Reply A

-- The socket calls. `recv` has the room of the buffer, and returns the bytes that it wrote there,
-- none if the peer has closed. A call that sets up the server returns whether it worked.
pub record Sockets (S : Type 0) : Type 0 where
  pub socket : S → Option ℕ × S
  pub bind : ℕ → S → Bool × S
  pub listen : ℕ → S → Bool × S
  pub accept : ℕ → S → Reply ℕ × S
  pub send : ℤ → List ℕ → S → Reply ℕ × S
  pub recv : ℤ → ℕ → S → Reply (List ℕ) × S
  pub close : ℤ → S → S
  -- k_sleep in milliseconds
  pub sleep : ℕ → S → S

-- The statics of the file beside the state of everything else; a socket that is not open is -1.
pub record TcpState (S : Type 0) : Type 0 where
  pub client_sock : ℤ
  pub client_connected : Bool
  pub packets_sent : ℕ
  pub bytes_sent : ℕ
  pub packets_received : ℕ
  pub rest : S

abbrev pub no_sock : ℤ
no_sock = negsuc 0

module _ {S : Type 0} (io : Sockets S) where
  abbrev pub sleep_ms : ℕ → TcpState S → TcpState S
  sleep_ms n st = record st { rest = io.sleep n st.rest }

  -- The connection is given up.
  unfoldable pub drop_client : TcpState S → TcpState S
  drop_client st = record st {
    client_sock = no_sock;
    client_connected = false;
    rest = io.close st.client_sock st.rest;
  }

  -- The statistics of a packet of which so many bytes were sent.
  unfoldable pub count_sent : ℕ → TcpState S → TcpState S
  count_sent total st =
      if ltb 0 total
      then record st {
        packets_sent = increment st.packets_sent;
        bytes_sent = (st.bytes_sent + total) % 2 ^ 32;
      }
      else st

  module _ (bd : BufData (TcpState S)) where
    -- The loop over the fragments, on fuel; `none` means that the chain goes on.
    unfoldable pub send_frags : ℕ → Option Ptr → ℕ → TcpState S → Option (TcpState S)
    unfolding drop_client count_sent
    send_frags fuel none sent_total st = some (count_sent sent_total st)
    send_frags zero (some frag) sent_total st = none
    send_frags (suc fuel) (some frag) sent_total st =
        let (sent, s) = io.send st.client_sock (bd.bytes frag st) st.rest in
        let st1 = record st { rest = s } in
        elim sent [
          | done n ↦ send_frags fuel (bd.frags frag st1) (sent_total + n) st1
          | would_block ↦ some (count_sent sent_total st1)
          | failed ↦ some (drop_client st1)
        ]

    unfoldable pub tcp_sink_handler : ℕ → Ptr → TcpState S → Option (TcpState S)
    unfolding send_frags
    tcp_sink_handler fuel buf_ref st =
        let sent = send_frags fuel (some buf_ref) 0 st in
        if not st.client_connected || is_neg st.client_sock then some st else sent

  -- The first half of the thread: the listening socket, or none when the thread ends.
  unfoldable pub server_start : TcpState S → Option ℕ × TcpState S
  server_start st =
      let (server_sock, s) = io.socket st.rest in
      elim server_sock [
        | none ↦ (none, record st { rest = s })
        | some sock ↦
            let (bound, s1) = io.bind sock s in
            let (listening, s2) = io.listen sock s1 in
            if not bound
            then (none, record st { rest = io.close (pos sock) s1 })
            else if not listening
            then (none, record st { rest = io.close (pos sock) s2 })
            else (some sock, record st { rest = s2 })
      ]

module _ {S : Type 0} (io : Sockets S) (k : Kernel (TcpState S)) (nb : NetBuf (TcpState S))
    (bd : BufData (TcpState S)) (p : Program (TcpState S)) (tcp_rx_pool : PacketPool)
    (tcp_rx_source tcp_queue : Ptr) (tailroom : Ptr → TcpState S → ℕ) where
  -- The packet is filled with what was received and forwarded.
  unfoldable pub forward : Ptr → List ℕ → World (TcpState S) → World (TcpState S)
  unfolding weave_packet_send
  forward rx_buf bytes w =
      let st = bd.add rx_buf bytes w.kernel in
      let st1 = record st { packets_received = increment st.packets_received } in
      (weave_packet_send k nb p (some tcp_rx_source) (some rx_buf) no_wait
        (record w { kernel = st1 })).1

  -- What becomes of a buffer after its recv: whether the session goes on, and the world.
  unfoldable pub received : Ptr → Reply (List ℕ) → World (TcpState S) → Bool × World (TcpState S)
  unfolding forward
  received rx_buf would_block w =
      (true, record w { kernel = sleep_ms io 10 (nb.net_buf_unref (some rx_buf) w.kernel) })
  received rx_buf failed w = (false, record w { kernel = nb.net_buf_unref (some rx_buf) w.kernel })
  received rx_buf (done []) w =
      (false, record w { kernel = nb.net_buf_unref (some rx_buf) w.kernel })
  received rx_buf (done (b ∷ bytes)) w = (true, forward rx_buf (b ∷ bytes) w)

  -- The body of the inner loop.
  unfoldable pub client_round : World (TcpState S) → Bool × World (TcpState S)
  unfolding weave_packet_alloc received
  client_round w =
      let (rx_buf, st) = weave_packet_alloc nb (some tcp_rx_pool) no_wait w.kernel in
      elim rx_buf [
        | none ↦ (true, record w { kernel = sleep_ms io 10 st })
        | some buf ↦
            let (got, s) = io.recv st.client_sock (tailroom buf st) st.rest in
            received buf got (record w { kernel = record st { rest = s } })
      ]

  -- The inner loop, on fuel.
  unfoldable pub client_session : ℕ → World (TcpState S) → Option (World (TcpState S))
  unfolding client_round drop_client
  client_session zero w = none
  client_session (suc fuel) w =
      let ended = some (record w { kernel = drop_client io w.kernel }) in
      let (goes_on, w1) = client_round w in
      let after_break = some (record w1 { kernel = drop_client io w1.kernel }) in
      let later = client_session fuel w1 in
      if not w.kernel.client_connected then ended else if goes_on then later else after_break

  -- The body of the outer loop.
  unfoldable pub server_round : ℕ → ℕ → World (TcpState S) → Option (World (TcpState S))
  unfolding client_session
  server_round fuel server_sock w =
      let st = w.kernel in
      let (accepted, s) = io.accept server_sock st.rest in
      elim accepted [
        | done sock ↦ client_session fuel (record w {
          kernel = record st { client_sock = pos sock; client_connected = true; rest = s };
        })
        | would_block ↦
            some
              (record w { kernel = sleep_ms io 10 (record st { client_sock = no_sock; rest = s }) })
        | failed ↦
            some (record w {
              kernel = sleep_ms io 1000 (record st { client_sock = no_sock; rest = s });
            })
      ]

  -- The body of the loop of the other thread, when the poll returned 0.
  unfoldable pub event_round : ℕ → World (TcpState S) → Option (ℤ × World (TcpState S))
  unfolding weave_process_messages
  event_round fuel w = weave_process_messages k p fuel (some tcp_queue) no_wait w
