-- ===== src/Routing/Stream.antt =====
-- What the client of tcp_server.c receives.
use zephyr_io.Prelude.{
  ℕ, zero, suc, ◌+◌, ◌%◌, ◌^◌, ◌≡◌, ◌≤◌, ◌<◌, ◌∙◌, refl, ap, sym, Option, none, some, List, [],
  ◌++◌, true, false, ℤ, is_neg, arith, length, length-append, lt→ltb, not, ◌||◌, if◌then◌else◌,
}
use mathlib.Core.Path.{subst}
use mathlib.Core.List.{append_assoc, append-nil}
use zephyr_io.World.{Ptr}
use zephyr_io.Routing.Protocol.{BufData}
use zephyr_io.Routing.Commands.{increment}
use zephyr_io.Routing.Server.{done, Sockets, TcpState, count_sent, send_frags, tcp_sink_handler}

-- A chain of buffers: its bytes in order, and how many buffers it has.
pub data Chain {S : Type 0} (bd : BufData (TcpState S)) (st : TcpState S)
    : Option Ptr → List ℕ → ℕ → Type 0 where
  ends : Chain bd st none [] 0
  linked :
      (frag : Ptr) (bytes : List ℕ) (n : ℕ)
      → Chain bd st (bd.frags frag st) bytes n
      → Chain bd st (some frag) (bd.bytes frag st ++ bytes) (suc n)

-- A peer that takes all that is sent: `stream` is what it has received. Sending leaves the buffers
-- alone.
pub record TakesAll {S : Type 0} (io : Sockets S) (bd : BufData (TcpState S)) (stream : S → List ℕ)
    : Type 0 where
  pub whole : (sock : ℤ) (bs : List ℕ) (s : S) → (io.send sock bs s).0 ≡ done (length bs)
  pub arrives : (sock : ℤ) (bs : List ℕ) (s : S) → stream (io.send sock bs s).1 ≡ stream s ++ bs
  pub same_bytes :
      (sock : ℤ) (bs : List ℕ) (st : TcpState S) (f : Ptr)
      → bd.bytes f (record st { rest = (io.send sock bs st.rest).1 }) ≡ bd.bytes f st
  pub same_frags :
      (sock : ℤ) (bs : List ℕ) (st : TcpState S) (f : Ptr)
      → bd.frags f (record st { rest = (io.send sock bs st.rest).1 }) ≡ bd.frags f st

module _ {S : Type 0} {io : Sockets S} {bd : BufData (TcpState S)} {stream : S → List ℕ}
    (t : TakesAll io bd stream) where
  -- The state after a send.
  abbrev sent : ℤ → List ℕ → TcpState S → TcpState S
  sent sock bs st = record st { rest = (io.send sock bs st.rest).1 }

  Chain-stays :
      (sock : ℤ) (bs : List ℕ) (st : TcpState S) (o : Option Ptr) (bytes : List ℕ) (n : ℕ)
      → Chain bd st o bytes n
      → Chain bd (sent sock bs st) o bytes n
  Chain-stays sock bs st _ _ _ ends = ends
  Chain-stays sock bs st _ _ _ (linked frag bytes n c) =
      subst (λ (xs : List ℕ). Chain bd (sent sock bs st) (some frag) (xs ++ bytes) (suc n))
        (t.same_bytes sock bs st frag)
        (linked frag bytes n (
          subst (λ o. Chain bd (sent sock bs st) o bytes n) (sym (t.same_frags sock bs st frag))
            (Chain-stays sock bs st (bd.frags frag st) bytes n c)))

  counts :
      (total : ℕ) (st : TcpState S)
      → 0 < total
      → count_sent io total st ≡ record st {
        packets_sent = increment st.packets_sent;
        bytes_sent = (st.bytes_sent + total) % 2 ^ 32;
      }
  unfolding count_sent
  counts total st h = ap (λ b. if b then counted else st) (lt→ltb 0 total h)
    where
      counted : TcpState S
      counted = record st {
        packets_sent = increment st.packets_sent;
        bytes_sent = (st.bytes_sent + total) % 2 ^ 32;
      }

  -- The state when the whole chain is sent, behind so many bytes before.
  record Streamed (fuel : ℕ) (o : Option Ptr) (total : ℕ) (bytes : List ℕ) (st : TcpState S)
      : Type 0 where
    last : S
    returns :
        send_frags io bd fuel o total st
        ≡ some (count_sent io (total + length bytes) (record st { rest = last }))
    streams : stream last ≡ stream st.rest ++ bytes

  send_frags-Streamed :
      (fuel : ℕ) (total : ℕ) (st : TcpState S) (o : Option Ptr) (bytes : List ℕ) (n : ℕ)
      → Chain bd st o bytes n
      → n ≤ fuel
      → Streamed fuel o total bytes st
  unfolding send_frags
  send_frags-Streamed fuel total st _ _ _ ends le = record {
    last = st.rest;
    returns = ap (λ m. some (count_sent io m st)) (omega arith);
    streams = sym (append-nil (stream st.rest));
  }
  send_frags-Streamed zero total st _ _ _ (linked frag bytes n c) le = absurd (omega arith)
  send_frags-Streamed (suc fuel) total st _ _ _ (linked frag bytes n c) le =
      let bs = bd.bytes frag st in
      let st1 = sent st.client_sock bs st in
      let c1 =
        subst (λ o. Chain bd st1 o bytes n) (sym (t.same_frags st.client_sock bs st frag))
          (Chain-stays st.client_sock bs st (bd.frags frag st) bytes n c) in
      let r =
        send_frags-Streamed fuel (total + length bs) st1 (bd.frags frag st1) bytes n c1
          (omega arith) in
      record {
        last = r.last;
        returns =
            rw (t.whole st.client_sock bs st.rest, send_frags)
              (r.returns
                ∙ ap (λ m. some (count_sent io m (record st { rest = r.last })))
                    (omega (arith, length-append bs bytes)));
        streams =
            r.streams
            ∙ ap (λ xs. xs ++ bytes) (t.arrives st.client_sock bs st.rest)
            ∙ append_assoc (stream st.rest) bs bytes;
      }

  -- While a client is connected that takes all that is sent, the handler of a packet that has bytes
  -- ends once the fuel is as long as the packet's chain of buffers. The client has then received
  -- the bytes of the chain in order, header and payload, behind what it had, and the packet and its
  -- bytes are counted, modulo 2^32.
  pub tcp_sink_handler-streams :
      (fuel buf_ref : ℕ) (bytes : List ℕ) (n : ℕ) (st : TcpState S)
      → st.client_connected ≡ true
      → is_neg st.client_sock ≡ false
      → Chain bd st (some buf_ref) bytes n
      → n ≤ fuel
      → 0 < length bytes
      → (v : TcpState S) × (tcp_sink_handler io bd fuel buf_ref st ≡ some v)
        × (stream v.rest ≡ stream st.rest ++ bytes)
        × (v.packets_sent ≡ increment st.packets_sent)
        × (v.bytes_sent ≡ (st.bytes_sent + length bytes) % 2 ^ 32)
  unfolding tcp_sink_handler
  tcp_sink_handler-streams fuel buf_ref bytes n st connected open_ c le some_bytes =
      let r = send_frags-Streamed fuel 0 st (some buf_ref) bytes n c le in
      let v = record st {
        packets_sent = increment st.packets_sent;
        bytes_sent = (st.bytes_sent + length bytes) % 2 ^ 32;
        rest = r.last;
      } in
      let counted : count_sent io (length bytes) (record st { rest = r.last }) ≡ v =
        counts (length bytes) (record st { rest = r.last }) some_bytes in
      (
        v,
        ap (λ b. if not b || is_neg st.client_sock then some st else handled) connected
            ∙ ap (λ b. if b then some st else handled) open_
            ∙ r.returns
            ∙ ap (λ m. some (count_sent io m (record st { rest = r.last }))) (omega arith)
            ∙ ap some counted,
        r.streams,
        refl,
        refl,
      )
    where
      handled : Option (TcpState S)
      handled = send_frags io bd fuel (some buf_ref) 0 st
