-- ===== src/Udp/Stabilizer/Read.antt =====
-- udp/UDPConnectionStabilizer.go: the calls that receive, and the connections that go. The types are
-- those of Write.
pub mod Delivered
pub mod Unknown
use go_webtools.Base.{
  ℕ, zero, suc, ◌+◌, ◌-◌, ◌*◌, ◌/◌, ◌%◌, ◌^◌, Bool, true, false, not, ◌&&◌, ◌||◌, List, [], ◌∷◌,
  ◌++◌, Option, none, some, Bytes, Eq, ltb, leb, ◌==◌, if◌then◌else◌, length, get_elem?, take, drop,
}
use go_webtools.Base.Decimal.{ℤ, pos, negsuc}
use go_webtools.Helpers.Width.{Width}
use go_webtools.Helpers.SafeMap.{lookup, delete, range_with_empty, get_keys}
use go_webtools.Helpers.SafeMap as SafeMap
use go_webtools.Helpers.ReplayWindow.{apply_window_check, join_window_data_bytes, parse_generic}
use go_webtools.Helpers.PacketOrderer.{
  Packet, PacketOrderer, push_packet, push_with_option, dump, dump_all, allow_none,
}
use go_webtools.Helpers.RttCalculator.{calculate_rtt, get_rto}
use go_webtools.Udp.Stabilizer.{
  ◌>>=◌, ConnectionStabilizerSettings, ConnectionStabilizerConn, new_connection_stabilizer_conn,
  ConnectionStabilizer, Timer, dump_order, send_ack, resend, ping, Effect, read, close, after,
  Outcome, unchanged, then_do, put, pass_on, get_conn, has_window, read_timestamp,
  stable_ping_frame, stable_pong_frame, stable_data_recieved_frame, stable_data_frame,
  stable_data_with_resend_frame, stable_data_with_order_instant_frame,
  stable_data_with_order_timeout_frame, stable_data_with_order_resend_frame,
  stable_disconnect_frame,
}
use go_webtools.Udp.Stabilizer.Write.{no_limit, fire_resend, handle_write, handle_ack_send}

module _ {ℓ} {K : Type ℓ} (c o t : Width) where
  -- the private cleanupConnection: both orderers give out what they hold
  unfoldable pub dump_conn : ConnectionStabilizer K → ℕ → ConnectionStabilizer K × List (Effect K)
  unfolding pass_on dump_all
  dump_conn s id = elim (get_elem? s.store id) [
    | none ↦ (s, [])
    | some conn ↦
        let simple = dump_all o conn.orderer_simple in
        let precise = dump_all o conn.orderer_precise in
        (
          put s id (record conn { orderer_simple = simple.0; orderer_precise = precise.0 }),
          pass_on s id simple.1 ++ pass_on s id precise.1,
        )
  ]

  -- a frame of the first kind of order, given to the orderer that the connection has for it
  unfoldable pub read_simple :
      Bool → (id : ℕ) → ConnectionStabilizerConn → Bytes → ConnectionStabilizer K → Outcome K
  unfolding push_packet push_with_option pass_on
  read_simple wait id conn payload s = do
    (order_num, rest) ← parse_generic c t o payload
    let pushed =
        if wait
        then push_with_option o order_num rest allow_none conn.orderer_simple
        else push_packet o order_num rest conn.orderer_simple
    some (
      put s id (record conn { orderer_simple = pushed.0 }),
      pass_on s id pushed.1
          ++ (if wait
              then after (pos s.settings.order_delay) (dump_order id order_num) ∷ []
              else []),
    )

  module _ ⦃e : Eq K⦄ where
    unfoldable pub cleanup_connection :
        K → ConnectionStabilizer K → ConnectionStabilizer K × List (Effect K)
    unfolding dump_conn lookup delete
    cleanup_connection k s = elim (lookup k s.conns) [
      | none ↦ (s, [])
      | some id ↦
          let dumped = dump_conn s id in
          let left = dumped.0 in (record left { conns = delete k left.conns }, dumped.1)
    ]

    -- CleanupConnections, whose loop removes every entry
    unfoldable pub cleanup_connections :
        ConnectionStabilizer K → ConnectionStabilizer K × List (Effect K)
    unfolding dump_conn range_with_empty
    cleanup_connections s =
        let visit : K
            → ℕ
            → ConnectionStabilizer K × List (Effect K)
            → (ConnectionStabilizer K × List (Effect K)) × Bool =
          λ k id acc. let dumped = dump_conn acc.0 id in ((dumped.0, acc.1 ++ dumped.1), false) in
        let done = range_with_empty visit (s, []) s.conns in
        let left = done.0.0 in (record left { conns = done.1 }, done.0.1)

    unfoldable pub read_ping : ℕ → K → Bytes → ConnectionStabilizer K → Outcome K
    unfolding handle_write
    read_ping now k payload s =
        if length payload == 8
        then handle_write c o t now k stable_pong_frame payload s
        else unchanged s

    unfoldable pub read_pong :
        ℕ → (id : ℕ) → ConnectionStabilizerConn → Bytes → ConnectionStabilizer K → Outcome K
    unfolding read_timestamp calculate_rtt
    read_pong now id conn payload s =
        let missing =
          if no_limit s.settings.keep_alive_tries_before_error
          then conn.missing_ping_packets
          else 0 in
        if not (length payload == 8)
        then unchanged s
        else (read_timestamp now payload >>= λ stamped. some (
          put s id (record conn {
            rtt_calculator = calculate_rtt conn.rtt_calculator stamped.0;
            missing_ping_packets = missing;
          }),
          [],
        ))

    -- an ACK: the window of the other side joins that of the sent packets
    unfoldable pub read_ack : ℕ → K → Bytes → ConnectionStabilizer K → Outcome K
    unfolding read_timestamp calculate_rtt join_window_data_bytes get_conn
    read_ack now k payload s = do
      (delta, rest) ← read_timestamp now payload
      elim (get_conn k s) [
        | none ↦ unchanged s
        | some (id, conn) ↦ do
          (joined, n) ← join_window_data_bytes c t conn.sended_packets_acks_window rest 0
          some (
            put s id (record conn {
              rtt_calculator = calculate_rtt conn.rtt_calculator delta;
              sended_packets_acks_window = joined;
            }),
            [],
          )
      ]

    -- the two kinds with delivery, behind what they carry: `in_order` tells which it is
    unfoldable pub take_packet :
        Bool
        → ℕ
        → K
        → (id : ℕ) → ConnectionStabilizerConn
        → ℤ
        → (seq_num order_num : ℕ) → Bytes
        → ConnectionStabilizer K
        → Outcome K
    unfolding calculate_rtt apply_window_check push_packet pass_on handle_ack_send
    take_packet in_order now k id conn₀ delta seq_num order_num packet s =
        let checked = apply_window_check c t conn₀.incoming_packets_window seq_num in
        let conn = record conn₀ {
          incoming_latency_rtt_calculator =
              calculate_rtt conn₀.incoming_latency_rtt_calculator delta;
          incoming_packets_window = checked.0;
        } in
        let pushed = push_packet o order_num packet conn.orderer_precise in
        let accepted : ConnectionStabilizer K × List (Effect K) =
          if in_order
          then (put s id (record conn { orderer_precise = pushed.0 }), pass_on s id pushed.1)
          else (put s id conn, pass_on s id ((seq_num, packet) ∷ [])) in
        let taken : ConnectionStabilizer K × List (Effect K) =
          if checked.1 then accepted else (put s id conn, []) in
        then_do taken.1 (handle_ack_send c o t now k id seq_num true taken.0)

    unfoldable pub read_resend :
        Bool
        → ℕ
        → K
        → (id : ℕ) → ConnectionStabilizerConn
        → Bytes
        → ConnectionStabilizer K
        → Outcome K
    unfolding read_timestamp take_packet
    read_resend in_order now k id conn payload s = do
      (delta, rest) ← read_timestamp now payload
      (seq_num, rest') ← parse_generic c t c rest
      (order_num, packet) ← if in_order then parse_generic c t o rest' else some (0, rest')
      take_packet in_order now k id conn delta seq_num order_num packet s

    unfoldable pub read_disconnect : K → ConnectionStabilizer K → Outcome K
    unfolding cleanup_connection
    read_disconnect k s =
        let cleaned = cleanup_connection k s in some (cleaned.0, cleaned.1 ++ (close k ∷ []))

    -- the switch of HandleRead for the frames with a window, behind the window
    unfoldable pub read_with_window :
        ℕ → K → ℕ → Bytes → (id : ℕ) → ConnectionStabilizerConn → ConnectionStabilizer K → Outcome K
    unfolding read_ping read_pong read_resend read_disconnect
    read_with_window now k frame_type payload id conn s =
        if frame_type == stable_ping_frame
        then read_ping now k payload s
        else (if frame_type == stable_pong_frame
            then read_pong now id conn payload s
            else (if frame_type == stable_data_with_resend_frame
                then read_resend false now k id conn payload s
                else (if frame_type == stable_data_with_order_resend_frame
                    then read_resend true now k id conn payload s
                    else (if frame_type == stable_disconnect_frame
                        then read_disconnect k s
                        else unchanged s))))

    unfoldable pub read_without_window : ℕ → K → ℕ → Bytes → ConnectionStabilizer K → Outcome K
    unfolding get_conn read_ack read_simple
    read_without_window now k frame_type payload s =
        if frame_type == stable_data_recieved_frame
        then read_ack now k payload s
        else elim (get_conn k s) [
          | none ↦ unchanged s
          | some (id, conn) ↦
              if frame_type == stable_data_frame
              then some (s, if s.has_read_func then read id payload ∷ [] else [])
              else read_simple (frame_type == stable_data_with_order_timeout_frame) id conn payload
                  s
        ]

    -- HandleRead: a frame with a window from an unknown connection dereferences nil
    unfoldable pub handle_read : ℕ → K → Bytes → ConnectionStabilizer K → Outcome K
    unfolding has_window get_conn join_window_data_bytes read_with_window read_without_window
    handle_read now k [] s = unchanged s
    handle_read now k (frame_type ∷ framed) s =
        if has_window frame_type
        then (do
          (id, conn₀) ← get_conn k s
          (joined, n) ← join_window_data_bytes c t conn₀.sended_packets_acks_window framed 1
          let conn = record conn₀ { sended_packets_acks_window = joined }
          read_with_window now k frame_type (drop n framed) id conn (put s id conn))
        else read_without_window now k frame_type framed s
