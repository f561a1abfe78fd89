-- ===== src/Udp/Stabilizer/Read/Delivered.antt =====
-- A frame that HandleWrite builds for delivery, and what HandleRead makes of it.
use go_webtools.Base.{
  ℕ, ◌+◌, ◌^◌, ◌%◌, subst, ◌<◌, ◌≡◌, refl, ap, ◌∙◌, Bool, true, false, List, [], ◌∷◌, ◌++◌, reverse,
  Option, some, Bytes, Eq, if◌then◌else◌, length, get_elem?, take, drop, arith, length-append,
  length-reverse, append_assoc,
}
use native.Mathlib.Nat.{mod-eq_of_lt}
use go_webtools.Base.Words.{le_bytes, of_le, length-le_bytes, of_le-le_bytes}
use go_webtools.Base.Decimal.{ℤ, pos}
use go_webtools.Helpers.Width.{Width, get_byte_size, modulus, bytes-modulus}
use go_webtools.Helpers.ReplayWindow.{
  ReplayWindow, join_window_data, parse_generic, join_window_data_bytes, apply_window_check,
}
use go_webtools.Helpers.RttCalculator.{calculate_rtt, get_rto}
use go_webtools.Helpers.PacketHeap.Weights.{get_elem?-set}
use go_webtools.Udp.Stabilizer.{
  ◌>>=◌, ConnectionStabilizerConn, ConnectionStabilizer, resend, Effect, send, after, Outcome, put,
  pass_on, then_do, get_conn, has_window, timestamp, since, stable_data_with_resend_frame,
}
use go_webtools.Udp.Stabilizer.Write.{handle_write, handle_ack_send}
use go_webtools.Udp.Stabilizer.Read.{take_packet, read_resend, read_with_window, handle_read}
use go_webtools.Udp.Stabilizer.Write.Framing.{
  parse_generic-le_bytes, join_window_data_bytes-one, read_timestamp-timestamp, drop_of, not_empty,
}
use go_webtools.Udp.Stabilizer.Write.Sent.{frame_of, get_conn-found, handle_write-resend}

module _ {ℓ} {K : Type ℓ} (c o t : Width) ⦃e : Eq K⦄ where
  -- the same frame, received
  handle_read-resend :
      (now sent : ℕ) (k : K) (edge x number : ℕ) (payload : Bytes) (s : ConnectionStabilizer K)
      (id : ℕ) (conn : ConnectionStabilizerConn)
      → get_conn k s ≡ some (id, conn)
      → 0 < length conn.sended_packets_acks_window.window
      → let rest = timestamp (pos sent) ++ (le_bytes (get_byte_size c) number ++ payload) in
        let joined = record conn {
          sended_packets_acks_window =
              join_window_data c t conn.sended_packets_acks_window
                (of_le (le_bytes (get_byte_size t) x) ∷ [])
                (of_le (le_bytes (get_byte_size c) edge));
        } in
        handle_read c o t now k
          (stable_data_with_resend_frame
            ∷ ((le_bytes (get_byte_size c) edge ++ le_bytes (get_byte_size t) x) ++ rest))
          s
        ≡ read_resend c o t false now k id joined rest (put s id joined)
  unfolding handle_read has_window read_with_window
  handle_read-resend now sent k edge x number payload s id conn known h =
      let E = le_bytes (get_byte_size c) edge in
      let X = le_bytes (get_byte_size t) x in
      let rest = timestamp (pos sent) ++ (le_bytes (get_byte_size c) number ++ payload) in
      let framed = (E ++ X) ++ rest in
      let go_on : ℕ → ConnectionStabilizerConn → Option (ReplayWindow × ℕ) → Outcome K = λ i q r.
        r >>= λ j.
        read_resend c o t false now k i (record q { sended_packets_acks_window = j.0 })
          (drop j.1 framed) (put s i (record q { sended_packets_acks_window = j.0 })) in
      let joined = join_window_data c t conn.sended_packets_acks_window (of_le X ∷ []) (of_le E) in
      let behind : drop (get_byte_size c + get_byte_size t) framed ≡ rest =
        drop_of (get_byte_size c + get_byte_size t) (E ++ X) rest (
          omega (
            arith,
            length-append E X,
            length-le_bytes (get_byte_size c) edge,
            length-le_bytes (get_byte_size t) x,
          )) in
      ap
        (λ r. r >>= λ p.
          go_on p.0 p.1 (join_window_data_bytes c t p.1.sended_packets_acks_window framed 1))
        known
      ∙ ap (go_on id conn) (
          ap (λ b. join_window_data_bytes c t conn.sended_packets_acks_window b 1)
            (append_assoc E X rest)
          ∙ join_window_data_bytes-one c t conn.sended_packets_acks_window edge x rest h)
      ∙ ap
          (λ b.
            read_resend c o t false now k id (record conn { sended_packets_acks_window = joined }) b
              (put s id (record conn { sended_packets_acks_window = joined })))
          behind

  -- the frame behind its window: the data is passed on if its number is accepted
  record Received (now : ℕ) (k : K) (id number : ℕ) (payload : Bytes)
      (conn : ConnectionStabilizerConn) (s : ConnectionStabilizer K) (q : Outcome K) : Type ℓ where
    left : ConnectionStabilizer K
    peer : ConnectionStabilizerConn
    outcome :
        q
        ≡ then_do
            (if (apply_window_check c t conn.incoming_packets_window number).1
              then pass_on s id ((number, payload) ∷ [])
              else [])
            (handle_ack_send c o t now k id number true left)
    stored : get_elem? left.store id ≡ some peer
    checked :
        peer.incoming_packets_window
        ≡ (apply_window_check c t conn.incoming_packets_window number).0

  one_state :
      (b : Bool) (left : ConnectionStabilizer K) (out : List (Effect K))
      (f : ConnectionStabilizer K → Outcome K)
      → let taken : ConnectionStabilizer K × List (Effect K) =
          if b then (left, out) else (left, []) in
        then_do taken.1 (f taken.0) ≡ then_do (if b then out else []) (f left)
  one_state true left out f = refl
  one_state false left out f = refl

  take_packet-Received :
      (now : ℕ) (k : K) (number : ℕ) (payload : Bytes) (s : ConnectionStabilizer K) (id : ℕ)
      (conn before : ConnectionStabilizerConn) (delta : ℤ)
      → get_elem? s.store id ≡ some before
      → Received now k id number payload conn s
          (take_packet c o t false now k id conn delta number 0 payload s)
  unfolding take_packet
  take_packet-Received now k number payload s id conn before delta found =
      let checked = apply_window_check c t conn.incoming_packets_window number in
      let taken = record conn {
        incoming_latency_rtt_calculator = calculate_rtt conn.incoming_latency_rtt_calculator delta;
        incoming_packets_window = checked.0;
      } in
      record {
        left = put s id taken;
        peer = taken;
        outcome =
            one_state checked.1 (put s id taken) (pass_on s id ((number, payload) ∷ []))
              (λ q. handle_ack_send c o t now k id number true q);
        stored = get_elem?-set s.store id taken before found;
        checked = refl;
      }

  read_resend-Received :
      (now sent : ℕ) (k : K) (number : ℕ) (payload : Bytes) (s : ConnectionStabilizer K) (id : ℕ)
      (conn before : ConnectionStabilizerConn)
      → number < 256 ^ get_byte_size c
      → get_elem? s.store id ≡ some before
      → Received now k id number payload conn s (
          read_resend c o t false now k id conn
            (timestamp (pos sent) ++ (le_bytes (get_byte_size c) number ++ payload))
            s)
  unfolding read_resend
  read_resend-Received now sent k number payload s id conn before small found =
      let bytes = le_bytes (get_byte_size c) number in
      let stamp = timestamp (pos sent) in
      let delta = since now (of_le (take 8 (stamp ++ (bytes ++ payload)))) in
      let finish : ℤ → Option (ℕ × Bytes) → Outcome K =
        λ d r. r >>= λ p. take_packet c o t false now k id conn d p.0 0 p.1 s in
      let same : of_le bytes ≡ number = of_le-le_bytes (get_byte_size c) number small in
      let rest = take_packet-Received now k number payload s id conn before delta found in
      record {
        left = rest.left;
        peer = rest.peer;
        outcome =
            ap (λ r. r >>= λ p. finish p.0 (parse_generic c t c p.1))
              (read_timestamp-timestamp now sent (bytes ++ payload))
            ∙ ap (finish delta) (parse_generic-le_bytes c t c number payload)
            ∙ ap (λ n. take_packet c o t false now k id conn delta n 0 payload s) same
            ∙ rest.outcome;
        stored = rest.stored;
        checked = rest.checked;
      }

  -- Data that HandleWrite sends for delivery, over windows that take 12 bytes together: the call
  -- sends one frame and sets a timer of the timeout for the same frame under its number, of its first
  -- try and with a limit of tries. HandleRead, wherever the frame arrives,
  -- gives the data to the read function exactly when the window there accepts the number of the
  -- frame, enters the number into that window, and goes on to acknowledge it. The connections are
  -- known on both sides, their windows have a word, and the number fits its type.
  pub handle_read-handle_write :
      (now later : ℕ) (k j : K) (payload : Bytes) (s r : ConnectionStabilizer K) (id jd : ℕ)
      (conn peer : ConnectionStabilizerConn)
      → get_byte_size c + get_byte_size t ≡ 12
      → get_conn k s ≡ some (id, conn)
      → get_conn j r ≡ some (jd, peer)
      → 0 < length conn.incoming_packets_window.window
      → 0 < length peer.sended_packets_acks_window.window
      → conn.send_packet_resend_number < 256 ^ get_byte_size c
      → let number = conn.send_packet_resend_number in
        let checked = apply_window_check c t peer.incoming_packets_window number in
        (frame : Bytes) × (s' : ConnectionStabilizer K) × (left : ConnectionStabilizer K)
        × (peer' : ConnectionStabilizerConn) × (handle_write c o t now k
              stable_data_with_resend_frame payload s
            ≡ some (
              s',
              send k frame
                  ∷ after (get_rto conn.rtt_calculator) (resend k id number frame false 0)
                  ∷ [],
            ))
        × (handle_read c o t later j frame r
            ≡ then_do
                (if checked.1 then pass_on r jd ((number, payload) ∷ []) else [])
                (handle_ack_send c o t later j jd number true left))
        × (get_elem? left.store jd ≡ some peer')
        × (peer'.incoming_packets_window ≡ checked.0)
  unfolding pass_on
  handle_read-handle_write now later k j payload s r id jd conn peer wide known_k known_j words
        words' small =
      let w = conn.incoming_packets_window in
      let (x, xs, newest) =
        not_empty (reverse w.window) (omega (arith, words, length-reverse w.window)) in
      let number = conn.send_packet_resend_number in
      let (s', written) =
        handle_write-resend c o t now k payload s id conn x xs wide known_k newest in
      let in_type : number % modulus c ≡ number =
        mod-eq_of_lt (subst (λ m. number < m) (bytes-modulus c) small) in
      let joined = record peer {
        sended_packets_acks_window =
            join_window_data c t peer.sended_packets_acks_window
              (of_le (le_bytes (get_byte_size t) x) ∷ [])
              (of_le (le_bytes (get_byte_size c) w.right_edge));
      } in
      let received =
        read_resend-Received later now j number payload (put r jd joined) jd joined joined small
          (get_elem?-set r.store jd joined peer (get_conn-found c o t j r jd peer known_j)) in
      (
        frame_of c t now conn x payload,
        s',
        received.left,
        received.peer,
        written
            ∙ ap
                (λ n. some (
                  s',
                  send k (frame_of c t now conn x payload)
                      ∷ after (get_rto conn.rtt_calculator)
                          (resend k id n (frame_of c t now conn x payload) false 0)
                      ∷ [],
                ))
                in_type,
        handle_read-resend later now j w.right_edge x number payload r jd peer known_j words'
            ∙ received.outcome,
        received.stored,
        received.checked,
      )
