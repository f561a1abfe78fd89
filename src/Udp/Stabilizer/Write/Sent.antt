-- ===== src/Udp/Stabilizer/Write/Sent.antt =====
-- The frame that HandleWrite sends of data that is to be delivered.
use go_webtools.Base.{
  ℕ, ◌+◌, ◌-◌, ◌%◌, ◌^◌, ◌≡◌, refl, ap, subst, ◌∙◌, Bool, true, false, List, [], ◌∷◌, ◌++◌, reverse,
  Option, none, some, Bytes, Eq, if◌then◌else◌, length, get_elem?, set, arith, length-append,
}
use go_webtools.Base.Words.{le_bytes, length-le_bytes}
use go_webtools.Base.Decimal.{pos}
use go_webtools.Helpers.Width.{Width, get_byte_size, modulus}
use go_webtools.Helpers.RttCalculator.{get_rto}
use go_webtools.Helpers.PacketHeap.Weights.{get_elem?-set}
use go_webtools.Helpers.SafeMap.{lookup}
use go_webtools.Udp.Stabilizer.{
  ◌>>=◌, ConnectionStabilizerSettings, ConnectionStabilizerConn, ConnectionStabilizer, resend, send,
  after, Outcome, unchanged, put, get_conn, has_window, timestamp, stable_data_with_resend_frame,
}
use go_webtools.Udp.Stabilizer.Write.{
  widen, put_timestamp, may_send, resend_write, write_resend, write_with_window, handle_write,
}
use go_webtools.Udp.Stabilizer.Write.Framing.{
  get_window_data_bytes-one, widen_lem, put_timestamp_lem,
}

may_send-first :
    (settings : ConnectionStabilizerSettings) (infinite_send : Bool)
    → may_send settings infinite_send 0 ≡ true
unfolding may_send
may_send-first settings infinite_send = ground arith

-- what HandleWrite sends of data that is to be delivered: the frame
abbrev pub frame_of : (c t : Width) → ℕ → ConnectionStabilizerConn → ℕ → Bytes → Bytes
frame_of c t now conn x payload =
    (stable_data_with_resend_frame
      ∷ (le_bytes (get_byte_size c) conn.incoming_packets_window.right_edge
          ++ le_bytes (get_byte_size t) x))
    ++ (timestamp (pos now)
        ++ (le_bytes (get_byte_size c) conn.send_packet_resend_number ++ payload))

abbrev pub placed : ℕ → Option ConnectionStabilizerConn → Option (ℕ × ConnectionStabilizerConn)
placed i q = elim q [ none ↦ none | some r ↦ some (i, r) ]

module _ {ℓ} {K : Type ℓ} (c o t : Width) where
  resend_write-first :
      (now : ℕ) (k : K) (id seq : ℕ) (p rest : Bytes) (infinite_send : Bool)
      (s : ConnectionStabilizer K) (conn : ConnectionStabilizerConn)
      → get_elem? s.store id ≡ some conn
      → length p ≡ 13
      → let frame = p ++ (timestamp (pos now) ++ rest) in
        resend_write c o t now k id seq (p ++ rest) infinite_send 0 s
        ≡ some (
          s,
          send k frame
              ∷ after (get_rto conn.rtt_calculator) (resend k id seq frame infinite_send 0)
              ∷ [],
        )
  unfolding resend_write
  resend_write-first now k id seq p rest infinite_send s conn found e =
      let frame = p ++ (timestamp (pos now) ++ rest) in
      let sent : ConnectionStabilizerConn → Bytes → Outcome K = λ q b.
        some (
          s,
          send k b ∷ after (get_rto q.rtt_calculator) (resend k id seq b infinite_send 0) ∷ [],
        ) in
      let stamp : ConnectionStabilizerConn → Option Bytes → Outcome K = λ q r. r >>= λ b.
      put_timestamp now b >>= λ b'.
      if may_send s.settings infinite_send 0 then sent q b' else unchanged s in
      ap (λ r. r >>= λ q. stamp q (widen (p ++ rest))) found
      ∙ ap (stamp conn) (widen_lem p rest e)
      ∙ ap
          (λ r. r >>= λ b. if may_send s.settings infinite_send 0 then sent conn b else unchanged s)
          (put_timestamp_lem now p rest e)
      ∙ ap (λ m. if m then sent conn frame else unchanged s)
          (may_send-first s.settings infinite_send)

  module _ ⦃e : Eq K⦄ where
    pub get_conn-found :
        (k : K) (s : ConnectionStabilizer K) (id : ℕ) (conn : ConnectionStabilizerConn)
        → get_conn k s ≡ some (id, conn)
        → get_elem? s.store id ≡ some conn
    unfolding get_conn
    get_conn-found k s id conn = by_place (lookup k s.conns)
      where
        by_conn :
            (i : ℕ) (q : Option ConnectionStabilizerConn)
            → get_elem? s.store i ≡ q
            → placed i q ≡ some (id, conn)
            → get_elem? s.store id ≡ some conn
        by_conn i none at h = cc
        by_conn i (some r) at h =
            let place : i ≡ id = ap (λ p. elim p [ none ↦ i | some q ↦ q.0 ]) h in
            let same : r ≡ conn = ap (λ p. elim p [ none ↦ r | some q ↦ q.1 ]) h in
            subst (λ n. get_elem? s.store n ≡ some conn) place (at ∙ ap some same)

        by_place :
            (r : Option ℕ)
            → elim r [ none ↦ none | some i ↦ placed i (get_elem? s.store i) ] ≡ some (id, conn)
            → get_elem? s.store id ≡ some conn
        by_place none h = cc
        by_place (some i) h = by_conn i (get_elem? s.store i) refl h

    pub handle_write-resend :
        (now : ℕ) (k : K) (payload : Bytes) (s : ConnectionStabilizer K) (id : ℕ)
        (conn : ConnectionStabilizerConn) (x : ℕ) (xs : List ℕ)
        → get_byte_size c + get_byte_size t ≡ 12
        → get_conn k s ≡ some (id, conn)
        → reverse conn.incoming_packets_window.window ≡ x ∷ xs
        → (s' : ConnectionStabilizer K) × (handle_write c o t now k stable_data_with_resend_frame
              payload s
            ≡ some (
              s',
              send k (frame_of c t now conn x payload)
                  ∷ after (get_rto conn.rtt_calculator) (
                      resend k id
                        (conn.send_packet_resend_number % modulus c)
                        (frame_of c t now conn x payload)
                        false
                        0)
                  ∷ [],
            ))
    unfolding handle_write has_window write_with_window write_resend
    handle_write-resend now k payload s id conn x xs wide known newest =
        let w = conn.incoming_packets_window in
        let number = conn.send_packet_resend_number in
        let times = set conn.last_ack_timestamps (length conn.last_ack_timestamps - 1) now in
        let stamped = record conn { last_ack_timestamps = times } in
        let counted = record stamped { send_packet_resend_number = (number + 1) % 2 ^ 64 } in
        let s₁ = put s id stamped in
        let s₂ = put s₁ id counted in
        let rest = le_bytes (get_byte_size c) number ++ payload in
        let edge = le_bytes (get_byte_size c) w.right_edge in
        let word = le_bytes (get_byte_size t) x in
        let found =
          get_elem?-set (set s.store id stamped) id counted stamped
            (get_elem?-set s.store id stamped conn (get_conn-found k s id conn known)) in
        let size : length (stable_data_with_resend_frame ∷ (edge ++ word)) ≡ 13 = omega (
          arith,
          wide,
          length-append edge word,
          length-le_bytes (get_byte_size c) w.right_edge,
          length-le_bytes (get_byte_size t) x,
        ) in
        (
          s₂,
          rw known (
              ap
                (λ b.
                  resend_write c o t now k id (number % modulus c)
                    ((stable_data_with_resend_frame ∷ b) ++ rest) false 0 s₂)
                (get_window_data_bytes-one c t w x xs newest)
              ∙ resend_write-first now k id (number % modulus c)
                  (stable_data_with_resend_frame ∷ (edge ++ word)) rest false s₂ counted found
                  size),
        )
