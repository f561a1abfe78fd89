-- ===== src/Udp/Stabilizer/Write.antt =====
-- udp/UDPConnectionStabilizer.go: the calls that send. The sequence numbers are of type `c`, the
-- order numbers of type `o` and the words of the windows of type `t`.
pub mod Acks
pub mod Framing
pub mod Resending
pub mod Sent
use Prim.Native.Nat.{bit_and}
use go_webtools.Base.{
  ℕ, zero, suc, ◌+◌, ◌-◌, ◌*◌, ◌/◌, ◌%◌, ◌^◌, min, Bool, true, false, not, ◌&&◌, ◌||◌, List, [],
  ◌∷◌, ◌++◌, Option, none, some, Bytes, Eq, ltb, leb, ◌==◌, if◌then◌else◌, length, get_elem?, set,
  take, drop, replicate,
}
use go_webtools.Base.Decimal.{ℤ, pos, negsuc}
use go_webtools.Base.Words.{le_bytes}
use go_webtools.Helpers.Width.{Width, get_byte_size, get_bit_shift_size, modulus}
use go_webtools.Helpers.ReplayWindow.{sub, get_window_bit_size, get_window_data_bytes, check_value}
use go_webtools.Helpers.RttCalculator.{sub_int, get_rtt, get_rto}
use go_webtools.Udp.Stabilizer.{
  ◌>>=◌, ConnectionStabilizerSettings, ConnectionStabilizerConn, ConnectionStabilizer, Timer,
  resend, send_ack, Effect, send, close, after, Outcome, unchanged, put, get_conn, has_window,
  timestamp, stable_ping_frame, stable_pong_frame, stable_data_recieved_frame, stable_data_frame,
  stable_data_with_resend_frame, stable_data_with_order_instant_frame,
  stable_data_with_order_timeout_frame, stable_data_with_order_resend_frame,
  stable_disconnect_frame,
}

-- `KeepAliveTriesBeforeError == -1`
abbrev pub no_limit : ℤ → Bool
no_limit (negsuc zero) = true
no_limit _ = false

-- the conversion of an int32 to uint32
abbrev pub to_uint32 : ℤ → ℕ
to_uint32 (pos n) = n % 2 ^ 32
to_uint32 (negsuc n) = (2 ^ 32 - (n + 1)) % 2 ^ 32

-- the timestamps of the last `n` words, all set; an index below 0 wraps to one out of range
unfoldable pub store_acks : ℕ → ℕ → List ℕ → Option (List ℕ)
store_acks zero now times = some times
store_acks (suc n) now times = elim (store_acks n now times) [
  | none ↦ none
  | some done ↦ if ltb n (length done) then some (set done (length done - 1 - n) now) else none
]

-- the first 13 bytes, 8 bytes for the timestamp, and the rest
unfoldable pub widen : Bytes → Option Bytes
widen buffer =
    if ltb (length buffer) 13
    then none
    else some (take 13 buffer ++ (replicate 8 0 ++ drop 13 buffer))

-- PutUint64 on the bytes from 13 to 21
unfoldable pub put_timestamp : ℕ → Bytes → Option Bytes
unfolding timestamp
put_timestamp now buffer =
    if ltb (length buffer) 21
    then none
    else some (take 13 buffer ++ (timestamp (pos now) ++ drop 21 buffer))

-- `try <= min(ResendRetries, 254)`, unless there is no limit
unfoldable pub may_send : ConnectionStabilizerSettings → Bool → ℕ → Bool
may_send settings infinite_send try =
    settings.resend_retries == 0 || infinite_send || leb try (min settings.resend_retries 254)

-- `try + 1` in uint8, where 255 starts again at 1
unfoldable pub next_try : ℕ → ℕ
next_try try = let t = if (try + 1) % 2 ^ 8 == 0 then 0 else try in (t + 1) % 2 ^ 8

-- the word of a number in the window, counted from the newest
unfoldable pub ack_word_index : (c t : Width) → ConnectionStabilizerConn → ℕ → ℕ
unfolding get_window_bit_size
ack_word_index c t conn seq_num =
    let w = conn.incoming_packets_window in
    bit_and (sub c w.right_edge seq_num) (sub c (get_window_bit_size c t w) 1)
    / 2 ^ get_bit_shift_size t
    % 2 ^ 8

module _ {ℓ} {K : Type ℓ} (c o t : Width) where
  -- the sConn of resendWrite is never nil: its callers have read its fields
  unfoldable pub resend_write :
      ℕ → K → (conn sequence_number : ℕ) → Bytes → Bool → ℕ → ConnectionStabilizer K → Outcome K
  unfolding widen put_timestamp may_send get_rto
  resend_write now k id sequence_number buffer infinite_send try s = do
    conn ← get_elem? s.store id
    widened ← if try == 0 then widen buffer else some buffer
    stamped ← put_timestamp now widened
    if may_send s.settings infinite_send try
        then some (
          s,
          send k stamped
              ∷ after (get_rto conn.rtt_calculator)
                  (resend k id sequence_number stamped infinite_send try)
              ∷ [],
        )
        else unchanged s

  -- the timer of resendWrite
  unfoldable pub fire_resend :
      ℕ → K → (conn sequence_number : ℕ) → Bytes → Bool → ℕ → ConnectionStabilizer K → Outcome K
  unfolding resend_write check_value next_try
  fire_resend now k id sequence_number buffer infinite_send try s = do
    conn ← get_elem? s.store id
    let again = resend_write now k id sequence_number buffer infinite_send (next_try try) s
    if check_value c t conn.sended_packets_acks_window sequence_number then unchanged s else again

  -- the frames by their type, behind the window; `buffer` is what HandleWrite has so far
  unfoldable pub write_ping :
      ℕ → K → (id : ℕ) → ConnectionStabilizerConn → Bytes → ConnectionStabilizer K → Outcome K
  unfolding timestamp
  write_ping now k id conn buffer s =
      let tries = s.settings.keep_alive_tries_before_error in
      let counted =
        if no_limit tries
        then conn
        else record conn { missing_ping_packets = (conn.missing_ping_packets + 1) % 2 ^ 32 } in
      if no_limit tries || ltb conn.missing_ping_packets (to_uint32 tries)
      then some (put s id counted, send k (buffer ++ timestamp (pos now)) ∷ [])
      else some (s, close k ∷ [])

  unfoldable pub write_ack :
      ℕ
      → K
      → (id : ℕ) → ConnectionStabilizerConn
      → Bytes
      → Bytes
      → ConnectionStabilizer K
      → Outcome K
  unfolding store_acks timestamp get_rtt get_window_data_bytes
  write_ack now k id conn buffer payload s = do
    count ← get_elem? payload 0
    times ← store_acks count now conn.last_ack_timestamps
    let sent = timestamp (sub_int (pos now) (get_rtt conn.incoming_latency_rtt_calculator))
    some (
      put s id (record conn { last_ack_timestamps = times }),
      send k (buffer ++ (sent ++ get_window_data_bytes c t conn.incoming_packets_window count true))
          ∷ [],
    )

  unfoldable pub write_resend :
      ℕ
      → K
      → (id : ℕ) → ConnectionStabilizerConn
      → Bytes
      → Bytes
      → ConnectionStabilizer K
      → Outcome K
  unfolding resend_write le_bytes
  write_resend now k id conn buffer payload s =
      let number = conn.send_packet_resend_number in
      let counted = put s id (record conn { send_packet_resend_number = (number + 1) % 2 ^ 64 }) in
      resend_write now k id (number % modulus c)
        (buffer ++ (le_bytes (get_byte_size c) number ++ payload)) false 0 counted

  unfoldable pub write_ordered :
      K → (id : ℕ) → ConnectionStabilizerConn → Bytes → Bytes → ConnectionStabilizer K → Outcome K
  unfolding le_bytes
  write_ordered k id conn buffer payload s =
      let number = conn.send_packet_order_number_simple in
      some (
        put s id (record conn { send_packet_order_number_simple = (number + 1) % modulus o }),
        send k (buffer ++ (le_bytes (get_byte_size o) number ++ payload)) ∷ [],
      )

  unfoldable pub write_ordered_resend :
      ℕ
      → K
      → (id : ℕ) → ConnectionStabilizerConn
      → Bytes
      → Bytes
      → ConnectionStabilizer K
      → Outcome K
  unfolding resend_write le_bytes
  write_ordered_resend now k id conn buffer payload s =
      let number = conn.send_packet_resend_number in
      let order = conn.send_packet_order_number_precise in
      let counted = put s id (record conn {
        send_packet_order_number_precise = (order + 1) % modulus o;
        send_packet_resend_number = (number + 1) % 2 ^ 64;
      }) in
      resend_write now k id (number % modulus c)
        (buffer
          ++ (le_bytes (get_byte_size c) number ++ (le_bytes (get_byte_size o) order ++ payload)))
        true 0 counted

  module _ ⦃e : Eq K⦄ where
    -- the switch of HandleWrite for the frames with a window, behind the window
    unfoldable pub write_with_window :
        ℕ
        → K
        → ℕ
        → Bytes
        → (id : ℕ) → ConnectionStabilizerConn
        → Bytes
        → ConnectionStabilizer K
        → Outcome K
    unfolding write_ping write_resend write_ordered_resend
    write_with_window now k frame_type payload id conn buffer s =
        if frame_type == stable_ping_frame
        then write_ping now k id conn buffer s
        else (if frame_type == stable_pong_frame
            then some (s, send k (buffer ++ payload) ∷ [])
            else (if frame_type == stable_data_with_resend_frame
                then write_resend now k id conn buffer payload s
                else (if frame_type == stable_data_with_order_resend_frame
                    then write_ordered_resend now k id conn buffer payload s
                    else (if frame_type == stable_disconnect_frame
                        then some (s, send k buffer ∷ [])
                        else unchanged s))))

    -- and for the others
    unfoldable pub write_without_window : ℕ → K → ℕ → Bytes → ConnectionStabilizer K → Outcome K
    unfolding get_conn write_ack write_ordered
    write_without_window now k frame_type payload s =
        if frame_type == stable_data_frame
        then some (s, send k (frame_type ∷ payload) ∷ [])
        else elim (get_conn k s) [
          | none ↦ if frame_type == stable_data_recieved_frame then none else unchanged s
          | some (id, conn) ↦
              if frame_type == stable_data_recieved_frame
              then write_ack now k id conn (frame_type ∷ []) payload s
              else write_ordered k id conn (frame_type ∷ []) payload s
        ]

    unfoldable pub handle_write : ℕ → K → ℕ → Bytes → ConnectionStabilizer K → Outcome K
    unfolding has_window get_conn get_window_data_bytes write_with_window write_without_window
    handle_write now k frame_type payload s =
        if has_window frame_type
        then elim (get_conn k s) [
          | none ↦ unchanged s
          | some (id, conn) ↦
              let times = set conn.last_ack_timestamps (length conn.last_ack_timestamps - 1) now in
              let stamped = record conn { last_ack_timestamps = times } in
              write_with_window now k frame_type payload id stamped
                (frame_type ∷ get_window_data_bytes c t conn.incoming_packets_window 1 false)
                (put s id stamped)
        ]
        else write_without_window now k frame_type payload s

    unfoldable pub handle_write_default : ℕ → K → Bytes → ConnectionStabilizer K → Outcome K
    unfolding handle_write
    handle_write_default now k payload s =
        let f = s.settings.default_send_frame_type in
        let reserved =
          f == stable_ping_frame
          || f == stable_pong_frame
          || f == stable_data_recieved_frame
          || f == 0
          || f == stable_disconnect_frame in
        let chosen = if reserved then stable_data_frame else f in
        handle_write now k chosen payload
          (record s { settings = record s.settings { default_send_frame_type = chosen } })

    -- handleACKSend; the time since a timestamp is at least the least time between two
    unfoldable pub handle_ack_send :
        ℕ → K → (id seq_num : ℕ) → Bool → ConnectionStabilizer K → Outcome K
    unfolding ack_word_index handle_write
    handle_ack_send now k id seq_num loop s = do
      conn ← get_elem? s.store id
      let word_index = ack_word_index c t conn seq_num
      last ← get_elem? conn.last_ack_timestamps word_index
      let acked = handle_write now k stable_data_recieved_frame ((word_index + 1) % 2 ^ 8 ∷ []) s
      let later = after (pos s.settings.time_between_ack_packets) (send_ack k id seq_num)
      if leb (last + s.settings.time_between_ack_packets) now
          then acked
          else (if loop then some (s, later ∷ []) else unchanged s)
