-- ===== src/Udp/Tests.antt =====
-- Runs of the definitions of Udp.
use go_webtools.Base.{
  ℕ, ◌+◌, ◌≡◌, refl, List, [], ◌∷◌, none, some, Bytes, nat_eq, true, false, min, replicate,
  get_elem?, if◌then◌else◌, ◌==◌, ◌||◌, leb, ltb, arith,
}
use go_webtools.Base.Decimal.{pos}
use go_webtools.Helpers.Width.{uint16, uint32, uint64}
use go_webtools.Helpers.SafeMap.{lookup}
use go_webtools.Helpers.ReplayWindow.{ReplayWindow, apply_window_check, check_value}
use go_webtools.Helpers.ReplayWindow.Setup.{IsValid}
use go_webtools.Helpers.PacketOrderer.{PacketOrderer, allow_in_dump}
use go_webtools.Helpers.RttCalculator.{RttCalculator, get_rto}
use go_webtools.Udp.Stabilizer.{
  ConnectionStabilizer, ConnectionStabilizerSettings, ConnectionStabilizerConn, send_ack, resend,
  Effect, send, after, get_conn, has_window, then_do, pass_on, stable_data_with_resend_frame,
  stable_data_recieved_frame,
}
use go_webtools.Udp.Stabilizer.Write.{ack_word_index, handle_write, handle_ack_send}
use go_webtools.Udp.Stabilizer.Write.Acks.{handle_ack_send-total}
use go_webtools.Udp.Stabilizer.Write.Resending.{frames_sent, frames_sent-total}
use go_webtools.Udp.Stabilizer.Read.{handle_read, cleanup_connection}
use go_webtools.Udp.Stabilizer.Read.Unknown.{handle_read-unknown, fire-cleanup_connection}
use go_webtools.Udp.Stabilizer.Read.Delivered.{handle_read-handle_write}
use go_webtools.Udp.Stabilizer.Timers.{fire}

abbrev settings : ConnectionStabilizerSettings
settings = record {
  keep_alive_tries_before_error = pos 2;
  resend_retries = 1;
  order_delay = 50;
  default_send_frame_type = 5;
  fallback_rtt = pos 100;
  minimum_rtt = pos 10;
  maximum_rtt = pos 1500;
  time_between_ack_packets = 10;
  window_word_count = 2;
}

abbrev window : ReplayWindow
window = record {
  window = 0 ∷ 0 ∷ [];
  max_forward_jump = 2147483647;
  right_edge = 0;
  is_first_value = true;
}

abbrev calculator : RttCalculator
calculator = record {
  rtt = pos 0;
  rtt_jitter = pos 0;
  is_first = true;
  fallback_rtt = pos 100;
  minimum_rtt = pos 10;
  maximum_rtt = pos 1500;
}

abbrev orderer : PacketOrderer Bytes
orderer = record {
  packets_heap = [];
  allow_missing_packets = allow_in_dump;
  allow_older_packets = false;
  next_order = 0;
  is_first = true;
}

abbrev peer : ConnectionStabilizerConn
peer = record {
  send_packet_resend_number = 3;
  missing_ping_packets = 0;
  last_ack_timestamps = 0 ∷ 0 ∷ [];
  send_packet_order_number_simple = 0;
  send_packet_order_number_precise = 0;
  sended_packets_acks_window = window;
  incoming_packets_window = window;
  rtt_calculator = calculator;
  incoming_latency_rtt_calculator = calculator;
  orderer_simple = orderer;
  orderer_precise = orderer;
}

-- a connection under the key 7, and one that has been removed
abbrev connected : ConnectionStabilizer ℕ
connected = record {
  settings = settings;
  has_read_func = true;
  store = peer ∷ [];
  conns = (7, 0) ∷ [];
}

abbrev removed : ConnectionStabilizer ℕ
removed = record { settings = settings; has_read_func = true; store = peer ∷ []; conns = [] }

known : get_conn 7 connected ≡ some (0, peer)
unfolding get_conn lookup
known = refl

unknown : get_conn 7 removed ≡ none
unfolding get_conn lookup
unknown = refl

window-IsValid : IsValid uint32 uint64 window
window-IsValid = record {
  words = (omega arith, (omega arith, tt));
  some_words = omega arith;
  fits = omega arith;
  edge = omega arith;
  jump = refl;
}

frames_sent-total_example :
    frames_sent uint32 uint16 uint64 7 0 3 false
      (500 ∷ 900 ∷ 1300 ∷ [])
      (replicate 21 0)
      0
      connected
    ≡ (if check_value uint32 uint64 peer.sended_packets_acks_window 3
        then 0
        else (if settings.resend_retries == 0 || false
            then 3
            else min 3 (min settings.resend_retries 254)))
frames_sent-total_example =
    frames_sent-total uint32 uint16 uint64 7 0 3 false connected peer refl (500 ∷ 900 ∷ 1300 ∷ [])
      (replicate 21 0) (omega arith)

handle_read-unknown_example : handle_read uint32 uint16 uint64 500 7 (5 ∷ 1 ∷ []) removed ≡ (
    if has_window 5
    then none
    else (if 5 == stable_data_recieved_frame
        then (if ltb 1 8 then none else some (removed, []))
        else some (removed, [])))
handle_read-unknown_example =
    handle_read-unknown uint32 uint16 uint64 500 7 5 (1 ∷ []) removed unknown

fire-cleanup_connection_example :
    let left = (cleanup_connection uint32 uint16 uint64 7 connected).0 in
    (last : ℕ) × (get_elem? peer.last_ack_timestamps (ack_word_index uint32 uint64 peer 0)
      ≡ some last)
    × (fire uint32 uint16 uint64 500 (send_ack 7 0 0) left
        ≡ (if leb (last + settings.time_between_ack_packets) 500 then none else some (left, [])))
fire-cleanup_connection_example =
    fire-cleanup_connection uint32 uint16 uint64 500 7 0 0 connected peer known window-IsValid refl

handle_ack_send-total_example :
    (r : ConnectionStabilizer ℕ × List (Effect ℕ)) × (handle_ack_send uint32 uint16 uint64 500 7 0 0
        true connected
      ≡ some r)
handle_ack_send-total_example =
    handle_ack_send-total uint32 uint16 uint64 500 7 0 0 true connected peer 0 peer refl known
      window-IsValid refl refl

handle_read-handle_write_example :
    let checked = apply_window_check uint32 uint64 window 3 in
    (frame : Bytes) × (s' : ConnectionStabilizer ℕ) × (left : ConnectionStabilizer ℕ)
    × (peer' : ConnectionStabilizerConn) × (handle_write uint32 uint16 uint64 500 7
          stable_data_with_resend_frame
          (1 ∷ 2 ∷ [])
          connected
        ≡ some (s', send 7 frame ∷ after (get_rto calculator) (resend 7 0 3 frame false 0) ∷ []))
    × (handle_read uint32 uint16 uint64 900 7 frame connected
        ≡ then_do
            (if checked.1 then pass_on connected 0 ((3, 1 ∷ 2 ∷ []) ∷ []) else [])
            (handle_ack_send uint32 uint16 uint64 900 7 0 3 true left))
    × (get_elem? left.store 0 ≡ some peer')
    × (peer'.incoming_packets_window ≡ checked.0)
handle_read-handle_write_example =
    handle_read-handle_write uint32 uint16 uint64 500 900 7 7 (1 ∷ 2 ∷ []) connected connected 0 0
      peer peer refl known known (omega arith) (omega arith) (omega arith)
