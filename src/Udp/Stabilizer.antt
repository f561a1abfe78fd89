-- ===== src/Udp/Stabilizer.antt =====
-- udp/UDPConnectionStabilizer.go: the state, and what it is built of. Connections are keys of `K`.
-- A timer keeps the pointer to the state of its connection, and may fire when the map has another
-- one or none for the key; so the states stand in a store, and the map has their places. `none` is a
-- panic. A call runs at one instant, `now`, in nanoseconds. Log lines are left out.
pub mod Write
pub mod Read
pub mod Timers
use go_webtools.Base.{
  ℕ, zero, suc, ◌+◌, ◌-◌, ◌*◌, ◌/◌, ◌%◌, ◌^◌, Bool, true, false, not, ◌&&◌, ◌||◌, List, [], ◌∷◌,
  ◌++◌, Option, none, some, Bytes, Eq, ltb, leb, ◌==◌, if◌then◌else◌, length, get_elem?, take, drop,
  replicate, map, set,
}
use go_webtools.Base.Decimal.{ℤ, pos, negsuc}
use go_webtools.Base.Words.{le_bytes, of_le}
use go_webtools.Helpers.Width.{Width}
use go_webtools.Helpers.SafeMap.{Map, lookup}
use go_webtools.Helpers.ReplayWindow.{ReplayWindow, make_replay_window}
use go_webtools.Helpers.PacketOrderer.{
  PacketOrderer, Packet, new_packet_orderer, allow_in_dump, allow_in_dump_and_push,
}
use go_webtools.Helpers.RttCalculator.{RttCalculator, new_rtt_calculator, sub_int, minus}

-- the rest of a call, unless it has panicked
infixl 1 ◌>>=◌
abbrev pub ◌>>=◌ {ℓ κ} : {A : Type ℓ} {B : Type κ} → Option A → (A → Option B) → Option B
none >>= f = none
some a >>= f = f a

-- stableFrameType
abbrev pub stable_ping_frame : ℕ
stable_ping_frame = 1

abbrev pub stable_pong_frame : ℕ
stable_pong_frame = 2

abbrev pub stable_data_recieved_frame : ℕ
stable_data_recieved_frame = 3

abbrev pub stable_data_frame : ℕ
stable_data_frame = 4

abbrev pub stable_data_with_resend_frame : ℕ
stable_data_with_resend_frame = 5

abbrev pub stable_data_with_order_instant_frame : ℕ
stable_data_with_order_instant_frame = 6

abbrev pub stable_data_with_order_timeout_frame : ℕ
stable_data_with_order_timeout_frame = 7

abbrev pub stable_data_with_order_resend_frame : ℕ
stable_data_with_order_resend_frame = 8

abbrev pub stable_disconnect_frame : ℕ
stable_disconnect_frame = 255

-- the frames that carry the window of their sender
unfoldable pub has_window : ℕ → Bool
has_window f =
    not (f == stable_data_frame)
    && not (f == stable_data_with_order_instant_frame)
    && not (f == stable_data_with_order_timeout_frame)
    && not (f == stable_data_recieved_frame)

pub record ConnectionStabilizerSettings : Type 0 where
  pub keep_alive_tries_before_error : ℤ
  pub resend_retries : ℕ
  pub order_delay : ℕ
  pub default_send_frame_type : ℕ
  pub fallback_rtt : ℤ
  pub minimum_rtt : ℤ
  pub maximum_rtt : ℤ
  pub time_between_ack_packets : ℕ
  pub window_word_count : ℕ

pub record ConnectionStabilizerConn : Type 0 where
  pub send_packet_resend_number : ℕ
  pub missing_ping_packets : ℕ
  pub last_ack_timestamps : List ℕ
  pub send_packet_order_number_simple : ℕ
  pub send_packet_order_number_precise : ℕ
  pub sended_packets_acks_window : ReplayWindow
  pub incoming_packets_window : ReplayWindow
  pub rtt_calculator : RttCalculator
  pub incoming_latency_rtt_calculator : RttCalculator
  pub orderer_simple : PacketOrderer Bytes
  pub orderer_precise : PacketOrderer Bytes

-- newConnectionStabilizerConn; the numbers are of type `c`, the words of the windows of type `t`
unfoldable pub new_connection_stabilizer_conn :
    (c t : Width) → ConnectionStabilizerSettings → Option ConnectionStabilizerConn
unfolding new_rtt_calculator make_replay_window new_packet_orderer
new_connection_stabilizer_conn c t settings = do
  rtt ← new_rtt_calculator settings.minimum_rtt settings.maximum_rtt settings.fallback_rtt
  window ← make_replay_window c t settings.window_word_count
  some (record {
    send_packet_resend_number = 0;
    missing_ping_packets = 0;
    last_ack_timestamps = replicate settings.window_word_count 0;
    send_packet_order_number_simple = 0;
    send_packet_order_number_precise = 0;
    sended_packets_acks_window = window;
    incoming_packets_window = window;
    rtt_calculator = rtt;
    incoming_latency_rtt_calculator = rtt;
    orderer_simple = new_packet_orderer allow_in_dump_and_push false;
    orderer_precise = new_packet_orderer allow_in_dump false;
  })

-- time.UnixMicro as the bytes of a frame: rounded down, in 64 bits
abbrev pub micros : ℤ → ℕ
micros (pos n) = n / 1000 % 2 ^ 64
micros (negsuc n) = (2 ^ 64 - (n + 1000) / 1000) % 2 ^ 64

unfoldable pub timestamp : ℤ → Bytes
unfolding le_bytes
timestamp at = le_bytes 8 (micros at)

-- the difference of two times, which time.Sub cuts off at the limits of a Duration
abbrev saturated : ℤ → ℤ
saturated (pos n) = if ltb n (2 ^ 63) then pos n else pos (2 ^ 63 - 1)
saturated (negsuc n) = if ltb n (2 ^ 63) then negsuc n else negsuc (2 ^ 63 - 1)

-- time.Since of a timestamp, which is signed
unfoldable pub since : ℕ → ℕ → ℤ
since now stamp =
    saturated
      (if ltb stamp (2 ^ 63) then minus now (1000 * stamp) else pos (now + 1000 * (2 ^ 64 - stamp)))

-- `framedData[8:]` behind the timestamp that it starts with
unfoldable pub read_timestamp : ℕ → Bytes → Option (ℤ × Bytes)
unfolding since of_le
read_timestamp now b =
    if ltb (length b) 8 then none else some (since now (of_le (take 8 b)), drop 8 b)

module _ {ℓ} (K : Type ℓ) where
  -- the functions given to time.AfterFunc, with what they capture, and the goroutine of HandleConnect
  pub data Timer : Type ℓ where
    dump_order : (conn order_num : ℕ) → Timer
    send_ack : (key : K) (conn seq_num : ℕ) → Timer
    resend :
        (key : K) (conn sequence_number : ℕ) (data_send : Bytes) (infinite_send : Bool) (try : ℕ)
        → Timer
    ping : (key : K) (conn rounds : ℕ) → Timer

  -- what a call does outside of the state: conn.Send, conn.Close, the read function, time.AfterFunc
  pub data Effect : Type ℓ where
    send : K → Bytes → Effect
    close : K → Effect
    read : ℕ → Bytes → Effect
    after : ℤ → Timer → Effect

  pub record ConnectionStabilizer : Type ℓ where
    pub settings : ConnectionStabilizerSettings
    pub has_read_func : Bool
    pub store : List ConnectionStabilizerConn
    pub conns : Map K ℕ

-- what a call leaves, or its panic
abbrev pub Outcome {ℓ} : Type ℓ → Type ℓ
Outcome K = Option (ConnectionStabilizer K × List (Effect K))

module _ {ℓ} {K : Type ℓ} where
  abbrev pub unchanged : ConnectionStabilizer K → Outcome K
  unchanged s = some (s, [])

  -- more effects behind those of a first part
  abbrev pub then_do : List (Effect K) → Outcome K → Outcome K
  then_do out none = none
  then_do out (some (s, more)) = some (s, out ++ more)

  -- a write through the pointer to a connection
  abbrev pub put : ConnectionStabilizer K → ℕ → ConnectionStabilizerConn → ConnectionStabilizer K
  put s id conn = record s { store = set s.store id conn }

  -- the calls of the read function, unless it is nil
  unfoldable pub pass_on : ConnectionStabilizer K → ℕ → List (Packet Bytes) → List (Effect K)
  pass_on s id packets = if s.has_read_func then map (λ (k, v). read id v) packets else []

  -- Get: the place of the state of a connection and the state
  unfoldable pub get_conn :
      ⦃e : Eq K⦄ → K → ConnectionStabilizer K → Option (ℕ × ConnectionStabilizerConn)
  unfolding lookup
  get_conn k s = elim (lookup k s.conns) [
    | none ↦ none
    | some id ↦ elim (get_elem? s.store id) [ none ↦ none | some conn ↦ some (id, conn) ]
  ]
