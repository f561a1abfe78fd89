-- ===== src/Udp/Stabilizer/Timers.antt =====
-- udp/UDPConnectionStabilizer.go: the functions that timers call, and the connections that come. The
-- types are those of Write.
use go_webtools.Base.{ℕ, zero, suc, false, List, [], ◌∷◌, ◌++◌, none, some, Eq, length, get_elem?}
use go_webtools.Base.Decimal.{pos}
use go_webtools.Helpers.Width.{Width}
use go_webtools.Helpers.SafeMap.{lookup, delete, range_with_empty, get_keys}
use go_webtools.Helpers.SafeMap as SafeMap
use go_webtools.Helpers.PacketOrderer.{dump}
use go_webtools.Helpers.RttCalculator.{get_rto}
use go_webtools.Udp.Stabilizer.{
  ◌>>=◌, new_connection_stabilizer_conn, ConnectionStabilizer, Timer, dump_order, send_ack, resend,
  ping, close, after, Outcome, unchanged, then_do, put, pass_on, stable_ping_frame,
  stable_disconnect_frame,
}
use go_webtools.Udp.Stabilizer.Write.{fire_resend, handle_write, handle_ack_send}
use go_webtools.Udp.Stabilizer.Read.{cleanup_connection}

module _ {ℓ} {K : Type ℓ} (c o t : Width) ⦃e : Eq K⦄ where
  -- the three pings of HandleConnect, a timeout apart
  unfoldable pub fire_ping : ℕ → K → (id rounds : ℕ) → ConnectionStabilizer K → Outcome K
  unfolding handle_write get_rto
  fire_ping now k id zero s = unchanged s
  fire_ping now k id (suc rounds) s = do
    (pinged, out) ← handle_write c o t now k stable_ping_frame [] s
    conn ← get_elem? pinged.store id
    some (pinged, out ++ (after (get_rto conn.rtt_calculator) (ping k id rounds) ∷ []))

  -- the functions that the timers call
  unfoldable pub fire : ℕ → Timer K → ConnectionStabilizer K → Outcome K
  unfolding dump pass_on handle_ack_send fire_resend fire_ping
  fire now (dump_order id order_num) s = elim (get_elem? s.store id) [
    | none ↦ none
    | some conn ↦
        let dumped = dump o order_num conn.orderer_simple in
        some (put s id (record conn { orderer_simple = dumped.0 }), pass_on s id dumped.1)
  ]
  fire now (send_ack k id seq_num) s = handle_ack_send c o t now k id seq_num false s
  fire now (resend k id seq packet infinite_send try) s =
      fire_resend c o t now k id seq packet infinite_send try s
  fire now (ping k id rounds) s = fire_ping now k id rounds s

  unfoldable pub handle_connect : K → ConnectionStabilizer K → Outcome K
  unfolding new_connection_stabilizer_conn SafeMap.set
  handle_connect k s = do
    conn ← new_connection_stabilizer_conn c t s.settings
    let id = length s.store
    some (
      record s { store = s.store ++ (conn ∷ []); conns = SafeMap.set k id s.conns },
      after (pos 0) (ping k id 3) ∷ [],
    )

  unfoldable pub handle_disconnect : ℕ → K → ConnectionStabilizer K → Outcome K
  unfolding handle_write cleanup_connection
  handle_disconnect now k s = do
    (told, out) ← handle_write c o t now k stable_disconnect_frame [] s
    let cleaned = cleanup_connection c o t k told
    some (cleaned.0, out ++ (cleaned.1 ++ (close k ∷ [])))

  -- the pings of keepAliveSender, whose loop ends with the first tick
  unfoldable pub ping_all : ℕ → List K → ConnectionStabilizer K → Outcome K
  unfolding handle_write
  ping_all now [] s = unchanged s
  ping_all now (k ∷ ks) s = do
    (pinged, out) ← handle_write c o t now k stable_ping_frame [] s
    then_do out (ping_all now ks pinged)

  unfoldable pub keep_alive_tick : ℕ → ConnectionStabilizer K → Outcome K
  unfolding ping_all get_keys
  keep_alive_tick now s = ping_all now (get_keys s.conns) s
