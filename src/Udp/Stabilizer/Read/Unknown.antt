-- ===== src/Udp/Stabilizer/Read/Unknown.antt =====
-- What the stabilizer does for a connection that it does not know.
use go_webtools.Base.{
  ℕ, ◌+◌, ◌≡◌, sym, ap, subst, Option, arith, refl, [], ◌∷◌, none, some, Bytes, Eq, ltb, leb, ◌==◌,
  if◌then◌else◌, length, get_elem?, Bool-cases, inl, inr,
}
use go_webtools.Helpers.Width.{Width}
use go_webtools.Helpers.SafeMap.{lookup, delete}
use go_webtools.Helpers.SafeMap.Laws.{lookup-delete}
use go_webtools.Helpers.PacketOrderer.{dump_all}
use go_webtools.Helpers.PacketHeap.Weights.{get_elem?-set}
use go_webtools.Helpers.ReplayWindow.Setup.{IsValid}
use go_webtools.Udp.Stabilizer.Write.Acks.{ack_word_index-lt, get_elem?-inside}
use go_webtools.Udp.Stabilizer.Write.Sent.{placed, get_conn-found}
use go_webtools.Udp.Stabilizer.{
  put, ConnectionStabilizerConn, ConnectionStabilizer, send_ack, get_conn, has_window,
  read_timestamp, stable_data_recieved_frame,
}
use go_webtools.Udp.Stabilizer.Write.{
  ack_word_index, write_without_window, handle_write, handle_ack_send,
}
use go_webtools.Udp.Stabilizer.Read.{
  dump_conn, cleanup_connection, read_ack, read_without_window, handle_read,
}
use go_webtools.Udp.Stabilizer.Timers.{fire}

-- what CleanupConnection leaves of a connection
abbrev dumped : Width → ConnectionStabilizerConn → ConnectionStabilizerConn
dumped o conn = record conn {
  orderer_simple = (dump_all o conn.orderer_simple).0;
  orderer_precise = (dump_all o conn.orderer_precise).0;
}

module _ {ℓ} {K : Type ℓ} (c o t : Width) ⦃e : Eq K⦄ where
  read_ack-unknown :
      (now : ℕ) (k : K) (framed : Bytes) (s : ConnectionStabilizer K)
      → get_conn k s ≡ none
      → read_ack c o t now k framed s ≡ (if ltb (length framed) 8 then none else some (s, []))
  unfolding read_ack read_timestamp
  read_ack-unknown now k framed s u = elim (Bool-cases (ltb (length framed) 8)) [
    | inl h ↦ rw h refl
    | inr h ↦ rw (h, u) refl
  ]

  read_without_window-unknown :
      (now : ℕ) (k : K) (f : ℕ) (framed : Bytes) (s : ConnectionStabilizer K)
      → get_conn k s ≡ none
      → read_without_window c o t now k f framed s ≡ (
          if f == stable_data_recieved_frame
          then (if ltb (length framed) 8 then none else some (s, []))
          else some (s, []))
  unfolding read_without_window
  read_without_window-unknown now k f framed s u =
      elim (Bool-cases (f == stable_data_recieved_frame)) [
        | inl h ↦ rw h (read_ack-unknown now k framed s u)
        | inr h ↦ rw (h, u) refl
      ]

  -- A frame from a connection that is not known panics, if it carries a window; so does an
  -- acknowledgement that is too short for a timestamp. Any other frame is ignored.
  pub handle_read-unknown :
      (now : ℕ) (k : K) (f : ℕ) (framed : Bytes) (s : ConnectionStabilizer K)
      → get_conn k s ≡ none
      → handle_read c o t now k (f ∷ framed) s ≡ (
          if has_window f
          then none
          else (if f == stable_data_recieved_frame
              then (if ltb (length framed) 8 then none else some (s, []))
              else some (s, [])))
  unfolding handle_read
  handle_read-unknown now k f framed s u = elim (Bool-cases (has_window f)) [
    | inl h ↦ rw (h, u) refl
    | inr h ↦ rw h (read_without_window-unknown now k f framed s u)
  ]

  fire-send_ack :
      (now : ℕ) (k : K) (id seq last : ℕ) (s : ConnectionStabilizer K)
      (conn : ConnectionStabilizerConn)
      → get_conn k s ≡ none
      → get_elem? s.store id ≡ some conn
      → get_elem? conn.last_ack_timestamps (ack_word_index c t conn seq) ≡ some last
      → fire c o t now (send_ack k id seq) s
        ≡ (if leb (last + s.settings.time_between_ack_packets) now then none else some (s, []))
  unfolding fire handle_ack_send handle_write has_window write_without_window
  fire-send_ack now k id seq last s conn u found at = rw (found, at, u) refl

  get_conn-place :
      (k : K) (s : ConnectionStabilizer K) (id : ℕ) (conn : ConnectionStabilizerConn)
      → get_conn k s ≡ some (id, conn)
      → lookup k s.conns ≡ some id
  unfolding get_conn
  get_conn-place k s id conn = by_place (lookup k s.conns)
    where
      by_conn :
          (i : ℕ) (q : Option ConnectionStabilizerConn)
          → placed i q ≡ some (id, conn)
          → some i ≡ some id
      by_conn i none h = cc
      by_conn i (some r) h = ap (λ p. elim p [ none ↦ some i | some q ↦ some q.0 ]) h

      by_place :
          (r : Option ℕ)
          → elim r [ none ↦ none | some i ↦ placed i (get_elem? s.store i) ] ≡ some (id, conn)
          → r ≡ some id
      by_place none h = cc
      by_place (some i) h = by_conn i (get_elem? s.store i) h

  -- the state behind CleanupConnection
  abbrev cleaned :
      K → ConnectionStabilizer K → ℕ → ConnectionStabilizerConn → ConnectionStabilizer K
  cleaned k s id conn = record (put s id (dumped o conn)) { conns = delete k s.conns }

  cleanup_connection-cleaned :
      (k : K) (s : ConnectionStabilizer K) (id : ℕ) (conn : ConnectionStabilizerConn)
      → lookup k s.conns ≡ some id
      → get_elem? s.store id ≡ some conn
      → (cleanup_connection c o t k s).0 ≡ cleaned k s id conn
  unfolding cleanup_connection dump_conn
  cleanup_connection-cleaned k s id conn place found =
      rw (cleanup_connection, place, dump_conn, found) refl

  get_conn-cleaned :
      (k : K) (s : ConnectionStabilizer K) (id : ℕ) (conn : ConnectionStabilizerConn)
      → get_conn k (cleaned k s id conn) ≡ none
  unfolding get_conn
  get_conn-cleaned k s id conn =
      rw (get_conn, lookup-delete k k s.conns, (e.beq_iff k k).1 refl) refl

  -- A delayed acknowledgement that fires when CleanupConnection has removed its connection, which was
  -- known before with a valid window and a timestamp for each word: if the least time between two
  -- acknowledgements has passed since the timestamp of its word, the call panics, and otherwise it
  -- does nothing.
  pub fire-cleanup_connection :
      (now : ℕ) (k : K) (id seq : ℕ) (s : ConnectionStabilizer K) (conn : ConnectionStabilizerConn)
      → get_conn k s ≡ some (id, conn)
      → IsValid c t conn.incoming_packets_window
      → length conn.last_ack_timestamps ≡ length conn.incoming_packets_window.window
      → let left = (cleanup_connection c o t k s).0 in
        (last : ℕ) × (get_elem? conn.last_ack_timestamps (ack_word_index c t conn seq) ≡ some last)
        × (fire c o t now (send_ack k id seq) left ≡ (
            if leb (last + s.settings.time_between_ack_packets) now then none else some (left, [])))
  unfolding ack_word_index
  fire-cleanup_connection now k id seq s conn known valid sizes =
      let found = get_conn-found c o t k s id conn known in
      let (last, at) =
        get_elem?-inside conn.last_ack_timestamps (ack_word_index c t conn seq)
          (omega (arith, ack_word_index-lt c t conn seq valid, sizes)) in
      (
        last,
        at,
        subst
            (λ (left : ConnectionStabilizer K). fire c o t now (send_ack k id seq) left ≡ (
              if leb (last + s.settings.time_between_ack_packets) now
              then none
              else some (left, [])))
            (sym (cleanup_connection-cleaned k s id conn (get_conn-place k s id conn known) found))
            (fire-send_ack now k id seq last (cleaned k s id conn) (dumped o conn)
              (get_conn-cleaned k s id conn) (get_elem?-set s.store id (dumped o conn) conn found)
              at),
      )
