-- ===== src/Udp/Stabilizer/Write/Acks.antt =====
-- The word of the window that an acknowledgement is about, and the call that sends it.
use Prim.Native.Nat.{bit_and}
use go_webtools.Base.{
  ℕ, zero, suc, ◌+◌, ◌-◌, ◌*◌, ◌/◌, ◌%◌, ◌^◌, ◌≤◌, ◌<◌, ◌≡◌, refl, ◌∙◌, Bool, List, [], ◌∷◌, some,
  Eq, leb, length, get_elem?, set, arith, if_holds, inl, inr, length-set, lt→ltb,
}
use go_webtools.Base.Bits.{bit_and-le}
use go_webtools.Helpers.Width.{
  Width, uint8, uint16, uint32, uint64, get_bit_shift_size, get_bit_size,
}
use go_webtools.Helpers.ReplayWindow.{sub, get_window_bit_size}
use go_webtools.Helpers.ReplayWindow.Setup.{
  IsValid, size, window_size, size-pos, sub_cases, modulus-large,
}
use go_webtools.Udp.Stabilizer.{
  ConnectionStabilizerConn, ConnectionStabilizer, Effect, get_conn, has_window,
}
use go_webtools.Udp.Stabilizer.Write.{
  store_acks, ack_word_index, write_ack, write_without_window, handle_write, handle_ack_send,
}

word_of :
    (t : Width) (n x : ℕ) → 0 < n → x ≤ n * get_bit_size t - 1 → x / 2 ^ get_bit_shift_size t < n
word_of uint8 n x p h = omega arith
word_of uint16 n x p h = omega arith
word_of uint32 n x p h = omega arith
word_of uint64 n x p h = omega arith

-- A number of the window stands in one of its words.
pub ack_word_index-lt :
    (c t : Width) (conn : ConnectionStabilizerConn) (seq : ℕ)
    → IsValid c t conn.incoming_packets_window
    → ack_word_index c t conn seq < length conn.incoming_packets_window.window
unfolding ack_word_index
ack_word_index-lt c t conn seq v =
    let w = conn.incoming_packets_window in
    let last : sub c (get_window_bit_size c t w) 1 ≡ size c t w - 1 =
      rw (window_size c t w v)
        (elim (sub_cases c (size c t w) 1 (omega (arith, v.fits, size-pos c t w v))
          (omega (arith, modulus-large c))) [
            | inl (p, e) ↦ e
            | inr (p, e) ↦ absurd (omega (arith, p, size-pos c t w v))
          ]) in
    let masked = bit_and-le (sub c w.right_edge seq) (sub c (get_window_bit_size c t w) 1) in
    let word =
      word_of t (length w.window)
        (bit_and (sub c w.right_edge seq) (sub c (get_window_bit_size c t w) 1)) v.some_words
        (omega (arith, masked, last)) in
    omega (arith, word)

store_acks-total :
    (n now : ℕ) (times : List ℕ)
    → n ≤ length times
    → (done : List ℕ) × (store_acks n now times ≡ some done) × (length done ≡ length times)
unfolding store_acks
store_acks-total zero now times h = (times, refl, refl)
store_acks-total (suc n) now times h =
    let (done, e, l) = store_acks-total n now times (omega arith) in
    (
      set done (length done - 1 - n) now,
      rw (e, lt→ltb n (length done) (omega (arith, l, h))) refl,
      length-set done (length done - 1 - n) now ∙ l,
    )

pub get_elem?-inside {ℓ} :
    {A : Type ℓ} (xs : List A) (i : ℕ) → i < length xs → (x : A) × (get_elem? xs i ≡ some x)
get_elem?-inside [] i h = absurd (omega arith)
get_elem?-inside (x ∷ xs) zero h = (x, refl)
get_elem?-inside (x ∷ xs) (suc i) h = get_elem?-inside xs i (omega arith)

module _ {ℓ} {K : Type ℓ} (c o t : Width) ⦃e : Eq K⦄ where
  -- The call that acknowledges a number, or that sets the timer for it, does not panic as long as
  -- its connection is known: the window of the connection is valid, and it has a timestamp for each
  -- word, and so has the one that the map has for the key now.
  pub handle_ack_send-total :
      (now : ℕ) (k : K) (id seq : ℕ) (loop : Bool) (s : ConnectionStabilizer K)
      (conn : ConnectionStabilizerConn) (id' : ℕ) (conn' : ConnectionStabilizerConn)
      → get_elem? s.store id ≡ some conn
      → get_conn k s ≡ some (id', conn')
      → IsValid c t conn.incoming_packets_window
      → length conn.last_ack_timestamps ≡ length conn.incoming_packets_window.window
      → length conn'.last_ack_timestamps ≡ length conn.last_ack_timestamps
      → (r : ConnectionStabilizer K × List (Effect K)) × (handle_ack_send c o t now k id seq loop s
          ≡ some r)
  unfolding handle_ack_send handle_write has_window write_without_window write_ack
  handle_ack_send-total now k id seq loop s conn id' conn' found known v size_is same =
      let inside = ack_word_index-lt c t conn seq v in
      let (last, at) =
        get_elem?-inside conn.last_ack_timestamps (ack_word_index c t conn seq)
          (omega (arith, inside, size_is)) in
      let (done, stored, l) =
        store_acks-total ((ack_word_index c t conn seq + 1) % 2 ^ 8) now conn'.last_ack_timestamps
          (omega (arith, inside, size_is, same)) in
      rw (found, at, known, stored)
        (if_holds (λ q. (r : ConnectionStabilizer K × List (Effect K)) × (q ≡ some r))
          (leb (last + s.settings.time_between_ack_packets) now) _ _ (λ _. (_, refl))
          (λ _.
            if_holds (λ q. (r : ConnectionStabilizer K × List (Effect K)) × (q ≡ some r)) loop _ _
              (λ _. (_, refl)) (λ _. (_, refl))))
