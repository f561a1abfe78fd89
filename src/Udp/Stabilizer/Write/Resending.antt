-- ===== src/Udp/Stabilizer/Write/Resending.antt =====
-- How often resendWrite sends a frame.
use go_webtools.Base.{
  ℕ, suc, ◌+◌, ◌-◌, ◌/◌, ◌%◌, ◌^◌, min, ◌≤◌, ◌<◌, ◌≡◌, ◌≢◌, refl, sym, ap, ◌∙◌, Bool, true, false,
  ◌||◌, List, [], ◌∷◌, ◌++◌, some, Bytes, leb, ◌==◌, if◌then◌else◌, length, get_elem?, take, drop,
  arith, if_holds, if_false, leb→le, leb-false, length-append, length-take, length-drop, le→ltb,
  ne→==,
}
use go_webtools.Base.Words.{length-le_bytes}
use go_webtools.Base.Decimal.{pos}
use go_webtools.Helpers.Width.{Width}
use go_webtools.Helpers.ReplayWindow.{check_value}
use go_webtools.Helpers.RttCalculator.{get_rto}
use go_webtools.Udp.Stabilizer.{
  ◌>>=◌, ConnectionStabilizerSettings, ConnectionStabilizerConn, ConnectionStabilizer, resend, send,
  after, Outcome, timestamp,
}
use go_webtools.Udp.Stabilizer.Write.{put_timestamp, may_send, next_try, resend_write, fire_resend}

-- the tries of a frame run from 1 on and never come back to 0, where the frame would be widened again
next_try-Range :
    (try : ℕ)
    → try < 256
    → (0 < next_try try) × (next_try try < 256) × (try < 255 → next_try try ≡ try + 1)
unfolding next_try
next_try-Range try h = ground arith

ap_if {ℓ κ} :
    {A : Type ℓ} {B : Type κ} (f : A → B) (b : Bool) (x y : A)
    → f (if b then x else y) ≡ (if b then f x else f y)
ap_if f true x y = refl
ap_if f false x y = refl

-- may_send within the limit, and without one
may_send_cases :
    (settings : ConnectionStabilizerSettings) (infinite_send : Bool) (try : ℕ)
    → ((settings.resend_retries == 0 || infinite_send) ≡ true
        → may_send settings infinite_send try ≡ true)
      × (settings.resend_retries ≢ 0
          → infinite_send ≡ false
          → may_send settings infinite_send try ≡ leb try (min settings.resend_retries 254))
unfolding may_send
may_send_cases settings infinite_send try = (λ h. ground (arith, h), λ z i. ground (arith, z, i))

limited :
    (retries : ℕ) (infinite_send : Bool)
    → (retries == 0 || infinite_send) ≡ false
    → (retries ≢ 0) × (infinite_send ≡ false)
limited retries infinite_send h = (λ e. ground (arith, h, e), ground (arith, h))

length-timestamp : (now : ℕ) → length (timestamp (pos now)) ≡ 8
unfolding timestamp
length-timestamp now = length-le_bytes 8 (now / 1000 % 2 ^ 64)

module _ {ℓ} {K : Type ℓ} (c o t : Width) (k : K) (id seq : ℕ) (infinite_send : Bool) where
  -- one more frame, and those of the timer that is set with it
  abbrev one_more : (Bytes → ℕ → ConnectionStabilizer K → ℕ) → Outcome K → ℕ
  one_more f (some (s, send _ _ ∷ after _ (resend _ _ _ buffer _ try) ∷ [])) = suc (f buffer try s)
  one_more f _ = 0

  -- how many frames the timer sends when it fires at the times of a list, as long as it is set again
  unfoldable pub frames_sent : List ℕ → Bytes → ℕ → ConnectionStabilizer K → ℕ
  unfolding fire_resend
  frames_sent [] buffer try s = 0
  frames_sent (now ∷ nows) buffer try s =
      one_more (λ b n r. frames_sent nows b n r)
        (fire_resend c o t now k id seq buffer infinite_send try s)

  stamped : ℕ → Bytes → Bytes
  stamped now buffer = take 13 buffer ++ (timestamp (pos now) ++ drop 21 buffer)

  length-stamped :
      (now : ℕ) (buffer : Bytes) → 21 ≤ length buffer → length (stamped now buffer) ≡ length buffer
  unfolding stamped timestamp
  length-stamped now buffer h = omega (
    arith,
    length-append (take 13 buffer) (timestamp (pos now) ++ drop 21 buffer),
    length-append (timestamp (pos now)) (drop 21 buffer),
    length-take 13 buffer (omega arith),
    length-drop 21 buffer,
    length-timestamp now,
  )

  -- what the call leaves that sends the frame again
  again : ℕ → Bytes → ℕ → ConnectionStabilizer K → ConnectionStabilizerConn → Outcome K
  again now buffer try s conn =
      if may_send s.settings infinite_send try
      then some (
        s,
        send k (stamped now buffer)
            ∷ after (get_rto conn.rtt_calculator)
                (resend k id seq (stamped now buffer) infinite_send try)
            ∷ [],
      )
      else some (s, [])

  resend_write_lem :
      (now : ℕ) (buffer : Bytes) (try : ℕ) (s : ConnectionStabilizer K)
      (conn : ConnectionStabilizerConn)
      → get_elem? s.store id ≡ some conn
      → 21 ≤ length buffer
      → 0 < try
      → resend_write c o t now k id seq buffer infinite_send try s ≡ again now buffer try s conn
  unfolding resend_write put_timestamp again stamped
  resend_write_lem now buffer try s conn found h p =
      rw (found, ne→== try 0 (λ e. omega arith), le→ltb (length buffer) 21 h) refl

  fire_resend_lem :
      (now : ℕ) (buffer : Bytes) (try : ℕ) (s : ConnectionStabilizer K)
      (conn : ConnectionStabilizerConn)
      → get_elem? s.store id ≡ some conn
      → 21 ≤ length buffer
      → try < 256
      → fire_resend c o t now k id seq buffer infinite_send try s ≡ (
          if check_value c t conn.sended_packets_acks_window seq
          then some (s, [])
          else again now buffer (next_try try) s conn)
  unfolding fire_resend
  fire_resend_lem now buffer try s conn found h p =
      ap
        (λ r. r >>= λ (q : ConnectionStabilizerConn).
          if check_value c t q.sended_packets_acks_window seq
          then some (s, [])
          else resend_write c o t now k id seq buffer infinite_send (next_try try) s)
        found
      ∙ (ap (λ r. if check_value c t conn.sended_packets_acks_window seq then some (s, []) else r)
          (resend_write_lem now buffer (next_try try) s conn found h (next_try-Range try p).0))

  module _ (s : ConnectionStabilizer K) (conn : ConnectionStabilizerConn)
      (found : get_elem? s.store id ≡ some conn) where
    -- the frames of a timer that has just fired, by what the call tests
    frames_sent_lem :
        (now : ℕ) (nows : List ℕ) (buffer : Bytes) (try : ℕ)
        → 21 ≤ length buffer
        → try < 256
        → frames_sent (now ∷ nows) buffer try s ≡ (
            if check_value c t conn.sended_packets_acks_window seq
            then 0
            else (if may_send s.settings infinite_send (next_try try)
                then suc (frames_sent nows (stamped now buffer) (next_try try) s)
                else 0))
    unfolding frames_sent again
    frames_sent_lem now nows buffer try h p =
        ap (one_more (λ b n r. frames_sent nows b n r))
          (fire_resend_lem now buffer try s conn found h p)
        ∙ ap_if (one_more (λ b n r. frames_sent nows b n r))
            (check_value c t conn.sended_packets_acks_window seq) _ _
        ∙ ap (λ r. if check_value c t conn.sended_packets_acks_window seq then 0 else r)
            (ap_if (one_more (λ b n r. frames_sent nows b n r))
              (may_send s.settings infinite_send (next_try try)) _ _)

    -- the frames of a timer whose number has not been acknowledged, within the limit of retries
    frames_sent-limited :
        (nows : List ℕ) (buffer : Bytes) (try : ℕ)
        → 21 ≤ length buffer
        → check_value c t conn.sended_packets_acks_window seq ≡ false
        → s.settings.resend_retries ≢ 0
        → infinite_send ≡ false
        → try ≤ min s.settings.resend_retries 254
        → frames_sent nows buffer try s
          ≡ min (length nows) (min s.settings.resend_retries 254 - try)
    unfolding frames_sent
    frames_sent-limited [] buffer try h e z i l = omega arith
    frames_sent-limited (now ∷ nows) buffer try h e z i l =
        frames_sent_lem now nows buffer try h (omega arith)
        ∙ if_false (λ v. v ≡ min (suc (length nows)) (most - try))
            (check_value c t conn.sended_packets_acks_window seq) _ _ e
            (if_holds (λ v. v ≡ min (suc (length nows)) (most - try))
              (may_send s.settings infinite_send (next_try try)) _ _
              (λ m.
                let within : next_try try ≤ most = leb→le (next_try try) most (sym by_limit ∙ m) in
                let rest =
                  frames_sent-limited nows (stamped now buffer) (next_try try)
                    (omega (arith, h, length-stamped now buffer h)) e z i within in
                omega (arith, rest, next_is, within, l))
              (λ m. omega (arith, next_is, l, leb-false (next_try try) most (sym by_limit ∙ m))))
      where
        most : ℕ
        most = min s.settings.resend_retries 254

        by_limit : may_send s.settings infinite_send (next_try try) ≡ leb (next_try try) most
        by_limit = (may_send_cases s.settings infinite_send (next_try try)).1 z i

        next_is : next_try try ≡ try + 1
        next_is = (next_try-Range try (omega arith)).2 (omega arith)

    -- and without a limit
    frames_sent-unlimited :
        (nows : List ℕ) (buffer : Bytes) (try : ℕ)
        → 21 ≤ length buffer
        → try < 256
        → check_value c t conn.sended_packets_acks_window seq ≡ false
        → (s.settings.resend_retries == 0 || infinite_send) ≡ true
        → frames_sent nows buffer try s ≡ length nows
    unfolding frames_sent
    frames_sent-unlimited [] buffer try h p e z = refl
    frames_sent-unlimited (now ∷ nows) buffer try h p e z =
        frames_sent_lem now nows buffer try h p
        ∙ if_false (λ v. v ≡ suc (length nows))
            (check_value c t conn.sended_packets_acks_window seq) _ _ e
            (if_holds (λ v. v ≡ suc (length nows))
              (may_send s.settings infinite_send (next_try try)) _ _
              (λ m. ap suc (
                frames_sent-unlimited nows (stamped now buffer) (next_try try)
                  (omega (arith, h, length-stamped now buffer h)) (next_try-Range try p).1 e z))
              (λ m. cc (m, (may_send_cases s.settings infinite_send (next_try try)).0 z)))

    frames_sent-acked :
        (nows : List ℕ) (buffer : Bytes)
        → 21 ≤ length buffer
        → check_value c t conn.sended_packets_acks_window seq ≡ true
        → frames_sent nows buffer 0 s ≡ 0
    unfolding frames_sent
    frames_sent-acked [] buffer h e = refl
    frames_sent-acked (now ∷ nows) buffer h e =
        frames_sent_lem now nows buffer 0 h (omega arith)
        ∙ ap
            (λ b.
              if b
              then 0
              else (if may_send s.settings infinite_send (next_try 0)
                  then suc (frames_sent nows (stamped now buffer) (next_try 0) s)
                  else 0))
            e

    -- The timer of a frame that has been sent once sends it again, when it fires at the times of a
    -- list and the window of the sent packets stays as it is: never, if its number is acknowledged
    -- there; every time, if ResendRetries is 0 or the frame is to be sent for ever; and at most
    -- ResendRetries times, at most 254, otherwise.
    pub frames_sent-total :
        (nows : List ℕ) (buffer : Bytes)
        → 21 ≤ length buffer
        → frames_sent nows buffer 0 s ≡ (
            if check_value c t conn.sended_packets_acks_window seq
            then 0
            else (if s.settings.resend_retries == 0 || infinite_send
                then length nows
                else min (length nows) (min s.settings.resend_retries 254)))
    frames_sent-total nows buffer h =
        if_holds (λ v. frames_sent nows buffer 0 s ≡ v)
          (check_value c t conn.sended_packets_acks_window seq) _ _
          (λ e. frames_sent-acked nows buffer h e)
          (λ e.
            if_holds (λ v. frames_sent nows buffer 0 s ≡ v)
              (s.settings.resend_retries == 0 || infinite_send) _ _
              (λ z. frames_sent-unlimited nows buffer 0 h (omega arith) e z)
              (λ z.
                let (some_limit, finite) = limited s.settings.resend_retries infinite_send z in
                frames_sent-limited nows buffer 0 h e some_limit finite (omega arith)
                ∙ omega arith))
