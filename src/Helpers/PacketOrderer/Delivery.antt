-- ===== src/Helpers/PacketOrderer/Delivery.antt =====
-- The order in which the packets leave a PacketOrderer, over sequences of calls.
use go_webtools.Base.{
  ℕ, ◌+◌, ◌≡◌, ◌∙◌, refl, sym, ap, Bool, true, false, not, ◌&&◌, ◌||◌, List, [], ◌∷◌, ◌++◌, Option,
  none, some, ◌==◌, if◌then◌else◌, length, arith, Bool-cases, inl, inr, ==_iff, if_holds, if_false,
}
use go_webtools.Helpers.Width.{Width}
use go_webtools.Helpers.PacketHeap.{push}
use go_webtools.Helpers.PacketOrderer.{
  allow_none, Packet, PacketOrderer, Exported, head_is, before, export_loop, dump_loop, next_number,
  previous_number, is_in_future, skips_in_push, skips_in_dump, store_unless, push_later,
  push_packet, settle, dump_with, dump, dump_all, new_packet_orderer,
}
use go_webtools.Helpers.PacketOrderer.Exports.{Follows, Follows-append, export-Follows, dump-Sound}

module _ {ℓ} {V : Type ℓ} (c : Width) where
  -- An orderer that skips no packet, before and after its first one.
  pub record IsStrict (o : PacketOrderer V) : Type ℓ where
    pub strict : o.allow_missing_packets ≡ allow_none
    pub first : o.is_first ≡ true → (o.next_order ≡ 0) × (o.packets_heap ≡ [])

  -- what holds of a call: the orderer is strict again, and the packets are the next ones
  abbrev pub Delivers : PacketOrderer V → PacketOrderer V × List (Packet V) → Type ℓ
  Delivers o r = IsStrict r.0 × Follows c o.next_order r.1 r.0.next_order

  -- an orderer behind its first packet
  begun :
      (o : PacketOrderer V) → o.allow_missing_packets ≡ allow_none → o.is_first ≡ false → IsStrict o
  begun o a f = record { strict = a; first = λ e. cc }

  store_unless-Delivers :
      (o : PacketOrderer V) (p : Packet V) (e : Exported V)
      → o.allow_missing_packets ≡ allow_none
      → o.is_first ≡ false
      → Follows c o.next_order e.0 e.2
      → Delivers o (store_unless c o p e)
  store_unless-Delivers o p ([], h, n) a f g =
      (begun (record o { packets_heap = push (before c) p o.packets_heap }) a f, refl)
  store_unless-Delivers o p (q ∷ out, h, n) a f g =
      (begun (record o { packets_heap = h; next_order = n }) a f, g)

  push_later-Delivers :
      (number : ℕ) (value : V) (o : PacketOrderer V)
      → o.allow_missing_packets ≡ allow_none
      → o.is_first ≡ false
      → Delivers o (push_later c number value o)
  unfolding push_later
  push_later-Delivers number value o a f =
      elim (Bool-cases (is_in_future c (previous_number c o.next_order) number)) [
        | inl newer ↦ rw newer (
            store_unless-Delivers o (number, value)
              (export_loop c (length o.packets_heap + 2) (some (number, value)) o.packets_heap
                o.next_order)
              a f
              (export-Follows c (length o.packets_heap + 2) o.next_order (some (number, value))
                o.packets_heap))
        | inr older ↦ rw older (
          begun (record o { packets_heap = push (before c) (number, value) o.packets_heap }) a f,
          refl,
        )
      ]

  -- the first packet of all
  push_first-Delivers :
      (number : ℕ) (value : V) (o : PacketOrderer V)
      → IsStrict o
      → o.is_first ≡ true
      → Delivers o (
          if number == 0
          then (
            record o { is_first = false; next_order = next_number c number },
            (number, value) ∷ [],
          )
          else (
            record o {
              is_first = false;
              packets_heap = push (before c) (number, value) o.packets_heap;
            },
            [],
          ))
  push_first-Delivers number value o s f = elim (Bool-cases (number == 0)) [
    | inl zeroth ↦
        let same : number ≡ o.next_order =
          omega (arith, (==_iff number 0).0 zeroth, (s.first f).0) in
        rw zeroth (
          begun (record o { is_first = false; next_order = next_number c number }) s.strict refl,
          (same, ap (next_number c) same),
        )
    | inr later ↦ rw later (
      begun
          (record o {
            is_first = false;
            packets_heap = push (before c) (number, value) o.packets_heap;
          })
          s.strict refl,
      refl,
    )
  ]

  push_packet-Delivers :
      (number : ℕ) (value : V) (o : PacketOrderer V)
      → IsStrict o
      → Delivers o (push_packet c number value o)
  unfolding push_packet
  push_packet-Delivers number value o s =
      if_holds (Delivers o)
        (not o.is_first
          && not o.allow_older_packets
          && not (is_in_future c (previous_number c o.next_order) number))
        (o, []) _ (λ old. (s, refl))
        (λ new.
          if_false (Delivers o) (skips_in_push o.allow_missing_packets) _ _
            (ap skips_in_push s.strict)
            (if_holds (Delivers o) o.is_first _ _ (λ f. push_first-Delivers number value o s f)
              (λ f.
                push_later-Delivers number value (record o { is_first = false }) s.strict refl)))

  -- a heap with packets is behind the first packet
  not_first :
      (o : PacketOrderer V)
      → IsStrict o
      → head_is o.next_order o.packets_heap ≡ true
      → o.is_first ≡ false
  not_first o s ready = elim (Bool-cases o.is_first) [
    | inr later ↦ later
    | inl yes_first ↦
        let never : head_is {V = V} o.next_order [] ≡ true =
          sym (ap (head_is o.next_order) ((s.first yes_first).1)) ∙ ready in
        cc
  ]

  dump_with-Delivers :
      (limit : Option ℕ) (o : PacketOrderer V) → IsStrict o → Delivers o (dump_with c limit o)
  unfolding dump_with
  dump_with-Delivers limit o s =
      if_false (Delivers o) (skips_in_dump o.allow_missing_packets) _ _ (ap skips_in_dump s.strict)
        (if_holds (Delivers o) (head_is o.next_order o.packets_heap) _ (o, [])
          (λ ready. (
            begun
                (settle c o (
                  dump_loop c (length o.packets_heap + 1) false
                    (if length o.packets_heap == 1 then none else limit) o.packets_heap
                    o.next_order)).0
                s.strict (not_first o s ready),
            (dump-Sound c (length o.packets_heap + 1) o.next_order
                (if length o.packets_heap == 1 then none else limit) o.packets_heap).follows,
          ))
          (λ gap. (s, refl)))

-- the calls of an orderer
pub data Call {ℓ} (V : Type ℓ) : Type ℓ where
  push_call : ℕ → V → Call V
  dump_call : ℕ → Call V
  dump_all_call : Call V

module _ {ℓ} {V : Type ℓ} (c : Width) where
  abbrev pub call : Call V → PacketOrderer V → PacketOrderer V × List (Packet V)
  call (push_call number value) o = push_packet c number value o
  call (dump_call number) o = dump c number o
  call dump_all_call o = dump_all c o

  -- the orderer after some calls, and all the packets that they gave
  abbrev pub run_calls : List (Call V) → PacketOrderer V → PacketOrderer V × List (Packet V)
  run_calls [] o = (o, [])
  run_calls (x ∷ xs) o =
      let (o', out) = call x o in let (o'', more) = run_calls xs o' in (o'', out ++ more)

  call-Delivers : (x : Call V) (o : PacketOrderer V) → IsStrict c o → Delivers c o (call x o)
  unfolding dump dump_all
  call-Delivers (push_call number value) o s = push_packet-Delivers c number value o s
  call-Delivers (dump_call number) o s =
      if_holds (Delivers c o)
        (length o.packets_heap == 0 || not (is_in_future c (previous_number c o.next_order) number))
        (o, []) _ (λ e. (s, refl)) (λ e. dump_with-Delivers c (some number) o s)
  call-Delivers dump_all_call o s =
      if_holds (Delivers c o) (length o.packets_heap == 0) (o, []) _ (λ e. (s, refl))
        (λ e. dump_with-Delivers c none o s)

  run_calls-Delivers :
      (xs : List (Call V)) (o : PacketOrderer V) → IsStrict c o → Delivers c o (run_calls xs o)
  run_calls-Delivers [] o s = (s, refl)
  run_calls-Delivers (x ∷ xs) o s =
      let now = call-Delivers x o s in
      let later = run_calls-Delivers xs (call x o).0 now.0 in
      (later.0, Follows-append c o.next_order _ _ (call x o).1 _ now.1 later.1)

  -- Whatever calls of Push, Dump and DumpAll are made on a new orderer that allows no missing packet,
  -- in whatever order the packets arrive: the packets that the calls give, taken together, start
  -- with the number 0, each has the successor of the number before it in the type of the numbers,
  -- and the next number of the orderer is the successor of the last.
  pub delivered_in_order :
      (older : Bool) (xs : List (Call V))
      → Follows c 0
          (run_calls xs (new_packet_orderer allow_none older)).1
          (run_calls xs (new_packet_orderer allow_none older)).0.next_order
  unfolding new_packet_orderer
  delivered_in_order older xs =
      (run_calls-Delivers xs (new_packet_orderer allow_none older)
        (record { strict = refl; first = λ e. (refl, refl) })).1
