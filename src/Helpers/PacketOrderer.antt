-- ===== src/Helpers/PacketOrderer.antt =====
-- helpertools/PacketOrdererHeap.go: packets that arrive out of order leave in the order of their
-- numbers. Every method holds the lock to its end. An exported value stands with its number; Go's
-- nil is the empty list. The lines that print are left out.
pub mod Exports
pub mod Delivery
pub mod Lossless
pub mod Missing
use go_webtools.Base.{
  ℕ, zero, suc, ◌+◌, ◌-◌, ◌*◌, ◌/◌, ◌%◌, ◌^◌, ◌≡◌, Bool, true, false, not, ◌&&◌, ◌||◌, List, [],
  ◌∷◌, ◌++◌, Option, none, some, ltb, leb, ◌==◌, if◌then◌else◌, length, get_elem?, nat_eq,
}
use go_webtools.Helpers.Width.{Width, modulus}
use go_webtools.Helpers.ReplayWindow.{sub}
use go_webtools.Helpers.SafeMap.{Map, set, has}
use go_webtools.Helpers.PacketHeap.{push, pop}

-- PacketOrdererAllowMissingPackets
pub data AllowMissing : Type 0 where
  allow_none allow_in_dump allow_in_dump_and_push : AllowMissing

-- a packet: its number and its data
abbrev pub Packet {ℓ} : Type ℓ → Type ℓ
Packet V = ℕ × V

pub record PacketOrderer {ℓ} (V : Type ℓ) : Type ℓ where
  pub packets_heap : List (Packet V)
  pub allow_missing_packets : AllowMissing
  pub allow_older_packets : Bool
  pub next_order : ℕ
  pub is_first : Bool

-- What a loop of exports leaves: the exported packets, the heap and the next number.
abbrev pub Exported {ℓ} : Type ℓ → Type ℓ
Exported V = List (Packet V) × List (Packet V) × ℕ

-- `allowMissingPackets == AllowInDumpAndPush`
abbrev pub skips_in_push : AllowMissing → Bool
skips_in_push allow_in_dump_and_push = true
skips_in_push _ = false

-- `allowMissingPackets == AllowInDump || allowMissingPackets == AllowInDumpAndPush`
abbrev pub skips_in_dump : AllowMissing → Bool
skips_in_dump allow_none = false
skips_in_dump _ = true

-- IsSequenceNumberInFuture
unfoldable pub is_in_future : Width → ℕ → ℕ → Bool
is_in_future c edge number =
    let jump = sub c number edge in ltb 0 jump && leb jump ((modulus c - 1) / 2)

-- a number behind the limit ends a Dump
abbrev pub ends_at : Width → Option ℕ → ℕ → Bool
ends_at c none k = false
ends_at c (some number) k = is_in_future c number k

-- `n + 1` and `n - 1` in the type of the numbers
abbrev pub next_number : Width → ℕ → ℕ
next_number c n = (n + 1) % modulus c

abbrev pub previous_number : Width → ℕ → ℕ
previous_number c n = sub c n 1

module _ (c : Width) where
  -- `rounds` numbers from `order` on, without those that are stored
  unfoldable pub missing_from : (ℕ → Bool) → ℕ → ℕ → List ℕ
  missing_from stored zero order = []
  missing_from stored (suc rounds) order =
      let rest = missing_from stored rounds (next_number c order) in
      if stored order then rest else order ∷ rest

  -- the loop over an empty heap: `order + i` for `rounds` numbers from `i` on
  unfoldable pub missing_behind : (rounds i order : ℕ) → List ℕ
  missing_behind zero i order = []
  missing_behind (suc rounds) i order =
      (order + i) % modulus c ∷ missing_behind rounds (i + 1) order

module _ {ℓ} {V : Type ℓ} where
  unfoldable pub new_packet_orderer : AllowMissing → Bool → PacketOrderer V
  new_packet_orderer allow older = record {
    packets_heap = [];
    allow_missing_packets = allow;
    allow_older_packets = older;
    next_order = 0;
    is_first = true;
  }

  -- `len(heap) != 0 && heap[0].Key == next`
  abbrev pub head_is : ℕ → List (Packet V) → Bool
  head_is n [] = false
  head_is n ((k, v) ∷ h) = k == n

  module _ (c : Width) where
    -- Less of the heap
    abbrev pub before : Packet V → Packet V → Bool
    before (a, v) (b, w) = is_in_future c a b

    -- a packet in front of the exports that follow
    abbrev pub led : Packet V → Exported V → Exported V
    led p (out, h, n) = (p ∷ out, h, n)

    -- The loop of PushWithMissingPacketOption; `pending` is the pushed packet until it is exported.
    unfoldable pub export_loop : ℕ → Option (Packet V) → List (Packet V) → ℕ → Exported V
    export_loop zero pending h n = ([], h, n)
    export_loop (suc fuel) pending h n =
        if head_is n h
        then elim (pop before h) [
          | none ↦ ([], h, n)
          | some ((k, v), h') ↦ led (k, v) (export_loop fuel pending h' (next_number c k))
        ]
        else elim pending [
          | none ↦ ([], h, n)
          | some (k, v) ↦
              let rest = export_loop fuel none h (next_number c k) in
              if n == k then led (k, v) rest else ([], h, n)
        ]

    -- after the loop: without an export the packet is stored
    abbrev pub store_unless :
        PacketOrderer V → Packet V → Exported V → PacketOrderer V × List (Packet V)
    store_unless o p ([], h, n) = (record o { packets_heap = push before p o.packets_heap }, [])
    store_unless o p (q ∷ out, h, n) = (record o { packets_heap = h; next_order = n }, q ∷ out)

    -- a packet after the first: each heap element is exported once at most, and the packet itself
    unfoldable pub push_later : ℕ → V → PacketOrderer V → PacketOrderer V × List (Packet V)
    unfolding export_loop
    push_later number value o =
        let exported =
          export_loop (length o.packets_heap + 2) (some (number, value)) o.packets_heap
            o.next_order in
        if is_in_future c (previous_number c o.next_order) number
        then store_unless o (number, value) exported
        else (record o { packets_heap = push before (number, value) o.packets_heap }, [])

    unfoldable pub push_with_option :
        ℕ → V → AllowMissing → PacketOrderer V → PacketOrderer V × List (Packet V)
    unfolding push_later
    push_with_option number value allow o =
        let started = record o { is_first = false } in
        let exported : PacketOrderer V × List (Packet V) =
          (record started { next_order = next_number c number }, (number, value) ∷ []) in
        if not o.is_first
          && not o.allow_older_packets
          && not (is_in_future c (previous_number c o.next_order) number)
        then (o, [])
        else (if skips_in_push allow
            then exported
            else (if o.is_first
                then (if number == 0 then exported else (
                  record started { packets_heap = push before (number, value) o.packets_heap },
                  [],
                ))
                else push_later number value started))

    unfoldable pub push_packet : ℕ → V → PacketOrderer V → PacketOrderer V × List (Packet V)
    unfolding push_with_option
    push_packet number value o = push_with_option number value o.allow_missing_packets o

    -- The loops of Dump and DumpAll: `limit` is the number that ends a Dump. With `skip` the heap is
    -- emptied, otherwise up to a gap.
    unfoldable pub dump_loop : ℕ → Bool → Option ℕ → List (Packet V) → ℕ → Exported V
    dump_loop zero skip limit h n = ([], h, n)
    dump_loop (suc fuel) skip limit h n = elim (get_elem? h 0) [
      | none ↦ ([], h, n)
      | some (k, v) ↦
          if (not skip && not (k == n)) || ends_at c limit k
          then ([], h, n)
          else elim (pop before h) [
            | none ↦ ([], h, n)
            | some ((j, w), h') ↦ led (j, w) (dump_loop fuel skip limit h' (next_number c j))
          ]
    ]

    abbrev pub settle : PacketOrderer V → Exported V → PacketOrderer V × List (Packet V)
    settle o (out, h, n) = (record o { packets_heap = h; next_order = n }, out)

    -- Dump and DumpAll behind their first tests. A heap of one packet is exported without a look at
    -- the limit, where no packet may be skipped.
    unfoldable pub dump_with : Option ℕ → PacketOrderer V → PacketOrderer V × List (Packet V)
    unfolding dump_loop
    dump_with limit o =
        let fuel = length o.packets_heap + 1 in
        if skips_in_dump o.allow_missing_packets
        then settle o (dump_loop fuel true limit o.packets_heap o.next_order)
        else (if head_is o.next_order o.packets_heap
            then settle o (
                dump_loop fuel false (if length o.packets_heap == 1 then none else limit)
                  o.packets_heap o.next_order)
            else (o, []))

    unfoldable pub dump : ℕ → PacketOrderer V → PacketOrderer V × List (Packet V)
    unfolding dump_with
    dump number o =
        if length o.packets_heap == 0
          || not (is_in_future c (previous_number c o.next_order) number)
        then (o, [])
        else dump_with (some number) o

    unfoldable pub dump_all : PacketOrderer V → PacketOrderer V × List (Packet V)
    unfolding dump_with
    dump_all o = if length o.packets_heap == 0 then (o, []) else dump_with none o

    unfoldable pub has_number : ℕ → List (Packet V) → Bool
    has_number n [] = false
    has_number n ((k, v) ∷ h) = k == n || has_number n h

    -- the map of the numbers in the heap
    unfoldable pub present : List (Packet V) → Map ℕ ℕ
    unfolding set
    present [] = []
    present ((k, v) ∷ h) = set k 0 (present h)

    -- whether a packet is stored: by the map in a heap of more than 32 packets, else by a search
    unfoldable pub is_stored : List (Packet V) → ℕ → Bool
    unfolding has present has_number
    is_stored h n = if ltb 32 (length h) then has n (present h) else has_number n h

    unfoldable pub get_missing_order_numbers : ℕ → PacketOrderer V → List ℕ
    unfolding missing_from missing_behind is_stored
    get_missing_order_numbers number o =
        let distance = sub c number o.next_order in
        if is_in_future c o.next_order number
        then (if length o.packets_heap == 0
            then missing_behind c distance 1 o.next_order
            else missing_from c (is_stored o.packets_heap) distance (next_number c o.next_order))
        else []
