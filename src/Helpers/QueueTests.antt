-- ===== src/Helpers/QueueTests.antt =====
-- The packet orderer and the slices at concrete inputs.
use go_webtools.Base.{
  ℕ, ◌+◌, ◌≡◌, refl, true, false, not, ◌&&◌, ◌||◌, List, [], ◌∷◌, ◌++◌, nat_eq, ltb, leb, take,
  drop, arith,
}
use go_webtools.Base.Decimal.{pos}
use go_webtools.Helpers.Width.{uint8}
use go_webtools.Helpers.ReplayWindow.{sub}
use go_webtools.Helpers.PacketHeap.{push, pop}
use go_webtools.Helpers.PacketHeap.Weights.{total}
use go_webtools.Helpers.PacketOrderer.{
  allow_none, allow_in_dump_and_push, Packet, PacketOrderer, new_packet_orderer, push_packet,
  push_with_option, dump_all, is_in_future, has_number, get_missing_order_numbers,
}
use go_webtools.Helpers.PacketOrderer.Exports.{Follows}
use go_webtools.Helpers.PacketOrderer.Delivery.{
  Call, push_call, dump_all_call, run_calls, delivered_in_order,
}
use go_webtools.Helpers.PacketOrderer.Lossless.{push_packet_keeps}
use go_webtools.Helpers.PacketOrderer.Missing.{is_listed, get_missing_order_numbers_lem}
use go_webtools.Helpers.SafeSlice.{remove_element_at_index}
use go_webtools.Helpers.SafeSlice.Edits.{remove_element_lem}

-- 2 and 1 arrive before 0, and 4 before 3
abbrev calls : List (Call ℕ)
calls =
    push_call 2 20
    ∷ push_call 1 10
    ∷ dump_all_call
    ∷ push_call 0 0
    ∷ push_call 4 40
    ∷ push_call 3 30
    ∷ []

all_delivered :
    (run_calls uint8 calls (new_packet_orderer allow_none false)).1
    ≡ (0, 0) ∷ (1, 10) ∷ (2, 20) ∷ (3, 30) ∷ (4, 40) ∷ []
unfolding push_packet dump_all new_packet_orderer push pop is_in_future
all_delivered = refl

delivered_in_order_example :
    Follows uint8 0
      (run_calls uint8 calls (new_packet_orderer allow_none false)).1
      (run_calls uint8 calls (new_packet_orderer allow_none false)).0.next_order
delivered_in_order_example = delivered_in_order uint8 false calls

-- 3 is expected, and 5 waits
abbrev waiting : PacketOrderer ℕ
waiting = record {
  packets_heap = (5, 50) ∷ [];
  allow_missing_packets = allow_none;
  allow_older_packets = false;
  next_order = 3;
  is_first = false;
}

newer :
    (waiting.allow_older_packets || is_in_future uint8 (sub uint8 waiting.next_order 1) 3) ≡ true
unfolding is_in_future
newer = refl

push_packet_keeps_example :
    total (λ (p : Packet ℕ). p.0) (push_packet uint8 3 30 waiting).0.packets_heap
      + total (λ (p : Packet ℕ). p.0) (push_packet uint8 3 30 waiting).1
    ≡ total (λ (p : Packet ℕ). p.0) waiting.packets_heap + 3
push_packet_keeps_example =
    push_packet_keeps uint8 3 30 waiting (λ (p : Packet ℕ). p.0) refl refl refl newer

-- a push that skips to 4 leaves 5 as the next number, and the packet 9 of the next push is lost
lost :
    (let (o, out) = push_with_option uint8 4 40 allow_in_dump_and_push waiting in
      push_packet uint8 9 90 o)
    ≡ (record waiting { packets_heap = []; next_order = 6 }, (5, 50) ∷ [])
unfolding push_packet push_with_option pop is_in_future
lost = refl

get_missing_order_numbers_lem_example : is_listed 4 (get_missing_order_numbers uint8 6 waiting) ≡ (
    is_in_future uint8 waiting.next_order 6
    && (ltb 0 (sub uint8 4 waiting.next_order)
        && leb (sub uint8 4 waiting.next_order) (sub uint8 6 waiting.next_order))
    && not (has_number uint8 4 waiting.packets_heap))
get_missing_order_numbers_lem_example =
    get_missing_order_numbers_lem uint8 6 4 waiting (omega arith) (omega arith) (omega arith)

abbrev letters : List ℕ
letters = 10 ∷ 20 ∷ 30 ∷ []

remove_element_lem_example :
    remove_element_at_index letters (pos 1) ≡ take 1 letters ++ drop (1 + 1) letters
remove_element_lem_example = remove_element_lem letters 1
