-- ===== src/Transport/Queues.antt =====
-- The receive queues of a bus driver, one for each priority, and the counting semaphore beside them:
-- the receive task puts a packet into its queue and gives the semaphore, a reader takes it and
-- looks into the queues in turn (slave/main/uart_slave_api.c and the other drivers).
pub mod Order
pub mod Count
use esp_hosted_open.Prelude.{
  ℕ, zero, suc, ◌+◌, Bool, true, false, Option, none, some, List, [], ◌∷◌, ◌++◌, ltb, ◌==◌,
  if◌then◌else◌, length,
}
use esp_hosted_open.Transport.{BusEvent}

-- PRIO_Q_SERIAL, PRIO_Q_BT, PRIO_Q_OTHERS
pub data Class : Type 0 where
  q_serial : Class
  q_bt : Class
  q_others : Class

-- the queue of a header's if_type, with ESP_SERIAL_IF and ESP_HCI_IF
unfoldable pub class_of : ℕ → Class
class_of if_type = if if_type == 3 then q_serial else if if_type == 4 then q_bt else q_others

-- interface_buffer_handle_t of a received packet; payload starts at the header
pub record Packet : Type 0 where
  pub if_type : ℕ
  pub if_num : ℕ
  pub payload : List ℕ
  pub payload_len : ℕ

pub record Queues : Type 0 where
  pub serial : List Packet
  pub bt : List Packet
  pub others : List Packet

abbrev pub empty : Queues
empty = record { serial = []; bt = []; others = [] }

abbrev pub total : Queues → ℕ
total q = length q.serial + length q.bt + length q.others

-- `none`: the queue is full, and xQueueSend waits
unfoldable pub append_packet : ℕ → Packet → List Packet → Option (List Packet)
append_packet depth p xs = if ltb (length xs) depth then some (xs ++ p ∷ []) else none

abbrev pub with_serial : Queues → Option (List Packet) → Option Queues
with_serial q none = none
with_serial q (some xs) = some (record q { serial = xs })

abbrev pub with_bt : Queues → Option (List Packet) → Option Queues
with_bt q none = none
with_bt q (some xs) = some (record q { bt = xs })

abbrev pub with_others : Queues → Option (List Packet) → Option Queues
with_others q none = none
with_others q (some xs) = some (record q { others = xs })

abbrev pub send_to : Class → ℕ → Packet → Queues → Option Queues
unfolding append_packet
send_to q_serial depth p q = with_serial q (append_packet depth p q.serial)
send_to q_bt depth p q = with_bt q (append_packet depth p q.bt)
send_to q_others depth p q = with_others q (append_packet depth p q.others)

unfoldable pub send : ℕ → Packet → Queues → Option Queues
unfolding append_packet
send depth p q = send_to (class_of p.if_type) depth p q

-- the first queue with a packet, and `none` where xQueueReceive fails on all three
abbrev pub receive_from : List Packet → List Packet → List Packet → Option (Packet × Queues)
receive_from (p ∷ xs) ys zs = some (p, record { serial = xs; bt = ys; others = zs })
receive_from [] (p ∷ ys) zs = some (p, record { serial = []; bt = ys; others = zs })
receive_from [] [] (p ∷ zs) = some (p, record { serial = []; bt = []; others = zs })
receive_from [] [] [] = none

unfoldable pub receive : Queues → Option (Packet × Queues)
receive q = receive_from q.serial q.bt q.others

-- xSemaphoreGive of a counting semaphore; past its maximum it fails and changes nothing
unfoldable pub give : ℕ → ℕ → ℕ
give max sem = if ltb sem max then suc sem else sem

-- what a driver's receive side holds, with the handler's calls in their order
pub record Rx : Type 0 where
  pub queues : Queues
  pub sem : ℕ
  pub events : List BusEvent

abbrev pub delivered : ℕ → Rx → Option Queues → Option Rx
delivered max rx none = none
delivered max rx (some q) = some (record rx { queues = q; sem = give max rx.sem })

-- xQueueSend and xSemaphoreGive; `none` where the task waits for a reader
unfoldable pub deliver : ℕ → ℕ → Packet → Rx → Option Rx
unfolding send
deliver depth max p rx = delivered max rx (send depth p rx.queues)

-- a reader: it waits for the semaphore, finds no packet, or has one
pub data Fetched : Type 0 where
  waits : Fetched
  nothing : Rx → Fetched
  got : Packet → Rx → Fetched

abbrev pub fetched : Rx → Option (Packet × Queues) → Fetched
fetched rx none = nothing rx
fetched rx (some (p, q)) = got p (record rx { queues = q })

abbrev pub fetch_after : ℕ → Rx → Fetched
fetch_after zero rx = waits
fetch_after (suc n) rx = fetched (record rx { sem = n }) (receive rx.queues)

-- xSemaphoreTake and the chain of xQueueReceive
unfoldable pub fetch : Rx → Fetched
fetch rx = fetch_after rx.sem rx

-- the length of the packet that a read hands out
pub data Answer : Type 0 where
  fails : Rx → Answer
  waits_for_ever : Answer
  packet : ℕ → Packet → Rx → Answer

abbrev pub answer : Fetched → Answer
answer waits = waits_for_ever
answer (nothing rx) = fails rx
answer (got p rx) = packet p.payload_len p rx
