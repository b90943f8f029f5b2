-- ===== src/DataPath.antt =====
-- The data path between the bus and the rest of the co-processor: event_handler,
-- power_save_alert_task, recv_task, process_rx_pkt and process_priv_pkt
-- (slave/main/esp_hosted_coprocessor.c), in a build with CONFIG_ESP_HOSTED_CP_WIFI and without
-- TEST_RAW_TP. host_power_save_alert of the alert task is that of Sleep.
pub mod Serial
use esp_hosted_open.Memory.{Memory, read}
use esp_hosted_open.Prelude.{
  ℕ, ◌+◌, ◌%◌, Bool, true, false, not, ◌&&◌, ◌||◌, Option, none, some, List, [], ◌∷◌, ◌++◌, ◌==◌,
  if◌then◌else◌,
}
use esp_hosted_open.Bytes.{u16_at}
use esp_hosted_open.Bus.{Fragment, process_serial_rx_pkt}
use esp_hosted_open.Bus as Bus
use esp_hosted_open.Bus.Reconfig.{
  SlaveConfig, Reconfigured, returned, aborted, starved, host_to_slave_reconfig,
}
use esp_hosted_open.Transport.{
  State, deinit, deactive, active, BusEvent, power_save_on, power_save_off, open_data_path,
  close_data_path, header_size, rx_flags, rx_len, rx_offset,
}
use esp_hosted_open.Sleep.{give_sem}

-- the packets given to esp_wifi_internal_tx for either interface, and to process_hci_rx_pkt
pub data Handed : Type 0 where
  station_tx : List ℕ → Handed
  softap_tx : List ℕ → Handed
  hci_rx : List ℕ → Handed

-- handle is if_handle with its state, host_reset_sem the semaphore with its token, alerts the events
-- of the alert tasks that are there, freed the count of buffers given back.
pub record DataPath : Type 0 where
  pub handle : Option State
  pub datapath : Bool
  pub host_reset_sem : Option Bool
  pub alerts : List BusEvent
  pub station_connected : Bool
  pub softap_started : Bool
  pub serial : Bus.Rx
  pub config : SlaveConfig
  pub handed : List Handed
  pub freed : ℕ

-- if_handle->state > DEACTIVE becomes DEACTIVE
abbrev pub closed : State → State
closed active = deactive
closed s = s

abbrev pub opened : DataPath → Option State → DataPath
opened d none = d
opened d (some s) = record d {
  handle = some active;
  datapath = true;
  host_reset_sem = give_sem d.host_reset_sem;
}

abbrev pub woken : DataPath → Option State → Option DataPath
woken d none = none
woken d (some s) =
    some
      (record d { handle = some active; datapath = true; alerts = d.alerts ++ power_save_off ∷ [] })

-- `none` where it writes through a null if_handle. The alert tasks are created.
unfoldable pub event_handler : BusEvent → DataPath → Option DataPath
event_handler open_data_path d = some (opened d d.handle)
event_handler close_data_path d = some (record d {
  datapath = false;
  handle = elim d.handle [ none ↦ none | some s ↦ some (closed s) ];
})
event_handler power_save_on d = some (record d { alerts = d.alerts ++ power_save_on ∷ [] })
event_handler power_save_off d = woken d d.handle

-- The first alert task, behind its call of host_power_save_alert
abbrev pub alert_ended : List BusEvent → DataPath → DataPath
alert_ended [] d = d
alert_ended (power_save_off ∷ es) d = record d {
  alerts = es;
  host_reset_sem = give_sem d.host_reset_sem;
}
alert_ended (e ∷ es) d = record d { alerts = es }

unfoldable pub power_save_alert_task : DataPath → DataPath
power_save_alert_task d = alert_ended d.alerts d

-- ESP_PRIV_EVENT_INIT
abbrev pub init_event_type : ℕ
init_event_type = 0x22

abbrev pub configured : DataPath → Reconfigured → Option DataPath
configured d (returned ret cfg) = some (record d { config = cfg })
configured d aborted = none
configured d starved = none

-- struct esp_priv_event has its type, its length and its data.
unfoldable pub process_priv_pkt : ℕ → Memory → ℕ → DataPath → Option DataPath
process_priv_pkt fuel m payload_len d =
    if payload_len == 0
    then some d
    else if m 0 == init_event_type
    then configured d (host_to_slave_reconfig fuel (some (λ i. m (i + 2))) (m 1) d.config)
    else some d

-- the fragment behind a header, with MORE_FRAGMENT of its flags
abbrev pub fragment_of : List ℕ → Memory → Fragment
fragment_of header m = record {
  seq_num = u16_at header 8;
  payload = read m (rx_offset header) (rx_len header);
  more_fragment = rx_flags header % 2 == 1;
}

unfoldable pub fragment_at : Memory → Fragment
fragment_at m = fragment_of (read m 0 header_size) m

abbrev pub with_serial : DataPath → Option Bus.Rx → Option DataPath
with_serial d none = none
with_serial d (some r) = some (record d { serial = r })

-- CONFIG_ESP_HOSTED_WIFI_TX_RETRY_ENABLED and BLUETOOTH_HCI
pub record Build : Type 0 where
  pub tx_retry : Bool
  pub bluetooth_hci : Bool

abbrev pub hand : DataPath → List Handed → DataPath
hand d hs = record d { handed = d.handed ++ hs }

-- MAX_WIFI_STA_TX_RETRY calls at most, the second if the first has failed
abbrev pub sta_calls : Build → Bool → List ℕ → List Handed
sta_calls b failed bytes =
    if b.tx_retry && failed then station_tx bytes ∷ station_tx bytes ∷ [] else station_tx bytes ∷ []

-- The packet's way by its interface: ESP_STA_IF is 1, ESP_AP_IF 2, ESP_SERIAL_IF 3, ESP_HCI_IF 4,
-- ESP_PRIV_IF 5. `failed` tells whether the first esp_wifi_internal_tx fails.
unfoldable pub forward : Build → ℕ → Bool → ℕ → Memory → DataPath → Option DataPath
forward b fuel failed if_type m d =
    let header = read m 0 header_size in
    let bytes = read m (rx_offset header) (rx_len header) in
    if if_type == 1 && d.station_connected
    then some (hand d (sta_calls b failed bytes))
    else if if_type == 2 && d.softap_started
    then some (hand d (softap_tx bytes ∷ []))
    else if if_type == 3
    then with_serial d (process_serial_rx_pkt (fragment_at m) d.serial)
    else if if_type == 5
    then process_priv_pkt fuel (λ i. m (i + rx_offset header)) (rx_len header) d
    else if if_type == 4 && b.bluetooth_hci
    then some (hand d (hci_rx bytes ∷ []))
    else some d

-- the buffer goes back to its driver
abbrev pub released : Option DataPath → Option DataPath
released none = none
released (some d) = some (record d { freed = d.freed + 1 })

-- The driver has filled in how to free the buffer. `none` where a serial packet waits for a message to
-- be read, or the INIT event fails its assertion or has no fuel.
unfoldable pub process_rx_pkt : Build → ℕ → Bool → ℕ → Memory → DataPath → Option DataPath
process_rx_pkt b fuel failed if_type m d = released (forward b fuel failed if_type m d)

-- if_type and payload of the handle that the driver's read fills in, with the answer of the Wi-Fi
-- driver that the packet will get
pub record Arrival : Type 0 where
  pub if_type : ℕ
  pub buffer : Memory
  pub tx_failed : Bool

abbrev pub arrived : Build → ℕ → DataPath → Option Arrival → Option DataPath
arrived b fuel d none = some d
arrived b fuel d (some a) = process_rx_pkt b fuel a.tx_failed a.if_type a.buffer d

-- A round of recv_task with a driver that has a read: the packet it gives, if it gives one.
unfoldable pub recv_task : Build → ℕ → Bool → Option Arrival → DataPath → Option DataPath
recv_task b fuel power_saving a d =
    if power_saving || not d.datapath then some d else arrived b fuel d a

abbrev pub and_then : Option DataPath → (DataPath → Option DataPath) → Option DataPath
and_then none k = none
and_then (some d) k = k d

-- rounds that each get a packet
unfoldable pub recv_all : Build → ℕ → List Arrival → DataPath → Option DataPath
recv_all b fuel [] d = some d
recv_all b fuel (a ∷ later) d = and_then (recv_task b fuel false (some a) d) (recv_all b fuel later)
