-- ===== src/Tests/Drivers.antt =====
-- The bus drivers at concrete inputs: SDIO, SPI half duplex, their throttling and the INIT event.
use esp_hosted_open.Prelude.{
  ℕ, ◌+◌, ◌-◌, ◌/◌, ◌%◌, ◌^◌, ◌≤◌, ◌≡◌, refl, true, false, none, some, List, [], ◌∷◌, ◌++◌, arith,
  length,
}
use esp_hosted_open.Transport.{
  BufHandle, active, header_bytes, frame, tx_header, checksum_of, copy_payload, flag_events,
}
use esp_hosted_open.Transport.Queues.{empty, Rx, send, append_packet, class_of, give, deliver}
use esp_hosted_open.Transport.Throttle.{Throttle, load_percent}
use esp_hosted_open.Transport.Throttle.FlowControl.{
  Flow, FlowStep, FlowReach, flow_start, flow_ctrl_packet, flow_ctrl_send, last_sent,
  FlowReach-last_sent, start_flow, trigger,
}
use esp_hosted_open.Transport.Startup.{
  Build, startup_frame, spi_tlvs, sdio_tlvs, spi_hd_tlvs, uart_tlvs,
}
use esp_hosted_open.Transport.Startup.Walk.{
  host_view, spi_elements, sdio_elements, wide_elements, host_view-startup,
}
use esp_hosted_open.Transport.SpiHd.{
  SpiHd, esp_spi_hd_write, generate_startup_event, spi_hd_tx_done,
}
use esp_hosted_open.Transport.SpiHd.Tokens.{HasTokens, Keeps, tokens-Keeps}
use esp_hosted_open.Transport.SpiHd.Counter.{cb_tx_ready_all, cb_tx_ready-pending}
use esp_hosted_open.Transport.Sdio
use esp_hosted_open.Transport.Sdio.{Sdio, sdio_write, sdio_tx_done, sdio_rx_round}
use esp_hosted_open.Transport.Sdio.Tokens
use esp_hosted_open.Transport.Sdio.Tokens.{sdio-Keeps}
use esp_hosted_open.Transport.Sdio.RoundTrip.{sdio_packet_of, sdio_after, sdio_rx_round-sdio_write}
use esp_hosted_open.Transport.Sdio.Reset.{
  SdioDriver, Finished, sdio_init, sdio_deinit, finished, timed_out, sdio_deinit-tokens,
}

abbrev no_packets : Rx
no_packets = record { queues = empty; sem = 0; events = [] }

abbrev note : BufHandle
note = record {
  if_type = 1;
  if_num = 0;
  payload = some (λ i. 7);
  flag = 0;
  payload_len = 2;
  seq_num = 9;
  wifi_flow_ctrl_en = 0;
}

abbrev limits : Throttle
limits = record { high = 80; low = 60; current = 0 }

-- the queue has filled up, and the task has sent its packet
abbrev told : Flow
told =
    flow_ctrl_send
      (record (trigger (start_flow 10 9 (flow_start limits))) { sem = false; woken = true })

told_reached : FlowReach 10 (flow_start limits) told
unfolding start_flow trigger load_percent
told_reached =
    FlowReach.next
      (FlowReach.next
        (FlowReach.next (FlowReach.next FlowReach.here (FlowStep.start 9))
          (FlowStep.give (omega arith)))
        (FlowStep.wake refl refl))
      (FlowStep.send refl)

FlowReach-last_sent_example : last_sent told.sent ≡ flow_ctrl_packet told.throttle.current
unfolding start_flow trigger flow_ctrl_send load_percent
FlowReach-last_sent_example = FlowReach-last_sent 10 limits told_reached refl refl refl

abbrev build : Build
build = record {
  chip_id = 13;
  raw_tp_cap = 0;
  rx_size = 20;
  tx_size = 10;
  sdio_mode = 1;
  fw_version = 0x020501;
}

host_view-startup_example :
    (host_view none (startup_frame none (spi_tlvs build 5)) ≡ some (spi_elements build 5))
    × (host_view none (startup_frame none (sdio_tlvs build 5)) ≡ some (sdio_elements build 5))
    × (host_view none (startup_frame none (spi_hd_tlvs build 5 300))
        ≡ some (wide_elements build 5 300))
    × (host_view none (startup_frame none (uart_tlvs build 5 300))
        ≡ some (wide_elements build 5 300))
host_view-startup_example = host_view-startup none build 5 300

abbrev hd_idle : SpiHd
hd_idle = record {
  tx_tokens = 2;
  transmitting = [];
  buffers = 0;
  reloaded = 0;
  tx_ready_buf_size = 16777210;
  rx_ready_buf_num = 0;
  tx_buf_len_reg = 16777210;
  rx_buf_len_reg = 0;
  data_ready = false;
  flow = flow_start limits;
  rx = no_packets;
}

tokens-Keeps_example :
    Keeps true 2 0 hd_idle
      (esp_spi_hd_write none 2 true (some active) (some note) true false hd_idle)
    × Keeps true 2 0 hd_idle (generate_startup_event none 2 true false build 5 300 hd_idle)
    × HasTokens 2 0 (spi_hd_tx_done none 2 true hd_idle)
tokens-Keeps_example =
    tokens-Keeps none 2 true (some active) (some note) true false build 5 300 0 hd_idle
      (omega arith)

cb_tx_ready-pending_example :
    (((cb_tx_ready_all (14 ∷ 20 ∷ []) hd_idle).tx_buf_len_reg % 2 ^ 24 + 2 ^ 24 - 16777210 % 2 ^ 24)
        % 2 ^ 24
      ≡ 34)
    × ((cb_tx_ready_all (14 ∷ 20 ∷ []) hd_idle).tx_buf_len_reg / 2 ^ 24 ≡ 0)
cb_tx_ready-pending_example =
    cb_tx_ready-pending (14 ∷ 20 ∷ []) hd_idle refl (omega arith) (omega arith)

abbrev sdio_idle : Sdio
sdio_idle = record {
  send_tokens = 2;
  sending = [];
  buffers = 0;
  reloaded = 0;
  throttle = limits;
  ints = [];
  rx = no_packets;
}

sdio-Keeps_example :
    Tokens.Keeps 2 0 0 sdio_idle
      (sdio_write none 2 true (some active) (some note) false true false sdio_idle)
    × Tokens.Keeps 2 0 1 sdio_idle (Sdio.generate_startup_event none 2 true false build 5 sdio_idle)
    × Tokens.HasTokens 2 0 (sdio_tx_done none 2 true sdio_idle)
sdio-Keeps_example =
    sdio-Keeps none 2 true (some active) (some note) false true false build 5 0 sdio_idle
      (omega arith)

abbrev note_bytes : List ℕ
note_bytes = 1 ∷ 0 ∷ 2 ∷ 0 ∷ 12 ∷ 0 ∷ 0 ∷ 0 ∷ 9 ∷ 0 ∷ 0 ∷ 0 ∷ 7 ∷ 7 ∷ []

abbrev sdio_sent_note : Sdio
sdio_sent_note = record sdio_idle { send_tokens = 1; sending = note_bytes ∷ []; buffers = 1 }

note_sent :
    sdio_write none 2 true (some active) (some note) false true true sdio_idle
    ≡ Sdio.returns (some 2) sdio_sent_note
unfolding sdio_write frame header_bytes checksum_of copy_payload tx_header
note_sent = refl

abbrev note_received : Rx
note_received = record {
  queues = record {
    serial = [];
    bt = [];
    others = sdio_packet_of none 2 true (tx_header note 0) (7 ∷ 7 ∷ []) (1 ∷ []) ∷ [];
  };
  sem = 1;
  events = [];
}

sdio_rx_round-sdio_write_example :
    (bytes : List ℕ) × (sdio_sent_note.sending ≡ [] ++ bytes ∷ [])
    × (length bytes ≡ 14)
    × (sdio_rx_round none 2 true (bytes ++ 1 ∷ []) 14 sdio_idle
        ≡ some (sdio_after none 2 true 0 sdio_idle note_received))
unfolding deliver send append_packet class_of give flag_events tx_header copy_payload
sdio_rx_round-sdio_write_example =
    sdio_rx_round-sdio_write none 2 true (some active) note false true true 2 sdio_idle
      sdio_sent_note sdio_idle (1 ∷ []) note_received note_sent (omega arith) (omega arith) refl

abbrev sdio_busy : Sdio
sdio_busy = record sdio_idle { send_tokens = 1; sending = [] ∷ [] ∷ [] ∷ [] ∷ []; buffers = 4 }

abbrev busy_driver : SdioDriver
busy_driver = record { state = active; constructs_created = true; io = sdio_busy }

abbrev found : List Finished
found = finished ∷ timed_out ∷ finished ∷ []

sdio_deinit-tokens_example :
    ((sdio_init 5 true true true (sdio_deinit 5 found busy_driver)).0 ≡ some active)
    × ((sdio_init 5 true true true (sdio_deinit 5 found busy_driver)).1.state ≡ active)
    × ((sdio_init 5 true true true (sdio_deinit 5 found busy_driver)).1.io.sending ≡ [])
    × ((sdio_init 5 true true true (sdio_deinit 5 found busy_driver)).1.io.send_tokens + 1 ≤ 5)
sdio_deinit-tokens_example = sdio_deinit-tokens 5 found busy_driver refl refl refl (omega arith)
