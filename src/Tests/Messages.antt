-- ===== src/Tests/Messages.antt =====
-- Serial messages and the host's configuration at concrete inputs.
use esp_hosted_open.Memory.{Memory}
use esp_hosted_open.Prelude.{
  ℕ, ◌+◌, ◌<◌, ◌≤◌, ◌≡◌, refl, true, false, none, some, ◌+◌, replicate, length, List, [], ◌∷◌,
  get_or, arith,
}
use esp_hosted_open.Status.{esp_ok}
use esp_hosted_open.Serial.{no_parts, parse_loop, compose_tlv}
use esp_hosted_open.Serial.Framing.{Framed, framed_end, framed_tlv, IsDone, parse_loop-IsDone}
use esp_hosted_open.Serial.Task.{rpc_ep_name_rsp, Services, answer, rpc_req_handler}
use esp_hosted_open.Serial.Task.Service.{rpc_req_handler-compose_tlv}
use esp_hosted_open.Bus.{
  Fragment, Rx, process_serial_rx_pkt_resumed, process_all, process_serial_rx_pkt, serial_read_data,
  serial_write_data, complete, rx_size,
}
use esp_hosted_open.DataPath.{DataPath, Arrival, recv_all}
use esp_hosted_open.DataPath.Serial.{serial_header, recv_all-serial_write_data}
use esp_hosted_open.Transport.{active, header_bytes}
use esp_hosted_open.Transport.Frame.{blank}
use esp_hosted_open.Bus.Reassembly.{
  with_seq, open_message, serial_read_data-serial_write_data, process_serial_rx_pkt-bytes,
  process_serial_rx_pkt_resumed-cut,
}

-- the endpoint "RPCReq" and three bytes of data
abbrev req_name : List ℕ
req_name = 82 ∷ 80 ∷ 67 ∷ 82 ∷ 101 ∷ 113 ∷ []

abbrev three_bytes : List ℕ
three_bytes = 7 ∷ 8 ∷ 9 ∷ []

abbrev message : List ℕ
message = 1 ∷ 6 ∷ 0 ∷ 82 ∷ 80 ∷ 67 ∷ 82 ∷ 101 ∷ 113 ∷ 2 ∷ 3 ∷ 0 ∷ 7 ∷ 8 ∷ 9 ∷ []

abbrev request : Memory
request i = get_or message i 0

-- echo: the handler answers the data, and what is sent is kept
abbrev echo : Services (List ℕ)
echo = record {
  req_handle = λ name session bytes w. (esp_ok, bytes, w);
  xmit = λ bytes w. (esp_ok, bytes);
  can_alloc = λ w. true;
}

request-Framed : Framed request 0 15
request-Framed = framed_tlv 0 15 6 (framed_tlv 9 6 0 (framed_end 15) refl) refl

parse_loop-IsDone_example :
    IsDone 15 (parse_loop 16 request (record { buf = 0; total_len = 15 }) no_parts)
parse_loop-IsDone_example =
    parse_loop-IsDone 16 request 0 15 15 no_parts request-Framed refl (omega arith) (omega arith) tt

rpc_req_handler-compose_tlv_example :
    rpc_req_handler echo 3 request 15 []
    ≡ some (answer echo rpc_ep_name_rsp (esp_ok, three_bytes, []))
unfolding compose_tlv
rpc_req_handler-compose_tlv_example =
    rpc_req_handler-compose_tlv echo 0 request req_name three_bytes []
      (
        ground arith,
        (ground arith, (ground arith, (ground arith, (ground arith, (ground arith, tt))))),
      )
      refl (omega arith) refl (omega arith)
      (
        refl,
        (
          refl,
          (
            refl,
            (
              refl,
              (
                refl,
                (refl, (refl, (refl, (refl, (refl, (refl, (refl, (refl, (refl, (refl, tt)))))))))),
              ),
            ),
          ),
        ),
      )

serial_read_data-serial_write_data_example :
    (process_all (with_seq 5 (serial_write_data 1 0 three_bytes)) (open_message 0 [] [])
      ≡ some (complete (open_message 5 three_bytes [])))
    × (serial_read_data 10 (complete (open_message 5 three_bytes []))
        ≡ (three_bytes, 3, open_message 0 [] (three_bytes ∷ [])))
serial_read_data-serial_write_data_example =
    serial_read_data-serial_write_data 1 0 5 0 three_bytes [] 10 (omega arith) (omega arith)
      (omega arith)

-- 8190 zeros that wait to be read, so that two bytes of the next message are left
abbrev waiting_zeros : Rx
waiting_zeros = record {
  valid = true;
  cur_seq_no = 4;
  bytes = replicate 8190 0;
  messages = replicate 8190 0 ∷ [];
}

abbrev next_bytes : Fragment
next_bytes = record { seq_num = 5; payload = three_bytes; more_fragment = false }

process_serial_rx_pkt_resumed-cut_example :
    (process_serial_rx_pkt next_bytes waiting_zeros ≡ none)
    × ((r : Rx) × (process_serial_rx_pkt_resumed waiting_zeros next_bytes
            (serial_read_data 9000 waiting_zeros).2
          ≡ some r)
        × (length r.bytes + length waiting_zeros.bytes ≡ rx_size)
        × (length r.bytes < 3))
process_serial_rx_pkt_resumed-cut_example =
    process_serial_rx_pkt_resumed-cut next_bytes waiting_zeros 9000 refl (omega arith) (omega arith)

process_serial_rx_pkt-bytes_example : 5 ≤ rx_size
unfolding process_serial_rx_pkt
process_serial_rx_pkt-bytes_example =
    process_serial_rx_pkt-bytes
      (record { seq_num = 5; payload = three_bytes; more_fragment = true })
      (open_message 5 (1 ∷ 2 ∷ []) []) (open_message 5 (1 ∷ 2 ∷ 7 ∷ 8 ∷ 9 ∷ []) []) (omega arith)
      refl

-- a buffer with the frame of the three bytes under the sequence number 5
abbrev carried_bytes : Arrival
carried_bytes = record {
  if_type = 3;
  buffer = λ i.
      get_or
        (blank
          (serial_header 5 (record { seq_num = 5; payload = three_bytes; more_fragment = false }))
          three_bytes)
        i 0;
  tx_failed = false;
}

-- the data path is open and nothing has come yet
abbrev open_path : DataPath
open_path = record {
  handle = some active;
  datapath = true;
  host_reset_sem = some false;
  alerts = [];
  station_connected = false;
  softap_started = false;
  serial = open_message 0 [] [];
  config = record { throttle_high_threshold = 0; throttle_low_threshold = 0 };
  handed = [];
  freed = 0;
}

recv_all-serial_write_data_example :
    recv_all (record { tx_retry = true; bluetooth_hci = true }) 3 (carried_bytes ∷ []) open_path
    ≡ some (record open_path { serial = complete (open_message 5 three_bytes []); freed = 0 + 1 })
unfolding header_bytes serial_write_data
recv_all-serial_write_data_example =
    recv_all-serial_write_data (record { tx_retry = true; bluetooth_hci = true }) 3 1 0 5 0
      three_bytes [] (carried_bytes ∷ []) open_path (omega arith) (omega arith) (omega arith) refl
      refl
      (
        record {
          is_serial = refl;
          holds = (
            refl,
            (
              refl,
              (
                refl,
                (
                  refl,
                  (
                    refl,
                    (
                      refl,
                      (refl, (refl, (refl, (refl, (refl, (refl, (refl, (refl, (refl, tt))))))))),
                    ),
                  ),
                ),
              ),
            ),
          );
        },
        tt,
      )
