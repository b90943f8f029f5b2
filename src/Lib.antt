-- ===== src/Lib.antt =====
-- esp-hosted-open: control of an ESP co-processor's radio from a host, as RPC over the custom-data channel
-- of esp-hosted.
--
-- The program has two sides. The host (esp_hosted_open/src/phy_rpc.c) packs each API call into a request
-- with a fresh op_id, sends it, and waits on one of four slots for the response with the same op_id and
-- the response id that belongs to the request. The co-processor (slave/components/phy_rpc_overlay on top of
-- slave/main/slave_control.c) looks up the request's id in a table of callbacks, runs the handler, which
-- calls libphy.a and ESP-IDF, and sends the response. Driver callbacks send events, which the host hands
-- to registered callbacks. Both sides share esp_hosted_open/include/phy_rpc_proto.h.
--
-- Files:
--  Prelude, Bytes, Status: shared names and lemmas, little-endian fields, ESP-IDF's status codes.
--  Proto.Ids: the ids of requests, responses and events. Proto.Distinct: ids as a set.
--  Registry: custom_msg_callbacks with esp_hosted_register_custom_callback and the dispatch of
--   handle_custom_rpc_request (slave/main/slave_control.c), and the loop by which a component registers its
--   handlers. Registry.Laws: the table as a finite map. Registry.Capacity: a full table.
--  Slave: the overlay's state, and what it needs of the chip. Slave.Phy, Slave.Extras, Slave.Wireless: the
--   actions of the handlers of phy_rpc_handlers.c, phy_rpc_extras.c and phy_rpc_wireless.c, under the
--   handlers' names (on_set_channel, ...). Slave.Power: the clamp of on_set_tx_power. Slave.Caps: on_get_caps
--   and the fill_caps functions. Slave.Send: esp_hosted_send_custom_data and the response helpers.
--   Slave.Events: the driver callbacks. Slave.Boot: slave_phy_apply and on_wifi_event of
--   phy_rpc_overlay.c. Slave.Handle: the handlers as registered; Slave.Handle.Reply: how they
--   answer; Slave.Handle.Table: which of them the callback table takes.
--  Host.Inflight: s_inflight, on_response and do_call. Host.Inflight.Slots, Host.Inflight.Reach,
--   Host.Inflight.Calls and Host.Inflight.Answers: single operations, reachable states, whole calls, and
--   what they return. Host.Api: the esp_hosted_open_* functions; Host.Refusals: their argument
--   checks. Host.Events: the on_event_* functions and the functions that set the callbacks.
--   Host.Init: esp_hosted_open_init and esp_hosted_open_deinit; Host.Init.Bindings: the callbacks that
--   they bind and remove; Host.Init.Bound: every request and event of the protocol.
--  Link: both sides together. Link.Calls: a call and its handler; Link.Info: the state report;
--   Link.Frames and Link.Addresses: arguments from the host to the driver; Link.Events and
--   Link.Wireless: events from the driver to the host's callbacks; Link.Caps, with Link.Caps.Bits and
--   Link.Caps.Served: the capability bitmap against what the handlers need.
--  Memory: memory behind a pointer.
--  Router: nw_split_filter_and_route_packet (slave/main/nw_split_router.c), which sends a frame from the
--   station interface to the co-processor's network stack, the host's, both or none. Router.Ports, with
--   Router.Ports.Parse: the host's static ports; Router.Sockets, with Router.Sockets.Stale: the caches of
--   is_local_tcp_port_open and is_local_udp_port_open; Router.Route, with Router.Route.Sleeping: the decision;
--   Router.Receive, with Router.Receive.Released: wlan_sta_rx_callback (slave/main/esp_hosted_coprocessor.c),
--   which acts on it and gives the host's packets to process_tx_pkt of Sleep.Wakeup.
--  Serial: parse_tlv, compose_tlv and the loop of rpc_req_handler (slave/main/protocomm_pserial.c).
--   Serial.Framing and Serial.Framing.RoundTrip: what the loop reads. Serial.Task, with
--   Serial.Task.Service: the handlers, the queue and pserial_task.
--  Bus: serial messages in fragments, process_serial_rx_pkt, serial_read_data and serial_write_data
--   (slave/main/esp_hosted_coprocessor.c), with Bus.Reassembly. Bus.Reconfig, with
--   Bus.Reconfig.Elements: host_to_slave_reconfig.
--  Sleep: the host's power save (slave/main/host_power_save.c), with Sleep.Synced on its semaphore.
--   Sleep.Wakeup: trigger_host_wakeup, wakeup_host and its caller process_tx_pkt
--   (slave/main/esp_hosted_coprocessor.c); Sleep.Wakeup.Ends: the loop; Sleep.Wakeup.Packets: the packets.
--  Control.Ota, with Control.Ota.Boot and Control.Ota.Early: the firmware update; Control.Dispatch, with
--   Control.Dispatch.Answer: the dispatcher of the requests; Control.Heartbeat, with
--   Control.Heartbeat.Configure: the heartbeat (all slave/main/slave_control.c).
--  Transport: the bus drivers, and the header in front of each packet; Transport.Frame: a frame and what is
--   read from it. Transport.Queues: the three priority queues and their semaphore, with Transport.Queues.Order
--   and Transport.Queues.Count. Transport.Throttle, with Transport.Throttle.Runs and
--   Transport.Throttle.FlowControl: throttling and flow control by the load of the receive queue.
--   Transport.Startup, with Transport.Startup.Walk: the start-up event of each driver, and the walk over
--   its elements. Transport.Uart, with Transport.Uart.Wire, Transport.Uart.Peer and
--   Transport.Uart.Lost: slave/main/uart_slave_api.c. Transport.Spi, with Transport.Spi.Exchange for
--   process_spi_rx and the SPI task, Transport.Spi.Written, Transport.Spi.Buffers, Transport.Spi.Steps,
--   Transport.Spi.RoundTrip and Transport.Spi.Ready: slave/main/spi_slave_api.c. Transport.SpiHd, with
--   Transport.SpiHd.Tokens, Transport.SpiHd.Counter and Transport.SpiHd.RoundTrip:
--   slave/main/spi_hd_slave_api.c. Transport.Sdio, with Transport.Sdio.Tokens, Transport.Sdio.RoundTrip and
--   Transport.Sdio.Reset: slave/main/sdio_slave_api.c.
--  DataPath: event_handler, recv_task and process_rx_pkt (slave/main/esp_hosted_coprocessor.c), which take the
--   packets of a driver to the Wi-Fi driver, Bus and Bus.Reconfig; DataPath.Serial: a serial message on its way.
--  Tests: instances at concrete inputs.
--
-- State and operations. A C struct is a record, a buffer a list of bytes, a number a native natural whose
-- width is cut where the C code stores it (u8, u32, le16, le32); a signed byte is its bit pattern. A NULL
-- pointer is `none`. The code that is not in the repository enters as a parameter: a Chip tells which weak
-- symbols are linked, what each driver call answers, which may depend on all calls made before, and which
-- mallocs succeed; a World tells what the transport answers and which messages arrive before and after a
-- caller's wait. The slave's log holds the driver calls it has made, its sent list the buffers it has
-- handed to the RPC layer. Every critical section is one step, as its mutex makes it; the writes that
-- do_call makes outside the mutex are steps of their own.
--
-- The co-processor's other parts work in a chain: Bus puts the fragments of a message together, Serial finds
-- the endpoint and the data in it, the handlers of Registry, Slave and Control answer, and the answer goes
-- back through Serial and Bus, where Sleep wakes the host up first. Router decides about the packets that
-- do not come from the host. The drivers of Transport carry the fragments and packets of both, and DataPath
-- hands on what comes in. lwIP, ESP-IDF, FreeRTOS and protocomm answer as parameters there as well.
--
-- Bounds. Three loops over memory use fuel: that of rpc_req_handler, for which the length of a message of
-- whole elements is enough; that of host_to_slave_reconfig, for which one more than the number of
-- elements is enough; and that of serial_write_data, one round for each 1500 bytes. The wake-up loop
-- runs over the list of what its rounds observe. The host's walk over the elements of a start-up event has
-- fuel 16, more than any driver's event has elements; the buffers of SPI and UART have 1600 bytes, the
-- checksum is a parameter that may be absent, and the clean-up of sdio_deinit has the three rounds of the
-- source. The other loops run over lists, and the task loops, such as that of raw_forward_task, are one
-- function for one round. An op_id is below 2^32; where a theorem needs fresh op_ids
-- it says that the counter has not wrapped. A payload has at most 8166 bytes, as in esp_hosted_send_custom_data.
--
-- Not modelled: the Wi-Fi and feature handlers of slave/main and the table that lists them, Bluetooth, the
-- GPIO expander and the statistics, which are mostly calls of ESP-IDF and copies between its structs and
-- those of protobuf; wlan_ap_rx_callback and host_reset_task; the set-up of a bus driver's hardware and
-- tasks and the host's reset of the SPI bus, which are calls of ESP-IDF; code that the configuration
-- leaves out (throttling on UART, the simplified SDIO driver); logging; and the vendored esp-hosted
-- library.
pub mod Prelude
pub mod Bytes
pub mod Memory
pub mod Proto
pub mod Status
pub mod Registry
pub mod Slave
pub mod Host
pub mod Link
pub mod Router
pub mod Serial
pub mod Sleep
pub mod Bus
pub mod Control
pub mod Transport
pub mod DataPath
pub mod Tests
