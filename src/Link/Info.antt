-- ===== src/Link/Info.antt =====
-- The state report: what GET_INFO answers with (on_get_info of
-- slave/components/phy_rpc_overlay/phy_rpc_handlers.c) is what esp_hosted_open_get_info
-- (esp_hosted_open/src/phy_rpc.c) reads.
use esp_hosted_open.Prelude.{ℕ, ◌≡◌, refl, List, arith}
use esp_hosted_open.Bytes.{byte_at}
use esp_hosted_open.Slave.{Chip, Slave}
use esp_hosted_open.Slave.Phy.{on_get_info, on_set_channel, fw_version}
use esp_hosted_open.Slave.Handle.Reply.{body_of, status_of}
use esp_hosted_open.Status.{esp_ok}
use esp_hosted_open.Host.Api.{Info, read_info, is_set}

-- what the host is to learn of a state
abbrev pub report_of : Slave → Info
report_of s = record {
  channel = s.state.channel;
  tx_power_dbm = s.state.tx_power_dbm;
  phy_11p_armed = is_set (s.state.phy_11p_armed);
  cca_enabled = is_set (s.state.cca_enabled);
  low_rate_enabled = is_set (s.state.low_rate_enabled);
  agc_max_gain = s.state.agc_max_gain;
  fw_version = fw_version;
}

-- In every state, what esp_hosted_open_get_info makes of the body that GET_INFO answers with is the
-- co-processor's state, field by field, and its whole version string; and once SET_CHANNEL has
-- answered ESP_OK, the channel that is reported next is the one that was asked for.
pub read_info-on_get_info :
    (chip : Chip) (req set_req : List ℕ) (s : Slave)
    → (read_info (body_of (on_get_info chip req s).0) ≡ report_of s)
      × (status_of (on_set_channel chip set_req s).0 ≡ esp_ok
          → (read_info (body_of (on_get_info chip req (on_set_channel chip set_req s).1).0)).channel
            ≡ byte_at set_req 4)
unfolding read_info on_get_info on_set_channel
read_info-on_get_info chip req set_req s = (refl, λ e. ground arith)
