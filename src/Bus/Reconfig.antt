-- ===== src/Bus/Reconfig.antt =====
-- The host's configuration in its INIT event: host_to_slave_reconfig and process_priv_pkt
-- (slave/main/esp_hosted_coprocessor.c), in a build without TEST_RAW_TP. The event is memory.
pub mod Elements
use esp_hosted_open.Memory.{Memory}
use esp_hosted_open.Prelude.{
  ℕ, zero, suc, ◌+◌, ◌-◌, ◌%◌, Bool, true, false, Option, none, some, ltb, ◌==◌, if◌then◌else◌,
}
use esp_hosted_open.Status.{esp_ok, esp_fail}

-- slv_cfg_g
pub record SlaveConfig : Type 0 where
  pub throttle_high_threshold : ℕ
  pub throttle_low_threshold : ℕ

-- SLV_CONFIG_THROTTLE_HIGH_THRESHOLD and SLV_CONFIG_THROTTLE_LOW_THRESHOLD
abbrev pub throttle_high_tag : ℕ
throttle_high_tag = 0x47

abbrev pub throttle_low_tag : ℕ
throttle_low_tag = 0x48

-- the branches of the loop, on a tag and the byte behind its length; the other tags are only logged
abbrev pub set_tag : ℕ → ℕ → SlaveConfig → SlaveConfig
set_tag tag value cfg =
    if tag == throttle_high_tag
    then record cfg { throttle_high_threshold = value }
    else if tag == throttle_low_tag
    then record cfg { throttle_low_threshold = value }
    else cfg

-- len_left -= tag_len + 2, in uint8_t
abbrev pub left_after : ℕ → ℕ → ℕ
left_after len_left tag_len = (len_left + 512 - (tag_len + 2)) % 256

unfoldable pub tag_loop : ℕ → Memory → ℕ → ℕ → SlaveConfig → Option SlaveConfig
tag_loop zero m pos len_left cfg = none
tag_loop (suc fuel) m pos len_left cfg =
    let rest =
      tag_loop fuel m (pos + m (pos + 1) + 2) (left_after len_left (m (pos + 1)))
        (set_tag (m pos) (m (pos + 2)) cfg) in
    if len_left == 0 then some cfg else rest

-- How the function ends: with a status, by its failed assertion, or without fuel.
pub data Reconfigured : Type 0 where
  returned : ℕ → SlaveConfig → Reconfigured
  aborted : Reconfigured
  starved : Reconfigured

abbrev pub finished : Option SlaveConfig → Reconfigured
finished none = starved
finished (some cfg) = returned esp_ok cfg

unfoldable pub host_to_slave_reconfig : ℕ → Option Memory → ℕ → SlaveConfig → Reconfigured
host_to_slave_reconfig fuel none len cfg = returned esp_fail cfg
host_to_slave_reconfig fuel (some m) len cfg =
    if ltb 64 len then aborted else finished (tag_loop fuel m 0 (len % 256) cfg)
