-- ===== src/Slave/Power.antt =====
-- The transmit power that SET_TX_POWER hands to the driver, in quarters of a dBm (on_set_tx_power of
-- slave/components/phy_rpc_overlay/phy_rpc_handlers.c).
use esp_hosted_open.Prelude.{ℕ, ◌*◌, ◌≤◌, ◌≡◌, arith}
use esp_hosted_open.Slave.Phy.{power_quarters}

-- Whatever byte the host sends, the driver is asked for 8 to 84 quarters of a dBm. A power of 2 to
-- 21 dBm is passed on exactly, and one of 22 to 31 dBm as 84. But a power of 32 to 63 dBm becomes 8,
-- the least, and one of -43 to -33 dBm (the bytes 213 to 223) becomes 84, the greatest: the product
-- is cut to eight bits before it is clamped.
pub power_quarters_lem :
    (dbm : ℕ)
    → ((8 ≤ power_quarters dbm) × (power_quarters dbm ≤ 84))
      × (2 ≤ dbm → dbm ≤ 21 → power_quarters dbm ≡ dbm * 4)
      × (22 ≤ dbm → dbm ≤ 31 → power_quarters dbm ≡ 84)
      × (32 ≤ dbm → dbm ≤ 63 → power_quarters dbm ≡ 8)
      × (213 ≤ dbm → dbm ≤ 223 → power_quarters dbm ≡ 84)
unfolding power_quarters
power_quarters_lem dbm = (
  (ground arith, ground arith),
  λ a b. ground arith,
  λ a b. ground arith,
  λ a b. ground arith,
  λ a b. ground arith,
)
