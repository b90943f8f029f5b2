-- ===== src/Link.antt =====
-- The two sides together: what the host's API sends (esp_hosted_open/src/phy_rpc.c) is what the
-- co-processor's handlers read (slave/components/phy_rpc_overlay).
pub mod Frames
pub mod Events
pub mod Wireless
pub mod Caps
pub mod Addresses
pub mod Calls
pub mod Info
use esp_hosted_open.Prelude.{ℕ, List, [], ◌++◌}
use esp_hosted_open.Bytes.{le32}
use esp_hosted_open.Host.Inflight.{Rpc}
use esp_hosted_open.Host.Api.{Checked, refuse, send}

-- What do_call sends for a request under an op_id.
abbrev pub wire : ℕ → Rpc → List ℕ
wire op r = le32 op ++ r.req_body

-- The body that a checked function sends; `[]` if it refuses.
abbrev pub request_of : Checked → List ℕ
request_of (refuse st) = []
request_of (send r) = r.req_body
