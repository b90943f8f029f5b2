-- ===== src/Status.antt =====
-- The esp_err_t values that the program uses, as 32-bit patterns (ESP_FAIL is -1). They are those of
-- ESP-IDF's esp_err.h, as tests/host/shims/esp_err.h repeats them.
use esp_hosted_open.Prelude.{ℕ}

abbrev pub esp_ok : ℕ
esp_ok = 0

abbrev pub esp_fail : ℕ
esp_fail = 0xFFFFFFFF

abbrev pub esp_err_no_mem : ℕ
esp_err_no_mem = 0x101

abbrev pub esp_err_invalid_arg : ℕ
esp_err_invalid_arg = 0x102

abbrev pub esp_err_invalid_state : ℕ
esp_err_invalid_state = 0x103

abbrev pub esp_err_invalid_size : ℕ
esp_err_invalid_size = 0x104

abbrev pub esp_err_not_found : ℕ
esp_err_not_found = 0x105

abbrev pub esp_err_not_supported : ℕ
esp_err_not_supported = 0x106

abbrev pub esp_err_timeout : ℕ
esp_err_timeout = 0x107
