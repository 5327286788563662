-- ===== src/Constants/Names.antt =====
-- Which statuses have a name in `status_str` of src/lib/constants.c.
use nickdb.Base.{◌≡◌, ◌≢◌, ◌↔◌, ◌⊎◌, none, arith}
use nickdb.Constants.{
  Status, status_pin_err, status_no_config, status_max, status_ok, status_code, status_str,
}

-- For a status other than STATUS_MAX, the entry of status_str is null exactly if the status is
-- STATUS_PIN_ERR or STATUS_NO_CONFIG.
pub status_str-none :
    (s : Status)
    → s ≢ status_max
    → (status_str s ≡ none) ↔ ((s ≡ status_pin_err) ⊎ (s ≡ status_no_config))
unfolding status_str
status_str-none status_ok h = ground arith
status_str-none _ h = ground arith

-- Two statuses with one code are the same status.
pub status_code-injective : (s t : Status) → status_code s ≡ status_code t → s ≡ t
unfolding status_code
status_code-injective s t h = ground arith
