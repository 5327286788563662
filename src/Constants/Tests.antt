-- ===== src/Constants/Tests.antt =====
-- The table of status names at one status.
use nickdb.Base.{◌≡◌, ◌↔◌, ◌⊎◌, none}
use nickdb.Constants.{status_pin_err, status_no_config, status_str}
use nickdb.Constants.Names.{status_str-none}

status_str-none_example :
    (status_str status_pin_err ≡ none)
    ↔ ((status_pin_err ≡ status_pin_err) ⊎ (status_pin_err ≡ status_no_config))
status_str-none_example = status_str-none status_pin_err (λ e. cc)
