-- ===== src/Os/Identity.antt =====
-- `HAL_GetProductKey`, `HAL_GetProductSecret`, `HAL_GetDeviceName`, `HAL_GetDeviceSecret` and
-- `HAL_GetFirmwareVersion`. The sizes IOTX_..._LEN are defined outside the repository: they are
-- arguments.
use clink3_wiki.Prelude.{ℕ, ◌+◌, List, [], ◌∷◌, ◌++◌, take, length, replicate}
use clink3_wiki.Prelude.Buffer.{memcpy, strlen}
use clink3_wiki.Prelude.Text.{codes}

abbrev pub product_key_text : List ℕ
product_key_text = codes "a1I98ylaERB"

abbrev pub product_secret_text : List ℕ
product_secret_text = codes "cWIhFUrzd5UQ1cUk"

abbrev pub device_name_text : List ℕ
device_name_text = codes "tt_ap_test_01"

abbrev pub device_secret_text : List ℕ
device_secret_text = codes "fOOzj260nZ0q8v3tJ0n91B7CXjsSt22S"

-- `memset(buf, 0, size)`
abbrev pub memset_zero : List ℕ → ℕ → List ℕ
memset_zero buf size = memcpy buf 0 (replicate size 0)

-- `strncpy(dst, text, n)`: the text is cut, or filled up with zeros.
abbrev pub strncpy : List ℕ → List ℕ → ℕ → List ℕ
strncpy dst text n = memcpy dst 0 (take n (text ++ replicate n 0))

-- The array behind `memset` and `strncpy`
unfoldable pub stored_text : List ℕ → ℕ → List ℕ → List ℕ
stored_text text max buf = strncpy (memset_zero buf (max + 1)) text (length text)

-- Each function: its result and the array
unfoldable pub get_device_name : ℕ → List ℕ → ℕ × List ℕ
get_device_name max buf =
    (strlen (stored_text device_name_text max buf), stored_text device_name_text max buf)

unfoldable pub get_device_secret : ℕ → List ℕ → ℕ × List ℕ
get_device_secret max buf = (length device_secret_text, stored_text device_secret_text max buf)

unfoldable pub get_product_key : ℕ → List ℕ → ℕ × List ℕ
get_product_key max buf = (length product_key_text, stored_text product_key_text max buf)

unfoldable pub get_product_secret : ℕ → List ℕ → ℕ × List ℕ
get_product_secret max buf = (length product_secret_text, stored_text product_secret_text max buf)

abbrev pub firmware_version : List ℕ
firmware_version = codes "app-1.0.0-20180101.1000"

unfoldable pub get_firmware_version : ℕ → List ℕ → ℕ × List ℕ
get_firmware_version max buf =
    let version =
      memcpy (strncpy (memset_zero buf max) firmware_version max) (length firmware_version)
        (0 ∷ []) in
    (strlen version, version)
