-- ===== src/HomeCenter/Types.antt =====
-- HomeCenter/main/app_main.h: the values that the tasks exchange through the two queues.
use smart_home_project.Common.{ℕ, ◌<◌, Bytes, codes}

-- `Data_Information_t`: two `uint8_t`.
pub record DataInformation : Type 0 where
  pub temperature_value : ℕ
  pub id_device : ℕ

-- `Command_Information_t`: two `uint8_t`.
pub record CommandInformation : Type 0 where
  pub cmd : ℕ
  pub id_device : ℕ

-- `ON_COMMAND` and `OFF_COMMAND`
abbrev pub on_command : Bytes
on_command = codes "on"

abbrev pub off_command : Bytes
off_command = codes "off"

abbrev pub IsByte : ℕ → Type 0
IsByte n = n < 256
