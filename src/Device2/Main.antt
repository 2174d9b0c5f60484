-- ===== src/Device2/Main.antt =====
-- Device2_mqtt/main/app_main.c: the two tasks and the start of the indoor device.
-- A temperature is the number of sixteenths that `ds18b20_get_temp` divides, which a float holds
-- exactly; the queue of FreeRTOS is a parameter: what a receive answers is an argument.
use smart_home_project.Common.{
  ℕ, ◌+◌, ◌*◌, ◌/◌, ◌%◌, ◌^◌, ◌++◌, List, [], ◌∷◌, Bool, true, false, Option, none, some, Bytes,
  codes, decimal, sprintf, replicate, Result, ok, abort, ◌>>=◌,
}
use smart_home_project.Station
use smart_home_project.Station.{Driver, Event, Joined}
use smart_home_project.Device2.Wifi.{wifi_init_sta}
use smart_home_project.Device2.Mqtt.{Mqtt, publish_temperature_value}

-- The four digits of a number below 10000.
abbrev pub four_digits : ℕ → Bytes
four_digits n =
    (b'0' + n / 1000) ∷ (b'0' + n / 100 % 10) ∷ (b'0' + n / 10 % 10) ∷ (b'0' + n % 10) ∷ []

-- `%f` of a number of sixteenths: the whole part and six decimals, of which the last two are zero.
unfoldable pub print_f : ℕ → Bytes
print_f sixteenths =
    decimal (sixteenths / 16) ++ (b'.' ∷ (four_digits (sixteenths % 16 * 625) ++ codes "00"))

-- A round of `read_data_ds18b20_task`: the ten bytes that it queues.
unfoldable pub read_data_ds18b20_task : ℕ → Result Bytes
unfolding print_f
read_data_ds18b20_task sixteenths = sprintf (replicate 10 0) (print_f sixteenths)

-- A round of `send_data_to_homecenter_task`, on what `xQueueReceive` answers; `id` is the number
-- that the client gives the message.
unfoldable pub send_data_to_homecenter_task : ℕ → Option Bytes → Mqtt → Mqtt
unfolding publish_temperature_value
send_data_to_homecenter_task id none m = m
send_data_to_homecenter_task id (some payload) m = publish_temperature_value id payload m

pub data Mode : Type 0 where
  gpio_mode_output gpio_mode_input : Mode

pub data Start : Type 0 where
  nvs_flash_init esp_netif_init event_loop_create wifi_joined mqtt_app_start : Start
  gpio_config : ℕ → Mode → Start
  ds18b20_init : ℕ → Start
  queue_create read_data_task send_data_task : ℕ → ℕ → Start

unfoldable pub gpio_init : List Start
gpio_init = gpio_config (2 ^ 2) gpio_mode_output ∷ gpio_config (2 ^ 4) gpio_mode_input ∷ []

-- What the calls under ESP_ERROR_CHECK answer.
pub record Board : Type 0 where
  pub flash : Bool
  pub netif : Bool
  pub event_loop : Bool

abbrev pub esp_error_check : Bool → List Start → Result (List Start)
esp_error_check true calls = ok calls
esp_error_check false calls = abort

abbrev pub after_wifi : List Start → Option (Station.Station × Joined) → List Start
after_wifi calls none = calls
after_wifi calls (some joined) =
    calls ++ (wifi_joined ∷ mqtt_app_start ∷ read_data_task 4096 5 ∷ send_data_task 4096 5 ∷ [])

-- The calls of `app_main`, without the log levels, on the answers of the board and the driver and
-- the driver's events, up to the wait for the gateway where no event ends it.
unfoldable pub app_main : Board → Driver → List Event → Result (List Start)
unfolding gpio_init wifi_init_sta
app_main b drv es = do
  c0 ← esp_error_check b.flash (nvs_flash_init ∷ [])
  c1 ← esp_error_check b.netif (c0 ++ esp_netif_init ∷ [])
  c2 ← esp_error_check b.event_loop (c1 ++ event_loop_create ∷ [])
  joined ← wifi_init_sta drv es
  ok (after_wifi (c2 ++ (gpio_init ++ (ds18b20_init 4 ∷ queue_create 10 10 ∷ []))) joined)
