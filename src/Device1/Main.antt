-- ===== src/Device1/Main.antt =====
-- Device1_coap/main/coap_server_example_main.c: `gpio_init` and `app_main`.
use smart_home_project.Common.{
  ℕ, List, [], ◌∷◌, ◌++◌, ◌^◌, Bool, true, false, Option, none, some, Result, ok, abort, ◌>>=◌,
}
use smart_home_project.Station.{Driver, Event, Joined}
use smart_home_project.Station
use smart_home_project.Device1.Wifi.{wifi_init_sta}

pub data Mode : Type 0 where
  gpio_mode_output gpio_mode_input : Mode

-- The calls of `app_main`; `gpio_config` takes the mask of the pins and their mode.
pub data Start : Type 0 where
  nvs_flash_init esp_netif_init event_loop_create wifi_joined : Start
  gpio_config : ℕ → Mode → Start
  ds18b20_init task_delay : ℕ → Start
  coap_task read_data_task : ℕ → ℕ → Start

-- `1 << GPIO_NUM_2` drives the motor and `1 << GPIO_NUM_4` is the sensor's bus.
unfoldable pub gpio_init : List Start
gpio_init = gpio_config (2 ^ 2) gpio_mode_output ∷ gpio_config (2 ^ 4) gpio_mode_input ∷ []

-- What the calls under ESP_ERROR_CHECK answer.
pub record Board : Type 0 where
  pub flash : Bool
  pub netif : Bool
  pub event_loop : Bool

abbrev pub esp_error_check : Bool → List Start → Result (List Start)
esp_error_check true calls = ok calls
esp_error_check false calls = abort

-- What is done once the station's wait has ended, or up to it.
abbrev pub after_wifi : List Start → Option (Station.Station × Joined) → List Start
after_wifi calls none = calls
after_wifi calls (some joined) =
    calls ++ (wifi_joined ∷ task_delay 500 ∷ coap_task 8192 5 ∷ read_data_task 8192 5 ∷ [])

-- The calls of `app_main` on the answers of the board and the driver and the driver's events, up to
-- the wait for the gateway where no event ends it. 500 ticks are 5000 ms.
unfoldable pub app_main : Board → Driver → List Event → Result (List Start)
unfolding gpio_init wifi_init_sta
app_main b drv es = do
  c0 ← esp_error_check b.flash (nvs_flash_init ∷ [])
  c1 ← esp_error_check b.netif (c0 ++ esp_netif_init ∷ [])
  c2 ← esp_error_check b.event_loop (c1 ++ event_loop_create ∷ [])
  joined ← wifi_init_sta drv es
  ok (after_wifi (c2 ++ (gpio_init ++ ds18b20_init 4 ∷ [])) joined)
