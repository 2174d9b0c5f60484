-- ===== src/HomeCenter/Tasks.antt =====
-- HomeCenter/main/app_main.c: the tasks of the gateway, one function for a round of each loop.
-- FreeRTOS is a parameter: the bits of a notification and the item of a queue are arguments, `none`
-- being a receive that does not answer pdPASS. The calls that a round makes are its result.
pub mod Dispatch
pub mod Startup
use smart_home_project.Common.{
  ℕ, ◌+◌, ◌/◌, ◌%◌, ◌++◌, List, [], ◌∷◌, Bool, true, false, not, ◌||◌, Option, none, some, Bytes,
  Result, ok, abort, ◌>>=◌, ◌==◌, ltb, if◌then◌else◌,
}
use smart_home_project.HomeCenter.Types.{
  DataInformation, CommandInformation, on_command, off_command,
}

pub data Call : Type 0 where
  control_motor_coap control_sock_mqtt : Bytes → Call
  task_notify : ℕ → Call
  sendto_thingsboard_device1 sendto_thingsboard_device2 : ℕ → Call
  get_temperature_coap get_request_to_thingsboard_device1 : Call
  get_request_to_thingsboard_device2 : Call
  task_delay : ℕ → Call

-- What the command task reads of the other tasks' variables.
pub record Shared : Type 0 where
  pub wifi_connected : ℕ
  pub temp_value_outdoor : DataInformation
  pub temp_value_indoor : DataInformation

-- CONFIG_FREERTOS_HZ is 100.
abbrev pub port_tick_period_ms : ℕ
port_tick_period_ms = 10

abbrev pub ticks : ℕ → ℕ
ticks ms = ms / port_tick_period_ms

-- `n & 0x01` and `n & 0x02`, as tests.
abbrev pub bit0 : ℕ → Bool
bit0 n = n % 2 == 1

abbrev pub bit1 : ℕ → Bool
bit1 n = n / 2 % 2 == 1

-- The text for a temperature: off above 20 degrees.
abbrev pub by_temperature : ℕ → Bytes
by_temperature t = if ltb 20 t then off_command else on_command

-- The branch without a network, on the bits that `xTaskNotifyWait` hands over.
unfoldable pub on_notification : ℕ → Shared → List Call
on_notification bits s =
    if bit0 bits
    then control_motor_coap (by_temperature s.temp_value_outdoor.temperature_value) ∷ []
    else if bit1 bits
    then control_sock_mqtt (by_temperature s.temp_value_indoor.temperature_value) ∷ []
    else []

abbrev pub by_command : ℕ → Bytes
by_command c = if c == 1 then on_command else off_command

-- The branch with a network, on what `xQueueReceive` answers.
unfoldable pub on_dequeued : Option CommandInformation → List Call
on_dequeued none = []
on_dequeued (some c) =
    if c.id_device == 1
    then control_motor_coap (by_command c.cmd) ∷ []
    else if c.id_device == 2
    then control_sock_mqtt (by_command c.cmd) ∷ []
    else []

-- One round of `cmd_handler_task`. The arguments are what the wait for a notification and the
-- receive answer; a round uses the one that its branch asks for.
unfoldable pub cmd_handler_task : ℕ → Option CommandInformation → Shared → List Call
unfolding on_notification on_dequeued
cmd_handler_task bits received s =
    if s.wifi_connected == 0
    then on_notification bits s
    else if s.wifi_connected == 1
    then on_dequeued received
    else []

unfoldable pub get_temperature_from_device1_task : List Call
get_temperature_from_device1_task =
    task_delay (ticks 500) ∷ get_temperature_coap ∷ task_delay (ticks 3500) ∷ []

-- One round of `data_handler_task`, on what `xQueueReceive` answers and `wifi_connected`.
unfoldable pub data_handler_task : Option DataInformation → ℕ → List Call
data_handler_task none connected = []
data_handler_task (some d) connected =
    if d.id_device == 1
    then task_notify 1
      ∷ (if connected == 1 then sendto_thingsboard_device1 d.temperature_value ∷ [] else [])
    else if d.id_device == 2
    then task_notify 2
      ∷ (if connected == 1 then sendto_thingsboard_device2 d.temperature_value ∷ [] else [])
    else []

unfoldable pub receive_cmd_from_thingsboard_device1_task : ℕ → List Call
receive_cmd_from_thingsboard_device1_task connected =
    if connected == 1 then get_request_to_thingsboard_device1 ∷ [] else task_delay (ticks 1000) ∷ []

unfoldable pub receive_cmd_from_thingsboard_device2_task : ℕ → List Call
receive_cmd_from_thingsboard_device2_task connected =
    if connected == 1 then get_request_to_thingsboard_device2 ∷ [] else task_delay (ticks 1000) ∷ []

-- What `nvs_flash_init` answers.
pub data EspErr : Type 0 where
  esp_ok esp_err_nvs_no_free_pages esp_err_nvs_new_version_found esp_err_other : EspErr

pub data Task : Type 0 where
  cmd_handler get_temp data_handler receive_cmd_device1 receive_cmd_device2 reconnet_wifi : Task

-- The calls of `app_main`; a queue has its length and the size of its items.
pub data Start : Type 0 where
  nvs_flash_init nvs_flash_erase esp_netif_init event_loop_create ap_sta_wifi_start : Start
  mqtt_app_start : Start
  queue_create : ℕ → ℕ → Start
  delay : ℕ → Start
  sendto_thingsboard : ℕ → ℕ → Start
  task_create : Task → ℕ → ℕ → Start

-- What the calls of `app_main` answer: the two calls of `nvs_flash_init`, and whether the erasure,
-- the network interface and the event loop succeed.
pub record Board : Type 0 where
  pub first_init : EspErr
  pub second_init : EspErr
  pub erased : Bool
  pub netif : Bool
  pub event_loop : Bool

-- `ESP_ERROR_CHECK`
abbrev pub esp_error_check : Bool → List Start → Result (List Start)
esp_error_check true calls = ok calls
esp_error_check false calls = abort

abbrev pub is_ok : EspErr → Bool
is_ok esp_ok = true
is_ok _ = false

abbrev pub wants_erase : EspErr → Bool
wants_erase esp_err_nvs_no_free_pages = true
wants_erase esp_err_nvs_new_version_found = true
wants_erase _ = false

-- `4*1024` bytes of stack and a priority.
abbrev pub started : Task → ℕ → Start
started t priority = task_create t 4096 priority

-- The flash, erased and tried again where it says so.
pub init_flash : Board → Result (List Start)
init_flash b =
    if wants_erase b.first_init
    then (do
      calls ← esp_error_check b.erased (nvs_flash_init ∷ nvs_flash_erase ∷ [])
      esp_error_check (is_ok b.second_init) (calls ++ nvs_flash_init ∷ []))
    else esp_error_check (is_ok b.first_init) (nvs_flash_init ∷ [])

-- The calls of `app_main` up to the first that fails under ESP_ERROR_CHECK. The items of both
-- queues are two bytes.
unfoldable pub app_main : Board → Result (List Start)
unfolding init_flash
app_main b = do
  flash ← init_flash b
  net ←
      esp_error_check b.netif
        (flash ++ (queue_create 10 2 ∷ queue_create 10 2 ∷ esp_netif_init ∷ []))
  loop ← esp_error_check b.event_loop (net ++ event_loop_create ∷ [])
  ok (
      loop
      ++ (ap_sta_wifi_start
          ∷ delay (ticks 15000)
          ∷ sendto_thingsboard 1 15
          ∷ sendto_thingsboard 2 15
          ∷ mqtt_app_start
          ∷ started cmd_handler 4
          ∷ started get_temp 4
          ∷ started data_handler 4
          ∷ started receive_cmd_device1 5
          ∷ started receive_cmd_device2 5
          ∷ started reconnet_wifi 5
          ∷ []))
