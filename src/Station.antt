-- ===== src/Station.antt =====
-- wifi_conection.c, which Device1_coap/main and Device2_mqtt/main hold alike but for the address:
-- the station that joins the gateway's access point.
-- The Wi-Fi driver is a parameter: the events that it delivers and what its calls answer are
-- arguments. `calls` records the calls that the code makes.
pub mod Retry
use smart_home_project.Common.{
  ℕ, ◌+◌, ◌++◌, List, [], ◌∷◌, Bool, true, false, ◌||◌, Option, none, some, Bytes, codes, Result,
  ok, abort, ◌>>=◌, ltb, if◌then◌else◌,
}

pub data Event : Type 0 where
  wifi_event_sta_start wifi_event_sta_disconnected ip_event_sta_got_ip other_event : Event

-- An IPv4 address by its four numbers.
pub record Ip4 : Type 0 where
  pub a : ℕ
  pub b : ℕ
  pub c : ℕ
  pub d : ℕ

-- The events that a handler is registered for.
pub data Registration : Type 0 where
  wifi_event_any_id ip_event_got_ip : Registration

pub data Call : Type 0 where
  event_group_create create_default_wifi_sta esp_wifi_init dhcpc_stop : Call
  set_ip_info : Ip4 → Ip4 → Ip4 → Call
  handler_register : Registration → Call
  set_mode_sta : Call
  set_config_sta : Bytes → Bytes → Call
  esp_wifi_start esp_wifi_connect : Call

-- `s_retry_num` and the two bits of `s_wifi_event_group`.
pub record Station : Type 0 where
  pub s_retry_num : ℕ
  pub wifi_connected_bit : Bool
  pub wifi_fail_bit : Bool
  pub calls : List Call

abbrev pub call : Call → Station → Station
call c s = record s { calls = s.calls ++ c ∷ [] }

abbrev pub example_esp_maximum_retry : ℕ
example_esp_maximum_retry = 5

unfoldable pub event_handler : Event → Station → Station
event_handler wifi_event_sta_start s = call esp_wifi_connect s
event_handler wifi_event_sta_disconnected s =
    if ltb s.s_retry_num example_esp_maximum_retry
    then call esp_wifi_connect (record s { s_retry_num = s.s_retry_num + 1 })
    else record s { wifi_fail_bit = true }
event_handler ip_event_sta_got_ip s = record s { s_retry_num = 0; wifi_connected_bit = true }
event_handler other_event s = s

-- What `wifi_init_sta` reports.
pub data Joined : Type 0 where
  connected failed_to_connect : Joined

abbrev pub report : Station → Joined
report s = if s.wifi_connected_bit then connected else failed_to_connect

-- `xEventGroupWaitBits` on both bits, for as long as it takes, while the driver delivers events.
-- `none` is a wait that the events given do not end.
pub wait_bits : List Event → Station → Option (Station × Joined)
wait_bits [] s = if s.wifi_connected_bit || s.wifi_fail_bit then some (s, report s) else none
wait_bits (e ∷ es) s =
    let rest = wait_bits es (event_handler e s) in
    if s.wifi_connected_bit || s.wifi_fail_bit then some (s, report s) else rest

-- What the calls under ESP_ERROR_CHECK answer, in their order.
pub record Driver : Type 0 where
  pub init_answer : Bool
  pub wifi_registered : Bool
  pub ip_registered : Bool
  pub mode_answer : Bool
  pub config_answer : Bool
  pub start_answer : Bool

abbrev pub esp_error_check : Bool → Call → Station → Result Station
esp_error_check true c s = ok (call c s)
esp_error_check false c s = abort

abbrev pub fresh : Station
fresh = record { s_retry_num = 0; wifi_connected_bit = false; wifi_fail_bit = false; calls = [] }

abbrev pub gateway : ℕ → Ip4
gateway host = record { a = 192; b = 168; c = 0; d = host }

-- `wifi_init_sta` up to the wait, for the host number of the device's address.
unfoldable pub start : ℕ → Driver → Result Station
start host drv = do
  let s0 = call create_default_wifi_sta (call event_group_create fresh)
  s1 ← esp_error_check drv.init_answer esp_wifi_init s0
  let netmask : Ip4 = record { a = 255; b = 255; c = 255; d = 0 }
  let s2 = call (set_ip_info (gateway host) (gateway 1) netmask) (call dhcpc_stop s1)
  s3 ← esp_error_check drv.wifi_registered (handler_register wifi_event_any_id) s2
  s4 ← esp_error_check drv.ip_registered (handler_register ip_event_got_ip) s3
  s5 ← esp_error_check drv.mode_answer set_mode_sta s4
  s6 ← esp_error_check drv.config_answer (set_config_sta (codes "ESP32_AP") (codes "password")) s5
  esp_error_check drv.start_answer esp_wifi_start s6

-- The whole of it, on the events that the driver delivers from then on.
pub wifi_init_sta : ℕ → Driver → List Event → Result (Option (Station × Joined))
unfolding start wait_bits
wifi_init_sta host drv es = do s ← start host drv; ok (wait_bits es s)
