-- ===== src/Scenarios/Gateway.antt =====
-- Runs of the gateway's Wi-Fi, MQTT and tasks.
use smart_home_project.Common.{◌≡◌, refl, ◌++◌, [], ◌∷◌, some, true, false, arith, replicate, ok}
use smart_home_project.HomeCenter.Coap
use smart_home_project.HomeCenter.Tasks.Dispatch.{motor}
use smart_home_project.System.Offline.{value_of}
use smart_home_project.System.Gateway.{
  Gateway, send_cmds, send_values, wifi_event, coap_message, here, next,
}
use smart_home_project.System.Gateway.Boot.{boot, IsSound, every_start-IsSound}
use smart_home_project.Scenarios.Tasks.{queues}
use smart_home_project.HomeCenter.Wifi
use smart_home_project.HomeCenter.Wifi.Retry.{disconnections, disconnections_give_up}

abbrev online : Wifi.Wifi
online = record { wifi_connected = 1; s_retry_num = 0; calls = [] }

disconnections_give_up_example :
    disconnections 5 online
    ≡ ok (record {
      wifi_connected = 0;
      s_retry_num = 3;
      calls =
          replicate 3 Wifi.esp_wifi_connect ++ replicate 3 (Wifi.queue_send_cmd Wifi.dummy_data);
    })
disconnections_give_up_example = disconnections_give_up 5 online refl

-- The station has connected, and the outdoor device has answered 18 degrees.
abbrev started : Gateway queues
started = record (boot queues) {
  wifi = record (boot queues).wifi { wifi_connected = 1 };
  client = record (boot queues).client {
    calls = Coap.queue_send_data (value_of motor 18) ∷ [];
    temp_value_outdoor = value_of motor 18;
    resp_wait = false;
  };
  data_queue = value_of motor 18 ∷ [];
  accepted = value_of motor 18 ∷ [];
}

every_start-IsSound_example : IsSound queues started
unfolding Wifi.wifi_ap_handler Coap.message_handler Coap.on_body send_cmds send_values
every_start-IsSound_example =
    every_start-IsSound queues
      (next (next here (wifi_event true Wifi.wifi_event_sta_connected refl))
        (coap_message (record { code = 69; body = some (18 ∷ []) }) refl))
      ((tt, tt), omega arith)
