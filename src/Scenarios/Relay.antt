-- ===== src/Scenarios/Relay.antt =====
-- A run of the indoor device, the broker and the gateway together.
use smart_home_project.Common.{refl, [], ◌∷◌, map, codes, arith}
use mathlib.Core.List.{Sublist}
use smart_home_project.HomeCenter.Mqtt
use smart_home_project.HomeCenter.Mqtt.Temperature.{with_temperature}
use smart_home_project.HomeCenter.Tasks
use smart_home_project.HomeCenter.Tasks.Dispatch.{sock, posted}
use smart_home_project.Device2.Main.{send_data_to_homecenter_task}
use smart_home_project.Device2.Mqtt as Publisher
use smart_home_project.Device2.Pipeline
use smart_home_project.System.Gateway.{handle_value, send_values}
use smart_home_project.System.Indoor.{delivered}
use smart_home_project.System.Offline.{value_of}
use smart_home_project.System.Relay.{Relay, Reach, device_step, gateway_step, deliver, here, next}
use smart_home_project.System.Relay.Values.{indoor_posts, reading}
use smart_home_project.System.Relay.Posted.{IsStart, posts_measured}
use smart_home_project.Scenarios.Tasks.{queues, busy}
use smart_home_project.Scenarios.Devices.{texts, indoor_device, published, mild_text}

abbrev resting : Relay queues texts
resting = record { device = indoor_device; gateway = busy; taken = [] }

resting-IsStart : IsStart queues texts resting
resting-IsStart = record {
  connected = (9, refl);
  published = refl;
  queued = refl;
  measured = refl;
  taken = refl;
  accepted = refl;
  waiting = refl;
  posted = refl;
}

-- 25.125 degrees have been measured, published, delivered and posted.
abbrev relayed : Relay queues texts
relayed = record {
  device = published;
  gateway = record busy {
    mqtt =
        with_temperature 4 25 (delivered (codes "25.125000") []) (record busy.mqtt { calls = [] });
    accepted = value_of sock 25 ∷ [];
    notified = 2;
    posted = posted sock 25 ∷ [];
    handled = 1;
  };
  taken = codes "25.125000" ∷ [];
}

relays_one : Reach queues texts resting relayed
unfolding send_data_to_homecenter_task Publisher.publish_temperature_value Mqtt.mqtt_event_handler
    Tasks.data_handler_task send_values
relays_one =
    next
      (next
        (next (next here (device_step (Pipeline.measure 402 mild_text (omega arith))))
          (device_step (Pipeline.hand_over 5 refl)))
        (deliver 4 (codes "25.125000") [] [] refl refl))
      (gateway_step (handle_value refl) tt)

posts_measured_example : Sublist (indoor_posts (posted sock 25 ∷ [])) (map reading (402 ∷ []))
posts_measured_example = posts_measured queues texts resting-IsStart relays_one
