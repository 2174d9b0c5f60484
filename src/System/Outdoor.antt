-- ===== src/System/Outdoor.antt =====
-- A command for the motor and a temperature from the outdoor device, over CoAP: the requests of
-- HomeCenter/main/coap.c, the handlers of Device1_coap/main/coap_server_example_main.c and the
-- tasks of HomeCenter/main/app_main.c. The network hands a message over as it was sent.
use smart_home_project.Common.{
  ℕ, suc, ◌+◌, ◌/◌, ◌<◌, ◌≡◌, ◌≢◌, refl, ◌++◌, [], ◌∷◌, Bool, true, false, some, Bytes, Returns, ok,
  arith,
}
use smart_home_project.HomeCenter.Coap.{
  Uri, Client, Response, ended, queue_send_data, response_class,
}
use smart_home_project.HomeCenter.Coap.Requests.{Library, get_temperature_coap, control_motor_coap}
use smart_home_project.HomeCenter.Coap.Exchange.{
  get_calls, put_calls, get_temperature_coap_lem, control_motor_coap_lem,
}
use smart_home_project.HomeCenter.Coap.Answers.{IsReachable, outdoor}
use smart_home_project.HomeCenter.Tasks.{data_handler_task, task_notify, sendto_thingsboard_device1}
use smart_home_project.Device1.Server as Motor
use smart_home_project.Device1.Server.Requests.{
  IsValid, before_motor, command, level, command_switches, get_temperature_request_lem,
}

-- A response of class 2 with the data `body`.
abbrev pub response : ℕ → Bytes → Response
response detail body = record { code = 64 + detail; body = some body }

class_two :
    (detail : ℕ) (body : Bytes) → detail < 32 → response_class (response detail body).code ≡ 2
class_two detail body h = omega arith

-- Where the gateway reaches the outdoor device and its first call delivers an answer of class 2
-- with the data that the device adds, a command for the motor is sent as its text; that text makes
-- the device set its pin last, to 1 for on and 0 for off; and the request ends after the one call
-- with nothing queued.
pub motor_command_arrives :
    (on : Bool) (lib : Library) (uri : Uri) (rounds detail : ℕ) (c : Client) (s : Motor.Server)
    → IsReachable lib uri
    → (lib.io 0 1000).delivered ≡ response detail (command on) ∷ []
    → detail < 32
    → IsValid s
    → ((d : Client) × (control_motor_coap lib (suc rounds) (command on) (record c { calls = [] })
          ≡ ok (ended d))
        × (d.temp_value_outdoor ≡ c.temp_value_outdoor)
        × (d.optlist ≡ [])
        × (d.calls ≡ put_calls lib uri (command on)))
      × Returns
          (λ s'.
            s'.calls
            ≡ s.calls ++ (before_motor (command on) ++ Motor.gpio_set_level 2 (level on) ∷ []))
          (Motor.control_motor_request (command on) s)
motor_command_arrives true lib uri rounds detail c s h e k v = (
  control_motor_coap_lem lib uri rounds (command true) _ _ c h e (class_two detail [] k) refl,
  command_switches true [] s (omega arith) v,
)
motor_command_arrives false lib uri rounds detail c s h e k v = (
  control_motor_coap_lem lib uri rounds (command false) _ _ c h e (class_two detail [] k) refl,
  command_switches false [] s (omega arith) v,
)

-- Where the gateway reaches the outdoor device, whose temperature is below 256 degrees and not of
-- 111, and its first call delivers an answer of class 2 with the data that the device adds, that
-- data is the whole degrees, and the gateway keeps and queues them; with a network, the queued
-- value notifies the command task for device 1 and is posted to Thingsboard.
pub outdoor_temperature_arrives :
    (lib : Library) (uri : Uri) (rounds detail : ℕ) (c : Client) (s : Motor.Server)
    → IsReachable lib uri
    → (lib.io 0 1000).delivered ≡ response detail ((s.temp_value / 16) ∷ []) ∷ []
    → detail < 32
    → s.temp_value < 4096
    → s.temp_value / 16 ≢ 111
    → (Motor.get_temperature_request s
        ≡ ok (record s {
          calls =
              s.calls
              ++ (Motor.set_code Motor.content ∷ Motor.add_data ((s.temp_value / 16) ∷ []) ∷ []);
        }))
      × ((d : Client) × (get_temperature_coap lib (suc rounds) (record c { calls = [] })
            ≡ ok (ended d))
          × (d.temp_value_outdoor ≡ outdoor (s.temp_value / 16))
          × (d.optlist ≡ [])
          × (d.calls ≡ get_calls lib uri (queue_send_data (outdoor (s.temp_value / 16)) ∷ [])))
      × (data_handler_task (some (outdoor (s.temp_value / 16))) 1
          ≡ task_notify 1 ∷ sendto_thingsboard_device1 (s.temp_value / 16) ∷ [])
unfolding data_handler_task
outdoor_temperature_arrives lib uri rounds detail c s h e k t n = (
  get_temperature_request_lem s t,
  get_temperature_coap_lem lib uri rounds _ _ _ c h e (class_two detail [] k) refl n,
  refl,
)
