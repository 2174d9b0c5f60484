-- ===== src/Scenarios/Outdoor.antt =====
-- Runs of the gateway's requests to the outdoor device.
use smart_home_project.Common.{
  ℕ, ◌≡◌, inr, get_or, fault, refl, [], ◌∷◌, true, false, none, some, Bytes, codes, replicate,
  Returns, ok, arith,
}
use smart_home_project.HomeCenter.Coap
use smart_home_project.HomeCenter.Coap.Requests as CoapRequests
use smart_home_project.HomeCenter.Coap.Wait.{IsEnded, wait_response-IsEnded}
use smart_home_project.Sensor.{ds18b20_get_temp}
use smart_home_project.Scenarios.Pins.{powered, mild_pin, mild_pin-Shows}
use smart_home_project.Sensor.Temperature.{negsuc}
use smart_home_project.Device2.Main as Indoor
use smart_home_project.System.Thermometer.{
  Shows, measured, outdoor_sensor_arrives, below_zero_faults,
}
use smart_home_project.HomeCenter.Coap.Sharing
use smart_home_project.HomeCenter.Coap.Sharing.{other_answer_ends_wait}
use smart_home_project.HomeCenter.Coap.Exchange.{get_calls, get_temperature_coap_letter_o}
use smart_home_project.HomeCenter.Coap.Answers.{IsReachable, outdoor}
use smart_home_project.HomeCenter.Tasks
use smart_home_project.Device1.Server as Motor
use smart_home_project.Device1.Server.Requests.{IsValid}
use smart_home_project.System.Outdoor.{response}

abbrev pub demo : Coap.Uri
demo = record {
  scheme = Coap.coap;
  host = codes "192.168.0.2";
  port = 5683;
  path = codes "control_motor";
  query = [];
}

-- A device that answers each call at once with the same response.
abbrev pub answers : Bytes → ℕ → ℕ → Coap.Round
answers body n t = record { delivered = response 5 body ∷ []; result = some 7 }

abbrev pub network : (ℕ → ℕ → Coap.Round) → CoapRequests.Library
network io = record {
  context = true;
  split_uri = λ s. some demo;
  split_path = λ s. s ∷ [];
  split_query = λ s. [];
  dtls_supported = true;
  tls_supported = true;
  tcp_supported = true;
  allocates = true;
  lookup = λ s. CoapRequests.inet (192 ∷ 168 ∷ 0 ∷ 2 ∷ []);
  multicast = false;
  session = true;
  pdu = true;
  content_format_text = [];
  io = io;
}

pub network-IsReachable : (io : ℕ → ℕ → Coap.Round) → IsReachable (network io) demo
unfolding CoapRequests.coap_get_address
network-IsReachable io = record {
  context = refl;
  split = refl;
  scheme = refl;
  address = refl;
  session = refl;
  pdu = refl;
}

abbrev idle : Coap.Client
idle = record {
  resp_wait = false;
  optlist = [];
  wait_ms = 0;
  uri = demo;
  temp_value_outdoor = record { temperature_value = 0; id_device = 0 };
  calls = [];
}

abbrev waiting : Coap.Client
waiting = record idle { resp_wait = true; wait_ms = 2000 }

-- Silence: each call takes the time that it is given.
abbrev silence : ℕ → ℕ → Coap.Round
silence n t = record { delivered = []; result = some 1000 }

abbrev failing : ℕ → ℕ → Coap.Round
failing n t = record { delivered = []; result = none }

wait_response-IsEnded_example : Returns IsEnded (Coap.wait_response silence 2 0 waiting)
wait_response-IsEnded_example =
    wait_response-IsEnded silence (λ n. 1000) 2 0 waiting (λ k t. (tt, omega arith)) (omega arith)
      (omega arith)

abbrev pub moving : Motor.Server
moving = record { temp_value = 402; put_res = replicate 100 0; put_res_len = 0; calls = [] }

pub moving-IsValid : IsValid moving
moving-IsValid = record { array = refl; terminated = refl }

outdoor_sensor_arrives_example :
    let lib = network (answers (25 ∷ [])) in
    (Motor.get_temperature_request (measured mild_pin powered moving)
      ≡ ok (record moving {
        temp_value = 402;
        calls = Motor.set_code Motor.content ∷ Motor.add_data (25 ∷ []) ∷ [];
      }))
    × ((d : Coap.Client) × (CoapRequests.get_temperature_coap lib 1 idle ≡ ok (Coap.ended d))
        × (d.temp_value_outdoor ≡ outdoor 25)
        × (d.optlist ≡ [])
        × (d.calls ≡ get_calls lib demo (Coap.queue_send_data (outdoor 25) ∷ [])))
    × (Tasks.data_handler_task (some (outdoor 25)) 1
        ≡ Tasks.task_notify 1 ∷ Tasks.sendto_thingsboard_device1 25 ∷ [])
outdoor_sensor_arrives_example =
    outdoor_sensor_arrives mild_pin 402 powered (network (answers (25 ∷ []))) demo 0 5 idle moving
      (omega arith) (omega arith) mild_pin-Shows (network-IsReachable _) refl (omega arith)

get_temperature_coap_letter_o_example :
    let lib = network (answers (111 ∷ [])) in
    (d : Coap.Client) × (CoapRequests.get_temperature_coap lib 1 idle ≡ ok (Coap.ended d))
    × (d.temp_value_outdoor ≡ idle.temp_value_outdoor)
    × (d.optlist ≡ [])
    × (d.calls ≡ get_calls lib demo [])
get_temperature_coap_letter_o_example =
    get_temperature_coap_letter_o (network (answers (111 ∷ []))) demo 0 (response 5 (111 ∷ [])) []
      idle (network-IsReachable _) refl refl refl

-- A half degree below zero: the word 65528.
abbrev frost_word_pin : ℕ → ℕ
frost_word_pin n =
    get_or (0 ∷ 0 ∷ 0 ∷ 0 ∷ 0 ∷ 1 ∷ 1 ∷ 1 ∷ 1 ∷ 1 ∷ 1 ∷ 1 ∷ 1 ∷ 1 ∷ 1 ∷ 1 ∷ 1 ∷ 1 ∷ []) n 0

frost_word_pin-Shows : Shows frost_word_pin (negsuc 7) powered
frost_word_pin-Shows = record {
  initialised = refl;
  present = refl;
  low = omega arith;
  high = omega arith;
}

below_zero_faults_example :
    (Motor.get_temperature_request (measured frost_word_pin powered moving) ≡ fault)
    × (Indoor.read_data_ds18b20_task (ds18b20_get_temp frost_word_pin powered).0 ≡ fault)
below_zero_faults_example =
    below_zero_faults frost_word_pin 7 powered moving (omega arith) frost_word_pin-Shows

-- Both tasks wait, and the motor's task is delivered its answer.
abbrev both_wait : Sharing.Waits
both_wait = record { client = waiting; getting = true; controlling = true }

abbrev motor_answer : Coap.Response
motor_answer = record { code = 69; body = some (codes "on") }

abbrev after_motor : Sharing.Waits
after_motor = record both_wait {
  client = record waiting { resp_wait = false; wait_ms = 1990; calls = Coap.io_process 1000 ∷ [] };
  controlling = false;
}

motor_turn :
    Sharing.turn Sharing.control_motor
      (record { delivered = motor_answer ∷ []; result = some 10 })
      both_wait
    ≡ ok after_motor
unfolding Sharing.turn Coap.wait_response Coap.message_handler Coap.on_body Coap.deliver
motor_turn = refl

other_answer_ends_wait_example :
    Sharing.turn Sharing.get_temperature (silence 0 1000) after_motor
    ≡ ok (record after_motor { getting = false })
other_answer_ends_wait_example =
    other_answer_ends_wait Sharing.control_motor Sharing.get_temperature motor_answer (some 10)
      (silence 0 1000) both_wait after_motor (inr (b'o', b'n' ∷ [], refl)) refl motor_turn
