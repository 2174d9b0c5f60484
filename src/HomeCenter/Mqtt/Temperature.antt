-- ===== src/HomeCenter/Mqtt/Temperature.antt =====
-- What the gateway makes of the temperature that the indoor device prints.
use smart_home_project.Common.{
  ℕ, ◌+◌, ◌*◌, ◌/◌, ◌%◌, ◌≤◌, ◌<◌, ◌≡◌, refl, ap, ◌∙◌, ◌++◌, [], ◌∷◌, some, Bytes, codes, c_str,
  c_str_lem, take, IsNonzero, length, length-append, replicate, memcpy_fits, decimal, decimal_one,
  decimal_two, ok, fault, arith,
}
use smart_home_project.HomeCenter.Types.{DataInformation}
use smart_home_project.HomeCenter.Mqtt.{
  Mqtt, Message, mqtt_event_data, call, queue_send_data, print_indoor_temperature, two_digits,
  mqtt_event_handler,
}

-- The end of a topic that the handler can print to its array behind `indoor/t`.
abbrev pub IsTopic : Bytes → Type 0
IsTopic s = IsNonzero s × (length s ≤ 89)

-- The state after a temperature `value` has been taken from `e`.
abbrev pub with_temperature : ℕ → ℕ → Message → Mqtt → Mqtt
with_temperature client value e m =
    let indoor : DataInformation = record { temperature_value = value; id_device = 2 } in
    call (print_indoor_temperature (c_str (take e.data_len e.payload))) (
      call (queue_send_data indoor)
        (record m { client_g = some client; temp_value_indoor = indoor }))

topic_fits :
    (s : Bytes)
    → IsTopic s
    → length (((codes "indoor/t" ++ s) ++ codes "\r\n") ++ 0 ∷ [])
      ≤ length (replicate {A = ℕ} 100 0)
topic_fits s h =
    omega (arith, length-append (s ++ codes "\r\n") (0 ∷ []), length-append s (codes "\r\n"))

-- A message under a topic that begins with `indoor/t` is read by its first two bytes.
on_data-temperature :
    (client c d : ℕ) (rest topic : Bytes) (len : ℕ) (m : Mqtt)
    → IsTopic topic
    → let e : Message = record {
      topic = codes "indoor/t" ++ topic;
      payload = c ∷ d ∷ rest;
      data_len = len;
    } in
      mqtt_event_handler client (mqtt_event_data e) m
      ≡ ok (with_temperature client (two_digits c d) e m)
unfolding mqtt_event_handler
on_data-temperature client c d rest topic len m t = rw (
  c_str_lem topic t.0,
  memcpy_fits (replicate 100 0) (((codes "indoor/t" ++ topic) ++ codes "\r\n") ++ 0 ∷ [])
      (topic_fits topic t),
)

two_digits_lem : (n : ℕ) → n < 100 → two_digits (b'0' + n / 10) (b'0' + n % 10) ≡ n
unfolding two_digits
two_digits_lem n h = omega arith

-- A temperature that is printed with two digits before anything else, under a topic that begins
-- with `indoor/t`, is read back: the handler keeps it as the indoor value of device 2, queues it
-- and prints the message.
pub read_back-two_digits :
    (client n : ℕ) (rest topic : Bytes) (len : ℕ) (m : Mqtt)
    → 10 ≤ n
    → n < 100
    → IsTopic topic
    → let e : Message = record {
      topic = codes "indoor/t" ++ topic;
      payload = decimal n ++ rest;
      data_len = len;
    } in
      mqtt_event_handler client (mqtt_event_data e) m ≡ ok (with_temperature client n e m)
read_back-two_digits client n rest topic len m low high t = rw (decimal_two n low high) (
    on_data-temperature client (b'0' + n / 10) (b'0' + n % 10) rest topic len m t
    ∙ ap
        (λ v. ok (with_temperature client v (message ((b'0' + n / 10) ∷ (b'0' + n % 10) ∷ rest)) m))
        (two_digits_lem n high))
  where
    message : Bytes → Message
    message p = record { topic = codes "indoor/t" ++ topic; payload = p; data_len = len }

-- A temperature below ten, printed with its decimal point, is not read back: the value kept and
-- queued is `10 n - 2`, cut to eight bits.
pub read_back-one_digit :
    (client n : ℕ) (rest topic : Bytes) (len : ℕ) (m : Mqtt)
    → n < 10
    → IsTopic topic
    → let e : Message = record {
      topic = codes "indoor/t" ++ topic;
      payload = decimal n ++ b'.' ∷ rest;
      data_len = len;
    } in
      mqtt_event_handler client (mqtt_event_data e) m
      ≡ ok (with_temperature client ((n * 10 + 254) % 256) e m)
read_back-one_digit client n rest topic len m low t = rw (decimal_one n low) (
    on_data-temperature client (b'0' + n) b'.' rest topic len m t
    ∙ ap (λ v. ok (with_temperature client v (message ((b'0' + n) ∷ b'.' ∷ rest)) m)) (value n low))
  where
    message : Bytes → Message
    message p = record { topic = codes "indoor/t" ++ topic; payload = p; data_len = len }

    value : (k : ℕ) → k < 10 → two_digits (b'0' + k) b'.' ≡ (k * 10 + 254) % 256
    value k h = unfold two_digits in omega arith

-- The gateway subscribes to `indoor/sock_status`, and does nothing with a message under it.
pub sock_status_ignored :
    (client : ℕ) (payload : Bytes) (len : ℕ) (m : Mqtt)
    → let e : Message = record {
      topic = codes "indoor/sock_status";
      payload = payload;
      data_len = len;
    } in
      mqtt_event_handler client (mqtt_event_data e) m ≡ ok (record m { client_g = some client })
unfolding mqtt_event_handler
sock_status_ignored client payload len m = refl

-- A message of fewer than two bytes under a temperature topic makes the handler read outside it.
pub short_payload_fault :
    (client c : ℕ) (topic : Bytes) (len : ℕ) (m : Mqtt)
    → IsTopic topic
    → let e : Message = record {
      topic = codes "indoor/t" ++ topic;
      payload = c ∷ [];
      data_len = len;
    } in
      mqtt_event_handler client (mqtt_event_data e) m ≡ fault
unfolding mqtt_event_handler
short_payload_fault client c topic len m t = rw (
  c_str_lem topic t.0,
  memcpy_fits (replicate 100 0) (((codes "indoor/t" ++ topic) ++ codes "\r\n") ++ 0 ∷ [])
      (topic_fits topic t),
)
