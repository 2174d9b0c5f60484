-- ===== src/Device1/Server.antt =====
-- Device1_coap/main/coap_server_example_main.c: the resource handlers, the server's loop and the
-- tasks. libcoap, the GPIO driver and FreeRTOS are parameters: what they answer is an argument.
-- `calls` records the calls that the code makes.
-- A temperature is the number of sixteenths that `ds18b20_get_temp` divides, which a float holds
-- exactly.
pub mod Requests
pub mod Loop
pub mod Session
use smart_home_project.Common.{
  ℕ, ◌+◌, ◌-◌, ◌/◌, ◌++◌, List, [], ◌∷◌, Bool, true, false, not, ◌&&◌, Option, none, some, Bytes,
  length, ◌*◌, codes, memcpy, strlen, strncmp_eq, Result, ok, fault, ◌>>=◌, ◌==◌, ltb, leb,
  if◌then◌else◌,
}

pub data Code : Type 0 where
  content deleted : Code

pub data Call : Type 0 where
  gpio_set_level : ℕ → ℕ → Call
  set_code : Code → Call
  add_data : Bytes → Call
  notify_observers log_empty_request log_motor_status : Call

-- `temp_value`, in sixteenths, `put_res[100]` and `put_res_len`.
pub record Server : Type 0 where
  pub temp_value : ℕ
  pub put_res : Bytes
  pub put_res_len : ℕ
  pub calls : List Call

abbrev pub call : Call → Server → Server
call c s = record s { calls = s.calls ++ c ∷ [] }

-- GPIO_NUM_2 drives the motor.
abbrev pub motor_pin : ℕ
motor_pin = 2

pub control_motor_handler : Bytes → Server → Server
control_motor_handler cmd s =
    if strncmp_eq 2 cmd (codes "on")
    then call (gpio_set_level motor_pin 1) s
    else if strncmp_eq 3 cmd (codes "off")
    then call (gpio_set_level motor_pin 0) s
    else s

-- The cast of a float above 255 to `uint8_t` is undefined.
unfoldable pub get_temperature_request : Server → Result Server
get_temperature_request s =
    let whole = s.temp_value / 16 in
    if ltb whole 256 then ok (call (add_data (whole ∷ [])) (call (set_code content) s)) else fault

-- `body` is what `coap_get_data_large` finds, nothing on an error. The response carries the first
-- `put_res_len` bytes of the array, which are the body, and the log prints the array up to a zero.
unfoldable pub control_motor_request : Bytes → Server → Result Server
unfolding control_motor_handler
control_motor_request [] s = ok (call log_empty_request (call notify_observers s))
control_motor_request (c ∷ cs) s = do
  let body = c ∷ cs
  put_res ← memcpy s.put_res body
  let stored = record (call notify_observers s) { put_res = put_res; put_res_len = length body }
  let answered = call (add_data body) (call (set_code content) stored)
  _ ← strlen put_res
  ok (control_motor_handler put_res (call log_motor_status answered))

unfoldable pub delete_request : Server → Server
delete_request s = call (set_code deleted) (call notify_observers s)

-- One round of `read_data_ds18b20_task`, on what `ds18b20_get_temp` answers.
unfoldable pub read_data_ds18b20_task : ℕ → Server → Server
read_data_ds18b20_task sixteenths s = record s { temp_value = sixteenths }

-- `COAP_RESOURCE_CHECK_TIME * 1000`, for the constant of libcoap.
abbrev pub check_ms : ℕ → ℕ
check_ms coap_resource_check_time = coap_resource_check_time * 1000

-- The body of the inner `while (1)` of `coap_example_server`, on what `coap_io_process` answers:
-- `none`, where a negative result ends the loop, or the next `wait_ms`.
unfoldable pub io_round : ℕ → Option ℕ → ℕ → Option ℕ
io_round check none wait_ms = none
io_round check (some result) wait_ms =
    let shorter = if not (result == 0) && ltb result wait_ms then wait_ms - result else wait_ms in
    some (if not (result == 0) then check_ms check else shorter)

-- The endpoints and handlers of `coap_example_server`.
pub data Proto : Type 0 where
  udp tcp dtls tls : Proto

pub data Setup : Type 0 where
  new_context set_block_mode set_psk : Setup
  new_endpoint : Proto → ℕ → Setup
  resource_init : Bytes → Setup
  register_get_temperature register_control_motor register_delete : Setup
  set_observable add_resource free_context cleanup task_delete : Setup

-- What libcoap answers in a pass of the outer loop: whether a context, an endpoint or the resource
-- is made, and which protocols it supports.
pub record Library : Type 0 where
  pub context : Bool
  pub tcp_supported : Bool
  pub dtls_supported : Bool
  pub tls_supported : Bool
  pub endpoint : Proto → Bool
  pub resource : Bool

-- How a pass ends: `continue`, the jump to `clean_up`, or the inner loop, which ends only by an
-- error of `coap_io_process` and leads back to the top.
pub data Pass : Type 0 where
  continued : Pass
  cleaned_up : List Setup → Pass
  served : List Setup → Pass

-- `goto clean_up`
abbrev pub clean_up : List Setup → Pass
clean_up calls = cleaned_up (calls ++ (free_context ∷ cleanup ∷ task_delete ∷ []))

-- COAP_DEFAULT_PORT and COAPS_DEFAULT_PORT
abbrev pub coap_default_port : ℕ
coap_default_port = 5683

abbrev pub coaps_default_port : ℕ
coaps_default_port = 5684

-- An endpoint, if the protocol is supported, and what follows it.
abbrev pub with_endpoint : Library → Bool → Proto → ℕ → List Setup → (List Setup → Pass) → Pass
with_endpoint lib supported proto port calls next =
    let tried = calls ++ new_endpoint proto port ∷ [] in
    if supported then (if lib.endpoint proto then next tried else clean_up tried) else next calls

abbrev pub serve : Library → List Setup → Pass
serve lib calls =
    let tried = calls ++ resource_init (codes "control_motor") ∷ [] in
    if lib.resource
    then served (
        tried
        ++ (register_get_temperature ∷ register_control_motor ∷ register_delete ∷ set_observable
            ∷ add_resource ∷ []))
    else clean_up tried

-- A pass of the outer loop, as it is built with CONFIG_COAP_MBEDTLS_PSK and
-- CONFIG_MBEDTLS_TLS_SERVER and without CONFIG_COAP_MBEDTLS_PKI.
unfoldable pub coap_example_server : Library → Pass
coap_example_server lib =
    if not lib.context
    then continued
    else with_endpoint lib true udp coap_default_port (new_context ∷ set_block_mode ∷ set_psk ∷ [])
        λ a. with_endpoint lib lib.tcp_supported tcp coap_default_port a λ b.
          with_endpoint lib lib.dtls_supported dtls coaps_default_port b
            λ c. with_endpoint lib lib.tls_supported tls coaps_default_port c λ d. serve lib d

-- The contexts that stay open: a pass that is served leaves its own behind, and `clean_up` ends the
-- task.
abbrev pub after_pass : Pass → ℕ → (ℕ → ℕ) → ℕ
after_pass continued n next = next n
after_pass (cleaned_up calls) n next = n
after_pass (served calls) n next = next (n + 1)

-- The passes of the outer loop, with the number of contexts that are open before them.
pub contexts_left : List Library → ℕ → ℕ
contexts_left [] n = n
contexts_left (lib ∷ libs) n = after_pass (coap_example_server lib) n (contexts_left libs)
