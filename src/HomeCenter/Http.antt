-- ===== src/HomeCenter/Http.antt =====
-- HomeCenter/main/http.c: telemetry to Thingsboard, and the commands that it answers with.
-- The HTTP client of ESP-IDF is a parameter: what it delivers to the event handler and what a
-- read of the response stores are arguments. `calls` records the calls that the code makes.
pub mod Scan
pub mod Request
pub mod Command
pub mod Safety
pub mod Telemetry
pub mod Widths
use smart_home_project.Common.{
  ℕ, zero, suc, ◌+◌, ◌++◌, List, [], ◌∷◌, Option, none, some, Bytes, codes, u8, c_str, sprintf,
  memcpy, read, Result, ok, fault, ◌>>=◌, ◌==◌, if◌then◌else◌, replicate, length, decimal, strlen,
}
use smart_home_project.HomeCenter.Types.{CommandInformation}

pub data Method : Type 0 where
  http_method_get http_method_post : Method

-- The calls that leave http.c, with what they carry.
pub data Call : Type 0 where
  http_client_init : Method → Bytes → Call
  set_post_field : Bytes → Call
  set_header : Bytes → Bytes → Call
  perform : Call
  queue_send_cmd : CommandInformation → Call
  http_client_cleanup : Call

-- The variables of the file: `char cmd_data[100]`, `uint8_t len_cmd_data`, `cmd_enqueue`.
pub record Http : Type 0 where
  pub cmd_data : Bytes
  pub len_cmd_data : ℕ
  pub cmd_enqueue : CommandInformation
  pub calls : List Call

abbrev pub call : Call → Http → Http
call c h = record h { calls = h.calls ++ c ∷ [] }

-- `esp_http_client_event_handle_t`: the event, and the body of HTTP_EVENT_ON_DATA.
pub data HttpEvent : Type 0 where
  http_event_on_data : Bytes → HttpEvent
  http_event_other : HttpEvent

abbrev pub set_id_device : ℕ → Http → Http
set_id_device d h = record h { cmd_enqueue = record (h.cmd_enqueue) { id_device = d } }

-- `cmd_enqueue.CMD = c` and the `xQueueSend` after it, which copies the struct.
abbrev pub enqueue : ℕ → Http → Http
enqueue c h =
    let next = record (h.cmd_enqueue) { cmd = c } in
    call (queue_send_cmd next) (record h { cmd_enqueue = next })

-- The digit behind `,"method":"xx`.
pub set_device : ℕ → Http → Http
set_device c h = if c == b'1' then set_id_device 1 h else if c == b'2' then set_id_device 2 h else h

-- The letter behind `,"params":`.
pub set_params : ℕ → Http → Http
set_params c h = if c == b't' then enqueue 1 h else if c == b'f' then enqueue 0 h else h

-- The body of `if (cmd_data[i] == ',')`.
pub at_comma : Bytes → ℕ → Http → Result Http
at_comma buf i h = do
  c ← read buf (i + 2)
  h' ← if c == b'm' then (do d ← read buf (i + 13); ok (set_device d h)) else ok h
  if c == b'p' then (do d ← read buf (i + 10); ok (set_params d h')) else ok h'

-- The `for` loop from index `i`, with `left` rounds to go.
pub scan : Bytes → ℕ → ℕ → Http → Result Http
scan buf zero i h = ok h
scan buf (suc left) i h = do
  c ← read buf i
  h' ← if c == b',' then at_comma buf i h else ok h
  scan buf left (i + 1) h'

unfoldable pub client_event_post_handler : Http → HttpEvent → Result Http
client_event_post_handler h (http_event_on_data body) = do
  buf ← sprintf h.cmd_data (c_str body ++ b'\n' ∷ [])
  let len = u8 (length body)
  scan buf len 0 (record h { cmd_data = buf; len_cmd_data = len })
client_event_post_handler h http_event_other = ok h

-- The callbacks that `esp_http_client_perform` makes, in order.
pub deliver : Http → List HttpEvent → Result Http
deliver h [] = ok h
deliver h (e ∷ es) = do h' ← client_event_post_handler h e; deliver h' es

abbrev pub max_http_output_buffer : ℕ
max_http_output_buffer = 2048

-- `{"temperature":%d}`
pub post_field : ℕ → Bytes
post_field d = codes "{\"temperature\":" ++ decimal d ++ codes "}"

-- What follows `esp_http_client_perform`: the response goes to `output_buffer[512]`, with
-- `MAX_HTTP_OUTPUT_BUFFER` as its size. `none` is a negative result.
pub log_response : (ℕ → Option Bytes) → Result ℕ
log_response read_response = elim (read_response max_http_output_buffer) [
  | none ↦ ok 0
  | some bytes ↦ do buf ← memcpy (replicate 512 0) bytes; strlen buf
]

abbrev pub content_type : Call
content_type = set_header (codes "Content-Type") (codes "application/json")

-- The body that `SendtoThingsboard_Device1` and `SendtoThingsboard_Device2` share, by the URL.
pub sendto_thingsboard : Bytes → List HttpEvent → (ℕ → Option Bytes) → ℕ → Http → Result Http
sendto_thingsboard url events read_response d h = do
  let field = post_field d
  post_data ← sprintf (replicate 25 0) field
  let h1 = call (http_client_init http_method_post url) h
  let h2 = call content_type (call (set_post_field (c_str post_data)) h1)
  h3 ← deliver (call perform h2) events
  _ ← log_response read_response
  ok (call http_client_cleanup h3)

abbrev pub url_telemetry_device1 : Bytes
url_telemetry_device1 = codes "http://demo.thingsboard.io/api/v1/OSXXVzXfeO4v6V5jyk8j/telemetry"

abbrev pub url_telemetry_device2 : Bytes
url_telemetry_device2 = codes "http://demo.thingsboard.io/api/v1/GqZXgmkTMB7hGNRcOCer/telemetry"

abbrev pub url_rpc_device1 : Bytes
url_rpc_device1 = codes "http://demo.thingsboard.io/api/v1/OSXXVzXfeO4v6V5jyk8j/rpc"

abbrev pub url_rpc_device2 : Bytes
url_rpc_device2 = codes "http://demo.thingsboard.io/api/v1/GqZXgmkTMB7hGNRcOCer/rpc"

unfoldable pub sendto_thingsboard_device1 :
    List HttpEvent → (ℕ → Option Bytes) → ℕ → Http → Result Http
unfolding sendto_thingsboard
sendto_thingsboard_device1 = sendto_thingsboard url_telemetry_device1

unfoldable pub sendto_thingsboard_device2 :
    List HttpEvent → (ℕ → Option Bytes) → ℕ → Http → Result Http
unfolding sendto_thingsboard
sendto_thingsboard_device2 = sendto_thingsboard url_telemetry_device2

-- The body that the two `GetRequestToThingsboard` functions share, by the URL.
pub get_request_to_thingsboard : Bytes → List HttpEvent → Http → Result Http
get_request_to_thingsboard url events h = do
  let h1 = call content_type (call (http_client_init http_method_get url) h)
  h2 ← deliver (call perform h1) events
  ok (call http_client_cleanup h2)

unfoldable pub get_request_to_thingsboard_device1 : List HttpEvent → Http → Result Http
unfolding get_request_to_thingsboard
get_request_to_thingsboard_device1 = get_request_to_thingsboard url_rpc_device1

unfoldable pub get_request_to_thingsboard_device2 : List HttpEvent → Http → Result Http
unfolding get_request_to_thingsboard
get_request_to_thingsboard_device2 = get_request_to_thingsboard url_rpc_device2
