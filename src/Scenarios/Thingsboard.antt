-- ===== src/Scenarios/Thingsboard.antt =====
-- Runs of HomeCenter/main/http.c.
use smart_home_project.Common.{
  ℕ, ◌≤◌, ◌≡◌, refl, inr, [], ◌∷◌, true, false, Option, some, Bytes, codes, replicate, length,
  Returns, ok, arith,
}
use smart_home_project.HomeCenter.Types.{CommandInformation}
use smart_home_project.HomeCenter.Http.{Http, http_event_on_data, http_event_other, queue_send_cmd}
use smart_home_project.HomeCenter.Http
use smart_home_project.HomeCenter.Http.Command.{rpc_command, rpc_command_stale_device}
use smart_home_project.HomeCenter.Http.Request.{Request, IsRequest, request_body}
use smart_home_project.HomeCenter.Http.Safety
use smart_home_project.HomeCenter.Http.Safety.{short_body-IsValid}
use smart_home_project.HomeCenter.Http.Telemetry.{sendto_thingsboard-IsValid}

-- `{"id":7,"method":"dv2","params":true}`
abbrev rpc_on : Request
rpc_on = record {
  id = codes "7";
  x = b'd';
  y = b'v';
  digit = b'2';
  rest = [];
  value = b't';
  tail = codes "rue}";
}

rpc_on-IsRequest : IsRequest rpc_on
rpc_on-IsRequest = record {
  id_plain = omega arith;
  method_plain = omega arith;
  value_plain = omega arith;
}

abbrev idle_http : Http
idle_http = record {
  cmd_data = replicate 100 0;
  len_cmd_data = 0;
  cmd_enqueue = record { cmd = 0; id_device = 0 };
  calls = [];
}

idle_http-IsValid : Safety.IsValid idle_http
idle_http-IsValid = record { array = refl; command = omega arith; sent = tt }

rpc_command_example :
    let sent : CommandInformation = record { cmd = 1; id_device = 2 } in
    (h' : Http) × (Http.client_event_post_handler idle_http
        (http_event_on_data (request_body rpc_on))
      ≡ ok h')
    × (h'.calls ≡ queue_send_cmd sent ∷ [])
    × (h'.cmd_enqueue ≡ sent)
rpc_command_example =
    rpc_command rpc_on idle_http 2 true rpc_on-IsRequest refl (omega arith) (inr refl) refl refl

-- `{"id":7,"method":"dvx","params":false}`
abbrev rpc_unknown : Request
rpc_unknown = record rpc_on { digit = b'x'; value = b'f'; tail = codes "alse}" }

rpc_unknown-IsRequest : IsRequest rpc_unknown
rpc_unknown-IsRequest = record {
  id_plain = omega arith;
  method_plain = omega arith;
  value_plain = omega arith;
}

rpc_command_stale_device_example :
    let sent : CommandInformation = record { cmd = 0; id_device = 0 } in
    (h' : Http) × (Http.client_event_post_handler idle_http
        (http_event_on_data (request_body rpc_unknown))
      ≡ ok h')
    × (h'.calls ≡ queue_send_cmd sent ∷ [])
rpc_command_stale_device_example =
    rpc_command_stale_device rpc_unknown idle_http false rpc_unknown-IsRequest refl (omega arith)
      (omega arith) (omega arith) refl

short_body-IsValid_example :
    Returns Safety.IsValid
      (Http.client_event_post_handler idle_http (http_event_on_data (codes "a,b,")))
short_body-IsValid_example =
    short_body-IsValid (codes "a,b,") idle_http (omega arith) idle_http-IsValid

-- A server that answers with three bytes.
abbrev three_bytes : ℕ → Option Bytes
three_bytes n = some (codes "ok!")

three_bytes_fit :
    (bytes : Bytes) → three_bytes Http.max_http_output_buffer ≡ some bytes → length bytes ≤ 511
three_bytes_fit bytes e = ground arith

sendto_thingsboard-IsValid_example : Returns Safety.IsValid (
    Http.sendto_thingsboard Http.url_telemetry_device1
      (http_event_other ∷ [])
      three_bytes
      25
      idle_http)
sendto_thingsboard-IsValid_example =
    sendto_thingsboard-IsValid Http.url_telemetry_device1 (http_event_other ∷ []) three_bytes 25
      idle_http (omega arith) (tt, tt) three_bytes_fit idle_http-IsValid
