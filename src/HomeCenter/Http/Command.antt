-- ===== src/HomeCenter/Http/Command.antt =====
-- What `client_event_post_handler` makes of an RPC request of Thingsboard.
use smart_home_project.Common.{
  ℕ, ◌⊎◌, ◌+◌, ◌≤◌, ◌≡◌, ◌≢◌, Bool, [], ◌∷◌, ◌++◌, ok, length, if◌then◌else◌, arith,
}
use smart_home_project.HomeCenter.Types.{CommandInformation}
use smart_home_project.HomeCenter.Http.{
  Http, http_event_on_data, queue_send_cmd, set_device, set_params, client_event_post_handler,
}
use smart_home_project.HomeCenter.Http.Request.{
  IsArray, IsRequest, Request, client_event_post_handler-request, loaded, request_body,
}

-- The letter that begins `true` and `false`.
abbrev pub first_letter : Bool → ℕ
first_letter on = if on then b't' else b'f'

-- A request for device 1 or 2 with a Boolean parameter, whose text fits the array with its line
-- feed and its zero, sends exactly one command to the queue: for that device, with CMD 1 for
-- `true` and 0 for `false`.
pub rpc_command :
    (r : Request) (h : Http) (d : ℕ) (on : Bool)
    → IsRequest r
    → IsArray h
    → length (request_body r) ≤ 98
    → (d ≡ 1) ⊎ (d ≡ 2)
    → r.digit ≡ b'0' + d
    → r.value ≡ first_letter on
    → let sent : CommandInformation = record { cmd = if on then 1 else 0; id_device = d } in
      (h' : Http) × (client_event_post_handler h (http_event_on_data (request_body r)) ≡ ok h')
      × (h'.calls ≡ h.calls ++ queue_send_cmd sent ∷ [])
      × (h'.cmd_enqueue ≡ sent)
unfolding set_params set_device
rpc_command r h d on w a fits which digit value = (
  set_params r.value (set_device r.digit (loaded (request_body r) h)),
  client_event_post_handler-request r h w a fits,
  ground arith,
  ground arith,
)

-- A request whose method names another digit, with a Boolean parameter, still sends a command: to
-- the device of the command before it.
pub rpc_command_stale_device :
    (r : Request) (h : Http) (on : Bool)
    → IsRequest r
    → IsArray h
    → length (request_body r) ≤ 98
    → r.digit ≢ b'1'
    → r.digit ≢ b'2'
    → r.value ≡ first_letter on
    → let sent : CommandInformation = record {
      cmd = if on then 1 else 0;
      id_device = h.cmd_enqueue.id_device;
    } in
      (h' : Http) × (client_event_post_handler h (http_event_on_data (request_body r)) ≡ ok h')
      × (h'.calls ≡ h.calls ++ queue_send_cmd sent ∷ [])
unfolding set_params set_device
rpc_command_stale_device r h on w a fits not_one not_two value = (
  set_params r.value (set_device r.digit (loaded (request_body r) h)),
  client_event_post_handler-request r h w a fits,
  ground arith,
)

-- A request whose parameter begins with neither `t` nor `f` sends no command and keeps the CMD of
-- the one before.
pub rpc_command_other_value :
    (r : Request) (h : Http)
    → IsRequest r
    → IsArray h
    → length (request_body r) ≤ 98
    → r.value ≢ b't'
    → r.value ≢ b'f'
    → (h' : Http) × (client_event_post_handler h (http_event_on_data (request_body r)) ≡ ok h')
      × (h'.calls ≡ h.calls)
      × (h'.cmd_enqueue.cmd ≡ h.cmd_enqueue.cmd)
unfolding set_params set_device
rpc_command_other_value r h w a fits not_t not_f = (
  set_params r.value (set_device r.digit (loaded (request_body r) h)),
  client_event_post_handler-request r h w a fits,
  ground arith,
  ground arith,
)
