-- ===== src/HomeCenter/Coap.antt =====
-- HomeCenter/main/coap.c: the two requests of the gateway to device 1 and the handler of their
-- responses, as built with CONFIG_COAP_MBEDTLS_PSK and without CONFIG_COAP_MBEDTLS_PKI.
-- libcoap, the resolver and the allocator are parameters: what they answer is an argument. `calls`
-- records the calls that the code makes of them. The code goes on after it has logged an error; a
-- null pointer that it then hands on to libcoap stops it as a `fault`.
pub mod Requests
pub mod Resolve
pub mod Wait
pub mod Answers
pub mod Exchange
pub mod Sharing
use smart_home_project.Common.{
  ℕ, zero, suc, ◌+◌, ◌-◌, ◌/◌, ◌%◌, min, ◌++◌, List, [], ◌∷◌, Bool, true, false, ◌&&◌, ◌||◌, not,
  Option, none, some, Bytes, codes, take, replicate, length, map, memcpy, read, Result, ok, fault,
  ◌>>=◌, ◌==◌, ltb, leb, if◌then◌else◌,
}
use smart_home_project.HomeCenter.Types.{DataInformation}

pub data Scheme : Type 0 where
  coap coaps coap_tcp coaps_tcp : Scheme

abbrev pub is_scheme : Scheme → Scheme → Bool
is_scheme coap coap = true
is_scheme coaps coaps = true
is_scheme coap_tcp coap_tcp = true
is_scheme coaps_tcp coaps_tcp = true
is_scheme _ _ = false

-- `coap_uri_t`
pub record Uri : Type 0 where
  pub scheme : Scheme
  pub host : Bytes
  pub port : ℕ
  pub path : Bytes
  pub query : Bytes

pub data Proto : Type 0 where
  udp tcp dtls tls : Proto

pub data CoapOption : Type 0 where
  uri_path uri_query content_format : Bytes → CoapOption

pub data Method : Type 0 where
  get_method put_method : Method

pub data Call : Type 0 where
  new_context set_block_mode register_message_handler : Call
  new_client_session : Proto → Call
  new_client_session_psk2 : Proto → Bytes → Call
  -- Whether a message is to be confirmed, and its method.
  new_pdu : Bool → Method → Call
  add_token : Call
  add_option : CoapOption → Call
  add_data : Bytes → Call
  add_optlist_pdu : List CoapOption → Call
  send : Call
  io_process : ℕ → Call
  delete_optlist session_release free_context cleanup : Call
  queue_send_data : DataInformation → Call

-- The file's variables, `temp_value_outdoor`, and the static `uri` of a request.
pub record Client : Type 0 where
  pub resp_wait : Bool
  pub optlist : List CoapOption
  pub wait_ms : ℕ
  pub uri : Uri
  pub temp_value_outdoor : DataInformation
  pub calls : List Call

abbrev pub call : Call → Client → Client
call x c = record c { calls = c.calls ++ x ∷ [] }

-- A received message: its code, and the data that `coap_get_data_large` finds in it.
pub record Response : Type 0 where
  pub code : ℕ
  pub body : Option Bytes

-- `COAP_RESPONSE_CLASS`
abbrev pub response_class : ℕ → ℕ
response_class code = code / 32 % 256

-- What is done with the data of a response of class 2.
unfoldable pub on_body : Bytes → Client → Result Client
on_body body c = do
  first ← read body 0
  let outdoor : DataInformation = record { temperature_value = first; id_device = 1 }
  let queued = call (queue_send_data outdoor) (record c { temp_value_outdoor = outdoor })
  let handled = if first == b'o' then c else queued
  ok (record handled { resp_wait = false })

-- Messages are printed besides, which changes nothing.
unfoldable pub message_handler : Response → Client → Result Client
unfolding on_body
message_handler r c =
    if response_class r.code == 2
    then (elim r.body [ none ↦ ok c | some body ↦ on_body body c ])
    else ok (record c { resp_wait = false })

-- The calls of the handler that libcoap makes in one `coap_io_process`.
unfoldable pub deliver : List Response → Client → Result Client
deliver [] c = ok c
deliver (r ∷ rs) c = message_handler r c >>= deliver rs

-- What one call of `coap_io_process` does: the messages it delivers, and its result, `none` for a
-- negative one.
pub record Round : Type 0 where
  pub delivered : List Response
  pub result : Option ℕ

-- How a wait ends; `unfinished` where the rounds that the model allows are used up.
pub data Waited : Type 0 where
  ended unfinished : Client → Waited

-- `wait_ms > 1000 ? 1000 : wait_ms`
abbrev pub timeout : ℕ → ℕ
timeout wait_ms = if ltb 1000 wait_ms then 1000 else wait_ms

-- What follows a call of `coap_io_process` in the loop, with the rest of the loop.
abbrev pub after_round : Option ℕ → Client → (Client → Result Waited) → Result Waited
after_round none c next = next c
after_round (some result) c next =
    if leb c.wait_ms result then ok (ended c) else next (record c { wait_ms = c.wait_ms - result })

-- The loop on `resp_wait`, from the n-th round on; `io n` is what the n-th call does for the timeout
-- that it is given. The first number bounds the rounds.
unfoldable pub wait_response : (ℕ → ℕ → Round) → ℕ → ℕ → Client → Result Waited
wait_response io zero n c = ok (if c.resp_wait then unfinished c else ended c)
wait_response io (suc fuel) n c =
    let next = wait_response io fuel (n + 1) in
    let round = io n (timeout c.wait_ms) in
    if c.resp_wait
    then deliver round.delivered (call (io_process (timeout c.wait_ms)) c)
      >>= (λ d. after_round round.result d next)
    else ok (ended c)
