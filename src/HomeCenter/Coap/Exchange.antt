-- ===== src/HomeCenter/Coap/Exchange.antt =====
-- A whole request to a device that answers.
use smart_home_project.Common.{
  ℕ, suc, ◌≡◌, ◌≢◌, refl, ◌++◌, List, [], ◌∷◌, true, not, some, Bytes, ok,
}
use smart_home_project.HomeCenter.Coap.{
  Uri, Client, Response, ended, CoapOption, Call, new_pdu, get_method, put_method, add_token,
  add_option, uri_path, content_format, add_data, add_optlist_pdu, send, io_process,
  queue_send_data, response_class,
}
use smart_home_project.HomeCenter.Coap.Requests.{
  Library, coap_build_optlist, get_temperature_coap, control_motor_coap,
}
use smart_home_project.HomeCenter.Coap.Answers.{
  IsReachable, closing, exchange_ends, message_handler-letter_o, message_handler-value,
  open_session-IsReachable, opening, options, outdoor,
}

-- The request for the temperature, filled, and the one for the motor.
abbrev get_filled : Library → Uri → Client → Client
get_filled lib uri c = record c {
  uri = uri;
  optlist = options lib uri;
  calls =
      opening
      ++ new_pdu (not lib.multicast) get_method
        ∷ add_token
        ∷ add_optlist_pdu (options lib uri)
        ∷ [];
}

abbrev pub put_options : Library → Uri → List CoapOption
put_options lib uri = options lib uri ++ content_format lib.content_format_text ∷ []

abbrev put_filled : Library → Uri → Bytes → Client → Client
put_filled lib uri cmd c = record c {
  uri = uri;
  optlist = put_options lib uri;
  calls =
      opening
      ++ (new_pdu true put_method
          ∷ add_token
          ∷ add_option (uri_path uri.path)
          ∷ add_data cmd
          ∷ add_optlist_pdu (put_options lib uri)
          ∷ []);
}

-- The calls of a whole request that is answered in its first round: for the temperature, with what
-- the handler queues, and for the motor.
abbrev pub get_calls : Library → Uri → List Call → List Call
get_calls lib uri queued =
    opening
    ++ (new_pdu (not lib.multicast) get_method
          ∷ add_token
          ∷ add_optlist_pdu (options lib uri)
          ∷ send
          ∷ io_process 1000
          ∷ queued
        ++ closing (options lib uri))

abbrev pub put_calls : Library → Uri → Bytes → List Call
put_calls lib uri cmd =
    opening
    ++ (new_pdu true put_method
        ∷ add_token
        ∷ add_option (uri_path uri.path)
        ∷ add_data cmd
        ∷ add_optlist_pdu (put_options lib uri)
        ∷ send
        ∷ io_process 1000
        ∷ closing (put_options lib uri))

-- Where the device answers the first call with a temperature whose byte is not the letter o,
-- `GetTemperature_Coap` comes to its end after that one call: the temperature is kept and queued
-- once as device 1's, the options are deleted, and the session and the context are released last.
pub get_temperature_coap_lem :
    (lib : Library) (uri : Uri) (rounds t : ℕ) (r : Response) (rest : Bytes) (c : Client)
    → IsReachable lib uri
    → (lib.io 0 1000).delivered ≡ r ∷ []
    → response_class r.code ≡ 2
    → r.body ≡ some (t ∷ rest)
    → t ≢ b'o'
    → (d : Client) × (get_temperature_coap lib (suc rounds) (record c { calls = [] })
        ≡ ok (ended d))
      × (d.temp_value_outdoor ≡ outdoor t)
      × (d.optlist ≡ [])
      × (d.calls ≡ get_calls lib uri (queue_send_data (outdoor t) ∷ []))
unfolding get_temperature_coap coap_build_optlist
get_temperature_coap_lem lib uri rounds t r rest c h e k b n =
    let (x, done, value, empty, trace) =
      exchange_ends lib.io rounds (get_filled lib uri c) _ r e
        (message_handler-value r t rest _ k b n) refl in
    (x, rw (open_session-IsReachable lib uri c h, h.pdu) done, value, empty, trace)

-- The byte 111 is the letter o: where the gateway reaches the device and the first call delivers an
-- answer of class 2 that begins with 111 degrees, the request ends with nothing kept or queued.
pub get_temperature_coap_letter_o :
    (lib : Library) (uri : Uri) (rounds : ℕ) (r : Response) (rest : Bytes) (c : Client)
    → IsReachable lib uri
    → (lib.io 0 1000).delivered ≡ r ∷ []
    → response_class r.code ≡ 2
    → r.body ≡ some (111 ∷ rest)
    → (d : Client) × (get_temperature_coap lib (suc rounds) (record c { calls = [] })
        ≡ ok (ended d))
      × (d.temp_value_outdoor ≡ c.temp_value_outdoor)
      × (d.optlist ≡ [])
      × (d.calls ≡ get_calls lib uri [])
unfolding get_temperature_coap coap_build_optlist
get_temperature_coap_letter_o lib uri rounds r rest c h e k b =
    let (x, done, value, empty, trace) =
      exchange_ends lib.io rounds (get_filled lib uri c) _ r e
        (message_handler-letter_o r rest _ k b) refl in
    (x, rw (open_session-IsReachable lib uri c h, h.pdu) done, value, empty, trace)

-- Where the device answers the first call with a text that begins with the letter o, as its answer
-- to a command does, `ControlMotor_Coap` has sent the path and then the command, and comes to its
-- end after that one call with nothing queued; the list of options is added only behind the data.
pub control_motor_coap_lem :
    (lib : Library) (uri : Uri) (rounds : ℕ) (cmd : Bytes) (r : Response) (rest : Bytes)
    (c : Client)
    → IsReachable lib uri
    → (lib.io 0 1000).delivered ≡ r ∷ []
    → response_class r.code ≡ 2
    → r.body ≡ some (111 ∷ rest)
    → (d : Client) × (control_motor_coap lib (suc rounds) cmd (record c { calls = [] })
        ≡ ok (ended d))
      × (d.temp_value_outdoor ≡ c.temp_value_outdoor)
      × (d.optlist ≡ [])
      × (d.calls ≡ put_calls lib uri cmd)
unfolding control_motor_coap coap_build_optlist
control_motor_coap_lem lib uri rounds cmd r rest c h e k b =
    let (x, done, value, empty, trace) =
      exchange_ends lib.io rounds (put_filled lib uri cmd c) _ r e
        (message_handler-letter_o r rest _ k b) refl in
    (x, rw (open_session-IsReachable lib uri c h, h.pdu, h.split) done, value, empty, trace)
