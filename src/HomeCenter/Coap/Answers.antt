-- ===== src/HomeCenter/Coap/Answers.antt =====
-- How a request of HomeCenter/main/coap.c opens, is answered by the first call, and closes.
use smart_home_project.Common.{
  ℕ, suc, ◌+◌, ◌-◌, ◌≡◌, ◌≢◌, refl, ◌∙◌, ap, inl, inr, ◌++◌, append_assoc, List, [], ◌∷◌, true,
  false, Option, none, some, Bytes, ok, ◌>>=◌, ==_ne, leb, Bool-cases,
}
use smart_home_project.HomeCenter.Types.{DataInformation}
use smart_home_project.HomeCenter.Coap.{
  Uri, coap, Client, Response, Round, ended, CoapOption, Call, call, new_context, set_block_mode,
  register_message_handler, new_client_session, udp, io_process, queue_send_data, delete_optlist,
  session_release, free_context, cleanup, message_handler, on_body, deliver, response_class,
  after_round, wait_response, timeout,
}
use smart_home_project.HomeCenter.Coap.Requests.{
  Library, coap_default_demo_uri, coap_build_optlist, destination, is_some, start_waiting,
  start_session, open_session, close_session,
}
use smart_home_project.HomeCenter.Coap.Wait.{wait_response-waiting, wait_response-answered}

-- libcoap and the resolver make all that a request over UDP asks for.
pub record IsReachable (lib : Library) (uri : Uri) : Type 0 where
  pub context : lib.context ≡ true
  pub split : lib.split_uri coap_default_demo_uri ≡ some uri
  pub scheme : uri.scheme ≡ coap
  pub address : is_some (destination lib uri) ≡ true
  pub session : lib.session ≡ true
  pub pdu : lib.pdu ≡ true

abbrev pub opening : List Call
opening = new_context ∷ set_block_mode ∷ register_message_handler ∷ new_client_session udp ∷ []

abbrev pub closing : List CoapOption → List Call
closing [] = session_release ∷ free_context ∷ cleanup ∷ []
closing (o ∷ os) = delete_optlist ∷ session_release ∷ free_context ∷ cleanup ∷ []

abbrev pub options : Library → Uri → List CoapOption
options lib uri = (coap_build_optlist lib uri).0

abbrev pub outdoor : ℕ → DataInformation
outdoor t = record { temperature_value = t; id_device = 1 }

abbrev fresh : Client → Client
fresh c = record c { calls = [] }

pub open_session-IsReachable :
    (lib : Library) (uri : Uri) (c : Client)
    → IsReachable lib uri
    → open_session lib (fresh c)
      ≡ ok (record c { uri = uri; optlist = options lib uri; calls = opening })
unfolding open_session start_session
open_session-IsReachable lib uri c h = rw (h.context, h.split, h.address, h.scheme, h.session) refl

closes :
    (os : List CoapOption) (c : Client)
    → (d : Client) × (close_session (ended (record c { optlist = os })) ≡ ended d)
      × (d.temp_value_outdoor ≡ c.temp_value_outdoor)
      × (d.optlist ≡ [])
      × (d.calls ≡ c.calls ++ closing os)
unfolding close_session
closes [] c = (_, refl, refl, refl, simp append_assoc refl)
closes (o ∷ os) c = (_, refl, refl, refl, simp append_assoc refl)

-- The request's end after it has stopped waiting.
close_session-closing :
    (c : Client)
    → (d : Client) × (close_session (ended c) ≡ ended d)
      × (d.temp_value_outdoor ≡ c.temp_value_outdoor)
      × (d.optlist ≡ [])
      × (d.calls ≡ c.calls ++ closing c.optlist)
close_session-closing c = closes c.optlist c

after_round-answered :
    (io : ℕ → ℕ → Round) (rounds n : ℕ) (result : Option ℕ) (d : Client)
    → d.resp_wait ≡ false
    → (w : ℕ) × (after_round result d (wait_response io rounds n)
        ≡ ok (ended (record d { wait_ms = w })))
after_round-answered io rounds n none d f = (d.wait_ms, wait_response-answered io rounds n d f)
after_round-answered io rounds n (some r) d f = elim (Bool-cases (leb d.wait_ms r)) [
  | inl e ↦ (d.wait_ms, rw e refl)
  | inr e ↦ (d.wait_ms - r, rw e (wait_response-answered io rounds n _ f))
]

-- A round that delivers a message whose handler is content ends the wait.
wait_response-delivered :
    (io : ℕ → ℕ → Round) (rounds n : ℕ) (c d : Client) (r : Response)
    → c.resp_wait ≡ true
    → (io n (timeout c.wait_ms)).delivered ≡ r ∷ []
    → message_handler r (call (io_process (timeout c.wait_ms)) c) ≡ ok d
    → d.resp_wait ≡ false
    → (t : ℕ) × (wait_response io (suc rounds) n c ≡ ok (ended (record d { wait_ms = t })))
unfolding deliver
wait_response-delivered io rounds n c d r w e m f =
    let (t, done) = after_round-answered io rounds (n + 1) (io n (timeout c.wait_ms)).result d f in
    (t, wait_response-waiting io rounds n c w ∙ rw (e, m) done)

pub message_handler-value :
    (r : Response) (t : ℕ) (rest : Bytes) (c : Client)
    → response_class r.code ≡ 2
    → r.body ≡ some (t ∷ rest)
    → t ≢ b'o'
    → message_handler r c
      ≡ ok (
          call
            (queue_send_data (outdoor t))
            (record c { temp_value_outdoor = outdoor t; resp_wait = false }))
unfolding message_handler on_body
message_handler-value r t rest c k e n = rw (k, e, ==_ne t b'o' n) refl

pub message_handler-letter_o :
    (r : Response) (rest : Bytes) (c : Client)
    → response_class r.code ≡ 2
    → r.body ≡ some (b'o' ∷ rest)
    → message_handler r c ≡ ok (record c { resp_wait = false })
unfolding message_handler on_body
message_handler-letter_o r rest c k e = rw (k, e) refl

-- A request that has been filled, and whose first call delivers its answer.
pub exchange_ends :
    (io : ℕ → ℕ → Round) (rounds : ℕ) (c d : Client) (r : Response)
    → (io 0 1000).delivered ≡ r ∷ []
    → message_handler r (call (io_process 1000) (start_waiting c)) ≡ ok d
    → d.resp_wait ≡ false
    → (x : Client) × ((wait_response io (suc rounds) 0 (start_waiting c)
          >>= (λ w. ok (close_session w)))
        ≡ ok (ended x))
      × (x.temp_value_outdoor ≡ d.temp_value_outdoor)
      × (x.optlist ≡ [])
      × (x.calls ≡ d.calls ++ closing d.optlist)
exchange_ends io rounds c d r e m f =
    let (t, done) = wait_response-delivered io rounds 0 (start_waiting c) d r refl e m f in
    let (x, closed, value, empty, trace) = close_session-closing (record d { wait_ms = t }) in
    (x, rw done (ap ok closed), value, empty, trace)
