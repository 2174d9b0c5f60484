-- ===== src/HomeCenter/Coap/Requests.antt =====
-- The two requests of HomeCenter/main/coap.c: the address, the options and the session of each, and
-- what is sent.
use smart_home_project.Common.{
  ℕ, min, ◌++◌, List, [], ◌∷◌, Bool, true, false, ◌&&◌, ◌||◌, not, Option, none, some, Bytes, codes,
  take, replicate, length, map, memcpy, Result, ok, fault, ◌>>=◌, ◌==◌, if◌then◌else◌,
}
use smart_home_project.HomeCenter.Coap.{
  Client, CoapOption, Round, Uri, Waited, add_data, add_option, add_optlist_pdu, add_token, call,
  cleanup, coap_tcp, coaps, coaps_tcp, content_format, delete_optlist, dtls, ended, free_context,
  get_method, is_scheme, new_client_session, new_client_session_psk2, new_context, new_pdu,
  put_method, register_message_handler, send, session_release, set_block_mode, tcp, tls, udp,
  unfinished, uri_path, uri_query, wait_response,
}

-- What `getaddrinfo` answers for the host name.
pub data Lookup : Type 0 where
  lookup_error no_address other_family : Lookup
  inet inet6 : Bytes → Lookup

pub data Heap : Type 0 where
  calloc_phostname free_phostname get_addrinfo free_addrinfo : Heap

-- `dst_addr`
pub record Address : Type 0 where
  pub ip : Bytes
  pub port : ℕ

-- What is done with the answer of the resolver.
abbrev pub resolved : ℕ → Lookup → Option Address × List Heap
resolved port lookup_error = (none, calloc_phostname ∷ free_phostname ∷ [])
resolved port no_address = (none, calloc_phostname ∷ free_phostname ∷ [])
resolved port other_family = (none, calloc_phostname ∷ get_addrinfo ∷ free_phostname ∷ [])
resolved port (inet ip) = (
  some (record { ip = ip; port = port }),
  calloc_phostname ∷ get_addrinfo ∷ free_phostname ∷ free_addrinfo ∷ [],
)
resolved port (inet6 ip) = (
  some (record { ip = ip; port = port }),
  calloc_phostname ∷ get_addrinfo ∷ free_phostname ∷ free_addrinfo ∷ [],
)

-- `coap_get_address`, with its calls on the heap: whether calloc gives memory, and the lookup. Only
-- a lookup that gives addresses has some to be freed.
unfoldable pub coap_get_address : Bool → (Bytes → Lookup) → Uri → Option Address × List Heap
coap_get_address false lookup uri = (none, [])
coap_get_address true lookup uri = resolved uri.port (lookup uri.host)

-- What libcoap and the resolver answer.
pub record Library : Type 0 where
  pub context : Bool
  pub split_uri : Bytes → Option Uri
  pub split_path : Bytes → List Bytes
  pub split_query : Bytes → List Bytes
  pub dtls_supported : Bool
  pub tls_supported : Bool
  pub tcp_supported : Bool
  pub allocates : Bool
  pub lookup : Bytes → Lookup
  pub multicast : Bool
  pub session : Bool
  pub pdu : Bool
  pub content_format_text : Bytes
  pub io : ℕ → ℕ → Round

abbrev pub is_empty : Bytes → Bool
is_empty s = length s == 0

-- `coap_build_optlist`: the list, and whether the client can speak the protocol.
unfoldable pub coap_build_optlist : Library → Uri → List CoapOption × Bool
coap_build_optlist lib uri =
    if is_scheme uri.scheme coaps && not lib.dtls_supported
    then ([], false)
    else if is_scheme uri.scheme coaps_tcp && not lib.tls_supported
    then ([], false)
    else if is_scheme uri.scheme coap_tcp && not lib.tcp_supported
    then ([], false)
    else (
      (if is_empty uri.path then [] else map uri_path (lib.split_path uri.path))
          ++ (if is_empty uri.query then [] else map uri_query (lib.split_query uri.query)),
      true,
    )

-- The array `client_sni[256]` of `coap_start_psk_session`.
unfoldable pub client_sni : Bytes → Result Bytes
client_sni host =
    memcpy (replicate 256 0)
      (if is_empty host then codes "localhost" else take (min (length host) 255) host)

-- `coap_start_psk_session`. The identity and the key are constants of the configuration.
unfoldable pub coap_start_psk_session : Uri → Client → Result Client
coap_start_psk_session uri c = do
  sni ← client_sni uri.host
  ok (call (new_client_session_psk2 (if is_scheme uri.scheme coaps then dtls else tls) sni) c)

-- COAP_DEFAULT_DEMO_URI
abbrev pub coap_default_demo_uri : Bytes
coap_default_demo_uri = codes "coap://192.168.0.2:5683/control_motor"

-- What is handed to libcoap must be there.
abbrev pub present : Bool → Client → Result Client
present true c = ok c
present false c = fault

abbrev pub is_some : Option Address → Bool
is_some none = false
is_some (some a) = true

-- The address as libcoap is handed it.
abbrev pub destination : Library → Uri → Option Address
destination lib uri = (coap_get_address lib.allocates lib.lookup uri).0

unfoldable pub start_session : Uri → Client → Result Client
start_session uri c =
    if is_scheme uri.scheme coaps || is_scheme uri.scheme coaps_tcp
    then coap_start_psk_session uri c
    else ok (call (new_client_session (if is_scheme uri.scheme coap_tcp then tcp else udp)) c)

abbrev pub uri_or : Option Uri → Uri → Uri
uri_or none old = old
uri_or (some uri) old = uri

-- What both requests begin with: the context, the options, the address and the session.
unfoldable pub open_session : Library → Client → Result Client
unfolding start_session
open_session lib c = do
  a ← present lib.context (call new_context c)
  let b = call register_message_handler (call set_block_mode a)
  let uri = uri_or (lib.split_uri coap_default_demo_uri) b.uri
  let built = record b { uri = uri; optlist = (coap_build_optlist lib uri).0 }
  d ← present (is_some (destination lib uri)) built
  e ← start_session uri d
  present lib.session e

abbrev pub delete_options : Client → Client
delete_options c = elim c.optlist [
  | [] ↦ c
  | o ∷ os ↦ call delete_optlist (record c { optlist = [] })
]

-- What both requests end with; the session and the context are there.
unfoldable pub close_session : Waited → Waited
close_session (unfinished c) = unfinished c
close_session (ended c) =
    ended (call cleanup (call free_context (call session_release (delete_options c))))

abbrev pub start_waiting : Client → Client
start_waiting c = record (call send (record c { resp_wait = true })) { wait_ms = 2000 }

-- `GetTemperature_Coap`, with a bound on the rounds of its loop.
unfoldable pub get_temperature_coap : Library → ℕ → Client → Result Waited
get_temperature_coap lib fuel c0 = do
  c ← open_session lib c0
  p ← present lib.pdu (call (new_pdu (not lib.multicast) get_method) c)
  let filled = call (add_optlist_pdu p.optlist) (call add_token p)
  w ← wait_response lib.io fuel 0 (start_waiting filled)
  ok (close_session w)

-- `ControlMotor_Coap`
unfoldable pub control_motor_coap : Library → ℕ → Bytes → Client → Result Waited
control_motor_coap lib fuel cmd c0 = do
  c ← open_session lib c0
  p ← present lib.pdu (call (new_pdu true put_method) c)
  let token = call add_token p
  let options = record token {
    optlist = token.optlist ++ content_format lib.content_format_text ∷ [];
  }
  let uri = uri_or (lib.split_uri coap_default_demo_uri) options.uri
  let path = call (add_option (uri_path uri.path)) (record options { uri = uri })
  let filled = call (add_optlist_pdu path.optlist) (call (add_data cmd) path)
  w ← wait_response lib.io fuel 0 (start_waiting filled)
  ok (close_session w)
