-- ===== src/HomeCenter/Http/Telemetry.antt =====
-- `SendtoThingsboard_Device1`, `SendtoThingsboard_Device2` and the two functions that ask for
-- commands: what they send, and when they stay within their arrays.
use smart_home_project.Common.{
  ℕ, ◌≤◌, ◌<◌, ◌≡◌, ◌≢◌, Option-cases, Bool-cases, ltb, ltb→lt, drop_all, append-nil, inl, inr,
  List, [], ◌∷◌, ◌++◌, Option, some, Bytes, codes, length, length-append, All, All-append, drop,
  replicate, sprintf, c_str-terminated, IsNonzero, memcpy_fits, memcpy_overflow, append_assoc,
  Returns, Returns->>=, strlen-short, strlen-IsNonzero, Returns-mono, ok, fault, ◌>>=◌, decimal,
  decimal-IsNonzero, length-decimal-le, arith, c_str,
}
use smart_home_project.HomeCenter.Http.{
  Http, HttpEvent, http_event_on_data, http_event_other, Call, http_client_init, set_post_field,
  perform, http_client_cleanup, http_method_post, call, content_type, deliver,
  client_event_post_handler, post_field, log_response, sendto_thingsboard, max_http_output_buffer,
}
use smart_home_project.HomeCenter.Http.Safety.{IsValid, SendsCommand, short_body-IsValid}

-- What the client delivers fits the handler's array.
abbrev pub IsShort : HttpEvent → Type 0
IsShort (http_event_on_data s) = length s ≤ 87
IsShort http_event_other = Unit {0}

event-IsValid :
    (h : Http) (e : HttpEvent)
    → IsShort e
    → IsValid h
    → Returns IsValid (client_event_post_handler h e)
unfolding client_event_post_handler
event-IsValid h (http_event_on_data s) short v =
    unfold client_event_post_handler in short_body-IsValid s h short v
event-IsValid h http_event_other short v = v

-- Any number of callbacks keeps the variables valid.
pub deliver-IsValid :
    (h : Http) (es : List HttpEvent) → All IsShort es → IsValid h → Returns IsValid (deliver h es)
unfolding deliver
deliver-IsValid h [] short v = v
deliver-IsValid h (e ∷ es) short v =
    Returns->>= IsValid IsValid (client_event_post_handler h e) _ (event-IsValid h e short.0 v)
      λ h' v'. deliver-IsValid h' es short.1 v'

call-IsValid : (c : Call) (h : Http) → SendsCommand c → IsValid h → IsValid (call c h)
call-IsValid c h s v = record {
  array = v.array;
  command = v.command;
  sent = All-append SendsCommand h.calls _ v.sent (s, tt);
}

post_field-IsNonzero : (d : ℕ) → IsNonzero (post_field d)
unfolding post_field
post_field-IsNonzero d =
    All-append (λ c. c ≢ 0) (codes "{\"temperature\":") _ (omega arith)
      (All-append (λ c. c ≢ 0) (decimal d) _ (decimal-IsNonzero d) (omega arith))

length-post_field-le : (d : ℕ) → d < 256 → length (post_field d) ≤ 19
unfolding post_field
length-post_field-le d h =
    omega (arith, length-append (decimal d) (codes "}"), length-decimal-le d (omega arith))

-- The text fits `post_data[25]`, and `strlen(post_data)` is its length.
pub post_data_fits :
    (d : ℕ)
    → d < 256
    → Returns
        (λ post_data. c_str post_data ≡ post_field d)
        (sprintf (replicate 25 0) (post_field d))
post_data_fits d h =
    rw
      (memcpy_fits (replicate 25 0) (post_field d ++ 0 ∷ [])
        (omega (arith, length-append (post_field d) (0 ∷ []), length-post_field-le d h)))
      (c_str-terminated (post_field d) _ (post_field-IsNonzero d))

-- A response that leaves room for a zero in `output_buffer[512]`, or a failed read.
abbrev pub IsFitting : (ℕ → Option Bytes) → Type 0
IsFitting read_response =
    (bytes : Bytes) → read_response max_http_output_buffer ≡ some bytes → length bytes ≤ 511

log_response-Returns :
    (read_response : ℕ → Option Bytes)
    → IsFitting read_response
    → Returns (λ n. n ≤ 511) (log_response read_response)
unfolding log_response
log_response-Returns rr fits = elim (Option-cases (rr max_http_output_buffer)) [
  | inl e ↦ rw (e, log_response) (omega arith)
  | inr (bytes, e) ↦
      let short : length bytes ≤ 511 = fits bytes e in
      rw (e, log_response, memcpy_fits (replicate 512 0) bytes (omega arith))
        (Returns-mono (λ n. n ≤ length bytes) (λ n. n ≤ 511) _
          (strlen-short bytes 512 (omega arith)) λ n le. omega arith)
]

-- The calls before the callbacks of `esp_http_client_perform`.
abbrev pub posting : Bytes → ℕ → Http → Http
posting url d h = call perform (
    call content_type
      (call (set_post_field (post_field d)) (call (http_client_init http_method_post url) h)))

sendto_thingsboard-deliver :
    (url : Bytes) (es : List HttpEvent) (rr : ℕ → Option Bytes) (d : ℕ) (h : Http)
    → d < 256
    → sendto_thingsboard url es rr d h ≡ (
        deliver (posting url d h) es
        >>= (λ h'. log_response rr >>= (λ _. ok (call http_client_cleanup h'))))
unfolding sendto_thingsboard
sendto_thingsboard-deliver url es rr d h small = rw (
  memcpy_fits (replicate 25 0) (post_field d ++ 0 ∷ [])
      (omega (arith, length-append (post_field d) (0 ∷ []), length-post_field-le d small)),
  c_str-terminated (post_field d) (drop (length (post_field d ++ 0 ∷ [])) (replicate 25 0))
      (post_field-IsNonzero d),
)

posting-IsValid : (url : Bytes) (d : ℕ) (h : Http) → IsValid h → IsValid (posting url d h)
posting-IsValid url d h v = call-IsValid perform _ tt (
    call-IsValid content_type _ tt (
      call-IsValid (set_post_field (post_field d)) _ tt
        (call-IsValid (http_client_init http_method_post url) h tt v)))

-- Posting a temperature below 256, by the code of either device's function: it returns, with the
-- variables valid, when the response leaves room for a zero in the 512 bytes of its buffer and
-- each delivered body has at most 87 bytes.
pub sendto_thingsboard-IsValid :
    (url : Bytes) (es : List HttpEvent) (rr : ℕ → Option Bytes) (d : ℕ) (h : Http)
    → d < 256
    → All IsShort es
    → IsFitting rr
    → IsValid h
    → Returns IsValid (sendto_thingsboard url es rr d h)
sendto_thingsboard-IsValid url es rr d h small short fits v =
    rw (sendto_thingsboard-deliver url es rr d h small) (
      Returns->>= IsValid IsValid _ _
        (deliver-IsValid (posting url d h) es short (posting-IsValid url d h v))
        λ h' v'.
          Returns->>= (λ n. n ≤ 511) IsValid (log_response rr) _ (log_response-Returns rr fits)
            λ n le. call-IsValid http_client_cleanup h' tt v')

-- When nothing is delivered, the calls are: the client for a POST to the URL, the field
-- `{"temperature":d}`, the header, the transfer and the cleanup, in that order.
pub sendto_thingsboard_calls :
    (url : Bytes) (rr : ℕ → Option Bytes) (d : ℕ) (h : Http)
    → d < 256
    → IsFitting rr
    → Returns
        (λ h'.
          h'.calls
          ≡ h.calls
            ++ (http_client_init http_method_post url
                ∷ set_post_field (codes "{\"temperature\":" ++ (decimal d ++ codes "}"))
                ∷ content_type
                ∷ perform
                ∷ http_client_cleanup
                ∷ []))
        (sendto_thingsboard url [] rr d h)
unfolding deliver post_field
sendto_thingsboard_calls url rr d h small fits =
    rw (sendto_thingsboard-deliver url [] rr d h small) (
      Returns->>= (λ n. n ≤ 511) _ (log_response rr) _ (log_response-Returns rr fits)
        λ n le. simp append_assoc)

-- A response of 512 bytes or more without a zero, which the size passed to the read allows up to
-- 2048, leaves the 512 bytes of `output_buffer`: the code that logs it never returns.
pub log_response_overflow :
    (rr : ℕ → Option Bytes) (bytes : Bytes)
    → rr max_http_output_buffer ≡ some bytes
    → IsNonzero bytes
    → 512 ≤ length bytes
    → log_response rr ≡ fault
unfolding log_response
log_response_overflow rr bytes e n long = elim (Bool-cases (ltb 512 (length bytes))) [
  | inl over ↦
      rw (e, log_response, memcpy_overflow (replicate 512 0) bytes (ltb→lt 512 (length bytes) over))
  | inr exact ↦ rw (
    e,
    log_response,
    memcpy_fits (replicate 512 0) bytes (ground arith),
    drop_all {A = ℕ} (length bytes) (replicate 512 0) long,
    append-nil,
    strlen-IsNonzero bytes n,
  )
]
