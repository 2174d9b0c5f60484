-- ===== src/HomeCenter/Http/Safety.antt =====
-- Which bodies `client_event_post_handler` can take, and what it keeps.
use smart_home_project.Common.{
  ℕ, zero, suc, ◌+◌, ◌≤◌, ◌<◌, ◌≡◌, ◌∙◌, [], ◌∷◌, ◌++◌, Bytes, u8, c_str, length, length-append,
  length-c_str-le, length-memcpy, memcpy_fits, memcpy_overflow, c_str_lem, IsNonzero, Returns,
  Returns->>=, ok, fault, read-lt, ◌==◌, if◌then◌else◌, Bool-cases, inl, inr, All, All-append, drop,
  arith,
}
use smart_home_project.HomeCenter.Types.{CommandInformation}
use smart_home_project.HomeCenter.Http.{
  Http, http_event_on_data, Call, queue_send_cmd, set_device, enqueue, set_params, at_comma, scan,
  client_event_post_handler,
}

-- A command that `cmd_handler_task` knows.
abbrev pub IsCommand : CommandInformation → Type 0
IsCommand c = (c.cmd ≤ 1) × (c.id_device ≤ 2)

abbrev pub SendsCommand : Call → Type 0
SendsCommand (queue_send_cmd c) = IsCommand c
SendsCommand _ = Unit {0}

-- What holds of the file's variables between two callbacks: the array has its 100 bytes, and the
-- command under construction and every command sent name a known device and value.
pub record IsValid (h : Http) : Type 0 where
  pub array : length h.cmd_data ≡ 100
  pub command : IsCommand h.cmd_enqueue
  pub sent : All SendsCommand h.calls

set_device-IsValid : (c : ℕ) (h : Http) → IsValid h → IsValid (set_device c h)
unfolding set_device
set_device-IsValid c h v = ground arith

enqueue-IsValid : (c : ℕ) (h : Http) → c ≤ 1 → IsValid h → IsValid (enqueue c h)
enqueue-IsValid c h le v = record {
  array = v.array;
  command = (le, v.command.1);
  sent = All-append SendsCommand h.calls _ v.sent ((le, v.command.1), tt);
}

set_params-IsValid : (c : ℕ) (h : Http) → IsValid h → IsValid (set_params c h)
unfolding set_params
set_params-IsValid c h v = elim (Bool-cases (c == b't')) [
  | inl e ↦ rw e (enqueue-IsValid 1 h (omega arith) v)
  | inr e ↦ rw e (elim (Bool-cases (c == b'f')) [
    | inl e' ↦ rw e' (enqueue-IsValid 0 h (omega arith) v)
    | inr e' ↦ rw e' v
  ])
]

at_comma-IsValid :
    (buf : Bytes) (i : ℕ) (h : Http)
    → i + 13 < length buf
    → IsValid h
    → Returns IsValid (at_comma buf i h)
unfolding at_comma
at_comma-IsValid buf i h fits v =
    let (c, ec) = read-lt buf (i + 2) (omega arith) in
    let (d, ed) = read-lt buf (i + 13) fits in
    let (p, ep) = read-lt buf (i + 10) (omega arith) in
    rw (ec, ed, ep) (Returns->>= IsValid IsValid _ _ (method c d) λ h' v'. params c p h' v')
  where
    method : (c d : ℕ) → Returns IsValid (if c == b'm' then ok (set_device d h) else ok h)
    method c d = elim (Bool-cases (c == b'm')) [
      | inl e ↦ rw e (set_device-IsValid d h v)
      | inr e ↦ rw e v
    ]

    params :
        (c p : ℕ) (h' : Http)
        → IsValid h'
        → Returns IsValid (if c == b'p' then ok (set_params p h') else ok h')
    params c p h' v' = elim (Bool-cases (c == b'p')) [
      | inl e ↦ rw e (set_params-IsValid p h' v')
      | inr e ↦ rw e v'
    ]

scan-IsValid :
    (buf : Bytes) (left i : ℕ) (h : Http)
    → i + left + 13 ≤ length buf
    → IsValid h
    → Returns IsValid (scan buf left i h)
unfolding scan
scan-IsValid buf zero i h fits v = v
scan-IsValid buf (suc left) i h fits v =
    let (c, ec) = read-lt buf i (omega arith) in
    rw ec (
      Returns->>= IsValid IsValid _ _ (here c)
        λ h' v'. scan-IsValid buf left (i + 1) h' (omega arith) v')
  where
    here : (c : ℕ) → Returns IsValid (if c == b',' then at_comma buf i h else ok h)
    here c = elim (Bool-cases (c == b',')) [
      | inl e ↦ rw e (at_comma-IsValid buf i h (omega arith) v)
      | inr e ↦ rw e v
    ]

-- A body of at most 87 bytes never takes the handler out of its array, whatever the bytes are, and
-- the handler keeps the variables valid: every command that it has sent is for device 0, 1 or 2
-- with CMD 0 or 1.
pub short_body-IsValid :
    (s : Bytes) (h : Http)
    → length s ≤ 87
    → IsValid h
    → Returns IsValid (client_event_post_handler h (http_event_on_data s))
unfolding client_event_post_handler
short_body-IsValid s h short v = rw (memcpy_fits h.cmd_data text fits) (
    scan-IsValid (text ++ drop (length text) h.cmd_data) (u8 (length s)) 0 _
      (omega (arith, length-memcpy h.cmd_data text fits, v.array))
      (record {
        array = length-memcpy h.cmd_data text fits ∙ v.array;
        command = v.command;
        sent = v.sent;
      }))
  where
    text : Bytes
    text = (c_str s ++ b'\n' ∷ []) ++ 0 ∷ []

    fits : length text ≤ length h.cmd_data
    fits = omega (
      arith,
      length-append (c_str s ++ b'\n' ∷ []) (0 ∷ []),
      length-append (c_str s) (b'\n' ∷ []),
      length-c_str-le s,
      v.array,
    )

-- A body of 99 bytes or more without a zero writes past the end of the array.
long_body_overflow :
    (s : Bytes) (h : Http)
    → length h.cmd_data ≡ 100
    → IsNonzero s
    → 99 ≤ length s
    → client_event_post_handler h (http_event_on_data s) ≡ fault
unfolding client_event_post_handler
long_body_overflow s h a n long = rw (
  c_str_lem s n,
  memcpy_overflow h.cmd_data ((s ++ b'\n' ∷ []) ++ 0 ∷ [])
      (omega (arith, length-append (s ++ b'\n' ∷ []) (0 ∷ []), length-append s (b'\n' ∷ []))),
)
