-- ===== src/HomeCenter/Http/Widths.antt =====
-- The widths of the variables of HomeCenter/main/http.c.
use smart_home_project.Common.{
  ℕ, zero, suc, ◌+◌, [], ◌∷◌, ◌++◌, Bytes, u8, c_str, length, sprintf, memcpy, read, Result, ◌>>=◌,
  Ensures, Ensures->>=, Ensures-any, ◌==◌, ltb, if_both, All, All-append, All-drop, All-c_str,
  arith,
}
use smart_home_project.HomeCenter.Types.{IsByte}
use smart_home_project.HomeCenter.Http.{
  Http, http_event_on_data, set_device, set_params, at_comma, scan, client_event_post_handler,
}

-- `cmd_data` holds bytes, and `len_cmd_data` is one.
pub record IsTyped (h : Http) : Type 0 where
  pub array : All IsByte h.cmd_data
  pub len : IsByte h.len_cmd_data

set_device-IsTyped : (c : ℕ) (h : Http) → IsTyped h → IsTyped (set_device c h)
unfolding set_device
set_device-IsTyped c h t = ground arith

set_params-IsTyped : (c : ℕ) (h : Http) → IsTyped h → IsTyped (set_params c h)
unfolding set_params
set_params-IsTyped c h t = ground arith

-- What holds after a byte is read, whatever it is.
after_read :
    (buf : Bytes) (i : ℕ) (f : ℕ → Result Http)
    → ((c : ℕ) → Ensures IsTyped (f c))
    → Ensures IsTyped (read buf i >>= f)
after_read buf i f h =
    Ensures->>= (λ c. Unit {0}) IsTyped (read buf i) f (Ensures-any (read buf i)) λ c u. h c

at_comma-IsTyped : (buf : Bytes) (i : ℕ) (h : Http) → IsTyped h → Ensures IsTyped (at_comma buf i h)
unfolding at_comma
at_comma-IsTyped buf i h t = after_read buf (i + 2) _ λ c.
    Ensures->>= IsTyped IsTyped _ _
      (if_both (Ensures IsTyped) (c == b'm') _ _
        (after_read buf (i + 13) _ λ d. set_device-IsTyped d h t) t)
      λ h' t'.
        if_both (Ensures IsTyped) (c == b'p') _ _
          (after_read buf (i + 10) _ λ d. set_params-IsTyped d h' t') t'

scan-IsTyped :
    (buf : Bytes) (left i : ℕ) (h : Http) → IsTyped h → Ensures IsTyped (scan buf left i h)
unfolding scan
scan-IsTyped buf zero i h t = t
scan-IsTyped buf (suc left) i h t = after_read buf i _ λ c.
    Ensures->>= IsTyped IsTyped _ _
      (if_both (Ensures IsTyped) (c == b',') _ _ (at_comma-IsTyped buf i h t) t)
      λ h' t'. scan-IsTyped buf left (i + 1) h' t'

memcpy-All : (dst s : Bytes) → All IsByte dst → All IsByte s → Ensures (All IsByte) (memcpy dst s)
memcpy-All dst s d h =
    if_both (Ensures (All IsByte)) (ltb (length dst) (length s)) _ _ tt
      (All-append IsByte s _ h (All-drop IsByte (length s) dst d))

-- A body of bytes leaves bytes in the array, and its length is cut to one.
pub body-IsTyped :
    (s : Bytes) (h : Http)
    → All IsByte s
    → IsTyped h
    → Ensures IsTyped (client_event_post_handler h (http_event_on_data s))
unfolding client_event_post_handler
body-IsTyped s h b t =
    Ensures->>= (All IsByte) IsTyped (sprintf h.cmd_data (c_str s ++ b'\n' ∷ [])) _
      (memcpy-All h.cmd_data _ t.array (
        All-append IsByte (c_str s ++ b'\n' ∷ []) (0 ∷ [])
          (All-append IsByte (c_str s) (b'\n' ∷ []) (All-c_str IsByte s b) (omega arith))
          (omega arith)))
      λ buf a. scan-IsTyped buf (u8 (length s)) 0 _ (record { array = a; len = omega arith })
