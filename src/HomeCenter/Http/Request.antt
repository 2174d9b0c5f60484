-- ===== src/HomeCenter/Http/Request.antt =====
-- The text of an RPC request of Thingsboard, and what the loop of `client_event_post_handler` in
-- HomeCenter/main/http.c makes of it.
use smart_home_project.Common.{
  ℕ, suc, ◌+◌, ◌≤◌, ◌≡◌, ◌≢◌, ◌∙◌, ap, ap₂, [], ◌∷◌, ◌++◌, append_assoc, Bytes, codes, u8,
  c_str_lem, IsNonzero, memcpy_fits, ok, length, length-append, drop, All-append, arith,
}
use smart_home_project.HomeCenter.Http.{
  Http, http_event_on_data, set_device, set_params, at_comma, client_event_post_handler,
}
use smart_home_project.HomeCenter.Http.Scan.{
  NoComma, scan_list, scan-eq-scan_list, scan_list-NoComma,
}

-- The text of a request: its number, its method `x y digit rest`, and the value of its parameter
-- with the brace that closes the request.
pub record Request : Type 0 where
  pub id : Bytes
  pub x : ℕ
  pub y : ℕ
  pub digit : ℕ
  pub rest : Bytes
  pub value : ℕ
  pub tail : Bytes

-- No field holds a comma or a zero.
abbrev pub IsPlain : Bytes → Type 0
IsPlain s = NoComma s × IsNonzero s

abbrev pub method_text : Request → Bytes
method_text r = r.x ∷ r.y ∷ r.digit ∷ r.rest

abbrev pub value_text : Request → Bytes
value_text r = r.value ∷ r.tail

pub record IsRequest (r : Request) : Type 0 where
  pub id_plain : IsPlain r.id
  pub method_plain : IsPlain (method_text r)
  pub value_plain : IsPlain (value_text r)

abbrev pub request_body : Request → Bytes
request_body r =
    codes "{\"id\":"
    ++ (r.id
        ++ (codes ",\"method\":\"" ++ (method_text r ++ (codes "\",\"params\":" ++ value_text r))))

params_part :
    (c : ℕ) (vs z : Bytes) (h : Http)
    → NoComma (c ∷ vs)
    → scan_list (codes "\",\"params\":" ++ ((c ∷ vs) ++ z)) (suc (suc (9 + length (c ∷ vs)))) h
      ≡ ok (set_params c h)
unfolding scan_list at_comma
params_part c vs z h n =
    ap (λ k. scan_list (codes "\"params\":" ++ ((c ∷ vs) ++ z)) k (set_params c h)) (omega arith)
    ∙ scan_list-NoComma (codes "\"params\":" ++ (c ∷ vs)) z 0 (set_params c h)
        (All-append (λ x. x ≢ b',') (codes "\"params\":") (c ∷ vs) (omega arith) n)

method_part :
    (x y d : ℕ) (rest s : Bytes) (left : ℕ) (h : Http)
    → NoComma (x ∷ y ∷ d ∷ rest)
    → scan_list
        (codes ",\"method\":\"" ++ (x ∷ y ∷ d ∷ (rest ++ s)))
        (suc (13 + (length rest + left)))
        h
      ≡ scan_list s left (set_device d h)
unfolding scan_list at_comma
method_part x y d rest s left h n =
    scan_list-NoComma (codes "\"method\":\"" ++ (x ∷ y ∷ d ∷ [])) (rest ++ s) (length rest + left)
      (set_device d h) (omega arith)
    ∙ scan_list-NoComma rest s left (set_device d h) n.1.1.1

-- The whole request, with what stands behind it in the array.
scan_list-request :
    (r : Request) (z : Bytes) (h : Http)
    → IsRequest r
    → scan_list
        (codes "{\"id\":"
          ++ (r.id
              ++ (codes ",\"method\":\""
                  ++ (method_text r ++ (codes "\",\"params\":" ++ (value_text r ++ z))))))
        (length (request_body r))
        h
      ≡ ok (set_params r.value (set_device r.digit h))
scan_list-request r z h w =
    ap (λ k. scan_list text k h)
      (omega (arith, length-append r.id after_id, length-append r.rest after_rest))
    ∙ scan_list-NoComma (codes "{\"id\":") (r.id ++ from_method) (length r.id + left) h
        (omega arith)
    ∙ scan_list-NoComma r.id from_method left h w.id_plain.0
    ∙ method_part r.x r.y r.digit r.rest from_params (suc (suc (9 + length (value_text r)))) h
        w.method_plain.0
    ∙ params_part r.value r.tail z (set_device r.digit h) w.value_plain.0
  where
    from_params : Bytes
    from_params = codes "\",\"params\":" ++ (value_text r ++ z)

    from_method : Bytes
    from_method = codes ",\"method\":\"" ++ (method_text r ++ from_params)

    text : Bytes
    text = codes "{\"id\":" ++ (r.id ++ from_method)

    after_rest : Bytes
    after_rest = codes "\",\"params\":" ++ value_text r

    after_id : Bytes
    after_id = codes ",\"method\":\"" ++ (method_text r ++ after_rest)

    left : ℕ
    left = suc (13 + (length r.rest + suc (suc (9 + length (value_text r)))))

-- The array once the body `s` has been printed to it.
abbrev pub received : Bytes → Http → Bytes
received s h =
    ((s ++ b'\n' ∷ []) ++ 0 ∷ []) ++ drop (length ((s ++ b'\n' ∷ []) ++ 0 ∷ [])) h.cmd_data

-- The state in which the loop starts.
abbrev pub loaded : Bytes → Http → Http
loaded s h = record h { cmd_data = received s h; len_cmd_data = u8 (length s) }

-- A body that fits the array is scanned as far as `len_cmd_data`.
pub client_event_post_handler-scan_list :
    (s : Bytes) (h : Http)
    → IsNonzero s
    → length s + 2 ≤ length h.cmd_data
    → client_event_post_handler h (http_event_on_data s)
      ≡ scan_list (received s h) (u8 (length s)) (loaded s h)
unfolding client_event_post_handler
client_event_post_handler-scan_list s h n fits =
    rw
      (
        c_str_lem s n,
        memcpy_fits h.cmd_data ((s ++ b'\n' ∷ []) ++ 0 ∷ [])
            (omega (arith, length-append (s ++ b'\n' ∷ []) (0 ∷ []), length-append s (b'\n' ∷ []))),
      )
      (scan-eq-scan_list (received s h) (u8 (length s)) (loaded s h))

abbrev pub IsArray : Http → Type 0
IsArray h = length h.cmd_data ≡ 100

received-request :
    (r : Request) (h : Http)
    → received (request_body r) h
      ≡ codes "{\"id\":"
        ++ (r.id
            ++ (codes ",\"method\":\""
                ++ (method_text r
                    ++ (codes "\",\"params\":"
                        ++ (value_text r
                            ++ (b'\n'
                                ∷ 0
                                ∷ drop
                                    (length ((request_body r ++ b'\n' ∷ []) ++ 0 ∷ []))
                                    h.cmd_data))))))
received-request r h = simp append_assoc

request_body-IsNonzero : (r : Request) → IsRequest r → IsNonzero (request_body r)
request_body-IsNonzero r w = join (codes "{\"id\":") (r.id ++ from_method) (omega arith) (
    join r.id from_method w.id_plain.1 (
      join (codes ",\"method\":\"") (method_text r ++ from_params) (omega arith) (
        join (method_text r) from_params w.method_plain.1
          (join (codes "\",\"params\":") (value_text r) (omega arith) w.value_plain.1))))
  where
    join : (xs ys : Bytes) → IsNonzero xs → IsNonzero ys → IsNonzero (xs ++ ys)
    join xs ys h k = All-append (λ c. c ≢ 0) xs ys h k

    from_params : Bytes
    from_params = codes "\",\"params\":" ++ value_text r

    from_method : Bytes
    from_method = codes ",\"method\":\"" ++ (method_text r ++ from_params)

pub client_event_post_handler-request :
    (r : Request) (h : Http)
    → IsRequest r
    → IsArray h
    → length (request_body r) ≤ 98
    → client_event_post_handler h (http_event_on_data (request_body r))
      ≡ ok (set_params r.value (set_device r.digit (loaded (request_body r) h)))
client_event_post_handler-request r h w a fits =
    client_event_post_handler-scan_list (request_body r) h (request_body-IsNonzero r w)
      (omega arith)
    ∙ ap₂ (λ s k. scan_list s k (loaded (request_body r) h)) (received-request r h) (omega arith)
    ∙ scan_list-request r _ (loaded (request_body r) h) w
