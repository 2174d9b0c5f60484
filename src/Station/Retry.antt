-- ===== src/Station/Retry.antt =====
-- How long a device tries to join the gateway.
use smart_home_project.Common.{
  ℕ, zero, suc, ◌+◌, ◌≤◌, ◌<◌, ◌≡◌, refl, ◌∙◌, ap, List, [], ◌∷◌, ◌++◌, append_assoc, true, false,
  ◌||◌, some, replicate, append-nil, arith,
}
use smart_home_project.Station.{
  Station, Event, wifi_event_sta_disconnected, ip_event_sta_got_ip, esp_wifi_connect, event_handler,
  wait_bits, connected, failed_to_connect, report,
}

-- `k` more disconnections, which stay within the retries, only try again.
abbrev pub retried : ℕ → Station → Station
retried k s = record s {
  s_retry_num = s.s_retry_num + k;
  calls = s.calls ++ replicate k esp_wifi_connect;
}

-- The bits are not set: the wait goes on.
abbrev pub IsPending : Station → Type 0
IsPending s = (s.wifi_connected_bit || s.wifi_fail_bit) ≡ false

wait_bits-pending :
    (e : Event) (es : List Event) (s : Station)
    → IsPending s
    → wait_bits (e ∷ es) s ≡ wait_bits es (event_handler e s)
unfolding wait_bits
wait_bits-pending e es s p = rw p

wait_bits-set :
    (es : List Event) (s : Station)
    → (s.wifi_connected_bit || s.wifi_fail_bit) ≡ true
    → wait_bits es s ≡ some (s, report s)
unfolding wait_bits
wait_bits-set [] s p = rw p
wait_bits-set (e ∷ es) s p = rw p

retry :
    (s : Station) → s.s_retry_num < 5 → event_handler wifi_event_sta_disconnected s ≡ retried 1 s
unfolding event_handler
retry s h = ground arith

retried-retried : (k : ℕ) (s : Station) → retried k (retried 1 s) ≡ retried (suc k) s
retried-retried k s =
    ground (arith, append_assoc s.calls (esp_wifi_connect ∷ []) (replicate k esp_wifi_connect))

wait_bits-retried :
    (k : ℕ) (s : Station) (es : List Event)
    → s.s_retry_num + k ≤ 5
    → IsPending s
    → wait_bits (replicate k wifi_event_sta_disconnected ++ es) s ≡ wait_bits es (retried k s)
wait_bits-retried zero s es le p = ap (wait_bits es) (ground (arith, append-nil s.calls))
wait_bits-retried (suc k) s es le p =
    wait_bits-pending wifi_event_sta_disconnected (replicate k wifi_event_sta_disconnected ++ es) s
      p
    ∙ ap (wait_bits (replicate k wifi_event_sta_disconnected ++ es)) (retry s (omega arith))
    ∙ wait_bits-retried k (retried 1 s) es (omega arith) p
    ∙ ap (wait_bits es) (retried-retried k s)

-- At most five disconnections and then an address: the wait ends as connected, after one attempt
-- for each disconnection, and the count starts again.
pub joins :
    (k : ℕ) (s : Station) (es : List Event)
    → k ≤ 5
    → s.s_retry_num ≡ 0
    → IsPending s
    → wait_bits (replicate k wifi_event_sta_disconnected ++ ip_event_sta_got_ip ∷ es) s
      ≡ some (
        record s {
          s_retry_num = 0;
          wifi_connected_bit = true;
          calls = s.calls ++ replicate k esp_wifi_connect;
        },
        connected,
      )
unfolding event_handler
joins k s es le z p =
    wait_bits-retried k s (ip_event_sta_got_ip ∷ es) (omega arith) p
    ∙ wait_bits-pending ip_event_sta_got_ip es (retried k s) p
    ∙ wait_bits-set es _ refl

given_up : Station → Station
given_up s = record s {
  s_retry_num = 5;
  wifi_fail_bit = true;
  calls = s.calls ++ replicate 5 esp_wifi_connect;
}

last :
    (s : Station)
    → s.s_retry_num ≡ 0
    → event_handler wifi_event_sta_disconnected (retried 5 s) ≡ given_up s
unfolding event_handler given_up
last s z = ground arith

-- The sixth disconnection in a row ends the wait as failed, after five attempts.
pub fails_to_join :
    (s : Station) (es : List Event)
    → s.s_retry_num ≡ 0
    → s.wifi_connected_bit ≡ false
    → s.wifi_fail_bit ≡ false
    → wait_bits (replicate 6 wifi_event_sta_disconnected ++ es) s
      ≡ some (
        record s {
          s_retry_num = 5;
          wifi_fail_bit = true;
          calls = s.calls ++ replicate 5 esp_wifi_connect;
        },
        failed_to_connect,
      )
unfolding given_up
fails_to_join s es z c f =
    wait_bits-retried 5 s (wifi_event_sta_disconnected ∷ es) (omega arith) (rw (c, f))
    ∙ wait_bits-pending wifi_event_sta_disconnected es (retried 5 s) (rw (c, f))
    ∙ ap (wait_bits es) (last s z)
    ∙ wait_bits-set es (given_up s) (rw c)
    ∙ ap (λ j. some (given_up s, j)) (rw c)
