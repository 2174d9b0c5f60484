-- ===== src/HomeCenter/Coap/Resolve.antt =====
-- `coap_get_address` and the server name of `coap_start_psk_session`.
use smart_home_project.Common.{
  ℕ, ◌+◌, ◌≤◌, ◌≡◌, refl, List, [], ◌∷◌, Bool, true, false, some, Bytes, codes, length, min, take,
  replicate, memcpy, memcpy_fits, length-memcpy, get_elem?-memcpy, get_elem?, zero, suc,
  if◌then◌else◌, Returns, arith,
}
use smart_home_project.HomeCenter.Coap.{Uri}
use smart_home_project.HomeCenter.Coap.Requests.{
  Heap, calloc_phostname, free_phostname, get_addrinfo, free_addrinfo, Lookup, lookup_error,
  no_address, other_family, inet, inet6, coap_get_address, resolved, client_sni, is_empty,
}

-- How many blocks of the host name, and how many lists of addresses, are left allocated.
abbrev pub phostnames : List Heap → ℕ
phostnames [] = 0
phostnames (calloc_phostname ∷ hs) = 1 + phostnames hs
phostnames (_ ∷ hs) = phostnames hs

abbrev pub freed : List Heap → ℕ
freed [] = 0
freed (free_phostname ∷ hs) = 1 + freed hs
freed (_ ∷ hs) = freed hs

abbrev pub addrinfos : List Heap → ℕ
addrinfos [] = 0
addrinfos (get_addrinfo ∷ hs) = 1 + addrinfos hs
addrinfos (_ ∷ hs) = addrinfos hs

abbrev pub freed_addrinfos : List Heap → ℕ
freed_addrinfos [] = 0
freed_addrinfos (free_addrinfo ∷ hs) = 1 + freed_addrinfos hs
freed_addrinfos (_ ∷ hs) = freed_addrinfos hs

abbrev pub leaks : Lookup → ℕ
leaks other_family = 1
leaks _ = 0

abbrev leaked : Bool → Lookup → ℕ
leaked false l = 0
leaked true l = leaks l

resolved_frees :
    (port : ℕ) (l : Lookup)
    → let heap = (resolved port l).1 in
      (freed heap ≡ phostnames heap) × (addrinfos heap ≡ freed_addrinfos heap + leaks l)
resolved_frees port lookup_error = (refl, refl)
resolved_frees port no_address = (refl, refl)
resolved_frees port other_family = (refl, refl)
resolved_frees port (inet ip) = (refl, refl)
resolved_frees port (inet6 ip) = (refl, refl)

-- Whatever the allocator and the resolver answer, the host name is freed as often as it is
-- allocated; the addresses are freed too, except where memory was given and the family is unknown,
-- which leaves one list.
pub get_address_frees :
    (allocates : Bool) (lookup : Bytes → Lookup) (uri : Uri)
    → let heap = (coap_get_address allocates lookup uri).1 in
      (freed heap ≡ phostnames heap)
      × (addrinfos heap ≡ freed_addrinfos heap + leaked allocates (lookup uri.host))
unfolding coap_get_address
get_address_frees false lookup uri = (refl, refl)
get_address_frees true lookup uri = resolved_frees uri.port (lookup uri.host)

-- An array of 256 bytes that keeps its closing zero.
abbrev pub IsName : Bytes → Type 0
IsName sni = (length sni ≡ 256) × (get_elem? sni 255 ≡ some 0)

memcpy-IsName : (s : Bytes) → length s ≤ 255 → Returns IsName (memcpy (replicate 256 0) s)
memcpy-IsName s h =
    rw (memcpy_fits (replicate 256 0) s (omega arith))
      (length-memcpy (replicate 256 0) s (omega arith), get_elem?-memcpy s (replicate 256 0) 255 h)

length-take-le : (n : ℕ) (s : Bytes) → length (take n s) ≤ n
length-take-le zero s = omega arith
length-take-le (suc n) [] = omega arith
length-take-le (suc n) (x ∷ s) = omega (arith, length-take-le n s)

chosen-IsName :
    (empty : Bool) (host : Bytes)
    → Returns IsName (
        memcpy
          (replicate 256 0)
          (if empty then codes "localhost" else take (min (length host) 255) host))
chosen-IsName true host = memcpy-IsName (codes "localhost") (omega arith)
chosen-IsName false host =
    memcpy-IsName (take (min (length host) 255) host)
      (omega (arith, length-take-le (min (length host) 255) host))

-- The name of the server is handed to the session as a string: for a host of any length, the array
-- keeps its 256 bytes with a zero in the last.
pub client_sni_fits : (host : Bytes) → Returns IsName (client_sni host)
unfolding client_sni
client_sni_fits host = chosen-IsName (is_empty host) host
