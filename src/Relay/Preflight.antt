-- ===== src/Relay/Preflight.antt =====
-- `_is_blocked_ip`, `_resolve_ips_for_host` and `_preflight_target` (app/services/relay.py).
pub mod Laws
pub mod Addresses
pub mod Skips
use webhook_relay_api.Prelude.{
  String, Bool, true, false, not, ◌&&◌, Option, none, some, List, [], ◌∷◌, ◌++◌, if◌then◌else◌, any,
  contains, truthy,
}
use webhook_relay_api.Result.{Result, ok, err, value_error, other_error, ◌>>=◌}
use webhook_relay_api.Platform.{
  Platform, ParsedUrl, IpFlag, is_private, is_loopback, is_link_local, is_reserved, is_multicast,
  is_unspecified, Resolution, records, gaierror, resolver_error,
}
use webhook_relay_api.Relay.{RelayOutcome, skipped}

-- `_BLOCKED_IP_FLAGS`
abbrev pub blocked_ip_flags : List IpFlag
blocked_ip_flags =
    is_private ∷ is_loopback ∷ is_link_local ∷ is_reserved ∷ is_multicast ∷ is_unspecified ∷ []

-- `_resolve_ips_for_host`: the set of addresses, as a list in the order of the records, or the
-- text of `socket.gaierror`.
pub data Resolved : Type 0 where
  ips : List String → Resolved
  dns_error : String → Resolved

-- `ips.add(...)`
abbrev pub add_ip : String → List String → List String
add_ip ip found = if contains found ip then found else found ++ ip ∷ []

unfoldable pub collect_ips : List (Option String) → List String → List String
collect_ips [] found = found
collect_ips (none ∷ infos) found = collect_ips infos found
collect_ips (some ip ∷ infos) found = collect_ips infos (add_ip ip found)

abbrev pub is_empty {ℓ} : {A : Type ℓ} → List A → Bool
is_empty [] = true
is_empty (x ∷ xs) = false

-- The checks on scheme and host; `screened` is the result of the loop that follows them.
unfoldable pub check_policy :
    String → String → List String → Result (Option RelayOutcome) → Result (Option RelayOutcome)
check_policy scheme host relay_allow_hosts screened =
    if not (contains ("http" ∷ "https" ∷ []) scheme)
    then ok (some (skipped "unsupported_scheme" none))
    else if not (truthy host)
    then ok (some (skipped "invalid_target_url" none))
    else if not (is_empty relay_allow_hosts) && not (contains relay_allow_hosts host)
    then ok (some (skipped "host_not_allowed" none))
    else screened

module _ (p : Platform) where
  unfoldable pub is_blocked_ip : String → Result Bool
  is_blocked_ip ip_text = elim (p.ip_address ip_text) [
    | none ↦ err value_error
    | some ip ↦ ok (any ip blocked_ip_flags)
  ]

  abbrev pub resolved : Resolution → Result Resolved
  resolved (records infos) = ok (ips (collect_ips infos []))
  resolved (gaierror text) = ok (dns_error text)
  resolved (resolver_error name) = err (other_error name)

  unfoldable pub resolve_ips_for_host : String → Result Resolved
  unfolding collect_ips
  resolve_ips_for_host host = elim (p.ip_address host) [
    | some ip ↦ ok (ips (host ∷ []))
    | none ↦ resolved (p.getaddrinfo host)
  ]

  -- The loop over the addresses; `none` means that none is refused.
  unfoldable pub screen_ips : Bool → List String → Result (Option RelayOutcome)
  unfolding is_blocked_ip
  screen_ips allow_private [] = ok none
  screen_ips allow_private (ip ∷ more) =
      let rest = screen_ips allow_private more in
      let screened =
        (is_blocked_ip ip >>= λ blocked.
        if blocked then ok (some (skipped "blocked_ip" none)) else rest) in
      if allow_private then rest else screened

  abbrev pub screen : Bool → Resolved → Result (Option RelayOutcome)
  screen allow_private (ips found) = screen_ips allow_private found
  screen allow_private (dns_error text) = ok (some (skipped "dns_error" (some text)))

  -- `(parsed.hostname or "").lower()`, where the lower case of the empty text is empty
  abbrev pub host_of : ParsedUrl → String
  host_of parsed = elim parsed.hostname [ none ↦ "" | some host ↦ p.lower host ]

  unfoldable pub check_target : ParsedUrl → List String → Bool → Result (Option RelayOutcome)
  check_target parsed relay_allow_hosts allow_private =
      let host = host_of parsed in
      check_policy (p.lower parsed.scheme) host relay_allow_hosts
        (resolve_ips_for_host host >>= screen allow_private)

  unfoldable pub preflight_target : String → List String → Bool → Result (Option RelayOutcome)
  preflight_target target_url relay_allow_hosts allow_private = elim (p.urlparse target_url) [
    | none ↦ err value_error
    | some parsed ↦ check_target parsed relay_allow_hosts allow_private
  ]

-- To compute with all of the preflight.
unfoldable pub preflight_runs : Unit {0}
unfolding preflight_target check_target check_policy resolve_ips_for_host screen_ips
preflight_runs = tt
