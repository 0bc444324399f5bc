-- ===== src/Relay/Preflight/Laws.antt =====
-- What the preflight establishes before a request is sent.
use webhook_relay_api.Prelude.{
  String, ◌≡◌, refl, ◌↔◌, ◌⊎◌, inl, inr, Bool, true, false, Option, none, some, List, [], ◌∷◌,
  arith, any, All, IsIn, contains_iff, truthy, Option-cases, eq_iff,
}
use webhook_relay_api.Result.{Result, ok, err, ◌>>=◌}
use webhook_relay_api.Platform.{
  Platform, ParsedUrl, IpFlag, IpAddress, is_private, is_loopback, is_link_local, is_reserved,
  is_multicast, is_unspecified,
}
use webhook_relay_api.Relay.{RelayOutcome}
use webhook_relay_api.Relay.Preflight.{
  blocked_ip_flags, Resolved, ips, dns_error, resolve_ips_for_host, screen_ips, screen, host_of,
  check_policy, check_target, preflight_target,
}

-- No flag of the list is set on an address exactly if no flag is.
any-blocked : (ip : IpAddress) → any ip blocked_ip_flags ≡ false → (flag : IpFlag) → ip flag ≡ false
any-blocked ip h is_private = ground arith
any-blocked ip h is_loopback = ground arith
any-blocked ip h is_link_local = ground arith
any-blocked ip h is_reserved = ground arith
any-blocked ip h is_multicast = ground arith
any-blocked ip h is_unspecified = ground arith

check_policy-pass_iff :
    (scheme host : String) (hosts : List String) (r : Result (Option RelayOutcome))
    → (check_policy scheme host hosts r ≡ ok none) ↔ (
        ((scheme ≡ "http") ⊎ (scheme ≡ "https"))
        × (truthy host ≡ true)
        × ((hosts ≡ []) ⊎ IsIn host hosts)
        × (r ≡ ok none))
unfolding check_policy
check_policy-pass_iff scheme host [] r = ground (arith, eq_iff "http" scheme, eq_iff "https" scheme)
check_policy-pass_iff scheme host (h ∷ hosts) r =
    ground (arith, eq_iff "http" scheme, eq_iff "https" scheme, contains_iff (h ∷ hosts) host)

module _ (p : Platform) where
  -- An address that `ipaddress` reads, with none of the six flags set.
  abbrev pub IsUnflagged : String → Type 0
  IsUnflagged ip =
      (obj : IpAddress) × (p.ip_address ip ≡ some obj) × ((flag : IpFlag) → obj flag ≡ false)

  screen_ips-IsUnflagged :
      (found : List String) → screen_ips p false found ≡ ok none → All IsUnflagged found
  unfolding screen_ips
  screen_ips-IsUnflagged [] h = tt
  screen_ips-IsUnflagged (ip ∷ more) h = elim (Option-cases (p.ip_address ip)) [
    | inl e ↦ ground arith
    | inr (obj, e) ↦
        ((obj, e, any-blocked obj (ground arith)), screen_ips-IsUnflagged more (ground arith))
  ]

  screen_ips_of_IsUnflagged :
      (found : List String) → All IsUnflagged found → screen_ips p false found ≡ ok none
  unfolding screen_ips
  screen_ips_of_IsUnflagged [] h = refl
  screen_ips_of_IsUnflagged (ip ∷ more) ((obj, e, clean), rest) = ground (
    arith,
    screen_ips_of_IsUnflagged more rest,
    clean is_private,
    clean is_loopback,
    clean is_link_local,
    clean is_reserved,
    clean is_multicast,
    clean is_unspecified,
  )

  screen_ips_allowed : (found : List String) → screen_ips p true found ≡ ok none
  unfolding screen_ips
  screen_ips_allowed [] = refl
  screen_ips_allowed (ip ∷ more) = screen_ips_allowed more

  -- What the README promises of a target to which a request is sent.
  pub record IsCleared (target_url : String) (allow_hosts : List String) (allow_private : Bool)
      : Type 0 where
    pub parsed : ParsedUrl
    pub parses : p.urlparse target_url ≡ some parsed
    pub scheme : (p.lower parsed.scheme ≡ "http") ⊎ (p.lower parsed.scheme ≡ "https")
    pub has_host : truthy (host_of p parsed) ≡ true
    pub host_allowed : (allow_hosts ≡ []) ⊎ IsIn (host_of p parsed) allow_hosts
    pub found : List String
    pub resolves : resolve_ips_for_host p (host_of p parsed) ≡ ok (ips found)
    pub screened : (allow_private ≡ true) ⊎ All IsUnflagged found

  screen-pass :
      (allow : Bool) (r : Result Resolved)
      → (r >>= screen p allow) ≡ ok none
      → (found : List String) × (r ≡ ok (ips found)) × ((allow ≡ true) ⊎ All IsUnflagged found)
  screen-pass true (ok (ips found)) h = (found, refl, inl refl)
  screen-pass false (ok (ips found)) h = (found, refl, inr (screen_ips-IsUnflagged found h))
  screen-pass allow (ok (dns_error text)) h = cc
  screen-pass allow (err e) h = cc

  screen_of_pass :
      (allow : Bool) (found : List String)
      → ((allow ≡ true) ⊎ All IsUnflagged found)
      → screen_ips p allow found ≡ ok none
  screen_of_pass true found h = screen_ips_allowed found
  screen_of_pass false found (inl e) = cc
  screen_of_pass false found (inr h) = screen_ips_of_IsUnflagged found h

  IsCleared-of_check :
      (url : String) (hosts : List String) (allow : Bool) (parsed : ParsedUrl)
      → p.urlparse url ≡ some parsed
      → check_target p parsed hosts allow ≡ ok none
      → IsCleared url hosts allow
  unfolding check_target
  IsCleared-of_check url hosts allow parsed e h =
      let (scheme, has_host, allowed, passed) = (check_policy-pass_iff _ _ hosts _).0 h in
      let (found, resolves, screened) = screen-pass allow _ passed in
      record {
        parsed = parsed;
        parses = e;
        scheme = scheme;
        has_host = has_host;
        host_allowed = allowed;
        found = found;
        resolves = resolves;
        screened = screened;
      }

  IsCleared-of_pass :
      (url : String) (hosts : List String) (allow : Bool)
      → preflight_target p url hosts allow ≡ ok none
      → IsCleared url hosts allow
  unfolding preflight_target
  IsCleared-of_pass url hosts allow h = elim (Option-cases (p.urlparse url)) [
    | inl e ↦ ground arith
    | inr (parsed, e) ↦ IsCleared-of_check url hosts allow parsed e (ground arith)
  ]

  pass_of_IsCleared :
      (url : String) (hosts : List String) (allow : Bool)
      → IsCleared url hosts allow
      → preflight_target p url hosts allow ≡ ok none
  unfolding preflight_target check_target
  pass_of_IsCleared url hosts allow c =
      rw (c.parses, preflight_target)
        ((check_policy-pass_iff _ _ hosts _).1 (
          c.scheme,
          c.has_host,
          c.host_allowed,
          rw c.resolves (screen_of_pass allow c.found c.screened),
        ))

  -- A request may be sent exactly if the target is an http or https URL with a host, the host is on
  -- the allowlist if there is one, it resolves, and, unless private addresses are allowed, no
  -- address that it resolves to is flagged private, loopback, link-local, multicast, reserved or
  -- unspecified.
  pub preflight_target-pass_iff :
      (url : String) (hosts : List String) (allow : Bool)
      → (preflight_target p url hosts allow ≡ ok none) ↔ IsCleared url hosts allow
  preflight_target-pass_iff url hosts allow =
      (IsCleared-of_pass url hosts allow, pass_of_IsCleared url hosts allow)
