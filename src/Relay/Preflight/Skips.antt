-- ===== src/Relay/Preflight/Skips.antt =====
-- The outcomes with which the preflight stops a relay.
use webhook_relay_api.Prelude.{
  String, ◌≡◌, refl, inl, inr, Bool, true, false, Option, none, some, List, [], ◌∷◌, IsIn, any,
  if◌then◌else◌, truthy, contains, not, ◌&&◌, Option-cases,
}
use webhook_relay_api.Result.{Result, ok, err, value_error, ◌>>=◌}
use webhook_relay_api.Platform.{Platform}
use webhook_relay_api.Relay.{RelayOutcome, skipped}
use webhook_relay_api.Relay.Preflight.{
  blocked_ip_flags, preflight_target, check_target, check_policy, screen_ips, screen,
  resolve_ips_for_host, Resolved, ips, dns_error, is_empty, host_of,
}

-- The outcomes of the preflight.
abbrev pub IsSkip : RelayOutcome → Type 0
IsSkip o =
    (reason : String) × (error : Option String) × (o ≡ skipped reason error)
    × IsIn reason (
        "unsupported_scheme" ∷ "invalid_target_url" ∷ "host_not_allowed" ∷ "blocked_ip"
        ∷ "dns_error" ∷ [])

abbrev pub Skips : Result (Option RelayOutcome) → Type 0
Skips (ok (some o)) = IsSkip o
Skips _ = Unit

Skips-policy :
    (a b c : Bool) (r : Result (Option RelayOutcome))
    → Skips r
    → Skips (
        if a
        then ok (some (skipped "unsupported_scheme" none))
        else if b
        then ok (some (skipped "invalid_target_url" none))
        else if c
        then ok (some (skipped "host_not_allowed" none))
        else r)
Skips-policy true b c r h = ("unsupported_scheme", none, refl, inl refl)
Skips-policy false true c r h = ("invalid_target_url", none, refl, inr (inl refl))
Skips-policy false false true r h = ("host_not_allowed", none, refl, inr (inr (inl refl)))
Skips-policy false false false r h = h

check_policy-Skips :
    (scheme host : String) (hosts : List String) (r : Result (Option RelayOutcome))
    → Skips r
    → Skips (check_policy scheme host hosts r)
unfolding check_policy
check_policy-Skips scheme host hosts r =
    Skips-policy (not (contains ("http" ∷ "https" ∷ []) scheme)) (not (truthy host))
      (not (is_empty hosts) && not (contains hosts host)) r

module _ (p : Platform) where
  screen_ips-Skips : (allow : Bool) (found : List String) → Skips (screen_ips p allow found)
  unfolding screen_ips
  screen_ips-Skips allow [] = tt
  screen_ips-Skips true (ip ∷ more) = screen_ips-Skips true more
  screen_ips-Skips false (ip ∷ more) =
      elim (p.ip_address ip)
        as (λ a. Skips (
          elim a [ none ↦ err value_error | some obj ↦ ok (any obj blocked_ip_flags) ]
          >>= λ blocked.
              if blocked then ok (some (skipped "blocked_ip" none)) else screen_ips p false more)) [
                | none ↦ tt
                | some obj ↦
                    elim (any obj blocked_ip_flags)
                      as (λ b. Skips (
                        if b
                        then ok (some (skipped "blocked_ip" none))
                        else screen_ips p false more)) [
                          | true ↦ ("blocked_ip", none, refl, search (inl, inr))
                          | false ↦ screen_ips-Skips false more
                        ]
              ]

  screen-Skips : (allow : Bool) (r : Result Resolved) → Skips (r >>= screen p allow)
  screen-Skips allow (ok (ips found)) = screen_ips-Skips allow found
  screen-Skips allow (ok (dns_error text)) = ("dns_error", some text, refl, search (inl, inr))
  screen-Skips allow (err e) = tt

  pub preflight_target-Skips :
      (url : String) (hosts : List String) (allow : Bool)
      → Skips (preflight_target p url hosts allow)
  unfolding preflight_target check_target
  preflight_target-Skips url hosts allow = elim (Option-cases (p.urlparse url)) [
    | inl e ↦ rw (e, preflight_target) tt
    | inr (parsed, e) ↦
        rw (e, preflight_target)
          (check_policy-Skips (p.lower parsed.scheme) (host_of p parsed) hosts _
            (screen-Skips allow (resolve_ips_for_host p (host_of p parsed))))
  ]
