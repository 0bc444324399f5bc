-- ===== src/Relay/Preflight/Addresses.antt =====
-- The addresses that are screened: every record of a name, or the literal address itself.
use webhook_relay_api.Prelude.{
  String, ◌≡◌, refl, sym, ◌∙◌, subst, ◌⊎◌, inl, inr, true, false, Option, none, some, List, [], ◌∷◌,
  ◌++◌, arith, All, IsIn, contains, contains_iff, Bool-cases,
}
use webhook_relay_api.Result.{ok}
use webhook_relay_api.Platform.{Platform, ParsedUrl, IpAddress, records}
use webhook_relay_api.Relay.Preflight.{
  ips, add_ip, collect_ips, resolve_ips_for_host, host_of, preflight_target,
}
use webhook_relay_api.Relay.Preflight.Laws.{IsUnflagged, preflight_target-pass_iff}

IsIn-append_left : (x : String) (xs ys : List String) → IsIn x xs → IsIn x (xs ++ ys)
IsIn-append_left x [] ys m = elim m [ ]
IsIn-append_left x (z ∷ xs) ys (inl e) = inl e
IsIn-append_left x (z ∷ xs) ys (inr m) = inr (IsIn-append_left x xs ys m)

IsIn-append_last : (x : String) (xs : List String) → IsIn x (xs ++ x ∷ [])
IsIn-append_last x [] = inl refl
IsIn-append_last x (z ∷ xs) = inr (IsIn-append_last x xs)

IsIn-add_ip_self : (ip : String) (found : List String) → IsIn ip (add_ip ip found)
IsIn-add_ip_self ip found = elim (Bool-cases (contains found ip)) [
  | inl h ↦ rw h ((contains_iff found ip).0 h)
  | inr h ↦ rw h (IsIn-append_last ip found)
]

IsIn-add_ip : (ip new : String) (found : List String) → IsIn ip found → IsIn ip (add_ip new found)
IsIn-add_ip ip new found m = elim (Bool-cases (contains found new)) [
  | inl h ↦ rw h m
  | inr h ↦ rw h (IsIn-append_left ip found (new ∷ []) m)
]

-- Nothing that has been collected is lost, and every record is collected.
collect_ips-keeps :
    (ip : String) (infos : List (Option String)) (found : List String)
    → IsIn ip found
    → IsIn ip (collect_ips infos found)
unfolding collect_ips
collect_ips-keeps ip [] found m = m
collect_ips-keeps ip (none ∷ infos) found m = collect_ips-keeps ip infos found m
collect_ips-keeps ip (some new ∷ infos) found m =
    collect_ips-keeps ip infos (add_ip new found) (IsIn-add_ip ip new found m)

collect_ips-collects :
    (ip : String) (infos : List (Option String)) (found : List String)
    → IsIn (some ip) infos
    → IsIn ip (collect_ips infos found)
unfolding collect_ips
collect_ips-collects ip [] found m = elim m [ ]
collect_ips-collects ip (none ∷ infos) found (inl e) = cc
collect_ips-collects ip (none ∷ infos) found (inr m) = collect_ips-collects ip infos found m
collect_ips-collects ip (some new ∷ infos) found (inl e) =
    collect_ips-keeps ip infos (add_ip new found)
      (subst (λ n. IsIn ip (add_ip n found)) (cc) (IsIn-add_ip_self ip found))
collect_ips-collects ip (some new ∷ infos) found (inr m) =
    collect_ips-collects ip infos (add_ip new found) m

All-IsIn : (P : String → Type 0) (xs : List String) (x : String) → All P xs → IsIn x xs → P x
All-IsIn P [] x h m = elim m [ ]
All-IsIn P (y ∷ xs) x (h, rest) (inl e) = subst P (sym e) h
All-IsIn P (y ∷ xs) x (h, rest) (inr m) = All-IsIn P xs x rest m

some_inj : {a b : ParsedUrl} → some a ≡ some b → a ≡ b
some_inj h = cc

module _ (p : Platform) where
  -- An address to which a host resolves: the host itself, if it is a literal address, or else an
  -- address among the records of the resolver.
  abbrev pub IsAddressOf : String → String → Type 0
  IsAddressOf host ip =
      ((obj : IpAddress) × (p.ip_address host ≡ some obj) × (ip ≡ host))
      ⊎ ((infos : List (Option String)) × (p.ip_address host ≡ none)
          × (p.getaddrinfo host ≡ records infos)
          × IsIn (some ip) infos)

  resolve_ips_for_host_complete :
      (host ip : String) (found : List String)
      → resolve_ips_for_host p host ≡ ok (ips found)
      → IsAddressOf host ip
      → IsIn ip found
  unfolding resolve_ips_for_host
  resolve_ips_for_host_complete host ip found h (inl (obj, e, same)) =
      let listed : host ∷ [] ≡ found = ground arith in subst (λ l. IsIn ip l) listed (inl same)
  resolve_ips_for_host_complete host ip found h (inr (infos, e, answers, m)) =
      let collected : collect_ips infos [] ≡ found = ground arith in
      subst (λ l. IsIn ip l) collected (collect_ips-collects ip infos [] m)

  -- If the preflight passes without the override, no address to which the URL's host resolves is
  -- flagged private, loopback, link-local, multicast, reserved or unspecified: one such record among
  -- others is enough for a refusal.
  pub preflight_target-IsUnflagged :
      (url : String) (hosts : List String) (parsed : ParsedUrl) (ip : String)
      → preflight_target p url hosts false ≡ ok none
      → p.urlparse url ≡ some parsed
      → IsAddressOf (host_of p parsed) ip
      → IsUnflagged p ip
  preflight_target-IsUnflagged url hosts parsed ip passed parses m =
      let c = (preflight_target-pass_iff p url hosts false).0 passed in
      let same : c.parsed ≡ parsed = some_inj (sym c.parses ∙ parses) in
      let listed =
        resolve_ips_for_host_complete (host_of p c.parsed) ip c.found c.resolves
          (subst (λ u. IsAddressOf (host_of p u) ip) (sym same) m) in
      unflagged c.found c.screened listed
    where
      unflagged :
          (found : List String)
          → ((false ≡ true) ⊎ All (IsUnflagged p) found)
          → IsIn ip found
          → IsUnflagged p ip
      unflagged found (inl e) k = cc
      unflagged found (inr h) k = All-IsIn (IsUnflagged p) found ip h k
