-- ===== src/Execution/SandboxGuard/Egress.antt =====
-- Which URLs the guard lets through, and which exceptions it raises for the others.
use Prim.Native.String.{◌++◌ as concat}
use ai_revenue_recovery.Prelude.{
  ℕ, String, Bool, true, false, Option, none, some, List, [], ◌∷◌, ◌≡◌, ◌≢◌, ◌⊎◌, ◌↔◌, refl, arith,
  eq_iff, ◌==◌, not, All, lower, strip,
}
use ai_revenue_recovery.Prelude.Exec.{Result, IsOk}
use ai_revenue_recovery.Foundation.Errors.{Error}
use ai_revenue_recovery.Execution.SandboxGuard.{
  Net, ParsedUrl, Port, absent, malformed, port, SandboxGuard, has_space, ends_with, is_forbidden,
  normalized, port_or, allows_port, has_userinfo, is_web, check_all_loopback, resolve_host,
  check_resolved, is_allowed_name, check_address, check_port, check_host, check_parsed, refuse_if,
  check_egress_allowed,
}

-- The host is no forbidden domain and no subdomain of one.
abbrev pub IsPermitted : String → List String → Type 0
IsPermitted host = All (λ d. (host ≢ d) × (ends_with host (concat "." d) ≡ false))

is_forbidden_iff :
    (host : String) (ds : List String) → (is_forbidden host ds ≡ false) ↔ IsPermitted host ds
unfolding is_forbidden
is_forbidden_iff host [] = (λ h. tt, λ h. refl)
is_forbidden_iff host (d ∷ ds) = (
  λ h. (
    ((λ e. ground (arith, eq_iff host d)), ground arith),
    (is_forbidden_iff host ds).0 (ground arith),
  ),
  λ h. ground (arith, eq_iff host d, h.0.0, h.0.1, (is_forbidden_iff host ds).1 h.1),
)

refuse_if_iff : (b : Bool) (r : Result Error Bool) → IsOk (refuse_if b r) ↔ ((b ≡ false) × IsOk r)
refuse_if_iff true r = (λ h. absurd h, λ h. ground (arith, h.0))
refuse_if_iff false r = (λ h. (refl, h), λ h. h.1)

module _ (net : Net) where
  abbrev pub AllLoopback : List String → Type 0
  AllLoopback = All (λ ip. net.is_loopback ip ≡ some true)

  check_all_loopback_iff : (ips : List String) → IsOk (check_all_loopback net ips) ↔ AllLoopback ips
  unfolding check_all_loopback
  check_all_loopback_iff [] = (λ h. tt, λ h. tt)
  check_all_loopback_iff (ip ∷ ips) = (
    λ h. ground (arith, check_all_loopback_iff ips),
    λ h. ground (arith, check_all_loopback_iff ips),
  )

  -- All records of the host are loopback addresses, and there is one.
  abbrev pub ResolvesInside : Option (List String) → Type 0
  ResolvesInside none = ⊥
  ResolvesInside (some []) = ⊥
  ResolvesInside (some (ip ∷ ips)) = AllLoopback (ip ∷ ips)

  check_resolved_iff :
      (found : Option (List String)) → IsOk (check_resolved net found) ↔ ResolvesInside found
  check_resolved_iff none = (λ h. absurd h, λ h. absurd h)
  check_resolved_iff (some []) = (λ h. absurd h, λ h. absurd h)
  check_resolved_iff (some (ip ∷ ips)) = check_all_loopback_iff (ip ∷ ips)

  module _ (g : SandboxGuard) where
    -- A loopback address, or an allowed name whose records, where they are asked for, are inside.
    abbrev pub IsInside : String → ℕ → Option Bool → Type 0
    IsInside host n (some loopback) = loopback ≡ true
    IsInside host n none =
        (is_allowed_name net g host ≡ true)
        × (g.resolve_dns ≡ true → ResolvesInside (resolve_host net host n))

    check_address_iff :
        (host : String) (n : ℕ) (kind : Option Bool)
        → IsOk (check_address net g host n kind) ↔ IsInside host n kind
    check_address_iff host n (some loopback) = (λ h. ground arith, λ h. ground arith)
    check_address_iff host n none = (
      λ h. (ground arith, λ e. ground (arith, check_resolved_iff (resolve_host net host n))),
      λ h. ground (arith, h.0, h.1, check_resolved_iff (resolve_host net host n)),
    )

    abbrev pub HasPort : String → String → Port → Type 0
    HasPort scheme host malformed = ⊥
    HasPort scheme host p =
        (allows_port g p ≡ true) × IsInside host (port_or p scheme) (net.is_loopback host)

    check_port_iff :
        (scheme host : String) (p : Port)
        → IsOk (check_port net g scheme host p) ↔ HasPort scheme host p
    check_port_iff scheme host malformed = (λ h. absurd h, λ h. absurd h)
    check_port_iff scheme host absent = (
      λ h. (refl, (check_address_iff host _ (net.is_loopback host)).0 h),
      λ h. (check_address_iff host _ (net.is_loopback host)).1 h.1,
    )
    check_port_iff scheme host (port n) =
        let allowed =
          refuse_if_iff (not (allows_port g (port n)))
            (check_address net g host (port_or (port n) scheme) (net.is_loopback host)) in
        let inside = check_address_iff host (port_or (port n) scheme) (net.is_loopback host) in
        (
          λ h. (ground (arith, (allowed.0 h).0), inside.0 (allowed.0 h).1),
          λ h. allowed.1 (ground (arith, h.0), inside.1 h.1),
        )

    abbrev pub HasHost : String → Port → Option String → Type 0
    HasHost scheme p none = ⊥
    HasHost scheme p (some hostname) =
        (hostname ≢ "")
        × IsPermitted (normalized hostname) g.forbidden_domains
        × HasPort scheme (normalized hostname) p

    check_host_iff :
        (scheme : String) (p : Port) (hostname : Option String)
        → IsOk (check_host net g scheme p hostname) ↔ HasHost scheme p hostname
    check_host_iff scheme p none = (λ h. absurd h, λ h. absurd h)
    check_host_iff scheme p (some name) =
        let host = normalized name in
        let found =
          refuse_if_iff (is_forbidden host g.forbidden_domains) (check_port net g scheme host p) in
        let named =
          refuse_if_iff (name == "")
            (refuse_if (is_forbidden host g.forbidden_domains) (check_port net g scheme host p)) in
        (
          λ h. (
            (λ e. ground (arith, (named.0 h).0, eq_iff name "")),
            (is_forbidden_iff host g.forbidden_domains).0 (found.0 (named.0 h).1).0,
            (check_port_iff scheme host p).0 (found.0 (named.0 h).1).1,
          ),
          λ h. named.1 (
            ground (arith, h.0, eq_iff name ""),
            found.1 (
              (is_forbidden_iff host g.forbidden_domains).1 h.1,
              (check_port_iff scheme host p).1 h.2,
            ),
          ),
        )

    -- An HTTP or HTTPS URL without credentials whose host and port pass.
    abbrev pub IsWebUrl : Option ParsedUrl → Type 0
    IsWebUrl none = ⊥
    IsWebUrl (some u) =
        ((lower u.scheme ≡ "http") ⊎ (lower u.scheme ≡ "https"))
        × (has_userinfo net u ≡ false)
        × HasHost (lower u.scheme) u.port u.hostname

    check_parsed_iff : (found : Option ParsedUrl) → IsOk (check_parsed net g found) ↔ IsWebUrl found
    check_parsed_iff none = (λ h. absurd h, λ h. absurd h)
    check_parsed_iff (some u) =
        let rest = check_host net g (lower u.scheme) u.port u.hostname in
        let clean = refuse_if_iff (has_userinfo net u) rest in
        let web =
          refuse_if_iff (not (is_web net (lower u.scheme))) (refuse_if (has_userinfo net u) rest) in
        let host = check_host_iff (lower u.scheme) u.port u.hostname in
        let http = eq_iff (lower u.scheme) "http" in
        let https = eq_iff (lower u.scheme) "https" in
        (
          λ h. (
            ground (arith, (web.0 h).0, http, https),
            (clean.0 (web.0 h).1).0,
            host.0 (clean.0 (web.0 h).1).1,
          ),
          λ h. web.1 (ground (arith, h.0, http, https), clean.1 (h.1, host.1 h.2)),
        )

    -- A URL passes exactly if it is a text without blanks that urllib reads as an HTTP or HTTPS URL
    -- without credentials, its host is no forbidden domain and below none, its port is readable and
    -- allowed, and the host is a loopback address, or an allowed name that resolves to loopback
    -- addresses only, to one at least, unless resolving is switched off.
    pub check_egress_allowed-IsWebUrl :
        (url : String)
        → IsOk (check_egress_allowed net g url) ↔ (
            (strip url ≢ "")
            × (has_space (strip url) ≡ false)
            × IsWebUrl (net.urlparse (strip url)))
    unfolding check_egress_allowed
    check_egress_allowed-IsWebUrl url =
        let rest = check_parsed net g (net.urlparse (strip url)) in
        let tight = refuse_if_iff (has_space (strip url)) rest in
        let full = refuse_if_iff (strip url == "") (refuse_if (has_space (strip url)) rest) in
        let parsed = check_parsed_iff (net.urlparse (strip url)) in
        (
          λ h. (
            (λ e. ground (arith, (full.0 h).0, eq_iff (strip url) "")),
            (tight.0 (full.0 h).1).0,
            parsed.0 (tight.0 (full.0 h).1).1,
          ),
          λ h. full.1 (ground (arith, h.0, eq_iff (strip url) ""), tight.1 (h.1, parsed.1 h.2)),
        )
