-- ===== src/Execution/SandboxGuard.antt =====
-- src/revenue_recovery/executor/sandbox_guard.py. The parts of a URL, the class of an address and
-- the records of a host are what urllib, ipaddress and the resolver say: the parameters of Net. A
-- URL is a text; case is ignored on ASCII letters.
pub mod Egress
pub mod Confinement
use Prim.Native.Nat.{◌≤◌}
use Prim.Native.Char.{Char, code}
use Prim.Native.String.{◌++◌ as concat, [] as ε, ◌∷◌ as ◌◂◌}
use ai_revenue_recovery.Prelude.{
  ℕ, String, Bool, true, false, Option, none, some, List, [], ◌∷◌, ◌++◌, ◌==◌, eqb, leb, not, ◌&&◌,
  ◌||◌, if◌then◌else◌, is_some, lower, strip, is_space, map,
}
use ai_revenue_recovery.Prelude.Exec.{Result, ok, err}
use ai_revenue_recovery.Foundation.Errors.{Error, value_error, sandbox_violation}
use ai_revenue_recovery.Foundation.Config.{forbidden_production_domains}

-- `parsed.port`: none, a number, or a ValueError for a port that is no number up to 65535.
pub data Port : Type 0 where
  absent malformed : Port
  port : ℕ → Port

-- What the properties of a `ParseResult` say.
pub record ParsedUrl : Type 0 where
  pub scheme : String
  pub netloc : String
  pub username : Option String
  pub password : Option String
  pub hostname : Option String
  pub port : Port

pub record Net : Type 0 where
  -- `urlparse`, which may raise.
  pub urlparse : String → Option ParsedUrl
  -- `ipaddress.ip_address`, which may raise: whether the address is a loopback one.
  pub is_loopback : String → Option Bool
  -- The resolver, which may raise.
  pub resolve : String → ℕ → Option (List String)

pub record SandboxGuard : Type 0 where
  pub allowed_hosts : List String
  pub forbidden_domains : List String
  pub allow_custom_ports : Bool
  pub resolve_dns : Bool

unfoldable pub lower_all : List String → List String
lower_all [] = []
lower_all (s ∷ ss) = lower s ∷ lower_all ss

-- `__init__`; a custom list that is None is the empty one.
unfoldable pub new : List String → List String → Bool → Bool → SandboxGuard
unfolding lower_all
new custom_allowed_hosts custom_forbidden_domains allow_custom_ports resolve_dns = record {
  allowed_hosts = "localhost" ∷ "127.0.0.1" ∷ "::1" ∷ lower_all custom_allowed_hosts;
  forbidden_domains = lower_all forbidden_production_domains ++ lower_all custom_forbidden_domains;
  allow_custom_ports = allow_custom_ports;
  resolve_dns = resolve_dns;
}

-- `s in ss`
unfoldable pub is_in : String → List String → Bool
is_in s [] = false
is_in s (t ∷ ts) = t == s || is_in s ts

-- `ALLOWED_SANDBOX_PORTS`
abbrev pub is_allowed_port : ℕ → Bool
is_allowed_port n =
    eqb n 80
    || eqb n 443
    || eqb n 8000
    || eqb n 8001
    || eqb n 8002
    || eqb n 8003
    || eqb n 8080
    || eqb n 8443
    || eqb n 3000
    || eqb n 5000

unfoldable pub has_space : String → Bool
has_space ε = false
has_space (c ◂ s) = is_space c || has_space s

-- `"@" in netloc.split(":")[0]`
unfoldable pub has_at : String → Bool
has_at ε = false
has_at (c ◂ s) = let rest = has_at s in if eqb (code c) 58 then false else eqb (code c) 64 || rest

-- `s.rstrip(".")`
unfoldable pub right_strip_dots : String → String
right_strip_dots ε = ε
right_strip_dots (c ◂ s) = elim (right_strip_dots s) [
  | ε ↦ if eqb (code c) 46 then ε else c ◂ ε
  | d ◂ t ↦ c ◂ d ◂ t
]

-- `s.endswith(t)`
unfoldable pub ends_with : String → String → Bool
ends_with ε t = ε == t
ends_with (c ◂ s) t = (c ◂ s) == t || ends_with s t

-- `[a-zA-Z0-9\-]`
abbrev pub is_label_char : Char → Bool
is_label_char c =
    let n = code c in
    eqb n 45 || (leb 48 n && leb n 57) || (leb 65 n && leb n 90) || (leb 97 n && leb n 122)

unfoldable pub is_label_text : String → Bool
is_label_text ε = true
is_label_text (c ◂ s) = is_label_char c && is_label_text s

-- `[a-zA-Z0-9\-]+`
abbrev pub is_label : String → Bool
is_label s = not (s == ε) && is_label_text s

-- What follows a prefix.
unfoldable pub after_prefix : String → String → Option String
after_prefix ε s = some s
after_prefix (p ◂ ps) ε = none
after_prefix (p ◂ ps) (c ◂ s) =
    let rest = after_prefix ps s in if eqb (code p) (code c) then rest else none

abbrev pub is_label_after : Option String → Bool
is_label_after none = false
is_label_after (some s) = is_label s

-- The rest of `^[a-zA-Z0-9\-]+\.sandbox$` after some characters of the label.
unfoldable pub is_dotted : String → Bool
is_dotted ε = false
is_dotted (c ◂ s) =
    let rest = is_dotted s in if (c ◂ s) == ".sandbox" then true else is_label_char c && rest

abbrev pub starts_label : String → Bool
starts_label ε = false
starts_label (c ◂ s) = is_label_char c && is_dotted s

-- `ALLOWED_SANDBOX_HOST_PATTERNS`, on a host in small letters.
unfoldable pub matches_pattern : String → Bool
matches_pattern host =
    host == "localhost"
    || host == "127.0.0.1"
    || host == "::1"
    || is_label_after (after_prefix "sandbox-" host)
    || starts_label host

-- `hostname.strip().lower().rstrip(".")`
unfoldable pub normalized : String → String
unfolding right_strip_dots
normalized hostname = right_strip_dots (lower (strip hostname))

-- The loop over the forbidden domains.
unfoldable pub is_forbidden : String → List String → Bool
unfolding ends_with
is_forbidden host [] = false
is_forbidden host (d ∷ ds) = host == d || ends_with host (concat "." d) || is_forbidden host ds

-- A string that is there and not empty is true.
abbrev pub is_set : Option String → Bool
is_set none = false
is_set (some s) = not (s == "")

-- `parsed.port or (443 if scheme == "https" else 80)`
abbrev pub port_or : Port → String → ℕ
port_or (port n) scheme = if eqb n 0 then if scheme == "https" then 443 else 80 else n
port_or _ scheme = if scheme == "https" then 443 else 80

abbrev pub allows_port : SandboxGuard → Port → Bool
allows_port g (port n) = g.allow_custom_ports || is_allowed_port n
allows_port g _ = true

abbrev violation : Result Error Bool
violation = err sandbox_violation

-- `if test: raise SandboxViolationError`
abbrev pub refuse_if : Bool → Result Error Bool → Result Error Bool
refuse_if test rest = if test then violation else rest

module _ (net : Net) where
  -- The loop over the addresses of a host.
  unfoldable pub check_all_loopback : List String → Result Error Bool
  check_all_loopback [] = ok true
  check_all_loopback (ip ∷ ips) =
      let rest = check_all_loopback ips in
      elim (net.is_loopback ip) [ none ↦ violation | some loopback ↦ refuse_if (not loopback) rest ]

  -- `_resolve_host`; whatever the resolver raises becomes a SandboxViolationError.
  unfoldable pub resolve_host : String → ℕ → Option (List String)
  resolve_host host n =
      if host == "localhost" || host == "127.0.0.1"
      then some ("127.0.0.1" ∷ [])
      else if host == "::1"
      then some ("::1" ∷ [])
      else net.resolve host n

  abbrev pub check_resolved : Option (List String) → Result Error Bool
  check_resolved none = violation
  check_resolved (some []) = violation
  check_resolved (some (ip ∷ ips)) = check_all_loopback (ip ∷ ips)

  abbrev pub is_allowed_name : SandboxGuard → String → Bool
  is_allowed_name g host = is_in host g.allowed_hosts || matches_pattern host

  -- Steps 7 to 9.
  abbrev pub check_address : SandboxGuard → String → ℕ → Option Bool → Result Error Bool
  check_address g host n (some loopback) = refuse_if (not loopback) (ok true)
  check_address g host n none =
      refuse_if (not (is_allowed_name g host))
        (if g.resolve_dns then check_resolved (resolve_host host n) else ok true)

  -- Step 6; the property `parsed.port` raises a ValueError of its own.
  abbrev pub check_port : SandboxGuard → String → String → Port → Result Error Bool
  check_port g scheme host malformed = err value_error
  check_port g scheme host p =
      refuse_if (not (allows_port g p))
        (check_address g host (port_or p scheme) (net.is_loopback host))

  abbrev pub check_host : SandboxGuard → String → Port → Option String → Result Error Bool
  check_host g scheme p none = violation
  check_host g scheme p (some hostname) = refuse_if (hostname == "") (
      refuse_if (is_forbidden (normalized hostname) g.forbidden_domains)
        (check_port g scheme (normalized hostname) p))

  abbrev pub is_web : String → Bool
  is_web scheme = scheme == "http" || scheme == "https"

  abbrev pub has_userinfo : ParsedUrl → Bool
  has_userinfo u = is_set u.username || is_set u.password || has_at u.netloc

  -- Steps 2 to 9.
  abbrev pub check_parsed : SandboxGuard → Option ParsedUrl → Result Error Bool
  check_parsed g none = violation
  check_parsed g (some u) =
      refuse_if (not (is_web (lower u.scheme)))
        (refuse_if (has_userinfo u) (check_host g (lower u.scheme) u.port u.hostname))

  unfoldable pub check_egress_allowed : SandboxGuard → String → Result Error Bool
  unfolding has_space resolve_host check_all_loopback
  check_egress_allowed g url =
      refuse_if (strip url == "")
        (refuse_if (has_space (strip url)) (check_parsed g (net.urlparse (strip url))))

  abbrev pub false_if_violated : Result Error Bool → Result Error Bool
  false_if_violated (err sandbox_violation) = ok false
  false_if_violated r = r

  unfoldable pub is_url_allowed : SandboxGuard → String → Result Error Bool
  unfolding check_egress_allowed
  is_url_allowed g url = false_if_violated (check_egress_allowed g url)

  -- `validate_egress_url`, with the default guard.
  unfoldable pub validate_egress_url : String → Result Error Bool
  unfolding check_egress_allowed new
  validate_egress_url url = check_egress_allowed (new [] [] true true) url
