-- ===== src/Network.antt =====
-- pkg/network/policy.go: what a Policy lets a request do. Hosts, schemes, methods and header names
-- are ASCII; the fields of `Url` are what net/url reports of a URL.
pub mod Address
pub mod Dial
pub mod Paths
pub mod Laws
mod Samples
use gash.Prelude.{
  ℕ, ◌+◌, ◌-◌, ◌*◌, ◌^◌, Bool, true, false, not, ◌&&◌, ◌||◌, List, [], ◌∷◌, ◌++◌, map, Option, none,
  some, Bytes, codes, beq, any, all, length, is_empty, leb, has_prefix, trim_prefix, has_suffix,
  if◌then◌else◌, on_option, ◌⊎◌, inl, inr,
}
use gash.Prelude.Int.{ℤ, pos, negsuc, is_zero}
use gash.Path.Lexical.{slash, root, clean}
use gash.Network.Address.{Addr, is_public_ip}

pub record Url : Type 0 where
  pub scheme : Bytes
  pub has_user : Bool
  pub hostname : Bytes
  pub port : Bytes
  pub escaped_path : Bytes

pub record Request : Type 0 where
  pub url : Option Url
  pub method : Bytes
  pub headers : List Bytes

pub record Rule : Type 0 where
  pub scheme : Bytes
  pub host : Bytes
  pub port : Bytes
  pub path : Bytes
  pub methods : List Bytes
  pub headers : List Bytes

-- Durations are in nanoseconds.
pub record Policy : Type 0 where
  pub rules : List Rule
  pub timeout : ℤ
  pub max_response_bytes : ℤ
  pub max_request_bytes : ℤ
  pub max_redirects : ℤ
  pub allow_private_ips : Bool

pub data Denied : Type 0 where
  invalid_request scheme_denied credentials_denied missing_host rule_denied too_many_redirects :
      Denied

-- strings.ToLower, strings.EqualFold
abbrev lower_letter : ℕ → ℕ
lower_letter c = if leb 65 c && leb c 90 then c + 32 else c

abbrev upper_letter : ℕ → ℕ
upper_letter c = if leb 97 c && leb c 122 then c - 32 else c

abbrev pub to_lower : Bytes → Bytes
to_lower s = map lower_letter s

unfoldable pub equal_fold : Bytes → Bytes → Bool
equal_fold s t = beq (to_lower s) (to_lower t)

-- The characters of a token of RFC 7230, of which a header's name consists.
abbrev is_token : ℕ → Bool
is_token c =
    (leb 48 c && leb c 57)
    || (leb 65 c && leb c 90)
    || (leb 94 c && leb c 122)
    || any (λ d. beq (d ∷ []) (c ∷ [])) (codes "!#$%&'*+-.|~")

abbrev canonical_from : Bool → Bytes → Bytes
canonical_from upper [] = []
canonical_from upper (c ∷ s) =
    (if upper then upper_letter c else lower_letter c) ∷ canonical_from (beq (c ∷ []) (codes "-")) s

-- http.CanonicalHeaderKey(s)
unfoldable pub canonical_header_key : Bytes → Bytes
canonical_header_key s = if all is_token s then canonical_from true s else s

-- The defaults that NewPolicy sets and Normalized fills in.
abbrev pub default_bytes : ℤ
default_bytes = pos (10 * 2 ^ 20)

abbrev pub default_timeout : ℤ
default_timeout = pos (30 * 10 ^ 9)

abbrev pub default_redirects : ℤ
default_redirects = pos 10

-- NewPolicy(rules...)
abbrev pub new_policy : List Rule → Policy
new_policy rules = record {
  rules = rules;
  timeout = default_timeout;
  max_response_bytes = default_bytes;
  max_request_bytes = default_bytes;
  max_redirects = default_redirects;
  allow_private_ips = false;
}

abbrev or_default : ℤ → ℤ → ℤ
or_default n d = if is_zero n then d else n

-- p.Normalized()
unfoldable pub normalized : Policy → Policy
normalized p = record p {
  timeout = or_default p.timeout default_timeout;
  max_response_bytes = or_default p.max_response_bytes default_bytes;
  max_request_bytes = or_default p.max_request_bytes default_bytes;
  max_redirects = or_default p.max_redirects default_redirects;
}

-- canonicalPort(u)
unfoldable pub canonical_port : Url → Bytes
canonical_port u =
    if not (is_empty u.port)
    then u.port
    else if beq u.scheme (codes "https")
    then codes "443"
    else if beq u.scheme (codes "http")
    then codes "80"
    else []

-- path.Clean("/" + strings.TrimPrefix(s, "/"))
unfoldable pub rooted_clean : Bytes → Bytes
rooted_clean s = clean (slash ∷ trim_prefix s root)

-- Rule{}
abbrev pub empty_rule : Rule
empty_rule = record { scheme = []; host = []; port = []; path = []; methods = []; headers = [] }

-- AllowOrigin(raw), of what url.Parse makes of the text and whether the URL's host is empty
unfoldable pub allow_origin : Option Url → Bool → Rule
allow_origin none host_empty = empty_rule
allow_origin (some u) host_empty = if host_empty then empty_rule else record empty_rule {
  scheme = to_lower u.scheme;
  host = to_lower u.hostname;
  port = canonical_port u;
  path = rooted_clean u.escaped_path;
}

-- hostMatches(host, rule)
unfoldable pub host_matches : Bytes → Bytes → Bool
host_matches host rule =
    let suffix = trim_prefix rule (codes "*") in
    if beq rule (codes "*") || beq host rule
    then true
    else if has_prefix rule (codes "*.")
    then has_suffix host suffix && not (beq host (trim_prefix suffix (codes ".")))
    else false

-- pathAllowed(escaped, allowed)
unfoldable pub path_allowed : Bytes → Bytes → Bool
path_allowed escaped allowed =
    let clean_req = rooted_clean (if is_empty escaped then root else escaped) in
    let clean_allowed =
      rooted_clean (if has_prefix allowed root then allowed else slash ∷ allowed) in
    if beq clean_allowed root
    then true
    else beq clean_req clean_allowed || has_prefix clean_req (clean_allowed ++ root)

-- containsFold(list, v)
unfoldable pub contains_fold : List Bytes → Bytes → Bool
contains_fold list v = any (λ item. equal_fold item v) list

-- headersAllowed(headers, allowed)
unfoldable pub headers_allowed : List Bytes → List Bytes → Bool
headers_allowed headers allowed =
    all (λ h. any (λ a. beq (canonical_header_key a) (canonical_header_key h)) allowed) headers

-- One round of ruleAllows.
unfoldable pub rule_matches : Request → Url → Rule → Bool
rule_matches req u rule =
    (is_empty rule.scheme || equal_fold rule.scheme u.scheme)
    && (is_empty rule.host || host_matches (to_lower u.hostname) (to_lower rule.host))
    && (is_empty rule.port || beq rule.port (canonical_port u))
    && (is_empty rule.path || path_allowed u.escaped_path rule.path)
    && (is_empty rule.methods || contains_fold rule.methods req.method)
    && (is_empty rule.headers || headers_allowed req.headers rule.headers)

-- p.ruleAllows(req)
unfoldable pub rule_allows : Policy → Request → Url → Bool
rule_allows p req u = any (rule_matches req u) p.rules

-- p.Check(req)
unfoldable pub check : Policy → Request → Option Denied
check policy req =
    let p = normalized policy in
    on_option req.url (some invalid_request) λ u.
      if not (beq u.scheme (codes "http")) && not (beq u.scheme (codes "https"))
      then some scheme_denied
      else if u.has_user
      then some credentials_denied
      else if is_empty u.hostname
      then some missing_host
      else if not (rule_allows p req u)
      then some rule_denied
      else none

-- len(via) >= p.MaxRedirects
abbrev reaches : ℕ → ℤ → Bool
reaches n (pos m) = leb m n
reaches n (negsuc m) = true

-- p.redirectChecker()(req, via)
unfoldable pub check_redirect : Policy → Request → List Request → Option Denied
check_redirect policy req via =
    let p = normalized policy in
    if reaches (length via) p.max_redirects then some too_many_redirects else check p req
