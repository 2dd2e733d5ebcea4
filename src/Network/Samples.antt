-- ===== src/Network/Samples.antt =====
-- Requests and addresses against a policy.
use gash.Prelude.{
  ℕ, ◌*◌, ◌+◌, true, false, ◌||◌, List, [], ◌∷◌, none, some, codes, beq, ◌==◌, all, ◌⊎◌, inl, inr,
  ◌≡◌, refl, arith,
}
use gash.Network.Address.{Addr, v4, v6, is_public_ip}
use gash.Network.{Url, Request, new_policy, allow_origin, check, path_allowed}
use gash.Network.Dial.{dial}
use gash.Network.Laws.{allow_origin-check, dial-keeps, is_public_ip-mapped}
use gash.Network.Paths.{path_allowed-elements, starts_with, elements}

abbrev admin : Url
admin = record {
  scheme = codes "http";
  has_user = false;
  hostname = codes "internal";
  port = [];
  escaped_path = codes "/admin";
}

abbrev get_admin : Request
get_admin = record { url = some admin; method = codes "GET"; headers = [] }

allow_origin-check_example : check (new_policy (allow_origin none false ∷ [])) get_admin ≡ none
unfolding beq
allow_origin-check_example =
    allow_origin-check none false [] get_admin admin refl refl refl refl refl

is_public_ip-mapped_example :
    is_public_ip (v6 0 0 0 0 0 0xffff (0 * 256 + 0) (0 * 256 + 1) [])
    ≡ (0 == 0 || is_public_ip (v4 0 0 0 1))
is_public_ip-mapped_example =
    is_public_ip-mapped 0 0 0 1 (omega arith) (omega arith) (omega arith) (omega arith)

-- Connections are logged, and the second one succeeds.
abbrev connect : Addr → List Addr → (ℕ ⊎ ℕ) × List Addr
connect ip [] = (inl 111, ip ∷ [])
connect ip (a ∷ log) = (inr 3, ip ∷ a ∷ log)

abbrev AllPublic : List Addr → Type 0
AllPublic log = all is_public_ip log ≡ true

connect-AllPublic :
    (ip : Addr) (log : List Addr)
    → (false || is_public_ip ip) ≡ true
    → AllPublic log
    → AllPublic (connect ip log).1
connect-AllPublic ip [] h k = ground (arith, h)
connect-AllPublic ip (a ∷ log) h k = ground (arith, h, k)

abbrev resolved : List Addr
resolved = v4 10 0 0 1 ∷ v4 1 1 1 1 ∷ v4 127 0 0 1 ∷ v4 8 8 8 8 ∷ []

dial-keeps_example : AllPublic (dial connect (new_policy []) resolved []).1
dial-keeps_example = dial-keeps connect AllPublic (new_policy []) connect-AllPublic resolved [] refl

path_allowed-elements_example :
    path_allowed (codes "/api/../apix") (codes "api/")
    ≡ starts_with (elements (codes "/api/../apix")) (elements (codes "api/"))
path_allowed-elements_example = path_allowed-elements (codes "/api/../apix") (codes "api/")
