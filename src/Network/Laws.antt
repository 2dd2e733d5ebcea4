-- ===== src/Network/Laws.antt =====
-- What a Policy of pkg/network/policy.go lets through, and which addresses it dials.
use Prim.Native.Nat.{bit_and}
use gash.Prelude.{
  ℕ, zero, suc, ◌+◌, ◌-◌, ◌*◌, ◌/◌, ◌%◌, ◌≤◌, ◌<◌, Bool, true, false, not, ◌&&◌, ◌||◌, List, [],
  ◌∷◌, Option, none, some, codes, beq, ◌==◌, is_empty, if_cases, on_option, ◌⊎◌, inl, inr, ◌≡◌,
  refl, subst, arith,
}
use gash.Network.Address.{Addr, v4, v6, unmap, is_public_ip}
use gash.Network.{
  Url, Request, Rule, Policy, new_policy, empty_rule, normalized, allow_origin, rule_matches,
  rule_allows, check,
}
use gash.Network.Dial.{DialError, dial_loop, dial, on_connected, dial_failed, private_address}

origin-empty :
    (parsed : Option Url) (host_empty : Bool)
    → on_option parsed true (λ _. host_empty) ≡ true
    → allow_origin parsed host_empty ≡ empty_rule
unfolding allow_origin
origin-empty none host_empty h = refl
origin-empty (some u) host_empty h = rw h refl

-- A policy whose first rule is the one that AllowOrigin returns for a text that is no URL, or that
-- has no host, allows every request over http or https without credentials, to any host and path.
pub allow_origin-check :
    (parsed : Option Url) (host_empty : Bool) (rules : List Rule) (req : Request) (u : Url)
    → on_option parsed true (λ _. host_empty) ≡ true
    → req.url ≡ some u
    → (beq u.scheme (codes "http") || beq u.scheme (codes "https")) ≡ true
    → u.has_user ≡ false
    → is_empty u.hostname ≡ false
    → check (new_policy (allow_origin parsed host_empty ∷ rules)) req ≡ none
unfolding check normalized rule_allows rule_matches
allow_origin-check parsed host_empty rules req u bad e s user host =
    rw (origin-empty parsed host_empty bad) (rw (e, user, host) (ground (arith, s)))

divided : (a b : ℕ) → b < 256 → (a * 256 + b) / 256 ≡ a
divided a b h = omega arith

remainder : (a b : ℕ) → b < 256 → (a * 256 + b) % 256 ≡ b
remainder a b h = omega arith

-- The tests of 172.16.0.0/12 agree.
bit_and-range : (k : ℕ) → k < 16 → bit_and (16 + k) 0xf0 ≡ 16
bit_and-range zero h = refl
bit_and-range (suc zero) h = refl
bit_and-range (suc (suc zero)) h = refl
bit_and-range (suc (suc (suc zero))) h = refl
bit_and-range (suc (suc (suc (suc zero)))) h = refl
bit_and-range (suc (suc (suc (suc (suc zero))))) h = refl
bit_and-range (suc (suc (suc (suc (suc (suc zero)))))) h = refl
bit_and-range (suc (suc (suc (suc (suc (suc (suc zero))))))) h = refl
bit_and-range (suc (suc (suc (suc (suc (suc (suc (suc zero)))))))) h = refl
bit_and-range (suc (suc (suc (suc (suc (suc (suc (suc (suc zero))))))))) h = refl
bit_and-range (suc (suc (suc (suc (suc (suc (suc (suc (suc (suc zero)))))))))) h = refl
bit_and-range (suc (suc (suc (suc (suc (suc (suc (suc (suc (suc (suc zero))))))))))) h = refl
bit_and-range (suc (suc (suc (suc (suc (suc (suc (suc (suc (suc (suc (suc zero)))))))))))) h = refl
bit_and-range (suc (suc (suc (suc (suc (suc (suc (suc (suc (suc (suc (suc (suc zero))))))))))))) h =
    refl
bit_and-range
      (suc (suc (suc (suc (suc (suc (suc (suc (suc (suc (suc (suc (suc (suc zero)))))))))))))) h =
    refl
bit_and-range
      (suc (suc (suc (suc (suc (suc (suc (suc (suc (suc (suc (suc (suc (suc (suc zero)))))))))))))))
      h =
    refl
bit_and-range
      (suc
        (suc (suc (suc (suc (suc (suc (suc (suc (suc (suc (suc (suc (suc (suc (suc k))))))))))))))))
      h =
    omega arith

private_range : (b : ℕ) → 16 ≤ b → b ≤ 31 → bit_and b 0xf0 ≡ 16
private_range b lo hi =
    subst (λ n. bit_and n 0xf0 ≡ 16) (the_rest b lo) (bit_and-range (b - 16) (omega arith))
  where
    the_rest : (b : ℕ) → 16 ≤ b → 16 + (b - 16) ≡ b
    the_rest b lo = omega arith

connected-keeps :
    {S E C D : Type 0} (P : S → Type 0) (r : (E ⊎ C) × S) (failed : E → S → (D ⊎ C) × S)
    → P r.1
    → ((e : E) (t : S) → P t → P (failed e t).1)
    → P (on_connected r failed (λ conn t. (inr conn, t))).1
connected-keeps P (inl e, t) failed h k = k e t h
connected-keeps P (inr c, t) failed h k = h

module _ {S E C : Type 0} (connect : Addr → S → (E ⊎ C) × S) where
  dial_loop-keeps :
      (P : S → Type 0) (allow : Bool)
      → ((ip : Addr) (s : S) → (allow || is_public_ip ip) ≡ true → P s → P (connect ip s).1)
      → (ips : List Addr) (last : Option (DialError E)) (s : S) → P s
      → P (dial_loop connect allow ips last s).1
  unfolding dial_loop
  dial_loop-keeps P allow keeps [] none s h = h
  dial_loop-keeps P allow keeps [] (some e) s h = h
  dial_loop-keeps P allow keeps (ip ∷ ips) last s h =
      if_cases (λ (r : (DialError E ⊎ C) × S). P r.1) (not allow && not (is_public_ip ip))
        (dial_loop connect allow ips (some (private_address ip)) s) _
        (λ _. dial_loop-keeps P allow keeps ips (some (private_address ip)) s h)
        (λ allowed.
          connected-keeps P (connect ip s) (λ e. dial_loop connect allow ips (some (dial_failed e)))
            (keeps ip s (ground (arith, allowed)) h)
            (λ e t k. dial_loop-keeps P allow keeps ips (some (dial_failed e)) t k))

  -- Whatever addresses a host resolves to: what holds before a dial and is kept by a connection to
  -- an address that is public, or to any where the policy allows private ones, holds behind it.
  pub dial-keeps :
      (P : S → Type 0) (p : Policy)
      → ((ip : Addr) (s : S)
          → (p.allow_private_ips || is_public_ip ip) ≡ true
          → P s
          → P (connect ip s).1)
      → (ips : List Addr) (s : S) → P s
      → P (dial connect p ips s).1
  unfolding dial
  dial-keeps P p keeps ips s h = dial_loop-keeps P p.allow_private_ips keeps ips none s h

-- An IPv4 address written as an IPv6 one, ::ffff:a.b.c.d, counts as public where the IPv4 address
-- does or where its first byte is 0, and nowhere else.
pub is_public_ip-mapped :
    (a b c d : ℕ)
    → a < 256
    → b < 256
    → c < 256
    → d < 256
    → is_public_ip (v6 0 0 0 0 0 0xffff (a * 256 + b) (c * 256 + d) [])
      ≡ (a == 0 || is_public_ip (v4 a b c d))
unfolding is_public_ip unmap beq
is_public_ip-mapped zero b c d ha hb hc hd = rw (divided zero b hb) refl
is_public_ip-mapped (suc a) b c d ha hb hc hd =
    rw (divided (suc a) b hb, remainder (suc a) b hb, divided c d hd)
      (ground (arith, private_range b))
