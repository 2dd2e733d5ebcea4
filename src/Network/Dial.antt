-- ===== src/Network/Dial.antt =====
-- dialContext of pkg/network/policy.go, over the addresses that a host resolves to.
use gash.Prelude.{
  Bool, not, ◌&&◌, List, [], ◌∷◌, Option, none, some, if◌then◌else◌, on_option, ◌⊎◌, inl, inr,
}
use gash.Network.Address.{Addr, is_public_ip}
use gash.Network.{Policy}

-- What dialContext returns an error for.
pub data DialError (E : Type 0) : Type 0 where
  dial_failed : E → DialError E
  private_address : Addr → DialError E
  no_addresses : DialError E

-- A connection, or what follows on an error.
abbrev pub on_connected {ℓ} :
    {S E C : Type 0} {R : Type ℓ} → (E ⊎ C) × S → (E → S → R) → (C → S → R) → R
on_connected (inl e, t) failed connected = failed e t
on_connected (inr c, t) failed connected = connected c t

module _ {S E C : Type 0} (connect : Addr → S → (E ⊎ C) × S) where
  -- The loop of dialContext over the addresses, with the last error.
  unfoldable pub dial_loop : Bool → List Addr → Option (DialError E) → S → (DialError E ⊎ C) × S
  dial_loop allow [] last s = on_option last (inl no_addresses, s) (λ e. (inl e, s))
  dial_loop allow (ip ∷ ips) last s =
      if not allow && not (is_public_ip ip)
      then dial_loop allow ips (some (private_address ip)) s
      else on_connected (connect ip s) (λ e. dial_loop allow ips (some (dial_failed e)))
          (λ conn t. (inr conn, t))

  -- p.dialContext, of the addresses that the resolver gives for the host
  unfoldable pub dial : Policy → List Addr → S → (DialError E ⊎ C) × S
  dial p ips s = dial_loop p.allow_private_ips ips none s
