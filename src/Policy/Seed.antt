-- ===== src/Policy/Seed.antt =====
-- common/src/delegate_policy.rs: the entropy of a signing key.
use adjourn.Prelude.{
  ℕ, ◌/◌, ◌%◌, ◌≡◌, ◌⊎◌, ◌↔◌, inl, refl, ◌||◌, [], ◌∷◌, ◌++◌, Option, none, some, if◌then◌else◌,
  arith,
}
use adjourn.Prelude.Lists.{length}
use adjourn.Prelude.Order.{nat_ord, list_ord, ◌==◌, eq_of_==, ==_self}
use adjourn.Types.{Bytes, bytes}
use adjourn.Types.Crypto.{Crypto}
use adjourn.Policy.{EntropyQuality, Refusal, zeros}

abbrev pub domain_keygen : Bytes
domain_keygen = bytes "adjourn-v1/keygen"

pub data HostEntropy : Type 0 where
  live : Bytes → HostEntropy
  dead : HostEntropy

unfoldable pub classify_host_entropy : Bytes → Bytes → HostEntropy
classify_host_entropy first second =
    if (first == zeros 32) || (first == second) then HostEntropy.dead else HostEntropy.live first

-- `(label.len() as u32).to_le_bytes()`
unfoldable pub le_bytes : ℕ → Bytes
le_bytes n = (n % 256) ∷ (n / 256 % 256) ∷ (n / 65536 % 256) ∷ (n / 16777216 % 256) ∷ []

pub data SeedResult : Type 0 where
  ok : Bytes → EntropyQuality → SeedResult
  err : Refusal → SeedResult

-- `caller.filter(|c| c != &[0u8; 32])`
abbrev pub contributed : Option Bytes → Option Bytes
contributed none = none
contributed (some caller) = if caller == zeros 32 then none else some caller

abbrev pub or_zeros : Option Bytes → Bytes
or_zeros none = zeros 32
or_zeros (some caller) = caller

module _ ⦃c : Crypto⦄ where
  -- the bytes of the hash: tag, host draw, caller draw, length and bytes of the label
  unfoldable pub seed_of : Bytes → Option Bytes → Bytes → Bytes
  seed_of host_bytes caller label =
      c.sha256
        (domain_keygen ++ (host_bytes ++ (or_zeros caller ++ (le_bytes (length label) ++ label))))

  abbrev pub derive_from : HostEntropy → Option Bytes → Bytes → SeedResult
  derive_from (HostEntropy.live h) caller label =
      SeedResult.ok (seed_of h caller label) EntropyQuality.host_backed
  derive_from HostEntropy.dead none label = SeedResult.err Refusal.no_entropy
  derive_from HostEntropy.dead (some caller) label =
      SeedResult.ok (seed_of (zeros 32) (some caller) label) EntropyQuality.degraded

  unfoldable pub derive_seed : HostEntropy → Option Bytes → Bytes → SeedResult
  derive_seed host caller label = derive_from host (contributed caller) label

  -- A seed is refused exactly when the host source is dead (its first draw is zeros or the second
  -- repeats it) and the caller sends nothing or zeros.
  pub derive_seed-refused_iff :
      (first second : Bytes) (caller : Option Bytes) (label : Bytes)
      → (derive_seed (classify_host_entropy first second) caller label
          ≡ SeedResult.err Refusal.no_entropy)
        ↔ (((first ≡ zeros 32) ⊎ (first ≡ second)) × ((caller ≡ none) ⊎ (caller ≡ some (zeros 32))))
  unfolding derive_seed classify_host_entropy
  derive_seed-refused_iff first second none label = (
    λ e. (ground (arith, eq_of_== first (zeros 32), eq_of_== first second), inl refl),
    λ (silent_host, _). ground (arith, ==_self (zeros 32), ==_self first),
  )
  derive_seed-refused_iff first second (some caller) label = (
    λ e. (
      ground (arith, eq_of_== first (zeros 32), eq_of_== first second),
      ground (arith, eq_of_== caller (zeros 32)),
    ),
    λ (silent_host, silent). ground (arith, ==_self (zeros 32), ==_self first),
  )
