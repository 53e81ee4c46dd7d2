-- ===== src/AllowedIps.antt =====
-- A table of networks, of boringtun/src/device/allowed_ips.rs. The trie is that of the crates
-- ip_network and ip_network_table, an interface: operations and what they document.
use pq_boringtun.Base.{
  ℕ, ◌%◌, ◌^◌, ◌≡◌, ◌⊎◌, Bool, true, not, List, [], ◌∷◌, map, Option, none, some,
}
use pq_boringtun.Errors.{Result, ok, panics}
use pq_boringtun.RateLimiter.{IpAddr}

abbrev pub In : {A : Type 0} → A → List A → Type 0
In x [] = ⊥
In x (y ∷ ys) = (x ≡ y) ⊎ In x ys

-- `IpNetwork` and `IpNetworkTable`.
pub record Networks : Type 1 where
  pub Network : Type 0
  pub new_truncate : IpAddr → ℕ → Option Network
  pub contains : Network → IpAddr → Bool
  pub network_address : Network → IpAddr
  pub netmask : Network → ℕ
  pub Table : Type 0 → Type 0
  pub empty : {A : Type 0} → Table A
  pub insert : {A : Type 0} → Table A → Network → A → Table A × Option A
  pub longest_match : {A : Type 0} → Table A → IpAddr → Option (Network × A)
  pub retain : {A : Type 0} → Table A → (Network → A → Bool) → Table A
  pub entries : {A : Type 0} → Table A → List (Network × A)

-- What the crates document.
pub record NetworksLaws (w : Networks) : Type 1 where
  pub no_entries : {A : Type 0} → w.entries (w.empty {A = A}) ≡ []
  pub insert_from :
      {A : Type 0} (t : w.Table A) (n : w.Network) (a : A) (e : w.Network × A)
      → In e (w.entries (w.insert t n a).0)
      → (e ≡ (n, a)) ⊎ In e (w.entries t)
  pub inserted :
      {A : Type 0} (t : w.Table A) (n : w.Network) (a : A)
      → In (n, a) (w.entries (w.insert t n a).0)
  pub retained :
      {A : Type 0} (t : w.Table A) (f : w.Network → A → Bool) (n : w.Network) (a : A)
      → In (n, a) (w.entries (w.retain t f))
      → In (n, a) (w.entries t) × (f n a ≡ true)
  pub matched :
      {A : Type 0} (t : w.Table A) (addr : IpAddr) (n : w.Network) (a : A)
      → w.longest_match t addr ≡ some (n, a)
      → In (n, a) (w.entries t) × (w.contains n addr ≡ true)

module _ (w : Networks) {A : Type 0} where
  -- `AllowedIps::new` and `AllowedIps::clear`
  abbrev pub no_ips : w.Table A
  no_ips = w.empty

  -- `AllowedIps::insert`
  unfoldable pub insert_ip : w.Table A → IpAddr → ℕ → A → Result (w.Table A × Option A)
  insert_ip t key cidr value = elim (w.new_truncate key (cidr % 2 ^ 8)) [
    | some network ↦ ok (w.insert t network value)
    | none ↦ panics
  ]

  -- `AllowedIps::find`
  unfoldable pub find_ip : w.Table A → IpAddr → Option A
  find_ip t key = elim (w.longest_match t key) [ some found ↦ some found.1 | none ↦ none ]

  -- `AllowedIps::remove`
  unfoldable pub remove_ips : w.Table A → (A → Bool) → w.Table A
  remove_ips t predicate = w.retain t (λ n a. not (predicate a))

  -- `AllowedIps::iter`
  unfoldable pub iter_ips : w.Table A → List (A × (IpAddr × ℕ))
  iter_ips t = map (λ e. (e.1, (w.network_address e.0, w.netmask e.0))) (w.entries t)
