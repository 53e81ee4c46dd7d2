-- ===== src/Tests/Networks.antt =====
-- A table of networks that meets the documented behaviour: a list, with whole octets as prefixes.
use mathlib.Core.Path.{subst}
use pq_boringtun.Base.{
  ◌/◌, ◌≡◌, ◌⊎◌, inl, inr, refl, sym, ap, ◌∙◌, arith, Bool, true, false, not, ◌==◌, ltb, ◌&&◌,
  if◌then◌else◌, List, [], ◌∷◌, length, take, Option, none, some, Bool-cases,
}
use pq_boringtun.Base.Bytes.{Bytes, bytes_eq}
use pq_boringtun.RateLimiter.{IpAddr, v4, v6}
use pq_boringtun.AllowedIps.{Networks, NetworksLaws, In}

abbrev octets : IpAddr → Bytes
octets (v4 x) = x
octets (v6 x) = x

abbrev begins : Bytes → Bytes → Bool
begins [] ys = true
begins (x ∷ xs) [] = false
begins (x ∷ xs) (y ∷ ys) = x == y && begins xs ys

-- The longer of two matches.
abbrev longer {ℓ} : {A : Type ℓ} → Bytes × A → Option (Bytes × A) → Option (Bytes × A)
longer e none = some e
longer e (some f) = if ltb (length e.0) (length f.0) then some f else some e

unfoldable pub longest {ℓ} : {A : Type ℓ} → List (Bytes × A) → IpAddr → Option (Bytes × A)
longest [] addr = none
longest (e ∷ es) addr =
    if begins e.0 (octets addr) then longer e (longest es addr) else longest es addr

unfoldable pub keep {ℓ} : {A : Type ℓ} → (Bytes → A → Bool) → List (Bytes × A) → List (Bytes × A)
keep f [] = []
keep f (e ∷ es) = if f e.0 e.1 then e ∷ keep f es else keep f es

unfoldable pub exact {ℓ} : {A : Type ℓ} → List (Bytes × A) → Bytes → Option A
exact [] n = none
exact (e ∷ es) n = if bytes_eq e.0 n then some e.1 else exact es n

keep-In :
    {A : Type 0} (f : Bytes → A → Bool) (es : List (Bytes × A)) (n : Bytes) (a : A)
    → In (n, a) (keep f es)
    → In (n, a) es × (f n a ≡ true)
unfolding keep
keep-In f [] n a h = elim h [ ]
keep-In f (e ∷ es) n a h = elim (Bool-cases (f e.0 e.1)) [
  | inl kept ↦ elim (subst (λ xs. In (n, a) xs) (keep_true f e es kept) h) [
    | inl here ↦ (inl here, ap (λ x. f x.0 x.1) here ∙ kept)
    | inr there ↦ let (before, ok_f) = keep-In f es n a there in (inr before, ok_f)
  ]
  | inr gone ↦
      let (before, ok_f) =
        keep-In f es n a (subst (λ xs. In (n, a) xs) (keep_false f e es gone) h) in
      (inr before, ok_f)
]
  where
    keep_true :
        {A : Type 0} (f : Bytes → A → Bool) (e : Bytes × A) (es : List (Bytes × A))
        → f e.0 e.1 ≡ true
        → keep f (e ∷ es) ≡ e ∷ keep f es
    keep_true f e es k = rw (keep, k) refl

    keep_false :
        {A : Type 0} (f : Bytes → A → Bool) (e : Bytes × A) (es : List (Bytes × A))
        → f e.0 e.1 ≡ false
        → keep f (e ∷ es) ≡ keep f es
    keep_false f e es k = rw (keep, k) refl

longer_cases :
    {A : Type 0} (e : Bytes × A) (r : Option (Bytes × A)) (x : Bytes × A)
    → longer e r ≡ some x
    → (e ≡ x) ⊎ (r ≡ some x)
longer_cases e none x h = inl cc
longer_cases e (some f) x h = elim (Bool-cases (ltb (length e.0) (length f.0))) [
  | inl more ↦ inr (ground arith)
  | inr less ↦ inl (ground arith)
]

longest_here :
    {A : Type 0} (x : Bytes × A) (es : List (Bytes × A)) (addr : IpAddr)
    → begins x.0 (octets addr) ≡ true
    → longest (x ∷ es) addr ≡ longer x (longest es addr)
unfolding longest
longest_here x es addr e = rw (longest, e) refl

longest_there :
    {A : Type 0} (x : Bytes × A) (es : List (Bytes × A)) (addr : IpAddr)
    → begins x.0 (octets addr) ≡ false
    → longest (x ∷ es) addr ≡ longest es addr
unfolding longest
longest_there x es addr e = rw (longest, e) refl

longest-In :
    {A : Type 0} (es : List (Bytes × A)) (addr : IpAddr) (n : Bytes) (a : A)
    → longest es addr ≡ some (n, a)
    → In (n, a) es × (begins n (octets addr) ≡ true)
unfolding longest
longest-In [] addr n a e = absurd cc
longest-In (x ∷ es) addr n a e = elim (Bool-cases (begins x.0 (octets addr))) [
  | inl here ↦
      elim (longer_cases x (longest es addr) (n, a) (sym (longest_here x es addr here) ∙ e)) [
        | inl same ↦ (inl (sym same), ap (λ q. begins q.0 (octets addr)) (sym same) ∙ here)
        | inr later ↦ let (there, matches) = longest-In es addr n a later in (inr there, matches)
      ]
  | inr other ↦
      let (there, matches) = longest-In es addr n a (sym (longest_there x es addr other) ∙ e) in
      (inr there, matches)
]

abbrev pub simple_networks : Networks
simple_networks = record {
  Network = Bytes;
  new_truncate = λ addr cidr. some (take (cidr / 8) (octets addr));
  contains = λ n addr. begins n (octets addr);
  network_address = v4;
  netmask = λ n. length n;
  Table = λ A. List (Bytes × A);
  empty = [];
  insert = λ t n a. ((n, a) ∷ keep (λ m b. not (bytes_eq m n)) t, exact t n);
  longest_match = longest;
  retain = λ t f. keep f t;
  entries = λ t. t;
}

pub simple_networks_laws : NetworksLaws simple_networks
simple_networks_laws = record {
  no_entries = refl;
  insert_from = λ t n a e h. elim h [
    | inl here ↦ inl here
    | inr there ↦ inr (keep-In (λ m b. not (bytes_eq m n)) t e.0 e.1 there).0
  ];
  inserted = λ t n a. inl refl;
  retained = λ t f n a h. keep-In f t n a h;
  matched = λ t addr n a e. longest-In t addr n a e;
}
