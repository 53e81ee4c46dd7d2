-- ===== src/Device/Configured.antt =====
-- The configuration protocol keeps a device coherent.
use pq_boringtun.Base.{ℕ, ◌≡◌, ◌⊎◌, inl, inr, refl, List, [], ◌∷◌, Option, none, some}
use pq_boringtun.Base.Bytes.{Bytes}
use pq_boringtun.Errors.{Result, IfOk}
use pq_boringtun.Crypto.{Crypto}
use pq_boringtun.Keys
use pq_boringtun.Keys.{from_str}
use pq_boringtun.AllowedIps.{Networks, NetworksLaws}
use pq_boringtun.Device.{Device, Fresh}
use pq_boringtun.Device.Added.{bind-IfOk}
use pq_boringtun.Device.Reach.{AreCoherent, update_peer-IsCoherent}
use pq_boringtun.Device.Api.{
  Readers, Section, Step, finishes, dies, goes_on, next_peer, stops, step_of, new_section, or_zero,
  pop, commit, api_loop, api_set_peer,
}

Step-cases :
    (x : Step)
    → ((s : Section) × (x ≡ goes_on s))
      ⊎ ((val : Bytes) × (x ≡ next_peer val))
      ⊎ ((e : ℕ) × (x ≡ stops e))
      ⊎ (x ≡ finishes)
      ⊎ (x ≡ dies)
Step-cases (goes_on s) = inl (s, refl)
Step-cases (next_peer val) = inr (inl (val, refl))
Step-cases (stops e) = inr (inr (inl (e, refl)))
Step-cases finishes = inr (inr (inr (inl refl)))
Step-cases dies = inr (inr (inr (inr refl)))

Parsed-cases :
    (x : Keys.Parsed)
    → ((k : Bytes) × (x ≡ Keys.key k))
      ⊎ ((e : Keys.KeyError) × (x ≡ Keys.illegal e))
      ⊎ (x ≡ Keys.crashed)
Parsed-cases (Keys.key k) = inl (k, refl)
Parsed-cases (Keys.illegal e) = inr (inl (e, refl))
Parsed-cases Keys.crashed = inr (inr refl)

module _ (w : Networks) (laws : NetworksLaws w) (c : Crypto) (texts : Readers)
    (fresh : Device w → Fresh) where
  abbrev Ends : Result (Device w × ℕ) → Type 0
  Ends = IfOk (λ r. AreCoherent w r.0)

  commit-Coherent :
      (d : Device w) (s : Section)
      → AreCoherent w d
      → IfOk (AreCoherent w) (commit w c texts fresh d s)
  unfolding commit
  commit-Coherent d s (used, v) =
      update_peer-IsCoherent w laws c d used s.key_of s.is_removed s.endpoint_of s.ips_of
        (or_zero s.keepalive_of) s.psk_of (fresh d) v

  api_loop-Coherent :
      (lines : List (Option Bytes)) (d : Device w) (s : Section)
      → AreCoherent w d
      → Ends (api_loop w c texts fresh d s lines)
  unfolding api_loop
  api_loop-Coherent [] d s v =
      bind-IfOk (AreCoherent w) (λ r. AreCoherent w r.0) (commit w c texts fresh d s) _
        (commit-Coherent d s v) (λ d' v'. v')
  api_loop-Coherent (none ∷ lines) d s v = v
  api_loop-Coherent (some line ∷ lines) d s v = elim (Step-cases (step_of texts s (pop line))) [
    | inl (s', e) ↦ rw (api_loop, e) (api_loop-Coherent lines d s' v)
    | inr (inr (inl (n, e))) ↦ rw (api_loop, e) v
    | inr (inr (inr (inr e))) ↦ rw (api_loop, e) tt
    | inr (inr (inr (inl e))) ↦
        rw (api_loop, e)
          (bind-IfOk (AreCoherent w) (λ r. AreCoherent w r.0) (commit w c texts fresh d s) _
            (commit-Coherent d s v) (λ d' v'. v'))
    | inr (inl (val, e)) ↦
        rw (api_loop, e)
          (bind-IfOk (AreCoherent w) (λ r. AreCoherent w r.0) (commit w c texts fresh d s) _
            (commit-Coherent d s v)
            λ d' v'. elim (Parsed-cases (from_str texts.base64 val)) [
              | inl (k, p) ↦
                  rw p (api_loop-Coherent lines d' (record s { key_of = k; ips_of = [] }) v')
              | inr (inl (bad, p)) ↦ rw p v'
              | inr (inr p) ↦ rw p tt
            ])
  ]

  pub api_set_peer-Coherent :
      (d : Device w) (pub_key : Bytes) (lines : List (Option Bytes))
      → AreCoherent w d
      → Ends (api_set_peer w c texts fresh d pub_key lines)
  unfolding api_set_peer
  api_set_peer-Coherent d pub_key lines v = api_loop-Coherent lines d (new_section pub_key) v
