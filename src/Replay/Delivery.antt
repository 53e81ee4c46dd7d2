-- ===== src/Replay/Delivery.antt =====
-- Whole runs of `receiving_counter_mark`: packets in the order in which the lock is taken.
use pq_boringtun.Base.{ℕ, ◌+◌, ◌^◌, ◌≤◌, ◌<◌, true, false, List, [], ◌∷◌}
use pq_boringtun.Base.{◌≡◌, refl, ap, ◌⊎◌, inl, inr, arith, length, if◌then◌else◌, All, Bool-cases}
use pq_boringtun.Errors.{ok, is_ok}
use pq_boringtun.Replay.{Validator, fresh, n_bits, add64, mark_did_receive, receiving_counter_mark}
use pq_boringtun.Replay.Spec
use pq_boringtun.Replay.Spec.{History, top, member, Distinct, member-lt-top}
use pq_boringtun.Replay.Refine.{Tracks, fresh-Tracks, mark_refines}

-- The validator after all of `cs`, and those of `cs` that were accepted.
unfoldable pub deliver : Validator → List ℕ → Validator × List ℕ
deliver v [] = (v, [])
deliver v (c ∷ cs) =
    let (v', ret) = receiving_counter_mark v c in
    let (v'', got) = deliver v' cs in (v'', if is_ok ret then c ∷ got else got)

-- Every counter is small enough that no addition of the window wraps.
abbrev pub AllFit : List ℕ → Type 0
AllFit cs = All (λ c. c + n_bits < 2 ^ 64) cs

-- Counting the packet does not touch the window.
pub receiving_counter_mark_refines :
    {v : Validator} {h : History} (t : Tracks v h) (c : ℕ)
    → c + n_bits < 2 ^ 64
    → ((receiving_counter_mark v c).1 ≡ (Spec.mark h c).1)
      × Tracks (receiving_counter_mark v c).0 (Spec.mark h c).0
unfolding receiving_counter_mark
receiving_counter_mark_refines {v} t c w =
    let (e, t') = mark_refines t c w in
    elim (Bool-cases (is_ok (mark_did_receive v c).1)) [
      | inl good ↦
          rw good
            (e, record { size = t'.size; next_is = t'.next_is; fits = t'.fits; seen = t'.seen })
      | inr bad ↦ rw bad (e, t')
    ]

-- A refused counter leaves the validator as it was.
pub mark_refused :
    (v : Validator) (c : ℕ)
    → is_ok (receiving_counter_mark v c).1 ≡ false
    → (receiving_counter_mark v c).0 ≡ v
unfolding receiving_counter_mark mark_did_receive
mark_refused v c h = ground arith

-- The two ways a packet can fare.
record Fresh (v : Validator) (h : History) (c : ℕ) : Type 0 where
  good : is_ok (receiving_counter_mark v c).1 ≡ true
  new : member c h ≡ false
  tracks : Tracks (receiving_counter_mark v c).0 (c ∷ h)

record Refused (v : Validator) (h : History) (c : ℕ) : Type 0 where
  bad : is_ok (receiving_counter_mark v c).1 ≡ false
  tracks : Tracks (receiving_counter_mark v c).0 h

mark-cases :
    {v : Validator} {h : History}
    → Tracks v h
    → (c : ℕ) → c + n_bits < 2 ^ 64
    → Fresh v h c ⊎ Refused v h c
mark-cases {v} {h} t c w =
    let (e, t') = receiving_counter_mark_refines t c w in
    elim (Spec.mark-cases h c) [
      | inl refused ↦ inr (record { bad = rw (e, refused); tracks = rw refused at t' })
      | inr (accepted, new) ↦
          inl (record { good = rw (e, accepted); new = new; tracks = rw accepted at t' })
    ]

-- What has been accepted is neither accepted again nor accepted twice.
deliver-Distinct :
    (cs : List ℕ) {v : Validator} {h : History}
    → Tracks v h
    → AllFit cs
    → Distinct (deliver v cs).1 × ((c : ℕ) → member c h ≡ true → member c (deliver v cs).1 ≡ false)
unfolding deliver
deliver-Distinct [] t w = (tt, λ c m. refl)
deliver-Distinct (x ∷ cs) {v} {h} t w = elim (mark-cases t x w.0) [
  | inl f ↦
      let (apart, older) = deliver-Distinct cs f.tracks w.1 in
      rw (f.good) ((older x (ground arith), apart), λ c m. ground (arith, older c, f.new, m))
  | inr r ↦ rw (r.bad) (deliver-Distinct cs r.tracks w.1)
]

-- No counter is accepted twice: whatever packets arrive at a fresh validator, in whatever order
-- and however often, with counters below 2^64 - 1024.
pub deliver_no_replay : (cs : List ℕ) → AllFit cs → Distinct (deliver fresh cs).1
deliver_no_replay cs w = (deliver-Distinct cs fresh-Tracks w).0

receive_cnt-mark :
    (v : Validator) (c : ℕ)
    → (receiving_counter_mark v c).0.receive_cnt
      ≡ (if is_ok (receiving_counter_mark v c).1 then add64 v.receive_cnt 1 else v.receive_cnt)
unfolding receiving_counter_mark mark_did_receive
receive_cnt-mark v c = ground arith

-- `receive_cnt` counts the packets that were accepted, as a `u64`.
pub receive_cnt-deliver :
    (cs : List ℕ) (v : Validator)
    → v.receive_cnt < 2 ^ 64
    → (deliver v cs).0.receive_cnt ≡ add64 v.receive_cnt (length (deliver v cs).1)
unfolding deliver
receive_cnt-deliver [] v p = omega arith
receive_cnt-deliver (c ∷ cs) v p =
    let ih = receive_cnt-deliver cs (receiving_counter_mark v c).0 in
    elim (Bool-cases (is_ok (receiving_counter_mark v c).1)) [
      | inl good ↦ ground (arith, receive_cnt-mark v c, ih)
      | inr bad ↦ ground (arith, receive_cnt-mark v c, ih)
    ]

-- Counters that are all new to the history and within reach of each other.
module _ (lo hi : ℕ) (near : hi ≤ lo + n_bits) (small : hi + n_bits ≤ 2 ^ 64) where
  abbrev Within : List ℕ → Type 0
  Within cs = All (λ c. (lo ≤ c) × (c < hi)) cs

  abbrev New : History → List ℕ → Type 0
  New h cs = All (λ c. member c h ≡ false) cs

  New-cons : (x : ℕ) (h : History) (cs : List ℕ) → member x cs ≡ false → New h cs → New (x ∷ h) cs
  New-cons x h [] e n = tt
  New-cons x h (c ∷ cs) e n = (ground (arith, n.0), New-cons x h cs (ground arith) n.1)

  deliver_all :
      (cs : List ℕ) {v : Validator} {h : History}
      → Tracks v h
      → top h ≤ hi
      → Within cs
      → Distinct cs
      → New h cs
      → (deliver v cs).1 ≡ cs
  unfolding deliver
  deliver_all [] t p w d n = refl
  deliver_all (c ∷ cs) {v} {h} t p w d n =
      let (e, t') = receiving_counter_mark_refines t c (omega arith) in
      let good : Spec.mark h c ≡ (c ∷ h, ok tt) = Spec.mark_new h c (omega arith) n.0 in
      let t'' = rw good at t' in
      rw (e, good)
        (ap (λ r. c ∷ r) (deliver_all cs t'' (omega arith) w.1 d.1 (New-cons c h cs d.0 n.1)))

-- Reordering within 1024 counters loses nothing: distinct counters from a range of at most 1024,
-- the range's end at most 2^64 - 1024, are all accepted by a fresh validator, in any order.
pub deliver_reordered :
    (lo hi : ℕ) (cs : List ℕ)
    → hi ≤ lo + n_bits
    → hi + n_bits ≤ 2 ^ 64
    → All (λ c. (lo ≤ c) × (c < hi)) cs
    → Distinct cs
    → (deliver fresh cs).1 ≡ cs
deliver_reordered lo hi cs near small w d =
    deliver_all lo hi near small cs fresh-Tracks (omega arith) w d (all_new cs)
  where
    all_new : (xs : List ℕ) → All (λ c. member c [] ≡ false) xs
    all_new [] = tt
    all_new (x ∷ xs) = (refl, all_new xs)

-- What is marked was new, and joins the history.
pub marked_new :
    {v : Validator} {h : History} (t : Tracks v h) (c : ℕ)
    → c + n_bits < 2 ^ 64
    → is_ok (receiving_counter_mark v c).1 ≡ true
    → (member c h ≡ false) × Tracks (receiving_counter_mark v c).0 (c ∷ h)
marked_new t c w good = elim (mark-cases t c w) [ inl f ↦ (f.new, f.tracks) | inr r ↦ cc (r.bad) ]
