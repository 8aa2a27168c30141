-- ===== src/Runner/Sync/Slots.antt =====
-- Lookups in the pending packets after each change to them.
use rk_avp.Prelude.{
  ◌≡◌, refl, true, ◌&&◌, List, [], ◌∷◌, none, some, String, if◌then◌else◌, ℤ, eqb_ℤ_iff, ◌=?◌,
  string_keys, int_keys, arith, eq_iff, Bool-cases, inl, inr, All,
}
use rk_avp.Prelude.Maps.{find, assign, emplace, erase, contains, find-assign, find-erase}
use rk_avp.Packet.{Packet}
use rk_avp.Runner.Sync.{put, Pending, slot, pending_at, erase_everywhere}

module _ {D : Type 0} where
  pub find-put :
      (k j : ℤ) (p : Packet D) (m : List (ℤ × Packet D))
      → find j (put k p m) ≡ (if k =? j then some p else find j m)
  unfolding find put
  find-put k j p [] = refl
  find-put k j p ((i, q) ∷ m) =
      ground (arith, eqb_ℤ_iff k j, eqb_ℤ_iff i k, eqb_ℤ_iff i j, find-put k j p m)

  pub pending_at-assign :
      (name name' : String) (ts : ℤ) (m : List (ℤ × Packet D)) (pending : Pending D)
      → pending_at (assign name m pending) name' ts
        ≡ (if name =? name' then find ts m else pending_at pending name' ts)
  pending_at-assign name name' ts m pending = elim (Bool-cases (name =? name')) [
    | inl e ↦ rw (find-assign name name' m pending, e)
    | inr e ↦ rw (find-assign name name' m pending, e)
  ]

  -- A packet that arrives.
  pub pending_at-put :
      (name name' : String) (ts ts' : ℤ) (p : Packet D) (pending : Pending D)
      → pending_at (assign name (put ts p (slot name pending)) pending) name' ts'
        ≡ (if (name =? name') && (ts =? ts') then some p else pending_at pending name' ts')
  pending_at-put name name' ts ts' p pending = ground (
    arith,
    pending_at-assign name name' ts' (put ts p (slot name pending)) pending,
    find-put ts ts' p (slot name pending),
    eq_iff name name',
  )

  -- A packet that is taken.
  pub pending_at-erase :
      (name name' : String) (ts ts' : ℤ) (pending : Pending D)
      → pending_at (assign name (erase ts (slot name pending)) pending) name' ts'
        ≡ (if (name =? name') && (ts =? ts') then none else pending_at pending name' ts')
  pending_at-erase name name' ts ts' pending = ground (
    arith,
    pending_at-assign name name' ts' (erase ts (slot name pending)) pending,
    find-erase ts ts' (slot name pending),
    eq_iff name name',
  )

  pub pending_at-erase_everywhere :
      (name : String) (ts ts' : ℤ) (pending : Pending D)
      → pending_at (erase_everywhere ts pending) name ts'
        ≡ (if ts =? ts' then none else pending_at pending name ts')
  unfolding erase_everywhere find
  pending_at-erase_everywhere name ts ts' [] = ground arith
  pending_at-erase_everywhere name ts ts' ((j, m) ∷ pending) = elim (Bool-cases (j =? name)) [
    | inl e ↦ rw e (find-erase ts ts' m)
    | inr e ↦ rw e (pending_at-erase_everywhere name ts ts' pending)
  ]

pub All-assign {ℓ} :
    {V : Type ℓ} (P : V → Type 0) (k : String) (v : V) (m : List (String × V))
    → P v
    → All (λ x. P x.1) m
    → All (λ x. P x.1) (assign k v m)
unfolding assign
All-assign P k v [] h a = (h, tt)
All-assign P k v ((j, w) ∷ m) h a = elim (Bool-cases (j =? k)) [
  | inl e ↦ rw e (h, a.1)
  | inr e ↦ rw e (a.0, All-assign P k v m h a.1)
]

pub All-emplace {ℓ} :
    {V : Type ℓ} (P : V → Type 0) (k : String) (v : V) (m : List (String × V))
    → P v
    → All (λ x. P x.1) m
    → All (λ x. P x.1) (emplace k v m).0
unfolding emplace
All-emplace P k v m h a = elim (Bool-cases (contains k m)) [
  | inl e ↦ rw e a
  | inr e ↦ rw e (All-assign P k v m h a)
]

pub contains-emplace {ℓ} :
    {V : Type ℓ} (k j : String) (v : V) (m : List (String × V))
    → contains j (emplace k v m).0 ≡ (if k =? j then true else contains j m)
unfolding emplace contains
contains-emplace k j v m = ground (arith, find-assign k j v m, eq_iff k j)
