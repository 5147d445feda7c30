-- ===== src/Routing/Contacts.antt =====
-- The contacts of all buckets when one bucket is replaced or split.
use tortor.Prelude.{
  ℕ, zero, suc, ◌≤◌, ◌<◌, ◌≡◌, refl, sym, ap, inl, inr, Bool, true, false, not, ◌||◌, List, [], ◌∷◌,
  ◌++◌, Bool-cases, length, get_or, set, filterb, All, arith,
}
use mathlib.Core.Path.{subst}
use tortor.Routing.{NodeId, Contact, KBucket, bucket_new, has_id, all_contacts}
use tortor.Routing.Buckets.{DistinctIds, BucketOk, has_id-append}

pub All-set :
    (bs : List KBucket) (i : ℕ) (b : KBucket)
    → All BucketOk bs
    → BucketOk b
    → All BucketOk (set bs i b)
All-set [] i b a o = tt
All-set (c ∷ bs) zero b a o = (o, a.1)
All-set (c ∷ bs) (suc i) b a o = (a.0, All-set bs i b a.1 o)

pub All-append :
    (bs cs : List KBucket) → All BucketOk bs → All BucketOk cs → All BucketOk (bs ++ cs)
All-append [] cs a a' = a'
All-append (b ∷ bs) cs a a' = (a.0, All-append bs cs a.1 a')

pub All-get_or :
    (bs : List KBucket) (i : ℕ) → All BucketOk bs → BucketOk (get_or bs i (bucket_new 0))
All-get_or [] i a = record { small = omega arith; distinct = tt }
All-get_or (b ∷ bs) zero a = a.0
All-get_or (b ∷ bs) (suc i) a = All-get_or bs i a.1

pub all_contacts-append :
    (x : NodeId) (bs cs : List KBucket)
    → has_id x (all_contacts (bs ++ cs))
      ≡ (has_id x (all_contacts bs) || has_id x (all_contacts cs))
all_contacts-append x [] cs = refl
all_contacts-append x (b ∷ bs) cs = ground (
  arith,
  has_id-append x b.nodes (all_contacts (bs ++ cs)),
  has_id-append x b.nodes (all_contacts bs),
  all_contacts-append x bs cs,
)

-- A bucket replaced by one that knows the same and `more`.
pub all_contacts-set_more :
    (x : NodeId) (bs : List KBucket) (i : ℕ) (b : KBucket) (more : Bool)
    → i < length bs
    → has_id x b.nodes ≡ (has_id x (get_or bs i (bucket_new 0)).nodes || more)
    → has_id x (all_contacts (set bs i b)) ≡ (has_id x (all_contacts bs) || more)
all_contacts-set_more x [] i b more lt e = absurd (omega arith)
all_contacts-set_more x (c ∷ bs) zero b more lt e =
    ground (
      arith,
      has_id-append x b.nodes (all_contacts bs),
      has_id-append x c.nodes (all_contacts bs),
      e,
    )
all_contacts-set_more x (c ∷ bs) (suc i) b more lt e = ground (
  arith,
  has_id-append x c.nodes (all_contacts (set bs i b)),
  has_id-append x c.nodes (all_contacts bs),
  all_contacts-set_more x bs i b more (omega arith) e,
)

-- A bucket replaced by a part of it, with the rest put elsewhere.
pub all_contacts-set_less :
    (x : NodeId) (bs : List KBucket) (i : ℕ) (b : KBucket) (rest : Bool)
    → i < length bs
    → (has_id x b.nodes || rest) ≡ has_id x (get_or bs i (bucket_new 0)).nodes
    → (has_id x (all_contacts (set bs i b)) || rest) ≡ has_id x (all_contacts bs)
all_contacts-set_less x [] i b rest lt e = absurd (omega arith)
all_contacts-set_less x (c ∷ bs) zero b rest lt e =
    ground (
      arith,
      has_id-append x b.nodes (all_contacts bs),
      has_id-append x c.nodes (all_contacts bs),
      e,
    )
all_contacts-set_less x (c ∷ bs) (suc i) b rest lt e = ground (
  arith,
  has_id-append x c.nodes (all_contacts (set bs i b)),
  has_id-append x c.nodes (all_contacts bs),
  all_contacts-set_less x bs i b rest (omega arith) e,
)

module _ (p : Contact → Bool) where
  pub has_id-filterb :
      (x : NodeId) (cs : List Contact) → has_id x (filterb p cs) ≡ true → has_id x cs ≡ true
  has_id-filterb x [] h = h
  has_id-filterb x (c ∷ cs) h = elim (Bool-cases (p c)) [
    | inl kept ↦ ground (arith, has_id-filterb x cs, h, kept)
    | inr dropped ↦ ground (arith, has_id-filterb x cs, h, dropped)
  ]

  filterb_dropped :
      (c : Contact) (cs : List Contact) → p c ≡ false → filterb p (c ∷ cs) ≡ filterb p cs
  filterb_dropped c cs h =
      ap (λ (b : Bool). elim b [ true ↦ c ∷ filterb p cs | false ↦ filterb p cs ]) h

  filterb-DistinctIds : (cs : List Contact) → DistinctIds cs → DistinctIds (filterb p cs)
  filterb-DistinctIds [] d = tt
  filterb-DistinctIds (c ∷ cs) d = elim (Bool-cases (p c)) [
    | inl kept ↦
        rw (kept, DistinctIds)
          (ground (arith, has_id-filterb c.id cs, d.0), filterb-DistinctIds cs d.1)
    | inr dropped ↦
        subst DistinctIds (sym (filterb_dropped c cs dropped)) (filterb-DistinctIds cs d.1)
  ]

  length-filterb_le : (cs : List Contact) → length (filterb p cs) ≤ length cs
  length-filterb_le [] = omega arith
  length-filterb_le (c ∷ cs) = ground (arith, length-filterb_le cs)

  pub has_id_halves :
      (x : NodeId) (cs : List Contact)
      → (has_id x (filterb (λ c. not (p c)) cs) || has_id x (filterb p cs)) ≡ has_id x cs
  has_id_halves x [] = refl
  has_id_halves x (c ∷ cs) = elim (Bool-cases (p c)) [
    | inl toward ↦ ground (arith, has_id_halves x cs, toward)
    | inr away ↦ ground (arith, has_id_halves x cs, away)
  ]

pub filterb-BucketOk :
    (p : Contact → Bool) (b : KBucket) (n : ℕ)
    → BucketOk b
    → BucketOk (record { nodes = filterb p b.nodes; prefix_len = n })
filterb-BucketOk p b n o = record {
  small = omega (arith, length-filterb_le p b.nodes, o.small);
  distinct = filterb-DistinctIds p b.nodes o.distinct;
}
