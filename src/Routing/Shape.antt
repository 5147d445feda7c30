-- ===== src/Routing/Shape.antt =====
-- The prefixes of the buckets, and the bucket that an id is sent to.
use tortor.Prelude.{
  ℕ, zero, suc, ◌+◌, ◌-◌, ◌<◌, ◌≡◌, ◌∙◌, inl, inr, List, [], ◌∷◌, ◌++◌, if◌then◌else◌, leb,
  Bool-cases, length, get_or, set, arith,
}
use tortor.Routing.{
  NodeId, KBucket, RoutingTable, bucket_new, xor, leading_zeros, index_loop, bucket_index,
}

-- The buckets from the one at `i` on: each has a prefix one longer than its position, but the last
-- one, which has its position.
abbrev pub Prefixes : ℕ → List KBucket → Type 0
Prefixes i [] = ⊥
Prefixes i (b ∷ []) = b.prefix_len ≡ i
Prefixes i (b ∷ (c ∷ bs)) = (b.prefix_len ≡ i + 1) × Prefixes (i + 1) (c ∷ bs)

pub Prefixes-length : (i : ℕ) (bs : List KBucket) → Prefixes i bs → 0 < length bs
Prefixes-length i [] h = absurd h
Prefixes-length i (b ∷ bs) h = omega arith

pub Prefixes-last :
    (i j : ℕ) (bs : List KBucket)
    → Prefixes i bs
    → length bs ≡ suc j
    → (get_or bs j (bucket_new 0)).prefix_len ≡ i + j
Prefixes-last i j [] h e = absurd h
Prefixes-last i zero (b ∷ []) h e = h ∙ omega arith
Prefixes-last i (suc j) (b ∷ []) h e = absurd (omega arith)
Prefixes-last i zero (b ∷ (c ∷ bs)) h e = absurd (omega arith)
Prefixes-last i (suc j) (b ∷ (c ∷ bs)) h e =
    Prefixes-last (i + 1) j (c ∷ bs) h.1 (omega arith) ∙ omega arith

pub Prefixes-set :
    (i j : ℕ) (bs : List KBucket) (b : KBucket)
    → Prefixes i bs
    → b.prefix_len ≡ (get_or bs j (bucket_new 0)).prefix_len
    → Prefixes i (set bs j b)
Prefixes-set i j [] b h e = absurd h
Prefixes-set i zero (c ∷ []) b h e = e ∙ h
Prefixes-set i (suc j) (c ∷ []) b h e = h
Prefixes-set i zero (c ∷ (d ∷ bs)) b h e = (e ∙ h.0, h.1)
Prefixes-set i (suc zero) (c ∷ (d ∷ bs)) b h e = (h.0, Prefixes-set (i + 1) 0 (d ∷ bs) b h.1 e)
Prefixes-set i (suc (suc j)) (c ∷ (d ∷ bs)) b h e =
    (h.0, Prefixes-set (i + 1) (suc j) (d ∷ bs) b h.1 e)

-- A split of the last bucket.
pub Prefixes-split :
    (i j : ℕ) (bs : List KBucket) (b c : KBucket)
    → Prefixes i bs
    → length bs ≡ suc j
    → b.prefix_len ≡ i + suc j
    → c.prefix_len ≡ i + suc j
    → Prefixes i (set bs j b ++ (c ∷ []))
Prefixes-split i j [] b c h e hb hc = absurd h
Prefixes-split i zero (d ∷ []) b c h e hb hc = (hb, hc)
Prefixes-split i (suc j) (d ∷ []) b c h e hb hc = absurd (omega arith)
Prefixes-split i zero (d ∷ (f ∷ bs)) b c h e hb hc = absurd (omega arith)
Prefixes-split i (suc zero) (d ∷ (f ∷ bs)) b c h e hb hc = (
  h.0,
  Prefixes-split (i + 1) 0 (f ∷ bs) b c h.1 (omega arith) (hb ∙ omega arith) (hc ∙ omega arith),
)
Prefixes-split i (suc (suc j)) (d ∷ (f ∷ bs)) b c h e hb hc = (
  h.0,
  Prefixes-split (i + 1) (suc j) (f ∷ bs) b c h.1 (omega arith) (hb ∙ omega arith)
      (hc ∙ omega arith),
)

index_loop_lem :
    (common i target : ℕ) (bs : List KBucket)
    → Prefixes i bs
    → index_loop common i target bs ≡ (
        if leb (i + (length bs - 1)) common
        then i + (length bs - 1)
        else if leb (i + 1) common
        then common - 1
        else target)
unfolding index_loop
index_loop_lem common i target [] h = absurd h
index_loop_lem common i target (b ∷ []) h = elim (Bool-cases (leb i common)) [
  | inl yes_ ↦ rw (h, yes_) (ground arith)
  | inr no_ ↦ rw (h, no_) (ground arith)
]
index_loop_lem common i target (b ∷ (c ∷ bs)) h = elim (Bool-cases (leb (i + 1) common)) [
  | inl far ↦ rw (h.0, far) (ground (arith, index_loop_lem common (i + 1) i (c ∷ bs) h.1))
  | inr near ↦ rw (h.0, near) (ground (arith, index_loop_lem common (i + 1) target (c ∷ bs) h.1))
]

-- With buckets split along the local id, an id that shares as many leading bits with it as there
-- are splits goes to the last bucket; one that shares fewer, `n`, goes to the bucket `n - 1`, or to
-- the first one for `n = 0`.
pub bucket_index_lem :
    (t : RoutingTable) (id : NodeId)
    → Prefixes 0 t.buckets
    → let common = leading_zeros (xor t.local_id id) in
      let last = length t.buckets - 1 in
      bucket_index t id ≡ (if leb last common then last else common - 1)
unfolding bucket_index
bucket_index_lem t id shape =
    ground (arith, index_loop_lem (leading_zeros (xor t.local_id id)) 0 0 t.buckets shape)

pub bucket_index_lt :
    (t : RoutingTable) (id : NodeId) → Prefixes 0 t.buckets → bucket_index t id < length t.buckets
bucket_index_lt t id shape =
    ground (arith, bucket_index_lem t id shape, Prefixes-length 0 t.buckets shape)
