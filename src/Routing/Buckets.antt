-- ===== src/Routing/Buckets.antt =====
-- A bucket holds at most eight contacts with different ids, and an insertion loses none of them.
use tortor.Prelude.{
  ℕ, suc, ◌≤◌, ◌≡◌, refl, sym, ap, ◌∙◌, inl, inr, Bool, true, false, not, ◌&&◌, ◌||◌, List, [], ◌∷◌,
  ◌++◌, leb, Bool-cases, length, list_eq, list_eq_refl, list_eq→≡, length-append, arith,
}
use tortor.Routing.{NodeId, Contact, KBucket, is_full, has_id, remove_id, bucket_insert}

abbrev pub DistinctIds : List Contact → Type 0
DistinctIds [] = Unit
DistinctIds (c ∷ cs) = (has_id c.id cs ≡ false) × DistinctIds cs

pub record BucketOk (b : KBucket) : Type 0 where
  pub small : length b.nodes ≤ 8
  pub distinct : DistinctIds b.nodes

pub has_id-append :
    (x : NodeId) (cs ds : List Contact) → has_id x (cs ++ ds) ≡ (has_id x cs || has_id x ds)
has_id-append x [] ds = refl
has_id-append x (c ∷ cs) ds = ground (arith, has_id-append x cs ds)

list_eq-swap : (a b : List ℕ) → list_eq a b ≡ true → list_eq b a ≡ true
list_eq-swap a b h = let e = list_eq→≡ a b h in rw e (list_eq_refl b)

-- Ids that are equal to the same id are equal.
list_eq_join : (a b c : List ℕ) → list_eq a b ≡ true → list_eq a c ≡ list_eq b c
list_eq_join a b c h = let e = list_eq→≡ a b h in ap (λ z. list_eq z c) e

has_id_other : (a b : NodeId) (cs : List Contact) → list_eq a b ≡ true → has_id a cs ≡ has_id b cs
has_id_other a b cs h = ap (λ z. has_id z cs) (list_eq→≡ a b h)

has_id-remove_id :
    (x y : NodeId) (cs : List Contact)
    → DistinctIds cs
    → has_id x (remove_id y cs) ≡ (not (list_eq y x) && has_id x cs)
has_id-remove_id x y [] d = ground arith
has_id-remove_id x y (c ∷ cs) d = elim (Bool-cases (list_eq c.id y)) [
  | inl same ↦ elim (Bool-cases (list_eq y x)) [
    | inl gone ↦
        let joined : list_eq c.id x ≡ true = list_eq_join c.id y x same ∙ gone in
        rw (same, gone) (sym (has_id_other c.id x cs joined) ∙ d.0)
    | inr other ↦
        let joined : list_eq c.id x ≡ false = list_eq_join c.id y x same ∙ other in
        rw (same, other, joined)
  ]
  | inr different ↦
      let ih = has_id-remove_id x y cs d.1 in
      elim (Bool-cases (list_eq y x)) [
        | inl gone ↦
            let joined : list_eq c.id x ≡ false =
              sym (ap (list_eq c.id) (list_eq→≡ y x gone)) ∙ different in
            rw (different, gone, joined) (ground (arith, ih, gone))
        | inr other ↦ rw (different, other) (ground (arith, ih, other))
      ]
]

length-remove_id :
    (y : NodeId) (cs : List Contact)
    → has_id y cs ≡ true
    → suc (length (remove_id y cs)) ≡ length cs
length-remove_id y [] h = cc
length-remove_id y (c ∷ cs) h = ground (arith, length-remove_id y cs)

remove_id-DistinctIds :
    (y : NodeId) (cs : List Contact) → DistinctIds cs → DistinctIds (remove_id y cs)
remove_id-DistinctIds y [] d = tt
remove_id-DistinctIds y (c ∷ cs) d = elim (Bool-cases (list_eq c.id y)) [
  | inl same ↦ rw same d.1
  | inr other ↦
      rw other (ground (arith, has_id-remove_id c.id y cs d.1, d.0), remove_id-DistinctIds y cs d.1)
]

append-DistinctIds :
    (cs : List Contact) (c : Contact)
    → DistinctIds cs
    → has_id c.id cs ≡ false
    → DistinctIds (cs ++ (c ∷ []))
append-DistinctIds [] c d h = (refl, tt)
append-DistinctIds (e ∷ cs) c d h =
    let other : list_eq c.id e.id ≡ false = elim (Bool-cases (list_eq c.id e.id)) [
      | inl same ↦ cc (list_eq-swap c.id e.id same, h)
      | inr no_match ↦ no_match
    ] in
    (
      ground (arith, has_id-append e.id cs (c ∷ []), d.0, other),
      append-DistinctIds cs c d.1 (ground (arith, h)),
    )

-- An insertion keeps the bucket in order and its prefix, loses no id, and adds that of the contact
-- if it reports success.
pub record Inserted (b : KBucket) (c : Contact) (r : KBucket × Bool) : Type 0 where
  pub is_ok : BucketOk r.0
  pub prefix : r.0.prefix_len ≡ b.prefix_len
  pub ids : (x : NodeId) → has_id x r.0.nodes ≡ (has_id x b.nodes || r.1 && list_eq c.id x)
  -- it fails only if the bucket is full of other contacts
  pub full : r.1 ≡ false → (length b.nodes ≡ 8) × (has_id c.id b.nodes ≡ false)

pub bucket_insert-Inserted :
    (b : KBucket) (c : Contact) → BucketOk b → Inserted b c (bucket_insert b c)
unfolding bucket_insert is_full
bucket_insert-Inserted b c o = elim (Bool-cases (has_id c.id b.nodes)) [
  | inl known ↦
      let left = remove_id c.id b.nodes in
      rw known (record {
        is_ok = record {
          small =
              omega
                (arith, length-append left (c ∷ []), length-remove_id c.id b.nodes known, o.small);
          distinct =
              append-DistinctIds left c (remove_id-DistinctIds c.id b.nodes o.distinct)
                (ground (arith, has_id-remove_id c.id c.id b.nodes o.distinct, list_eq_refl c.id));
        };
        prefix = refl;
        ids = λ x.
            ground
              (arith, has_id-append x left (c ∷ []), has_id-remove_id x c.id b.nodes o.distinct);
        full = λ e. cc;
      })
  | inr unknown ↦ elim (Bool-cases (leb 8 (length b.nodes))) [
    | inl full ↦
        rw (unknown, full)
          (record {
            is_ok = o;
            prefix = refl;
            ids = λ x. ground arith;
            full = λ e. (ground (arith, o.small, full), unknown);
          })
    | inr room ↦
        rw (unknown, room)
          (record {
            is_ok = record {
              small = ground (arith, length-append b.nodes (c ∷ []), room);
              distinct = append-DistinctIds b.nodes c o.distinct unknown;
            };
            prefix = refl;
            ids = λ x. ground (arith, has_id-append x b.nodes (c ∷ []));
            full = λ e. cc;
          })
  ]
]
