-- ===== src/Routing/Table.antt =====
-- An insertion into the table: it ends, keeps the table in order, and loses no contact.
use tortor.Prelude.{
  ℕ, zero, suc, ◌+◌, ◌≤◌, ◌<◌, ◌≡◌, refl, ap, ◌∙◌, inl, inr, Bool, true, false, not, ◌&&◌, ◌||◌,
  Option, some, [], ◌∷◌, ltb, Bool-cases, length, length-set, length-append, set, filterb, list_eq,
  All, arith,
}
use tortor.Routing.{
  NodeId, Contact, KBucket, RoutingTable, has_id, bucket_insert, bucket_index, bucket_at,
  bucket_covers_local, shares_bit, split_bucket, after_insert, insert_loop, insert, all_contacts,
  new,
}
use tortor.Routing.Buckets.{BucketOk, has_id-append, Inserted, bucket_insert-Inserted}
use tortor.Routing.Contacts.{
  All-set, All-append, All-get_or, all_contacts-append, all_contacts-set_more,
  all_contacts-set_less, filterb-BucketOk, has_id_halves,
}
use tortor.Routing.Shape.{
  Prefixes, Prefixes-length, Prefixes-last, Prefixes-set, Prefixes-split, bucket_index_lt,
}

pub record IsValid (t : RoutingTable) : Type 0 where
  pub prefixes : Prefixes 0 t.buckets
  pub depth : length t.buckets ≤ 161
  pub each : All BucketOk t.buckets
  pub foreign : has_id t.local_id (all_contacts t.buckets) ≡ false

-- What a table knows.
abbrev pub knows : RoutingTable → NodeId → Bool
knows t x = has_id x (all_contacts t.buckets)

module _ (t : RoutingTable) (i : ℕ) where
  abbrev old_bucket : KBucket
  old_bucket = bucket_at t i

  abbrev shares : Contact → Bool
  shares = shares_bit t.local_id old_bucket.prefix_len

  abbrev away : KBucket
  away = record {
    nodes = filterb (λ c. not (shares c)) old_bucket.nodes;
    prefix_len = old_bucket.prefix_len + 1;
  }

  abbrev toward : KBucket
  toward = record {
    nodes = filterb shares old_bucket.nodes;
    prefix_len = old_bucket.prefix_len + 1;
  }

  split-knows : (x : NodeId) → i < length t.buckets → knows (split_bucket t i) x ≡ knows t x
  unfolding split_bucket
  split-knows x lt = ground (
    arith,
    all_contacts-append x (set t.buckets i away) (toward ∷ []),
    has_id-append x toward.nodes [],
    all_contacts-set_less x t.buckets i away (has_id x toward.nodes) lt
        (has_id_halves shares x old_bucket.nodes),
  )

  split-length : length (split_bucket t i).buckets ≡ suc (length t.buckets)
  unfolding split_bucket
  split-length =
      omega (arith, length-append (set t.buckets i away) (toward ∷ []), length-set t.buckets i away)

  split-IsValid : IsValid t → length t.buckets ≡ suc i → i < 160 → IsValid (split_bucket t i)
  unfolding split_bucket
  split-IsValid v e lt =
      let depth : old_bucket.prefix_len + 1 ≡ 0 + suc i =
        omega (arith, Prefixes-last 0 i t.buckets v.prefixes e) in
      let ok_b : BucketOk old_bucket = All-get_or t.buckets i v.each in
      record {
        prefixes = Prefixes-split 0 i t.buckets away toward v.prefixes e depth depth;
        depth = omega (arith, split-length);
        each =
            All-append (set t.buckets i away) (toward ∷ [])
              (All-set t.buckets i away v.each
                (filterb-BucketOk (λ c. not (shares c)) old_bucket _ ok_b))
              (filterb-BucketOk shares old_bucket _ ok_b, tt);
        foreign = split-knows t.local_id (omega arith) ∙ v.foreign;
      }

-- What an insertion does to a table.
pub record Grown (t : RoutingTable) (c : Contact) (t' : RoutingTable) : Type 0 where
  pub is_valid : IsValid t'
  pub added : Bool
  pub ids : (x : NodeId) → knows t' x ≡ (knows t x || added && list_eq c.id x)

stored-Grown :
    (t : RoutingTable) (c : Contact) (i : ℕ) (r : KBucket × Bool)
    → IsValid t
    → i < length t.buckets
    → list_eq c.id t.local_id ≡ false
    → Inserted (bucket_at t i) c r
    → Grown t c (record t { buckets = set t.buckets i r.0 })
stored-Grown t c i r v lt foreign ins =
    let ids : (x : NodeId)
        → has_id x (all_contacts (set t.buckets i r.0)) ≡ (knows t x || r.1 && list_eq c.id x) =
      λ x. all_contacts-set_more x t.buckets i r.0 (r.1 && list_eq c.id x) lt (ins.ids x) in
    record {
      is_valid = record {
        prefixes = Prefixes-set 0 i t.buckets r.0 v.prefixes ins.prefix;
        depth = omega (arith, length-set t.buckets i r.0, v.depth);
        each = All-set t.buckets i r.0 v.each ins.is_ok;
        foreign = ground (arith, ids t.local_id, v.foreign, foreign);
      };
      added = r.1;
      ids = ids;
    }

covers_last :
    (t : RoutingTable) (i : ℕ) (small : Bool)
    → (bucket_covers_local t i && small) ≡ true
    → 0 < length t.buckets
    → length t.buckets ≡ suc i
unfolding bucket_covers_local
covers_last t i small h pos = ground (arith, h)

same_local :
    (t : RoutingTable) (i : ℕ) (id : NodeId)
    → list_eq id (split_bucket t i).local_id ≡ list_eq id t.local_id
unfolding split_bucket
same_local t i id = refl

loop_step :
    (f : ℕ) (c : Contact) (t : RoutingTable) (r : KBucket × Bool)
    → bucket_insert (bucket_at t (bucket_index t c.id)) c ≡ r
    → insert_loop (suc f) c t ≡ after_insert t (bucket_index t c.id) r (insert_loop f c)
unfolding insert_loop
loop_step f c t r e = ap (λ r. after_insert t (bucket_index t c.id) r (insert_loop f c)) e

on_full :
    (t : RoutingTable) (i : ℕ) (b : KBucket) (again : RoutingTable → Option RoutingTable)
    (go : Bool)
    → (bucket_covers_local t i && ltb (bucket_at t i).prefix_len 160) ≡ go
    → after_insert t i (b, false) again
      ≡ elim go [ true ↦ again (split_bucket t i) | false ↦ some t ]
unfolding after_insert
on_full t i b again go e =
    ap (λ (x : Bool). elim x [ true ↦ again (split_bucket t i) | false ↦ some t ]) e

insert_loop-Grown :
    (f : ℕ) (c : Contact) (t : RoutingTable)
    → IsValid t
    → list_eq c.id t.local_id ≡ false
    → 161 < f + length t.buckets
    → (t' : RoutingTable) × (insert_loop f c t ≡ some t') × Grown t c t'
unfolding after_insert
insert_loop-Grown zero c t v foreign enough = absurd (omega (arith, v.depth))
insert_loop-Grown (suc f) c t v foreign enough =
    by_bucket (bucket_insert (bucket_at t (bucket_index t c.id)) c) refl
      (bucket_insert-Inserted (bucket_at t (bucket_index t c.id)) c
        (All-get_or t.buckets (bucket_index t c.id) v.each))
      (λ (t' : RoutingTable) v' foreign' enough'. insert_loop-Grown f c t' v' foreign' enough')
  where
    by_bucket :
        (r : KBucket × Bool)
        → bucket_insert (bucket_at t (bucket_index t c.id)) c ≡ r
        → Inserted (bucket_at t (bucket_index t c.id)) c r
        → ((t' : RoutingTable)
            → IsValid t'
            → list_eq c.id t'.local_id ≡ false
            → 161 < f + length t'.buckets
            → (t'' : RoutingTable) × (insert_loop f c t' ≡ some t'') × Grown t' c t'')
        → (t' : RoutingTable) × (insert_loop (suc f) c t ≡ some t') × Grown t c t'
    by_bucket (b, true) e ins ih = (
      record t { buckets = set t.buckets (bucket_index t c.id) b },
      loop_step f c t (b, true) e,
      stored-Grown t c (bucket_index t c.id) (b, true) v (bucket_index_lt t c.id v.prefixes) foreign
          ins,
    )
    by_bucket (b, false) e ins ih =
        elim (Bool-cases (
          bucket_covers_local t (bucket_index t c.id)
          && ltb (bucket_at t (bucket_index t c.id)).prefix_len 160)) [
            | inr stop ↦ (
              t,
              loop_step f c t (b, false) e
                  ∙ on_full t (bucket_index t c.id) b (insert_loop f c) false stop,
              record { is_valid = v; added = false; ids = λ x. ground arith },
            )
            | inl go ↦
                let i = bucket_index t c.id in
                let last =
                  covers_last t i (ltb (bucket_at t i).prefix_len 160) go
                    (Prefixes-length 0 t.buckets v.prefixes) in
                let below : i < 160 =
                  ground (arith, go, Prefixes-last 0 i t.buckets v.prefixes last) in
                let again =
                  ih (split_bucket t i) (split-IsValid t i v last below)
                    (same_local t i c.id ∙ foreign) (omega (arith, split-length t i)) in
                (
                  again.0,
                  loop_step f c t (b, false) e ∙ on_full t i b (insert_loop f c) true go ∙ again.1,
                  record {
                    is_valid = again.2.is_valid;
                    added = again.2.added;
                    ids = λ x. ground (arith, again.2.ids x, split-knows t i x (omega arith));
                  },
                )
          ]

-- An insertion into a table in order ends and leaves a table in order: bounded buckets without
-- repeated ids, prefixes along the local id, and the local id in none of them. No id is lost, and
-- none but that of the contact comes in.
pub insert-Grown :
    (c : Contact) (t : RoutingTable)
    → IsValid t
    → (t' : RoutingTable) × (insert c t ≡ some t') × Grown t c t'
unfolding insert
insert-Grown c t v = elim (Bool-cases (list_eq c.id t.local_id)) [
  | inl own ↦ rw own (t, refl, record { is_valid = v; added = false; ids = λ x. ground arith })
  | inr foreign ↦
      rw foreign (
        insert_loop-Grown 161 c t v foreign (omega (arith, Prefixes-length 0 t.buckets v.prefixes)))
]

pub new-IsValid : (local_id : NodeId) → IsValid (new local_id)
unfolding new
new-IsValid local_id = record {
  prefixes = refl;
  depth = omega arith;
  each = (record { small = omega arith; distinct = tt }, tt);
  foreign = refl;
}
