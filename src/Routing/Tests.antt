-- ===== src/Routing/Tests.antt =====
-- The routing table at concrete inputs: the local id is zero, and ids differ in their first byte.
use tortor.Prelude.{ℕ, ◌-◌, ◌≡◌, refl, true, if◌then◌else◌, leb, some, [], ◌∷◌, replicate}
use tortor.Pex.{v4}
use tortor.Routing.{
  NodeId, Contact, RoutingTable, new, insert, bucket_index, xor, leading_zeros, closest_where,
  closest,
}
use tortor.Routing.Shape.{bucket_index_lem}
use tortor.Routing.Table.{new-IsValid, Grown, insert-Grown}
use tortor.Routing.Closest.{Closest, closest_where-Closest}

abbrev id : ℕ → NodeId
id n = n ∷ replicate 19 0

abbrev contact : ℕ → Contact
contact n = record { id = id n; addr = v4 (10 ∷ 0 ∷ 0 ∷ n ∷ []) 6881 }

abbrev empty : RoutingTable
empty = new (id 0)

-- Two splits: the buckets have the prefixes 1, 2 and 2.
abbrev three : RoutingTable
three = record {
  local_id = id 0;
  buckets =
      record { nodes = contact 200 ∷ []; prefix_len = 1 }
      ∷ record { nodes = contact 64 ∷ []; prefix_len = 2 }
      ∷ record { nodes = contact 16 ∷ contact 48 ∷ []; prefix_len = 2 }
      ∷ [];
}

zeros_of_64 : leading_zeros (xor (id 0) (id 64)) ≡ 1
unfolding leading_zeros xor
zeros_of_64 = refl

-- The contact 64 is in the second bucket, and is looked for in the first.
index_of_64 : bucket_index three (id 64) ≡ 0
unfolding bucket_index
index_of_64 = refl

closest_to_17 : closest three (id 17) 2 ≡ contact 16 ∷ contact 48 ∷ []
unfolding closest xor
closest_to_17 = refl

bucket_index_lem_example : bucket_index three (id 64) ≡ (
    if leb 2 (leading_zeros (xor (id 0) (id 64)))
    then 2
    else leading_zeros (xor (id 0) (id 64)) - 1)
bucket_index_lem_example = bucket_index_lem three (id 64) (refl, (refl, refl))

insert-Grown_example :
    (t' : RoutingTable) × (insert (contact 5) empty ≡ some t') × Grown empty (contact 5) t'
insert-Grown_example = insert-Grown (contact 5) empty (new-IsValid (id 0))

closest_where-Closest_example :
    Closest three (id 17) 2 (λ c. true) (closest_where three (id 17) 2 (λ c. true))
closest_where-Closest_example = closest_where-Closest three (id 17) 2 (λ c. true)
