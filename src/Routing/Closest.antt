-- ===== src/Routing/Closest.antt =====
-- The contacts that `closest_where` returns, against the others of the table.
use tortor.Prelude.{
  ℕ, ◌≤◌, ◌≡◌, ◌⊎◌, inl, inr, Bool, true, List, length, length-take, filterb, arith,
}
use tortor.Routing.{
  NodeId, Contact, RoutingTable, xor, all_contacts, before_eq, sort_by_key, closest_where,
}
use tortor.Routing.Sorting.{
  In, In-take, In-halves, In-filterb, filterb-In, Sorted, sort_by_key-Sorted, In-sort_by_key,
  sort_by_key-In, take-Sorted, take_before_drop,
}

-- The answer to a search for the contacts closest to `target`.
pub record Closest (t : RoutingTable) (target : NodeId) (count : ℕ) (keep : Contact → Bool)
    (r : List Contact) : Type 0 where
  pub at_most : length r ≤ count
  pub in_order : Sorted (λ c. xor c.id target) r
  pub known : (c : Contact) → In c r → In c (all_contacts t.buckets) × (keep c ≡ true)
  -- a contact that is left out is no closer than any that is returned, and then `count` are
  pub nearest :
      (d : Contact)
      → In d (all_contacts t.buckets)
      → keep d ≡ true
      → In d r
        ⊎ ((length r ≡ count)
            × ((c : Contact) → In c r → before_eq (xor c.id target) (xor d.id target) ≡ true))

-- `closest_where` returns at most `count` accepted contacts of the table in the order of their XOR
-- distance; and if it leaves an accepted one out, it returns `count`, all at least as close.
pub closest_where-Closest :
    (t : RoutingTable) (target : NodeId) (count : ℕ) (keep : Contact → Bool)
    → Closest t target count keep (closest_where t target count keep)
unfolding closest_where
closest_where-Closest t target count keep =
    let key : Contact → List ℕ = λ c. xor c.id target in
    let accepted = filterb keep (all_contacts t.buckets) in
    let sorted = sort_by_key key accepted in
    record {
      at_most = omega (arith, length-take count sorted);
      in_order = take-Sorted key count sorted (sort_by_key-Sorted key accepted);
      known = λ c i.
          In-filterb keep c (all_contacts t.buckets)
            (In-sort_by_key key accepted (In-take count sorted i));
      nearest = λ d i h.
          elim (In-halves count sorted
            (sort_by_key-In key accepted (filterb-In keep (all_contacts t.buckets) i h))) [
              | inl taken ↦ inl taken
              | inr (dropped, le) ↦ inr (
                omega (arith, length-take count sorted),
                λ c j.
                    take_before_drop key count sorted c d (sort_by_key-Sorted key accepted) j
                      dropped,
              )
            ];
    }
