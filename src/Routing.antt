-- ===== src/Routing.antt =====
-- The Kademlia routing table of src/net/dht/routing.rs. A node id is a list of 20 bytes.
pub mod Buckets
pub mod Contacts
pub mod Shape
pub mod Table
pub mod Sorting
pub mod Closest
mod Tests
use Prim.Native.Nat.{bit_xor}
use package.tortor.Prelude.{
  ℕ, zero, suc, ◌+◌, ◌-◌, ◌*◌, ◌/◌, ◌%◌, ◌^◌, Bool, true, false, not, ◌&&◌, ◌||◌, Option, none,
  some, List, [], ◌∷◌, ◌++◌, if◌then◌else◌, ltb, leb, ◌==◌, length, take, drop, get_or, list_eq,
  set, filterb, map,
}
use package.tortor.Pex.{SocketAddr, chunks_exact, decode_compact_ipv4, decode_compact_ipv6}

abbrev pub NodeId : Type 0
NodeId = List ℕ

-- Byte by byte; both ids have 20 bytes.
unfoldable pub xor : NodeId → NodeId → NodeId
xor [] b = []
xor (x ∷ a) [] = []
xor (x ∷ a) (y ∷ b) = bit_xor x y ∷ xor a b

-- `u8::leading_zeros`
abbrev pub byte_zeros : ℕ → ℕ
byte_zeros b =
    if leb 128 b
    then 0
    else if leb 64 b
    then 1
    else if leb 32 b
    then 2
    else if leb 16 b
    then 3
    else if leb 8 b
    then 4
    else if leb 4 b
    then 5
    else if leb 2 b
    then 6
    else if leb 1 b
    then 7
    else 8

unfoldable pub leading_zeros : NodeId → ℕ
leading_zeros [] = 0
leading_zeros (b ∷ bs) = let rest = leading_zeros bs in if b == 0 then 8 + rest else byte_zeros b

unfoldable pub bit_at : NodeId → ℕ → ℕ
bit_at id index = if leb 160 index then 0 else get_or id (index / 8) 0 / 2 ^ (7 - index % 8) % 2

pub record Contact : Type 0 where
  pub id : NodeId
  pub addr : SocketAddr

-- The chunks with an address; a chunk that was cut exactly has one.
unfoldable pub contacts_of : (List ℕ → List SocketAddr) → List (List ℕ) → List Contact
contacts_of decode [] = []
contacts_of decode (chunk ∷ chunks) =
    let rest = contacts_of decode chunks in
    elim (decode (drop 20 chunk)) [
      | [] ↦ rest
      | addr ∷ _ ↦ record { id = take 20 chunk; addr = addr } ∷ rest
    ]

unfoldable pub decode_compact_nodes : List ℕ → List Contact
unfolding contacts_of
decode_compact_nodes bytes = contacts_of decode_compact_ipv4 (chunks_exact 26 bytes)

unfoldable pub decode_compact_nodes6 : List ℕ → List Contact
unfolding contacts_of
decode_compact_nodes6 bytes = contacts_of decode_compact_ipv6 (chunks_exact 38 bytes)

pub record KBucket : Type 0 where
  pub nodes : List Contact
  pub prefix_len : ℕ

abbrev pub bucket_new : ℕ → KBucket
bucket_new prefix_len = record { nodes = []; prefix_len = prefix_len }

unfoldable pub is_full : KBucket → Bool
is_full b = leb 8 (length b.nodes)

abbrev pub has_id : NodeId → List Contact → Bool
has_id id [] = false
has_id id (c ∷ cs) = list_eq c.id id || has_id id cs

-- `self.nodes.remove(pos)`, at the first contact with the id.
abbrev pub remove_id : NodeId → List Contact → List Contact
remove_id id [] = []
remove_id id (c ∷ cs) = let rest = remove_id id cs in if list_eq c.id id then cs else c ∷ rest

-- A known contact moves to the tail with the new address.
unfoldable pub bucket_insert : KBucket → Contact → KBucket × Bool
unfolding is_full
bucket_insert b c =
    if has_id c.id b.nodes
    then (record b { nodes = remove_id c.id b.nodes ++ (c ∷ []) }, true)
    else if not (is_full b)
    then (record b { nodes = b.nodes ++ (c ∷ []) }, true)
    else (b, false)

pub record RoutingTable : Type 0 where
  pub local_id : NodeId
  pub buckets : List KBucket

unfoldable pub new : NodeId → RoutingTable
new local_id = record { local_id = local_id; buckets = bucket_new 0 ∷ [] }

-- The last bucket whose prefix is not longer than the common prefix, or the first one.
unfoldable pub index_loop : ℕ → ℕ → ℕ → List KBucket → ℕ
index_loop common i target [] = target
index_loop common i target (b ∷ bs) =
    index_loop common (i + 1) (if leb b.prefix_len common then i else target) bs

unfoldable pub bucket_index : RoutingTable → NodeId → ℕ
unfolding xor leading_zeros index_loop
bucket_index t target = index_loop (leading_zeros (xor t.local_id target)) 0 0 t.buckets

unfoldable pub bucket_covers_local : RoutingTable → ℕ → Bool
bucket_covers_local t i = i == length t.buckets - 1

abbrev pub bucket_at : RoutingTable → ℕ → KBucket
bucket_at t i = get_or t.buckets i (bucket_new 0)

abbrev pub shares_bit : NodeId → ℕ → Contact → Bool
shares_bit local_id i c = bit_at c.id i == bit_at local_id i

unfoldable pub split_bucket : RoutingTable → ℕ → RoutingTable
split_bucket t i =
    let b = bucket_at t i in
    let toward = filterb (shares_bit t.local_id b.prefix_len) b.nodes in
    let away = filterb (λ c. not (shares_bit t.local_id b.prefix_len c)) b.nodes in
    record t {
      buckets =
          set t.buckets i (record { nodes = away; prefix_len = b.prefix_len + 1 })
          ++ (record { nodes = toward; prefix_len = b.prefix_len + 1 } ∷ []);
    }

-- What a round of the loop of `insert` does with the outcome of the bucket. `none` is the model's
-- own, for fuel that runs out.
unfoldable pub after_insert :
    RoutingTable → ℕ → KBucket × Bool → (RoutingTable → Option RoutingTable) → Option RoutingTable
unfolding bucket_covers_local split_bucket
after_insert t i (b, true) again = some (record t { buckets = set t.buckets i b })
after_insert t i (b, false) again =
    elim (bucket_covers_local t i && ltb (bucket_at t i).prefix_len 160) [
      | true ↦ again (split_bucket t i)
      | false ↦ some t
    ]

unfoldable pub insert_loop : ℕ → Contact → RoutingTable → Option RoutingTable
unfolding bucket_insert bucket_index after_insert
insert_loop zero c t = none
insert_loop (suc fuel) c t =
    let i = bucket_index t c.id in
    after_insert t i (bucket_insert (bucket_at t i) c) (insert_loop fuel c)

-- A round that goes on splits the last bucket, whose prefix grows up to 160.
unfoldable pub insert : Contact → RoutingTable → Option RoutingTable
unfolding insert_loop
insert c t = if list_eq c.id t.local_id then some t else insert_loop 161 c t

abbrev pub all_contacts : List KBucket → List Contact
all_contacts [] = []
all_contacts (b ∷ bs) = b.nodes ++ all_contacts bs

-- Byte lists in lexicographic order, as arrays are compared.
abbrev pub before_eq : List ℕ → List ℕ → Bool
before_eq [] b = true
before_eq (x ∷ a) [] = false
before_eq (x ∷ a) (y ∷ b) = ltb x y || x == y && before_eq a b

-- A stable sort by key; which algorithm makes no difference.
unfoldable pub insert_by_key : (Contact → List ℕ) → Contact → List Contact → List Contact
insert_by_key key c [] = c ∷ []
insert_by_key key c (d ∷ ds) =
    let rest = insert_by_key key c ds in if before_eq (key c) (key d) then c ∷ d ∷ ds else d ∷ rest

unfoldable pub sort_by_key : (Contact → List ℕ) → List Contact → List Contact
unfolding insert_by_key
sort_by_key key [] = []
sort_by_key key (c ∷ cs) = insert_by_key key c (sort_by_key key cs)

unfoldable pub closest_where : RoutingTable → NodeId → ℕ → (Contact → Bool) → List Contact
unfolding sort_by_key
closest_where t target count keep =
    take count (sort_by_key (λ c. xor c.id target) (filterb keep (all_contacts t.buckets)))

unfoldable pub closest : RoutingTable → NodeId → ℕ → List Contact
unfolding closest_where
closest t target count = closest_where t target count (λ _. true)
