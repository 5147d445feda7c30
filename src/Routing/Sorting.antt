-- ===== src/Routing/Sorting.antt =====
-- The stable sort by key orders the contacts and keeps each of them.
use tortor.Prelude.{
  ℕ, zero, suc, ◌≤◌, ◌≡◌, ◌⊎◌, refl, sym, ap, inl, inr, Bool, true, false, List, [], ◌∷◌,
  Bool-cases, length, take, drop, filterb, arith,
}
use mathlib.Core.Path.{subst}
use tortor.Routing.{Contact, before_eq, insert_by_key, sort_by_key}

pub before_eq_refl : (a : List ℕ) → before_eq a a ≡ true
before_eq_refl [] = refl
before_eq_refl (x ∷ a) = ground (arith, before_eq_refl a)

pub before_eq_total : (a b : List ℕ) → before_eq a b ≡ false → before_eq b a ≡ true
before_eq_total [] b h = cc
before_eq_total (x ∷ a) [] h = refl
before_eq_total (x ∷ a) (y ∷ b) h = ground (arith, before_eq_total a b, h)

pub before_eq_trans :
    (a b c : List ℕ) → before_eq a b ≡ true → before_eq b c ≡ true → before_eq a c ≡ true
before_eq_trans [] b c h h' = refl
before_eq_trans (x ∷ a) [] c h h' = cc
before_eq_trans (x ∷ a) (y ∷ b) [] h h' = cc
before_eq_trans (x ∷ a) (y ∷ b) (z ∷ c) h h' = ground (arith, before_eq_trans a b c, h, h')

-- A contact is in a list.
pub data In (c : Contact) : List Contact → Type 0 where
  here : (cs : List Contact) → In c (c ∷ cs)
  there : (d : Contact) {cs : List Contact} → In c cs → In c (d ∷ cs)

pub In-under :
    {d : Contact} (e : Contact) {xs ys : List Contact}
    → (In d xs → In d ys)
    → In d (e ∷ xs)
    → In d (e ∷ ys)
In-under e {ys = ys} f (here xs) = here ys
In-under e f (there e' i) = there e (f i)

pub In-swap :
    {d : Contact} (e c : Contact) (cs : List Contact) → In d (e ∷ (c ∷ cs)) → In d (c ∷ (e ∷ cs))
In-swap e c cs (here _) = there c (here cs)
In-swap e c cs (there e' (here _)) = here (e ∷ cs)
In-swap e c cs (there e' (there c' i)) = there c (there e i)

pub In-take : {d : Contact} (n : ℕ) (cs : List Contact) → In d (take n cs) → In d cs
In-take zero cs i = elim i [ ]
In-take (suc n) [] i = i
In-take (suc n) (c ∷ cs) i = In-under c (In-take n cs) i

-- Each contact is taken or dropped; if one is dropped, as many are taken as can be.
pub In-halves :
    {d : Contact} (n : ℕ) (cs : List Contact)
    → In d cs
    → In d (take n cs) ⊎ (In d (drop n cs) × (n ≤ length cs))
In-halves zero cs i = inr (i, omega arith)
In-halves (suc n) [] i = elim i [ ]
In-halves (suc n) (c ∷ cs) (here _) = inl (here (take n cs))
In-halves (suc n) (c ∷ cs) (there _ i) = elim (In-halves n cs i) [
  | inl taken ↦ inl (there c taken)
  | inr (dropped, le) ↦ inr (dropped, omega arith)
]

pub kept :
    (p : Contact → Bool) (c : Contact) (cs : List Contact)
    → p c ≡ true
    → c ∷ filterb p cs ≡ filterb p (c ∷ cs)
kept p c cs h = sym (ap (λ (b : Bool). elim b [ true ↦ c ∷ filterb p cs | false ↦ filterb p cs ]) h)

pub dropped_head :
    (p : Contact → Bool) (c : Contact) (cs : List Contact)
    → p c ≡ false
    → filterb p (c ∷ cs) ≡ filterb p cs
dropped_head p c cs h =
    ap (λ (b : Bool). elim b [ true ↦ c ∷ filterb p cs | false ↦ filterb p cs ]) h

pub In-kept :
    (p : Contact → Bool) (c d : Contact) (xs cs : List Contact)
    → p c ≡ true
    → (In d xs → In d cs × (p d ≡ true))
    → In d (c ∷ xs)
    → In d (c ∷ cs) × (p d ≡ true)
In-kept p c d xs cs e f (here _) = (here cs, e)
In-kept p c d xs cs e f (there _ i) = let r = f i in (there c r.0, r.1)

pub In-filterb :
    (p : Contact → Bool) (d : Contact) (cs : List Contact)
    → In d (filterb p cs)
    → In d cs × (p d ≡ true)
In-filterb p d [] i = elim i [ ]
In-filterb p d (c ∷ cs) i = elim (Bool-cases (p c)) [
  | inl yes_ ↦
      In-kept p c d (filterb p cs) cs yes_ (In-filterb p d cs)
        (subst (In d) (sym (kept p c cs yes_)) i)
  | inr no_ ↦
      let r = In-filterb p d cs (subst (In d) (dropped_head p c cs no_) i) in (there c r.0, r.1)
]

pub filterb-In :
    {d : Contact} (p : Contact → Bool) (cs : List Contact)
    → In d cs
    → p d ≡ true
    → In d (filterb p cs)
filterb-In p [] i h = elim i [ ]
filterb-In p (c ∷ cs) (here _) h = subst (In c) (kept p c cs h) (here (filterb p cs))
filterb-In {d = d} p (c ∷ cs) (there _ i) h = by_test (p c) (filterb-In p cs i h)
  where
    by_test :
        (b : Bool)
        → In d (filterb p cs)
        → In d (elim b [ true ↦ c ∷ filterb p cs | false ↦ filterb p cs ])
    by_test true ih = there c ih
    by_test false ih = ih

module _ (key : Contact → List ℕ) where
  -- The contact is no later than the others by its key.
  abbrev pub AllAfter : Contact → List Contact → Type 0
  AllAfter c cs = (d : Contact) → In d cs → before_eq (key c) (key d) ≡ true

  abbrev pub Sorted : List Contact → Type 0
  Sorted [] = Unit
  Sorted (c ∷ cs) = AllAfter c cs × Sorted cs

  pub In-insert_by_key :
      (c d : Contact) (cs : List Contact) → In d (insert_by_key key c cs) → In d (c ∷ cs)
  unfolding insert_by_key
  In-insert_by_key c d [] i = i
  In-insert_by_key c d (e ∷ cs) i = elim (Bool-cases (before_eq (key c) (key e))) [
    | inl first ↦ rw first at i
    | inr later ↦ In-swap e c cs (In-under e (In-insert_by_key c d cs) (rw later at i))
  ]

  pub insert_by_key-In :
      (c d : Contact) (cs : List Contact) → In d (c ∷ cs) → In d (insert_by_key key c cs)
  unfolding insert_by_key
  insert_by_key-In c d [] i = i
  insert_by_key-In c d (e ∷ cs) i = elim (Bool-cases (before_eq (key c) (key e))) [
    | inl first ↦ rw first i
    | inr later ↦ rw later (In-under e (insert_by_key-In c d cs) (In-swap c e cs i))
  ]

  pub AllAfter-cons :
      (c e : Contact) (cs : List Contact)
      → before_eq (key c) (key e) ≡ true
      → AllAfter c cs
      → AllAfter c (e ∷ cs)
  AllAfter-cons c e cs h a d (here _) = h
  AllAfter-cons c e cs h a d (there _ i) = a d i

  pub insert_by_key-Sorted :
      (c : Contact) (cs : List Contact) → Sorted cs → Sorted (insert_by_key key c cs)
  unfolding insert_by_key
  insert_by_key-Sorted c [] s = (λ d i. elim i [ ], tt)
  insert_by_key-Sorted c (e ∷ cs) s = elim (Bool-cases (before_eq (key c) (key e))) [
    | inl first ↦ rw first (
      AllAfter-cons c e cs first (λ d i. before_eq_trans (key c) (key e) (key d) first (s.0 d i)),
      s,
    )
    | inr later ↦ rw later (
      λ d i.
          AllAfter-cons e c cs (before_eq_total (key c) (key e) later) s.0 d
            (In-insert_by_key c d cs i),
      insert_by_key-Sorted c cs s.1,
    )
  ]

  pub sort_by_key-Sorted : (cs : List Contact) → Sorted (sort_by_key key cs)
  unfolding sort_by_key
  sort_by_key-Sorted [] = tt
  sort_by_key-Sorted (c ∷ cs) = insert_by_key-Sorted c (sort_by_key key cs) (sort_by_key-Sorted cs)

  pub In-sort_by_key : {d : Contact} (cs : List Contact) → In d (sort_by_key key cs) → In d cs
  unfolding sort_by_key
  In-sort_by_key [] i = i
  In-sort_by_key {d = d} (c ∷ cs) i =
      In-under c (In-sort_by_key cs) (In-insert_by_key c d (sort_by_key key cs) i)

  pub sort_by_key-In : {d : Contact} (cs : List Contact) → In d cs → In d (sort_by_key key cs)
  unfolding sort_by_key
  sort_by_key-In [] i = i
  sort_by_key-In {d = d} (c ∷ cs) i =
      insert_by_key-In c d (sort_by_key key cs) (In-under c (sort_by_key-In cs) i)

  pub take-Sorted : (n : ℕ) (cs : List Contact) → Sorted cs → Sorted (take n cs)
  take-Sorted zero cs s = tt
  take-Sorted (suc n) [] s = tt
  take-Sorted (suc n) (c ∷ cs) s = (λ d i. s.0 d (In-take n cs i), take-Sorted n cs s.1)

  pub In-drop : {d : Contact} (n : ℕ) (cs : List Contact) → In d (drop n cs) → In d cs
  In-drop zero cs i = i
  In-drop (suc n) [] i = i
  In-drop (suc n) (c ∷ cs) i = there c (In-drop n cs i)

  -- What is taken comes before what is dropped.
  pub take_before_drop :
      (n : ℕ) (cs : List Contact) (c d : Contact)
      → Sorted cs
      → In c (take n cs)
      → In d (drop n cs)
      → before_eq (key c) (key d) ≡ true
  take_before_drop zero cs c d s i j = elim i [ ]
  take_before_drop (suc n) [] c d s i j = elim i [ ]
  take_before_drop (suc n) (e ∷ cs) c d s (here _) j = s.0 d (In-drop n cs j)
  take_before_drop (suc n) (e ∷ cs) c d s (there _ i) j = take_before_drop n cs c d s.1 i j
