-- ===== src/Torrent/Paths.antt =====
-- Paths from a torrent stay below the download directory.
use tortor.Prelude.{
  ℕ, suc, ◌<◌, ◌≡◌, refl, ap, inl, inr, Bool, true, false, ◌||◌, List, [], ◌∷◌, if◌then◌else◌, ◌==◌,
  Bool-cases, length, list_eq, map, anyb, All, arith,
}
use mathlib.Core.Path.{subst}
use tortor.Prelude.Result.{Result, ok, err}
use tortor.Torrent.{
  Chars, PathError, invalid_component, is_separator, clean_char, is_forbidden, trim_end, stem,
  is_reserved, sanitize_windows, sanitize_path_component, under, then_push, push_parts,
  build_file_path,
}

-- A name of a file or directory in a directory: it is not empty, neither `.` nor `..`, and has no
-- separator and no NUL.
pub record IsSafe (c : Chars) : Type 0 where
  pub nonempty : 0 < length c
  pub not_here : list_eq c (46 ∷ []) ≡ false
  pub not_parent : list_eq c (46 ∷ 46 ∷ []) ≡ false
  pub one_level : anyb is_separator c ≡ false

clean_char-is_separator : (c : ℕ) → is_separator c ≡ false → is_separator (clean_char c) ≡ false
clean_char-is_separator c h = elim (Bool-cases (is_forbidden c)) [
  | inl bad ↦ rw bad
  | inr good ↦ rw good h
]

map-clean_char :
    (cs : Chars) → anyb is_separator cs ≡ false → anyb is_separator (map clean_char cs) ≡ false
map-clean_char [] h = refl
map-clean_char (c ∷ cs) h = elim (Bool-cases (is_separator c)) [
  | inl bad ↦ ground (arith, h, bad)
  | inr good ↦
      ground (arith, clean_char-is_separator c good, map-clean_char cs (ground (arith, h, good)))
]

trim_end_lem :
    (cs : Chars)
    → anyb is_separator cs ≡ false
    → (anyb is_separator (trim_end cs) ≡ false)
      × (list_eq (trim_end cs) (46 ∷ []) ≡ false)
      × (list_eq (trim_end cs) (46 ∷ 46 ∷ []) ≡ false)
unfolding trim_end
trim_end_lem [] h = (refl, refl, refl)
trim_end_lem (c ∷ cs) h = elim (Bool-cases (is_separator c)) [
  | inl bad ↦ absurd (ground (arith, h, bad))
  | inr good ↦ by_rest (trim_end cs) good (trim_end_lem cs (ground (arith, h, good)))
]
  where
    by_rest :
        (rest : Chars)
        → is_separator c ≡ false
        → (anyb is_separator rest ≡ false)
          × (list_eq rest (46 ∷ []) ≡ false)
          × (list_eq rest (46 ∷ 46 ∷ []) ≡ false)
        → let r : Chars = elim rest [
          | [] ↦ if c == 46 || c == 32 then [] else c ∷ []
          | d ∷ ds ↦ c ∷ (d ∷ ds)
        ] in
          (anyb is_separator r ≡ false)
          × (list_eq r (46 ∷ []) ≡ false)
          × (list_eq r (46 ∷ 46 ∷ []) ≡ false)
    by_rest [] good ih = elim (Bool-cases (c == 46 || c == 32)) [
      | inl dot ↦ rw dot (refl, refl, refl)
      | inr other ↦ rw other (ground (arith, good), ground (arith, other), ground arith)
    ]
    by_rest (d ∷ ds) good ih = (ground (arith, good, ih.0), ground arith, ground (arith, ih.1))

sanitize_windows-IsSafe :
    (component s : Chars)
    → anyb is_separator component ≡ false
    → sanitize_windows component ≡ ok s
    → IsSafe s
unfolding sanitize_windows
sanitize_windows-IsSafe component s one e =
    by_cleaned (trim_end (map clean_char component))
      (trim_end_lem (map clean_char component) (map-clean_char component one)) e
  where
    by_cleaned :
        (c : Chars)
        → (anyb is_separator c ≡ false)
          × (list_eq c (46 ∷ []) ≡ false)
          × (list_eq c (46 ∷ 46 ∷ []) ≡ false)
        → (if length c == 0
            then err invalid_component
            else if is_reserved (stem c)
            then ok (95 ∷ c)
            else ok c)
          ≡ ok s
        → IsSafe s
    by_cleaned [] h e = cc
    by_cleaned (x ∷ c) h e = elim (Bool-cases (is_reserved (stem (x ∷ c)))) [
      | inl reserved ↦
          let same : 95 ∷ x ∷ c ≡ s = ground (arith, e, reserved) in
          subst IsSafe same
            (record { nonempty = omega arith; not_here = refl; not_parent = refl; one_level = h.0 })
      | inr plain ↦
          let same : x ∷ c ≡ s = ground (arith, e, plain) in
          subst IsSafe same
            (record { nonempty = omega arith; not_here = h.1; not_parent = h.2; one_level = h.0 })
    ]

-- Every component that `sanitize_path_component` accepts, on either platform, becomes the name of
-- a file or directory in a directory.
pub sanitize_path_component-IsSafe :
    (windows : Bool) (component s : Chars)
    → sanitize_path_component windows component ≡ ok s
    → IsSafe s
unfolding sanitize_path_component
sanitize_path_component-IsSafe windows component s e =
    elim (Bool-cases
      (length component == 0 || list_eq component (46 ∷ []) || list_eq component (46 ∷ 46 ∷ []))) [
        | inl bad ↦ absurd (ground (arith, e, bad))
        | inr named ↦ elim (Bool-cases (anyb is_separator component)) [
          | inl bad ↦ absurd (ground (arith, e, bad, named))
          | inr one ↦ by_platform windows named one e
        ]
      ]
  where
    by_platform :
        (windows : Bool)
        → (length component == 0 || list_eq component (46 ∷ []) || list_eq component (46 ∷ 46 ∷ []))
          ≡ false
        → anyb is_separator component ≡ false
        → sanitize_path_component windows component ≡ ok s
        → IsSafe s
    by_platform true named one e =
        sanitize_windows-IsSafe component s one (ground (arith, e, named, one))
    by_platform false named one e =
        let same : component ≡ s = ground (arith, e, named, one) in
        subst IsSafe same (record {
          nonempty = ground (arith, named);
          not_here = ground (arith, named);
          not_parent = ground (arith, named);
          one_level = one;
        })

push_parts-IsSafe :
    (windows : Bool) (parts path : List Chars)
    → push_parts windows parts ≡ ok path
    → All IsSafe path × (length path ≡ length parts)
unfolding push_parts then_push under
push_parts-IsSafe windows [] path e =
    let same : [] ≡ path = ground (arith, e) in
    subst (λ path. All IsSafe path × (length path ≡ 0)) same (tt, refl)
push_parts-IsSafe windows (part ∷ parts) path e =
    by_part (sanitize_path_component windows part) (push_parts windows parts) e
      (sanitize_path_component-IsSafe windows part) (push_parts-IsSafe windows parts)
  where
    by_part :
        (r : Result PathError Chars) (rest : Result PathError (List Chars))
        → then_push r rest ≡ ok path
        → ((s : Chars) → r ≡ ok s → IsSafe s)
        → ((p : List Chars) → rest ≡ ok p → All IsSafe p × (length p ≡ length parts))
        → All IsSafe path × (length path ≡ suc (length parts))
    by_part (err x) rest e safe ih = absurd (ground (arith, e))
    by_part (ok c) (err x) e safe ih = absurd (ground (arith, e))
    by_part (ok c) (ok cs) e safe ih =
        let same : c ∷ cs ≡ path = ground (arith, e) in
        let rest = ih cs refl in
        subst (λ path. All IsSafe path × (length path ≡ suc (length parts))) same
          ((safe c refl, rest.0), ap suc rest.1)

-- A path that `build_file_path` returns goes below the base directory: each of its components is
-- the name of a file or directory in a directory, and there is one for each part, after the
-- directory of a torrent of several files.
pub build_file_path-IsSafe :
    (windows : Bool) (name : Chars) (is_multi : Bool) (parts path : List Chars)
    → build_file_path windows name is_multi parts ≡ ok path
    → All IsSafe path
      × (length path ≡ (if is_multi then suc (length parts) else length parts))
      × (0 < length parts)
unfolding build_file_path
build_file_path-IsSafe windows name is_multi parts path e = elim (Bool-cases (length parts == 0)) [
  | inl none_there ↦ absurd (ground (arith, e, none_there))
  | inr some_there ↦ by_kind is_multi some_there e
]
  where
    by_kind :
        (is_multi : Bool)
        → (length parts == 0) ≡ false
        → build_file_path windows name is_multi parts ≡ ok path
        → All IsSafe path
          × (length path ≡ (if is_multi then suc (length parts) else length parts))
          × (0 < length parts)
    by_kind true some_there e =
        let made = push_parts-IsSafe windows (name ∷ parts) path (ground (arith, e, some_there)) in
        (made.0, made.1, ground (arith, some_there))
    by_kind false some_there e =
        let made = push_parts-IsSafe windows parts path (ground (arith, e, some_there)) in
        (made.0, made.1, ground (arith, some_there))
