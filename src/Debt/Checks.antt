-- ===== src/Debt/Checks.antt =====
-- armin-core/graph/src/debt.rs, the third detector: the latest check of each file, and the failures.
use mathlib.Core.List.{foldl}
use mathlib.Core.List.Memᴰ
use armin.Prelude.{
  ◌≡◌, ◌≤◌, refl, sym, subst, inl, inr, ◌⊎◌, String, true, ◌||◌, Option, none, some, List, [], ◌∷◌,
  map, Memᴰ, lookup, insert, lookup-insert, arith, contains, unique, leb, if◌then◌else◌, ◌==◌,
  String_Eq, ℕ_Eq, eq_iff, Bool-cases, Option-cases,
}
use armin.Types.Scratch.{ScratchCheck}
use armin.Debt.{see_file, see_check}

abbrev pub keys : List (String × ScratchCheck) → List String
keys = map (λ (e : String × ScratchCheck). e.0)

contains-keys_insert :
    (k x : String) (v : ScratchCheck) (m : List (String × ScratchCheck))
    → contains x (keys (insert k v m)) ≡ (contains x (keys m) || k == x)
unfolding insert
contains-keys_insert k x v [] = ground arith
contains-keys_insert k x v ((j, w) ∷ m) = ground (arith, contains-keys_insert k x v m, eq_iff j k)

unique-keys_insert :
    (k : String) (v : ScratchCheck) (m : List (String × ScratchCheck))
    → unique (keys m) ≡ true
    → unique (keys (insert k v m)) ≡ true
unfolding insert
unique-keys_insert k v [] h = refl
unique-keys_insert k v ((j, w) ∷ m) h =
    ground (arith, unique-keys_insert k v m, contains-keys_insert k j v m, eq_iff j k, eq_iff k j)

-- under distinct keys an entry is what its key leads to
contains-keys :
    (f : String) (c : ScratchCheck) (m : List (String × ScratchCheck))
    → Memᴰ (f, c) m
    → contains f (keys m) ≡ true
contains-keys f c [] h = absurd (Memᴰ.not-nil h)
contains-keys f c ((j, w) ∷ m) h = elim (Memᴰ.cases_cons h) [
  | inl e ↦ ground (arith, e, eq_iff j f)
  | inr r ↦ ground (arith, contains-keys f c m r)
]

pub lookup_of_mem :
    (f : String) (c : ScratchCheck) (m : List (String × ScratchCheck))
    → unique (keys m) ≡ true
    → Memᴰ (f, c) m
    → lookup f m ≡ some c
lookup_of_mem f c [] u h = absurd (Memᴰ.not-nil h)
lookup_of_mem f c ((j, w) ∷ m) u h = elim (Memᴰ.cases_cons h) [
  | inl e ↦ ground (arith, e, eq_iff j f)
  | inr r ↦ ground (arith, contains-keys f c m r, lookup_of_mem f c m (ground arith) r, eq_iff j f)
]

pub mem_of_lookup :
    (f : String) (c : ScratchCheck) (m : List (String × ScratchCheck))
    → lookup f m ≡ some c
    → Memᴰ (f, c) m
mem_of_lookup f c [] h = cc
mem_of_lookup f c ((j, w) ∷ m) h = elim (Bool-cases (j == f)) [
  | inl e ↦ Memᴰ.head (ground (arith, eq_iff j f))
  | inr e ↦ Memᴰ.tail (mem_of_lookup f c m (ground arith))
]

-- of two checks of one file the one that stays: the later one, and the earlier met at a tie
abbrev newer : ScratchCheck → Option ScratchCheck → Option ScratchCheck
newer c none = some c
newer c (some prev) = if leb c.timestamp prev.timestamp then some prev else some c

lookup-see_file :
    (c : ScratchCheck) (m : List (String × ScratchCheck)) (g f : String)
    → lookup f (see_file c m g) ≡ (if g == f then newer c (lookup f m) else lookup f m)
unfolding see_file
lookup-see_file c m g f = elim (Option-cases (lookup g m)) [
  | inl e ↦ rw (e, see_file) (ground (arith, e, lookup-insert g f c m, eq_iff g f))
  | inr (p, e) ↦ rw (e, see_file) (ground (arith, e, lookup-insert g f c m, eq_iff g f))
]

lookup-see_files :
    (c : ScratchCheck) (files : List String) (m : List (String × ScratchCheck)) (f : String)
    → lookup f (foldl (see_file c) m files)
      ≡ (if contains f files then newer c (lookup f m) else lookup f m)
lookup-see_files c [] m f = refl
lookup-see_files c (g ∷ files) m f =
    ground (arith, lookup-see_files c files (see_file c m g) f, lookup-see_file c m g f)

unique-see_files :
    (c : ScratchCheck) (files : List String) (m : List (String × ScratchCheck))
    → unique (keys m) ≡ true
    → unique (keys (foldl (see_file c) m files)) ≡ true
unfolding see_file
unique-see_files c [] m u = u
unique-see_files c (g ∷ files) m u =
    unique-see_files c files (see_file c m g) (ground (arith, unique-keys_insert g c m))

module _ (f : String) where
  pub see_checks_sound :
      (checks : List ScratchCheck) (m : List (String × ScratchCheck)) (c : ScratchCheck)
      → lookup f (foldl see_check m checks) ≡ some c
      → (lookup f m ≡ some c) ⊎ (Memᴰ c checks × (contains f c.files ≡ true))
  unfolding see_check
  see_checks_sound [] m c h = inl h
  see_checks_sound (x ∷ checks) m c h = elim (see_checks_sound checks (see_check m x) c h) [
    | inr (mem, q) ↦ inr (Memᴰ.tail mem, q)
    | inl e ↦ elim (Bool-cases (contains f x.files)) [
      | inr out ↦ inl (ground (arith, lookup-see_files x x.files m f))
      | inl on ↦ elim (Option-cases (lookup f m)) [
        | inl none_yet ↦
            let same : x ≡ c = ground (arith, lookup-see_files x x.files m f) in
            inr (
              Memᴰ.head (sym same),
              subst (λ (y : ScratchCheck). contains f y.files ≡ true) same on,
            )
        | inr (p, was) ↦ elim (Bool-cases (leb x.timestamp p.timestamp)) [
          | inl older ↦ inl (ground (arith, lookup-see_files x x.files m f))
          | inr later ↦
              let same : x ≡ c = ground (arith, lookup-see_files x x.files m f) in
              inr (
                Memᴰ.head (sym same),
                subst (λ (y : ScratchCheck). contains f y.files ≡ true) same on,
              )
        ]
      ]
    ]
  ]

  see_check-keeps :
      (x : ScratchCheck) (m : List (String × ScratchCheck)) (p : ScratchCheck)
      → lookup f m ≡ some p
      → (c : ScratchCheck) × (lookup f (see_check m x) ≡ some c) × (p.timestamp ≤ c.timestamp)
  unfolding see_check
  see_check-keeps x m p was = elim (Bool-cases (contains f x.files)) [
    | inr out ↦ (p, ground (arith, lookup-see_files x x.files m f), omega arith)
    | inl on ↦ elim (Bool-cases (leb x.timestamp p.timestamp)) [
      | inl older ↦ (p, ground (arith, lookup-see_files x x.files m f), omega arith)
      | inr later ↦ (x, ground (arith, lookup-see_files x x.files m f), ground arith)
    ]
  ]

  see_checks-keeps :
      (checks : List ScratchCheck) (m : List (String × ScratchCheck)) (p : ScratchCheck)
      → lookup f m ≡ some p
      → (c : ScratchCheck) × (lookup f (foldl see_check m checks) ≡ some c)
        × (p.timestamp ≤ c.timestamp)
  see_checks-keeps [] m p h = (p, h, omega arith)
  see_checks-keeps (x ∷ checks) m p h =
      let (q, at, le) = see_check-keeps x m p h in
      let (c, there, le') = see_checks-keeps checks (see_check m x) q at in (c, there, omega arith)

  see_check-full :
      (x : ScratchCheck) (m : List (String × ScratchCheck))
      → contains f x.files ≡ true
      → (c : ScratchCheck) × (lookup f (see_check m x) ≡ some c) × (x.timestamp ≤ c.timestamp)
  unfolding see_check
  see_check-full x m on = elim (Option-cases (lookup f m)) [
    | inl none_yet ↦ (x, ground (arith, lookup-see_files x x.files m f), omega arith)
    | inr (p, was) ↦ elim (Bool-cases (leb x.timestamp p.timestamp)) [
      | inl older ↦ (p, ground (arith, lookup-see_files x x.files m f), ground arith)
      | inr later ↦ (x, ground (arith, lookup-see_files x x.files m f), omega arith)
    ]
  ]

  pub see_checks-full :
      (checks : List ScratchCheck) (m : List (String × ScratchCheck)) (x : ScratchCheck)
      → Memᴰ x checks
      → contains f x.files ≡ true
      → (c : ScratchCheck) × (lookup f (foldl see_check m checks) ≡ some c)
        × (x.timestamp ≤ c.timestamp)
  see_checks-full [] m x h on = absurd (Memᴰ.not-nil h)
  see_checks-full (y ∷ checks) m x h on = elim (Memᴰ.cases_cons h) [
    | inr r ↦ see_checks-full checks (see_check m y) x r on
    | inl e ↦
        let (p, at, le) = see_check-full x m on in
        let (c, there, le') = see_checks-keeps checks (see_check m x) p at in
        (
          c,
          subst (λ z. lookup f (foldl see_check (see_check m z) checks) ≡ some c) e there,
          omega arith,
        )
  ]

pub see_checks-unique :
    (checks : List ScratchCheck) (m : List (String × ScratchCheck))
    → unique (keys m) ≡ true
    → unique (keys (foldl see_check m checks)) ≡ true
unfolding see_check
see_checks-unique [] m u = u
see_checks-unique (c ∷ checks) m u =
    see_checks-unique checks (see_check m c) (unique-see_files c c.files m u)
