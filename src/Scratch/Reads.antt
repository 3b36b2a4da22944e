-- ===== src/Scratch/Reads.antt =====
-- armin-core/engine/src/toolclass.rs: what a session's snapshot shows after a record.
use armin.Prelude.{
  ℕ, ◌-◌, drop, Option-cases, ◌≤◌, ◌≡◌, refl, inl, inr, String, Bool, false, none, List, [], ◌∷◌,
  ◌++◌, arith, lookup, remove, lookup-insert, lookup-remove, length, length-append, contains, ltb,
  leb, if◌then◌else◌, ◌==◌, String_Eq, eq_iff, not, ◌&&◌, Bool-cases,
}
use armin.Types.Scratch.{ScratchEdit, ScratchCheck, ScratchSnapshot}
use armin.Scratch.{
  SessionScratch, ScratchInner, max_entries, max_sessions, ends_with, remove_first, evict, touch,
  entry, update, push, record_edit, record_check, snapshot,
}
use armin.Scratch.Bounds.{IsBounded, contains-ends_with, length-remove_first}

-- whether the list starts with the session
abbrev pub starts_with : List String → String → Bool
starts_with [] x = false
starts_with (y ∷ l) x = y == x

-- A call for `session` makes `x` go: the list is full, `session` is not on it, and `x` is first.
abbrev pub is_evicted : ScratchInner → String → String → Bool
is_evicted s session x =
    not (contains session s.lru) && leb max_sessions (length s.lru) && starts_with s.lru x

evict-fits :
    (m : List (String × SessionScratch)) (l : List String)
    → length l ≤ max_sessions
    → evict m l ≡ record { sessions = m; lru = l }
unfolding evict
evict-fits m [] h = refl
evict-fits m (old ∷ l) h = ground arith

remove_first-absent : (x : String) (l : List String) → contains x l ≡ false → remove_first x l ≡ l
unfolding remove_first
remove_first-absent x [] h = refl
remove_first-absent x (y ∷ l) h = ground (arith, remove_first-absent x l)

lookup-evict :
    (m : List (String × SessionScratch)) (l : List String) (session x : String)
    → length l ≤ max_sessions
    → lookup x (evict m (l ++ session ∷ [])).sessions
      ≡ (if leb max_sessions (length l) && starts_with l x then none else lookup x m)
unfolding evict
lookup-evict m [] session x h = ground arith
lookup-evict m (old ∷ l) session x h =
    elim (Bool-cases (ltb max_sessions (length (old ∷ l ++ session ∷ [])))) [
      | inr fits ↦ ground (arith, length-append l (session ∷ []))
      | inl over ↦ ground (
        arith,
        length-append l (session ∷ []),
        evict-fits (remove old m) (l ++ session ∷ []),
        lookup-remove old x m,
      )
    ]

lookup-touch :
    (s : ScratchInner) (session x : String)
    → IsBounded s
    → lookup x (touch s session).sessions
      ≡ (if is_evicted s session x then none else lookup x s.sessions)
unfolding touch
lookup-touch s session x b = elim (Bool-cases (ends_with s.lru session)) [
  | inl last ↦ rw (last, touch) (ground (arith, contains-ends_with s.lru session last))
  | inr other ↦
      rw (other, touch)
        (elim (Bool-cases (contains session s.lru)) [
          | inl known ↦ ground (
            arith,
            lookup-evict s.sessions (remove_first session s.lru) session x,
            length-remove_first session s.lru,
            b.lru_length,
          )
          | inr new ↦
              rw (remove_first-absent session s.lru new)
                (ground (arith, lookup-evict s.sessions s.lru session x b.lru_length))
        ])
]

abbrev pub no_snapshot : ScratchSnapshot
no_snapshot = record { edits = []; checks = [] }

not-evicted_self : (l : List String) (x : String) → contains x l ≡ false → starts_with l x ≡ false
not-evicted_self [] x h = refl
not-evicted_self (y ∷ l) x h = ground arith

-- the last `n` entries
abbrev pub last_n {ℓ} : {A : Type ℓ} → ℕ → List A → List A
last_n n l = drop (length l - n) l

push-last_n {ℓ} :
    {A : Type ℓ} (x : A) (l : List A)
    → length l ≤ max_entries
    → push x l ≡ last_n max_entries (l ++ x ∷ [])
unfolding push
push-last_n x l h = elim (Bool-cases (ltb max_entries (length (l ++ x ∷ [])))) [
  | inl over ↦
      let one : length (l ++ x ∷ []) - max_entries ≡ 1 =
        ground (arith, length-append l (x ∷ []), over) in
      rw (over, one) refl
  | inr fits ↦
      let none_over : length (l ++ x ∷ []) - max_entries ≡ 0 = ground (arith, fits) in
      rw (fits, none_over) refl
]

snapshot-IsSmall :
    (s : ScratchInner) (session : String)
    → IsBounded s
    → (length (snapshot s session).edits ≤ max_entries)
      × (length (snapshot s session).checks ≤ max_entries)
unfolding snapshot
snapshot-IsSmall s session b = elim (Option-cases (lookup session s.sessions)) [
  | inl e ↦ ground (arith, e)
  | inr (x, e) ↦
      let h = b.small session x e in
      let edits : length x.edits ≤ max_entries = h.edits in
      let checks : length x.checks ≤ max_entries = h.checks in ground (arith, e, edits, checks)
]

-- Recording an edit for a session appends it to the session's edits, of which only the latest 100
-- stay, and leaves the session's checks alone. Every other session reads as before, except that if
-- this one was new and 16 others had a scratch, the least recently active of them reads as empty.
pub snapshot-record_edit :
    (s : ScratchInner) (session : String) (edit : ScratchEdit) (x : String)
    → IsBounded s
    → snapshot (record_edit s session edit) x ≡ (
        if session == x
        then record {
          edits = last_n 100 ((snapshot s x).edits ++ edit ∷ []);
          checks = (snapshot s x).checks;
        }
        else if is_evicted s session x
        then no_snapshot
        else snapshot s x)
unfolding record_edit update snapshot
snapshot-record_edit s session edit x b = ground (
  arith,
  push-last_n edit (snapshot s x).edits (snapshot-IsSmall s x b).0,
  lookup-insert session x
      (record (entry (touch s session) session) {
        edits = push edit (entry (touch s session) session).edits;
      })
      (touch s session).sessions,
  lookup-touch s session x b,
  lookup-touch s session session b,
  not-evicted_self s.lru session,
  eq_iff session x,
)

-- Recording a check for a session appends it to the session's checks, of which only the latest 100
-- stay, and leaves the session's edits alone. Every other session reads as before, except that if
-- this one was new and 16 others had a scratch, the least recently active of them reads as empty.
pub snapshot-record_check :
    (s : ScratchInner) (session : String) (check : ScratchCheck) (x : String)
    → IsBounded s
    → snapshot (record_check s session check) x ≡ (
        if session == x
        then record { edits = (snapshot s x).edits; checks = push check (snapshot s x).checks }
        else if is_evicted s session x
        then no_snapshot
        else snapshot s x)
unfolding record_check update snapshot
snapshot-record_check s session check x b = ground (
  arith,
  lookup-insert session x
      (record (entry (touch s session) session) {
        checks = push check (entry (touch s session) session).checks;
      })
      (touch s session).sessions,
  lookup-touch s session x b,
  lookup-touch s session session b,
  not-evicted_self s.lru session,
  eq_iff session x,
)
