-- ===== src/Scratch/Bounds.antt =====
-- armin-core/engine/src/toolclass.rs: `Scratch` stays within its bounds.
use armin.Prelude.{
  ◌+◌, ◌≤◌, ◌≡◌, refl, sym, ◌≢◌, inl, inr, String, true, none, some, List, [], ◌∷◌, ◌++◌, arith,
  lookup, remove, lookup-insert, lookup-remove, length, length-append, length-drop, contains,
  contains-append, unique, unique-concat, is_some, ltb, if◌then◌else◌, ◌==◌, String_Eq, eq_iff, not,
  ◌&&◌, ◌||◌, Bool-cases, Option-cases,
}
use armin.Types.Scratch.{ScratchEdit, ScratchCheck}
use armin.Scratch.{
  SessionScratch, ScratchInner, empty, max_entries, max_sessions, ends_with, remove_first, evict,
  touch, entry, update, push, record_edit, record_check, Entry, edited, checked, run,
}

pub record IsSmall (e : SessionScratch) : Type 0 where
  pub edits : length e.edits ≤ max_entries
  pub checks : length e.checks ≤ max_entries

pub record IsBounded (s : ScratchInner) : Type 0 where
  -- the activity list names each session that has a scratch, once, and few of them
  pub lru_unique : unique s.lru ≡ true
  pub lru_length : length s.lru ≤ max_sessions
  pub lru_keys : (x : String) → is_some (lookup x s.sessions) ≡ contains x s.lru
  pub small : (x : String) (e : SessionScratch) → lookup x s.sessions ≡ some e → IsSmall e

pub contains-ends_with : (l : List String) (x : String) → ends_with l x ≡ true → contains x l ≡ true
unfolding ends_with
contains-ends_with [] x h = cc
contains-ends_with (y ∷ []) x h = ground arith
contains-ends_with (y ∷ z ∷ l) x h = ground (arith, contains-ends_with (z ∷ l) x)

pub contains-remove_first :
    (x y : String) (l : List String)
    → unique l ≡ true
    → contains y (remove_first x l) ≡ (contains y l && not (x == y))
unfolding remove_first
contains-remove_first x y [] h = refl
contains-remove_first x y (z ∷ l) h =
    ground (arith, contains-remove_first x y l, eq_iff z x, eq_iff z y, eq_iff x y, eq_iff y x)

pub unique-remove_first :
    (x : String) (l : List String) → unique l ≡ true → unique (remove_first x l) ≡ true
unfolding remove_first
unique-remove_first x [] h = refl
unique-remove_first x (z ∷ l) h =
    ground (arith, unique-remove_first x l, contains-remove_first x z l)

pub length-remove_first :
    (x : String) (l : List String)
    → length l ≡ length (remove_first x l) + (if contains x l then 1 else 0)
unfolding remove_first
length-remove_first x [] = refl
length-remove_first x (z ∷ l) = ground (arith, length-remove_first x l)

-- The eviction loop keeps the activity list's end: with `n` names too many, the first `n` go, and
-- with them their scratch.
record Evicts (m : List (String × SessionScratch)) (l : List String) (t : ScratchInner)
    : Type 0 where
  short : length t.lru ≤ max_sessions
  unique_left : unique l ≡ true → unique t.lru ≡ true
  within : (x : String) → contains x t.lru ≡ true → contains x l ≡ true
  gone :
      (x : String)
      → lookup x t.sessions ≡ (if contains x l && not (contains x t.lru) then none else lookup x m)

evict-Evicts :
    (m : List (String × SessionScratch)) (l : List String)
    → unique l ≡ true
    → Evicts m l (evict m l)
unfolding evict
evict-Evicts m [] h = record {
  short = omega arith;
  unique_left = λ u. u;
  within = λ x c. c;
  gone = λ x. refl;
}
evict-Evicts m (old ∷ l) h = elim (Bool-cases (ltb max_sessions (length (old ∷ l)))) [
  | inr fits ↦
      rw (fits, evict)
        record {
          short = ground arith;
          unique_left = λ u. u;
          within = λ x c. c;
          gone = λ x. ground arith;
        }
  | inl over ↦
      let rest = evict-Evicts (remove old m) l (ground arith) in
      rw (over, evict)
        record {
          short = rest.short;
          unique_left = λ u. rest.unique_left (ground arith);
          within = λ x c. ground (arith, rest.within x c);
          gone =
              λ x. ground (arith, rest.gone x, lookup-remove old x m, eq_iff old x, rest.within x);
        }
]

contains-evict :
    (m : List (String × SessionScratch)) (l : List String) (x : String)
    → contains x (evict m (l ++ x ∷ [])).lru ≡ true
unfolding evict
contains-evict m [] x = ground (arith, eq_iff x x)
contains-evict m (old ∷ l) x =
    ground (arith, contains-evict (remove old m) l x, contains-append x l (x ∷ []), eq_iff x x)

-- what `session_mut` hands out: all sessions but that one are in order
record IsTouched (session : String) (t : ScratchInner) : Type 0 where
  unique_left : unique t.lru ≡ true
  short : length t.lru ≤ max_sessions
  here : contains session t.lru ≡ true
  keys : (x : String) → x ≢ session → is_some (lookup x t.sessions) ≡ contains x t.lru
  small : (x : String) (e : SessionScratch) → lookup x t.sessions ≡ some e → IsSmall e

touch-IsTouched :
    (s : ScratchInner) (session : String) → IsBounded s → IsTouched session (touch s session)
unfolding touch
touch-IsTouched s session b = elim (Bool-cases (ends_with s.lru session)) [
  | inl last ↦
      rw (last, touch)
        record {
          unique_left = b.lru_unique;
          short = b.lru_length;
          here = contains-ends_with s.lru session last;
          keys = λ x _. b.lru_keys x;
          small = b.small;
        }
  | inr other ↦
      let l = remove_first session s.lru ++ session ∷ [] in
      let ev = evict-Evicts s.sessions l distinct in
      rw (other, touch)
        record {
          unique_left = ev.unique_left distinct;
          short = ev.short;
          here = contains-evict s.sessions (remove_first session s.lru) session;
          keys = λ x ne. ground (
            arith,
            ev.gone x,
            ev.within x,
            b.lru_keys x,
            listed x,
            eq_iff session x,
            λ (e : session ≡ x). ne (sym e),
          );
          small = λ x e h. ground (arith, ev.gone x, b.small x e);
        }
]
  where
    listed :
        (x : String)
        → contains x (remove_first session s.lru ++ session ∷ [])
          ≡ (contains x s.lru && not (session == x) || session == x)
    listed x = ground (
      arith,
      contains-append x (remove_first session s.lru) (session ∷ []),
      contains-remove_first session x s.lru b.lru_unique,
    )

    distinct : unique (remove_first session s.lru ++ session ∷ []) ≡ true
    distinct = ground (
      arith,
      unique-concat (remove_first session s.lru) session,
      unique-remove_first session s.lru b.lru_unique,
      contains-remove_first session session s.lru b.lru_unique,
      eq_iff session session,
    )

entry-IsSmall :
    (t : ScratchInner) (session : String) → IsTouched session t → IsSmall (entry t session)
entry-IsSmall t session h = elim (Option-cases (lookup session t.sessions)) [
  | inl e ↦ rw (e, entry) (record { edits = omega arith; checks = omega arith })
  | inr (x, e) ↦ rw (e, entry) (h.small session x e)
]

-- A write through `session_mut` that keeps the session small keeps the scratch bounded.
update-IsBounded :
    (s : ScratchInner) (session : String) (f : SessionScratch → SessionScratch)
    → ((e : SessionScratch) → IsSmall e → IsSmall (f e))
    → IsBounded s
    → IsBounded (update s session f)
unfolding update
update-IsBounded s session f keep b =
    let t = touch-IsTouched s session b in
    let m = (touch s session).sessions in
    let v = f (entry (touch s session) session) in
    record {
      lru_unique = t.unique_left;
      lru_length = t.short;
      lru_keys = λ x. ground (
        arith,
        lookup-insert session x v m,
        t.keys x,
        t.here,
        eq_iff session x,
        λ (e : x ≡ session). sym e,
      );
      small = λ x e h. ground (
        arith,
        lookup-insert session x v m,
        t.small x e,
        keep (entry (touch s session) session) (entry-IsSmall _ session t),
      );
    }

length-push {ℓ} :
    {A : Type ℓ} (x : A) (l : List A) → length l ≤ max_entries → length (push x l) ≤ max_entries
unfolding push
length-push x l h = ground (arith, length-append l (x ∷ []), length-drop 1 (l ++ x ∷ []))

pub record_edit-IsBounded :
    (s : ScratchInner) (session : String) (edit : ScratchEdit)
    → IsBounded s
    → IsBounded (record_edit s session edit)
unfolding record_edit
record_edit-IsBounded s session edit =
    update-IsBounded s session _
      λ e h. record { edits = length-push edit e.edits h.edits; checks = h.checks }

pub record_check-IsBounded :
    (s : ScratchInner) (session : String) (check : ScratchCheck)
    → IsBounded s
    → IsBounded (record_check s session check)
unfolding record_check
record_check-IsBounded s session check =
    update-IsBounded s session _
      λ e h. record { edits = h.edits; checks = length-push check e.checks h.checks }

pub empty-IsBounded : IsBounded empty
empty-IsBounded = record {
  lru_unique = refl;
  lru_length = omega arith;
  lru_keys = λ x. refl;
  small = λ x e h. cc;
}

run_from-IsBounded :
    (entries : List Entry) (s : ScratchInner) → IsBounded s → IsBounded (run s entries)
unfolding run
run_from-IsBounded [] s b = b
run_from-IsBounded (edited session edit ∷ entries) s b =
    run_from-IsBounded entries (record_edit s session edit) (record_edit-IsBounded s session edit b)
run_from-IsBounded (checked session check ∷ entries) s b =
    run_from-IsBounded entries (record_check s session check)
      (record_check-IsBounded s session check b)

-- Whatever edits and checks are recorded for whatever sessions, at most 16 sessions have a scratch,
-- which the activity list names once each, and none holds more than 100 edits or 100 checks.
pub run-IsBounded : (entries : List Entry) → IsBounded (run empty entries)
run-IsBounded entries = run_from-IsBounded entries empty empty-IsBounded
