-- ===== src/Scratch.antt =====
-- armin-core/engine/src/toolclass.rs: `Scratch`, each session's recent edits and checks in memory.
-- Each method holds the lock for its whole body.
pub mod Bounds
pub mod Reads
use armin.Prelude.{
  ℕ, suc, ◌+◌, ◌-◌, ◌≡◌, refl, String, Bool, true, false, Option, none, some, List, [], ◌∷◌, ◌++◌,
  lookup, insert, remove, length, drop, contains, ltb, if◌then◌else◌, ◌==◌, String_Eq,
}
use armin.Types.Scratch.{ScratchEdit, ScratchCheck, ScratchSnapshot}

abbrev pub max_entries : ℕ
max_entries = 100

abbrev pub max_sessions : ℕ
max_sessions = 16

pub record SessionScratch : Type 0 where
  pub edits : List ScratchEdit
  pub checks : List ScratchCheck

abbrev pub no_scratch : SessionScratch
no_scratch = record { edits = []; checks = [] }

pub record ScratchInner : Type 0 where
  pub sessions : List (String × SessionScratch)
  -- session identifiers, least recently active first
  pub lru : List String

abbrev pub empty : ScratchInner
empty = record { sessions = []; lru = [] }

-- `lru.back() == Some(session)`
unfoldable pub ends_with : List String → String → Bool
ends_with [] x = false
ends_with (y ∷ []) x = y == x
ends_with (y ∷ z ∷ l) x = ends_with (z ∷ l) x

-- `lru.remove(position)`: the first occurrence goes, if there is one
unfoldable pub remove_first : String → List String → List String
remove_first x [] = []
remove_first x (y ∷ l) = if y == x then l else y ∷ remove_first x l

-- `while lru.len() > MAX_SESSIONS`: the least recent sessions go, with their scratch
unfoldable pub evict : List (String × SessionScratch) → List String → ScratchInner
evict m [] = record { sessions = m; lru = [] }
evict m (old ∷ l) =
    if ltb max_sessions (length (old ∷ l))
    then evict (remove old m) l
    else record { sessions = m; lru = old ∷ l }

-- the part of `session_mut` under its test
unfoldable pub touch : ScratchInner → String → ScratchInner
touch s session =
    if ends_with s.lru session
    then s
    else evict s.sessions (remove_first session s.lru ++ session ∷ [])

-- `sessions.entry(session).or_default()`
abbrev pub entry : ScratchInner → String → SessionScratch
entry s session = elim (lookup session s.sessions) [ none ↦ no_scratch | some e ↦ e ]

-- `session_mut`, and a write through the reference that it returns
unfoldable pub update : ScratchInner → String → (SessionScratch → SessionScratch) → ScratchInner
update s session f =
    let t = touch s session in
    record t { sessions = insert session (f (entry t session)) t.sessions }

-- `push_back`, and `pop_front` past the cap
unfoldable pub push {ℓ} : {A : Type ℓ} → A → List A → List A
push x l = let l' = l ++ x ∷ [] in if ltb max_entries (length l') then drop 1 l' else l'

unfoldable pub record_edit : ScratchInner → String → ScratchEdit → ScratchInner
record_edit s session edit = update s session (λ e. record e { edits = push edit e.edits })

unfoldable pub record_check : ScratchInner → String → ScratchCheck → ScratchInner
record_check s session check = update s session (λ e. record e { checks = push check e.checks })

unfoldable pub snapshot : ScratchInner → String → ScratchSnapshot
snapshot s session = elim (lookup session s.sessions) [
  | some e ↦ record { edits = e.edits; checks = e.checks }
  | none ↦ record { edits = []; checks = [] }
]

-- a sequence of calls, for any sessions
pub data Entry : Type 0 where
  edited : String → ScratchEdit → Entry
  checked : String → ScratchCheck → Entry

unfoldable pub run : ScratchInner → List Entry → ScratchInner
run s [] = s
run s (edited session edit ∷ entries) = run (record_edit s session edit) entries
run s (checked session check ∷ entries) = run (record_check s session check) entries
