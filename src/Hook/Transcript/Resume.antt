-- ===== src/Hook/Transcript/Resume.antt =====
-- armin-core/hook/src/transcript.rs, `read_new`: call by call, nothing is lost and nothing read twice.
use mathlib.Core.List.{append-nil, append_assoc}
use armin.Prelude.{
  ℕ, ◌+◌, ◌≤◌, ◌≡◌, refl, ap, sym, ◌∙◌, subst, ◌⊎◌, inl, inr, String, Bool, Option, none, some,
  List, [], ◌∷◌, ◌++◌, length, length-append, length-drop, drop, ltb, leb, if◌then◌else◌, ℕ_Eq,
  arith, Bool-cases, Option-cases,
}
use armin.Text.{Unicode}
use armin.Hook.Transcript.{
  Bytes, SerdeJson, TranscriptTail, line_texts, split_lines, read_lines, read_new,
}
use armin.Hook.Transcript.Lines.{
  AllLines, concat, split_lines-AllLines, split_lines-lines, drop_append, drop_sum, drop-append_le,
  AllLines-left, tail-no_lines, rest_of,
}

module _ ⦃u : Unicode⦄ ⦃j : SerdeJson⦄ where
  abbrev added : Option (List String) → List String
  added none = []
  added (some ts) = ts

  abbrev lines_texts : List Bytes → List String
  lines_texts [] = []
  lines_texts (l ∷ ls) = added (line_texts l) ++ lines_texts ls

  -- The assistant's texts in some bytes: those of the complete lines, in order.
  abbrev pub prose : Bytes → List String
  prose bs = lines_texts (split_lines bs).0

  lines_texts-append :
      (ls ms : List Bytes) → lines_texts (ls ++ ms) ≡ lines_texts ls ++ lines_texts ms
  lines_texts-append [] ms = refl
  lines_texts-append (l ∷ ls) ms =
      ap (λ x. added (line_texts l) ++ x) (lines_texts-append ls ms)
      ∙ sym (append_assoc (added (line_texts l)) (lines_texts ls) (lines_texts ms))

  -- what the loop does: it takes some of the lines, with all that they hold
  record Takes (max : ℕ) (reset : Bool) (texts : List String) (offset : ℕ) (ls : List Bytes)
      (t : TranscriptTail) : Type 0 where
    taken : List Bytes
    left : List Bytes
    parts : ls ≡ taken ++ left
    cursor : t.new_cursor ≡ offset + length (concat taken)
    found : t.texts ≡ texts ++ lines_texts taken
    same : t.reset ≡ reset
    stops : (max ≤ length t.texts) ⊎ (left ≡ [])

  Takes-step :
      (max : ℕ) (reset : Bool) (texts ts : List String) (offset : ℕ) (l : Bytes) (ls : List Bytes)
      (t : TranscriptTail)
      → added (line_texts l) ≡ ts
      → Takes max reset (texts ++ ts) (offset + length l) ls t
      → Takes max reset texts offset (l ∷ ls) t
  Takes-step max reset texts ts offset l ls t e h = record {
    taken = l ∷ h.taken;
    left = h.left;
    parts = ap (◌∷◌ l) h.parts;
    cursor = h.cursor ∙ omega (arith, length-append l (concat h.taken));
    found =
        h.found
        ∙ append_assoc texts ts (lines_texts h.taken)
        ∙ ap (λ x. texts ++ (x ++ lines_texts h.taken)) (sym e);
    same = h.same;
    stops = h.stops;
  }

  Takes-done :
      (max : ℕ) (reset : Bool) (texts : List String) (offset : ℕ) (ls : List Bytes)
      → (max ≤ length texts) ⊎ (ls ≡ [])
      → Takes max reset texts offset ls
          (record { texts = texts; new_cursor = offset; reset = reset })
  Takes-done max reset texts offset ls stop = record {
    taken = [];
    left = ls;
    parts = refl;
    cursor = omega arith;
    found = sym (append-nil texts);
    same = refl;
    stops = stop;
  }

  read_lines-Takes :
      (max : ℕ) (reset : Bool) (texts : List String) (offset : ℕ) (ls : List Bytes)
      → Takes max reset texts offset ls (read_lines max reset texts offset ls)
  unfolding read_lines
  read_lines-Takes max reset texts offset [] = Takes-done max reset texts offset [] (inr refl)
  read_lines-Takes max reset texts offset (l ∷ ls) = elim (Option-cases (line_texts l)) [
    | inl e ↦ Takes-step max reset texts [] offset l ls _ (rw e refl) (
        rw (e, append-nil texts, read_lines)
          (read_lines-Takes max reset texts (offset + length l) ls))
    | inr (ts, e) ↦
        Takes-step max reset texts ts offset l ls _ (rw e refl)
          (elim (Bool-cases (leb max (length (texts ++ ts)))) [
            | inl full ↦
                rw (e, full, read_lines)
                  (Takes-done max reset (texts ++ ts) (offset + length l) ls (inl (ground arith)))
            | inr room ↦
                rw (e, room, read_lines)
                  (read_lines-Takes max reset (texts ++ ts) (offset + length l) ls)
          ])
  ]

  -- A read starts at the cursor, or at 0 and with `reset` if the file is shorter. It leaves the cursor
  -- in the file and not before the start; the texts that it returns, followed by those that are left
  -- behind the new cursor, are those behind the start, also if the file has grown since; and it
  -- returns fewer than `max_texts` texts only if no complete line behind the new cursor has a text.
  pub read_new-prose :
      (file more : Bytes) (cursor max_texts : ℕ)
      → let start : ℕ = if ltb (length file) cursor then 0 else cursor in
        (t : TranscriptTail) × (read_new (some file) cursor max_texts ≡ some t)
        × (t.reset ≡ ltb (length file) cursor)
        × (start ≤ t.new_cursor)
        × (t.new_cursor ≤ length file)
        × (t.texts ++ prose (drop t.new_cursor (file ++ more)) ≡ prose (drop start (file ++ more)))
        × ((max_texts ≤ length t.texts) ⊎ (prose (drop t.new_cursor file) ≡ []))
  unfolding read_new
  read_new-prose file more cursor max_texts =
      (t, refl, h.same, omega (arith, h.cursor), inside, resumed more, enough)
    where
      start : ℕ
      start = if ltb (length file) cursor then 0 else cursor

      bs : Bytes
      bs = drop start file

      t : TranscriptTail
      t = read_lines max_texts (ltb (length file) cursor) [] start (split_lines bs).0

      h : Takes max_texts (ltb (length file) cursor) [] start (split_lines bs).0 t
      h = read_lines-Takes max_texts (ltb (length file) cursor) [] start (split_lines bs).0

      in_file : start ≤ length file
      in_file = ground arith

      parts : bs ≡ concat h.taken ++ (concat h.left ++ (split_lines bs).1)
      parts = rest_of bs h.taken h.left h.parts

      behind :
          (m : Bytes) → drop t.new_cursor (file ++ m) ≡ (concat h.left ++ (split_lines bs).1) ++ m
      behind m =
          ap (λ n. drop n (file ++ m)) h.cursor
          ∙ drop_sum start (length (concat h.taken)) (file ++ m)
          ∙ ap (drop (length (concat h.taken))) (
              drop-append_le start file m in_file
              ∙ ap (λ x. x ++ m) parts
              ∙ append_assoc (concat h.taken) (concat h.left ++ (split_lines bs).1) m)
          ∙ drop_append (concat h.taken) ((concat h.left ++ (split_lines bs).1) ++ m)

      inside : t.new_cursor ≤ length file
      inside = omega (
        arith,
        h.cursor,
        in_file,
        length-drop start file,
        ap length parts,
        length-append (concat h.taken) (concat h.left ++ (split_lines bs).1),
      )

      lines_ok : AllLines h.taken
      lines_ok = AllLines-left h.taken h.left (subst AllLines h.parts (split_lines-AllLines bs))

      resumed :
          (m : Bytes)
          → t.texts ++ prose (drop t.new_cursor (file ++ m)) ≡ prose (drop start (file ++ m))
      resumed m =
          ap (λ x. x ++ prose (drop t.new_cursor (file ++ m))) h.found
          ∙ ap (λ x. lines_texts h.taken ++ prose x) (behind m)
          ∙ sym (
              lines_texts-append h.taken
                (split_lines ((concat h.left ++ (split_lines bs).1) ++ m)).0)
          ∙ ap lines_texts (
              sym (split_lines-lines h.taken ((concat h.left ++ (split_lines bs).1) ++ m) lines_ok))
          ∙ ap prose (
              sym (append_assoc (concat h.taken) (concat h.left ++ (split_lines bs).1) m)
              ∙ ap (λ x. x ++ m) (sym parts)
              ∙ sym (drop-append_le start file m in_file))

      enough : (max_texts ≤ length t.texts) ⊎ (prose (drop t.new_cursor file) ≡ [])
      enough = elim h.stops [
        | inl full ↦ inl full
        | inr none_left ↦ inr (
            ap (λ x. prose (drop t.new_cursor x)) (sym (append-nil file))
            ∙ ap prose
                (behind [] ∙ append-nil _ ∙ ap (λ x. concat x ++ (split_lines bs).1) none_left)
            ∙ ap lines_texts (tail-no_lines bs))
      ]
