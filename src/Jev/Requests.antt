-- ===== src/Jev/Requests.antt =====
-- armin-core/extraction/src/jev.rs, `extract_native_batch`: which request is about what.
use mathlib.Core.List.{append_assoc}
use armin.Prelude.{
  ℕ, zero, suc, ◌+◌, ◌*◌, ◌<◌, ◌≡◌, ap, sym, ◌∙◌, subst, inl, inr, String, true, some, List, [],
  ◌∷◌, ◌++◌, Memᴰ, length, length-append, get_elem?, leb, arith, Bool-cases,
}
use armin.Text.{Unicode}
use armin.Tools.{EventRecord}
use armin.Engine.Config.{JevNativeConfig}
use armin.Jev.{split_sentences}
use armin.Jev.Batch.{chunks_from}

abbrev pub request_count : List String → ℕ
request_count [] = 0
request_count (s ∷ sentences) = 1

module _ ⦃u : Unicode⦄ (cfg : JevNativeConfig) where
  abbrev pub sentences_of : EventRecord → List String
  sentences_of event = split_sentences event.text cfg.min_sentence_words cfg.max_sentences_per_event

  -- a scan makes one request for each event that has a sentence
  abbrev pub requests : List EventRecord → ℕ
  requests [] = 0
  requests (event ∷ events) = request_count (sentences_of event) + requests events

  pub requests-concat :
      (events : List EventRecord) (event : EventRecord)
      → requests (events ++ event ∷ []) ≡ requests events + request_count (sentences_of event)
  requests-concat [] event = omega arith
  requests-concat (e ∷ events) event = omega (arith, requests-concat events event)

module _ {ℓ} {A : Type ℓ} where
  pub get_elem?-Memᴰ : (l : List A) (i : ℕ) (a : A) → get_elem? l i ≡ some a → Memᴰ a l
  get_elem?-Memᴰ [] i a e = absurd (ground (arith, e))
  get_elem?-Memᴰ (b ∷ l) zero a e = Memᴰ.head (cc)
  get_elem?-Memᴰ (b ∷ l) (suc i) a e = Memᴰ.tail (get_elem?-Memᴰ l i a e)

  get_elem?-append_left :
      (l m : List A) (i : ℕ) (a : A)
      → get_elem? l i ≡ some a
      → (get_elem? (l ++ m) i ≡ some a) × (i < length l)
  get_elem?-append_left [] m i a e = absurd (ground (arith, e))
  get_elem?-append_left (b ∷ l) m zero a e = (e, omega arith)
  get_elem?-append_left (b ∷ l) m (suc i) a e =
      let (at, lt) = get_elem?-append_left l m i a e in (at, omega (arith, lt))

  get_elem?-append_right :
      (l m : List A) (i : ℕ) → get_elem? (l ++ m) (length l + i) ≡ get_elem? m i
  get_elem?-append_right [] m i = let e : 0 + i ≡ i = omega arith in ap (get_elem? m) e
  get_elem?-append_right (b ∷ l) m i =
      let e : suc (length l) + i ≡ suc (length l + i) = omega arith in
      ap (get_elem? (b ∷ l ++ m)) e ∙ get_elem?-append_right l m i

  full_chunk :
      (cut : List A) (b : A) (l : List A) (c : ℕ) (chunk : List A) (k : ℕ) (x : A)
      → leb 15 (length (cut ++ b ∷ [])) ≡ true
      → length cut < 15
      → get_elem? ((cut ++ b ∷ []) ∷ chunks_from 15 [] l) c ≡ some chunk
      → get_elem? chunk k ≡ some x
      → ((c' : ℕ)
          → get_elem? (chunks_from 15 [] l) c' ≡ some chunk
          → (get_elem? l (c' * 15 + k) ≡ some x) × (k < 15))
      → (get_elem? (cut ++ b ∷ l) (c * 15 + k) ≡ some x) × (k < 15)
  full_chunk cut b l zero chunk k x full short e at later =
      let same : cut ++ b ∷ [] ≡ chunk = cc in
      let (there, lt) =
        get_elem?-append_left (cut ++ b ∷ []) l k x
          (subst (λ m. get_elem? m k ≡ some x) (sym same) at) in
      let at_start : 0 * 15 + k ≡ k = omega arith in
      (
        ap (get_elem? (cut ++ b ∷ l)) at_start
            ∙ ap (λ m. get_elem? m k) (sym (append_assoc cut (b ∷ []) l))
            ∙ there,
        omega (arith, lt, length-append cut (b ∷ [])),
      )
  full_chunk cut b l (suc c) chunk k x full short e at later =
      let (there, lt) = later c e in
      let fifteen : length (cut ++ b ∷ []) ≡ 15 =
        ground (arith, full, length-append cut (b ∷ [])) in
      let place : suc c * 15 + k ≡ length (cut ++ b ∷ []) + (c * 15 + k) = omega (arith, fifteen) in
      (
        ap (λ m. get_elem? m (suc c * 15 + k)) (sym (append_assoc cut (b ∷ []) l))
            ∙ ap (get_elem? ((cut ++ b ∷ []) ++ l)) place
            ∙ get_elem?-append_right (cut ++ b ∷ []) l (c * 15 + k)
            ∙ there,
        lt,
      )

  -- the chunks of fifteen in order are the list
  pub get_elem?-chunks_from :
      (cut l : List A) (c : ℕ) (chunk : List A) (k : ℕ) (x : A)
      → length cut < 15
      → get_elem? (chunks_from 15 cut l) c ≡ some chunk
      → get_elem? chunk k ≡ some x
      → (get_elem? (cut ++ l) (c * 15 + k) ≡ some x) × (k < 15)
  unfolding chunks_from
  get_elem?-chunks_from [] [] c chunk k x short e at = absurd (ground (arith, e))
  get_elem?-chunks_from (a ∷ cut) [] zero chunk k x short e at =
      let same : a ∷ cut ≡ chunk = cc in
      let (there, lt) =
        get_elem?-append_left (a ∷ cut) [] k x
          (subst (λ l. get_elem? l k ≡ some x) (sym same) at) in
      let at_start : 0 * 15 + k ≡ k = omega arith in
      (ap (get_elem? ((a ∷ cut) ++ [])) at_start ∙ there, omega (arith, lt))
  get_elem?-chunks_from (a ∷ cut) [] (suc c) chunk k x short e at = absurd (ground (arith, e))
  get_elem?-chunks_from cut (b ∷ l) c chunk k x short e at =
      elim (Bool-cases (leb 15 (length (cut ++ b ∷ [])))) [
        | inr t ↦
            let (there, lt) =
              get_elem?-chunks_from (cut ++ b ∷ []) l c chunk k x (ground (arith, t))
                (rw (t, chunks_from) at e) at in
            (ap (λ m. get_elem? m (c * 15 + k)) (sym (append_assoc cut (b ∷ []) l)) ∙ there, lt)
        | inl t ↦
            full_chunk cut b l c chunk k x t short (rw (t, chunks_from) at e) at
              (λ c' e'. get_elem?-chunks_from [] l c' chunk k x (omega arith) e' at)
      ]
