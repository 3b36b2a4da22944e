-- ===== src/Jev/Client/Retries.antt =====
-- armin-core/extraction/src/jev.rs, `ask`: when a request is repeated, and how often.
use armin.Prelude.{
  ℕ, ◌<◌, ◌≡◌, ◌⊎◌, refl, inl, inr, Bool, true, false, not, List, [], ◌∷◌, take, leb, if◌then◌else◌,
  ap, ◌∙◌, suc, arith, Bool-cases,
}
use armin.Prelude.Results.{err}
use armin.Jev.Client.{
  JevClient, Reply, no_reply, reply, exhausted_retries, is_retryable, settled, Asked, waited,
  backoff, attempts, ask,
}

-- an attempt that ends the loop
abbrev pub is_final : Reply → Bool
is_final no_reply = false
is_final (reply status text parsed) = not (is_retryable status)

-- the outcome of such an attempt
abbrev pub verdict : JevClient → Reply → Asked
verdict client no_reply = (client, err exhausted_retries)
verdict client (reply status text parsed) = settled client status text parsed

abbrev pub waits : List ℕ
waits = 500 ∷ 1000 ∷ []

module _ (replies : ℕ → Reply) (client : JevClient) where
  one : is_final (replies 0) ≡ false → (i : ℕ) → i < 1 → is_final (replies i) ≡ false
  one a i le = let same : i ≡ 0 = omega arith in ap (λ j. is_final (replies j)) same ∙ a

  two :
      is_final (replies 0) ≡ false
      → is_final (replies 1) ≡ false
      → (i : ℕ) → i < 2
      → is_final (replies i) ≡ false
  two a c i le = elim (Bool-cases (leb i 0)) [
    | inl t ↦ one a i (ground (arith, t))
    | inr t ↦ let same : i ≡ 1 = ground (arith, t, le) in ap (λ j. is_final (replies j)) same ∙ c
  ]

  three :
      is_final (replies 0) ≡ false
      → is_final (replies 1) ≡ false
      → is_final (replies 2) ≡ false
      → (i : ℕ) → i < 3
      → is_final (replies i) ≡ false
  three a c d i le = elim (Bool-cases (leb i 1)) [
    | inl t ↦ two a c i (ground (arith, t))
    | inr t ↦ let same : i ≡ 2 = ground (arith, t, le) in ap (λ j. is_final (replies j)) same ∙ d
  ]

  final_attempt :
      (left a delay : ℕ)
      → is_final (replies a) ≡ true
      → attempts (suc left) a delay replies client
        ≡ waited (backoff a delay).0 ([], verdict client (replies a))
  unfolding attempts
  final_attempt left a delay = go (replies a)
    where
      go :
          (r : Reply)
          → is_final r ≡ true
          → waited (backoff a delay).0 (elim r [
            | no_reply ↦ attempts left (suc a) (backoff a delay).1 replies client
            | reply status text parsed ↦
                if is_retryable status
                then attempts left (suc a) (backoff a delay).1 replies client
                else ([], settled client status text parsed)
          ])
            ≡ waited (backoff a delay).0 ([], verdict client r)
      go no_reply e = absurd (ground (arith, e))
      go (reply status text parsed) e = elim (Bool-cases (is_retryable status)) [
        | inl t ↦ absurd (ground (arith, e, t))
        | inr t ↦ rw t refl
      ]

  next_attempt :
      (left a delay : ℕ)
      → is_final (replies a) ≡ false
      → attempts (suc left) a delay replies client
        ≡ waited (backoff a delay).0 (attempts left (suc a) (backoff a delay).1 replies client)
  unfolding attempts
  next_attempt left a delay = go (replies a)
    where
      go :
          (r : Reply)
          → is_final r ≡ false
          → waited (backoff a delay).0 (elim r [
            | no_reply ↦ attempts left (suc a) (backoff a delay).1 replies client
            | reply status text parsed ↦
                if is_retryable status
                then attempts left (suc a) (backoff a delay).1 replies client
                else ([], settled client status text parsed)
          ])
            ≡ waited (backoff a delay).0 (attempts left (suc a) (backoff a delay).1 replies client)
      go no_reply e = refl
      go (reply status text parsed) e = elim (Bool-cases (is_retryable status)) [
        | inl t ↦ rw t refl
        | inr t ↦ absurd (ground (arith, e, t))
      ]

  -- One of two: the attempt `k`, of three, is the first that gets a response that is not to be retried;
  -- it decides, after `k` waits, the first of half a second and the second twice as long. Or none of
  -- the three gets such a response, and the request fails, with the meters as they were.
  pub ask_lem :
      ((k : ℕ) × (k < 3)
        × ((i : ℕ) → i < k → is_final (replies i) ≡ false)
        × (is_final (replies k) ≡ true)
        × (ask replies client ≡ (take k waits, verdict client (replies k))))
      ⊎ (((i : ℕ) → i < 3 → is_final (replies i) ≡ false)
          × (ask replies client ≡ (waits, (client, err exhausted_retries))))
  unfolding ask
  ask_lem = elim (Bool-cases (is_final (replies 0))) [
    | inl a ↦ inl (0, omega arith, λ i le. absurd (omega arith), a, final_attempt 2 0 500 a)
    | inr a ↦ elim (Bool-cases (is_final (replies 1))) [
      | inl c ↦ inl (
        1,
        omega arith,
        one a,
        c,
        next_attempt 2 0 500 a ∙ ap (waited []) (final_attempt 1 1 500 c),
      )
      | inr c ↦ elim (Bool-cases (is_final (replies 2))) [
        | inl d ↦ inl (
          2,
          omega arith,
          two a c,
          d,
          next_attempt 2 0 500 a
              ∙ ap (waited [])
                  (next_attempt 1 1 500 c ∙ ap (waited (500 ∷ [])) (final_attempt 0 2 1000 d)),
        )
        | inr d ↦ inr (
          three a c d,
          next_attempt 2 0 500 a
              ∙ ap (waited []) (
                  next_attempt 1 1 500 c
                  ∙ ap (waited (500 ∷ []))
                      (next_attempt 0 2 1000 d ∙ ap (waited (1000 ∷ [])) none_left)),
        )
      ]
    ]
  ]
    where
      none_left : attempts 0 3 2000 replies client ≡ ([], (client, err exhausted_retries))
      none_left = unfold attempts in refl
