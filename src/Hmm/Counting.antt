-- ===== src/Hmm/Counting.antt =====
-- The counts of `fit` in forecasting/models/hmm_model.py, and an independent description of them.
use turbo_sh.Common.{
  ℕ, ◌+◌, ◌<◌, ◌==◌, ◌≡◌, refl, sym, ap, ◌∙◌, List, [], ◌∷◌, ◌++◌, append-nil, append_assoc, ℤ, pos,
  eqb_ℤ, if◌then◌else◌, length, Bool-cases, ==_iff, true, false, inl, inr, arith,
}
use turbo_sh.Markov.Counts.{is_transition, occurrences, all_occurrences}
use turbo_sh.Hmm.{
  Counts, is_state, count_start, count_transition, add_observation, count_steps, count_pair_of,
  count_all,
}

-- Whether a sequence of states starts with `a`.
abbrev pub starts_with : ℕ → List ℤ → ℕ
starts_with a [] = 0
starts_with a (s ∷ st_seq) = if eqb_ℤ s (pos a) then 1 else 0

abbrev pub all_starts : ℕ → List (List ℤ) → ℕ
all_starts a [] = 0
all_starts a (st_seq ∷ st_seqs) = starts_with a st_seq + all_starts a st_seqs

-- The observations of a sequence that the states label `a`.
abbrev pub labelled {ℓ} : {O : Type ℓ} → ℕ → List O → List ℤ → List O
labelled a (obs ∷ obs_seq) (s ∷ st_seq) =
    if eqb_ℤ s (pos a) then obs ∷ labelled a obs_seq st_seq else labelled a obs_seq st_seq
labelled a _ _ = []

-- The sequences of states that are as long as those of their observations, and what they label.
abbrev pub used {ℓ} : {O : Type ℓ} → List (List O) → List (List ℤ) → List (List ℤ)
used (obs_seq ∷ obs_seqs) (st_seq ∷ st_seqs) =
    if length st_seq == length obs_seq
    then st_seq ∷ used obs_seqs st_seqs
    else used obs_seqs st_seqs
used _ _ = []

abbrev pub all_labelled {ℓ} : {O : Type ℓ} → ℕ → List (List O) → List (List ℤ) → List O
all_labelled a (obs_seq ∷ obs_seqs) (st_seq ∷ st_seqs) =
    if length st_seq == length obs_seq
    then labelled a obs_seq st_seq ++ all_labelled a obs_seqs st_seqs
    else all_labelled a obs_seqs st_seqs
all_labelled a _ _ = []

is_state-eqb_ℤ : (n a : ℕ) (s : ℤ) → a < n → is_state n a s ≡ eqb_ℤ s (pos a)
is_state-eqb_ℤ n a s lt = ground arith

-- Which counts and observations of a state one step changes.
count_transition-is_transition :
    (n a b : ℕ) (s t : ℤ) (counts : ℕ → ℕ → ℕ)
    → a < n
    → b < n
    → count_transition n s t counts a b ≡ is_transition a b s t + counts a b
count_transition-is_transition n a b s t counts a_lt b_lt =
    rw (is_state-eqb_ℤ n a s a_lt, is_state-eqb_ℤ n b t b_lt) ground arith

count_start-starts_with :
    (n a : ℕ) (s : ℤ) (st_seq : List ℤ) (counts : ℕ → ℕ)
    → a < n
    → count_start n s counts a ≡ starts_with a (s ∷ st_seq) + counts a
count_start-starts_with n a s st_seq counts a_lt = rw (is_state-eqb_ℤ n a s a_lt) ground arith

add_observation-append {ℓ} :
    {O : Type ℓ} (n a : ℕ) (s : ℤ) (obs : O) (buckets : ℕ → List O) (rest : List O)
    → a < n
    → add_observation n s obs buckets a ++ rest
      ≡ buckets a ++ (if eqb_ℤ s (pos a) then obs ∷ rest else rest)
add_observation-append n a s obs buckets rest a_lt =
    rw (is_state-eqb_ℤ n a s a_lt) (elim (Bool-cases (eqb_ℤ s (pos a))) [
      | inl here ↦ rw here (append_assoc (buckets a) (obs ∷ []) rest)
      | inr away ↦ rw away refl
    ])

module _ {ℓ} {O : Type ℓ} (n a : ℕ) (a_lt : a < n) where
  count_steps-starts :
      (st_seq : List ℤ) (obs_seq : List O) (c : Counts O)
      → (count_steps n st_seq obs_seq c).start_counts ≡ c.start_counts
  unfolding count_steps
  count_steps-starts [] obs_seq c = refl
  count_steps-starts (s ∷ st_seq) [] c = refl
  count_steps-starts (s ∷ []) (obs ∷ obs_seq) c = refl
  count_steps-starts (s ∷ t ∷ st_seq) (obs ∷ obs_seq) c = count_steps-starts (t ∷ st_seq) obs_seq _

  count_steps-occurrences :
      (b : ℕ) (st_seq : List ℤ) (obs_seq : List O) (c : Counts O)
      → b < n
      → length st_seq ≡ length obs_seq
      → (count_steps n st_seq obs_seq c).trans_counts a b
        ≡ occurrences a b st_seq + c.trans_counts a b
  unfolding count_steps
  count_steps-occurrences b [] obs_seq c b_lt same = omega arith
  count_steps-occurrences b (s ∷ st_seq) [] c b_lt same = absurd (omega arith)
  count_steps-occurrences b (s ∷ []) (obs ∷ obs_seq) c b_lt same = omega arith
  count_steps-occurrences b (s ∷ t ∷ st_seq) (obs ∷ obs_seq) c b_lt same =
      count_steps-occurrences b (t ∷ st_seq) obs_seq _ b_lt (omega arith)
      ∙ ap (◌+◌ (occurrences a b (t ∷ st_seq)))
          (count_transition-is_transition n a b s t c.trans_counts a_lt b_lt)
      ∙ omega arith

  count_steps-labelled :
      (st_seq : List ℤ) (obs_seq : List O) (c : Counts O)
      → length st_seq ≡ length obs_seq
      → (count_steps n st_seq obs_seq c).state_observations a
        ≡ c.state_observations a ++ labelled a obs_seq st_seq
  unfolding count_steps
  count_steps-labelled [] [] c same = sym (append-nil _)
  count_steps-labelled [] (obs ∷ obs_seq) c same = absurd (omega arith)
  count_steps-labelled (s ∷ st_seq) [] c same = absurd (omega arith)
  count_steps-labelled (s ∷ []) (obs ∷ []) c same =
      sym (append-nil _) ∙ add_observation-append n a s obs c.state_observations [] a_lt
  count_steps-labelled (s ∷ []) (obs ∷ o ∷ obs_seq) c same = absurd (omega arith)
  count_steps-labelled (s ∷ t ∷ st_seq) (obs ∷ obs_seq) c same =
      count_steps-labelled (t ∷ st_seq) obs_seq _ (omega arith)
      ∙ add_observation-append n a s obs c.state_observations _ a_lt

  -- What a pair of sequences adds, when they are as long as each other.
  count_pair_of-starts :
      (obs_seq : List O) (st_seq : List ℤ) (c : Counts O)
      → (length st_seq == length obs_seq) ≡ true
      → (count_pair_of n obs_seq st_seq c).start_counts a ≡ starts_with a st_seq + c.start_counts a
  unfolding count_pair_of
  count_pair_of-starts obs_seq [] c same = omega arith
  count_pair_of-starts obs_seq (s ∷ st_seq) c same = rw same (
      ap (λ counts. counts a) (count_steps-starts (s ∷ st_seq) obs_seq _)
      ∙ count_start-starts_with n a s st_seq c.start_counts a_lt)

  count_pair_of-occurrences :
      (b : ℕ) (obs_seq : List O) (st_seq : List ℤ) (c : Counts O)
      → b < n
      → (length st_seq == length obs_seq) ≡ true
      → (count_pair_of n obs_seq st_seq c).trans_counts a b
        ≡ occurrences a b st_seq + c.trans_counts a b
  unfolding count_pair_of
  count_pair_of-occurrences b obs_seq [] c b_lt same = omega arith
  count_pair_of-occurrences b obs_seq (s ∷ st_seq) c b_lt same =
      rw same (count_steps-occurrences b (s ∷ st_seq) obs_seq _ b_lt ((==_iff _ _).0 same))

  count_pair_of-labelled :
      (obs_seq : List O) (st_seq : List ℤ) (c : Counts O)
      → (length st_seq == length obs_seq) ≡ true
      → (count_pair_of n obs_seq st_seq c).state_observations a
        ≡ c.state_observations a ++ labelled a obs_seq st_seq
  unfolding count_pair_of
  count_pair_of-labelled [] [] c same = sym (append-nil _)
  count_pair_of-labelled (obs ∷ obs_seq) [] c same = sym (append-nil _)
  count_pair_of-labelled obs_seq (s ∷ st_seq) c same =
      rw same (count_steps-labelled (s ∷ st_seq) obs_seq _ ((==_iff _ _).0 same))

  count_pair_of-mismatch :
      (obs_seq : List O) (st_seq : List ℤ) (c : Counts O)
      → (length st_seq == length obs_seq) ≡ false
      → count_pair_of n obs_seq st_seq c ≡ c
  unfolding count_pair_of
  count_pair_of-mismatch obs_seq [] c differ = refl
  count_pair_of-mismatch obs_seq (s ∷ st_seq) c differ = rw differ refl

  pub count_all-starts :
      (obs_seqs : List (List O)) (st_seqs : List (List ℤ)) (c : Counts O)
      → (count_all n obs_seqs st_seqs c).start_counts a
        ≡ all_starts a (used obs_seqs st_seqs) + c.start_counts a
  unfolding count_all
  count_all-starts [] st_seqs c = omega arith
  count_all-starts (obs_seq ∷ obs_seqs) [] c = omega arith
  count_all-starts (obs_seq ∷ obs_seqs) (st_seq ∷ st_seqs) c =
      elim (Bool-cases (length st_seq == length obs_seq)) [
        | inl same ↦ rw same (
            count_all-starts obs_seqs st_seqs (count_pair_of n obs_seq st_seq c)
            ∙ omega (arith, count_pair_of-starts obs_seq st_seq c same))
        | inr differ ↦ rw differ (
            ap (λ d. (count_all n obs_seqs st_seqs d).start_counts a)
              (count_pair_of-mismatch obs_seq st_seq c differ)
            ∙ count_all-starts obs_seqs st_seqs c)
      ]

  pub count_all-occurrences :
      (b : ℕ) (obs_seqs : List (List O)) (st_seqs : List (List ℤ)) (c : Counts O)
      → b < n
      → (count_all n obs_seqs st_seqs c).trans_counts a b
        ≡ all_occurrences a b (used obs_seqs st_seqs) + c.trans_counts a b
  unfolding count_all
  count_all-occurrences b [] st_seqs c b_lt = omega arith
  count_all-occurrences b (obs_seq ∷ obs_seqs) [] c b_lt = omega arith
  count_all-occurrences b (obs_seq ∷ obs_seqs) (st_seq ∷ st_seqs) c b_lt =
      elim (Bool-cases (length st_seq == length obs_seq)) [
        | inl same ↦ rw same (
            count_all-occurrences b obs_seqs st_seqs (count_pair_of n obs_seq st_seq c) b_lt
            ∙ omega (arith, count_pair_of-occurrences b obs_seq st_seq c b_lt same))
        | inr differ ↦ rw differ (
            ap (λ d. (count_all n obs_seqs st_seqs d).trans_counts a b)
              (count_pair_of-mismatch obs_seq st_seq c differ)
            ∙ count_all-occurrences b obs_seqs st_seqs c b_lt)
      ]

  pub count_all-labelled :
      (obs_seqs : List (List O)) (st_seqs : List (List ℤ)) (c : Counts O)
      → (count_all n obs_seqs st_seqs c).state_observations a
        ≡ c.state_observations a ++ all_labelled a obs_seqs st_seqs
  unfolding count_all
  count_all-labelled [] st_seqs c = sym (append-nil _)
  count_all-labelled (obs_seq ∷ obs_seqs) [] c = sym (append-nil _)
  count_all-labelled (obs_seq ∷ obs_seqs) (st_seq ∷ st_seqs) c =
      elim (Bool-cases (length st_seq == length obs_seq)) [
        | inl same ↦ rw same (
            count_all-labelled obs_seqs st_seqs (count_pair_of n obs_seq st_seq c)
            ∙ ap (λ front. front ++ all_labelled a obs_seqs st_seqs)
                (count_pair_of-labelled obs_seq st_seq c same)
            ∙ append_assoc (c.state_observations a) (labelled a obs_seq st_seq)
                (all_labelled a obs_seqs st_seqs))
        | inr differ ↦ rw differ (
            ap (λ d. (count_all n obs_seqs st_seqs d).state_observations a)
              (count_pair_of-mismatch obs_seq st_seq c differ)
            ∙ count_all-labelled obs_seqs st_seqs c)
      ]
