-- ===== src/Labeler/Runs.antt =====
-- `label_sequence` of forecasting/state_labeler.py by runs of SURGE.
use turbo_sh.Common.{
  ℕ, zero, suc, ◌+◌, ◌-◌, ◌≡◌, refl, sym, ap, ◌∙◌, List, [], ◌∷◌, ◌++◌, map, true, if◌then◌else◌,
  leb, length, set, replicate, arith, append_assoc, length-append, length-replicate, Float,
}
use turbo_sh.Config.{AttackStage, surge, sustained, is_surge}
use turbo_sh.NetworkState.{NetworkState}
use turbo_sh.Labeler.{label_state, mark, refine, label_sequence}

-- The number of SURGE labels that a list begins with.
abbrev pub ahead : List AttackStage → ℕ
ahead [] = 0
ahead (l ∷ ls) = if is_surge l then suc (ahead ls) else 0

-- The label of a SURGE in a run of that length.
abbrev pub promoted : ℕ → AttackStage
promoted run = if leb 3 run then sustained else surge

-- Each SURGE becomes SUSTAINED if its run, with `before` labels already passed, has three or more.
abbrev pub promote : ℕ → List AttackStage → List AttackStage
promote before [] = []
promote before (l ∷ ls) =
    (if is_surge l then promoted (before + ahead (l ∷ ls)) else l)
    ∷ promote (if is_surge l then suc before else 0) ls

-- `set` at the boundary of two lists, and `mark` over a block.
set-append :
    (xs ys : List AttackStage) (y v : AttackStage) → set (xs ++ y ∷ ys) (length xs) v ≡ xs ++ v ∷ ys
set-append [] ys y v = refl
set-append (x ∷ xs) ys y v = ap (◌∷◌ x) (set-append xs ys y v)

mark_block :
    (xs block ys : List AttackStage) {j : ℕ}
    → j ≡ length xs
    → mark j (length block) (xs ++ (block ++ ys)) ≡ xs ++ (replicate (length block) sustained ++ ys)
unfolding mark
mark_block xs [] ys e = refl
mark_block xs (b ∷ block) ys {j} e =
    let n = length block in
    ap (λ k. mark k (suc n) (xs ++ (b ∷ (block ++ ys)))) e
    ∙ ap (mark (suc (length xs)) n) (set-append xs (block ++ ys) b sustained)
    ∙ ap (mark (suc (length xs)) n) (sym (append_assoc xs (sustained ∷ []) (block ++ ys)))
    ∙ mark_block (xs ++ sustained ∷ []) block ys (omega (arith, length-append xs (sustained ∷ [])))
    ∙ append_assoc xs (sustained ∷ []) (replicate n sustained ++ ys)

pub replicate_shift :
    (n : ℕ) (a : AttackStage) (xs : List AttackStage)
    → replicate n a ++ a ∷ xs ≡ a ∷ (replicate n a ++ xs)
replicate_shift zero a xs = refl
replicate_shift (suc n) a xs = ap (◌∷◌ a) (replicate_shift n a xs)

regroup :
    (done block : List AttackStage) (l : AttackStage) (ls : List AttackStage)
    → done ++ (block ++ l ∷ ls) ≡ (done ++ (block ++ l ∷ [])) ++ ls
regroup done block l ls = simp append_assoc

-- The inner loop turns a run of `c` labels and the SURGE behind it into SUSTAINED.
mark_run :
    (done : List AttackStage) (c : ℕ) (a : AttackStage) (ls : List AttackStage) {j : ℕ}
    → j ≡ length done
    → mark j (suc c) (done ++ (replicate c a ++ surge ∷ ls))
      ≡ done ++ (replicate (suc c) sustained ++ ls)
mark_run done c a ls {j} e =
    let run = replicate c a ++ surge ∷ [] in
    let size : length run ≡ suc c =
      omega (arith, length-append (replicate c a) (surge ∷ []), length-replicate c a) in
    ap (λ xs. mark j (suc c) (done ++ xs)) (sym (append_assoc (replicate c a) (surge ∷ []) ls))
    ∙ ap (λ n. mark j n (done ++ (run ++ ls))) (sym size)
    ∙ mark_block done run ls e
    ∙ ap (λ n. done ++ (replicate n sustained ++ ls)) size

grow :
    (done : List AttackStage) (c : ℕ) (ls : List AttackStage) {i : ℕ}
    → i ≡ length done + c
    → (if leb 3 (suc c)
        then mark (suc i - suc c) (suc c) (done ++ (replicate c (promoted c) ++ surge ∷ ls))
        else (done ++ (replicate c (promoted c) ++ surge ∷ ls)))
      ≡ done ++ (replicate (suc c) (promoted (suc c)) ++ ls)
grow done zero ls e = refl
grow done (suc zero) ls e = refl
grow done (suc (suc c)) ls {i} e =
    let long : leb 3 (suc (suc (suc c))) ≡ true = ground arith in
    rw long (mark_run done (suc (suc c)) (promoted (suc (suc c))) ls (omega arith))

-- The pass keeps the finished part `done`, then the current run of `c` labels.
refine-promote :
    (done : List AttackStage) (c : ℕ) (ls : List AttackStage) {i : ℕ}
    → i ≡ length done + c
    → refine i c ls (done ++ (replicate c (promoted c) ++ ls))
      ≡ done ++ (replicate c (promoted (c + ahead ls)) ++ promote c ls)
unfolding refine
refine-promote done c [] e =
    ap (λ n. done ++ (replicate c (promoted n) ++ [])) {x = c} {y = c + 0} (omega arith)
refine-promote done c (surge ∷ ls) {i} e = rw (grow done c ls e) (
    refine-promote done (suc c) ls {i = suc i} (omega arith)
    ∙ ap (λ n. done ++ (replicate (suc c) (promoted n) ++ promote (suc c) ls))
        {x = suc c + ahead ls} {y = c + suc (ahead ls)} (omega arith)
    ∙ ap (◌++◌ done) (sym (replicate_shift c (promoted (c + suc (ahead ls))) (promote (suc c) ls))))
refine-promote done c (l ∷ ls) {i} e =
    let block = replicate c (promoted c) in
    let size = length-append done (block ++ l ∷ []) in
    let size_of_block = length-append block (l ∷ []) in
    rw (regroup done block l ls) (
      refine-promote (done ++ (block ++ l ∷ [])) 0 ls {i = suc i}
        (omega (arith, size, size_of_block, length-replicate c (promoted c)))
      ∙ sym (regroup done block l (promote 0 ls))
      ∙ ap (λ n. done ++ (replicate c (promoted n) ++ l ∷ promote 0 ls)) {x = c} {y = c + 0}
          (omega arith))

-- `label_sequence` gives each state the label of its run: the two passes over the raw labels, the
-- second with its counter and its backward marking, promote the SURGE labels in runs of three or
-- more and change nothing else.
pub label_sequence-promote {ℓ} :
    {F J : Type ℓ} ⦃f : Float F⦄ (states : List (NetworkState F J))
    → label_sequence states ≡ promote 0 (map label_state states)
unfolding label_sequence
label_sequence-promote states = refine-promote [] 0 (map label_state states) refl
