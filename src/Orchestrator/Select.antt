-- ===== src/Orchestrator/Select.antt =====
-- Whom the loops over the pool choose.
use llmgateway.Prelude.{
  ◌≡◌, ◌≢◌, refl, ap, ◌∙◌, ◌⊎◌, ◌↔◌, inl, inr, Bool, true, false, Bool-cases, Option-cases, List,
  [], ◌∷◌, Option, none, some, String, str_eq, str_eq_ne, eq_iff, In, All, keep_if, keep_if-In,
  In-keep_if, arith, not,
}
use llmgateway.Prelude.Int.{ℤ, pos, ltb_ℤ, ◌≤ℤ◌, ◌<ℤ◌}
use llmgateway.Orchestrator.{
  Floats, Worker, may_process, eligible_workers, argmax, verify_score, select_verifier, task_score,
  select_worker, worker_strength, strongest_worker,
}

module _ (F : Floats) where
  -- The workers that the access list lets see a request are exactly those of the pool without a
  -- maximal level and those whose maximal level the request does not exceed, where a negative level
  -- counts as 0.
  pub eligible_workers-In :
      (level : ℤ) (w : Worker F) (pool : List (Worker F))
      → In w (eligible_workers F level pool) ↔ (
          In w pool
          × ((w.secret_max_level ≤ℤ pos 0)
              ⊎ ((level ≤ℤ w.secret_max_level) × (pos 0 <ℤ w.secret_max_level))))
  unfolding eligible_workers may_process
  eligible_workers-In level w pool = elim (Bool-cases (ltb_ℤ level (pos 0))) [
    | inl n ↦ (
      λ h.
          let (m, t) = keep_if-In (may_process F (pos 0)) w pool (rw (n, eligible_workers) at h) in
          (m, unfold may_process in ground (arith, n, t)),
      λ h.
          rw (n, eligible_workers)
            (In-keep_if (may_process F (pos 0)) w pool h.0
              (unfold may_process in ground (arith, n, h.1))),
    )
    | inr n ↦ (
      λ h.
          let (m, t) = keep_if-In (may_process F level) w pool (rw (n, eligible_workers) at h) in
          (m, unfold may_process in ground (arith, n, t)),
      λ h.
          rw (n, eligible_workers)
            (In-keep_if (may_process F level) w pool h.0
              (unfold may_process in ground (arith, n, h.1))),
    )
  ]

  module _ (score : Worker F → F.Carrier) where
    -- No worker of the list scores more than `b`.
    abbrev pub IsBest : Worker F → List (Worker F) → Type 0
    IsBest b = All (λ w. F.gt (score w) (score b) ≡ false)

    -- The two are one, or the first scores more.
    abbrev Above : Worker F → Worker F → Type 0
    Above b x = (b ≡ x) ⊎ (F.gt (score b) (score x) ≡ true)

    not_beaten : (b x : Worker F) → Above b x → F.gt (score x) (score b) ≡ false
    not_beaten b x (inl e) = ap (λ y. F.gt (score x) (score y)) e ∙ F.gt_irrefl (score x)
    not_beaten b x (inr g) = elim (Bool-cases (F.gt (score x) (score b))) [
      | inl h ↦ ground (arith, F.gt_trans (score x) (score b) (score x) h g, F.gt_irrefl (score x))
      | inr h ↦ h
    ]

    not_beaten_by :
        (w x b : Worker F)
        → Above b x
        → F.gt (score w) (score x) ≡ false
        → F.gt (score w) (score b) ≡ false
    not_beaten_by w x b (inl e) n = ap (λ y. F.gt (score w) (score y)) e ∙ n
    not_beaten_by w x b (inr g) n = elim (Bool-cases (F.gt (score w) (score b))) [
      | inl h ↦ ground (arith, F.gt_trans (score w) (score b) (score x) h g, n)
      | inr h ↦ h
    ]

    Above-trans : (b w x : Worker F) → Above b w → F.gt (score w) (score x) ≡ true → Above b x
    Above-trans b w x (inl e) g = inr (ap (λ y. F.gt (score y) (score x)) e ∙ g)
    Above-trans b w x (inr h) g = inr (F.gt_trans (score b) (score w) (score x) h g)

    -- From a choice so far, the loop ends with one that neither it nor the rest beats.
    argmax-IsBest :
        (x : Worker F) (ws : List (Worker F))
        → (b : Worker F) × (argmax F score (some x) (score x) ws ≡ some b)
          × In b (x ∷ ws)
          × Above b x
          × IsBest b ws
    unfolding argmax
    argmax-IsBest x [] = (x, refl, inl refl, inl refl, tt)
    argmax-IsBest x (w ∷ ws) = elim (Bool-cases (F.gt (score w) (score x))) [
      | inl g ↦
          let (b, e, m, a, best) = argmax-IsBest w ws in
          (b, rw g e, inr m, Above-trans b w x a g, (not_beaten b w a, best))
      | inr g ↦
          let (b, e, m, a, best) = argmax-IsBest x ws in
          (b, rw g e, skip m, a, (not_beaten_by w x b a g, best))
    ]
      where
        skip : {b : Worker F} → In b (x ∷ ws) → In b (x ∷ w ∷ ws)
        skip (inl e) = inl e
        skip (inr m) = inr (inr m)

    -- Of a list whose scores are all above the start, the loop chooses a best one.
    argmax-nonempty :
        (w : Worker F) (ws : List (Worker F))
        → F.gt (score w) F.lowest ≡ true
        → (b : Worker F) × (argmax F score none F.lowest (w ∷ ws) ≡ some b)
          × In b (w ∷ ws)
          × IsBest b (w ∷ ws)
    unfolding argmax
    argmax-nonempty w ws g =
        let (b, e, m, a, best) = argmax-IsBest w ws in (b, rw g e, m, (not_beaten b w a, best))

    -- What the loop chooses is of the list.
    argmax-In :
        (ws : List (Worker F)) (o : Option (Worker F)) (x : F.Carrier) (b : Worker F)
        → argmax F score o x ws ≡ some b
        → (o ≡ some b) ⊎ In b ws
    unfolding argmax
    argmax-In [] o x b e = inl e
    argmax-In (w ∷ ws) o x b e = elim (Bool-cases (F.gt (score w) x)) [
      | inl g ↦ elim (argmax-In ws (some w) (score w) b (rw (g, argmax) at e)) [
        | inl q ↦ inr (inl (ground (arith, q)))
        | inr m ↦ inr (inr m)
      ]
      | inr g ↦ elim (argmax-In ws o x b (rw (g, argmax) at e)) [
        | inl q ↦ inl q
        | inr m ↦ inr (inr m)
      ]
    ]

  -- Where the score of the first worker that is left is above -1e18, `selectWorker` chooses one of
  -- those that are left, and none of them scores more: strength less penalty for the cost, and one more for a worker that
  -- declares the task.
  pub select_worker-IsBest :
      (penalty : F.Carrier) (task : String) (w : Worker F) (ws : List (Worker F))
      → F.gt (task_score F penalty task w) F.lowest ≡ true
      → (b : Worker F) × (select_worker F penalty task (w ∷ ws) ≡ some b)
        × In b (w ∷ ws)
        × IsBest (task_score F penalty task) b (w ∷ ws)
  unfolding select_worker
  select_worker-IsBest penalty task w ws g = argmax-nonempty (task_score F penalty task) w ws g

  different : (producer w : Worker F) → not (str_eq w.id producer.id) ≡ true → w.id ≢ producer.id
  different producer w h e = ground (arith, h, (eq_iff w.id producer.id).1 e)

  argmax-some :
      (score : Worker F → F.Carrier) (ws : List (Worker F)) (w : Worker F)
      → All (λ v. F.gt (score v) F.lowest ≡ true) ws
      → In w ws
      → (b : Worker F) × (argmax F score none F.lowest ws ≡ some b) × In b ws
  argmax-some score [] w a m = absurd m
  argmax-some score (v ∷ ws) w a m = let (b, e, i, _) = argmax-nonempty score v ws a.0 in (b, e, i)

  All-keep_if :
      (P : Worker F → Type 0) (p : Worker F → Bool) (ws : List (Worker F))
      → All P ws
      → All P (keep_if p ws)
  unfolding keep_if
  All-keep_if P p [] a = tt
  All-keep_if P p (w ∷ ws) a = elim (Bool-cases (p w)) [
    | inl e ↦ rw e (a.0, All-keep_if P p ws a.1)
    | inr e ↦ rw e (All-keep_if P p ws a.1)
  ]

  -- The verifier is another worker than the producer, by its id, wherever the pool that is left has
  -- one with another id, and it is of that pool. The scores of the pool are above -1e18.
  pub select_verifier-different :
      (producer w : Worker F) (eligible : List (Worker F))
      → All (λ v. F.gt (verify_score F v) F.lowest ≡ true) eligible
      → In w eligible
      → w.id ≢ producer.id
      → In (select_verifier F producer eligible) eligible
        × ((select_verifier F producer eligible).id ≢ producer.id)
  unfolding select_verifier
  select_verifier-different producer w eligible a i n =
      let other = λ (v : Worker F). not (str_eq v.id producer.id) in
      let q : other w ≡ true = ground (arith, str_eq_ne w.id producer.id n) in
      let above = All-keep_if _ other eligible a in
      let (b, e, m) =
        argmax-some (verify_score F) (keep_if other eligible) w above
          (In-keep_if other w eligible i q) in
      let (k, d) = keep_if-In other b eligible m in
      (rw (e, select_verifier) k, rw (e, select_verifier) (different producer b d))

  -- What the three loops choose is of the pool that is left.
  pub select_worker-In :
      (penalty : F.Carrier) (task : String) (ws : List (Worker F)) (b : Worker F)
      → select_worker F penalty task ws ≡ some b
      → In b ws
  unfolding select_worker
  select_worker-In penalty task ws b e =
      elim (argmax-In (task_score F penalty task) ws none F.lowest b e) [
        | inl q ↦ absurd (ground (arith, q))
        | inr i ↦ i
      ]

  pub strongest_worker-In :
      (ws : List (Worker F)) (b : Worker F) → strongest_worker F ws ≡ some b → In b ws
  unfolding strongest_worker
  strongest_worker-In ws b e = elim (argmax-In (worker_strength F) ws none F.lowest b e) [
    | inl q ↦ absurd (ground (arith, q))
    | inr i ↦ i
  ]

  pub select_verifier-In :
      (producer : Worker F) (eligible : List (Worker F))
      → In producer eligible
      → In (select_verifier F producer eligible) eligible
  unfolding select_verifier
  select_verifier-In producer eligible m =
      let other = λ (v : Worker F). not (str_eq v.id producer.id) in
      elim (Option-cases (argmax F (verify_score F) none F.lowest (keep_if other eligible))) [
        | inl e ↦ rw (e, select_verifier) m
        | inr (b, e) ↦
            rw (e, select_verifier)
              (elim (argmax-In (verify_score F) _ none F.lowest b e) [
                | inl q ↦ absurd (ground (arith, q))
                | inr i ↦ (keep_if-In other b eligible i).0
              ])
      ]
