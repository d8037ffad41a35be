-- ===== src/Sched/Pick.antt =====
-- The loop of `do_context_switch` chooses the first task of the queue that can run.
use han_os.Base.{
  ℕ, zero, suc, ◌+◌, ◌<◌, ◌≡◌, ◌≢◌, refl, sym, subst, Bool, true, false, Option, none, some, List,
  [], ◌∷◌, ◌++◌, length, length-append, leb, if◌then◌else◌, arith, append-nil, append_assoc,
  Bool-cases, inl, inr,
}
use han_os.Sched.{Task, runnable, pick_loop}

-- Every address of a list holds a task.
abbrev pub AllTasks : (ℕ → Option Task) → List ℕ → Type 0
AllTasks tasks [] = Unit {0}
AllTasks tasks (p ∷ ps) = (p ≢ 0) × ((t : Task) × (tasks p ≡ some t)) × AllTasks tasks ps

pub AllTasks-append :
    (tasks : ℕ → Option Task) (xs ys : List ℕ)
    → AllTasks tasks xs
    → AllTasks tasks ys
    → AllTasks tasks (xs ++ ys)
AllTasks-append tasks [] ys hx hy = hy
AllTasks-append tasks (x ∷ xs) ys hx hy = (hx.0, hx.1, AllTasks-append tasks xs ys hx.2 hy)

module _ (now : ℕ → ℕ) (tasks : ℕ → Option Task) where
  -- Whether the task at `p` can run, as round `k` of the loop sees it.
  abbrev pub can_run : ℕ → ℕ → Bool
  can_run k p = elim (tasks p) [ none ↦ false | some t ↦ runnable (now k) t ]

  -- The choice, as a search through the queue: `seen` are the tasks passed over.
  unfoldable pub first_runnable : ℕ → List ℕ → List ℕ → ℕ × List ℕ
  first_runnable k seen [] = (0, seen)
  first_runnable k seen (p ∷ ps) =
      let rest = first_runnable (k + 1) (seen ++ (p ∷ [])) ps in
      if can_run k p then (p, ps ++ seen) else rest

  pub can_run_at : (k p : ℕ) (t : Task) → tasks p ≡ some t → can_run k p ≡ runnable (now k) t
  can_run_at k p t e = rw (e, can_run)

  -- One round, at a task.
  pick_loop_step :
      (fuel k p : ℕ) (others : List ℕ) (t : Task)
      → tasks p ≡ some t
      → pick_loop (suc fuel) now tasks k (p ∷ others) ≡ (
          if runnable (now k) t
          then some (p, others)
          else (if leb (length (others ++ (p ∷ []))) (k + 1)
              then some (0, others ++ (p ∷ []))
              else pick_loop fuel now tasks (k + 1) (others ++ (p ∷ []))))
  unfolding pick_loop
  pick_loop_step fuel k p others t at = rw (at, pick_loop)

  pick_loop_from :
      (fuel k p : ℕ) (ps seen : List ℕ)
      → length ps < fuel
      → k ≡ length seen
      → AllTasks tasks (p ∷ ps)
      → pick_loop fuel now tasks k (p ∷ (ps ++ seen)) ≡ some (first_runnable k seen (p ∷ ps))
  unfolding first_runnable
  pick_loop_from zero k p ps seen h e all = absurd (omega arith)
  pick_loop_from (suc fuel) k p [] seen h e (nonnull, (t, at), all) =
      let end : leb (length (seen ++ (p ∷ []))) (k + 1) ≡ true =
        ground (arith, length-append seen (p ∷ [])) in
      elim (Bool-cases (runnable (now k) t)) [
        | inl can ↦ rw (pick_loop_step fuel k p _ t at, can_run_at k p t at, can)
        | inr cannot ↦ rw (pick_loop_step fuel k p _ t at, can_run_at k p t at, cannot, end)
      ]
  pick_loop_from (suc fuel) k p (q ∷ qs) seen h e (nonnull, (t, at), all) =
      let more : leb (length ((q ∷ qs ++ seen) ++ (p ∷ []))) (k + 1) ≡ false =
        ground (arith, length-append (qs ++ seen) (p ∷ []), length-append qs seen) in
      let turned : (qs ++ seen) ++ (p ∷ []) ≡ qs ++ (seen ++ (p ∷ [])) =
        append_assoc qs seen (p ∷ []) in
      let rest =
        pick_loop_from fuel (k + 1) q qs (seen ++ (p ∷ [])) (omega arith)
          (omega (arith, length-append seen (p ∷ []))) all in
      elim (Bool-cases (runnable (now k) t)) [
        | inl can ↦ rw (pick_loop_step fuel k p _ t at, can_run_at k p t at, can)
        | inr cannot ↦
            rw (pick_loop_step fuel k p _ t at, can_run_at k p t at, cannot, more, turned) rest
      ]

  -- With one round more than there are tasks the loop ends, and its choice is that of the search.
  pub pick_loop_lem :
      (active : List ℕ)
      → AllTasks tasks active
      → pick_loop (length active + 1) now tasks 0 active ≡ some (first_runnable 0 [] active)
  unfolding first_runnable pick_loop
  pick_loop_lem [] all = refl
  pick_loop_lem (p ∷ ps) all =
      subst
        (λ l.
          pick_loop (length (p ∷ ps) + 1) now tasks 0 (p ∷ l) ≡ some (first_runnable 0 [] (p ∷ ps)))
        (append-nil ps) (pick_loop_from (length (p ∷ ps) + 1) 0 p ps [] (omega arith) refl all)

  -- None of these tasks can run, from round `k` on.
  abbrev pub NoneRuns : ℕ → List ℕ → Type 0
  NoneRuns k [] = Unit {0}
  NoneRuns k (p ∷ ps) = (can_run k p ≡ false) × NoneRuns (k + 1) ps

  -- What a choice among `queue` is: the first task that can run, found after the tasks `before` it,
  -- which go to the end of the queue; or none, with the queue as it was.
  pub data Chosen (queue : List ℕ) (next : ℕ) (left : List ℕ) : Type 0 where
    found :
        (before after : List ℕ)
        → queue ≡ before ++ (next ∷ after)
        → left ≡ after ++ before
        → NoneRuns 0 before
        → can_run (length before) next ≡ true
        → Chosen queue next left
    nobody : next ≡ 0 → left ≡ queue → NoneRuns 0 queue → Chosen queue next left

  NoneRuns-append :
      (k : ℕ) (xs : List ℕ) (p : ℕ)
      → NoneRuns k xs
      → can_run (k + length xs) p ≡ false
      → NoneRuns k (xs ++ (p ∷ []))
  NoneRuns-append k [] p h c = (let e : k + 0 ≡ k = omega arith in rw e at c, tt)
  NoneRuns-append k (x ∷ xs) p h c =
      let e : k + suc (length xs) ≡ k + 1 + length xs = omega arith in
      (h.0, NoneRuns-append (k + 1) xs p h.1 (rw e at c))

  first_runnable-Chosen :
      (k : ℕ) (seen ps : List ℕ)
      → k ≡ length seen
      → NoneRuns 0 seen
      → Chosen (seen ++ ps) (first_runnable k seen ps).0 (first_runnable k seen ps).1
  unfolding first_runnable
  first_runnable-Chosen k seen [] e h = nobody refl (sym (append-nil seen)) (rw (append-nil seen) h)
  first_runnable-Chosen k seen (p ∷ ps) e h = elim (Bool-cases (can_run k p)) [
    | inl can ↦ rw can (found seen ps refl refl h (rw (← e) can))
    | inr cannot ↦
        let c : can_run (0 + length seen) p ≡ false =
          (let z : 0 + length seen ≡ k = omega arith in rw z cannot) in
        rw (cannot, ← append_assoc seen (p ∷ []) ps)
          (first_runnable-Chosen (k + 1) (seen ++ (p ∷ [])) ps
            (omega (arith, length-append seen (p ∷ []))) (NoneRuns-append 0 seen p h c))
  ]

  -- The loop of `do_context_switch` ends without a fault on every queue of tasks. It chooses the
  -- first task that is ready, or asleep with its time come, and moves the tasks before it to the
  -- end in their order; if there is none it leaves the queue as it was.
  pub pick_loop-Chosen :
      (active : List ℕ)
      → AllTasks tasks active
      → (next : ℕ) × (left : List ℕ) × (pick_loop (length active + 1) now tasks 0 active
          ≡ some (next, left))
        × Chosen active next left
  pick_loop-Chosen active all = (
    (first_runnable 0 [] active).0,
    (first_runnable 0 [] active).1,
    pick_loop_lem active all,
    first_runnable-Chosen 0 [] active refl tt,
  )
