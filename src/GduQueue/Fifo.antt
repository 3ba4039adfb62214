-- ===== src/GduQueue/Fifo.antt =====
-- src/gduqueue.cpp: a list as the specification of the queue.
use yazpp.Prelude.{
  ℕ, zero, suc, ◌+◌, ◌≡◌, refl, ap, ◌∙◌, List, [], ◌∷◌, ◌++◌, Option, none, some, length,
  length-append, arith, ◌<◌,
}
use yazpp.GduQueue.{size, enqueue, take_end, dequeue, clear_loop}

-- A program of queue operations.
pub data Op {ℓ} (A : Type ℓ) : Type ℓ where
  put : Option A → Op A
  get : Op A

module _ {ℓ} {A : Type ℓ} where
  -- The specification: a list, the oldest item first.
  abbrev pub front : List (Option A) → Option A × List (Option A)
  front [] = (none, [])
  front (g ∷ l) = (g, l)

  -- The items of a queue, the oldest first.
  unfoldable pub items : List (Option A) → List (Option A)
  items [] = []
  items (g ∷ l) = items l ++ g ∷ []

  pub items-enqueue : (g : Option A) (l : List (Option A)) → items (enqueue g l) ≡ items l ++ g ∷ []
  unfolding items enqueue
  items-enqueue g l = refl

  pub size-items : (l : List (Option A)) → size l ≡ length (items l)
  unfolding size items
  size-items [] = refl
  size-items (g ∷ l) = omega (arith, size-items l, length-append (items l) (g ∷ []))

  items-take_end :
      (g : Option A) (l : List (Option A))
      → items (g ∷ l) ≡ (take_end g l).0 ∷ items (take_end g l).1
  unfolding items take_end
  items-take_end g [] = refl
  items-take_end g (h ∷ l) = ap (λ xs. xs ++ g ∷ []) (items-take_end h l)

  pub items-dequeue : (l : List (Option A)) → ((dequeue l).0, items (dequeue l).1) ≡ front (items l)
  unfolding dequeue items
  items-dequeue [] = refl
  items-dequeue (g ∷ l) = rw (items-take_end g l) refl

  -- What its calls of `dequeue` return, and the queue after it.
  pub run : List (Op A) → List (Option A) → List (Option A) × List (Option A)
  run [] l = ([], l)
  run (put g ∷ ops) l = run ops (enqueue g l)
  run (get ∷ ops) l = let (m, rest) = dequeue l in let (got, last) = run ops rest in (m ∷ got, last)

  -- The same program on the specification.
  abbrev pub run_spec : List (Op A) → List (Option A) → List (Option A) × List (Option A)
  run_spec [] l = ([], l)
  run_spec (put g ∷ ops) l = run_spec ops (l ++ g ∷ [])
  run_spec (get ∷ ops) l =
      let (m, rest) = front l in let (got, last) = run_spec ops rest in (m ∷ got, last)

  -- Every program of `enqueue` and `dequeue` calls returns the items in the order in which they
  -- came, and leaves the queue that the specification leaves.
  pub run-run_spec :
      (ops : List (Op A)) (l : List (Option A))
      → ((run ops l).0, items (run ops l).1) ≡ run_spec ops (items l)
  unfolding run
  run-run_spec [] l = refl
  run-run_spec (put g ∷ ops) l =
      run-run_spec ops (enqueue g l) ∙ ap (run_spec ops) (items-enqueue g l)
  run-run_spec (get ∷ ops) l = rw (← items-dequeue l, ← run-run_spec ops (dequeue l).1) refl

  -- What `clear` deletes and leaves: it stops at the first null pointer.
  abbrev pub until_null : List (Option A) → List A × List (Option A)
  until_null [] = ([], [])
  until_null (none ∷ l) = ([], l)
  until_null (some g ∷ l) = let (deleted, left) = until_null l in (g ∷ deleted, left)

  abbrev pub view : Option (List A × List (Option A)) → Option (List A × List (Option A))
  view none = none
  view (some (deleted, left)) = some (deleted, items left)

  size-take_end : (g : Option A) (l : List (Option A)) → size (take_end g l).1 ≡ size l
  unfolding take_end size
  size-take_end g [] = refl
  size-take_end g (h ∷ l) = ap (λ n. n + 1) (size-take_end h l)

  clear_step :
      (fuel : ℕ) (m : Option A) (l : List (Option A))
      → view (clear_loop fuel (dequeue l).1) ≡ some (until_null (items (dequeue l).1))
      → (dequeue l).0 ≡ m
      → items l ≡ m ∷ items (dequeue l).1
      → view (clear_loop (suc fuel) l) ≡ some (until_null (items l))
  unfolding clear_loop
  clear_step fuel none l ih e h = rw (h, clear_loop, e) refl
  clear_step fuel (some g) l ih e h = rw (h, clear_loop, e) (ground (arith, ih))

  -- With fuel above its size, `clear` ends; it deletes the items in order up to the first null
  -- pointer, which it takes out too, and leaves the items after that.
  pub clear_loop-until_null :
      (fuel : ℕ) (l : List (Option A))
      → size l < fuel
      → view (clear_loop fuel l) ≡ some (until_null (items l))
  unfolding size dequeue
  clear_loop-until_null zero l h = absurd (omega arith)
  clear_loop-until_null (suc fuel) [] h = unfold clear_loop items in refl
  clear_loop-until_null (suc fuel) (g ∷ l) h =
      clear_step fuel (take_end g l).0 (g ∷ l)
        (clear_loop-until_null fuel (take_end g l).1 (omega (arith, size-take_end g l))) refl
        (items-take_end g l)
