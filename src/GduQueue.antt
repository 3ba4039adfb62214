-- ===== src/GduQueue.antt =====
-- src/gduqueue.cpp: a queue of pointers to GDUs on a singly linked list, the newest at its head.
-- An item is `none` for a null pointer.
pub mod Fifo
use yazpp.Prelude.{ℕ, zero, suc, ◌+◌, List, [], ◌∷◌, Option, none, some}

module _ {ℓ} {A : Type ℓ} where
  -- `m_list`, from its head.
  unfoldable pub size : List (Option A) → ℕ
  size [] = 0
  size (g ∷ l) = size l + 1

  unfoldable pub enqueue : Option A → List (Option A) → List (Option A)
  enqueue g l = g ∷ l

  -- The walk to the last cell, which is taken out.
  unfoldable pub take_end : Option A → List (Option A) → Option A × List (Option A)
  take_end g [] = (g, [])
  take_end g (h ∷ l) = let (m, rest) = take_end h l in (m, g ∷ rest)

  -- A null pointer if the queue is empty.
  unfoldable pub dequeue : List (Option A) → Option A × List (Option A)
  unfolding take_end
  dequeue [] = (none, [])
  dequeue (g ∷ l) = take_end g l

  -- `while ((g = dequeue()))` on fuel: the items that it deletes, and the queue that it leaves.
  unfoldable pub clear_loop : ℕ → List (Option A) → Option (List A × List (Option A))
  clear_loop zero l = none
  clear_loop (suc fuel) l =
      let (item, rest) = dequeue l in
      elim item [
        | none ↦ some ([], rest)
        | some g ↦ elim (clear_loop fuel rest) [
          | none ↦ none
          | some (deleted, left) ↦ some (g ∷ deleted, left)
        ]
      ]
