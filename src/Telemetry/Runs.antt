-- ===== src/Telemetry/Runs.antt =====
-- Pushes and drains in any order.
use d_inference.Prelude.{
  refl, sym, subst, true, Option, none, List, [], ◌∷◌, ◌++◌, append-nil, append_assoc, take, drop,
  Text, ℕ, suc, zero,
}
use mathlib.Core.List.{Sublistᴰ}
use d_inference.Telemetry.Queue.{EventJson, drain, push, write_lines}
use d_inference.Telemetry.Fifo.{IsCodec, Holds, drain-Holds, push-Holds}

pub data QueueOp (Event : Type 0) : Type 0 where
  push_op : Event → QueueOp Event
  drain_op : ℕ → QueueOp Event

unfoldable pub pushes : {Event : Type 0} → List (QueueOp Event) → List Event
pushes [] = []
pushes (push_op e ∷ ops) = e ∷ pushes ops
pushes (drain_op n ∷ ops) = pushes ops

module _ {Event : Type 0} (j : EventJson Event) where
  -- The events that the drains return, one after the other, and the file in the end.
  unfoldable pub run_ops : List (QueueOp Event) → Option Text → List Event × Option Text
  run_ops [] file = ([], file)
  run_ops (push_op e ∷ ops) file = run_ops ops (push j true true e file).0
  run_ops (drain_op n ∷ ops) file =
      let (events, left) = drain j true true n file in
      let (more, last) = run_ops ops left in (events ++ more, last)

module _ {A : Type 0} where
  Sublist-drop :
      (n : ℕ) (xs ys : List A) {zs : List A}
      → Sublistᴰ zs (drop n xs ++ ys)
      → Sublistᴰ zs (xs ++ ys)
  Sublist-drop zero xs ys s = s
  Sublist-drop (suc n) [] ys s = s
  Sublist-drop (suc n) (x ∷ xs) ys s = Sublistᴰ.cons (Sublist-drop n xs ys s)

  Sublist-take :
      (n : ℕ) (xs ys : List A) {zs : List A}
      → Sublistᴰ zs (drop n xs ++ ys)
      → Sublistᴰ (take n xs ++ zs) (xs ++ ys)
  Sublist-take zero xs ys s = s
  Sublist-take (suc n) [] ys s = s
  Sublist-take (suc n) (x ∷ xs) ys s = Sublistᴰ.cons-cons refl (Sublist-take n xs ys s)

  Sublist-refl : (xs : List A) → Sublistᴰ xs xs
  Sublist-refl [] = Sublistᴰ.slnil
  Sublist-refl (x ∷ xs) = Sublistᴰ.cons-cons refl (Sublist-refl xs)

module _ {Event : Type 0} (j : EventJson Event) (codec : IsCodec j) where
  -- What comes out from a file that holds events, and what is left.
  InOrder : List Event → List (QueueOp Event) → List Event × Option Text → Type 0
  InOrder events ops (out, file) =
      (queue : List Event) × Holds j codec queue file
      × Sublistᴰ (out ++ queue) (events ++ pushes ops)

  run_ops-InOrder :
      (ops : List (QueueOp Event)) (events : List Event) (file : Option Text)
      → Holds j codec events file
      → InOrder events ops (run_ops j ops file)
  unfolding run_ops pushes InOrder
  run_ops-InOrder [] events file h =
      (events, h, subst (Sublistᴰ events) (sym (append-nil events)) (Sublist-refl events))
  run_ops-InOrder (push_op e ∷ ops) events file h =
      let (n, held, ok, size) = push-Holds j codec events e file h in
      let (queue, left, s) = run_ops-InOrder ops (drop n events ++ e ∷ []) _ held in
      (
        queue,
        left,
        Sublist-drop n events (e ∷ pushes ops)
            (subst (Sublistᴰ _) (append_assoc (drop n events) (e ∷ []) (pushes ops)) s),
      )
  run_ops-InOrder (drain_op n ∷ ops) events file h =
      let (drained, held) = drain-Holds j codec n events file h in
      let (queue, left, s) = run_ops-InOrder ops (drop n events) _ held in
      (
        queue,
        left,
        subst
            (λ (out : List Event).
              Sublistᴰ (out ++ (run_ops j ops (drain j true true n file).1).0 ++ queue)
                (events ++ pushes ops))
            (sym drained)
            (subst (λ (l : List Event). Sublistᴰ l (events ++ pushes ops))
              (sym (append_assoc (take n events) _ queue)) (Sublist-take n events (pushes ops) s)),
      )

  -- Events come out of the queue in the order in which they were pushed, none twice and none that was
  -- not pushed: however pushes and drains follow each other on a file that does not exist at first, the
  -- drained events followed by those left in the file are a sublist of the pushed ones. The file system
  -- works, and events are encoded as printable texts that are read back as they were.
  pub run_ops-Sublist :
      (ops : List (QueueOp Event))
      → (queue : List Event) × Holds j codec queue (run_ops j ops none).1
        × Sublistᴰ ((run_ops j ops none).0 ++ queue) (pushes ops)
  unfolding InOrder
  run_ops-Sublist ops = run_ops-InOrder ops [] none start
    where
      start : Holds j codec [] none
      start = unfold Holds write_lines in refl
