-- ===== src/Base/Queues.antt =====
-- Tasks that wait in two lists, those that a loop took and those in the queue behind them, and a log of
-- all that were appended.
use mathlib.Core.Path.{◌≡◌, sym, ap, ◌∙◌}
use mathlib.Core.List.{List, [], ◌∷◌, ◌++◌, append_assoc, append-nil}

module _ {T : Type 0} where
  pub append_order :
      (f : T) (done taken queue log : List T)
      → done ++ (taken ++ queue) ≡ log
      → done ++ (taken ++ (queue ++ f ∷ [])) ≡ log ++ f ∷ []
  append_order f done taken queue log h =
      ap (λ t. done ++ t) (sym (append_assoc taken queue (f ∷ [])))
      ∙ sym (append_assoc done (taken ++ queue) (f ∷ []))
      ∙ ap (λ t. t ++ f ∷ []) h

  pub swap_order :
      (done taken queue log : List T)
      → taken ≡ []
      → done ++ (taken ++ queue) ≡ log
      → done ++ (queue ++ taken) ≡ log
  swap_order done taken queue log e h =
      ap (λ t. done ++ (queue ++ t)) e
      ∙ ap (λ t. done ++ t) (append-nil queue)
      ∙ ap (λ t. done ++ (t ++ queue)) (sym e)
      ∙ h

  pub run_order :
      (f : T) (fs done taken queue log : List T)
      → taken ≡ f ∷ fs
      → done ++ (taken ++ queue) ≡ log
      → done ++ f ∷ [] ++ (fs ++ queue) ≡ log
  run_order f fs done taken queue log e h =
      append_assoc done (f ∷ []) (fs ++ queue) ∙ ap (λ t. done ++ (t ++ queue)) (sym e) ∙ h
