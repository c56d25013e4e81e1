-- ===== src/Payment/Receipts.antt =====
-- `submitObserverReceipt` called again for the same task.
use open_world_model.Base.{
  ℕ, suc, ◌≡◌, refl, false, none, some, ◌∷◌, find_where, update_first, find_where-update_first,
}
use open_world_model.Base.Text.{Text}
use open_world_model.World.{World, Task, receipts_success, receipts_skipped}
use open_world_model.Scheduler.{is_task}
use open_world_model.Payment.Defs.{
  Submit, ReceiptDraft, receipt_row, existing_receipt, record_answer, store_receipt,
  submit_observer_receipt,
}

module _ (submit : Submit) (draft : ReceiptDraft) (task : ℕ) where
  skipped :
      (w : World) {b : ℕ} {id : Text}
      → w.env.fails w.tick ≡ false
      → existing_receipt (find_where (is_task task) w.tasks) ≡ b ∷ id
      → submit_observer_receipt submit draft task w
        ≡ record w { metrics = receipts_skipped ∷ w.metrics; tick = suc w.tick }
  unfolding submit_observer_receipt
  skipped w h e = rw h (rw e refl)

  stored :
      (w : World) {b : ℕ} {id : Text} {t : Task}
      → ((n : ℕ) → w.env.fails n ≡ false)
      → find_where (is_task task) w.tasks ≡ some t
      → t.observer_receipt_id ≡ none
      → submit (suc w.tick) draft ≡ some (b ∷ id)
      → submit_observer_receipt submit draft task w ≡ record w {
        tasks = update_first (is_task task) (receipt_row (b ∷ id)) w.tasks;
        metrics = receipts_success ∷ w.metrics;
        tick = suc (suc (suc w.tick));
      }
  unfolding submit_observer_receipt existing_receipt record_answer store_receipt
  stored w h e o s = rw h (rw e (rw o (rw s (rw h (rw e refl)))))

  -- With no failing query, a receipt that the registry answered for a task with none is stored, and
  -- a second submission for the task changes no row and is only counted as skipped, whatever the
  -- registry would answer then.
  pub submit_observer_receipt-twice :
      (w : World) {b : ℕ} {id : Text} {t : Task}
      → ((n : ℕ) → w.env.fails n ≡ false)
      → find_where (is_task task) w.tasks ≡ some t
      → t.observer_receipt_id ≡ none
      → submit (suc w.tick) draft ≡ some (b ∷ id)
      → let w' = submit_observer_receipt submit draft task w in
        let w'' = submit_observer_receipt submit draft task w' in
        (find_where (is_task task) w'.tasks ≡ some (receipt_row (b ∷ id) t))
        × (w''.tasks ≡ w'.tasks)
        × (w''.metrics ≡ receipts_skipped ∷ receipts_success ∷ w.metrics)
  unfolding existing_receipt
  submit_observer_receipt-twice w {b} {id} {t} h e o s =
      let found =
        find_where-update_first (is_task task) (receipt_row (b ∷ id)) (λ t k. k) w.tasks e in
      rw (stored w h e o s) (
        rw
          (skipped
            (record w {
              tasks = update_first (is_task task) (receipt_row (b ∷ id)) w.tasks;
              metrics = receipts_success ∷ w.metrics;
              tick = suc (suc (suc w.tick));
            })
            {b = b} {id = id} (h (suc (suc (suc w.tick)))) (rw found refl))
          (found, refl, refl))
