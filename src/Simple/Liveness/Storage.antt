-- ===== src/Simple/Liveness/Storage.antt =====
-- The queues of the single-threaded executor (src/runtime/simple_executor.rs) as a store for tasks.
use luminal.Prelude.{
  ℕ, ◌≤◌, ◌≡◌, ◌∙◌, refl, ap, List, [], ◌∷◌, ◌++◌, length, update, update_self, update_other, arith,
}
use luminal.Task.{Task}
use luminal.Task.Progress.{Store}
use luminal.Heapless.{Heapless}
use luminal.Simple.{SimpleExecutor, spawn, deliver, host}

module _ {V : Type 0} (H : Heapless (Task V) V 1024 16) where
  pub stored-deliver :
      (c : ℕ) (v : V) (w : SimpleExecutor H)
      → H.stored (w.results c) ≡ []
      → H.stored ((deliver H c v w).results c) ≡ v ∷ []
  unfolding deliver
  stored-deliver c v w s =
      ap H.stored (update_self w.results c _)
      ∙ (H.enqueue_room (w.results c) v (omega (arith, ap length s))).1
      ∙ ap (λ l. l ++ v ∷ []) s

  pub stored_other :
      (rs : ℕ → H.MpMcQueue) (d c : ℕ) (q : H.MpMcQueue) (vs : List V)
      → (d ≡ c → ⊥)
      → H.stored (rs c) ≡ vs
      → H.stored (update rs d q c) ≡ vs
  stored_other rs d c q vs ne e = ap H.stored (update_other rs d c q ne) ∙ e

  unfoldable pub store : Store (host H)
  unfolding spawn deliver
  store = record {
    tasks = λ w. H.entries w.global_queue;
    next = λ w. w.next_result;
    Waits = λ c w. H.stored (w.results c) ≡ [];
    Has = λ c v w. H.stored (w.results c) ≡ v ∷ [];
    Fits = λ n. n ≤ 1024;
    requeue = λ t w. record w { global_queue = (H.push_back w.global_queue t).1 };
    fits_less = λ m n le h. omega arith;
    spawn_tasks = λ f w room.
        (record { raw = w.next_task_id }, (H.push_back_room w.global_queue _ (omega arith)).1);
    spawn_next = λ f w. omega arith;
    spawn_fresh =
        λ f w. ap H.stored (update_self w.results w.next_result H.new_queue) ∙ H.stored-new_queue;
    spawn_waits =
        λ f w c old e. stored_other w.results w.next_result c _ [] (λ same. omega arith) e;
    spawn_has =
        λ f w c v old e. stored_other w.results w.next_result c _ (v ∷ []) (λ same. omega arith) e;
    deliver_tasks = λ d u w. refl;
    deliver_next = λ d u w. refl;
    deliver_self = stored-deliver;
    deliver_waits = λ d c u w ne e. stored_other w.results d c _ [] ne e;
    deliver_has = λ d c u v w ne e. stored_other w.results d c _ (v ∷ []) ne e;
    requeue_tasks = λ t w room. (H.push_back_room w.global_queue t (omega arith)).1;
    requeue_next = λ t w. refl;
    requeue_waits = λ t c w e. e;
    requeue_has = λ t c v w e. e;
  }
