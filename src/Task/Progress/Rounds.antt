-- ===== src/Task/Progress/Rounds.antt =====
-- A task is taken from the queue, polled, and put back if it is pending (src/runtime/task.rs), when
-- all tasks come to an end.
use mathlib.Core.Path.{subst}
use luminal.Prelude.{
  ℕ, suc, ◌+◌, ◌-◌, ◌≤◌, ◌<◌, ◌≡◌, ◌⊎◌, inl, inr, refl, sym, ap, List, [], ◌∷◌, ◌++◌, length,
  length-append, arith,
}
use luminal.Task.{Future, BoxFuture, wrapped, Task, new_task}
use luminal.Task.Poll.{ready, pending, returned, Host}
use luminal.Task.Finite.{
  Costs, Gives, BoxCosts, BoxCosts-pos, ListCosts, ListCosts-snoc, ListCosts-mono,
}
use luminal.Task.Senders.{Others, Holds, Others-snoc, Holds-snoc, Holds-last}
use luminal.Task.Progress.{Store}
use luminal.Task.Progress.Without.{
  Without, ListCosts-Without, Others-Without, Holds-Without, length-Without,
}
use luminal.Task.Progress.Settles.{Mode, Between, Leaves}

module _ {V W : Type 0} {h : Host V W} (S : Store h) where
  -- All tasks are queued, and `n` polls end them all.
  abbrev pub Ending : ℕ → ℕ → V → W → Type 0
  Ending n c v w =
      (m : ℕ) × ListCosts n m (S.tasks w) × S.Fits (length (S.tasks w) + m) × Between S c v w

  pub Ending-mono : (n' n c : ℕ) (v : V) (w : W) → n' ≤ n → Ending n' c v w → Ending n c v w
  Ending-mono n' n c v w le (m, q, room, bt) = (m, ListCosts-mono n n' m (S.tasks w) le q, room, bt)

  -- A task that is done leaves the others.
  pub done-Ending :
      (n c : ℕ) (v : V) (b : BoxFuture V) (w : W)
      → Leaves S n c v (returned (ready tt), b, w)
      → Ending n c v w
  done-Ending n c v b w (n', m', le, q, room, bt) =
      (m', ListCosts-mono n n' m' (S.tasks w) le q, S.fits_less _ _ (omega arith) room, bt)

  requeue-Between :
      (c : ℕ) (v : V) (t : Task V) (w : W)
      → S.Fits (suc (length (S.tasks w)))
      → Mode S c v t.future w
      → Between S c v (S.requeue t w)
  requeue-Between c v t w room (inl (s, (old, o, r))) = inl (
    subst (λ k. c < k) (sym (S.requeue_next t w)) old,
    subst (Holds c v) (sym (S.requeue_tasks t w room)) (Holds-last c v (S.tasks w) t s o),
    S.requeue_waits t c w r,
  )
  requeue-Between c v t w room (inr (inl (ne, (old, o, r)))) = inl (
    subst (λ k. c < k) (sym (S.requeue_next t w)) old,
    subst (Holds c v) (sym (S.requeue_tasks t w room)) (Holds-snoc c v (S.tasks w) t ne o),
    S.requeue_waits t c w r,
  )
  requeue-Between c v t w room (inr (inr (ne, (old, o, r)))) = inr (
    subst (λ k. c < k) (sym (S.requeue_next t w)) old,
    subst (Others c) (sym (S.requeue_tasks t w room)) (Others-snoc c (S.tasks w) t ne o),
    S.requeue_has t c v w r,
  )

  -- A task that is pending goes back to the queue.
  pub pending-Ending :
      (n c : ℕ) (v : V) (t : Task V) (w : W)
      → Leaves S n c v (returned pending, t.future, w)
      → Ending n c v (S.requeue t w)
  pending-Ending n c v t w (a, b', n', m', le, k, q, room, md) =
      let room' : S.Fits (suc (length (S.tasks w))) = S.fits_less _ _ (omega arith) room in
      let e : S.tasks (S.requeue t w) ≡ S.tasks w ++ t ∷ [] = S.requeue_tasks t w room' in
      (
        m' + b',
        subst (ListCosts n (m' + b')) (sym e)
            (ListCosts-snoc n' m' a b' n (m' + b') (S.tasks w) t (omega arith) (omega arith) k q),
        S.fits_less _ _ (omega (arith, ap length e, length-append (S.tasks w) (t ∷ []))) room,
        requeue-Between c v t w room' md,
      )

  -- `u` is `w` with a task taken out of the queue.
  pub record Popped (t : Task V) (w u : W) : Type 0 where
    pub taken : Without t (S.tasks w) (S.tasks u)
    pub same_next : S.next u ≡ S.next w
    pub same_waits : (c : ℕ) → S.Waits c w → S.Waits c u
    pub same_has : (c : ℕ) (v : V) → S.Has c v w → S.Has c v u

  -- The task that was taken, as the one in hand.
  Between-Mode :
      (c : ℕ) (v : V) (t : Task V) (w u : W)
      → Popped t w u
      → Between S c v w
      → Mode S c v t.future u
  Between-Mode c v t w u p (inl (old, hs, r)) = split (Holds-Without t _ _ p.taken c v hs)
    where
      split : Holds c v (t ∷ S.tasks u) → Mode S c v t.future u
      split (inl (s, o)) = inl (s, (omega (arith, p.same_next), o, p.same_waits c r))
      split (inr (ne, rest)) = inr (inl (ne, (omega (arith, p.same_next), rest, p.same_waits c r)))
  Between-Mode c v t w u p (inr (old, o, r)) =
      let (ne, rest) = Others-Without t _ _ p.taken c o in
      inr (inr (ne, (omega (arith, p.same_next), rest, p.same_has c v r)))

  -- A task that is taken needs one of the polls at least.
  pub Popped-Mode :
      (n c : ℕ) (v : V) (t : Task V) (w u : W)
      → Popped t w u
      → Ending n c v w
      → (a b n' m' : ℕ) × (a + n' ≤ suc (n - 1))
        × BoxCosts a b t.future
        × ListCosts n' m' (S.tasks u)
        × S.Fits (suc (length (S.tasks u) + (b + m')))
        × Mode S c v t.future u
  Popped-Mode n c v t w u p (m, l, room, bt) =
      let (a, b, n', m', hn, hm, k, l') = ListCosts-Without t _ _ p.taken n m l in
      (
        a,
        b,
        n',
        m',
        omega (arith, BoxCosts-pos a b t.future k),
        k,
        l',
        S.fits_less _ _ (omega (arith, length-Without t _ _ p.taken)) room,
        Between-Mode c v t w u p bt,
      )

  Holds-pos : (n m c : ℕ) (v : V) (l : List (Task V)) → ListCosts n m l → Holds c v l → 1 ≤ n
  Holds-pos n m c v [] q hs = absurd hs
  Holds-pos n m c v (t ∷ l) (a, b, n', m', hn, hm, k, q) hs =
      omega (arith, BoxCosts-pos a b t.future k)

  -- The result is there, or there is a poll to spend, and a look at the channel changes nothing.
  pub Ending-cases :
      (n c : ℕ) (v : V) (w : W)
      → Ending n c v w
      → (S.Has c v w)
        ⊎ ((1 ≤ n)
            × S.Waits c w
            × ((u : W)
                → S.tasks u ≡ S.tasks w
                → S.next u ≡ S.next w
                → S.Waits c u
                → Ending n c v u))
  Ending-cases n c v w (m, q, room, inr (old, o, r)) = inl r
  Ending-cases n c v w (m, q, room, inl (old, hs, r)) = inr (
    Holds-pos n m c v (S.tasks w) q hs,
    r,
    λ u e x r'. (
      m,
      subst (ListCosts n m) (sym e) q,
      subst (λ l. S.Fits (length l + m)) (sym e) room,
      inl (omega (arith, x), subst (Holds c v) (sym e) hs, r'),
    ),
  )

  -- The future that is blocked on joins the queue.
  pub spawned-Ending :
      (a b n m : ℕ) (f : Future V) (v : V) (w : W)
      → Costs a b f
      → Gives v f
      → ListCosts n m (S.tasks w)
      → S.Fits (suc (length (S.tasks w) + (b + m)))
      → Others (S.next w) (S.tasks w)
      → Ending (a + n) (S.next w) v (h.spawn f w).1
  spawned-Ending a b n m f v w c g q room others =
      let (id, e) = S.spawn_tasks f w (S.fits_less _ _ (omega arith) room) in
      let t : Task V = new_task id (wrapped (S.next w) f) in
      (
        b + m,
        subst (ListCosts (a + n) (b + m)) (sym e)
            (ListCosts-snoc n m a b (a + n) (b + m) (S.tasks w) t (omega arith) (omega arith) c q),
        S.fits_less _ _ (omega (arith, ap length e, length-append (S.tasks w) (t ∷ []))) room,
        inl (
          S.spawn_next f w,
          subst (Holds (S.next w) v) (sym e)
              (Holds-last (S.next w) v (S.tasks w) t (refl, g) others),
          S.spawn_fresh f w,
        ),
      )

  -- `u` is `w`, and its queue is empty: the result is there.
  pub emptied-Ending :
      (n c : ℕ) (v : V) (w u : W)
      → S.tasks w ≡ []
      → S.tasks u ≡ []
      → S.next u ≡ S.next w
      → (S.Has c v w → S.Has c v u)
      → Ending n c v w
      → Ending (n - 1) c v u
  emptied-Ending n c v w u e e' x keep (m, q, room, inl (old, hs, r)) =
      absurd (subst (Holds c v) e hs)
  emptied-Ending n c v w u e e' x keep (m, q, room, inr (old, o, r)) = (
    0,
    subst (ListCosts (n - 1) 0) (sym e') tt,
    S.fits_less _ _ (omega (arith, ap length e')) room,
    inr (omega (arith, x), subst (Others c) (sym e') tt, keep r),
  )
