-- ===== src/Routes/ForwardQueue/Push.antt =====
-- What `push` and `pop` do to the queue.
use zenoh_plugin_ros2dds.Base.{
  ℕ, zero, suc, ◌+◌, ◌%◌, ◌≤◌, ◌<◌, ◌≡◌, refl, ap, sym, subst, ◌∙◌, ◌⊎◌, inl, inr, Text, Bool, true,
  false, ◌||◌, Bool-cases, some, List, [], ◌∷◌, ◌++◌, length, length-append, drop, ltb, leb, arith,
}
use zenoh_plugin_ros2dds.Routes.ForwardQueue.{
  FwdCmd, msg, Channel, FwdQueue, word, wrapping_add, fwd_queue_bytes, evict, send, push,
  count_dropped,
}
use zenoh_plugin_ros2dds.Routes.ForwardQueue.Fifo.{
  IsFifo, IsCounted, total, total-append, half_word,
}
use zenoh_plugin_ros2dds.Routes.ForwardQueue.Eviction.{overflows, Evicted, evict-Evicted}

drop_all {ℓ} : {A : Type ℓ} (xs : List A) → drop (length xs) xs ≡ []
drop_all [] = refl
drop_all (x ∷ xs) = drop_all xs

free-budget :
    (limit len : ℕ) (xs : List FwdCmd)
    → overflows limit len xs ≡ false
    → (length xs < limit) × ((total xs + len ≤ fwd_queue_bytes) ⊎ (xs ≡ []))
free-budget limit len [] h = (ground arith, inr refl)
free-budget limit len (x ∷ xs) h = (ground arith, inl (ground arith))

sent_budget :
    (payload : Text) (volatile : Bool) (xs ys : List FwdCmd)
    → ys ≡ xs ++ msg payload volatile ∷ []
    → (total xs + length payload ≤ fwd_queue_bytes) ⊎ (xs ≡ [])
    → (total ys ≤ fwd_queue_bytes) ⊎ (ys ≡ msg payload volatile ∷ [])
sent_budget payload volatile xs ys e (inl small) =
    inl (omega (arith, ap total e, total-append xs (msg payload volatile ∷ []), small))
sent_budget payload volatile xs ys e (inr empty) = inr (rw (e, empty) refl)

small_total :
    (payload : Text) (volatile : Bool) (ys : List FwdCmd)
    → length payload < half_word
    → (total ys ≤ fwd_queue_bytes) ⊎ (ys ≡ msg payload volatile ∷ [])
    → total ys < half_word
small_total payload volatile ys l (inl small) = omega (arith, small)
small_total payload volatile ys l (inr alone) = omega (arith, ap total alone, l)

module _ {C : Type 0} ⦃c : Channel C⦄ ⦃f : IsFifo C⦄ where
  pub record IsPushed (payload : Text) (volatile : Bool) (q : FwdQueue C) (r : FwdQueue C × ℕ)
      : Type 0 where
    pub counted : IsCounted r.0
    pub queued :
        f.contents r.0.channel ≡ drop r.1 (f.contents q.channel) ++ msg payload volatile ∷ []
    pub limit : r.0.limit ≡ q.limit
    pub capacity : f.capacity r.0.channel ≡ f.capacity q.channel
    pub within : length (f.contents r.0.channel) ≤ q.limit
    pub budget :
        (total (f.contents r.0.channel) ≤ fwd_queue_bytes)
        ⊎ (f.contents r.0.channel ≡ msg payload volatile ∷ [])
    pub needed :
        (j : ℕ)
        → j < r.1
        → overflows q.limit (length payload) (drop j (f.contents q.channel)) ≡ true
    pub evicted : r.1 ≤ length (f.contents q.channel)
    pub dropped : r.0.dropped ≡ (q.dropped + r.1) % word

  -- No more is evicted than was queued.
  Evicted-bounded :
      (len : ℕ) (q : FwdQueue C) (r : FwdQueue C × ℕ)
      → 0 < q.limit
      → Evicted len q r
      → r.1 ≤ length (f.contents q.channel)
  Evicted-bounded len q r m h = elim (Bool-cases (ltb (length (f.contents q.channel)) r.1)) [
    | inr few ↦ ground arith
    | inl many ↦
        let over = h.needed (length (f.contents q.channel)) (ground arith) in
        let never : leb q.limit 0 || false ≡ true =
          subst (λ (xs : List FwdCmd). overflows q.limit len xs ≡ true)
            (drop_all (f.contents q.channel)) over in
        absurd (ground arith)
  ]

  count_dropped_lem :
      (e : ℕ) (q : FwdQueue C)
      → q.dropped < word
      → count_dropped e q ≡ record q { dropped = (q.dropped + e) % word }
  count_dropped_lem zero q h = ap (λ (d : ℕ). record q { dropped = d }) (omega (arith, h))
  count_dropped_lem (suc e) q h = ground arith

  sent-IsPushed :
      (payload : Text) (volatile : Bool) (q : FwdQueue C) (r : FwdQueue C × ℕ) (d : C)
      → length payload < half_word
      → 0 < q.limit
      → Evicted (length payload) q r
      → f.contents d ≡ f.contents r.0.channel ++ msg payload volatile ∷ []
      → f.capacity d ≡ f.capacity r.0.channel
      → IsPushed payload volatile q (
        record r.0 {
          channel = d;
          bytes = wrapping_add r.0.bytes (length payload);
          dropped = (r.0.dropped + r.1) % word;
        },
        r.1,
      )
  sent-IsPushed payload volatile q r d l m h queue same =
      let xs = f.contents r.0.channel in
      let free = free-budget q.limit (length payload) xs h.enough in
      let sum : total (f.contents d) ≡ total xs + length payload =
        omega (arith, ap total queue, total-append xs (msg payload volatile ∷ [])) in
      let few : length (f.contents d) ≡ suc (length xs) =
        omega
          (arith, ap (length {A = FwdCmd}) queue, length-append xs (msg payload volatile ∷ [])) in
      let budget = sent_budget payload volatile xs (f.contents d) queue free.1 in
      let small = small_total payload volatile (f.contents d) l budget in
      record {
        counted = (
          omega (arith, sum, h.counted.0, small),
          omega (arith, sum, h.counted.0, small),
          omega arith,
        );
        queued = queue ∙ rw h.left refl;
        limit = h.limit;
        capacity = same ∙ h.capacity;
        within = omega (arith, few, free.0);
        budget = budget;
        needed = h.needed;
        evicted = Evicted-bounded (length payload) q r m h;
        dropped = rw h.dropped refl;
      }

  send_lem :
      (payload : Text) (volatile : Bool) (r : FwdQueue C × ℕ) (d : C)
      → c.try_send (msg payload volatile) r.0.channel ≡ some d
      → send payload volatile r ≡ (
        count_dropped r.1
            (record r.0 { channel = d; bytes = wrapping_add r.0.bytes (length payload) }),
        r.1,
      )
  send_lem payload volatile (q, evicted) d h = rw (send, h) refl

  send-IsPushed :
      (payload : Text) (volatile : Bool) (q : FwdQueue C) (r : FwdQueue C × ℕ)
      → IsCounted q
      → length payload < half_word
      → 0 < q.limit
      → q.limit ≤ f.capacity q.channel
      → Evicted (length payload) q r
      → IsPushed payload volatile q (send payload volatile r)
  send-IsPushed payload volatile q r k l m n h =
      let free = free-budget q.limit (length payload) (f.contents r.0.channel) h.enough in
      let (d, sent, queue, capacity) =
        f.try_send_lem r.0.channel (msg payload volatile) (omega (arith, free.0, n, h.capacity)) in
      let q' = record r.0 { channel = d; bytes = wrapping_add r.0.bytes (length payload) } in
      let result : send payload volatile r
          ≡ (record q' { dropped = (r.0.dropped + r.1) % word }, r.1) =
        send_lem payload volatile r d sent
        ∙ ap (λ (p : FwdQueue C). (p, r.1)) (count_dropped_lem r.1 q' h.counted.2) in
      subst (λ (p : FwdQueue C × ℕ). IsPushed payload volatile q p) (sym result)
        (sent-IsPushed payload volatile q r d l m h queue capacity)

  sends :
      (payload : Text) (volatile : Bool) (q : FwdQueue C) (r : FwdQueue C × ℕ)
      → evict (suc (c.len q.channel)) (length payload) q ≡ some r
      → push payload volatile q ≡ some (send payload volatile r)
  unfolding push
  sends payload volatile q r e = rw (push, e) refl

  -- For a channel that keeps to flume's documentation, a counted queue with a limit from 1 to the
  -- channel's capacity and a payload of less than 2^63 bytes, `push` ends (the loop's fuel is
  -- enough) and queues the payload last: it evicts the oldest commands, as many as it returns and
  -- no more than the limit and the byte budget need, counts them as dropped, and leaves a counted
  -- queue within its limit and, but for a payload alone, within the budget.
  pub push-IsPushed :
      (payload : Text) (volatile : Bool) (q : FwdQueue C)
      → IsCounted q
      → length payload < half_word
      → 0 < q.limit
      → q.limit ≤ f.capacity q.channel
      → (r : FwdQueue C × ℕ) × (push payload volatile q ≡ some r) × IsPushed payload volatile q r
  push-IsPushed payload volatile q h l m n =
      let (r, result, evicted) =
        evict-Evicted (suc (c.len q.channel)) (length payload) q (f.contents q.channel) refl h l m
          (omega (arith, f.len_lem q.channel)) in
      (
        send payload volatile r,
        sends payload volatile q r result,
        send-IsPushed payload volatile q r h l m n evicted,
      )
