-- ===== src/Routes/ForwardQueue/Eviction.antt =====
-- What the loop of `push` evicts: the oldest commands, and no more than the limits ask for.
use zenoh_plugin_ros2dds.Base.{
  ℕ, zero, suc, ◌+◌, ◌<◌, ◌≡◌, refl, ap, subst, ◌∙◌, Bool, true, false, not, ◌&&◌, ◌||◌, Bool-cases,
  inl, inr, some, List, [], ◌∷◌, length, is_empty, drop, ltb, leb, arith,
}
use zenoh_plugin_ros2dds.Routes.ForwardQueue.{
  FwdCmd, Channel, FwdQueue, size, wrapping_add, wrapping_sub, fwd_queue_bytes, is_over, pop, evict,
}
use zenoh_plugin_ros2dds.Routes.ForwardQueue.Fifo.{IsFifo, IsReceived, IsCounted, total, half_word}

-- The condition of the loop, of the list of commands.
abbrev pub overflows : ℕ → ℕ → List FwdCmd → Bool
overflows limit len xs =
    leb limit (length xs) || (not (is_empty xs) && ltb fwd_queue_bytes (total xs + len))

module _ {C : Type 0} ⦃c : Channel C⦄ ⦃f : IsFifo C⦄ where
  pub record Evicted (len : ℕ) (q : FwdQueue C) (r : FwdQueue C × ℕ) : Type 0 where
    pub counted : IsCounted r.0
    pub left : f.contents r.0.channel ≡ drop r.1 (f.contents q.channel)
    pub capacity : f.capacity r.0.channel ≡ f.capacity q.channel
    pub limit : r.0.limit ≡ q.limit
    pub dropped : r.0.dropped ≡ q.dropped
    pub enough : overflows q.limit len (f.contents r.0.channel) ≡ false
    pub needed : (j : ℕ) → j < r.1 → overflows q.limit len (drop j (f.contents q.channel)) ≡ true

  is_over-overflows :
      (len : ℕ) (q : FwdQueue C)
      → IsCounted q
      → len < half_word
      → is_over len q ≡ overflows q.limit len (f.contents q.channel)
  is_over-overflows len q h l =
      let e : wrapping_add q.bytes len ≡ total (f.contents q.channel) + len =
        omega (arith, h.0, h.1, l) in
      rw (f.len_lem q.channel, f.is_empty_lem q.channel, e) refl

  unchanged :
      (len : ℕ) (q : FwdQueue C)
      → IsCounted q
      → overflows q.limit len (f.contents q.channel) ≡ false
      → Evicted len q (q, 0)
  unchanged len q h e = record {
    counted = h;
    left = refl;
    capacity = refl;
    limit = refl;
    dropped = refl;
    enough = e;
    needed = λ j b. absurd (omega (arith, b));
  }

  -- One more command at the front.
  one_more :
      (len : ℕ) (q q' : FwdQueue C) (x : FwdCmd) (xs : List FwdCmd) (r : FwdQueue C × ℕ)
      → f.contents q.channel ≡ x ∷ xs
      → f.contents q'.channel ≡ xs
      → f.capacity q'.channel ≡ f.capacity q.channel
      → q'.limit ≡ q.limit
      → q'.dropped ≡ q.dropped
      → overflows q.limit len (f.contents q.channel) ≡ true
      → Evicted len q' r
      → Evicted len q (r.0, suc r.1)
  one_more len q q' x xs r e e' c l d over h = record {
    counted = h.counted;
    left = h.left ∙ rw (e, e') refl;
    capacity = h.capacity ∙ c;
    limit = h.limit ∙ l;
    dropped = h.dropped ∙ d;
    enough = rw (← l) h.enough;
    needed = needs;
  }
    where
      needs : (j : ℕ) → j < suc r.1 → overflows q.limit len (drop j (f.contents q.channel)) ≡ true
      needs zero b = over
      needs (suc j) b = rw (e, ← e', ← l) (h.needed j (omega (arith, b)))

  after_pop :
      (fuel len : ℕ) (q : FwdQueue C) (x : FwdCmd) (d : C) (r : FwdQueue C × ℕ)
      → is_over len q ≡ true
      → c.try_recv q.channel ≡ some (x, d)
      → evict fuel len (record q { channel = d; bytes = wrapping_sub q.bytes (size x) }) ≡ some r
      → evict (suc fuel) len q ≡ some (r.0, suc r.1)
  unfolding evict pop
  after_pop fuel len q x d r over received h = rw (over, received, h) refl

  pub evict-Evicted :
      (fuel len : ℕ) (q : FwdQueue C) (xs : List FwdCmd)
      → f.contents q.channel ≡ xs
      → IsCounted q
      → len < half_word
      → 0 < q.limit
      → length xs < fuel
      → (r : FwdQueue C × ℕ) × (evict fuel len q ≡ some r) × Evicted len q r
  unfolding evict
  evict-Evicted zero len q xs e h l m b = absurd (omega (arith, b))
  evict-Evicted (suc fuel) len q [] e h l m b =
      let fits : overflows q.limit len (f.contents q.channel) ≡ false = rw e (ground arith) in
      ((q, 0), rw (is_over-overflows len q h l ∙ fits) refl, unchanged len q h fits)
  evict-Evicted (suc fuel) len q (x ∷ xs) e h l m b =
      elim (Bool-cases (overflows q.limit len (f.contents q.channel))) [
        | inr fits ↦ ((q, 0), rw (is_over-overflows len q h l ∙ fits) refl, unchanged len q h fits)
        | inl over ↦
            let (d, received, left, capacity) =
              subst
                (λ (l : List FwdCmd).
                  IsReceived f.contents f.capacity (f.capacity q.channel) l (c.try_recv q.channel))
                e (f.try_recv_lem q.channel) in
            let q' = record q { channel = d; bytes = wrapping_sub q.bytes (size x) } in
            let counted : q.bytes ≡ size x + total xs = h.0 ∙ ap total e in
            let counted' : IsCounted q' =
              (omega (arith, counted, h.1, ap total left), omega (arith, counted, h.1), h.2) in
            let (r, result, evicted) =
              evict-Evicted fuel len q' xs left counted' l m (omega (arith, b)) in
            (
              (r.0, suc r.1),
              after_pop fuel len q x d r (is_over-overflows len q h l ∙ over) received result,
              one_more len q q' x xs r e left capacity refl refl over evicted,
            )
      ]
