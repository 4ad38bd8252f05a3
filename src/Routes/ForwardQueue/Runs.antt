-- ===== src/Routes/ForwardQueue/Runs.antt =====
-- What a queue holds after any sequence of pushes and pops, each of them done before the next starts.
use mathlib.Core.List.{append_assoc, append-nil}
use zenoh_plugin_ros2dds.Base.{
  ℕ, ◌≤◌, ◌<◌, ◌≡◌, refl, ap, sym, subst, ◌∙◌, ◌⊎◌, inl, inr, Text, Bool, Option, none, some, List,
  [], ◌∷◌, ◌++◌, length, take, drop, take-append-drop, All, arith,
}
use zenoh_plugin_ros2dds.Routes.ForwardQueue.{
  FwdCmd, msg, Channel, FwdQueue, size, wrapping_sub, fwd_queue_max, new, push, pop,
}
use zenoh_plugin_ros2dds.Routes.ForwardQueue.Fifo.{IsFifo, IsReceived, IsCounted, total, half_word}
use zenoh_plugin_ros2dds.Routes.ForwardQueue.Push.{IsPushed, push-IsPushed}

pub data Op : Type 0 where
  push_op : Text → Bool → Op
  pop_op : Op

-- The samples that are pushed, in their order.
abbrev pub samples : List Op → List FwdCmd
samples [] = []
samples (push_op payload volatile ∷ ops) = msg payload volatile ∷ samples ops
samples (pop_op ∷ ops) = samples ops

-- A payload is shorter than 2^63 bytes.
abbrev pub IsShort : Op → Type 0
IsShort (push_op payload volatile) = length payload < half_word
IsShort pop_op = Unit

module _ {C : Type 0} ⦃c : Channel C⦄ where
  -- The operations one after the other; a pop from an empty queue leaves it.
  unfoldable pub run : List Op → FwdQueue C → Option (FwdQueue C)
  unfolding push pop
  run [] q = some q
  run (push_op payload volatile ∷ ops) q = elim (push payload volatile q) [
    | none ↦ none
    | some r ↦ run ops r.0
  ]
  run (pop_op ∷ ops) q = elim (pop q) [ none ↦ run ops q | some r ↦ run ops r.1 ]

module _ {C : Type 0} ⦃c : Channel C⦄ ⦃f : IsFifo C⦄ where
  -- The byte counter counts what is queued, which is within the limit and the last of what was sent.
  pub record IsLast (limit : ℕ) (sent : List FwdCmd) (q : FwdQueue C) : Type 0 where
    pub counted : IsCounted q
    pub limit_kept : q.limit ≡ limit
    pub within : length (f.contents q.channel) ≤ limit
    pub room : limit ≤ f.capacity q.channel
    pub gone : List FwdCmd
    pub order : gone ++ f.contents q.channel ≡ sent

  pushed-IsLast :
      (limit : ℕ) (sent : List FwdCmd) (payload : Text) (volatile : Bool) (q : FwdQueue C)
      (r : FwdQueue C × ℕ)
      → IsLast limit sent q
      → IsPushed payload volatile q r
      → IsLast limit (sent ++ msg payload volatile ∷ []) r.0
  pushed-IsLast limit sent payload volatile q r h p =
      let xs = f.contents q.channel in
      let m = msg payload volatile ∷ [] in
      record {
        counted = p.counted;
        limit_kept = p.limit ∙ h.limit_kept;
        within = omega (arith, p.within, h.limit_kept);
        room = omega (arith, p.capacity, h.room);
        gone = h.gone ++ take r.1 xs;
        order =
            ap (λ (l : List FwdCmd). (h.gone ++ take r.1 xs) ++ l) p.queued
            ∙ sym (append_assoc (h.gone ++ take r.1 xs) (drop r.1 xs) m)
            ∙ ap (λ (l : List FwdCmd). l ++ m)
                (append_assoc h.gone (take r.1 xs) (drop r.1 xs)
                  ∙ ap (λ (l : List FwdCmd). h.gone ++ l) (take-append-drop r.1 xs)
                  ∙ h.order);
      }

  popped-IsLast :
      (limit : ℕ) (sent : List FwdCmd) (q : FwdQueue C) (x : FwdCmd) (xs : List FwdCmd) (d : C)
      → IsLast limit sent q
      → f.contents q.channel ≡ x ∷ xs
      → f.contents d ≡ xs
      → f.capacity d ≡ f.capacity q.channel
      → IsLast limit sent (record q { channel = d; bytes = wrapping_sub q.bytes (size x) })
  popped-IsLast limit sent q x xs d h before after same = record {
    counted = (
      omega (arith, h.counted.0, h.counted.1, ap total before, ap total after),
      omega (arith, h.counted.0, h.counted.1, ap total before, ap total after),
      h.counted.2,
    );
    limit_kept = h.limit_kept;
    within =
        omega (arith, h.within, ap (length {A = FwdCmd}) before, ap (length {A = FwdCmd}) after);
    room = omega (arith, h.room, same);
    gone = h.gone ++ x ∷ [];
    order =
        append_assoc h.gone (x ∷ []) (f.contents d)
        ∙ ap (λ (l : List FwdCmd). h.gone ++ x ∷ l) after
        ∙ ap (λ (l : List FwdCmd). h.gone ++ l) (sym before)
        ∙ h.order;
  }

  pop-IsLast :
      (limit : ℕ) (sent : List FwdCmd) (q : FwdQueue C)
      → IsLast limit sent q
      → (pop q ≡ none) ⊎ ((r : FwdCmd × FwdQueue C) × (pop q ≡ some r) × IsLast limit sent r.1)
  unfolding pop
  pop-IsLast limit sent q h = of_contents (f.contents q.channel) refl (f.try_recv_lem q.channel)
    where
      of_contents :
          (xs : List FwdCmd)
          → f.contents q.channel ≡ xs
          → IsReceived f.contents f.capacity (f.capacity q.channel) xs (c.try_recv q.channel)
          → (pop q ≡ none) ⊎ ((r : FwdCmd × FwdQueue C) × (pop q ≡ some r) × IsLast limit sent r.1)
      of_contents [] e received = inl (rw (pop, received) refl)
      of_contents (x ∷ xs) e (d, received, left, same) = inr (
        (x, record q { channel = d; bytes = wrapping_sub q.bytes (size x) }),
        rw (pop, received) refl,
        popped-IsLast limit sent q x xs d h e left same,
      )

  run-IsLast :
      (limit : ℕ) (ops : List Op) (sent : List FwdCmd) (q : FwdQueue C)
      → 0 < limit
      → All IsShort ops
      → IsLast limit sent q
      → (r : FwdQueue C) × (run ops q ≡ some r) × IsLast limit (sent ++ samples ops) r
  unfolding run
  run-IsLast limit [] sent q l w h =
      (q, refl, subst (λ (xs : List FwdCmd). IsLast limit xs q) (sym (append-nil sent)) h)
  run-IsLast limit (push_op payload volatile ∷ ops) sent q l w h =
      let (r, result, p) =
        push-IsPushed payload volatile q h.counted w.0 (omega (arith, l, h.limit_kept))
          (omega (arith, h.room, h.limit_kept)) in
      let (s, rest, last) =
        run-IsLast limit ops (sent ++ msg payload volatile ∷ []) r.0 l w.1
          (pushed-IsLast limit sent payload volatile q r h p) in
      (
        s,
        rw (run, result) rest,
        subst (λ (xs : List FwdCmd). IsLast limit xs s)
            (append_assoc sent (msg payload volatile ∷ []) (samples ops)) last,
      )
  run-IsLast limit (pop_op ∷ ops) sent q l w h = elim (pop-IsLast limit sent q h) [
    | inl e ↦
        let (s, rest, last) = run-IsLast limit ops sent q l w.1 h in (s, rw (run, e) rest, last)
    | inr popped ↦
        let (r, e, h') = popped in
        let (s, rest, last) = run-IsLast limit ops sent r.1 l w.1 h' in (s, rw (run, e) rest, last)
  ]

  -- For a channel that keeps to flume's documentation, a limit from 1 to the channel's capacity and
  -- payloads of less than 2^63 bytes: any sequence of `push` and `pop` from a new queue ends, with the
  -- byte counter equal to the payload bytes that are queued, at most as many samples as the limit, and
  -- those the last ones that were pushed, in their order.
  pub run-new-IsLast :
      (limit : ℕ) (ops : List Op)
      → 0 < limit
      → limit ≤ fwd_queue_max
      → All IsShort ops
      → (r : FwdQueue C) × (run ops (new limit) ≡ some r) × IsLast limit (samples ops) r
  unfolding new
  run-new-IsLast limit ops l m w =
      let (empty, capacity) = f.bounded_lem fwd_queue_max (omega arith) in
      run-IsLast limit ops [] (new limit) l w (record {
        counted = (omega (arith, ap total empty), omega arith, omega arith);
        limit_kept = refl;
        within = omega (arith, ap (length {A = FwdCmd}) empty);
        room = omega (arith, m, capacity);
        gone = [];
        order = empty;
      })
