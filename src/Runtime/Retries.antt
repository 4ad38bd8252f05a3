-- ===== src/Runtime/Retries.antt =====
-- How long a discovery event waits in the queue of retries.
use zenoh_plugin_ros2dds.Base.{
  Text, ℕ, zero, suc, ◌+◌, ◌≤◌, ◌<◌, ◌≡◌, refl, subst, Bool, true, false, Bool-cases, inl, inr,
  Option, none, some, List, [], ◌∷◌, ◌++◌, All, All-append, lookup, ltb, arith,
}
use zenoh_plugin_ros2dds.Externals.{KeyExprs, IsJoin}
use zenoh_plugin_ros2dds.Entities.{DiscoveredEntities}
use zenoh_plugin_ros2dds.Events.{Ros2DiscoveryEvent, interface_key}
use zenoh_plugin_ros2dds.Ros2Utils.KeyExpressions.{Config, Corresponds}
use zenoh_plugin_ros2dds.Routes.{Calls, HasTokens}
use zenoh_plugin_ros2dds.Routes.Action as Action
use zenoh_plugin_ros2dds.RoutesMgr.{
  RoutesMgr, Kind, publisher, subscriber, service_srv, service_cli, action_srv, action_cli, Stored,
  select, Outcomes,
}
use zenoh_plugin_ros2dds.RoutesMgr.Consistency.{IsUsed, IsConsistent}
use zenoh_plugin_ros2dds.RoutesMgr.Handlers.{on_ros_discovery_event-IsConsistent}
use zenoh_plugin_ros2dds.Runtime.{Runtime, max_event_retries, requeue, retry, tick}

-- Whether a route is unused does not depend on the answers of zenoh and Cyclone DDS.
IsUsed-calls :
    ⦃k : KeyExprs⦄ (c d : Calls) (kind : Kind) (o : Option (Stored kind))
    → IsUsed ⦃c = c⦄ kind o
    → IsUsed ⦃c = d⦄ kind o
unfolding Action.is_unused
IsUsed-calls c d publisher none h = tt
IsUsed-calls c d publisher (some r) h = h
IsUsed-calls c d subscriber none h = tt
IsUsed-calls c d subscriber (some r) h = h
IsUsed-calls c d service_srv none h = tt
IsUsed-calls c d service_srv (some r) h = h
IsUsed-calls c d service_cli none h = tt
IsUsed-calls c d service_cli (some r) h = h
IsUsed-calls c d action_srv none h = tt
IsUsed-calls c d action_srv (some r) h = h
IsUsed-calls c d action_cli none h = tt
IsUsed-calls c d action_cli (some r) h = h

IsConsistent-calls :
    ⦃k : KeyExprs⦄ (c d : Calls) (config : Config) (s : RoutesMgr)
    → IsConsistent ⦃c = c⦄ config s
    → IsConsistent ⦃c = d⦄ config s
IsConsistent-calls c d config s h = record {
  listed = h.listed;
  used = λ kind name. IsUsed-calls c d kind (lookup name (select kind s)) (h.used kind name);
  has_key = h.has_key;
  distinct = h.distinct;
}

module _ ⦃k : KeyExprs⦄ ⦃j : IsJoin k⦄ (config : Config) where
  -- The name of the event's interface has a key expression.
  abbrev pub HasName : Ros2DiscoveryEvent → Type 0
  HasName evt = (ke : Text) × Corresponds config (interface_key evt).2 ke

  -- The routes are consistent, and each event that waits was tried more than `n` times, and at most
  -- as often as it is tried at all.
  abbrev pub IsWaiting : ℕ → Ros2DiscoveryEvent × ℕ → Type 0
  IsWaiting n q = HasName q.0 × (n < q.1) × (q.1 ≤ max_event_retries)

  abbrev pub IsSound : Calls → ℕ → Runtime → Type 0
  IsSound c n s = IsConsistent ⦃c = c⦄ config s.routes_mgr × All (IsWaiting n) s.retry_queue

  requeue-IsWaiting :
      (n : ℕ) (evt : Ros2DiscoveryEvent) (attempts : ℕ) (ok : Bool)
      → IsWaiting n (evt, attempts)
      → All (IsWaiting (suc n)) (requeue evt attempts ok)
  requeue-IsWaiting n evt attempts true h = tt
  requeue-IsWaiting n evt attempts false h = elim (Bool-cases (ltb attempts max_event_retries)) [
    | inl again ↦ rw again ((h.0, ground arith, ground arith), tt)
    | inr given_up ↦ rw given_up tt
  ]

  module _ {Q I T : Type 0} (entities : DiscoveredEntities Q I T) where
    retry-IsSound :
        (calls : ℕ → Calls) (outcomes : ℕ → Outcomes) (c : Calls) (n : ℕ)
        (pending : List (Ros2DiscoveryEvent × ℕ)) (s : Runtime)
        → ((i : ℕ) → HasTokens (calls i))
        → IsSound c (suc n) s
        → All (IsWaiting n) pending
        → (s' : Runtime) × (retry config entities calls outcomes pending s ≡ some s')
          × IsSound c (suc n) s'
    unfolding retry
    retry-IsSound calls outcomes c n [] s tokens h w = (s, refl, h)
    retry-IsSound calls outcomes c n ((evt, attempts) ∷ pending) s tokens h w =
        let (r, e, kept) =
          on_ros_discovery_event-IsConsistent ⦃c = calls 0⦄ ⦃t = outcomes 0⦄ config entities evt
            w.0.0.0 s.routes_mgr (tokens 0) (IsConsistent-calls c (calls 0) config s.routes_mgr h.0)
            w.0.0.1 in
        let s1 : Runtime = record {
          routes_mgr = r.0;
          retry_queue = s.retry_queue ++ requeue evt attempts r.1;
        } in
        let sound : IsSound c (suc n) s1 = (
          IsConsistent-calls (calls 0) c config r.0 kept,
          All-append (IsWaiting (suc n)) s.retry_queue (requeue evt attempts r.1) h.1
              (requeue-IsWaiting n evt attempts r.1 w.0),
        ) in
        let (s', e', h') =
          retry-IsSound (λ i. calls (i + 1)) (λ i. outcomes (i + 1)) c n pending s1
            (λ i. tokens (i + 1)) sound w.1 in
        (s', rw (retry, e) e', h')

    -- A tick of the timer does not panic.
    tick-IsSound :
        (calls : ℕ → Calls) (outcomes : ℕ → Outcomes) (c : Calls) (n : ℕ) (s : Runtime)
        → ((i : ℕ) → HasTokens (calls i))
        → IsSound c n s
        → (s' : Runtime) × (tick config entities calls outcomes s ≡ some s') × IsSound c (suc n) s'
    unfolding tick
    tick-IsSound calls outcomes c n s tokens h =
        let (s', e, h') =
          retry-IsSound calls outcomes c n s.retry_queue (record s { retry_queue = [] }) tokens
            (h.0, tt) h.1 in
        (s', rw (tick, e) refl, h')

    -- A number of ticks in a row, with no event between them.
    unfoldable pub ticks : ℕ → (ℕ → ℕ → Calls) → (ℕ → ℕ → Outcomes) → Runtime → Option Runtime
    unfolding tick
    ticks zero calls outcomes s = some s
    ticks (suc n) calls outcomes s = elim (tick config entities (calls n) (outcomes n) s) [
      | none ↦ none
      | some s' ↦ ticks n calls outcomes s'
    ]

    ticks-IsSound :
        (m : ℕ) (calls : ℕ → ℕ → Calls) (outcomes : ℕ → ℕ → Outcomes) (c : Calls) (n : ℕ)
        (s : Runtime)
        → ((m i : ℕ) → HasTokens (calls m i))
        → IsSound c n s
        → (s' : Runtime) × (ticks m calls outcomes s ≡ some s') × IsSound c (m + n) s'
    unfolding ticks
    ticks-IsSound zero calls outcomes c n s tokens h =
        (s, refl, subst (λ (i : ℕ). IsSound c i s) (omega arith) h)
    ticks-IsSound (suc m) calls outcomes c n s tokens h =
        let (s1, e1, h1) = tick-IsSound (calls m) (outcomes m) c n s (tokens m) h in
        let (s', e', h') = ticks-IsSound m calls outcomes c (suc n) s1 tokens h1 in
        (
          s',
          rw (ticks, e1) e',
          subst (λ (i : ℕ). IsSound c i s') {x = m + suc n} {y = suc m + n} (omega arith) h',
        )

    none_waits : (l : List (Ros2DiscoveryEvent × ℕ)) → All (IsWaiting max_event_retries) l → l ≡ []
    none_waits [] h = refl
    none_waits (q ∷ l) h = absurd (omega (arith, h.0.1, h.0.2))

    -- From a state with consistent routes in which every waiting event was tried from one to ten times
    -- and has a name with a key expression that zenoh accepts, where it always accepts also what the
    -- tokens of routes are made of (their key expressions and types, escaped): whatever zenoh and
    -- Cyclone DDS answer each time, ten ticks of the timer with no event between them end without a
    -- panic, with consistent routes, and with no event that still waits.
    pub ticks_end :
        (calls : ℕ → ℕ → Calls) (outcomes : ℕ → ℕ → Outcomes) (c : Calls) (s : Runtime)
        → ((m i : ℕ) → HasTokens (calls m i))
        → IsSound c 0 s
        → (s' : Runtime) × (ticks max_event_retries calls outcomes s ≡ some s')
          × IsConsistent ⦃c = c⦄ config s'.routes_mgr
          × (s'.retry_queue ≡ [])
    ticks_end calls outcomes c s tokens h =
        let (s', e, h') = ticks-IsSound max_event_retries calls outcomes c 0 s tokens h in
        (s', e, h'.0, none_waits s'.retry_queue h'.1)
