-- ===== src/Runtime/Receipt.antt =====
-- What a discovery event does to the queue of retries.
use zenoh_plugin_ros2dds.Base.{
  ℕ, ◌≡◌, refl, ◌⊎◌, inl, inr, Bool, true, false, not, Bool-cases, Option, some, List, [], ◌∷◌,
  ◌++◌, All, All-append, All-imp, filter, if◌then◌else◌, arith,
}
use zenoh_plugin_ros2dds.Externals.{KeyExprs, IsJoin}
use zenoh_plugin_ros2dds.Entities.{DiscoveredEntities}
use zenoh_plugin_ros2dds.Events.{Ros2DiscoveryEvent}
use zenoh_plugin_ros2dds.Config.{Regex, Allowance}
use zenoh_plugin_ros2dds.Ros2Utils.KeyExpressions.{Config}
use zenoh_plugin_ros2dds.Routes.{Calls, HasTokens}
use zenoh_plugin_ros2dds.RoutesMgr.{Outcomes}
use zenoh_plugin_ros2dds.RoutesMgr.Handlers.{on_ros_discovery_event-IsConsistent}
use zenoh_plugin_ros2dds.Runtime.{Runtime, same_interface, is_allowed, receive}
use zenoh_plugin_ros2dds.Runtime.Retries.{HasName, IsWaiting, IsSound}

module _ {ℓ} {A : Type ℓ} where
  pub All-filter {κ} :
      (P : A → Type κ) (p : A → Bool) (xs : List A) → All P xs → All P (filter p xs)
  unfolding filter
  All-filter P p [] h = tt
  All-filter P p (x ∷ xs) h = elim (Bool-cases (p x)) [
    | inl stays ↦ rw stays (h.0, All-filter P p xs h.1)
    | inr goes ↦ rw goes (All-filter P p xs h.1)
  ]

  pub filter-All : (p : A → Bool) (xs : List A) → All (λ x. p x ≡ true) (filter p xs)
  unfolding filter
  filter-All p [] = tt
  filter-All p (x ∷ xs) = elim (Bool-cases (p x)) [
    | inl stays ↦ rw stays (stays, filter-All p xs)
    | inr goes ↦ rw goes (filter-All p xs)
  ]

-- A waiting event is about another interface, or the new event itself after its first attempt.
abbrev pub IsCurrent : Ros2DiscoveryEvent → Ros2DiscoveryEvent × ℕ → Type 0
IsCurrent evt q = (same_interface q.0 evt ≡ false) ⊎ (q ≡ (evt, 1))

module _ ⦃k : KeyExprs⦄ ⦃j : IsJoin k⦄ ⦃c : Calls⦄ ⦃t : Outcomes⦄ {Q I T R : Type 0} ⦃x : Regex R⦄
    (config : Config) (allowance : Option (Allowance R)) (entities : DiscoveredEntities Q I T) where
  queued :
      (evt : Ros2DiscoveryEvent) (ok : Bool) (others : List (Ros2DiscoveryEvent × ℕ))
      → HasName config evt
      → All (IsWaiting config 0) others
      → All (IsCurrent evt) others
      → All (IsWaiting config 0) (if ok then others else others ++ (evt, 1) ∷ [])
        × All (IsCurrent evt) (if ok then others else others ++ (evt, 1) ∷ [])
  queued evt true others n w u = (w, u)
  queued evt false others n w u = (
    All-append (IsWaiting config 0) others ((evt, 1) ∷ []) w ((n, omega arith, omega arith), tt),
    All-append (IsCurrent evt) others ((evt, 1) ∷ []) u (inr refl, tt),
  )

  -- From a state with consistent routes in which every waiting event was tried from one to ten times
  -- and has a name with a key expression that zenoh accepts, an allowed event with such a name is
  -- received without a panic, if zenoh accepts also what the tokens of routes are made of (their key
  -- expressions and types, escaped): the state is as good afterwards, and no older event about the same interface waits; what
  -- waits is about other interfaces, or is this event after its first attempt.
  pub receive-IsCurrent :
      (evt : Ros2DiscoveryEvent) (s : Runtime)
      → is_allowed allowance evt ≡ true
      → HasName config evt
      → HasTokens c
      → IsSound config c 0 s
      → (s' : Runtime) × (receive config allowance entities evt s ≡ some s')
        × IsSound config c 0 s'
        × All (IsCurrent evt) s'.retry_queue
  unfolding receive
  receive-IsCurrent evt s allowed n tokens h =
      let others = filter (λ q. not (same_interface q.0 evt)) s.retry_queue in
      let (r, e, kept) =
        on_ros_discovery_event-IsConsistent config entities evt n.0 s.routes_mgr tokens h.0 n.1 in
      let (waiting, current) =
        queued evt r.1 others n
          (All-filter (IsWaiting config 0) (λ q. not (same_interface q.0 evt)) s.retry_queue h.1)
          (All-imp others (λ q g. inl (ground arith))
            (filter-All (λ q. not (same_interface q.0 evt)) s.retry_queue)) in
      (
        record { routes_mgr = r.0; retry_queue = if r.1 then others else others ++ (evt, 1) ∷ [] },
        rw (receive, allowed, e) refl,
        (kept, waiting),
        current,
      )
