-- ===== src/Runtime/Examples.antt =====
-- A configuration, and a queue with an event that failed.
use zenoh_plugin_ros2dds.Base.{
  ℕ, ◌≡◌, refl, Text, Bool, codes, true, false, not, none, some, [], ◌∷◌, All, str_eq,
  is_char_boundary, arith,
}
use zenoh_plugin_ros2dds.Events.{interface_key, Ros2AnnouncementEvent}
use zenoh_plugin_ros2dds.Config.{Regex, Ros2InterfacesRegex, allow, deny}
use zenoh_plugin_ros2dds.Ros2Utils.KeyExpressions.{
  Corresponds, ros2_name_to_key_expr, key_expr_to_ros2_name,
}
use zenoh_plugin_ros2dds.Routes.{Calls}
use zenoh_plugin_ros2dds.RoutesMgr.{Outcomes, new}
use zenoh_plugin_ros2dds.RoutesMgr.Consistency.{IsConsistent, new-IsConsistent}
use zenoh_plugin_ros2dds.RoutesMgr.Examples.{
  slashes, slashes-IsJoin, all_calls, all_outcomes, bot, no_entities, found, told,
}
use zenoh_plugin_ros2dds.RoutesMgr.Handlers.{announced_key_expr}
use zenoh_plugin_ros2dds.Runtime.{Runtime, is_allowed, is_announcement_allowed, receive}
use zenoh_plugin_ros2dds.Runtime.Allowed.{
  counterpart, is_announcement_allowed-counterpart, is_allowed-deny,
}
use zenoh_plugin_ros2dds.Runtime.Retries.{HasName, IsSound, ticks, ticks_end}
use zenoh_plugin_ros2dds.Runtime.Receipt.{IsCurrent, receive-IsCurrent}
use zenoh_plugin_ros2dds.Runtime.Announcements.{
  Remotes, msg_route_id, receive_announcement, prune_pending,
}
use zenoh_plugin_ros2dds.Runtime.Announcements.Superseded.{
  IsCurrentAnnouncement, receive_announcement-IsCurrent,
}
use zenoh_plugin_ros2dds.Runtime.Announcements.Lost.{AreRid, prune_pending-AreRid}

-- An expression that matches one text.
instance abbrev one_text : Regex Text
one_text = record { is_match = str_eq }

abbrev adders : Ros2InterfacesRegex Text
adders = record {
  publishers = none;
  subscribers = none;
  service_servers = some (codes "/add");
  service_clients = none;
  action_servers = none;
  action_clients = none;
}

is_allowed-deny_example :
    is_allowed (some (deny adders)) found ≡ not (is_allowed (some (allow adders)) found)
is_allowed-deny_example = is_allowed-deny adders found

told_name : key_expr_to_ros2_name (announced_key_expr told) bot ≡ some (codes "/add")
unfolding announced_key_expr key_expr_to_ros2_name is_char_boundary
told_name = refl

is_announcement_allowed-counterpart_example :
    is_announcement_allowed (some (allow adders)) bot told
    ≡ some (is_allowed (some (allow adders)) (counterpart told (codes "/add")))
is_announcement_allowed-counterpart_example =
    is_announcement_allowed-counterpart (some (allow adders)) bot told (codes "/add") told_name

-- No call of zenoh or Cyclone DDS works, and no route is made.
abbrev no_calls : Calls
no_calls = record all_calls { declares = λ n. false; activates = λ n. false; matches = λ n. false }

abbrev no_outcomes : Outcomes
no_outcomes = record { creates = λ n. false; adapts = λ n. false }

abbrev failed : Runtime
failed = record { routes_mgr = new; retry_queue = (found, 3) ∷ [] }

found_name : HasName bot found
unfolding interface_key ros2_name_to_key_expr key_expr_to_ros2_name is_char_boundary
found_name = (codes "bot/add", (refl, refl, refl))

failed-IsSound : IsSound bot all_calls 0 failed
failed-IsSound = (new-IsConsistent bot, ((found_name, omega arith, omega arith), tt))

ticks_end_example :
    (s : Runtime) × (ticks bot no_entities 10 (λ n i. no_calls) (λ n i. no_outcomes) failed
      ≡ some s)
    × IsConsistent ⦃c = all_calls⦄ bot s.routes_mgr
    × (s.retry_queue ≡ [])
ticks_end_example =
    ticks_end bot no_entities (λ n i. no_calls) (λ n i. no_outcomes) all_calls failed
      (λ m i n. (refl, refl)) failed-IsSound

all_allowed : is_allowed {R = Text} none found ≡ true
unfolding is_allowed
all_allowed = refl

receive-IsCurrent_example :
    (s : Runtime) × (receive {R = Text} bot none no_entities ⦃c = all_calls⦄ ⦃t = no_outcomes⦄ found
        failed
      ≡ some s)
    × IsSound bot all_calls 0 s
    × All (IsCurrent found) s.retry_queue
receive-IsCurrent_example =
    receive-IsCurrent ⦃c = all_calls⦄ ⦃t = no_outcomes⦄ {R = Text} bot none no_entities found failed
      all_allowed found_name (λ n. (refl, refl)) failed-IsSound

abbrev any_qos : Bool → ℕ → Text
any_qos keyless q = codes ":::"

abbrev chatter : Ros2AnnouncementEvent ℕ
chatter =
    Ros2AnnouncementEvent.announced_msg_pub (codes "b2") (codes "bot/chatter") (codes "String") true
      0

-- The announcement of a bridge that was lost waits.
abbrev lost : Remotes ℕ
lost = record {
  routes_mgr = new;
  announcement_retry_queue = (chatter, 1) ∷ [];
  pending_prunes = codes "b2" ∷ [];
}

chatter_name : Corresponds bot (codes "/chatter") (announced_key_expr chatter)
unfolding announced_key_expr ros2_name_to_key_expr key_expr_to_ros2_name is_char_boundary
chatter_name = (refl, refl, refl)

chatter_allowed : is_announcement_allowed {R = Text} none bot chatter ≡ some true
unfolding is_announcement_allowed
chatter_allowed = refl

receive_announcement-IsCurrent_example :
    (s : Remotes ℕ) × (receive_announcement any_qos ⦃c = all_calls⦄ ⦃t = no_outcomes⦄ bot {R = Text}
        none chatter lost
      ≡ some s)
    × IsConsistent ⦃c = all_calls⦄ bot s.routes_mgr
    × (s.pending_prunes ≡ codes "b2" ∷ [])
    × All
        (IsCurrentAnnouncement any_qos chatter (msg_route_id any_qos chatter))
        s.announcement_retry_queue
receive_announcement-IsCurrent_example =
    receive_announcement-IsCurrent any_qos ⦃c = all_calls⦄ ⦃t = no_outcomes⦄ {R = Text} bot none
      chatter (codes "/chatter") lost chatter_allowed chatter_name (new-IsConsistent bot)

prune_pending-AreRid_example :
    (s : Remotes ℕ) × (prune_pending any_qos ⦃c = all_calls⦄ ⦃t = no_outcomes⦄ bot (λ z. false) lost
      ≡ some s)
    × IsConsistent ⦃c = all_calls⦄ bot s.routes_mgr
    × (s.pending_prunes ≡ [])
    × AreRid any_qos ⦃c = all_calls⦄ ⦃t = no_outcomes⦄ bot (λ z. false) (codes "b2" ∷ []) s
prune_pending-AreRid_example =
    prune_pending-AreRid any_qos ⦃c = all_calls⦄ ⦃t = no_outcomes⦄ bot (λ z. false) lost
      (new-IsConsistent bot)
