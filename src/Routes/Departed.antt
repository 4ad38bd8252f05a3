-- ===== src/Routes/Departed.antt =====
-- Which remote routes a route drops when a bridge leaves.
use zenoh_plugin_ros2dds.Base.{
  ◌≡◌, refl, ap, ◌∙◌, Text, codes, Bool, true, not, ◌&&◌, ◌==◌, Bool-cases, inl, inr, List, [], ◌∷◌,
  ◌++◌, all, filter, starts_with, str_eq, eq_of_str_eq, arith,
}
use zenoh_plugin_ros2dds.Interfaces.{contains}
use zenoh_plugin_ros2dds.Routes.{Route, remote_key, retain_others}
use zenoh_plugin_ros2dds.Routes.Publisher as Publisher
use zenoh_plugin_ros2dds.Routes.Subscriber as Subscriber
use zenoh_plugin_ros2dds.Routes.ServiceSrv as ServiceSrv
use zenoh_plugin_ros2dds.Routes.ServiceCli as ServiceCli

-- The id of a bridge: hexadecimal digits, and no colon.
abbrev pub IsId : Text → Type 0
IsId id = all (λ b. not (b == 58)) id ≡ true

starts_with-remote_key :
    (id zid ke : Text)
    → IsId id
    → IsId zid
    → starts_with (remote_key id ke) (zid ++ codes ":") ≡ str_eq id zid
unfolding starts_with str_eq all
starts_with-remote_key [] [] ke h g = refl
starts_with-remote_key [] (b ∷ zid) ke h g = ground arith
starts_with-remote_key (a ∷ id) [] ke h g = ground arith
starts_with-remote_key (a ∷ id) (b ∷ zid) ke h g =
    let rest : IsId id = ground arith in
    let rest' : IsId zid = ground arith in rw (starts_with-remote_key id zid ke rest rest') refl

contains-filter :
    (p : Text → Bool) (x : Text) (s : List Text) → contains x (filter p s) ≡ (contains x s && p x)
unfolding contains filter
contains-filter p x [] = refl
contains-filter p x (y ∷ s) = elim (Bool-cases (str_eq y x)) [
  | inl same ↦
      let e : y ≡ x = eq_of_str_eq y x same in
      let f : p y ≡ p x = ap p e in
      let rest = contains-filter p x s in
      elim (Bool-cases (p x)) [
        | inl kept ↦ rw (same, f, kept, same) refl
        | inr dropped ↦ rw (same, f, dropped) (rest ∙ rw dropped (ground arith))
      ]
  | inr other ↦ elim (Bool-cases (p y)) [
    | inl kept ↦ rw (other, kept, other) (contains-filter p x s)
    | inr dropped ↦ rw (other, dropped) (contains-filter p x s)
  ]
]

-- Of the remote routes, those of one bridge go.
abbrev pub IsWithout : Text → List Text → List Text → Type 0
IsWithout zid routes left =
    (id ke : Text)
    → IsId id
    → contains (remote_key id ke) left ≡ (contains (remote_key id ke) routes && not (str_eq id zid))

retain_others-IsWithout :
    (zid : Text) (routes : List Text)
    → IsId zid
    → IsWithout zid routes (retain_others (zid ++ codes ":") routes)
retain_others-IsWithout zid routes h id ke g =
    contains-filter (λ e. not (starts_with e (zid ++ codes ":"))) (remote_key id ke) routes
    ∙ rw (starts_with-remote_key id zid ke g h) refl

publisher_left :
    (prefix : Text) (r : Route)
    → (Publisher.prune_remote_routes_with_prefix prefix r).0.remote_routes
      ≡ retain_others prefix r.remote_routes
unfolding Publisher.prune_remote_routes_with_prefix
publisher_left prefix r = ground arith

service_cli_left :
    (prefix : Text) (r : Route)
    → (ServiceCli.prune_remote_routes_with_prefix prefix r).0.remote_routes
      ≡ retain_others prefix r.remote_routes
unfolding ServiceCli.prune_remote_routes_with_prefix
service_cli_left prefix r = ground arith

-- For the id of a bridge, which holds no colon, `prune_remote_routes_with_prefix` with the prefix of
-- the id and a colon takes away just the remote routes of that bridge, from a route of each of the four
-- kinds: those of another bridge stay, also where one id begins with the other.
pub prune_remote_routes_with_prefix-IsWithout :
    (zid : Text) (r : Route)
    → IsId zid
    → IsWithout zid r.remote_routes
        (Publisher.prune_remote_routes_with_prefix (zid ++ codes ":") r).0.remote_routes
      × IsWithout zid r.remote_routes
          (Subscriber.prune_remote_routes_with_prefix (zid ++ codes ":") r).0.remote_routes
      × IsWithout zid r.remote_routes
          (ServiceSrv.prune_remote_routes_with_prefix (zid ++ codes ":") r).0.remote_routes
      × IsWithout zid r.remote_routes
          (ServiceCli.prune_remote_routes_with_prefix (zid ++ codes ":") r).0.remote_routes
unfolding Subscriber.prune_remote_routes_with_prefix ServiceSrv.prune_remote_routes_with_prefix
prune_remote_routes_with_prefix-IsWithout zid r h =
    let left = retain_others-IsWithout zid r.remote_routes h in
    (
      λ id ke g. rw (publisher_left (zid ++ codes ":") r) (left id ke g),
      left,
      left,
      λ id ke g. rw (service_cli_left (zid ++ codes ":") r) (left id ke g),
    )
