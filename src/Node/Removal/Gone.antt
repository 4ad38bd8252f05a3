-- ===== src/Node/Removal/Gone.antt =====
-- The removal of an interface of a service or an action, for the two directions.
use zenoh_plugin_ros2dds.Base.{
  ◌≡◌, refl, sym, subst, Text, Bool, true, Option, none, some, Map, lookup, remove,
}
use zenoh_plugin_ros2dds.Base.Maps.Entries.{Table, Entries-lookup, lookup-remove_self}
use zenoh_plugin_ros2dds.Interfaces.{Interface}
use zenoh_plugin_ros2dds.Node.{NodeInfo, fullname}
use zenoh_plugin_ros2dds.Node.Spec.{IsNamed}
use zenoh_plugin_ros2dds.Node.Update.{Updated}
use zenoh_plugin_ros2dds.Node.Removal.{find_key, or_return}
use zenoh_plugin_ros2dds.Node.Removal.Maps.{find_key-lookup}

-- The interface was stored, passes the test for the endpoint, and is stored no more.
abbrev pub IsGone :
    {E : Type 0}
    → (Interface E → Bool)
    → NodeInfo
    → Text
    → Map (Interface E)
    → Map (Interface E)
    → Interface E
    → Type 0
IsGone uses n node before after v =
    (node ≡ fullname n)
    × (lookup v.name before ≡ some v)
    × (uses v ≡ true)
    × (lookup v.name after ≡ none)

-- What `find_key` finds is gone after the removal of its key.
pub find_key-IsGone :
    {E : Type 0} (uses : Interface E → Bool) (n : NodeInfo) (m : Map (Interface E)) (k : Text)
    → Table IsNamed m
    → find_key uses m ≡ some k
    → (v : Interface E) × (lookup k m ≡ some v) × IsGone uses n (fullname n) m (remove k m) v
find_key-IsGone {E} uses n m k table h =
    let (v, held, passed) = find_key-lookup uses m k table.0 h in
    let named : v.name ≡ k = Entries-lookup IsNamed k v m table.1 held in
    (
      v,
      held,
      (
        refl,
        subst (λ (j : Text). lookup j m ≡ some v) (sym named) held,
        passed,
        subst (λ (j : Text). lookup j (remove k m) ≡ none) (sym named) (lookup-remove_self k m),
      ),
    )

-- A property of every place where the method can return.
pub or_return_ind {ℓ} :
    (P : Updated → Type ℓ) (o : Option Text) (found : Text → Updated) (rest : Updated)
    → ((k : Text) → o ≡ some k → P (found k))
    → (o ≡ none → P rest)
    → P (or_return o found rest)
or_return_ind P none found rest f r = r refl
or_return_ind P (some k) found rest f r = f k refl
