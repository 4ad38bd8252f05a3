-- ===== src/Node/Removal/Maps.antt =====
-- One map under the removal of an endpoint: what is found, what stays, and what uses the Gid after.
use zenoh_plugin_ros2dds.Base.{
  ◌≡◌, refl, ◌⊎◌, inl, inr, Text, Bool, true, false, ◌&&◌, none, some, List, [], ◌∷◌, Map, lookup,
  filter, is_empty, str_eq_refl, eq_of_str_eq, Bool-cases, arith,
}
use zenoh_plugin_ros2dds.Base.Maps.Entries.{Entries, Distinct, Table, Entries-imp}
use zenoh_plugin_ros2dds.Gid.{Gid}
use zenoh_plugin_ros2dds.Interfaces.{MsgPub, MsgSub, contains, without}
use zenoh_plugin_ros2dds.Node.Spec.{IsPubEntry, IsSubEntry}
use zenoh_plugin_ros2dds.Node.Removal.{release_writer, release_reader, find_key, retain_others}

pub contains-without : (g : Gid) (s : List Gid) → contains g (without g s) ≡ false
unfolding contains without
contains-without g [] = refl
contains-without g (h ∷ s) = ground (arith, contains-without g s)

pub without_of_not_contains : (g : Gid) (s : List Gid) → contains g s ≡ false → without g s ≡ s
unfolding contains without
without_of_not_contains g [] h = refl
without_of_not_contains g (k ∷ s) h = ground (arith, without_of_not_contains g s)

pub contains-retain_others : (g : Gid) (s : List Gid) → contains g (retain_others g s) ≡ false
unfolding contains filter
contains-retain_others g [] = refl
contains-retain_others g (h ∷ s) = ground (arith, contains-retain_others g s)

module _ {ℓ} {V : Type ℓ} (p : V → Bool) where
  pub find_key-none : (m : Map V) → find_key p m ≡ none → Entries (λ k v. p v ≡ false) m
  unfolding find_key
  find_key-none [] h = tt
  find_key-none ((k, v) ∷ m) h = ground (arith, find_key-none m)

  -- The key that is found belongs to an entry that passes the test.
  pub find_key-lookup :
      (m : Map V) (k : Text)
      → Distinct m
      → find_key p m ≡ some k
      → (v : V) × (lookup k m ≡ some v) × (p v ≡ true)
  unfolding find_key lookup
  find_key-lookup [] k d h = cc
  find_key-lookup ((j, w) ∷ m) k d h = elim (Bool-cases (p w)) [
    | inl found ↦ (w, ground (arith, str_eq_refl k), found)
    | inr other ↦
        let (v, held, passed) = find_key-lookup m k d.1 (ground arith) in
        (v, ground (arith, eq_of_str_eq j k), passed)
  ]

module _ (g : Gid) where
  -- With nothing emptied the entries keep an endpoint, and none has this one.
  pub release_writer-none :
      (m : Map MsgPub)
      → Entries IsPubEntry m
      → (release_writer g m).1 ≡ none
      → Entries (λ k v. IsPubEntry k v × (contains g v.writers ≡ false)) (release_writer g m).0
  unfolding release_writer
  release_writer-none [] h e = tt
  release_writer-none ((k, v) ∷ m) h e = ground (
    arith,
    release_writer-none m h.1,
    contains-without g v.writers,
    without_of_not_contains g v.writers,
  )

module _ (g : Gid) where
  -- With nothing emptied the entries keep an endpoint, and none has this one.
  pub release_reader-none :
      (m : Map MsgSub)
      → Entries IsSubEntry m
      → (release_reader g m).1 ≡ none
      → Entries (λ k v. IsSubEntry k v × (contains g v.readers ≡ false)) (release_reader g m).0
  unfolding release_reader
  release_reader-none [] h e = tt
  release_reader-none ((k, v) ∷ m) h e = ground (
    arith,
    release_reader-none m h.1,
    contains-without g v.readers,
    without_of_not_contains g v.readers,
  )

  -- With an entry emptied, that entry had this endpoint alone, and the others keep an endpoint.
  pub release_writer-some :
      (m : Map MsgPub) (k : Text)
      → Table IsPubEntry m
      → (release_writer g m).1 ≡ some k
      → (v : MsgPub) × (lookup k m ≡ some v)
        × (contains g v.writers ≡ true)
        × (lookup k (release_writer g m).0 ≡ some (record v { writers = [] }))
        × Entries (λ j u. (j ≡ k) ⊎ IsPubEntry j u) (release_writer g m).0
  unfolding release_writer lookup
  release_writer-some [] k h e = cc
  release_writer-some ((j, u) ∷ m) k h e =
      elim (Bool-cases (contains g u.writers && is_empty (without g u.writers))) [
        | inl emptied ↦ (
          u,
          ground (arith, str_eq_refl k),
          ground arith,
          ground (arith, str_eq_refl k),
          rw emptied (
            inl (ground arith),
            Entries-imp IsPubEntry (λ i x. (i ≡ k) ⊎ IsPubEntry i x) m (λ i x p. inr p) h.1.1,
          ),
        )
        | inr other ↦
            let (v, held, uses, kept, rest) =
              release_writer-some m k (h.0.1, h.1.1) (rw other at e) in
            (
              v,
              ground (arith, eq_of_str_eq j k),
              uses,
              rw other (ground (arith, eq_of_str_eq j k)),
              rw other (inr (h.1.0.0, ground (arith, without_of_not_contains g u.writers)), rest),
            )
      ]

  -- With an entry emptied, that entry had this endpoint alone, and the others keep an endpoint.
  pub release_reader-some :
      (m : Map MsgSub) (k : Text)
      → Table IsSubEntry m
      → (release_reader g m).1 ≡ some k
      → (v : MsgSub) × (lookup k m ≡ some v)
        × (contains g v.readers ≡ true)
        × (lookup k (release_reader g m).0 ≡ some (record v { readers = [] }))
        × Entries (λ j u. (j ≡ k) ⊎ IsSubEntry j u) (release_reader g m).0
  unfolding release_reader lookup
  release_reader-some [] k h e = cc
  release_reader-some ((j, u) ∷ m) k h e =
      elim (Bool-cases (contains g u.readers && is_empty (without g u.readers))) [
        | inl emptied ↦ (
          u,
          ground (arith, str_eq_refl k),
          ground arith,
          ground (arith, str_eq_refl k),
          rw emptied (
            inl (ground arith),
            Entries-imp IsSubEntry (λ i x. (i ≡ k) ⊎ IsSubEntry i x) m (λ i x p. inr p) h.1.1,
          ),
        )
        | inr other ↦
            let (v, held, uses, kept, rest) =
              release_reader-some m k (h.0.1, h.1.1) (rw other at e) in
            (
              v,
              ground (arith, eq_of_str_eq j k),
              uses,
              rw other (ground (arith, eq_of_str_eq j k)),
              rw other (inr (h.1.0.0, ground (arith, without_of_not_contains g u.readers)), rest),
            )
      ]

module _ (g : Gid) where
  lookup-release_writer :
      (k : Text) (m : Map MsgPub) → lookup k m ≡ none → lookup k (release_writer g m).0 ≡ none
  unfolding release_writer lookup
  lookup-release_writer k [] h = refl
  lookup-release_writer k ((j, u) ∷ m) h = ground (arith, lookup-release_writer k m)

  pub release_writer-Distinct : (m : Map MsgPub) → Distinct m → Distinct (release_writer g m).0
  unfolding release_writer
  release_writer-Distinct [] d = tt
  release_writer-Distinct ((j, u) ∷ m) d =
      elim (Bool-cases (contains g u.writers && is_empty (without g u.writers))) [
        | inl emptied ↦ rw emptied d
        | inr other ↦ rw other (lookup-release_writer j m d.0, release_writer-Distinct m d.1)
      ]

module _ (g : Gid) where
  lookup-release_reader :
      (k : Text) (m : Map MsgSub) → lookup k m ≡ none → lookup k (release_reader g m).0 ≡ none
  unfolding release_reader lookup
  lookup-release_reader k [] h = refl
  lookup-release_reader k ((j, u) ∷ m) h = ground (arith, lookup-release_reader k m)

  pub release_reader-Distinct : (m : Map MsgSub) → Distinct m → Distinct (release_reader g m).0
  unfolding release_reader
  release_reader-Distinct [] d = tt
  release_reader-Distinct ((j, u) ∷ m) d =
      elim (Bool-cases (contains g u.readers && is_empty (without g u.readers))) [
        | inl emptied ↦ rw emptied d
        | inr other ↦ rw other (lookup-release_reader j m d.0, release_reader-Distinct m d.1)
      ]
