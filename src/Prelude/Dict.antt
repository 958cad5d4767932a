-- ===== src/Prelude/Dict.antt =====
-- A Python dict: entries with different keys, in insertion order.
use scenara.Prelude.Classes.{Eq, ◌==◌}
use scenara.Prelude.Tests.{if◌then◌else◌, Bool-cases}
use scenara.Prelude.Lists.{length, All}
use Prim.Native.Nat.{ℕ, suc}
use mathlib.Core.Path.{◌≡◌, refl, sym, ap, subst, subst₂}
use mathlib.Core.Logic.{inl, inr, ◌≢◌, ◌⊎◌, ◌↔◌}
use mathlib.Core.Bool.{Bool, true, false}
use mathlib.Core.Option.{Option, none, some}
use mathlib.Core.List.{List, [], ◌∷◌, ◌++◌}
use native.Mathlib.Omega.{arith}

abbrev pub Dict {ℓ κ} : Type ℓ → Type κ → Type (ℓ ⊔ κ)
Dict K V = List (K × V)

module _ {ℓ κ} {K : Type ℓ} {V : Type κ} ⦃e : Eq K⦄ where
  -- `d.get(k)`
  unfoldable pub lookup : K → Dict K V → Option V
  lookup k [] = none
  lookup k ((j, v) ∷ d) = if j == k then some v else lookup k d

  -- `k in d`
  unfoldable pub has_key : K → Dict K V → Bool
  has_key k [] = false
  has_key k ((j, v) ∷ d) = if j == k then true else has_key k d

  -- `d[k] = v`
  unfoldable pub insert : K → V → Dict K V → Dict K V
  insert k v [] = (k, v) ∷ []
  insert k v ((j, w) ∷ d) = if j == k then (j, v) ∷ d else (j, w) ∷ insert k v d

  -- `d.pop(k, None)`, the dict part. The keys of a dict differ, so at most one entry goes.
  unfoldable pub erase : K → Dict K V → Dict K V
  erase k [] = []
  erase k ((j, w) ∷ d) = let rest = erase k d in if j == k then rest else (j, w) ∷ rest

  pub lookup-insert :
      (j k : K) (v : V) (d : Dict K V)
      → lookup j (insert k v d) ≡ (if k == j then some v else lookup j d)
  unfolding lookup insert
  lookup-insert j k v [] = refl
  lookup-insert j k v ((i, w) ∷ d) =
      ground (arith, e.decides k j, e.decides i k, e.decides i j, lookup-insert j k v d)

  pub lookup-erase :
      (j k : K) (d : Dict K V) → lookup j (erase k d) ≡ (if k == j then none else lookup j d)
  unfolding lookup erase
  lookup-erase j k [] = ground arith
  lookup-erase j k ((i, w) ∷ d) =
      ground (arith, e.decides k j, e.decides i k, e.decides i j, lookup-erase j k d)

  pub lookup-insert_self : (k : K) (v : V) (d : Dict K V) → lookup k (insert k v d) ≡ some v
  lookup-insert_self k v d = rw (lookup-insert k k v d) (rw ((e.decides k k).1 refl))

  pub lookup-insert_ne :
      (j k : K) (v : V) (d : Dict K V) → k ≢ j → lookup j (insert k v d) ≡ lookup j d
  lookup-insert_ne j k v d h = rw (lookup-insert j k v d) (ground (arith, e.decides k j))

  pub lookup-erase_self : (k : K) (d : Dict K V) → lookup k (erase k d) ≡ none
  lookup-erase_self k d = rw (lookup-erase k k d) (rw ((e.decides k k).1 refl))

  pub lookup-erase_ne : (j k : K) (d : Dict K V) → k ≢ j → lookup j (erase k d) ≡ lookup j d
  lookup-erase_ne j k d h = rw (lookup-erase j k d) (ground (arith, e.decides k j))

  pub has_key-lookup :
      (k : K) (d : Dict K V) → has_key k d ≡ elim (lookup k d) [ none ↦ false | some _ ↦ true ]
  unfolding lookup has_key
  has_key-lookup k [] = refl
  has_key-lookup k ((j, v) ∷ d) = ground (arith, has_key-lookup k d)

module _ {ℓ κ} {K : Type ℓ} {V : Type κ} ⦃e : Eq K⦄ where
  pub has_key-insert :
      (j k : K) (v : V) (d : Dict K V)
      → has_key j (insert k v d) ≡ (if k == j then true else has_key j d)
  has_key-insert j k v d =
      ground (arith, has_key-lookup j (insert k v d), has_key-lookup j d, lookup-insert j k v d)

  pub has_key-erase :
      (j k : K) (d : Dict K V) → has_key j (erase k d) ≡ (if k == j then false else has_key j d)
  has_key-erase j k d =
      ground (arith, has_key-lookup j (erase k d), has_key-lookup j d, lookup-erase j k d)

  pub has_key_of_lookup : (k : K) (v : V) (d : Dict K V) → lookup k d ≡ some v → has_key k d ≡ true
  has_key_of_lookup k v d h = ground (arith, has_key-lookup k d)

  pub lookup_of_has_key :
      (k : K) (d : Dict K V) → has_key k d ≡ true → (v : V) × (lookup k d ≡ some v)
  lookup_of_has_key k d h = ground (arith, has_key-lookup k d)

module _ {ℓ κ ι} {K : Type ℓ} {V : Type κ} where
  -- Every entry has the property.
  abbrev pub AllEntries : (K → V → Type ι) → Dict K V → Type ι
  AllEntries P [] = Unit
  AllEntries P ((k, v) ∷ d) = P k v × AllEntries P d

module _ {ℓ κ} {K : Type ℓ} {V : Type κ} where
  -- Some entry has the property.
  abbrev pub SomeEntry : (K → V → Type 0) → Dict K V → Type 0
  SomeEntry P [] = ⊥
  SomeEntry P ((k, v) ∷ d) = P k v ⊎ SomeEntry P d

  -- The entries that pass a test.
  unfoldable pub retain : (K → V → Bool) → Dict K V → Dict K V
  retain keep [] = []
  retain keep ((k, v) ∷ d) = let rest = retain keep d in if keep k v then (k, v) ∷ rest else rest

  -- `d.values()`
  abbrev pub values : Dict K V → List V
  values [] = []
  values ((k, v) ∷ d) = v ∷ values d

  -- `[v for k, v in d.items() if p(k, v)]`
  unfoldable pub select : (K → V → Bool) → Dict K V → List V
  select p [] = []
  select p ((k, v) ∷ d) = let rest = select p d in if p k v then v ∷ rest else rest

  -- `sum(1 for k, v in d.items() if p(k, v))`
  unfoldable pub count_entries : (K → V → Bool) → Dict K V → ℕ
  count_entries p [] = 0
  count_entries p ((k, v) ∷ d) = let rest = count_entries p d in if p k v then suc rest else rest

  -- `any(p(k, v) for k, v in d.items())`
  unfoldable pub any_entry : (K → V → Bool) → Dict K V → Bool
  any_entry p [] = false
  any_entry p ((k, v) ∷ d) = if p k v then true else any_entry p d

  pub length-select : (p : K → V → Bool) (d : Dict K V) → length (select p d) ≡ count_entries p d
  unfolding select count_entries
  length-select p [] = refl
  length-select p ((k, v) ∷ d) = ground (arith, length-select p d)

  -- A loop that assigns `d[k] = f(k, d[k])` for each entry.
  unfoldable pub update_all : (K → V → V) → Dict K V → Dict K V
  update_all f [] = []
  update_all f ((k, v) ∷ d) = (k, f k v) ∷ update_all f d

module _ {ℓ κ ι} {K : Type ℓ} {V : Type κ} ⦃e : Eq K⦄ (P : K → V → Type ι) where
  pub AllEntries-lookup :
      (k : K) (v : V) (d : Dict K V) → AllEntries P d → lookup k d ≡ some v → P k v
  unfolding lookup
  AllEntries-lookup k v [] all h = cc
  AllEntries-lookup k v ((j, w) ∷ d) all h = elim (Bool-cases (j == k)) [
    | inl same ↦
        let here : some w ≡ some v = rw same at h in
        subst₂ P ((e.decides j k).0 same) (cc here) all.0
    | inr other ↦ AllEntries-lookup k v d all.1 (rw other at h)
  ]

  pub AllEntries-insert :
      (k : K) (v : V) (d : Dict K V) → AllEntries P d → P k v → AllEntries P (insert k v d)
  unfolding insert
  AllEntries-insert k v [] all h = (h, tt)
  AllEntries-insert k v ((j, w) ∷ d) all h = elim (Bool-cases (j == k)) [
    | inl same ↦ rw same (subst (λ i. P i v) (sym ((e.decides j k).0 same)) h, all.1)
    | inr other ↦ rw other (all.0, AllEntries-insert k v d all.1 h)
  ]

  pub AllEntries-erase : (k : K) (d : Dict K V) → AllEntries P d → AllEntries P (erase k d)
  unfolding erase
  AllEntries-erase k [] all = tt
  AllEntries-erase k ((j, w) ∷ d) all = elim (Bool-cases (j == k)) [
    | inl same ↦ rw same (AllEntries-erase k d all.1)
    | inr other ↦ rw other (all.0, AllEntries-erase k d all.1)
  ]

module _ {ℓ κ ι} {K : Type ℓ} {V : Type κ} (P : K → V → Type ι) where
  pub AllEntries-retain :
      (keep : K → V → Bool) (d : Dict K V) → AllEntries P d → AllEntries P (retain keep d)
  unfolding retain
  AllEntries-retain keep [] all = tt
  AllEntries-retain keep ((k, v) ∷ d) all = elim (Bool-cases (keep k v)) [
    | inl same ↦ rw same (all.0, AllEntries-retain keep d all.1)
    | inr other ↦ rw other (AllEntries-retain keep d all.1)
  ]

  -- What is kept passes the test too.
  pub retain-AllEntries :
      (keep : K → V → Bool) (d : Dict K V)
      → ((k : K) (v : V) → keep k v ≡ true → P k v)
      → AllEntries P (retain keep d)
  unfolding retain
  retain-AllEntries keep [] pass = tt
  retain-AllEntries keep ((k, v) ∷ d) pass = elim (Bool-cases (keep k v)) [
    | inl same ↦ rw same (pass k v same, retain-AllEntries keep d pass)
    | inr other ↦ rw other (retain-AllEntries keep d pass)
  ]

  -- What had one property and is kept has another.
  pub retain-AllEntries_with {η} :
      (Q : K → V → Type η) (keep : K → V → Bool) (d : Dict K V)
      → ((k : K) (v : V) → keep k v ≡ true → Q k v → P k v)
      → AllEntries Q d
      → AllEntries P (retain keep d)
  unfolding retain
  retain-AllEntries_with Q keep [] pass all = tt
  retain-AllEntries_with Q keep ((k, v) ∷ d) pass all = elim (Bool-cases (keep k v)) [
    | inl same ↦ rw same (pass k v same all.0, retain-AllEntries_with Q keep d pass all.1)
    | inr other ↦ rw other (retain-AllEntries_with Q keep d pass all.1)
  ]

  pub AllEntries-mono {η} :
      (Q : K → V → Type η) (d : Dict K V)
      → ((k : K) (v : V) → Q k v → P k v)
      → AllEntries Q d
      → AllEntries P d
  AllEntries-mono Q [] step all = tt
  AllEntries-mono Q ((k, v) ∷ d) step all = (step k v all.0, AllEntries-mono Q d step all.1)

  pub AllEntries-update_all {η} :
      (Q : K → V → Type η) (f : K → V → V) (d : Dict K V)
      → ((k : K) (v : V) → Q k v → P k (f k v))
      → AllEntries Q d
      → AllEntries P (update_all f d)
  unfolding update_all
  AllEntries-update_all Q f [] step all = tt
  AllEntries-update_all Q f ((k, v) ∷ d) step all =
      (step k v all.0, AllEntries-update_all Q f d step all.1)

module _ {ℓ κ} {K : Type ℓ} {V : Type κ} ⦃e : Eq K⦄ where
  pub lookup-update_all :
      (f : K → V → V) (k : K) (d : Dict K V)
      → lookup k (update_all f d) ≡ elim (lookup k d) [ none ↦ none | some v ↦ some (f k v) ]
  unfolding lookup update_all
  lookup-update_all f k [] = refl
  lookup-update_all f k ((j, v) ∷ d) = elim (Bool-cases (j == k)) [
    | inl same ↦ rw same (ap (λ i. some (f i v)) ((e.decides j k).0 same))
    | inr other ↦ rw other (lookup-update_all f k d)
  ]

  pub any_entry-lookup :
      (p : K → V → Bool) (k : K) (v : V) (d : Dict K V)
      → any_entry p d ≡ false
      → lookup k d ≡ some v
      → p k v ≡ false
  unfolding any_entry lookup
  any_entry-lookup p k v [] h found = cc
  any_entry-lookup p k v ((j, w) ∷ d) h found = elim (Bool-cases (p j w)) [
    | inl hit ↦ absurd (ground arith)
    | inr miss ↦ elim (Bool-cases (j == k)) [
      | inl same ↦
          let here : some w ≡ some v = rw same at found in
          let value : w ≡ v = cc here in
          subst₂ (λ i u. p i u ≡ false) ((e.decides j k).0 same) value miss
      | inr other ↦ any_entry-lookup p k v d (rw miss at h) (rw other at found)
    ]
  ]

module _ {ℓ κ ι} {K : Type ℓ} {V : Type κ} (P : V → Type ι) where
  -- What is selected passes the test.
  pub select-All :
      (p : K → V → Bool) (d : Dict K V)
      → ((k : K) (v : V) → p k v ≡ true → P v)
      → All P (select p d)
  unfolding select
  select-All p [] pass = tt
  select-All p ((k, v) ∷ d) pass = elim (Bool-cases (p k v)) [
    | inl hit ↦ rw hit (pass k v hit, select-All p d pass)
    | inr miss ↦ rw miss (select-All p d pass)
  ]

  pub select-All_with {η} :
      (Q : K → V → Type η) (p : K → V → Bool) (d : Dict K V)
      → ((k : K) (v : V) → p k v ≡ true → Q k v → P v)
      → AllEntries Q d
      → All P (select p d)
  unfolding select
  select-All_with Q p [] pass all = tt
  select-All_with Q p ((k, v) ∷ d) pass all = elim (Bool-cases (p k v)) [
    | inl hit ↦ rw hit (pass k v hit all.0, select-All_with Q p d pass all.1)
    | inr miss ↦ rw miss (select-All_with Q p d pass all.1)
  ]

module _ {ℓ κ} {K : Type ℓ} {V : Type κ} ⦃e : Eq K⦄ where
  -- The keys of the entries differ, which a dict has by itself.
  abbrev pub IsUnique : Dict K V → Type 0
  IsUnique [] = Unit
  IsUnique ((k, v) ∷ d) = (has_key k d ≡ false) × IsUnique d

  pub insert-IsUnique : (k : K) (v : V) (d : Dict K V) → IsUnique d → IsUnique (insert k v d)
  unfolding insert has_key
  insert-IsUnique k v [] h = (refl, tt)
  insert-IsUnique k v ((j, w) ∷ d) h = elim (Bool-cases (j == k)) [
    | inl same ↦ rw same h
    | inr other ↦ rw other (
      ground (arith, has_key-insert j k v d, e.decides k j, e.decides j k, h.0),
      insert-IsUnique k v d h.1,
    )
  ]

  -- A new key comes last.
  pub insert_new :
      (k : K) (v : V) (d : Dict K V) → has_key k d ≡ false → insert k v d ≡ d ++ (k, v) ∷ []
  unfolding insert has_key
  insert_new k v [] h = refl
  insert_new k v ((j, w) ∷ d) h = elim (Bool-cases (j == k)) [
    | inl same ↦ absurd (ground arith)
    | inr other ↦ rw other (ap (◌∷◌ (j, w)) (insert_new k v d (rw other at h)))
  ]

  lookup-skip :
      (k j : K) (w : V) (d : Dict K V) {v : V}
      → has_key j d ≡ false
      → lookup k d ≡ some v
      → lookup k ((j, w) ∷ d) ≡ some v
  unfolding lookup
  lookup-skip k j w d absent found = elim (Bool-cases (j == k)) [
    | inl same ↦ absurd (ground (arith, e.decides j k, has_key-lookup j d, has_key-lookup k d))
    | inr other ↦ rw other found
  ]

  AllEntries-self :
      (d c : Dict K V)
      → IsUnique d
      → AllEntries (λ k v. lookup k d ≡ some v) c
      → (j : K) (w : V) → has_key j d ≡ false
      → AllEntries (λ k v. lookup k ((j, w) ∷ d) ≡ some v) c
  AllEntries-self d [] u all j w absent = tt
  AllEntries-self d ((k, v) ∷ c) u all j w absent =
      (lookup-skip k j w d absent all.0, AllEntries-self d c u all.1 j w absent)

  -- In a dict every entry is what is found under its key.
  pub IsUnique-lookup : (d : Dict K V) → IsUnique d → AllEntries (λ k v. lookup k d ≡ some v) d
  unfolding lookup
  IsUnique-lookup [] u = tt
  IsUnique-lookup ((j, w) ∷ d) u =
      (rw ((e.decides j j).1 refl), AllEntries-self d d u.1 (IsUnique-lookup d u.1) j w u.0)

module _ {ℓ κ ι η θ} {K : Type ℓ} {V : Type κ} (P : K → V → Type ι) (Q : K → V → Type η)
    (R : K → V → Type θ) where
  pub AllEntries-both :
      (d : Dict K V)
      → ((k : K) (v : V) → P k v → Q k v → R k v)
      → AllEntries P d
      → AllEntries Q d
      → AllEntries R d
  AllEntries-both [] step p q = tt
  AllEntries-both ((k, v) ∷ d) step p q = (step k v p.0 q.0, AllEntries-both d step p.1 q.1)

module _ {ℓ κ} {K : Type ℓ} {V : Type κ} ⦃e : Eq K⦄ where
  has_key-skip :
      (d c : Dict K V) (j : K) (w : V)
      → AllEntries (λ k v. has_key k d ≡ true) c
      → AllEntries (λ k v. has_key k ((j, w) ∷ d) ≡ true) c
  unfolding has_key
  has_key-skip d [] j w all = tt
  has_key-skip d ((k, v) ∷ c) j w all = (ground (arith, all.0), has_key-skip d c j w all.1)

  pub has_key_self : (d : Dict K V) → AllEntries (λ k v. has_key k d ≡ true) d
  unfolding has_key
  has_key_self [] = tt
  has_key_self ((j, w) ∷ d) = (rw ((e.decides j j).1 refl), has_key-skip d d j w (has_key_self d))

module _ {ℓ κ ι η} {K : Type ℓ} {V : Type κ} (P : K → V → Type ι) (Q : V → Type η) where
  pub values-All :
      (d : Dict K V) → ((k : K) (v : V) → P k v → Q v) → AllEntries P d → All Q (values d)
  values-All [] step all = tt
  values-All ((k, v) ∷ d) step all = (step k v all.0, values-All d step all.1)

module _ {ℓ κ} {K : Type ℓ} {V : Type κ} ⦃e : Eq K⦄ (keep : K → V → Bool) where
  retain_absent : (k : K) (d : Dict K V) → has_key k d ≡ false → has_key k (retain keep d) ≡ false
  unfolding has_key retain
  retain_absent k [] h = refl
  retain_absent k ((j, w) ∷ d) h = ground (arith, retain_absent k d)

  -- An entry that fails the test is gone.
  pub retain_dropped :
      (k : K) (v : V) (d : Dict K V)
      → IsUnique d
      → lookup k d ≡ some v
      → keep k v ≡ false
      → has_key k (retain keep d) ≡ false
  unfolding lookup has_key retain
  retain_dropped k v [] u found drop = cc
  retain_dropped k v ((j, w) ∷ d) u found drop = elim (Bool-cases (j == k)) [
    | inl same ↦
        let here : some w ≡ some v = rw same at found in
        let value : w ≡ v = cc here in
        let key : j ≡ k = (e.decides j k).0 same in
        rw (key, value, drop) (retain_absent k d (subst (λ i. has_key i d ≡ false) key u.0))
    | inr other ↦
        let rest = retain_dropped k v d u.1 (rw other at found) drop in
        elim (Bool-cases (keep j w)) [ inl kept ↦ rw (kept, other) rest | inr gone ↦ rw gone rest ]
  ]

module _ {ℓ κ} {K : Type ℓ} {V : Type κ} (p : K → V → Bool) (P : K → V → Type 0) where
  pub any_entry-SomeEntry :
      ((k : K) (v : V) → (p k v ≡ true) ↔ P k v)
      → (d : Dict K V) → (any_entry p d ≡ true) ↔ SomeEntry P d
  unfolding any_entry
  any_entry-SomeEntry decides [] = (λ h. absurd (ground arith), λ h. absurd h)
  any_entry-SomeEntry decides ((k, v) ∷ d) =
      let rest = any_entry-SomeEntry decides d in
      elim (Bool-cases (p k v)) [
        | inl hit ↦ rw hit (λ h. inl ((decides k v).0 hit), λ h. refl)
        | inr miss ↦ rw miss (
          λ h. inr (rest.0 h),
          λ h. elim h [
            | inl here ↦ absurd (ground (arith, (decides k v).1 here, miss))
            | inr later ↦ rest.1 later
          ],
        )
      ]

  pub any_entry-AllEntries :
      ((k : K) (v : V) → (p k v ≡ false) ↔ P k v)
      → (d : Dict K V) → (any_entry p d ≡ false) ↔ AllEntries P d
  unfolding any_entry
  any_entry-AllEntries decides [] = (λ h. tt, λ h. refl)
  any_entry-AllEntries decides ((k, v) ∷ d) =
      let rest = any_entry-AllEntries decides d in
      elim (Bool-cases (p k v)) [
        | inl hit ↦ rw hit (
          λ h. absurd (ground (arith, h)),
          λ h. absurd (ground (arith, (decides k v).1 h.0, hit)),
        )
        | inr miss ↦ rw miss (λ h. ((decides k v).0 miss, rest.0 h), λ h. rest.1 h.1)
      ]
