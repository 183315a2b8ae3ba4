-- ===== src/Composer/Valid.antt =====
-- The well-formedness of the composer: what is promised of its live signals.
use mathlib.Core.Option.{some-injective}
use market_sentinel.Base.{
  ℕ, ◌<◌, ◌≤◌, String, ◌≡◌, refl, ◌⊎◌, false, some, [], ◌∷◌, arith, All, Bool-cases, inl, inr,
}
use market_sentinel.Base.Eq.{Eq, string_eq, ◌==◌, beq_refl}
use market_sentinel.Base.Dict.{Dict, get, set, pop, values, get-set, get-pop}
use market_sentinel.Base.Dict.Unique.{Unique}
use market_sentinel.Domain.{Signal, SignalTrace}
use market_sentinel.Composer.{EpisodeKey, key_eq, SignalComposer}

module _ {K V : Type 0} ⦃e : Eq K⦄ where
  pub found_before_pop :
      (k j : K) (v : V) (d : Dict K V)
      → get j (pop k d) ≡ some v
      → (get j d ≡ some v) × ((k == j) ≡ false)
  found_before_pop k j v d h = ground (arith, get-pop k j d)

  -- what is found after a write was written now, or was there and stands under another key
  pub found_after_set :
      (k j : K) (v w : V) (d : Dict K V)
      → get j (set k v d) ≡ some w
      → ((k ≡ j) × (v ≡ w)) ⊎ (((k == j) ≡ false) × (get j d ≡ some w))
  found_after_set k j v w d h = elim (Bool-cases (k == j)) [
    | inl q ↦ inl ((e.beq_iff k j).0 q, some-injective _ _ (rw (get-set, q) at h))
    | inr q ↦ inr (q, rw (get-set, q) at h)
  ]

module _ {F : Type 0} where
  -- the trace of a signal is there
  abbrev pub Traced : Signal F → SignalComposer F → Type 0
  Traced s c =
      (t : SignalTrace F) × (get s.id c.traces ≡ some t)
      × (t.signal_id ≡ s.id)
      × (t.event_ids ≡ s.event_ids)

  -- an identifier that `uuid4` has made
  abbrev pub Made : (ℕ → String) → String → SignalComposer F → Type 0
  Made uuid id c = (i : ℕ) × (i < c.made) × (id ≡ uuid i)

  -- Each live signal stands under its symbol and direction and has an identifier that was made before,
  -- no two live signals have the same identifier, and each has its trace.
  pub record IsValid (uuid : ℕ → String) (c : SignalComposer F) : Type 0 where
    pub unique : Unique c.active
    pub keyed :
        (k : EpisodeKey) (s : Signal F)
        → get k c.active ≡ some s
        → (s.symbol ≡ k.symbol) × (s.direction ≡ k.direction)
    pub made_before : (k : EpisodeKey) (s : Signal F) → get k c.active ≡ some s → Made uuid s.id c
    pub distinct :
        (k j : EpisodeKey) (s t : Signal F)
        → get k c.active ≡ some s
        → get j c.active ≡ some t
        → s.id ≡ t.id
        → k ≡ j
    pub traced : (k : EpisodeKey) (s : Signal F) → get k c.active ≡ some s → Traced s c

  -- no live signal under another key has the identifier
  abbrev pub Owns : EpisodeKey → String → SignalComposer F → Type 0
  Owns key id c = (j : EpisodeKey) (s : Signal F) → get j c.active ≡ some s → s.id ≡ id → j ≡ key

  -- more calls of `uuid4` change nothing
  pub later-IsValid :
      (uuid : ℕ → String) (n : ℕ) (c : SignalComposer F)
      → c.made ≤ n
      → IsValid uuid c
      → IsValid uuid (record c { made = n })
  later-IsValid uuid n c h v = record {
    unique = v.unique;
    keyed = v.keyed;
    made_before = λ k s e. let (i, below, q) = v.made_before k s e in (i, omega arith, q);
    distinct = v.distinct;
    traced = v.traced;
  }

  -- what holds of the values that a lookup finds holds of all values
  pub All-values :
      (P : Signal F → Type 0) (d : Dict EpisodeKey (Signal F))
      → Unique d
      → ((k : EpisodeKey) (s : Signal F) → get k d ≡ some s → P s)
      → All P (values d)
  unfolding get
  All-values P [] u h = tt
  All-values P ((k, s) ∷ d) (fresh, u) h = (
    h k s (rw (beq_refl k) refl),
    All-values P d u (λ j t e. h j t (ground (arith, e, fresh, key_eq.beq_iff k j))),
  )
