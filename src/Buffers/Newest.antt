-- ===== src/Buffers/Newest.antt =====
-- The newest snapshot of each symbol after any appends.
use mathlib.Core.Option.{some-injective}
use market_sentinel.Base.{
  subst, ◌<◌, String, ◌≡◌, refl, ap, ◌∙◌, false, Option, none, some, List, [], ◌∷◌, arith,
  if◌then◌else◌, Bool-cases, Option-cases, inl, inr,
}
use market_sentinel.Base.Eq.{string_eq, ◌==◌}
use market_sentinel.Base.Dict.{get, set, get-set}
use market_sentinel.Base.Float.{Float, IsOrdered, IsMonotone, le, num, ◌≼◌, ◌≺◌}
use market_sentinel.Base.Float.Order.{le_of_lt}
use market_sentinel.Domain.{MarketSnapshot}
use market_sentinel.RingBuffer
use market_sentinel.RingBuffer.{RingBuffer}
use market_sentinel.RingBuffer.Bounds.{
  append-IsValid, fixed-append, new_lem, empty-IsValid, empty-latest,
}
use market_sentinel.RingBuffer.Bounds
use market_sentinel.RingBuffer.Queries.{newer, append_lem}
use market_sentinel.Buffers.{SymbolBuffers, append, latest}

module _ {F : Type 0} ⦃f : Float F⦄ where
  pub record IsValid (s : SymbolBuffers F) : Type 0 where
    pub room : 0 < s.max_size
    pub positive : num 0 ≺ s.retention_s
    pub each :
        (k : String) (b : RingBuffer F)
        → get k s.buffers ≡ some b
        → Bounds.IsValid b × (b.retention_s ≡ s.retention_s) × (b.max_size ≡ s.max_size)

  abbrev newest : Option (RingBuffer F) → Option (MarketSnapshot F)
  newest none = none
  newest (some b) = RingBuffer.latest b

  latest-eq-newest : (k : String) (s : SymbolBuffers F) → latest k s ≡ newest (get k s.buffers)
  unfolding latest
  latest-eq-newest k s = ground arith

  -- the table with a buffer written
  abbrev put : String → RingBuffer F → SymbolBuffers F → SymbolBuffers F
  put k b s = record s { buffers = set k b s.buffers }

  -- a buffer that fits the table
  record Fits (s : SymbolBuffers F) (b : RingBuffer F) : Type 0 where
    valid : Bounds.IsValid b
    same_retention : b.retention_s ≡ s.retention_s
    same_size : b.max_size ≡ s.max_size

  put-IsValid :
      (k : String) (b : RingBuffer F) (s : SymbolBuffers F)
      → IsValid s
      → Fits s b
      → IsValid (put k b s)
  put-IsValid k b s v h = record {
    room = v.room;
    positive = v.positive;
    each = λ j c e. elim (Bool-cases (k == j)) [
      | inl q ↦
          subst
            (λ (d : RingBuffer F).
              Bounds.IsValid d × (d.retention_s ≡ s.retention_s) × (d.max_size ≡ s.max_size))
            (some-injective _ _ (rw (get-set, q) at e)) (h.valid, h.same_retention, h.same_size)
      | inr q ↦ v.each j c (rw (get-set, q) at e)
    ];
  }

  latest-put :
      (k j : String) (b : RingBuffer F) (s : SymbolBuffers F)
      → latest j (put k b s) ≡ (if k == j then RingBuffer.latest b else latest j s)
  latest-put k j b s =
      ground (arith, latest-eq-newest j (put k b s), latest-eq-newest j s, get-set k j b s.buffers)

  latest-found :
      (k : String) (s : SymbolBuffers F) (o : Option (RingBuffer F))
      → get k s.buffers ≡ o
      → latest k s ≡ newest o
  latest-found k s o e = latest-eq-newest k s ∙ ap newest e

  -- what an append brings about
  abbrev pub Appended : MarketSnapshot F → SymbolBuffers F → SymbolBuffers F → Type 0
  Appended x s t =
      (append x s ≡ some t)
      × IsValid t
      × ((k : String)
          → latest k t ≡ (if x.symbol == k then some (newer (latest k s) x) else latest k s))

  -- the appends of a list of snapshots, in order
  abbrev pub append_all : List (MarketSnapshot F) → SymbolBuffers F → Option (SymbolBuffers F)
  append_all [] s = some s
  append_all (x ∷ xs) s = elim (append x s) [ none ↦ none | some t ↦ append_all xs t ]

  -- the latest in time of a symbol's snapshots, the last given one among those of one time
  abbrev pub newest_of :
      String → Option (MarketSnapshot F) → List (MarketSnapshot F) → Option (MarketSnapshot F)
  newest_of k o [] = o
  newest_of k o (x ∷ xs) = newest_of k (if x.symbol == k then some (newer o x) else o) xs

  module _ (laws : IsOrdered F) (mono : IsMonotone F) where
    append-Fits :
        (x : MarketSnapshot F) (s : SymbolBuffers F) (b : RingBuffer F)
        → Fits s b
        → Fits s (RingBuffer.append x b)
    append-Fits x s b h =
        let (r, m) = fixed-append x b in
        record {
          valid = append-IsValid laws x b h.valid;
          same_retention = r ∙ h.same_retention;
          same_size = m ∙ h.same_size;
        }

    -- the buffer of the snapshot's symbol is `b`, and is written back with the snapshot in it
    latest-after :
        (x : MarketSnapshot F) (s : SymbolBuffers F) (b : RingBuffer F)
        → IsValid s
        → Fits s b
        → (k : String)
        → latest k (put x.symbol (RingBuffer.append x b) s)
          ≡ (if x.symbol == k then some (newer (RingBuffer.latest b) x) else latest k s)
    latest-after x s b v h k =
        let room : 0 < b.max_size = rw h.same_size v.room in
        let pos : num 0 ≼ b.retention_s =
          rw h.same_retention (le_of_lt laws (num 0) s.retention_s v.positive) in
        latest-put x.symbol k (RingBuffer.append x b) s
        ∙ ap (λ o. if x.symbol == k then o else latest k s)
            (append_lem laws mono x b h.valid room pos).0

    append-found :
        (x : MarketSnapshot F) (s : SymbolBuffers F) (b : RingBuffer F)
        → IsValid s
        → get x.symbol s.buffers ≡ some b
        → Appended x s (put x.symbol (RingBuffer.append x b) s)
    unfolding append
    append-found x s b v e =
        let (w, r, m) = v.each x.symbol b e in
        let h : Fits s b = record { valid = w; same_retention = r; same_size = m } in
        (
          rw (e, append),
          put-IsValid x.symbol (RingBuffer.append x b) s v (append-Fits x s b h),
          λ k. ground (
            arith,
            latest-after x s b v h k,
            latest-found x.symbol s (some b) e,
            string_eq.beq_iff x.symbol k,
          ),
        )

    append-made :
        (x : MarketSnapshot F) (s : SymbolBuffers F)
        → IsValid s
        → get x.symbol s.buffers ≡ none
        → (t : SymbolBuffers F) × Appended x s t
    unfolding append
    append-made x s v e =
        let b : RingBuffer F = record {
          retention_s = s.retention_s;
          max_size = s.max_size;
          items = [];
        } in
        let h : Fits s b = record {
          valid = empty-IsValid s.retention_s s.max_size;
          same_retention = refl;
          same_size = refl;
        } in
        let t = put x.symbol b s in
        let h' : Fits t b = record { valid = h.valid; same_retention = refl; same_size = refl } in
        let off : le s.retention_s (num 0) ≡ false =
          ground (arith, laws.lt-eq-not-le (num 0) s.retention_s, v.positive) in
        (
          put x.symbol (RingBuffer.append x b) t,
          (
            rw (e, append, new_lem s.retention_s s.max_size off v.room),
            put-IsValid x.symbol (RingBuffer.append x b) t (put-IsValid x.symbol b s v h)
                (append-Fits x t b h'),
            λ k. ground (
              arith,
              latest-after x t b (put-IsValid x.symbol b s v h) h' k,
              latest-put x.symbol k b s,
              latest-found x.symbol s none e,
              empty-latest s.retention_s s.max_size,
              string_eq.beq_iff x.symbol k,
            ),
          ),
        )

    -- One append never fails, keeps every buffer well-formed, makes the given snapshot its symbol's
    -- newest one unless a later one is there, and leaves the newest of every other symbol.
    pub append_newest :
        (x : MarketSnapshot F) (s : SymbolBuffers F)
        → IsValid s
        → (t : SymbolBuffers F) × Appended x s t
    append_newest x s v = elim (Option-cases (get x.symbol s.buffers)) [
      | inl e ↦ append-made x s v e
      | inr (b, e) ↦ (put x.symbol (RingBuffer.append x b) s, append-found x s b v e)
    ]

    -- Appending any list of snapshots, in any order of their times and symbols, never fails, keeps
    -- every buffer well-formed, and leaves as the newest snapshot of each symbol the latest in time of
    -- those given for it and the newest one it had.
    pub append_all_newest :
        (xs : List (MarketSnapshot F)) (s : SymbolBuffers F)
        → IsValid s
        → (t : SymbolBuffers F) × (append_all xs s ≡ some t)
          × IsValid t
          × ((k : String) → latest k t ≡ newest_of k (latest k s) xs)
    append_all_newest [] s v = (s, refl, v, λ k. refl)
    append_all_newest (x ∷ xs) s v =
        let (t, (e, w, one)) = append_newest x s v in
        let (u, rest, valid, all) = append_all_newest xs t w in
        (u, rw (e, append_all) rest, valid, λ k. all k ∙ ap (λ o. newest_of k o xs) (one k))
