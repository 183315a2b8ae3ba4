-- ===== src/Watchlist/Limit.antt =====
-- The well-formedness of a watchlist, and that every method keeps it, whether it returns or raises.
use market_sentinel.Base.{
  ℕ, sym, subst, ◌≤◌, String, ◌≡◌, refl, Bool, true, Option, none, some, List, [], ◌∷◌, arith, ltb,
  leb, length, Bool-cases, inl, inr,
}
use market_sentinel.Base.Eq.{string_eq}
use market_sentinel.Base.Dict.{Dict, get, set, pop, length-set, length-pop-le}
use market_sentinel.Base.Dict.Unique.{Unique, Unique-set, Unique-pop}
use market_sentinel.Domain.{WatchItem}
use market_sentinel.Watchlist.{
  Disk, written, fails, Outcome, ok, raised, broken, then_return, Watchlist, save, add, add_new,
  remove, remove_found, replace, replace_checked, collect, set_enabled, set_found,
}
use market_sentinel.Watchlist.Saved.{
  IsKeyed, IsKeyed-set, IsKeyed-pop, IsKeyed-get, IsDurable, save-IsDurable,
}

pub record IsValid (w : Watchlist) : Type 0 where
  pub bounded : length w.items ≤ w.limit
  pub unique : Unique w.items
  pub keyed : IsKeyed w.items
  pub durable : IsDurable w

-- the same, of a file that is as it should be under a condition only
pub record IsFormed (C : Type 0) (w : Watchlist) : Type 0 where
  pub bounded : length w.items ≤ w.limit
  pub unique : Unique w.items
  pub keyed : IsKeyed w.items
  pub durable : C → IsDurable w

pub IsValid-IsFormed : (C : Type 0) (w : Watchlist) → IsValid w → IsFormed C w
IsValid-IsFormed C w v = record {
  bounded = v.bounded;
  unique = v.unique;
  keyed = v.keyed;
  durable = λ c. v.durable;
}

pub IsFormed-IsValid : (C : Type 0) (w : Watchlist) → C → IsFormed C w → IsValid w
IsFormed-IsValid C w c v = record {
  bounded = v.bounded;
  unique = v.unique;
  keyed = v.keyed;
  durable = v.durable c;
}

collect-Unique :
    (items : List WatchItem) (seen d : Dict String WatchItem)
    → collect items seen ≡ some d
    → Unique seen
    → IsKeyed seen
    → Unique d × IsKeyed d
unfolding collect
collect-Unique [] seen d e u k = ground arith
collect-Unique (i ∷ items) seen d e u k = ground (
  arith,
  collect-Unique items (set i.symbol i seen) d,
  Unique-set i.symbol i seen u,
  IsKeyed-set i.symbol i seen refl k,
)

-- `_save` does nothing to the items and the limit
save_keeps :
    (P : ℕ → Dict String WatchItem → Type 0) (disk : Disk) (w : Watchlist)
    → P w.limit w.items
    → P (save disk w).1.limit (save disk w).1.items
unfolding save
save_keeps P written w h = elim (Bool-cases w.persist) [ inl e ↦ rw e h | inr e ↦ rw e h ]
save_keeps P (fails left) w h = elim (Bool-cases w.persist) [ inl e ↦ rw e h | inr e ↦ rw e h ]

then_return_object :
    {A : Type 0} (a : A) (r : Outcome (Unit {0}) × Watchlist) → (then_return a r).1 ≡ r.1
then_return_object a (ok u, w) = refl
then_return_object a (raised e, w) = refl
then_return_object a (broken, w) = refl

module _ (C : Type 0) (disk : Disk) (works : C → disk ≡ written) where
  save-IsFormed :
      (w : Watchlist) (d : Dict String WatchItem)
      → length d ≤ w.limit
      → Unique d
      → IsKeyed d
      → IsFormed C (save disk (record w { items = d })).1
  save-IsFormed w d b u k = record {
    bounded = save_keeps (λ n x. length x ≤ n) disk (record w { items = d }) b;
    unique = save_keeps (λ n x. Unique x) disk (record w { items = d }) u;
    keyed = save_keeps (λ n x. IsKeyed x) disk (record w { items = d }) k;
    durable = λ c.
        subst (λ x. IsDurable (save x (record w { items = d })).1) (sym (works c))
          (save-IsDurable (record w { items = d }) u k);
  }

  return-IsFormed :
      {A : Type 0} (a : A) (r : Outcome (Unit {0}) × Watchlist)
      → IsFormed C r.1
      → IsFormed C (then_return a r).1
  return-IsFormed a r v = subst (IsFormed C) (sym (then_return_object a r)) v

  add_new-IsFormed :
      (s : String) (o : Option WatchItem) (w : Watchlist)
      → get s w.items ≡ o
      → IsFormed C w
      → IsFormed C (add_new s o disk w).1
  add_new-IsFormed s (some i) w e v = v
  add_new-IsFormed s none w e v = elim (Bool-cases (leb w.limit (length w.items))) [
    | inl h ↦ rw h v
    | inr h ↦ rw h (
        let j : WatchItem = record { symbol = s; enabled = true } in
        return-IsFormed j (save disk (record w { items = set s j w.items })) (
          save-IsFormed w (set s j w.items) (ground (arith, v.bounded, length-set s j w.items))
            (Unique-set s j w.items v.unique) (IsKeyed-set s j w.items refl v.keyed)))
  ]

  pub add-IsFormed : (s : String) (w : Watchlist) → IsFormed C w → IsFormed C (add s disk w).1
  unfolding add
  add-IsFormed s w v = add_new-IsFormed s (get s w.items) w refl v

  remove_found-IsFormed :
      (s : String) (o : Option WatchItem) (w : Watchlist)
      → IsFormed C w
      → IsFormed C (remove_found s o disk w).1
  remove_found-IsFormed s none w v = v
  remove_found-IsFormed s (some i) w v =
      save-IsFormed w (pop s w.items) (omega (arith, length-pop-le s w.items, v.bounded))
        (Unique-pop s w.items v.unique) (IsKeyed-pop s w.items v.keyed)

  pub remove-IsFormed : (s : String) (w : Watchlist) → IsFormed C w → IsFormed C (remove s disk w).1
  unfolding remove
  remove-IsFormed s w v = remove_found-IsFormed s (get s w.items) w v

  replace_checked-IsFormed :
      (items : List WatchItem) (o : Option (Dict String WatchItem)) (w : Watchlist)
      → collect items [] ≡ o
      → IsFormed C w
      → IsFormed C (replace_checked o disk w).1
  replace_checked-IsFormed items none w e v = v
  replace_checked-IsFormed items (some d) w e v = elim (Bool-cases (ltb w.limit (length d))) [
    | inl h ↦ rw h v
    | inr h ↦
        let (u, k) = collect-Unique items [] d e tt tt in
        rw h (save-IsFormed w d (ground arith) u k)
  ]

  pub replace-IsFormed :
      (items : List WatchItem) (w : Watchlist) → IsFormed C w → IsFormed C (replace items disk w).1
  unfolding replace
  replace-IsFormed items w v = replace_checked-IsFormed items (collect items []) w refl v

  set_found-IsFormed :
      (s : String) (b : Bool) (o : Option WatchItem) (w : Watchlist)
      → get s w.items ≡ o
      → IsFormed C w
      → IsFormed C (set_found s b o disk w).1
  set_found-IsFormed s b none w e v = v
  set_found-IsFormed s b (some i) w e v =
      let j : WatchItem = record { symbol = i.symbol; enabled = b } in
      return-IsFormed j (save disk (record w { items = set s j w.items })) (
        save-IsFormed w (set s j w.items) (ground (arith, length-set s j w.items, v.bounded))
          (Unique-set s j w.items v.unique)
          (IsKeyed-set s j w.items (IsKeyed-get s w.items i v.keyed e) v.keyed))

  pub set_enabled-IsFormed :
      (s : String) (b : Bool) (w : Watchlist) → IsFormed C w → IsFormed C (set_enabled s b disk w).1
  unfolding set_enabled
  set_enabled-IsFormed s b w v = set_found-IsFormed s b (get s w.items) w refl v

-- `replace` where the write succeeds
pub replace-IsValid :
    (items : List WatchItem) (w : Watchlist) → IsValid w → IsValid (replace items written w).1
replace-IsValid items w v =
    IsFormed-IsValid (Unit {0}) _ tt
      (replace-IsFormed (Unit {0}) written (λ _. refl) items w (IsValid-IsFormed _ w v))
