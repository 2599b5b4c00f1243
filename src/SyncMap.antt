-- ===== src/SyncMap.antt =====
-- The interface of xsync.Map, the typed sync.Map of another package, as the program uses it: what a
-- key holds after a call, and what Range visits.
use synp.Prelude.{ℕ, ◌+◌, ◌≡◌, refl, Option, none, some, [], arith, if◌then◌else◌}
use synp.Prelude.Text.{Text, text_eq}
use synp.Prelude.Dict.{
  Dict, lookup, without, insert, IsDistinct, total, lookup-without, lookup-insert,
  without-IsDistinct, insert-IsDistinct, total-ext, total-without, without-missing, nil-IsDistinct,
  lookup-nil,
}

pub record SyncMap (V : Type 0) : Type 1 where
  pub Map : Type 0
  pub empty : Map
  pub load : Map → Text → Option V
  pub store : Map → Text → V → Map
  pub delete : Map → Text → Map
  -- The pairs in the order in which Range visits them.
  pub range : Map → Dict V
  pub load-empty : (k : Text) → load empty k ≡ none
  pub load-store :
      (m : Map) (k j : Text) (v : V)
      → load (store m k v) j ≡ (if text_eq k j then some v else load m j)
  pub load-delete :
      (m : Map) (k j : Text) → load (delete m k) j ≡ (if text_eq k j then none else load m j)
  -- Range visits each key that is present, with its value, and visits none twice.
  pub lookup-range : (m : Map) (k : Text) → lookup k (range m) ≡ load m k
  pub range-IsDistinct : (m : Map) → IsDistinct (range m)

module _ {V : Type 0} (ops : SyncMap V) where
  open ops use {
    Map, empty, load, store, delete, range, load-empty, load-store, load-delete, lookup-range,
    range-IsDistinct,
  }

  -- The sum of a measure over the values held.
  abbrev pub sum : (V → ℕ) → Map → ℕ
  sum f m = total f (range m)

  pub sum-empty : (f : V → ℕ) → sum f empty ≡ 0
  sum-empty f =
      total-ext f (range empty) [] (range-IsDistinct empty) (nil-IsDistinct V)
        (λ k. rw (lookup-range, load-empty, lookup-nil))

  pub sum-store_new :
      (f : V → ℕ) (m : Map) (k : Text) (v : V)
      → load m k ≡ none
      → sum f (store m k v) ≡ f v + sum f m
  sum-store_new f m k v h = rw (
    total-ext f (range (store m k v)) (insert k v (range m)) (range-IsDistinct (store m k v))
        (insert-IsDistinct k v (range m) (range-IsDistinct m))
        (λ j. rw (lookup-range, load-store, lookup-insert, lookup-range)),
    without-missing k (range m) (rw lookup-range h),
  )

  pub sum-delete :
      (f : V → ℕ) (m : Map) (k : Text) (v : V)
      → load m k ≡ some v
      → sum f m ≡ f v + sum f (delete m k)
  sum-delete f m k v h =
      rw
        (total-ext f (range (delete m k)) (without k (range m)) (range-IsDistinct (delete m k))
          (without-IsDistinct k (range m) (range-IsDistinct m))
          (λ j. rw (lookup-range, load-delete, lookup-without, lookup-range)))
        (total-without f k v (range m) (range-IsDistinct m) (rw lookup-range h))

  pub sum-store_old :
      (f : V → ℕ) (m : Map) (k : Text) (v w : V)
      → load m k ≡ some w
      → sum f (store m k v) + f w ≡ f v + sum f m
  sum-store_old f m k v w h =
      rw
        (total-ext f (range (store m k v)) (insert k v (range m)) (range-IsDistinct (store m k v))
          (insert-IsDistinct k v (range m) (range-IsDistinct m))
          (λ j. rw (lookup-range, load-store, lookup-insert, lookup-range)))
        (omega (arith, total-without f k w (range m) (range-IsDistinct m) (rw lookup-range h)))

-- The laws can be met: a map as a list of pairs with distinct keys.
abbrev pub list_map : (V : Type 0) → SyncMap V
list_map V = record {
  Map = (l : Dict V) × IsDistinct l;
  empty = ([], nil-IsDistinct V);
  load = λ m k. lookup k m.0;
  store = λ m k v. (insert k v m.0, insert-IsDistinct k v m.0 m.1);
  delete = λ m k. (without k m.0, without-IsDistinct k m.0 m.1);
  range = λ m. m.0;
  load-empty = lookup-nil V;
  load-store = λ m k j v. lookup-insert k j v m.0;
  load-delete = λ m k j. lookup-without k j m.0;
  lookup-range = λ m k. refl;
  range-IsDistinct = λ m. m.1;
}
