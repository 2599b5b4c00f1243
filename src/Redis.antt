-- ===== src/Redis.antt =====
-- The interface of Redis as the program uses it through redis.Cmdable (go-redis is another package,
-- and the server a service). Each call gives a reply, or an error after which nothing is known.
-- Keys do not expire between the calls that a theorem speaks of.
use synp.Prelude.{
  ◌≡◌, refl, sym, ap, Bool, true, false, not, ◌&&◌, ◌||◌, Option, none, some, [], ◌∷◌, arith,
  if◌then◌else◌,
}
use synp.Prelude.Text.{Text, text_eq, text_eq_iff}
use synp.Prelude.Dict.{Dict, lookup, insert, without, lookup-insert, lookup-without}
use synp.Fault.{Fault, Result, ok}

pub record Redis : Type 1 where
  pub State : Type 0
  -- EXISTS key
  pub exists : State → Text → Bool
  -- The fields of a hash.
  pub field : State → Text → Text → Option Text
  -- HSET key field value, as the server runs it.
  pub hset_cmd : State → Text → Text → Text → State
  -- The client's calls.
  pub set_nx : State → Text → Text → Result Bool × State
  pub del : State → Text → Option Fault × State
  pub hset : State → Text → Text → Text → Option Fault × State
  -- `none` is the reply redis.Nil.
  pub hget : State → Text → Text → Result (Option Text)
  pub eval : State → (State → Text × State) → Result Text × State
  pub exists-hset_cmd :
      (s : State) (k f v j : Text) → exists (hset_cmd s k f v) j ≡ (text_eq k j || exists s j)
  pub field-hset_cmd :
      (s : State) (k f v g : Text)
      → field (hset_cmd s k f v) k g ≡ (if text_eq f g then some v else field s k g)
  -- SETNX sets a key only if it is absent, and says whether it did.
  pub set_nx-ok :
      (s t : State) (k v : Text) (b : Bool)
      → set_nx s k v ≡ (ok b, t)
      → (b ≡ not (exists s k)) × ((j : Text) → exists t j ≡ (text_eq k j || exists s j))
  pub del-ok :
      (s t : State) (k : Text)
      → del s k ≡ (none, t)
      → (j : Text) → exists t j ≡ (not (text_eq k j) && exists s j)
  pub hset-ok : (s t : State) (k f v : Text) → hset s k f v ≡ (none, t) → t ≡ hset_cmd s k f v
  pub hget-ok : (s : State) (k f : Text) (o : Option Text) → hget s k f ≡ ok o → o ≡ field s k f
  -- A Lua script runs as one step.
  pub eval-ok :
      (s t : State) (script : State → Text × State) (r : Text)
      → eval s script ≡ (ok r, t)
      → script s ≡ (r, t)

-- A server that is always there: its keys with their fields. SETNX keeps its value as a field "".
abbrev pub is_key : Option (Dict Text) → Bool
is_key none = false
is_key (some fields) = true

abbrev pub fields_of : Option (Dict Text) → Dict Text
fields_of none = []
fields_of (some fields) = fields

abbrev pub put_field : Dict (Dict Text) → Text → Text → Text → Dict (Dict Text)
put_field s k f v = insert k (insert f v (fields_of (lookup k s))) s

abbrev pub set_absent : Dict (Dict Text) → Text → Text → Result Bool × Dict (Dict Text)
set_absent s k v =
    if is_key (lookup k s) then (ok false, s) else (ok true, insert k (([], v) ∷ []) s)

abbrev pub run_script :
    Dict (Dict Text) → (Dict (Dict Text) → Text × Dict (Dict Text)) → Result Text × Dict (Dict Text)
run_script s script = (ok (script s).0, (script s).1)

pub exists-put_field :
    (s : Dict (Dict Text)) (k f v j : Text)
    → is_key (lookup j (put_field s k f v)) ≡ (text_eq k j || is_key (lookup j s))
exists-put_field s k f v j = rw lookup-insert (ground arith)

pub field-put_field :
    (s : Dict (Dict Text)) (k f v g : Text)
    → lookup g (fields_of (lookup k (put_field s k f v)))
      ≡ (if text_eq f g then some v else lookup g (fields_of (lookup k s)))
field-put_field s k f v g =
    rw (lookup-insert, (text_eq_iff k k).1 refl) (lookup-insert f g v (fields_of (lookup k s)))

pub set_absent-ok :
    (s t : Dict (Dict Text)) (k v : Text) (b : Bool)
    → set_absent s k v ≡ (ok b, t)
    → (b ≡ not (is_key (lookup k s)))
      × ((j : Text) → is_key (lookup j t) ≡ (text_eq k j || is_key (lookup j s)))
set_absent-ok s t k v b h =
    (ground arith, λ j. ground (arith, text_eq_iff k j, lookup-insert k j (([], v) ∷ []) s))

pub remove-ok :
    (s t : Dict (Dict Text)) (k : Text)
    → ◌≡◌ {A = Option Fault × Dict (Dict Text)} (none, without k s) (none, t)
    → (j : Text) → is_key (lookup j t) ≡ (not (text_eq k j) && is_key (lookup j s))
remove-ok s t k h j = ground (arith, lookup-without k j s)

pub hset_absent-ok :
    (s t : Dict (Dict Text)) (k f v : Text)
    → ◌≡◌ {A = Option Fault × Dict (Dict Text)} (none, put_field s k f v) (none, t)
    → t ≡ put_field s k f v
hset_absent-ok s t k f v h = sym (ap (λ p. p.1) h)

pub hget_field-ok : (a b : Option Text) → ok a ≡ ok b → b ≡ a
hget_field-ok a b h = cc

pub run_script-ok :
    (s t : Dict (Dict Text)) (script : Dict (Dict Text) → Text × Dict (Dict Text)) (r : Text)
    → run_script s script ≡ (ok r, t)
    → script s ≡ (r, t)
run_script-ok s t script r h = let (a, u) = script s in cc

abbrev pub local_redis : Redis
local_redis = record {
  State = Dict (Dict Text);
  exists = λ s k. is_key (lookup k s);
  field = λ s k f. lookup f (fields_of (lookup k s));
  hset_cmd = put_field;
  set_nx = set_absent;
  del = λ s k. (none, without k s);
  hset = λ s k f v. (none, put_field s k f v);
  hget = λ s k f. ok (lookup f (fields_of (lookup k s)));
  eval = run_script;
  exists-hset_cmd = exists-put_field;
  field-hset_cmd = field-put_field;
  set_nx-ok = set_absent-ok;
  del-ok = remove-ok;
  hset-ok = hset_absent-ok;
  hget-ok = λ s k f o h. hget_field-ok _ o h;
  eval-ok = run_script-ok;
}
